-- ===== src/Atom/Load/Troubles.antt =====
-- src/atom.c: the errors that the loading of an entry leaves in the thread.
use taningia.Base.{ℕ, ◌≡◌, Bool, true, false, Option, none, some}
use taningia.Base.CString.{Bytes, Text, codes}
use taningia.Base.Int.{ℤ}
use taningia.Base.Run.{Run, After, >>=-After, >>=-After_any, if-After, option-After}
use taningia.Error.{Global, report, ta_atom_parsing_error, ta_iri_parsing_error}
use taningia.Error.Laws.{report_lem}
use taningia.Iri.{Iri}
use taningia.Iri.Parse
use taningia.Iri.Parse.{parse}
use taningia.Object.{is_zero}
use taningia.Atom.{unref_iri}
use taningia.Atom.Category
use taningia.Atom.Person
use taningia.Atom.Store.{with_iris}
use taningia.Atom.Load.{Reader, Load, refuse, set_iri, drop_iri, new_iri}
use taningia.Atom.Load.Parts.{
  part_refused, iri_refused, read_head, uri_refused, new_author, read_author, new_category,
  with_scheme, read_category,
}

-- The thread has an error.
abbrev pub Troubled : Load → Type 0
Troubled l = l.errors.last_error ≡ true

-- What a part gives, with an error in the thread.
abbrev pub PartTroubled : {Part : Type 0} → Run (Part × Load) → Type 0
PartTroubled run = After (λ r. Troubled r.1) run

pub refuse-Troubled : (msg : Bytes) (l : Load) → After Troubled (refuse msg l)
unfolding After
refuse-Troubled msg l =
    >>=-After (λ g. g.last_error ≡ true) Troubled (report ta_atom_parsing_error msg l.errors) _
      (report_lem ta_atom_parsing_error msg l.errors) (λ g h. h)

pub drop_iri-Troubled : (a : ℕ) (l : Load) → Troubled l → After Troubled (drop_iri a l)
unfolding After
drop_iri-Troubled a l h =
    >>=-After_any Troubled (with_iris (unref_iri (some a) l.store.iris) l.store) _ (λ s. h)

pub part_refused-Troubled :
    (Part : Type 0) (xml : Reader) (top : ℕ) (msg : Bytes) (l : Load)
    → PartTroubled (part_refused xml top {Part = Part} msg l)
unfolding After
part_refused-Troubled Part xml top msg l =
    >>=-After Troubled (λ r. Troubled r.1) (refuse msg l) _ (refuse-Troubled msg l) (λ l' h. h)

pub iri_refused-Troubled :
    (Part : Type 0) (xml : Reader) (top : ℕ) (msg : Bytes) (a : ℕ) (l : Load)
    → PartTroubled (iri_refused xml top {Part = Part} msg a l)
unfolding After
iri_refused-Troubled Part xml top msg a l =
    >>=-After Troubled (λ r. Troubled r.1) (refuse msg l) _ (refuse-Troubled msg l)
      (λ l1 h.
        >>=-After Troubled (λ r. Troubled r.1) (drop_iri a l1) _ (drop_iri-Troubled a l1 h)
          (λ l2 k. k))

-- What the parser of IRIs leaves of the errors: one where it refuses, and the old one where it does
-- not.
abbrev pub Told : Global → ℤ → Global → Type 0
Told g status g' =
    (is_zero status ≡ false → g'.last_error ≡ true) × (g.last_error ≡ true → g'.last_error ≡ true)

set_from_string-Told :
    (top : ℕ) (string : Bytes) (iri : Iri) (g : Global)
    → After (λ r. Told g r.2 r.1) (Parse.set_from_string top string iri g)
unfolding After Parse.set_from_string
set_from_string-Told top string iri g =
    >>=-After_any (λ r. Told g r.2 r.1) (parse top string iri) _
      (λ r.
        option-After (λ q. Told g q.2 q.1) r.1 _ _ (λ e. cc, λ h. h)
          (λ msg.
            >>=-After (λ g'. g'.last_error ≡ true) (λ q. Told g q.2 q.1)
              (report ta_iri_parsing_error msg g) _ (report_lem ta_iri_parsing_error msg g)
              (λ g' told. (λ e. told, λ e. told))))

pub set_iri-Told :
    (top a : ℕ) (string : Bytes) (l : Load)
    → After (λ r. Told l.errors r.0 r.1.errors) (set_iri top a string l)
unfolding After set_iri
set_iri-Told top a string l =
    option-After (λ r. Told l.errors r.0 r.1.errors) (l.store.iris a) _ _ tt
      (λ i.
        >>=-After (λ r. Told l.errors r.2 r.1) (λ r. Told l.errors r.0 r.1.errors)
          (Parse.set_from_string top string i l.errors) _
          (set_from_string-Told top string i l.errors) (λ r told. told))

-- The required fields leave an error, whether they are refused or not.
pub read_head-Troubled :
    (xml : Reader) (top : ℕ) (ik : xml.Node) (l : Load) → PartTroubled (read_head xml top ik l)
unfolding After read_head
read_head-Troubled xml top ik l =
    option-After (λ r. Troubled r.1) (xml.find_cdata ik (codes "id")) _ _
      (part_refused-Troubled (ℕ × Bytes) xml top (codes "No <id> element found") l)
      (λ id.
        >>=-After (λ r. Told l.errors r.0 r.1.errors) (λ r. Troubled r.1) _ _
          (set_iri-Told top l.next id (new_iri l).1)
          (λ (status, l2) told.
            if-After (λ r. Troubled r.1) (is_zero status) _ _
              (λ yes'.
                iri_refused-Troubled (ℕ × Bytes) xml top (codes "Invalid <id> iri") l.next l2)
              (λ no'.
                option-After (λ r. Troubled r.1) (xml.find_cdata ik (codes "title")) _ _
                  (part_refused-Troubled (ℕ × Bytes) xml top (codes "No <title> element found") l2)
                  (λ title. told.0 no'))))

looked-Troubled :
    (xml : Reader) (top : ℕ) (uri : Text) (a : ℕ) (l : Load)
    → Troubled l
    → PartTroubled (uri_refused xml top uri a l)
unfolding After
looked-Troubled xml top none a l h = h
looked-Troubled xml top (some uri) a l h =
    >>=-After (λ r. Told l.errors r.0 r.1.errors) (λ r. Troubled r.1) (set_iri top a uri l) _
      (set_iri-Told top a uri l) (λ r told. told.1 h)

new_author-Troubled :
    (xml : Reader) (top : ℕ) (name : Bytes) (email : Text) (a : ℕ) (refused : Bool) (l : Load)
    → Troubled l
    → PartTroubled (new_author xml top name email a (refused, l))
unfolding After
new_author-Troubled xml top name email a true l h =
    iri_refused-Troubled ℕ xml top (codes "Author with an invalid iri in uri field") a l
new_author-Troubled xml top name email a false l h =
    >>=-After_any (λ r. Troubled r.1) (Person.init (some name) email (some a) l.store.iris) _
      (λ r. h)

pub read_author-Troubled :
    (xml : Reader) (top : ℕ) (ik : xml.Node) (l : Load)
    → Troubled l
    → PartTroubled (read_author xml top (uri_refused xml top) ik l)
unfolding After read_author
read_author-Troubled xml top ik l h =
    option-After (λ r. Troubled r.1) (xml.find_cdata ik (codes "name")) _ _
      (part_refused-Troubled ℕ xml top (codes "Author with no name") l)
      (λ name.
        >>=-After (λ r. Troubled r.1) (λ r. Troubled r.1) _ _
          (looked-Troubled xml top (xml.find_cdata ik (codes "uri")) l.next (new_iri l).1 h)
          (λ (refused, l2) k.
            new_author-Troubled xml top name (xml.find_cdata ik (codes "email")) l.next refused l2
              k))

new_category-Troubled :
    (xml : Reader) (top : ℕ) (term : Bytes) (label : Text) (iri : Option ℕ) (l : Load)
    → Troubled l
    → PartTroubled (new_category xml top term label iri l)
unfolding After
new_category-Troubled xml top term label iri l h =
    >>=-After_any (λ r. Troubled r.1) (Category.init (some term) label iri l.store.iris) _ (λ r. h)

with_scheme-Troubled :
    (xml : Reader) (top : ℕ) (term : Bytes) (label scheme : Text) (l : Load)
    → Troubled l
    → PartTroubled (with_scheme xml top term label scheme l)
unfolding After
with_scheme-Troubled xml top term label none l h = new_category-Troubled xml top term label none l h
with_scheme-Troubled xml top term label (some scheme) l h =
    >>=-After (λ r. Told l.errors r.0 r.1.errors) (λ r. Troubled r.1) _ _
      (set_iri-Told top l.next scheme (new_iri l).1)
      (λ (status, l2) told.
        if-After (λ r. Troubled r.1) (is_zero status) _ _
          (λ yes'.
            iri_refused-Troubled ℕ xml top (codes "Category scheme attribute is not a valid iri")
              l.next l2)
          (λ no'. new_category-Troubled xml top term label (some l.next) l2 (told.1 h)))

pub read_category-Troubled :
    (xml : Reader) (top : ℕ) (ik : xml.Node) (l : Load)
    → Troubled l
    → PartTroubled (read_category xml top ik l)
unfolding After read_category
read_category-Troubled xml top ik l h =
    option-After (λ r. Troubled r.1) (xml.find_attrib ik (codes "term")) _ _
      (part_refused-Troubled ℕ xml top (codes "Category with no term attribute") l)
      (λ term.
        with_scheme-Troubled xml top term (xml.find_attrib ik (codes "label"))
          (xml.find_attrib ik (codes "scheme")) l h)
