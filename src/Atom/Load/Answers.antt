-- ===== src/Atom/Load/Answers.antt =====
-- src/atom.c: what the loading functions answer.
use taningia.Base.{
  ℕ, suc, ◌≡◌, refl, ap, true, false, Option, none, some, arith, ◌&&◌, Bool-cases, inl, inr,
}
use taningia.Base.CString.{Bytes, codes}
use taningia.Base.Int.{ℤ}
use taningia.Base.Run.{ok, fault}
use taningia.Error.{live, last, ta_atom_parsing_error}
use taningia.Error.Laws.{IsSound, reported, report_sound}
use taningia.Iri
use taningia.Iri.{Iri}
use taningia.Iri.Parse
use taningia.Iri.Parse.{parse}
use taningia.Object.{unref, is_zero, decrement}
use taningia.Atom.{Iris, put, unref_iri, unref_cell}
use taningia.Atom.Feed.{Feed}
use taningia.Atom.Load.{Reader, Load, parsed, set_iri, drop_iri, returns_0, with_store}
use taningia.Atom.Load.Entries
use taningia.Atom.Load.Feeds
use taningia.Atom.Load.Parts.{read_head}
use taningia.Atom.Store.{Entry}
use taningia.Atom.Xml.{same_key}

-- An element whose name is not the one that is looked for, or which has no children.
unfoldable pub IsForeign : (xml : Reader) → Bytes → xml.Node → Type 0
IsForeign xml s ik =
    (name : Bytes) × (xml.name ik ≡ some name) × ((same_key name s && xml.has_children ik) ≡ false)

-- An element of that name, with children, among them an `id` with a text.
pub record IsRoot (xml : Reader) (s told : Bytes) (ik : xml.Node) : Type 0 where
  pub name : xml.name ik ≡ some s
  pub children : xml.has_children ik ≡ true
  pub id : xml.find_cdata ik (codes "id") ≡ some told

-- Two files, one for an entry whose root element has not the name of an entry, or has no children, and
-- one for a feed whose root element has not the name of a feed, or has no children, read by a thread
-- whose last message was not freed: both file functions fault, since they delete the element that the
-- loading function has deleted.
pub set_from_file-IsForeign :
    (xml : Reader) (top fuel : ℕ) (iso8601_to_time : Bytes → ℤ) (now : ℤ) (ik ik' : xml.Node)
    (entry : Entry) (feed : Feed) (l : Load)
    → IsSound l.errors
    → IsForeign xml (codes "entry") ik
    → IsForeign xml (codes "feed") ik'
    → (Entries.set_from_file xml top iso8601_to_time fuel entry (parsed ik) l ≡ fault)
      × (Feeds.set_from_file xml top iso8601_to_time now fuel feed (parsed ik') l ≡ fault)
unfolding Entries.set_from_file Entries.set_from_iks Feeds.set_from_file Feeds.set_from_iks
    IsForeign
set_from_file-IsForeign xml top fuel iso8601_to_time now ik ik' entry feed l s (name, at, foreign)
      (name', at', foreign') =
    let entry_told =
      report_sound ta_atom_parsing_error (codes "Wrong root entry element") l.errors s
        (omega arith) in
    let feed_told =
      report_sound ta_atom_parsing_error (codes "Wrong root feed element") l.errors s
        (omega arith) in
    (rw (at, foreign, entry_told) refl, rw (at', foreign', feed_told) refl)

put_same : (a : ℕ) (i : Option Iri) (iris : Iris) → put a i iris a ≡ i
put_same a i iris = ground arith

unref_cell-ok : (i : Iri) → (left : Option Iri) × (unref_cell (some i) ≡ ok left)
unfolding unref_cell unref
unref_cell-ok i =
    let parent = record i.parent { refcount = decrement i.parent.refcount } in
    elim (Bool-cases (is_zero (decrement i.parent.refcount))) [
      | inl gone ↦ (none, rw gone refl)
      | inr more ↦ (some (record i { parent = parent }), rw more refl)
    ]

-- To give an IRI back does not fault.
drop_iri-ok :
    (a : ℕ) (i : Iri) (l : Load)
    → l.store.iris a ≡ some i
    → (l' : Load) × (drop_iri a l ≡ ok l') × (l'.errors ≡ l.errors)
unfolding unref_iri
drop_iri-ok a i l e =
    let (left, gives) = unref_cell-ok i in
    (with_store (record l.store { iris = put a left l.store.iris }) l, rw (e, gives) refl, refl)

-- The memory where the IRI is parsed, and the error is stored.
abbrev refused_at : Iri → Load → Load
refused_at iri l = record {
  store = record l.store { iris = put l.next (some iri) (put l.next (some Iri.init) l.store.iris) };
  errors = reported ta_atom_parsing_error (codes "Invalid <id> iri");
  next = suc l.next;
}

read_head-drop :
    (xml : Reader) (top : ℕ) (ik : xml.Node) (id : Bytes) (iri : Iri) (l l' : Load)
    → IsSound l.errors
    → xml.find_cdata ik (codes "id") ≡ some id
    → parse top id Iri.init ≡ ok (iri, none)
    → drop_iri l.next (refused_at iri l) ≡ ok l'
    → read_head xml top ik l ≡ ok (none, l')
unfolding read_head set_iri Parse.set_from_string
read_head-drop xml top ik id iri l l' s here parses dropped =
    let fresh_iri = put_same l.next (some Iri.init) l.store.iris in
    let told =
      report_sound ta_atom_parsing_error (codes "Invalid <id> iri") l.errors s (omega arith) in
    rw (here, read_head)
      (rw (fresh_iri, set_iri) (rw (parses, Parse.set_from_string) (rw told (rw dropped refl))))

-- The id of an element is a string that the parser of IRIs takes, and the last message of the thread
-- was not freed: the required fields are refused, with the error that says that the id is invalid.
read_head-valid_id :
    (xml : Reader) (top : ℕ) (ik : xml.Node) (id : Bytes) (iri : Iri) (l : Load)
    → IsSound l.errors
    → xml.find_cdata ik (codes "id") ≡ some id
    → parse top id Iri.init ≡ ok (iri, none)
    → (l' : Load) × (read_head xml top ik l ≡ ok (none, l'))
      × (last l'.errors ≡ some (ta_atom_parsing_error, live (codes "Invalid <id> iri")))
unfolding last
read_head-valid_id xml top ik id iri l s here parses =
    let at_end = put_same l.next (some iri) (put l.next (some Iri.init) l.store.iris) in
    let (l', dropped, kept) = drop_iri-ok l.next iri (refused_at iri l) at_end in
    (l', read_head-drop xml top ik id iri l l' s here parses dropped, ap last kept)

-- The root element has the name of an entry or of a feed, and children; its id is a string that the
-- parser of IRIs takes, and the last message of the thread was not freed: the loading functions
-- answer 0, leave the entry or the feed as it was, and the last error is an invalid id.
pub set_from_iks-valid_id :
    (xml : Reader) (top fuel : ℕ) (iso8601_to_time : Bytes → ℤ) (now : ℤ) (ik ik' : xml.Node)
    (entry : Entry) (feed : Feed) (id : Bytes) (iri : Iri) (l : Load)
    → IsSound l.errors
    → IsRoot xml (codes "entry") id ik
    → IsRoot xml (codes "feed") id ik'
    → parse top id Iri.init ≡ ok (iri, none)
    → (m m' : Load) × (Entries.set_from_iks xml top iso8601_to_time fuel entry ik l
        ≡ ok (returns_0 entry m))
      × (Feeds.set_from_iks xml top iso8601_to_time now fuel feed ik' l ≡ ok (returns_0 feed m'))
      × (last m.errors ≡ some (ta_atom_parsing_error, live (codes "Invalid <id> iri")))
      × (last m'.errors ≡ some (ta_atom_parsing_error, live (codes "Invalid <id> iri")))
unfolding Entries.set_from_iks Entries.load_fields Feeds.set_from_iks Feeds.load_fields
set_from_iks-valid_id xml top fuel iso8601_to_time now ik ik' entry feed id iri l s root root'
      parses =
    let (m, reads, told) = read_head-valid_id xml top ik id iri l s root.id parses in
    let (m', reads', told') = read_head-valid_id xml top ik' id iri l s root'.id parses in
    (
      m,
      m',
      rw (root.name, root.children, reads) refl,
      rw (root'.name, root'.children, reads') refl,
      told,
      told',
    )
