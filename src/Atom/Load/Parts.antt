-- ===== src/Atom/Load/Parts.antt =====
-- src/atom.c: the parts of an element that is loaded. Where the code returns 0 from the middle of a
-- loading function, the part gives `none`. A test of the form `!ta_iri_set_from_string (…)` is one
-- for `TA_OK`, which is 0.
use Prim.Native.String.{String}
use taningia.Base.{ℕ, suc, Bool, true, false, Option, none, some, if◌then◌else◌}
use taningia.Base.CString.{Bytes, Text, codes}
use taningia.Base.Run.{Run, ok, fault, ◌>>=◌}
use taningia.Object.{is_zero}
use taningia.Atom.{Iris}
use taningia.Atom.Category
use taningia.Atom.Content
use taningia.Atom.Content.{Content}
use taningia.Atom.InReplyTo
use taningia.Atom.InReplyTo.{InReplyTo}
use taningia.Atom.Person
use taningia.Atom.Load.{Reader, Load, refuse, complain, with_store, new_iri, set_iri, drop_iri}
use taningia.Atom.Store.{Kind, persons, categories, replies, contents, unref_object}

-- An object that was made, at the next address.
abbrev pub place : (k : Kind) → k.Carrier → Iris → Load → ℕ × Load
place k x iris l =
    let s = record l.store { iris = iris } in
    (l.next, record l { store = k.put l.next (some x) s; next = suc l.next })

module _ (xml : Reader) (top : ℕ) where
  abbrev pub attrib : xml.Node → String → Text
  attrib ik k = xml.find_attrib ik (codes k)

  abbrev pub cdata : xml.Node → String → Text
  cdata ik k = xml.find_cdata ik (codes k)

  abbrev pub part_refused : {Part : Type 0} → Bytes → Load → Run (Option Part × Load)
  part_refused msg l = do l' ← refuse msg l; ok (none, l')

  -- An error, and the IRI given back.
  abbrev pub iri_refused : {Part : Type 0} → Bytes → ℕ → Load → Run (Option Part × Load)
  iri_refused msg a l = do l1 ← refuse msg l; l2 ← drop_iri a l1; ok (none, l2)

  -- The required fields: the IRI of `id`, and `title`.
  unfoldable pub read_head : xml.Node → Load → Run (Option (ℕ × Bytes) × Load)
  read_head ik l = elim (cdata ik "id") [
    | none ↦ part_refused (codes "No <id> element found") l
    | some id ↦ do
      let (eid, l1) = new_iri l
      (status, l2) ← set_iri top eid id l1
      if is_zero status
          then iri_refused (codes "Invalid <id> iri") eid l2
          else (elim (cdata ik "title") [
            | none ↦ part_refused (codes "No <title> element found") l2
            | some title ↦ ok (some (eid, title), l2)
          ])
  ]

  -- `uri && !ta_iri_set_from_string (iri, uri)`
  abbrev pub uri_refused : Text → ℕ → Load → Run (Bool × Load)
  uri_refused none iri l = ok (false, l)
  uri_refused (some uri) iri l = do (status, l') ← set_iri top iri uri l; ok (is_zero status, l')

  abbrev pub new_author : Bytes → Text → ℕ → Bool × Load → Run (Option ℕ × Load)
  new_author name email iri (true, l) =
      iri_refused (codes "Author with an invalid iri in uri field") iri l
  new_author name email iri (false, l) = do
    (author, iris) ← Person.init (some name) email (some iri) l.store.iris
    let (a, l') = place (persons 0) author iris l
    ok (some a, l')

  -- An author; `look` is what is done with its `uri`.
  unfoldable pub read_author :
      (Text → ℕ → Load → Run (Bool × Load)) → xml.Node → Load → Run (Option ℕ × Load)
  read_author look child l = elim (cdata child "name") [
    | none ↦ part_refused (codes "Author with no name") l
    | some name ↦ do
      let (iri, l1) = new_iri l
      looked ← look (cdata child "uri") iri l1
      new_author name (cdata child "email") iri looked
  ]

  abbrev pub new_category : Bytes → Text → Option ℕ → Load → Run (Option ℕ × Load)
  new_category term label iri l = do
    (category, iris) ← Category.init (some term) label iri l.store.iris
    let (a, l') = place categories category iris l
    ok (some a, l')

  abbrev pub with_scheme : Bytes → Text → Text → Load → Run (Option ℕ × Load)
  with_scheme term label none l = new_category term label none l
  with_scheme term label (some scheme) l = do
    let (iri, l1) = new_iri l
    (status, l2) ← set_iri top iri scheme l1
    if is_zero status
        then iri_refused (codes "Category scheme attribute is not a valid iri") iri l2
        else new_category term label (some iri) l2

  unfoldable pub read_category : xml.Node → Load → Run (Option ℕ × Load)
  read_category child l = elim (attrib child "term") [
    | none ↦ part_refused (codes "Category with no term attribute") l
    | some term ↦ with_scheme term (attrib child "label") (attrib child "scheme") l
  ]

  -- A setter of the reply at an address.
  abbrev on_reply : (InReplyTo → Iris → Run (InReplyTo × Iris)) → ℕ → Load → Run Load
  on_reply set a l = elim (l.store.replies a) [
    | none ↦ fault
    | some irt ↦ do
      (irt', iris) ← set irt l.store.iris
      ok (with_store (replies.put a (some irt') (record l.store { iris = iris })) l)
  ]

  -- The `href` or the `source` of the reply: a refused one gives the reply back, and goes on.
  unfoldable pub reply_iri :
      Bytes → (ℕ → InReplyTo → Iris → Run (InReplyTo × Iris)) → ℕ → Text → Load → Run Load
  reply_iri msg set a none l = ok l
  reply_iri msg set a (some value) l = do
    let (iri, l1) = new_iri l
    (status, l2) ← set_iri top iri value l1
    let refused = (do
      l3 ← complain msg l2
      s ← unref_object replies a l3.store
      ok (with_store s l3))
    if is_zero status then refused else on_reply (set iri) a l2

  abbrev reply_type : ℕ → Text → Load → Run Load
  reply_type a none l = ok l
  reply_type a (some type) l =
      on_reply (λ irt iris. do irt' ← InReplyTo.set_type irt (some type); ok (irt', iris)) a l

  -- A reply that was made, which no entry gets.
  unfoldable pub fill_reply : xml.Node → ℕ → Load → Run Load
  fill_reply child iri_ref l = do
    (irt, iris) ← InReplyTo.init (some iri_ref) l.store.iris
    let (a, l1) = place replies irt iris l
    l2 ←
        reply_iri (codes "InReplyTo element with an invalid href attribute: ")
          (λ iri x. InReplyTo.set_href x (some iri)) a (attrib child "href") l1
    l3 ←
        reply_iri (codes "InReplyTo element with an invalid source attribute: ")
          (λ iri x. InReplyTo.set_source x (some iri)) a (attrib child "source") l2
    reply_type a (attrib child "type") l3

  -- A reply; the flag is false where 0 is returned.
  unfoldable pub read_reply : xml.Node → Load → Run (Bool × Load)
  read_reply child l = elim (attrib child "ref") [
    | none ↦ do l' ← refuse (codes "InReplyTo element with no ref attribute.") l; ok (false, l')
    | some ref ↦ do
      let (iri_ref, l1) = new_iri l
      (status, l2) ← set_iri top iri_ref ref l1
      let refused = (do
        l3 ← complain (codes "InReplyTo element with an invalid ref attribute: ") l2
        ok (false, l3))
      let filled = (do l3 ← fill_reply child iri_ref l2; ok (true, l3))
      if is_zero status then refused else filled
  ]

  abbrev pub default_type : Text → Text → Text
  default_type none none = some (codes "text")
  default_type type src = type

  -- The content, of a type, a source, a text and the size of that text; the inner `none` is for no
  -- content at all.
  unfoldable pub make_content : Text → Text → Text → ℕ → Load → Run (Option (Option ℕ) × Load)
  make_content type (some src) (some text) size l =
      part_refused (codes "Invalid content, it has the src attribute set and content tag is filled")
        l
  make_content type none none size l = ok (some none, l)
  make_content type none (some text) size l = do
    (c1, iris1) ← Content.set_content (Content.init type) (some text) size l.store.iris
    (c2, iris2) ← Content.set_content c1 (some text) size iris1
    let (a, l') = place contents c2 iris2 l
    ok (some (some a), l')
  make_content type (some src) none size l = do
    let (a, l1) = place contents (Content.init type) l.store.iris l
    let (srci, l2) = new_iri l1
    (status, l3) ← set_iri top srci src l2
    let refused = (do
      l4 ← refuse (codes "Invalid iri in content src attribute") l3
      l5 ← drop_iri srci l4
      s ← unref_object contents a l5.store
      ok (none, with_store s l5))
    let sourced = (do
      (c, iris) ← Content.set_src (Content.init type) (some srci) l3.store.iris
      let s = contents.put a (some c) (record l3.store { iris = iris })
      ok (some (some a), with_store s l3))
    if is_zero status then refused else sourced

  unfoldable pub read_content : xml.Node → xml.Node → Load → Run (Option (Option ℕ) × Load)
  read_content ik content l =
      let src = attrib content "src" in
      make_content (default_type (attrib content "type") src) src (cdata ik "content")
        (xml.size content) l
