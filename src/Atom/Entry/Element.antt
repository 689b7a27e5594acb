-- ===== src/Atom/Entry/Element.antt =====
-- src/atom.c, `ta_atom_entry_to_iks`. `time_to_iso8601`, which prints what gmtime makes of a time, is
-- a parameter.
use taningia.Base.{ℕ, zero, suc, Option, none, some, if◌then◌else◌}
use taningia.Base.CString.{Bytes, Text, codes}
use taningia.Base.Int.{ℤ}
use taningia.Base.Run.{Run, ok, fault, ◌>>=◌}
use taningia.Object.{is_zero}
use taningia.TaList.{load}
use taningia.Atom.{Pointer, print_iri}
use taningia.Atom.Category
use taningia.Atom.Content
use taningia.Atom.InReplyTo
use taningia.Atom.Link
use taningia.Atom.Person
use taningia.Atom.Person.{insert_child}
use taningia.Atom.Store.{Entry, Store}
use taningia.Atom.Xml.{Xml}

-- `time_to_iso8601`
abbrev pub Iso : Type 0
Iso = ℤ → Bytes

-- `TA_ATOM_NS`
abbrev pub atom_ns : Bytes
atom_ns = codes "http://www.w3.org/2005/Atom"

module _ (xml : Xml) where
  abbrev pub child_if : Bytes → Text → xml.Node → xml.Node
  child_if name none ik = ik
  child_if name (some text) ik = insert_child xml name (some text) ik

  -- A loop over a list that makes an element of each object and inserts it.
  unfoldable pub insert_list :
      (ℕ → Store → Run xml.Node) → ℕ → Pointer → Store → xml.Node → Run xml.Node
  insert_list make zero p s ik = fault
  insert_list make (suc fuel) none s ik = ok ik
  insert_list make (suc fuel) (some a) s ik = do
    n ← load s.heap a
    element ← make n.datum s
    insert_list make fuel n.next s (xml.insert_node ik element)

  abbrev pub found : {A : Type 0} → (A → Run xml.Node) → Option A → Run xml.Node
  found make none = fault
  found make (some x) = make x

  -- The elements of the objects, by address.
  abbrev pub author_node : ℕ → ℕ → Store → Run xml.Node
  author_node fuel a s =
      found (λ x. Person.to_iks xml fuel x (codes "author") s.iris s.heap s.elements) (s.persons a)

  abbrev pub category_node : ℕ → Store → Run xml.Node
  category_node a s = found (λ x. Category.to_iks xml x s.iris) (s.categories a)

  abbrev pub link_node : ℕ → Store → Run xml.Node
  link_node a s = found (λ x. Link.to_iks xml x s.iris) (s.links a)

  abbrev pub reply_node : ℕ → Store → Run xml.Node
  reply_node a s = found (λ x. InReplyTo.to_iks xml x s.iris) (s.replies a)

  abbrev pub insert_content : Pointer → Store → xml.Node → Run xml.Node
  insert_content none s ik = ok ik
  insert_content (some a) s ik = do
    element ← found (λ x. Content.to_iks xml x s.iris) (s.contents a)
    ok (xml.insert_node ik element)

  -- The first elements of an entry or a feed: its id, title and time.
  unfoldable pub head_of : Bytes → Iso → Bytes → Text → ℤ → xml.Node
  head_of name iso id title updated =
      let root = xml.insert_attrib (xml.new name) (codes "xmlns") (some atom_ns) in
      insert_child xml (codes "updated") (some (iso updated))
        (insert_child xml (codes "title") title (insert_child xml (codes "id") (some id) root))

  unfoldable pub insert_published : Iso → ℤ → xml.Node → xml.Node
  insert_published iso published ik =
      if is_zero published
      then ik
      else insert_child xml (codes "published") (some (iso published)) ik

  -- `ta_atom_entry_to_iks`; an entry without an id gives NULL.
  unfoldable pub to_iks : ℕ → Iso → Entry → Store → Run (Option xml.Node)
  to_iks fuel iso entry s = elim entry.id [
    | none ↦ ok none
    | some id ↦ do
      id_iri ← print_iri (some id) s.iris
      let head = head_of (codes "entry") iso id_iri entry.title entry.updated
      let dated = insert_published iso entry.published head
      let root = child_if (codes "rights") entry.rights dated
      with_authors ← insert_list (author_node fuel) fuel entry.authors s root
      with_categories ← insert_list category_node fuel entry.categories s with_authors
      with_links ← insert_list link_node fuel entry.links s with_categories
      with_replies ← insert_list reply_node fuel entry.in_reply_to s with_links
      let with_summary = child_if (codes "summary") entry.summary with_replies
      ik ← insert_content entry.content s with_summary
      ok (some ik)
  ]
