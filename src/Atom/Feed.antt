-- ===== src/Atom/Feed.antt =====
-- src/atom.c, `ta_atom_feed_t`. Its title belongs to the record. Where a function takes an object to
-- add, the object is not NULL. The loops over lists run on fuel, and running out of it is a fault.
use taningia.Base.{ℕ, Option, none, some}
use taningia.Base.CString.{Text, codes}
use taningia.Base.Int.{ℤ}
use taningia.Base.Run.{Run, ok, fault, ◌>>=◌}
use taningia.Iri.{strdup}
use taningia.Object
use taningia.Object.{Object, atom_feed_free}
use taningia.Atom.{Pointer, unref_iri, exchange, print_iri}
use taningia.Atom.Store.{Store, persons, categories, links, del_list, free_each, add_to, with_iris}
use taningia.Atom.Entry.{entries, written}
use taningia.Atom.Entry.Element
use taningia.Atom.Entry.Element.{Iso, author_node, category_node, insert_list, head_of, found}
use taningia.Atom.Xml.{Xml}

-- `ta_atom_feed_t`; a list is `none` where it was never written.
pub record Feed : Type 0 where
  pub parent : Object
  pub id : Pointer
  pub title : Text
  pub updated : ℤ
  pub authors : Pointer
  pub categories : Pointer
  pub entries : Pointer
  pub links : Option Pointer
  pub ext_elements : Option Pointer

-- `ta_atom_feed_init`: the links and the extension elements are not written. `now` is `time (0)`.
unfoldable pub init : ℤ → Text → Feed
init now title = record {
  parent = Object.init (some atom_feed_free);
  id = none;
  title = title;
  updated = now;
  authors = none;
  categories = none;
  entries = none;
  links = none;
  ext_elements = none;
}

unfoldable pub get_title : Feed → Text
get_title feed = feed.title

unfoldable pub set_title : Feed → Text → Run Feed
set_title feed title = do copy ← strdup title; ok (record feed { title = copy })

unfoldable pub get_id : Feed → Pointer
get_id feed = feed.id

unfoldable pub set_id : Feed → Pointer → Store → Run (Feed × Store)
set_id feed id s = do
  s' ← with_iris (exchange feed.id id s.iris) s
  ok (record feed { id = id }, s')

unfoldable pub get_updated : Feed → ℤ
get_updated feed = feed.updated

unfoldable pub set_updated : Feed → ℤ → Feed
set_updated feed updated = record feed { updated = updated }

unfoldable pub get_authors : Feed → Pointer
get_authors feed = feed.authors

unfoldable pub add_author : ℕ → Feed → ℕ → Store → Run (Feed × Store)
add_author fuel feed author s = do
  (list, s') ← add_to (persons fuel) fuel feed.authors author s
  ok (record feed { authors = list }, s')

unfoldable pub del_authors : ℕ → Feed → Store → Run (Feed × Store)
del_authors fuel feed s = do
  s' ← free_each (persons fuel) fuel feed.authors s
  ok (record feed { authors = none }, s')

unfoldable pub get_categories : Feed → Pointer
get_categories feed = feed.categories

unfoldable pub add_category : ℕ → Feed → ℕ → Store → Run (Feed × Store)
add_category fuel feed category s = do
  (list, s') ← add_to categories fuel feed.categories category s
  ok (record feed { categories = list }, s')

unfoldable pub del_categories : ℕ → Feed → Store → Run (Feed × Store)
del_categories fuel feed s = do
  s' ← del_list categories fuel feed.categories s
  ok (record feed { categories = none }, s')

unfoldable pub get_links : Feed → Run Pointer
get_links feed = written feed.links

unfoldable pub add_link : ℕ → Feed → ℕ → Store → Run (Feed × Store)
add_link fuel feed link s = do
  list ← written feed.links
  (list', s') ← add_to links fuel list link s
  ok (record feed { links = some list' }, s')

unfoldable pub del_links : ℕ → Feed → Store → Run (Feed × Store)
del_links fuel feed s = do
  list ← written feed.links
  s' ← del_list links fuel list s
  ok (record feed { links = some none }, s')

unfoldable pub get_entries : Feed → Pointer
get_entries feed = feed.entries

unfoldable pub add_entry : ℕ → Feed → ℕ → Store → Run (Feed × Store)
add_entry fuel feed entry s = do
  (list, s') ← add_to (entries fuel) fuel feed.entries entry s
  ok (record feed { entries = list }, s')

unfoldable pub del_entries : ℕ → Feed → Store → Run (Feed × Store)
del_entries fuel feed s = do
  s' ← free_each (entries fuel) fuel feed.entries s
  ok (record feed { entries = none }, s')

-- `ta_atom_feed_free`: the links stay.
unfoldable pub free : ℕ → Feed → Store → Run Store
free fuel feed s = do
  s1 ← with_iris (unref_iri feed.id s.iris) s
  (feed2, s2) ← del_authors fuel feed s1
  (feed3, s3) ← del_categories fuel feed2 s2
  (feed4, s4) ← del_entries fuel feed3 s3
  ok s4

module _ (xml : Xml) where
  -- `iks_insert_node` of an element that may be NULL, which that function does not take.
  abbrev pub not_null : Option xml.Node → Run xml.Node
  not_null none = fault
  not_null (some ik) = ok ik

  abbrev pub entry_node : ℕ → Iso → ℕ → Store → Run xml.Node
  entry_node fuel iso a s =
      found xml (λ x. do ik ← Element.to_iks xml fuel iso x s; not_null ik) (s.entries a)

  -- `ta_atom_feed_to_iks`; a feed without an id gives NULL.
  unfoldable pub to_iks : ℕ → Iso → Feed → Store → Run (Option xml.Node)
  to_iks fuel iso feed s = elim feed.id [
    | none ↦ ok none
    | some id ↦ do
      id_iri ← print_iri (some id) s.iris
      let head = head_of xml (codes "feed") iso id_iri feed.title feed.updated
      with_authors ← insert_list xml (author_node xml fuel) fuel feed.authors s head
      with_categories ← insert_list xml (category_node xml) fuel feed.categories s with_authors
      ik ← insert_list xml (entry_node fuel iso) fuel feed.entries s with_categories
      ok (some ik)
  ]
