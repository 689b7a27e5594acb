-- ===== src/Atom/Entry.antt =====
-- src/atom.c, `ta_atom_entry_t`. Its texts belong to the record. Where a function takes an object to
-- add, the object is not NULL. The loops over lists run on fuel, and running out of it is a fault.
pub mod Element
pub mod Replies
pub mod Deletion
use taningia.Base.{ℕ, zero, suc, Option, none, some, List, [], ◌∷◌, is_some, if◌then◌else◌}
use taningia.Base.CString.{Text}
use taningia.Base.Int.{ℤ, pos}
use taningia.Base.Run.{Run, ok, fault, ◌>>=◌}
use taningia.Iri.{strdup}
use taningia.Object
use taningia.Object.{atom_entry_free}
use taningia.TaList.{load, free_all}
use taningia.Atom.{Pointer, unref_iri, ref_iri, exchange}
use taningia.Atom.Store.{
  Entry, Store, Kind, set_at, persons, categories, links, replies, contents, elements, unref_each,
  del_list, add_to, unref_object, ref_object, with_iris,
}

-- `ta_atom_entry_init`: the list of extension elements is not written. `now` is `time (0)`.
unfoldable pub init : ℤ → Text → Entry
init now title = record {
  parent = Object.init (some atom_entry_free);
  id = none;
  title = title;
  updated = now;
  published = pos 0;
  rights = none;
  authors = none;
  categories = none;
  links = none;
  summary = none;
  content = none;
  ext_elements = none;
  in_reply_to = none;
}

unfoldable pub get_title : Entry → Text
get_title entry = entry.title

unfoldable pub set_title : Entry → Text → Run Entry
set_title entry title = do copy ← strdup title; ok (record entry { title = copy })

unfoldable pub get_id : Entry → Pointer
get_id entry = entry.id

unfoldable pub set_id : Entry → Pointer → Store → Run (Entry × Store)
set_id entry id s = do
  s' ← with_iris (exchange entry.id id s.iris) s
  ok (record entry { id = id }, s')

unfoldable pub get_updated : Entry → ℤ
get_updated entry = entry.updated

unfoldable pub set_updated : Entry → ℤ → Entry
set_updated entry updated = record entry { updated = updated }

unfoldable pub get_published : Entry → ℤ
get_published entry = entry.published

unfoldable pub set_published : Entry → ℤ → Entry
set_published entry published = record entry { published = published }

unfoldable pub get_rights : Entry → Text
get_rights entry = entry.rights

unfoldable pub set_rights : Entry → Text → Run Entry
set_rights entry rights = do copy ← strdup rights; ok (record entry { rights = copy })

unfoldable pub get_authors : Entry → Pointer
get_authors entry = entry.authors

unfoldable pub add_author : ℕ → Entry → ℕ → Store → Run (Entry × Store)
add_author fuel entry author s = do
  (list, s') ← add_to (persons fuel) fuel entry.authors author s
  ok (record entry { authors = list }, s')

unfoldable pub del_authors : ℕ → Entry → Store → Run (Entry × Store)
del_authors fuel entry s = do
  s' ← del_list (persons fuel) fuel entry.authors s
  ok (record entry { authors = none }, s')

unfoldable pub get_categories : Entry → Pointer
get_categories entry = entry.categories

unfoldable pub add_category : ℕ → Entry → ℕ → Store → Run (Entry × Store)
add_category fuel entry category s = do
  (list, s') ← add_to categories fuel entry.categories category s
  ok (record entry { categories = list }, s')

unfoldable pub del_categories : ℕ → Entry → Store → Run (Entry × Store)
del_categories fuel entry s = do
  s' ← del_list categories fuel entry.categories s
  ok (record entry { categories = none }, s')

unfoldable pub get_links : Entry → Pointer
get_links entry = entry.links

unfoldable pub add_link : ℕ → Entry → ℕ → Store → Run (Entry × Store)
add_link fuel entry link s = do
  (list, s') ← add_to links fuel entry.links link s
  ok (record entry { links = list }, s')

unfoldable pub del_links : ℕ → Entry → Store → Run (Entry × Store)
del_links fuel entry s = do
  s' ← del_list links fuel entry.links s
  ok (record entry { links = none }, s')

unfoldable pub get_summary : Entry → Text
get_summary entry = entry.summary

-- `ta_atom_entry_set_summary`, which takes NULL.
unfoldable pub set_summary : Entry → Text → Entry
set_summary entry summary = record entry { summary = summary }

unfoldable pub get_content : Entry → Pointer
get_content entry = entry.content

abbrev pub unref_if : Kind → Pointer → Store → Run Store
unref_if k none s = ok s
unref_if k (some a) s = unref_object k a s

unfoldable pub set_content : Entry → ℕ → Store → Run (Entry × Store)
set_content entry content s = do
  s1 ← unref_if contents entry.content s
  s2 ← ref_object contents content s1
  ok (record entry { content = some content }, s2)

-- The list of extension elements; one that was never written is a fault.
abbrev pub written : Option Pointer → Run Pointer
written none = fault
written (some p) = ok p

unfoldable pub add_see : ℕ → Entry → ℕ → Store → Run (Entry × Store)
add_see fuel entry element s = do
  list ← written entry.ext_elements
  (list', s') ← add_to elements fuel list element s
  ok (record entry { ext_elements = some list' }, s')

-- The loop of `ta_atom_entry_del_see`, which calls the destructor of each element and leaves its
-- references as they are: the elements that have lost their texts.
unfoldable pub tear_each : ℕ → Pointer → Store → Run (List ℕ)
tear_each zero p s = fault
tear_each (suc fuel) none s = ok []
tear_each (suc fuel) (some a) s = do
  n ← load s.heap a
  torn ← tear_each fuel n.next s
  if is_some (s.elements n.datum) then ok (n.datum ∷ torn) else fault

unfoldable pub del_see : ℕ → Entry → Store → Run (Entry × Store × List ℕ)
del_see fuel entry s = do
  list ← written entry.ext_elements
  torn ← tear_each fuel list s
  h ← free_all fuel s.heap list
  ok (record entry { ext_elements = some none }, record s { heap = h }, torn)

unfoldable pub get_see : Entry → Run Pointer
get_see entry = written entry.ext_elements

unfoldable pub add_inreplyto : ℕ → Entry → ℕ → Store → Run (Entry × Store)
add_inreplyto fuel entry irt s = do
  (list, s') ← add_to replies fuel entry.in_reply_to irt s
  ok (record entry { in_reply_to = list }, s')

-- `ta_atom_entry_del_inreplyto`: the field that is set to NULL is `ext_elements`.
unfoldable pub del_inreplyto : ℕ → Entry → Store → Run (Entry × Store)
del_inreplyto fuel entry s = do
  s' ← del_list replies fuel entry.in_reply_to s
  ok (record entry { ext_elements = some none }, s')

unfoldable pub get_inreplyto : Entry → Pointer
get_inreplyto entry = entry.in_reply_to

-- `ta_atom_entry_free`: the links and the extension elements stay.
unfoldable pub free : ℕ → Entry → Store → Run Store
free fuel entry s = do
  s1 ← with_iris (unref_iri entry.id s.iris) s
  (entry2, s2) ← del_authors fuel entry s1
  (entry3, s3) ← del_categories fuel entry2 s2
  (entry4, s4) ← del_inreplyto fuel entry3 s3
  unref_if contents entry.content s4

-- An entry as an object in a list.
abbrev pub entries : ℕ → Kind
entries fuel = record {
  Carrier = Entry;
  object = λ x. x.parent;
  with_object = λ o x. record x { parent = o };
  cell = λ a s. s.entries a;
  put = λ a x s. record s { entries = set_at a x s.entries };
  destroy = λ x s. free fuel x s;
}
