-- ===== src/Atom/Link.antt =====
-- src/atom.c, `ta_atom_link_t`. Its texts belong to the record.
use taningia.Base.{none, some}
use taningia.Base.CString.{Text, codes}
use taningia.Base.Run.{Run, ok, ◌>>=◌}
use taningia.Iri.{strdup}
use taningia.Object
use taningia.Object.{Object, atom_link_free}
use taningia.Atom.{Pointer, Iris, unref_iri, exchange}
use taningia.Atom.Xml.{Xml, insert_if, insert_iri}

-- `ta_atom_link_t`
pub record Link : Type 0 where
  pub parent : Object
  pub href : Pointer
  pub title : Text
  pub rel : Text
  pub type : Text
  pub length : Text

-- `ta_atom_link_init`: the IRI is stored without a new reference.
unfoldable pub init : Pointer → Link
init href = record {
  parent = Object.init (some atom_link_free);
  href = href;
  title = none;
  rel = none;
  type = none;
  length = none;
}

-- `ta_atom_link_free`, on the IRIs.
unfoldable pub free : Link → Iris → Run Iris
free link iris = unref_iri link.href iris

unfoldable pub get_href : Link → Pointer
get_href link = link.href

unfoldable pub set_href : Link → Pointer → Iris → Run (Link × Iris)
set_href link href iris = do
  iris' ← exchange link.href href iris
  ok (record link { href = href }, iris')

unfoldable pub get_title : Link → Text
get_title link = link.title

unfoldable pub set_title : Link → Text → Run Link
set_title link title = do copy ← strdup title; ok (record link { title = copy })

unfoldable pub get_rel : Link → Text
get_rel link = link.rel

unfoldable pub set_rel : Link → Text → Run Link
set_rel link rel = do copy ← strdup rel; ok (record link { rel = copy })

unfoldable pub get_type : Link → Text
get_type link = link.type

unfoldable pub set_type : Link → Text → Run Link
set_type link type = do copy ← strdup type; ok (record link { type = copy })

unfoldable pub get_length : Link → Text
get_length link = link.length

unfoldable pub set_length : Link → Text → Run Link
set_length link length = do copy ← strdup length; ok (record link { length = copy })

module _ (xml : Xml) where
  -- `ta_atom_link_to_iks`
  unfoldable pub to_iks : Link → Iris → Run xml.Node
  unfolding insert_if insert_iri
  to_iks link iris = do
    lnk ← insert_iri xml (codes "href") link.href iris (xml.new (codes "link"))
    let with_rel = insert_if xml (codes "rel") link.rel lnk
    let with_title = insert_if xml (codes "title") link.title with_rel
    let with_type = insert_if xml (codes "type") link.type with_title
    ok (insert_if xml (codes "length") link.length with_type)
