-- ===== src/Atom/Category.antt =====
-- src/atom.c, `ta_atom_category_t`. Its texts belong to the record.
use taningia.Base.{none, some}
use taningia.Base.CString.{Text, codes}
use taningia.Base.Run.{Run, ok, ◌>>=◌}
use taningia.Iri.{strdup}
use taningia.Object
use taningia.Object.{Object, atom_category_free}
use taningia.Atom.{Pointer, Iris, ref_iri, unref_iri}
use taningia.Atom.Xml.{Xml, insert_if, insert_iri_if}

-- `ta_atom_category_t`
pub record Category : Type 0 where
  pub parent : Object
  pub label : Text
  pub term : Text
  pub scheme : Pointer

-- `scheme ? ta_object_ref (scheme) : NULL`
abbrev pub ref_if : Pointer → Iris → Run Iris
ref_if none iris = ok iris
ref_if (some a) iris = ref_iri (some a) iris

-- `ta_atom_category_init`
unfoldable pub init : Text → Text → Pointer → Iris → Run (Category × Iris)
init term label scheme iris = do
  copy ← strdup term
  iris' ← ref_if scheme iris
  ok (
    record {
      parent = Object.init (some atom_category_free);
      label = label;
      term = copy;
      scheme = scheme;
    },
    iris',
  )

-- `ta_atom_category_free`, on the IRIs.
unfoldable pub free : Category → Iris → Run Iris
free category iris = unref_iri category.scheme iris

unfoldable pub get_label : Category → Text
get_label category = category.label

unfoldable pub set_label : Category → Text → Category
set_label category label = record category { label = label }

unfoldable pub get_term : Category → Text
get_term category = category.term

unfoldable pub set_term : Category → Text → Run Category
set_term category term = do copy ← strdup term; ok (record category { term = copy })

unfoldable pub get_scheme : Category → Pointer
get_scheme category = category.scheme

unfoldable pub set_scheme : Category → Pointer → Iris → Run (Category × Iris)
set_scheme category scheme iris = do
  iris' ← unref_iri category.scheme iris
  iris'' ← ref_if scheme iris'
  ok (record category { scheme = scheme }, iris'')

module _ (xml : Xml) where
  -- `ta_atom_category_to_iks`
  unfoldable pub to_iks : Category → Iris → Run xml.Node
  unfolding insert_if insert_iri_if
  to_iks category iris =
      let ik = xml.insert_attrib (xml.new (codes "category")) (codes "term") category.term in
      insert_iri_if xml (codes "scheme") category.scheme iris
        (insert_if xml (codes "label") category.label ik)
