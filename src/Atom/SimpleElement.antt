-- ===== src/Atom/SimpleElement.antt =====
-- src/atom.c, `ta_atom_simple_element_t`. Its texts belong to the record.
use taningia.Base.{none, some}
use taningia.Base.CString.{Text}
use taningia.Base.Run.{Run, ok, fault, ◌>>=◌}
use taningia.Iri.{strdup}
use taningia.Object
use taningia.Object.{Object, atom_simple_element_free}
use taningia.Atom.Xml.{Xml}

-- `ta_atom_simple_element_t`
pub record SimpleElement : Type 0 where
  pub parent : Object
  pub name : Text
  pub value : Text

-- `ta_atom_simple_element_init`
unfoldable pub init : Text → Text → Run SimpleElement
init name value = do
  n ← strdup name
  v ← strdup value
  ok (record { parent = Object.init (some atom_simple_element_free); name = n; value = v })

unfoldable pub get_name : SimpleElement → Text
get_name see = see.name

unfoldable pub set_name : SimpleElement → Text → Run SimpleElement
set_name see name = do copy ← strdup name; ok (record see { name = copy })

unfoldable pub get_value : SimpleElement → Text
get_value see = see.value

unfoldable pub set_value : SimpleElement → Text → Run SimpleElement
set_value see value = do copy ← strdup value; ok (record see { value = copy })

module _ (xml : Xml) where
  -- `ta_atom_simple_element_to_iks`; a NULL name is a fault.
  unfoldable pub to_iks : SimpleElement → Run xml.Node
  to_iks see = elim see.name [
    | none ↦ fault
    | some name ↦ ok (xml.insert_cdata (xml.new name) see.value)
  ]
