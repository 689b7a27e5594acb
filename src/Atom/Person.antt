-- ===== src/Atom/Person.antt =====
-- src/atom.c, `ta_atom_person_t`. Its texts belong to the record; its extension elements are a list
-- of TaList, whose data are the addresses of simple elements. The loops over that list run on fuel,
-- and running out of it is a fault.
pub mod Release
use taningia.Base.{ℕ, zero, suc, Option, none, some, ◌==◌, if◌then◌else◌}
use taningia.Base.CString.{Bytes, Text, codes}
use taningia.Base.Run.{Run, ok, fault, ◌>>=◌}
use taningia.Iri.{strdup}
use taningia.Object
use taningia.Object.{Object, Cell, ref, unref, atom_person_free}
use taningia.TaList.{Heap, load, append}
use taningia.TaList
use taningia.Atom.{Pointer, Iris, unref_iri, exchange, print_iri}
use taningia.Atom.Category.{ref_if}
use taningia.Atom.SimpleElement
use taningia.Atom.SimpleElement.{SimpleElement}
use taningia.Atom.Xml.{Xml}

-- The simple elements that are allocated, by address.
abbrev pub Elements : Type 0
Elements = ℕ → Option SimpleElement

abbrev pub put : ℕ → Option SimpleElement → Elements → Elements
put a e elements = λ b. if b == a then e else elements b

-- The element with the object that its memory begins with.
abbrev pub with_object : SimpleElement → Option Cell → Option SimpleElement
with_object e (some (Cell.live o)) = some (record e { parent = o })
with_object e (some Cell.freed) = none
with_object e none = none

-- `ta_object_ref` and `ta_object_unref` of an element that is not NULL.
unfoldable pub ref_element : Option SimpleElement → Run (Option SimpleElement)
ref_element none = fault
ref_element (some e) = do c ← ref (Cell.live e.parent); ok (with_object e (some c))

unfoldable pub unref_element : Option SimpleElement → Run (Option SimpleElement)
unref_element none = fault
unref_element (some e) = do (c, destroyed) ← unref (some (Cell.live e.parent)); ok (with_object e c)

unfoldable pub unref_at : ℕ → Elements → Run Elements
unref_at a elements = do e ← unref_element (elements a); ok (put a e elements)

-- `_ta_atom_free_ext_elements`
unfoldable pub free_ext_elements : ℕ → Heap → Elements → Pointer → Run (Heap × Elements)
free_ext_elements zero h elements p = fault
free_ext_elements (suc fuel) h elements none = ok (h, elements)
free_ext_elements (suc fuel) h elements (some a) = do
  n ← load h a
  elements' ← unref_at n.datum elements
  h' ← TaList.free a h
  free_ext_elements fuel h' elements' n.next

-- `ta_atom_person_t`
pub record Person : Type 0 where
  pub parent : Object
  pub name : Text
  pub email : Text
  pub iri : Pointer
  pub ext_elements : Pointer

-- `ta_atom_person_init`
unfoldable pub init : Text → Text → Pointer → Iris → Run (Person × Iris)
init name email iri iris = do
  copy ← strdup name
  iris' ← ref_if iri iris
  ok (
    record {
      parent = Object.init (some atom_person_free);
      name = copy;
      email = email;
      iri = iri;
      ext_elements = none;
    },
    iris',
  )

-- `ta_atom_person_free`, on the IRIs and the elements.
unfoldable pub free : ℕ → Person → Iris → Heap → Elements → Run (Iris × Heap × Elements)
free fuel person iris h elements = do
  iris' ← unref_iri person.iri iris
  (h', elements') ← free_ext_elements fuel h elements person.ext_elements
  ok (iris', h', elements')

unfoldable pub get_name : Person → Text
get_name person = person.name

unfoldable pub set_name : Person → Text → Run Person
set_name person name = do copy ← strdup name; ok (record person { name = copy })

unfoldable pub get_email : Person → Text
get_email person = person.email

unfoldable pub set_email : Person → Text → Run Person
set_email person email = do copy ← strdup email; ok (record person { email = copy })

unfoldable pub get_iri : Person → Pointer
get_iri person = person.iri

unfoldable pub set_iri : Person → Pointer → Iris → Run (Person × Iris)
set_iri person iri iris = do
  iris' ← exchange person.iri iri iris
  ok (record person { iri = iri }, iris')

-- `ta_atom_person_add_see`, of an element that is not NULL.
unfoldable pub add_see : ℕ → Person → ℕ → Heap → Elements → Run (Person × Heap × Elements)
add_see fuel person a h elements = do
  e ← ref_element (elements a)
  (h', list) ← append fuel h person.ext_elements a
  ok (record person { ext_elements = list }, h', put a e elements)

-- `ta_atom_person_del_see`
unfoldable pub del_see : ℕ → Person → Heap → Elements → Run (Person × Heap × Elements)
del_see fuel person h elements = do
  (h', elements') ← free_ext_elements fuel h elements person.ext_elements
  ok (record person { ext_elements = none }, h', elements')

unfoldable pub get_see : Person → Pointer
get_see person = person.ext_elements

module _ (xml : Xml) where
  -- `iks_insert_cdata (iks_insert (ik, name), text, 0)`
  abbrev pub insert_child : Bytes → Text → xml.Node → xml.Node
  insert_child name text ik = xml.insert_node ik (xml.insert_cdata (xml.new name) text)

  unfoldable pub insert_email : Text → xml.Node → xml.Node
  insert_email none ik = ik
  insert_email (some email) ik = insert_child (codes "email") (some email) ik

  unfoldable pub insert_uri : Pointer → Iris → xml.Node → Run xml.Node
  insert_uri none iris ik = ok ik
  insert_uri (some a) iris ik = do
    uri ← print_iri (some a) iris
    ok (insert_child (codes "uri") (some uri) ik)

  abbrev pub element_node : Option SimpleElement → Run xml.Node
  element_node none = fault
  element_node (some e) = SimpleElement.to_iks xml e

  -- The loop over the extension elements.
  unfoldable pub insert_elements : ℕ → Heap → Elements → Pointer → xml.Node → Run xml.Node
  insert_elements zero h elements p ik = fault
  insert_elements (suc fuel) h elements none ik = ok ik
  insert_elements (suc fuel) h elements (some a) ik = do
    n ← load h a
    e ← element_node (elements n.datum)
    insert_elements fuel h elements n.next (xml.insert_node ik e)

  -- `ta_atom_person_to_iks`
  unfoldable pub to_iks : ℕ → Person → Bytes → Iris → Heap → Elements → Run xml.Node
  to_iks fuel person element iris h elements =
      let named = insert_child (codes "name") person.name (xml.new element) in
      do
        ik ← insert_uri person.iri iris (insert_email person.email named)
        insert_elements fuel h elements person.ext_elements ik
