-- ===== src/Atom/Load.antt =====
-- src/atom.c, the loading of entries and feeds from elements. The tree library is a parameter, and so
-- is `iso8601_to_time`, which is `strptime` and `mktime`. Memory is taken to be there.
pub mod Parts
pub mod Entries
pub mod Feeds
pub mod Answers
pub mod Troubles
pub mod Steps
pub mod Rejected
pub mod Unfed
use taningia.Base.{ℕ, suc, ◌++◌, Bool, true, false, Option, none, some, List, ◌==◌, if◌then◌else◌}
use taningia.Base.CString.{Bytes, Text, codes}
use taningia.Base.Int.{ℤ, pos}
use taningia.Base.Run.{Run, ok, fault, ◌>>=◌}
use taningia.Error
use taningia.Error.{
  Global, Slot, live, report, last, clear, ta_atom_load_error, ta_atom_parsing_error,
}
use taningia.Iri
use taningia.Iri.Parse
use taningia.Atom.{put, unref_iri}
use taningia.Atom.Store.{Store, with_iris}
use taningia.Atom.Xml.{same_key}

-- What is used of an element that was read: `iks_name`, which gives NULL for text, and the functions
-- that look into it. The children are those of `iks_child` and `iks_next`, and the size is
-- `iks_cdata_size (iks_child (x))`.
pub record Reader : Type 1 where
  pub Node : Type 0
  pub name : Node → Text
  pub has_children : Node → Bool
  pub children : Node → List Node
  pub find : Node → Bytes → Option Node
  pub find_cdata : Node → Bytes → Text
  pub find_attrib : Node → Bytes → Text
  pub size : Node → ℕ

-- The objects that are allocated, the errors of the thread, and the address that the next object
-- gets, which is not NULL.
pub record Load : Type 0 where
  pub store : Store
  pub errors : Global
  pub next : ℕ

-- What a loading function leaves: its result, whether it has deleted the element, the entry or feed,
-- and the memory.
pub record Answer (Value : Type 0) : Type 0 where
  pub result : ℤ
  pub deleted : Bool
  pub value : Value
  pub load : Load

-- What `iks_load` gives.
pub data File (Node : Type 0) : Type 0 where
  parsed : Node → File Node
  no_memory bad_xml unknown : File Node

-- `strcmp (name, s)`, as a test for equality.
abbrev pub is_named : Text → Bytes → Run Bool
is_named none s = fault
is_named (some name) s = ok (same_key name s)

-- `ta_error_set (TA_ATOM_PARSING_ERROR, msg)`
abbrev pub refuse : Bytes → Load → Run Load
refuse msg l = do g ← report ta_atom_parsing_error msg l.errors; ok (record l { errors = g })

-- `error->message`, as the argument of a format.
abbrev pub message_of : Option (ℕ × Slot) → Run Bytes
message_of (some (code, live msg)) = ok msg
message_of _ = fault

-- The message of the last error behind another one, and `ta_error_clear ()`.
unfoldable pub complain : Bytes → Load → Run Load
complain msg l = do
  last_message ← message_of (last l.errors)
  l' ← refuse (msg ++ last_message) l
  g ← clear l'.errors
  ok (record l' { errors = g })

abbrev pub with_store : Store → Load → Load
with_store s l = record l { store = s }

-- `ta_iri_new ()`
abbrev pub new_iri : Load → ℕ × Load
new_iri l = (
  l.next,
  record l {
    store = record l.store { iris = put l.next (some Iri.init) l.store.iris };
    next = suc l.next;
  },
)

-- `ta_iri_set_from_string` of the IRI at an address.
unfoldable pub set_iri : ℕ → ℕ → Bytes → Load → Run (ℤ × Load)
set_iri top a string l = elim (l.store.iris a) [
  | none ↦ fault
  | some i ↦ do
    (i', g, status) ← Parse.set_from_string top string i l.errors
    let iris = put a (some i') l.store.iris
    ok (status, record l { store = record l.store { iris = iris }; errors = g })
]

-- `ta_object_unref` of the IRI at an address.
abbrev pub drop_iri : ℕ → Load → Run Load
drop_iri a l = do s ← with_iris (unref_iri (some a) l.store.iris) l.store; ok (with_store s l)

-- The error of a file that was not loaded.
abbrev pub load_failed : {Value : Type 0} → Bytes → Value → Load → Run (ℤ × Value × Load)
load_failed msg value l = do
  g ← report ta_atom_load_error msg l.errors
  ok (pos 0, value, record l { errors = g })

-- The result of a loaded file; the element is deleted a second time where the loading has deleted it.
abbrev pub close : {Value : Type 0} → Answer Value → Run (ℤ × Value × Load)
close answer = if answer.deleted then fault else ok (answer.result, answer.value, answer.load)

abbrev pub wrong_root : {Value : Type 0} → Bytes → Value → Load → Run (Answer Value)
wrong_root msg value l = do
  l' ← refuse msg l
  ok (record { result = pos 0; deleted = true; value = value; load = l' })

abbrev pub returns_0 : {Value : Type 0} → Value → Load → Answer Value
returns_0 value l = record { result = pos 0; deleted = false; value = value; load = l }
