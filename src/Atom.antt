-- ===== src/Atom.antt =====
-- src/atom.c: what its elements share. The IRIs that elements point at are objects of their own,
-- with a reference count; the XML tree library is a parameter.
pub mod Xml
pub mod InReplyTo
pub mod Link
pub mod Category
pub mod Content
pub mod SimpleElement
pub mod Counts
pub mod Person
pub mod Store
pub mod Entry
pub mod Feed
pub mod Load
pub mod Attributes
use taningia.Base.{ℕ, Bool, Option, none, some, ◌==◌, if◌then◌else◌}
use taningia.Base.CString.{Bytes, Text}
use taningia.Base.Run.{Run, ok, fault, ◌>>=◌}
use taningia.Iri.{Iri}
use taningia.Iri.Print.{to_string}
use taningia.Object
use taningia.Object.{Cell, ref, unref}

abbrev pub Pointer : Type 0
Pointer = Option ℕ

-- The IRIs that are allocated, by address.
abbrev pub Iris : Type 0
Iris = ℕ → Option Iri

abbrev pub put : ℕ → Option Iri → Iris → Iris
put a i iris = λ b. if b == a then i else iris b

-- The IRI with the object that its memory begins with.
abbrev pub with_object : Iri → Option Cell → Option Iri
with_object i (some (Cell.live o)) = some (record i { parent = o })
with_object i (some Cell.freed) = none
with_object i none = none

-- `ta_object_ref` of an IRI; NULL is a fault.
unfoldable pub ref_cell : Option Iri → Run (Option Iri)
unfolding ref
ref_cell none = fault
ref_cell (some i) = do c ← ref (Cell.live i.parent); ok (with_object i (some c))

unfoldable pub ref_iri : Pointer → Iris → Run Iris
unfolding ref_cell
ref_iri none iris = fault
ref_iri (some a) iris = do i ← ref_cell (iris a); ok (put a i iris)

-- `ta_object_unref` of an IRI; NULL is left alone.
unfoldable pub unref_cell : Option Iri → Run (Option Iri)
unfolding unref
unref_cell none = fault
unref_cell (some i) = do (c, destroyed) ← unref (some (Cell.live i.parent)); ok (with_object i c)

unfoldable pub unref_iri : Pointer → Iris → Run Iris
unfolding unref_cell
unref_iri none iris = ok iris
unref_iri (some a) iris = do i ← unref_cell (iris a); ok (put a i iris)

-- What the setters of a field with an IRI do: `if (x) ta_object_unref (x); x = ta_object_ref (y);`
unfoldable pub exchange : Pointer → Pointer → Iris → Run Iris
unfolding ref_iri unref_iri
exchange old new iris = do iris' ← unref_iri old iris; ref_iri new iris'

-- `ta_iri_to_string` of an IRI behind a pointer.
unfoldable pub print_iri : Pointer → Iris → Run Bytes
print_iri none iris = fault
print_iri (some a) iris = elim (iris a) [ none ↦ fault | some i ↦ to_string i ]
