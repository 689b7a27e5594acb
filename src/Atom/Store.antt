-- ===== src/Atom/Store.antt =====
-- src/atom.c: the objects that entries and feeds hold in lists. Each kind of object has its cells, by
-- address, and its destructor; the lists are those of TaList, on one heap, and their data are the
-- addresses of objects.
pub mod Lists
use taningia.Base.{ℕ, zero, suc, Option, none, some, ◌==◌, if◌then◌else◌}
use taningia.Base.CString.{Text}
use taningia.Base.Int.{ℤ}
use taningia.Base.Run.{Run, ok, fault, ◌>>=◌}
use taningia.Object.{Object, Cell, live, freed, ref, unref}
use taningia.TaList.{Heap, load, append, free_all}
use taningia.TaList
use taningia.Atom.{Pointer, Iris}
use taningia.Atom.Category
use taningia.Atom.Category.{Category}
use taningia.Atom.Content
use taningia.Atom.Content.{Content}
use taningia.Atom.InReplyTo
use taningia.Atom.InReplyTo.{InReplyTo}
use taningia.Atom.Link
use taningia.Atom.Link.{Link}
use taningia.Atom.Person
use taningia.Atom.Person.{Person, Elements}
use taningia.Atom.SimpleElement.{SimpleElement}

-- `ta_atom_entry_t`; what `ext_elements` holds is `none` where it was never written.
pub record Entry : Type 0 where
  pub parent : Object
  pub id : Pointer
  pub title : Text
  pub updated : ℤ
  pub published : ℤ
  pub rights : Text
  pub authors : Pointer
  pub categories : Pointer
  pub links : Pointer
  pub summary : Text
  pub content : Pointer
  pub ext_elements : Option Pointer
  pub in_reply_to : Pointer

-- The objects that are allocated.
pub record Store : Type 0 where
  pub heap : Heap
  pub iris : Iris
  pub elements : Elements
  pub persons : ℕ → Option Person
  pub categories : ℕ → Option Category
  pub links : ℕ → Option Link
  pub replies : ℕ → Option InReplyTo
  pub contents : ℕ → Option Content
  pub entries : ℕ → Option Entry

-- A kind of object: where it stands, the object that it begins with, and its destructor.
pub record Kind : Type 1 where
  pub Carrier : Type 0
  pub object : Carrier → Object
  pub with_object : Object → Carrier → Carrier
  pub cell : ℕ → Store → Option Carrier
  pub put : ℕ → Option Carrier → Store → Store
  pub destroy : Carrier → Store → Run Store

abbrev pub set_at : {A : Type 0} → ℕ → Option A → (ℕ → Option A) → ℕ → Option A
set_at a x cells = λ b. if b == a then x else cells b

-- Behind `ta_object_unref`: the count is stored, or the destructor called and the memory freed.
abbrev pub release : (k : Kind) → ℕ → k.Carrier → Option Cell → Store → Run Store
release k a x none s = fault
release k a x (some (live o)) s = ok (k.put a (some (k.with_object o x)) s)
release k a x (some freed) s = do s' ← k.destroy x s; ok (k.put a none s')

abbrev pub unref_found : (k : Kind) → ℕ → Option k.Carrier → Store → Run Store
unref_found k a none s = fault
unref_found k a (some x) s = do (c, destroyed) ← unref (some (live (k.object x))); release k a x c s

-- `ta_object_unref` of an object that is not NULL.
unfoldable pub unref_object : Kind → ℕ → Store → Run Store
unref_object k a s = unref_found k a (k.cell a s) s

abbrev pub ref_found : (k : Kind) → ℕ → Option k.Carrier → Store → Run Store
ref_found k a none s = fault
ref_found k a (some x) s = do c ← ref (live (k.object x)); release k a x (some c) s

-- `ta_object_ref` of an object that is not NULL.
unfoldable pub ref_object : Kind → ℕ → Store → Run Store
ref_object k a s = ref_found k a (k.cell a s) s

abbrev pub with_iris : Run Iris → Store → Run Store
with_iris run s = do iris ← run; ok (record s { iris = iris })

-- A person; `fuel` is for the list of its elements.
abbrev pub persons : ℕ → Kind
persons fuel = record {
  Carrier = Person;
  object = λ x. x.parent;
  with_object = λ o x. record x { parent = o };
  cell = λ a s. s.persons a;
  put = λ a x s. record s { persons = set_at a x s.persons };
  destroy = λ x s. do
    (iris, h, elements) ← Person.free fuel x s.iris s.heap s.elements
    ok (record s { iris = iris; heap = h; elements = elements });
}

abbrev pub categories : Kind
categories = record {
  Carrier = Category;
  object = λ x. x.parent;
  with_object = λ o x. record x { parent = o };
  cell = λ a s. s.categories a;
  put = λ a x s. record s { categories = set_at a x s.categories };
  destroy = λ x s. with_iris (Category.free x s.iris) s;
}

abbrev pub links : Kind
links = record {
  Carrier = Link;
  object = λ x. x.parent;
  with_object = λ o x. record x { parent = o };
  cell = λ a s. s.links a;
  put = λ a x s. record s { links = set_at a x s.links };
  destroy = λ x s. with_iris (Link.free x s.iris) s;
}

abbrev pub replies : Kind
replies = record {
  Carrier = InReplyTo;
  object = λ x. x.parent;
  with_object = λ o x. record x { parent = o };
  cell = λ a s. s.replies a;
  put = λ a x s. record s { replies = set_at a x s.replies };
  destroy = λ x s. with_iris (InReplyTo.free x s.iris) s;
}

abbrev pub contents : Kind
contents = record {
  Carrier = Content;
  object = λ x. x.parent;
  with_object = λ o x. record x { parent = o };
  cell = λ a s. s.contents a;
  put = λ a x s. record s { contents = set_at a x s.contents };
  destroy = λ x s. with_iris (Content.free x s.iris) s;
}

-- The destructor of a simple element frees its texts.
abbrev pub elements : Kind
elements = record {
  Carrier = SimpleElement;
  object = λ x. x.parent;
  with_object = λ o x. record x { parent = o };
  cell = λ a s. s.elements a;
  put = λ a x s. record s { elements = set_at a x s.elements };
  destroy = λ x s. ok s;
}

-- `for (tmp = list; tmp; tmp = tmp->next) ta_object_unref (tmp->data);`
unfoldable pub unref_each : Kind → ℕ → Pointer → Store → Run Store
unref_each k zero p s = fault
unref_each k (suc fuel) none s = ok s
unref_each k (suc fuel) (some a) s = do
  n ← load s.heap a
  s' ← unref_object k n.datum s
  n' ← load s'.heap a
  unref_each k fuel n'.next s'

-- That loop, and `ta_list_free (list);`
unfoldable pub del_list : Kind → ℕ → Pointer → Store → Run Store
del_list k fuel p s = do
  s' ← unref_each k fuel p s
  h ← free_all fuel s'.heap p
  ok (record s' { heap = h })

-- The loop that frees each node behind its object.
unfoldable pub free_each : Kind → ℕ → Pointer → Store → Run Store
free_each k zero p s = fault
free_each k (suc fuel) none s = ok s
free_each k (suc fuel) (some a) s = do
  n ← load s.heap a
  s' ← unref_object k n.datum s
  h ← TaList.free a s'.heap
  free_each k fuel n.next (record s' { heap = h })

-- `ta_list_append (list, ta_object_ref (x))`
unfoldable pub add_to : Kind → ℕ → Pointer → ℕ → Store → Run (Pointer × Store)
add_to k fuel list a s = do
  s' ← ref_object k a s
  (h, list') ← append fuel s'.heap list a
  ok (list', record s' { heap = h })
