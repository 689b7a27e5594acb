-- ===== src/Tests/Memory.antt =====
-- The string buffer, the list and a list of elements at inputs that meet the hypotheses of their
-- theorems.
use taningia.Base.{
  ℕ, ◌+◌, ◌≤◌, ◌<◌, ◌≡◌, ◌%◌, ◌==◌, refl, false, none, some, List, [], ◌∷◌, ◌++◌, if◌then◌else◌,
  length, arith, ◌/◌,
}
use taningia.Base.CString.{Bytes, codes}
use taningia.Base.Int.{ℤ, pos}
use taningia.Base.Run.{ok, ◌>>=◌}
use taningia.Buf
use taningia.Buf.{Buf}
use taningia.Buf.Contents.{Holds}
use taningia.Buf.Format.{catf-overruns}
use taningia.Buf.Growth.{buf_realloc-grows}
use taningia.Buf.Strings.{always, cat_all, concat, dump-cat_all}
use taningia.Error
use taningia.Error.{Global, Slot, live, fresh, c99, clear, set_err, last, error_set}
use taningia.Object
use taningia.Object.{atom_simple_element_free, atom_person_free}
use taningia.Atom.SimpleElement.{SimpleElement}
use taningia.Atom.Person.{Person, Elements, del_see}
use taningia.Atom.Person.Release.{release_all, without, del_see-release_all}
use taningia.TaList
use taningia.TaList.{Heap, Pointer, write}
use taningia.TaList.Chain.{Chain, Entry, node, distinct, mentions}
use taningia.TaList.Popping.{pop-Chain}
use taningia.TaList.Unlinking.{lacks_datum, remove-Chain}
use taningia.TaList.Remove
use taningia.TaList.Changing.{append-Chain, reverse-Chain}
use taningia.Tests.{long_text}

empty-Holds : Holds Buf.empty []
unfolding Holds
empty-Holds = (refl, refl, refl)

buf_realloc-grows_example :
    (n : ℕ) × (20 ≤ n)
    × (n ≤ 20 + 20 / 2 + 7)
    × (n % 8 ≡ 0)
    × (Buf.buf_realloc always Buf.empty 20 ≡ (
        if always n
        then ok
            (record Buf.empty { ptr = some (Buf.resize none n); allocated_size = n }, Error.ta_ok)
        else ok (Buf.empty, Error.ta_error)))
buf_realloc-grows_example = buf_realloc-grows always Buf.empty 20 (omega arith) (omega arith)

dump-cat_all_example :
    (do b ← Buf.alloc always (pos 10); b ← cat_all b (codes "ab" ∷ codes "c" ∷ []); Buf.dump b)
    ≡ ok (Buf.empty, some (concat (codes "ab" ∷ codes "c" ∷ [])))
unfolding concat
dump-cat_all_example =
    dump-cat_all 10 (codes "ab") (codes "c" ∷ []) (omega arith) (omega arith) (omega arith) refl

catf-overruns_example :
    (b' : Buf) × (Buf.catf always Buf.empty (codes "%s") (c99 long_text) ≡ ok (b', Error.ta_ok))
    × (b'.string_length ≡ length (codes "") + length long_text)
    × (b'.allocated_size < b'.string_length)
    × ((t : Bytes) → ¬ Holds b' t)
catf-overruns_example =
    catf-overruns Buf.empty [] (codes "%s") long_text empty-Holds (omega arith) (omega arith)
      (omega arith) (omega arith)

-- A list of two nodes.
abbrev two : Heap
two = record {
  cells =
      λ a. if a == 1 then node none (some 2) 7 else if a == 2 then node (some 1) none 8 else none;
  top = 3;
}

abbrev entries : List Entry
entries = (1, 7) ∷ (2, 8) ∷ []

two-Chain : Chain two none (some 1) entries
unfolding Chain
two-Chain = (some 2, refl, refl, (none, refl, refl, refl))

abbrev compare_data : ℕ → ℕ → ℤ
compare_data a b = if a == b then pos 0 else pos 1

append-Chain_example :
    (h' : Heap) × (p' : Pointer) × (TaList.append 3 two (some 1) 9 ≡ ok (h', p'))
    × Chain h' none p' (entries ++ (3, 9) ∷ [])
unfolding distinct mentions
append-Chain_example =
    append-Chain entries 3 two (some 1) 9 two-Chain refl refl (omega arith) (omega arith)

reverse-Chain_example :
    (h' : Heap) × (p' : Pointer) × (TaList.reverse 3 two (some 1) ≡ ok (h', p'))
    × Chain h' none p' ((2, 8) ∷ (1, 7) ∷ [])
unfolding distinct
reverse-Chain_example = reverse-Chain entries 3 two (some 1) two-Chain refl (omega arith)

pop-Chain_example :
    (h' : Heap) × (p' : Pointer) × (TaList.Remove.pop 4 two (some 1) ≡ ok (h', p', some 2))
    × Chain h' none p' ((1, 7) ∷ [])
unfolding distinct mentions
pop-Chain_example = pop-Chain ((1, 7) ∷ []) 2 8 4 two (some 1) two-Chain refl refl (omega arith)

remove-Chain_example :
    (h' : Heap) × (p' : Pointer) × (TaList.Remove.remove 4 two (some 1) 8 ≡ ok (h', p', some 2))
    × Chain h' none p' ((1, 7) ∷ [])
    × (h'.cells 2 ≡ two.cells 2)
    × ((x : ℕ) → mentions x entries ≡ false → h'.cells x ≡ two.cells x)
unfolding distinct mentions lacks_datum
remove-Chain_example =
    remove-Chain ((1, 7) ∷ []) [] 4 two (some 1) 2 8 two-Chain refl refl (omega arith)

-- Two elements, the first of which is held elsewhere too.
abbrev element : ℕ → SimpleElement
element n = record {
  parent = record { refcount = pos n; destructor = some atom_simple_element_free };
  name = some (codes "k");
  value = some (codes "v");
}

abbrev elements : Elements
elements a = if a == 7 then some (element 2) else if a == 8 then some (element 1) else none

abbrev author : Person
author = record {
  parent = Object.init (some atom_person_free);
  name = some (codes "Ann");
  email = none;
  iri = none;
  ext_elements = some 1;
}

del_see-release_all_example : del_see 3 author two elements ≡ (do
  elements' ← release_all entries elements
  ok (record author { ext_elements = none }, without entries two, elements'))
unfolding distinct mentions
del_see-release_all_example =
    del_see-release_all entries 3 author two elements two-Chain refl (omega arith)
