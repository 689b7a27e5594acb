-- ===== src/Atom/Store/Lists.antt =====
-- src/atom.c: how the lists of an entry or a feed are emptied.
use taningia.Base.{
  ℕ, zero, suc, ◌<◌, ◌≡◌, refl, sym, ap, ◌∙◌, true, false, none, some, List, [], ◌∷◌, arith, length,
  inl, inr,
}
use mathlib.Core.Path.{subst}
use taningia.Base.Run.{Run-cases, Run, ok, fault, ◌>>=◌, >>=_split}
use taningia.TaList.{Heap, Pointer, write, free_all}
use taningia.TaList.Chain.{Entry, Chain, mentions, distinct, Chain-write}
use taningia.Atom.Person.Release.{without}
use taningia.Atom.Store.{Store, Kind, unref_object, unref_each, del_list}

-- Giving back a reference neither reads nor writes the nodes of lists.
abbrev pub Heapless : Kind → Type 0
Heapless k =
    (a : ℕ) (h : Heap) (s : Store)
    → unref_object k a (record s { heap = h })
      ≡ (do s' ← unref_object k a s; ok (record s' { heap = h }))

-- One reference less for each entry, in the order of the list.
abbrev pub drop_each : Kind → List Entry → Store → Run Store
drop_each k [] s = ok s
drop_each k ((a, d) ∷ xs) s = do s' ← unref_object k d s; drop_each k xs s'

drop_each-heap :
    (k : Kind) (xs : List Entry) (h : Heap) (s : Store)
    → Heapless k
    → drop_each k xs (record s { heap = h })
      ≡ (do s' ← drop_each k xs s; ok (record s' { heap = h }))
drop_each-heap k [] h s less = refl
drop_each-heap k ((a, d) ∷ xs) h s less =
    let unrefs = unref_object k d s in
    rw (less d h s) (
      sym (
        >>=_split unrefs (λ s'. drop_each k xs (record s' { heap = h }))
          (λ s'. ok (record s' { heap = h })) (drop_each k xs) (λ s'. refl))
      ∙ >>=_split unrefs (λ s'. drop_each k xs (record s' { heap = h })) (drop_each k xs)
          (λ s'. ok (record s' { heap = h })) (λ s'. drop_each-heap k xs h s' less))

-- The store behind a list is emptied, up to its heap.
abbrev pub emptied : Kind → List Entry → Heap → Store → Run Store
emptied k xs h s = do s' ← drop_each k xs s; ok (record s' { heap = h })

abbrev heap_in : Heap → Run Store → Heap
heap_in h fault = h
heap_in h (ok s) = s.heap

-- What a reference that is given back leaves of the heap.
same_heap :
    (k : Kind) (a : ℕ) (s s' : Store) → Heapless k → unref_object k a s ≡ ok s' → s'.heap ≡ s.heap
same_heap k a s s' less e =
    let again : ok s' ≡ ok (record s' { heap = s.heap }) = sym e ∙ less a s.heap s ∙ rw e refl in
    ap (heap_in s.heap) again

drop_each-same_heap :
    (k : Kind) (xs : List Entry) (s s' : Store)
    → Heapless k
    → drop_each k xs s ≡ ok s'
    → s'.heap ≡ s.heap
drop_each-same_heap k xs s s' less e =
    let again : ok s' ≡ ok (record s' { heap = s.heap }) =
      sym e ∙ drop_each-heap k xs s.heap s less ∙ rw e refl in
    ap (heap_in s.heap) again

unref_each-drop_each :
    (k : Kind) (xs : List Entry) (fuel : ℕ) (s : Store) (q p : Pointer)
    → Heapless k
    → Chain s.heap q p xs
    → length xs < fuel
    → unref_each k fuel p s ≡ drop_each k xs s
unfolding unref_each Chain
unref_each-drop_each k xs zero s q p less c f = absurd (omega arith)
unref_each-drop_each k [] (suc fuel) s q p less c f = rw c refl
unref_each-drop_each k ((a, d) ∷ xs) (suc fuel) s q p less (n, here, at, rest) f =
    elim (Run-cases (unref_object k d s)) [
      | inl fails ↦ rw (here, at, fails) refl
      | inr (s1, e) ↦
          let kept = same_heap k d s s1 less e in
          let at1 = ap (λ h. h.cells a) kept ∙ at in
          let rest1 = subst (λ h. Chain h (some a) n xs) (sym kept) rest in
          rw (here, at, e, at1)
            (unref_each-drop_each k xs fuel s1 (some a) n less rest1 (omega arith))
    ]

free_all-without :
    (xs : List Entry) (fuel : ℕ) (h : Heap) (q p : Pointer)
    → Chain h q p xs
    → distinct xs ≡ true
    → length xs < fuel
    → free_all fuel h p ≡ ok (without xs h)
unfolding free_all Chain distinct
free_all-without xs zero h q p c u f = absurd (omega arith)
free_all-without [] (suc fuel) h q p c u f = rw c refl
free_all-without ((a, d) ∷ xs) (suc fuel) h q p (n, here, at, rest) u f =
    let fresh : mentions a xs ≡ false = ground arith in
    rw (here, at)
      (free_all-without xs fuel (write a none h) (some a) n
        (Chain-write h a none xs (some a) n rest fresh) (ground arith) (omega arith))

-- A list without a node twice, with more fuel than entries, of a kind of object whose destructor
-- leaves the nodes of lists alone: the loop that gives back a reference for each entry and then
-- frees the list comes to what one reference less for each entry, in order, and the nodes freed
-- make; it faults only where giving back a reference does.
pub del_list-emptied :
    (k : Kind) (xs : List Entry) (fuel : ℕ) (s : Store) (p : Pointer)
    → Heapless k
    → Chain s.heap none p xs
    → distinct xs ≡ true
    → length xs < fuel
    → del_list k fuel p s ≡ emptied k xs (without xs s.heap) s
unfolding del_list
del_list-emptied k xs fuel s p less c u f = elim (Run-cases (drop_each k xs s)) [
  | inl fails ↦ rw (unref_each-drop_each k xs fuel s none p less c f, fails) refl
  | inr (s1, e) ↦
      let kept = drop_each-same_heap k xs s s1 less e in
      let freed : free_all fuel s1.heap p ≡ ok (without xs s.heap) =
        ap (λ h. free_all fuel h p) kept ∙ free_all-without xs fuel s.heap none p c u f in
      rw (unref_each-drop_each k xs fuel s none p less c f, e, freed) refl
]
