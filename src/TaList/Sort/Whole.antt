-- ===== src/TaList/Sort/Whole.antt =====
-- src/list.c: `ta_list_sort` as a whole.
use taningia.Base.{
  ℕ, zero, suc, ◌+◌, ◌*◌, ◌≤◌, ◌<◌, ◌≡◌, refl, sym, ap, ◌∙◌, true, none, some, List, [], ◌∷◌, ◌++◌,
  leb, arith, Bool-cases, inl, inr, length, append-nil,
}
use mathlib.Core.Path.{subst}
use mathlib.Core.List.{Perm}
use mathlib.Core.List.Perm
use taningia.Base.Run.{ok}
use taningia.TaList.{Heap, Pointer, update, write}
use taningia.TaList.Chain.{Entry, Chain, node, distinct, write-same, write-other}
use taningia.TaList.Changing.{rev_onto}
use taningia.TaList.Sort.{Compare, Merge, pass_over, sort_from, sort}
use taningia.TaList.Sort.Segments.{
  copies, Linked, Built, Linked-frame, Linked-Chain, Chain-Forward, copies-apart, copies-rev_onto,
  distinct-copies,
}
use taningia.TaList.Sort.Runs.{
  shaped, concat, pairs, pairs-shaped, copies-pairs, length_pairs, settle, settle-Perm, count_pairs,
}
use taningia.TaList.Sort.Sorted.{Ordering, ascends, all_ascend, below, settle-ascends}
use taningia.TaList.Sort.Passes.{Between, pass-Built}

rev_onto-rev_onto : (xs ys zs : List Entry) → rev_onto (rev_onto xs ys) zs ≡ rev_onto ys (xs ++ zs)
rev_onto-rev_onto [] ys zs = refl
rev_onto-rev_onto (x ∷ xs) ys zs = rev_onto-rev_onto xs (x ∷ ys) zs

length-rev_onto : (xs ys : List Entry) → length (rev_onto xs ys) ≡ length xs + length ys
length-rev_onto [] ys = omega arith
length-rev_onto (x ∷ xs) ys = omega (arith, length-rev_onto xs (x ∷ ys))

-- `tail->next = NULL`
finish_lem :
    (rs : List Entry) (h : Heap) (list tail : Pointer)
    → Built h list tail rs
    → 0 < length rs
    → ((x : ℕ) → copies x rs ≤ 1)
    → (h' : Heap) × (update (λ n. record n { next = none }) tail h ≡ ok h')
      × Chain h' none list (rev_onto rs [])
unfolding Built Linked Chain copies
finish_lem [] h list tail built l once = absurd (omega arith)
finish_lem ((a, d) ∷ rs) h list tail (b, n, here, at, rest) l once =
    let h' : Heap = write a (node b none d) h in
    let a_once : copies a ((a, d) ∷ rs) ≤ 1 = once a in
    let gone : copies a rs ≡ 0 = ground arith in
    let linked : Linked h' list (some a) none ((a, d) ∷ rs) = (
      b,
      refl,
      write-same h a _,
      Linked-frame rs h h' list b (some a) rest
          (λ x c. write-other h a x _ (copies-apart x a rs c gone)),
    ) in
    (h', rw (here, at) refl, Linked-Chain ((a, d) ∷ rs) [] h' list (some a) none linked refl)

pass_over-Chain :
    (runs : List (List Entry)) (fuel : ℕ) (cmp : Compare) (size : ℕ) (h : Heap) (p q : Pointer)
    → Chain h q p (concat runs)
    → ((x : ℕ) → copies x (concat runs) ≤ 1)
    → shaped size runs ≡ true
    → length runs < fuel
    → 0 < length (concat runs)
    → (h' : Heap) × (p' : Pointer) × (pass_over fuel cmp size h p
        ≡ ok (h', p', length (pairs cmp runs)))
      × Chain h' none p' (concat (pairs cmp runs))
unfolding pass_over Built copies
pass_over-Chain runs fuel cmp size h p q c once s f l =
    let m : Merge = record {
      heap = h;
      psize = 0;
      qsize = 0;
      p = p;
      q = none;
      list = none;
      tail = none;
    } in
    let between : Between m [] (concat runs) = record {
      built = refl;
      forward = Chain-Forward (concat runs) h q p c;
      once = λ x. omega (arith, once x);
    } in
    let (m', passes, built) = pass-Built runs fuel cmp size m 0 [] between s f in
    let out : List Entry = rev_onto (concat (pairs cmp runs)) [] in
    let some_out : 0 < length out =
      omega (arith, length-rev_onto (concat (pairs cmp runs)) [], length_pairs cmp runs) in
    let out_once : (x : ℕ) → copies x out ≤ 1 = λ x.
      let o = once x in
      omega (arith, copies-rev_onto x (concat (pairs cmp runs)) [], copies-pairs x cmp runs) in
    let (h', ended, chain) = finish_lem out m'.heap m'.list m'.tail built some_out out_once in
    let count : 0 + length (pairs cmp runs) ≡ length (pairs cmp runs) = omega arith in
    let back = rev_onto-rev_onto (concat (pairs cmp runs)) [] [] in
    (
      h',
      m'.list,
      rw (passes, ended) (ap (λ k. ok (h', m'.list, k)) count),
      subst (Chain h' none m'.list) (back ∙ append-nil (concat (pairs cmp runs))) chain,
    )

sort_from-Chain :
    (passes fuel : ℕ) (runs : List (List Entry)) (cmp : Compare) (size : ℕ) (h : Heap)
    (p q : Pointer)
    → Chain h q p (concat runs)
    → ((x : ℕ) → copies x (concat runs) ≤ 1)
    → shaped size runs ≡ true
    → length runs < fuel
    → length runs < passes
    → 0 < length (concat runs)
    → (h' : Heap) × (p' : Pointer) × (sort_from passes fuel cmp size h p ≡ ok (h', p'))
      × Chain h' none p' (settle passes cmp runs)
unfolding sort_from settle
sort_from-Chain zero fuel runs cmp size h p q c once s f g l = absurd (omega arith)
sort_from-Chain (suc passes) fuel runs cmp size h p q c once s f g l =
    let (h1, p1, passed, c1) = pass_over-Chain runs fuel cmp size h p q c once s f l in
    elim (Bool-cases (leb (length (pairs cmp runs)) 1)) [
      | inl done ↦ (h1, p1, rw (passed, done) refl, rw done c1)
      | inr more ↦
          let many : 2 ≤ length (pairs cmp runs) = ground arith in
          let fewer = count_pairs cmp runs many in
          let twice : size + size ≡ size * 2 = omega arith in
          let s1 : shaped (size * 2) (pairs cmp runs) ≡ true =
            rw (sym twice) (pairs-shaped cmp size runs s) in
          let once1 : (x : ℕ) → copies x (concat (pairs cmp runs)) ≤ 1 =
            λ x. let o = once x in omega (arith, copies-pairs x cmp runs) in
          let (h2, p2, sorted, c2) =
            sort_from-Chain passes fuel (pairs cmp runs) cmp (size * 2) h1 p1 none c1 once1 s1
              (omega arith) (omega arith) (omega (arith, length_pairs cmp runs)) in
          (h2, p2, rw (passed, more) sorted, rw more c2)
    ]

-- The runs that the first pass takes.
abbrev singles : List Entry → List (List Entry)
singles [] = []
singles (x ∷ xs) = (x ∷ []) ∷ singles xs

concat-singles : (xs : List Entry) → concat (singles xs) ≡ xs
concat-singles [] = refl
concat-singles (x ∷ xs) = ap (λ l. x ∷ l) (concat-singles xs)

length-singles : (xs : List Entry) → length (singles xs) ≡ length xs
length-singles [] = refl
length-singles (x ∷ xs) = ap suc (length-singles xs)

singles-shaped : (xs : List Entry) → shaped 1 (singles xs) ≡ true
unfolding shaped
singles-shaped [] = refl
singles-shaped (x ∷ xs) = singles-shaped xs

singles-ascend : (cmp : Compare) (xs : List Entry) → all_ascend cmp (singles xs) ≡ true
unfolding all_ascend ascends below
singles-ascend cmp [] = refl
singles-ascend cmp (x ∷ xs) = singles-ascend cmp xs

-- The passes over any list with an entry.
sort_from-singles :
    (all : List Entry) (fuel : ℕ) (cmp : Compare) (h : Heap) (p : Pointer)
    → Chain h none p all
    → distinct all ≡ true
    → length all < fuel
    → 0 < length all
    → (h' : Heap) × (p' : Pointer) × (sort_from fuel fuel cmp 1 h p ≡ ok (h', p'))
      × Chain h' none p' (settle fuel cmp (singles all))
      × Perm (settle fuel cmp (singles all)) all
sort_from-singles all fuel cmp h p c u f l =
    let same = concat-singles all in
    let count : length (singles all) < fuel = omega (arith, length-singles all) in
    let once : (x : ℕ) → copies x (concat (singles all)) ≤ 1 =
      rw same (λ x. distinct-copies x all u) in
    let (h1, p1, sorted, c1) =
      sort_from-Chain fuel fuel (singles all) cmp 1 h p none (rw same c) once (singles-shaped all)
        count count (rw same l) in
    let kept : Perm (settle fuel cmp (singles all)) (concat (singles all)) =
      settle-Perm fuel cmp (singles all) count in
    (h1, p1, sorted, c1, rw same at kept)

-- A chain without an address twice, with more fuel than entries, and a comparison that is total and
-- transitive: `ta_list_sort` returns a chain, well linked in both directions, of the same nodes with
-- their data, each as often as before, in the order of the comparison.
pub sort-Chain :
    (xs : List Entry) (fuel : ℕ) (cmp : Compare) (h : Heap) (p : Pointer)
    → Chain h none p xs
    → distinct xs ≡ true
    → length xs < fuel
    → Ordering cmp
    → (h' : Heap) × (p' : Pointer) × (ys : List Entry) × (sort fuel cmp h p ≡ ok (h', p'))
      × Chain h' none p' ys
      × Perm ys xs
      × (ascends cmp ys ≡ true)
unfolding sort Chain ascends below
sort-Chain [] fuel cmp h p c u f ord = (h, none, [], rw c refl, refl, Perm.rfl, refl)
sort-Chain ((a, d) ∷ []) fuel cmp h p (n, here, at, rest) u f ord =
    (h, some a, (a, d) ∷ [], rw (here, at, rest) refl, (n, refl, at, rest), Perm.rfl, refl)
sort-Chain ((a, d) ∷ (b, e) ∷ xs) fuel cmp h p (n, here, at, (n', here', at', rest)) u f ord =
    let all : List Entry = (a, d) ∷ (b, e) ∷ xs in
    let (h1, p1, sorted, c1, kept) =
      sort_from-singles all fuel cmp h (some a) (n, refl, at, (n', here', at', rest)) u f
        (omega arith) in
    let order =
      settle-ascends cmp ord fuel (singles all) (singles-ascend cmp all)
        (omega (arith, length-singles all)) in
    (h1, p1, settle fuel cmp (singles all), rw (here, at, here') sorted, c1, kept, order)
