-- ===== src/TaList/Sort/Sorted.antt =====
-- src/list.c: the order of what `ta_list_sort` makes, for a comparison that is total and transitive.
use taningia.Base.{
  ℕ, zero, suc, ◌<◌, ◌≤◌, ◌≡◌, refl, Bool, true, ◌&&◌, ◌||◌, List, [], ◌∷◌, leb, arith, Bool-cases,
  inl, inr, length, append-nil,
}
use taningia.TaList.Chain.{Entry}
use taningia.TaList.Sort.{Compare, at_most_zero}
use taningia.TaList.Sort.Runs.{merged, pairs, settle, concat, count_pairs}

-- `cmpfunc (p, q) <= 0` is an order in which any two entries compare.
pub record Ordering (cmp : Compare) : Type 0 where
  pub total : (d e : ℕ) → (at_most_zero (cmp d e) || at_most_zero (cmp e d)) ≡ true
  pub trans :
      (d e f : ℕ)
      → at_most_zero (cmp d e) ≡ true
      → at_most_zero (cmp e f) ≡ true
      → at_most_zero (cmp d f) ≡ true

-- The data is at most that of each entry.
unfoldable pub below : Compare → ℕ → List Entry → Bool
below cmp d [] = true
below cmp d ((a, e) ∷ xs) = at_most_zero (cmp d e) && below cmp d xs

unfoldable pub ascends : Compare → List Entry → Bool
unfolding below
ascends cmp [] = true
ascends cmp ((a, d) ∷ xs) = below cmp d xs && ascends cmp xs

unfoldable pub all_ascend : Compare → List (List Entry) → Bool
unfolding ascends
all_ascend cmp [] = true
all_ascend cmp (run ∷ runs) = ascends cmp run && all_ascend cmp runs

below-merged :
    (cmp : Compare) (d : ℕ) (xs ys : List Entry)
    → below cmp d (merged cmp xs ys) ≡ (below cmp d xs && below cmp d ys)
unfolding merged below
below-merged cmp d [] ys = refl
below-merged cmp d (x ∷ xs) [] = ground arith
below-merged cmp d ((a, e) ∷ xs) ((b, f) ∷ ys) = elim (Bool-cases (at_most_zero (cmp e f))) [
  | inl first ↦ rw (first, below-merged cmp d xs ((b, f) ∷ ys)) (ground arith)
  | inr second ↦ rw (second, below-merged cmp d ((a, e) ∷ xs) ys) (ground arith)
]

module _ (cmp : Compare) (ord : Ordering cmp) where
  below_trans :
      (d e : ℕ) (xs : List Entry)
      → at_most_zero (cmp d e) ≡ true
      → below cmp e xs ≡ true
      → below cmp d xs ≡ true
  unfolding below
  below_trans d e [] le b = refl
  below_trans d e ((a, f) ∷ xs) le b =
      let here : at_most_zero (cmp d f) ≡ true = ord.trans d e f le (ground arith) in
      let rest = below_trans d e xs le (ground arith) in rw (here, rest) refl

  pub ascends-merged :
      (xs ys : List Entry)
      → ascends cmp xs ≡ true
      → ascends cmp ys ≡ true
      → ascends cmp (merged cmp xs ys) ≡ true
  unfolding merged ascends below
  ascends-merged [] ys s t = t
  ascends-merged (x ∷ xs) [] s t = s
  ascends-merged ((a, d) ∷ xs) ((b, e) ∷ ys) s t = elim (Bool-cases (at_most_zero (cmp d e))) [
    | inl first ↦
        let own : below cmp d xs ≡ true = ground arith in
        let other = below_trans d e ys first (ground arith) in
        let rest = ascends-merged xs ((b, e) ∷ ys) (ground arith) t in
        rw (first, below-merged cmp d xs ((b, e) ∷ ys), own, first, other, rest) refl
    | inr second ↦
        let back : at_most_zero (cmp e d) ≡ true = ground (arith, ord.total d e) in
        let own : below cmp e ys ≡ true = ground arith in
        let other = below_trans e d xs back (ground arith) in
        let rest = ascends-merged ((a, d) ∷ xs) ys s (ground arith) in
        rw (second, below-merged cmp e ((a, d) ∷ xs) ys, back, other, own, rest) refl
  ]

  pairs-ascend :
      (runs : List (List Entry))
      → all_ascend cmp runs ≡ true
      → all_ascend cmp (pairs cmp runs) ≡ true
  unfolding pairs all_ascend
  pairs-ascend [] s = refl
  pairs-ascend (run ∷ []) s = s
  pairs-ascend (left ∷ right ∷ runs) s =
      let both = ascends-merged left right (ground arith) (ground arith) in
      let rest = pairs-ascend runs (ground arith) in rw (both, rest) refl

  ascends-concat :
      (runs : List (List Entry))
      → all_ascend cmp runs ≡ true
      → leb (length runs) 1 ≡ true
      → ascends cmp (concat runs) ≡ true
  unfolding all_ascend ascends
  ascends-concat [] s l = refl
  ascends-concat (run ∷ []) s l = rw (append-nil run) (ground arith)
  ascends-concat (left ∷ right ∷ runs) s l = absurd (ground arith)

  -- Behind the passes there is one run, and it ascends.
  pub settle-ascends :
      (passes : ℕ) (runs : List (List Entry))
      → all_ascend cmp runs ≡ true
      → length runs < passes
      → ascends cmp (settle passes cmp runs) ≡ true
  unfolding settle
  settle-ascends zero runs s f = absurd (omega arith)
  settle-ascends (suc passes) runs s f =
      let next = pairs-ascend runs s in
      elim (Bool-cases (leb (length (pairs cmp runs)) 1)) [
        | inl done ↦ rw done (ascends-concat (pairs cmp runs) next done)
        | inr more ↦
            let many : 2 ≤ length (pairs cmp runs) = ground arith in
            let fewer = count_pairs cmp runs many in
            rw more (settle-ascends passes (pairs cmp runs) next (omega arith))
      ]
