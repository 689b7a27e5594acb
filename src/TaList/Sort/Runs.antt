-- ===== src/TaList/Sort/Runs.antt =====
-- src/list.c: what `ta_list_sort` computes on the entries of a list, which it takes as runs that
-- are sorted already and merges in pairs.
use taningia.Base.{
  leb, zero, suc, ℕ, ◌+◌, ◌≤◌, ◌<◌, ◌≡◌, refl, Bool, true, ◌&&◌, ◌||◌, List, [], ◌∷◌, ◌++◌, arith,
  Bool-cases, inl, inr, if◌then◌else◌, length, length-append, ltb, ◌==◌, append-nil, append_assoc,
}
use mathlib.Core.List.{Perm, perm_middle}
use mathlib.Core.List.Perm
use taningia.TaList.Chain.{Entry}
use taningia.TaList.Sort.{Compare, at_most_zero}
use taningia.TaList.Sort.Segments.{copies, copies-append}

-- The merge of two lists, in which the first one goes ahead where both could.
unfoldable pub merged : Compare → List Entry → List Entry → List Entry
merged cmp [] ys = ys
merged cmp (x ∷ xs) [] = x ∷ xs
merged cmp ((a, d) ∷ xs) ((b, e) ∷ ys) =
    let left = (a, d) ∷ merged cmp xs ((b, e) ∷ ys) in
    let right = (b, e) ∷ merged cmp ((a, d) ∷ xs) ys in
    if at_most_zero (cmp d e) then left else right

pub merged-nil : (cmp : Compare) (xs : List Entry) → merged cmp xs [] ≡ xs
unfolding merged
merged-nil cmp [] = refl
merged-nil cmp (x ∷ xs) = refl

pub merged-Perm : (cmp : Compare) (xs ys : List Entry) → Perm (merged cmp xs ys) (xs ++ ys)
unfolding merged
merged-Perm cmp [] ys = Perm.rfl
merged-Perm cmp (x ∷ xs) [] = rw (append-nil xs) Perm.rfl
merged-Perm cmp ((a, d) ∷ xs) ((b, e) ∷ ys) = elim (Bool-cases (at_most_zero (cmp d e))) [
  | inl first ↦ rw first (Perm.cons (a, d) (merged-Perm cmp xs ((b, e) ∷ ys)))
  | inr second ↦
      let moved = Perm.symm (perm_middle {a = (b, e)} ((a, d) ∷ xs) ys) in
      rw second (Perm.trans (Perm.cons (b, e) (merged-Perm cmp ((a, d) ∷ xs) ys)) moved)
]

pub length-merged :
    (cmp : Compare) (xs ys : List Entry) → length (merged cmp xs ys) ≡ length xs + length ys
unfolding merged
length-merged cmp [] ys = omega arith
length-merged cmp (x ∷ xs) [] = omega arith
length-merged cmp ((a, d) ∷ xs) ((b, e) ∷ ys) = elim (Bool-cases (at_most_zero (cmp d e))) [
  | inl first ↦ rw first (omega (arith, length-merged cmp xs ((b, e) ∷ ys)))
  | inr second ↦ rw second (omega (arith, length-merged cmp ((a, d) ∷ xs) ys))
]

pub copies-merged :
    (x : ℕ) (cmp : Compare) (xs ys : List Entry)
    → copies x (merged cmp xs ys) ≡ copies x xs + copies x ys
unfolding merged copies
copies-merged x cmp [] ys = omega arith
copies-merged x cmp (y ∷ xs) [] = omega arith
copies-merged x cmp ((a, d) ∷ xs) ((b, e) ∷ ys) = elim (Bool-cases (at_most_zero (cmp d e))) [
  | inl first ↦ rw first (omega (arith, copies-merged x cmp xs ((b, e) ∷ ys)))
  | inr second ↦ rw second (omega (arith, copies-merged x cmp ((a, d) ∷ xs) ys))
]

-- The runs of a list, one behind the other.
abbrev pub concat : List (List Entry) → List Entry
concat [] = []
concat (run ∷ runs) = run ++ concat runs

-- A run that fills its part, or the last one.
abbrev pub fits : ℕ → ℕ → ℕ → Bool
fits size n behind = n == size || (ltb n size && behind == 0)

-- Every run has an entry, and all but the last one have the size.
unfoldable pub shaped : ℕ → List (List Entry) → Bool
shaped size [] = true
shaped size (run ∷ runs) =
    ltb 0 (length run) && fits size (length run) (length (concat runs)) && shaped size runs

-- A pass.
unfoldable pub pairs : Compare → List (List Entry) → List (List Entry)
unfolding merged
pairs cmp [] = []
pairs cmp (run ∷ []) = run ∷ []
pairs cmp (left ∷ right ∷ runs) = merged cmp left right ∷ pairs cmp runs

pub length_pairs :
    (cmp : Compare) (runs : List (List Entry))
    → length (concat (pairs cmp runs)) ≡ length (concat runs)
unfolding pairs
length_pairs cmp [] = refl
length_pairs cmp (run ∷ []) = refl
length_pairs cmp (left ∷ right ∷ runs) = omega (
  arith,
  length_pairs cmp runs,
  length-merged cmp left right,
  length-append (merged cmp left right) (concat (pairs cmp runs)),
  length-append left (right ++ concat runs),
  length-append right (concat runs),
)

fits_two :
    (size l r c : ℕ)
    → fits size l (r + c) ≡ true
    → ltb 0 r ≡ true
    → fits size r c ≡ true
    → fits (size + size) (l + r) c ≡ true
fits_two size l r c f r0 g = elim (Bool-cases (l == size)) [
  | inl full ↦ ground arith
  | inr short ↦ ground arith
]

pub pairs-shaped :
    (cmp : Compare) (size : ℕ) (runs : List (List Entry))
    → shaped size runs ≡ true
    → shaped (size + size) (pairs cmp runs) ≡ true
unfolding pairs shaped
pairs-shaped cmp size [] s = refl
pairs-shaped cmp size (run ∷ []) s = ground arith
pairs-shaped cmp size (left ∷ right ∷ runs) s =
    let l0 : ltb 0 (length left) ≡ true = ground arith in
    let r0 : ltb 0 (length right) ≡ true = ground arith in
    let l1 : fits size (length left) (length (right ++ concat runs)) ≡ true = ground arith in
    let r1 : fits size (length right) (length (concat runs)) ≡ true = ground arith in
    let l2 : fits size (length left) (length right + length (concat runs)) ≡ true =
      rw (length-append right (concat runs)) at l1 in
    let both = fits_two size (length left) (length right) (length (concat runs)) l2 r0 r1 in
    let some_entry : ltb 0 (length left + length right) ≡ true = ground arith in
    rw (length-merged cmp left right, length_pairs cmp runs, some_entry, both)
      (pairs-shaped cmp size runs (ground arith))

pub pairs-Perm :
    (cmp : Compare) (runs : List (List Entry)) → Perm (concat (pairs cmp runs)) (concat runs)
unfolding pairs
pairs-Perm cmp [] = Perm.rfl
pairs-Perm cmp (run ∷ []) = Perm.rfl
pairs-Perm cmp (left ∷ right ∷ runs) =
    let both : Perm (merged cmp left right ++ concat (pairs cmp runs))
        (left ++ right ++ concat runs) =
      Perm.append (merged-Perm cmp left right) (pairs-Perm cmp runs) in
    rw (append_assoc left right (concat runs)) at both

length-pairs_le : (cmp : Compare) (runs : List (List Entry)) → length (pairs cmp runs) ≤ length runs
unfolding pairs
length-pairs_le cmp [] = omega arith
length-pairs_le cmp (run ∷ []) = omega arith
length-pairs_le cmp (left ∷ right ∷ runs) = omega (arith, length-pairs_le cmp runs)

-- Where a pass leaves two runs or more, it had one more at least.
pub count_pairs :
    (cmp : Compare) (runs : List (List Entry))
    → 2 ≤ length (pairs cmp runs)
    → length (pairs cmp runs) < length runs
unfolding pairs
count_pairs cmp [] n = absurd (omega arith)
count_pairs cmp (run ∷ []) n = absurd (omega arith)
count_pairs cmp (left ∷ right ∷ runs) n = omega (arith, length-pairs_le cmp runs)

pub copies-pairs :
    (x : ℕ) (cmp : Compare) (runs : List (List Entry))
    → copies x (concat (pairs cmp runs)) ≡ copies x (concat runs)
unfolding pairs
copies-pairs x cmp [] = refl
copies-pairs x cmp (run ∷ []) = refl
copies-pairs x cmp (left ∷ right ∷ runs) = omega (
  arith,
  copies-pairs x cmp runs,
  copies-merged x cmp left right,
  copies-append x (merged cmp left right) (concat (pairs cmp runs)),
  copies-append x left (right ++ concat runs),
  copies-append x right (concat runs),
)

-- Passes until there is one run.
unfoldable pub settle : ℕ → Compare → List (List Entry) → List Entry
settle zero cmp runs = []
settle (suc passes) cmp runs =
    let next = pairs cmp runs in
    let rest = settle passes cmp next in if leb (length next) 1 then concat next else rest

pub settle-Perm :
    (passes : ℕ) (cmp : Compare) (runs : List (List Entry))
    → length runs < passes
    → Perm (settle passes cmp runs) (concat runs)
unfolding settle
settle-Perm zero cmp runs f = absurd (omega arith)
settle-Perm (suc passes) cmp runs f = elim (Bool-cases (leb (length (pairs cmp runs)) 1)) [
  | inl done ↦ rw done (pairs-Perm cmp runs)
  | inr more ↦
      let many : 2 ≤ length (pairs cmp runs) = ground arith in
      let fewer = count_pairs cmp runs many in
      rw more
        (Perm.trans (settle-Perm passes cmp (pairs cmp runs) (omega arith)) (pairs-Perm cmp runs))
]
