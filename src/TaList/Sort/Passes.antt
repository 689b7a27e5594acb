-- ===== src/TaList/Sort/Passes.antt =====
-- src/list.c: a pass of `ta_list_sort` over a list, and all of them.
use taningia.Base.{
  ℕ, zero, suc, ◌+◌, ◌≤◌, ◌<◌, ◌≡◌, refl, sym, ap, ◌∙◌, true, false, none, some, List, [], ◌∷◌,
  ◌++◌, ltb, arith, length, append-nil,
}
use taningia.Base.Run.{ok}
use taningia.TaList.{Heap, Pointer}
use taningia.TaList.Remove.{is_null}
use taningia.TaList.Chain.{Entry}
use taningia.TaList.Changing.{rev_onto}
use taningia.TaList.Sort.{Compare, Merge, split, merge_next, pass}
use taningia.TaList.Sort.Segments.{copies, Forward, Built, copies-append}
use taningia.TaList.Sort.Runs.{merged, merged-nil, fits, shaped, concat, pairs}
use taningia.TaList.Sort.Merging.{Parts}
use taningia.TaList.Sort.Rounds.{merge-Parts}

-- The loop that splits stops behind the run.
split-Forward :
    (run later : List Entry) (size k : ℕ) (h : Heap) (p : Pointer)
    → Forward h p (run ++ later) none
    → ltb 0 (length run) ≡ true
    → fits size (length run) (length later) ≡ true
    → (q : Pointer) × (split size h k p ≡ ok (k + length run, q))
      × Forward h p run q
      × Forward h q later none
unfolding split Forward
split-Forward [] later size k h p f l0 fit = absurd (ground arith)
split-Forward (x ∷ run) later zero k h p f l0 fit = absurd (ground arith)
split-Forward ((a, d) ∷ []) [] (suc size) k h p (b, n, here, at, rest) l0 fit =
    let more : suc k ≡ k + 1 = omega arith in
    (none, rw (here, at, rest) (ap (λ i. ok (i, none)) more), (b, n, here, at, rest), refl)
split-Forward ((a, d) ∷ []) ((c, e) ∷ later) (suc size) k h p (b, n, here, at, rest) l0 fit =
    let last : size ≡ 0 = ground arith in
    let (b', n', here', at', rest') = rest in
    let more : suc k ≡ k + 1 = omega arith in
    (n, rw (here, at, last, here') (ap (λ i. ok (i, some c)) more), (b, n, here, at, refl), rest)
split-Forward ((a, d) ∷ (c, e) ∷ run) later (suc size) k h p (b, n, here, at, rest) l0 fit =
    let (b', n', here', at', rest') = rest in
    let (q, eq, first, second) =
      split-Forward ((c, e) ∷ run) later size (suc k) h n rest (ground arith) (ground arith) in
    let more : suc k + suc (length run) ≡ k + suc (suc (length run)) = omega arith in
    let go = ap (split size h (suc k)) (sym here') ∙ eq ∙ ap (λ i. ok (i, q)) more in
    (q, rw (here, at, here') go, (b, n, here, at, first), second)

-- Between two merges: what has been merged, and the rest of the list from `p` on.
pub record Between (m : Merge) (rs rest : List Entry) : Type 0 where
  pub built : Built m.heap m.list m.tail rs
  pub forward : Forward m.heap m.p rest none
  pub once : (x : ℕ) → copies x rs + copies x rest ≤ 1

-- Two runs, the second of which is missing at the end of a list with an odd number of them.
merge_next-Between :
    (cmp : Compare) (size : ℕ) (m : Merge) (rs left right later : List Entry)
    → Between m rs (left ++ (right ++ later))
    → ltb 0 (length left) ≡ true
    → fits size (length left) (length (right ++ later)) ≡ true
    → fits size (length right) (length later) ≡ true
    → (m' : Merge) × (merge_next cmp size m ≡ ok m')
      × Between m' (rev_onto (merged cmp left right) rs) later
unfolding merge_next copies
merge_next-Between cmp size m rs left right later between l0 l1 r1 =
    let (q, cut, first, second) =
      split-Forward left (right ++ later) size 0 m.heap m.p between.forward l0 l1 in
    let size_left : 0 + length left ≡ length left = omega arith in
    let m1 : Merge = record m { psize = length left; qsize = size; q = q } in
    let parts : Parts m1 rs left right later = record {
      built = between.built;
      stop = q;
      first = first;
      second = second;
      psize = refl;
      qsize = r1;
      once = λ x.
          let o : copies x rs + copies x (left ++ (right ++ later)) ≤ 1 = between.once x in
          omega (arith, o, copies-append x left (right ++ later));
    } in
    let enough : length left + length right < suc (length left + size) = ground arith in
    let (m2, done, parts2) =
      merge-Parts (suc (length left + size)) cmp m1 rs left right later parts enough in
    let once : (x : ℕ) → copies x (rev_onto (merged cmp left right) rs) + copies x later ≤ 1 = λ x.
      let o : copies x (rev_onto (merged cmp left right) rs) + (0 + copies x later) ≤ 1 =
        parts2.once x in
      omega arith in
    (
      record m2 { p = m2.q },
      rw (cut ∙ ap (λ k. ok (k, q)) size_left, done) refl,
      record { built = parts2.built; forward = parts2.second; once = once },
    )

Forward-some :
    (run later : List Entry) (h : Heap) (p r : Pointer)
    → Forward h p (run ++ later) r
    → ltb 0 (length run) ≡ true
    → is_null p ≡ false
unfolding Forward
Forward-some [] later h p r f l0 = absurd (ground arith)
Forward-some ((a, d) ∷ run) later h p r (b, n, here, at, rest) l0 = ap is_null here

rev_onto-append : (xs ys rs : List Entry) → rev_onto (xs ++ ys) rs ≡ rev_onto ys (rev_onto xs rs)
rev_onto-append [] ys rs = refl
rev_onto-append (x ∷ xs) ys rs = rev_onto-append xs ys (x ∷ rs)

round_lem :
    (fuel : ℕ) (cmp : Compare) (size : ℕ) (m m' : Merge) (n : ℕ)
    → is_null m.p ≡ false
    → merge_next cmp size m ≡ ok m'
    → pass (suc fuel) cmp size m n ≡ pass fuel cmp size m' (suc n)
unfolding pass
round_lem fuel cmp size m m' n more merges = rw (more, merges) refl

-- A pass takes all runs in pairs, and counts what it leaves.
pub pass-Built :
    (runs : List (List Entry)) (fuel : ℕ) (cmp : Compare) (size : ℕ) (m : Merge) (n : ℕ)
    (rs : List Entry)
    → Between m rs (concat runs)
    → shaped size runs ≡ true
    → length runs < fuel
    → (m' : Merge) × (pass fuel cmp size m n ≡ ok (m', n + length (pairs cmp runs)))
      × Built m'.heap m'.list m'.tail (rev_onto (concat (pairs cmp runs)) rs)
unfolding pass pairs shaped Forward
pass-Built runs zero cmp size m n rs between s f = absurd (omega arith)
pass-Built [] (suc fuel) cmp size m n rs between s f =
    let none_more : n ≡ n + 0 = omega arith in
    let gone : is_null m.p ≡ true = ap is_null between.forward in
    (m, rw gone (ap (λ k. ok (m, k)) none_more), between.built)
pass-Built (run ∷ []) (suc fuel) cmp size m n rs between s f =
    let l0 : ltb 0 (length run) ≡ true = ground arith in
    let l1 : fits size (length run) 0 ≡ true = ground arith in
    let r1 : fits size 0 0 ≡ true = ground arith in
    let (m1, merges, between1) = merge_next-Between cmp size m rs run [] [] between l0 l1 r1 in
    let (m2, rest, built) = pass-Built [] fuel cmp size m1 (suc n) _ between1 refl (omega arith) in
    let count : suc n + 0 ≡ n + 1 = omega arith in
    let some_p = Forward-some run [] m.heap m.p none between.forward l0 in
    (
      m2,
      round_lem fuel cmp size m m1 n some_p merges ∙ rest ∙ ap (λ k. ok (m2, k)) count,
      rw (append-nil run) (rw (merged-nil cmp run) at built),
    )
pass-Built (left ∷ right ∷ runs) (suc fuel) cmp size m n rs between s f =
    let l0 : ltb 0 (length left) ≡ true = ground arith in
    let l1 : fits size (length left) (length (right ++ concat runs)) ≡ true = ground arith in
    let r1 : fits size (length right) (length (concat runs)) ≡ true = ground arith in
    let (m1, merges, between1) =
      merge_next-Between cmp size m rs left right (concat runs) between l0 l1 r1 in
    let (m2, rest, built) =
      pass-Built runs fuel cmp size m1 (suc n) _ between1 (ground arith) (omega arith) in
    let count : suc n + length (pairs cmp runs) ≡ n + suc (length (pairs cmp runs)) = omega arith in
    let some_p = Forward-some left (right ++ concat runs) m.heap m.p none between.forward l0 in
    (
      m2,
      round_lem fuel cmp size m m1 n some_p merges ∙ rest ∙ ap (λ k. ok (m2, k)) count,
      rw (rev_onto-append (merged cmp left right) (concat (pairs cmp runs)) rs) built,
    )
