-- ===== src/TaList/Sort/Rounds.antt =====
-- src/list.c: the rounds of the loop of `ta_list_sort` that merges, from two runs to one.
use taningia.Base.{
  ℕ, zero, suc, ◌+◌, ◌<◌, ◌≡◌, refl, ap, ◌∙◌, Bool, true, false, ◌||◌, List, [], ◌∷◌, ◌==◌, arith,
  Bool-cases, inl, inr, length, if◌then◌else◌,
}
use taningia.Base.Run.{ok}
use taningia.TaList.Remove.{is_null}
use taningia.TaList.Chain.{Entry}
use taningia.TaList.Changing.{rev_onto}
use taningia.TaList.Sort.{Compare, Merge, at_most_zero, takes_p, take_p, take_q, goes_on, merge}
use taningia.TaList.Sort.Segments.{Forward}
use taningia.TaList.Sort.Runs.{merged, merged-nil}
use taningia.TaList.Sort.Merging.{Parts, take_p-Parts, take_q-Parts, goes_on-p, goes_on-q, no_q}

round_lem :
    (fuel : ℕ) (cmp : Compare) (m m' : Merge) (from_p : Bool)
    → goes_on m.psize m.qsize m.q ≡ true
    → takes_p cmp m ≡ ok from_p
    → (if from_p then take_p m else take_q m) ≡ ok m'
    → merge (suc fuel) cmp m ≡ merge fuel cmp m'
unfolding merge
round_lem fuel cmp m m' from_p goes choice taken = rw (goes, choice, taken) refl

takes_p-q : (cmp : Compare) (m : Merge) → (m.psize == 0) ≡ true → takes_p cmp m ≡ ok false
unfolding takes_p
takes_p-q cmp m e = rw e refl

takes_p-p :
    (cmp : Compare) (m : Merge)
    → (m.psize == 0) ≡ false
    → (m.qsize == 0 || is_null m.q) ≡ true
    → takes_p cmp m ≡ ok true
unfolding takes_p
takes_p-p cmp m e f = rw (e, f) refl

takes_p-compare :
    (cmp : Compare) (m : Merge) (a d b e : ℕ) (rs ps qs later : List Entry)
    → Parts m rs ((a, d) ∷ ps) ((b, e) ∷ qs) later
    → takes_p cmp m ≡ ok (at_most_zero (cmp d e))
unfolding takes_p Forward
takes_p-compare cmp m a d b e rs ps qs later parts =
    let (o, n, at_p, cell_p, rest_p) = parts.first in
    let (o', n', at_q, cell_q, rest_q) = parts.second in
    let (goes, q_left) = goes_on-q m (b, e) rs ((a, d) ∷ ps) qs later parts in
    let p_left : (m.psize == 0) ≡ false = ground (arith, parts.psize) in
    rw (p_left, q_left, at_p, at_q, cell_p, cell_q) refl

-- Nothing is left of the two runs.
stop_lem :
    (fuel : ℕ) (cmp : Compare) (m : Merge) (rs later : List Entry)
    → Parts m rs [] [] later
    → merge (suc fuel) cmp m ≡ ok m
unfolding merge
stop_lem fuel cmp m rs later parts =
    let q_gone = no_q m rs [] later parts in
    let p_gone : m.psize ≡ 0 = parts.psize in
    let ends : goes_on m.psize m.qsize m.q ≡ false = ground arith in rw ends refl

-- The loop goes through, and ends where both runs are merged.
pub merge-Parts :
    (fuel : ℕ) (cmp : Compare) (m : Merge) (rs ps qs later : List Entry)
    → Parts m rs ps qs later
    → length ps + length qs < fuel
    → (m' : Merge) × (merge fuel cmp m ≡ ok m')
      × Parts m' (rev_onto (merged cmp ps qs) rs) [] [] later
unfolding merged
merge-Parts zero cmp m rs ps qs later parts f = absurd (omega arith)
merge-Parts (suc fuel) cmp m rs [] [] later parts f = (m, stop_lem fuel cmp m rs later parts, parts)
merge-Parts (suc fuel) cmp m rs [] ((b, e) ∷ qs) later parts f =
    let (goes, some_q) = goes_on-q m (b, e) rs [] qs later parts in
    let (m1, taken, parts1) = take_q-Parts m b e rs [] qs later parts in
    let (m2, done, parts2) =
      merge-Parts fuel cmp m1 ((b, e) ∷ rs) [] qs later parts1 (omega arith) in
    let p_gone : (m.psize == 0) ≡ true = ground (arith, parts.psize) in
    (m2, round_lem fuel cmp m m1 false goes (takes_p-q cmp m p_gone) taken ∙ done, parts2)
merge-Parts (suc fuel) cmp m rs ((a, d) ∷ ps) [] later parts f =
    let goes = goes_on-p m (a, d) rs ps [] later parts in
    let (m1, taken, parts1) = take_p-Parts m a d rs ps [] later parts in
    let (m2, done, parts2) =
      merge-Parts fuel cmp m1 ((a, d) ∷ rs) ps [] later parts1 (omega arith) in
    let p_left : (m.psize == 0) ≡ false = ground (arith, parts.psize) in
    let choice = takes_p-p cmp m p_left (no_q m rs ((a, d) ∷ ps) later parts) in
    (m2, round_lem fuel cmp m m1 true goes choice taken ∙ done, rw (merged-nil cmp ps) at parts2)
merge-Parts (suc fuel) cmp m rs ((a, d) ∷ ps) ((b, e) ∷ qs) later parts f =
    let goes = goes_on-p m (a, d) rs ps ((b, e) ∷ qs) later parts in
    let choice = takes_p-compare cmp m a d b e rs ps qs later parts in
    elim (Bool-cases (at_most_zero (cmp d e))) [
      | inl first ↦
          let (m1, taken, parts1) = take_p-Parts m a d rs ps ((b, e) ∷ qs) later parts in
          let (m2, done, parts2) =
            merge-Parts fuel cmp m1 ((a, d) ∷ rs) ps ((b, e) ∷ qs) later parts1 (omega arith) in
          let choice' = choice ∙ ap ok first in
          rw first (m2, round_lem fuel cmp m m1 true goes choice' taken ∙ done, parts2)
      | inr second ↦
          let (m1, taken, parts1) = take_q-Parts m b e rs ((a, d) ∷ ps) qs later parts in
          let (m2, done, parts2) =
            merge-Parts fuel cmp m1 ((b, e) ∷ rs) ((a, d) ∷ ps) qs later parts1 (omega arith) in
          let choice' = choice ∙ ap ok second in
          rw second (m2, round_lem fuel cmp m m1 false goes choice' taken ∙ done, parts2)
    ]
