-- ===== src/Srv/Sorting/Laws.antt =====
-- src/srv.c: the order in which the targets of an answer come.
use taningia.Base.{
  ℕ, ◌≤◌, ◌<◌, ◌≡◌, refl, ap, sym, ◌∙◌, true, not, ◌||◌, Option, none, some, List, [], ◌∷◌, ◌==◌,
  arith, is_some, length, Bool-cases, inl, inr,
}
use mathlib.Core.List.{Perm}
use taningia.Base.Run.{ok}
use taningia.Srv.{Target}
use taningia.Srv.Order.{precedes, cmp_targets-precedes}
use taningia.Srv.Choice.{Targets, Draw}
use taningia.Srv.Choice.Removal.{distinct_data}
use taningia.Srv.Choice.Group.{InRange}
use taningia.Srv.Choice.Rounds.{Group, entries, Rearranged, arrange-ends}
use taningia.Srv.Sorting.{cmp_cells, by_target, order_targets}
use taningia.Srv.Sorting.Groups.{
  groups_of, groups_of-entries, groups_of-grouped, length-groups_of, known,
}
use taningia.TaList.{Heap, Pointer}
use taningia.TaList.Chain.{Entry, Chain, distinct}
use taningia.TaList.Sort.{at_most_zero}
use taningia.TaList.Sort.Segments.{Forward}
use taningia.TaList.Sort.Sorted.{Ordering, ascends}
use taningia.TaList.Sort.Tally.{tally, tally-Perm, distinct-Perm}
use taningia.TaList.Sort.Whole.{sort-Chain}
use taningia.TaList.Unlinking.{lacks_datum}

cells_total :
    (s t : Option Target) → (at_most_zero (cmp_cells s t) || at_most_zero (cmp_cells t s)) ≡ true
cells_total none t = refl
cells_total (some s) none = refl
cells_total (some s) (some t) =
    rw (cmp_targets-precedes s t, cmp_targets-precedes t s) (ground arith)

cells_trans :
    (s t u : Option Target)
    → at_most_zero (cmp_cells s t) ≡ true
    → at_most_zero (cmp_cells t u) ≡ true
    → at_most_zero (cmp_cells s u) ≡ true
cells_trans none t u h k = refl
cells_trans (some s) none u h k = absurd (ground arith)
cells_trans (some s) (some t) none h k = absurd (ground arith)
cells_trans (some s) (some t) (some u) h k =
    let st : precedes s t ≡ true = sym (cmp_targets-precedes s t) ∙ h in
    let tu : precedes t u ≡ true = sym (cmp_targets-precedes t u) ∙ k in
    cmp_targets-precedes s u ∙ ground arith

pub by_target-Ordering : (targets : Targets) → Ordering (by_target targets)
by_target-Ordering targets = record {
  total = λ d e. cells_total (targets d) (targets e);
  trans = λ d e f. cells_trans (targets d) (targets e) (targets f);
}

-- The tests that a rearrangement keeps.
known-tally :
    (targets : Targets) (xs : List Entry)
    → known targets xs ≡ (tally (λ e. not (is_some (targets (e.1)))) xs == 0)
unfolding known tally
known-tally targets [] = refl
known-tally targets ((a, d) ∷ xs) = rw (known-tally targets xs) (ground arith)

known-Perm :
    (targets : Targets) (xs ys : List Entry)
    → Perm xs ys
    → known targets ys ≡ true
    → known targets xs ≡ true
known-Perm targets xs ys moved k =
    known-tally targets xs
    ∙ ap (λ n. n == 0) (tally-Perm (λ e. not (is_some (targets (e.1)))) xs ys moved)
    ∙ sym (known-tally targets ys)
    ∙ k

length-tally : (xs : List Entry) → length xs ≡ tally (λ e. true) xs
unfolding tally
length-tally [] = refl
length-tally (x ∷ xs) = omega (arith, length-tally xs)

lacks_datum-tally : (d : ℕ) (xs : List Entry) → lacks_datum d xs ≡ (tally (λ e. e.1 == d) xs == 0)
unfolding lacks_datum tally
lacks_datum-tally d [] = refl
lacks_datum-tally d ((a, e) ∷ xs) = rw (lacks_datum-tally d xs) (ground arith)

distinct_data-tally :
    (d : ℕ) (xs : List Entry) → distinct_data xs ≡ true → tally (λ e. e.1 == d) xs ≤ 1
unfolding distinct_data tally
distinct_data-tally d [] u = omega arith
distinct_data-tally d ((a, e) ∷ xs) u =
    let rest = distinct_data-tally d xs (ground arith) in
    elim (Bool-cases (e == d)) [
      | inl same ↦
          let eq : e ≡ d = ground arith in
          let away : lacks_datum e xs ≡ true = ground arith in
          let gone : lacks_datum d xs ≡ true = rw eq at away in
          let zero : (tally (λ x. x.1 == d) xs == 0) ≡ true = sym (lacks_datum-tally d xs) ∙ gone in
          rw same (ground arith)
      | inr other ↦ rw other (omega arith)
    ]

tally-distinct_data :
    (xs : List Entry) → ((d : ℕ) → tally (λ e. e.1 == d) xs ≤ 1) → distinct_data xs ≡ true
unfolding distinct_data tally
tally-distinct_data [] once = refl
tally-distinct_data ((a, e) ∷ xs) once =
    let e_once : tally (λ x. x.1 == e) ((a, e) ∷ xs) ≤ 1 = once e in
    let zero : (tally (λ x. x.1 == e) xs == 0) ≡ true = ground arith in
    let away : lacks_datum e xs ≡ true = lacks_datum-tally e xs ∙ zero in
    let below : (d : ℕ) → tally (λ x. x.1 == d) xs ≤ 1 =
      λ d. let o : tally (λ x. x.1 == d) ((a, e) ∷ xs) ≤ 1 = once d in omega arith in
    rw (away, tally-distinct_data xs below) refl

distinct_data-Perm :
    (xs ys : List Entry) → Perm xs ys → distinct_data ys ≡ true → distinct_data xs ≡ true
distinct_data-Perm xs ys moved u =
    tally-distinct_data xs
      (λ d. omega (arith, tally-Perm (λ e. e.1 == d) xs ys moved, distinct_data-tally d ys u))

-- The list of the targets of an answer, none of them twice, with more fuel than targets, where no
-- random number is more than the sum that it is drawn for: whatever the random numbers,
-- ta_srv_query_domain returns, without a fault, a list, linked forwards and ended by NULL, that has
-- every target once: the targets sorted by priority and weight, and then those of each priority in
-- an order of their own, so that no target comes before one of a lower priority.
pub order_targets-ends :
    (xs : List Entry) (fuel : ℕ) (targets : Targets) (draw : Draw) (h : Heap) (p : Pointer)
    → Chain h none p xs
    → distinct xs ≡ true
    → distinct_data xs ≡ true
    → known targets xs ≡ true
    → length xs < fuel
    → InRange draw
    → (h' : Heap) × (out : Pointer) × (sorted ys : List Entry) × (order_targets fuel targets draw h
          p
        ≡ ok (h', out))
      × Forward h' out ys none
      × Perm sorted xs
      × (ascends (by_target targets) sorted ≡ true)
      × Rearranged (groups_of targets sorted) ys
unfolding order_targets
order_targets-ends xs fuel targets draw h p c u ud k f range =
    let (h1, list, sorted, sorts, c1, moved, order) =
      sort-Chain xs fuel (by_target targets) h p c u f (by_target-Ordering targets) in
    let groups : List Group = groups_of targets sorted in
    let same : entries groups ≡ sorted = groups_of-entries targets sorted in
    let count : length sorted ≡ length xs =
      length-tally sorted ∙ tally-Perm (λ e. true) sorted xs moved ∙ sym (length-tally xs) in
    let u1 = distinct-Perm sorted xs moved u in
    let ud1 = distinct_data-Perm sorted xs moved ud in
    let g1 =
      groups_of-grouped targets fuel sorted (known-Perm targets sorted xs moved k) (omega arith) in
    let (h2, out, ys, arranged, forward, rearranged) =
      arrange-ends groups fuel fuel targets draw h1 list (rw same c1) (rw same u1) (rw same ud1) g1
        (omega (arith, length-groups_of targets sorted)) range in
    (h2, out, sorted, ys, rw (sorts, arranged) refl, forward, moved, order, rearranged)
