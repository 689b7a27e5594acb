-- ===== src/Tests/Choices.antt =====
-- The sort and the choice among the targets of src/srv.c, on a list of three targets of two priorities.
use taningia.Base.{ℕ, suc, ◌≡◌, refl, ◌==◌, true, none, some, List, [], ◌∷◌, if◌then◌else◌, arith}
use mathlib.Core.List.{Perm}
use taningia.Base.Int.{pos, negsuc}
use taningia.Base.Run.{ok, fault}
use taningia.Srv
use taningia.Srv.{Target}
use taningia.Srv.Choice.{Targets, Draw, choose_group}
use taningia.Srv.Choice.Walk.{level, total}
use taningia.Srv.Choice.Removal.{distinct_data}
use taningia.Srv.Choice.Outcome.{choose_group-past}
use taningia.Srv.Choice.Rounds.{Rearranged}
use taningia.Srv.Sorting.{by_target, order_targets}
use taningia.Srv.Sorting.Groups.{groups_of, known}
use taningia.Srv.Sorting.Laws.{by_target-Ordering, order_targets-ends}
use taningia.TaList.{Heap, Pointer}
use taningia.TaList.Chain.{Entry, Chain, node, distinct, mentions}
use taningia.TaList.Sort.{sort}
use taningia.TaList.Sort.Segments.{Forward}
use taningia.TaList.Sort.Sorted.{ascends}
use taningia.TaList.Sort.Whole.{sort-Chain}
use taningia.TaList.Unlinking.{lacks_datum}

abbrev target : ℕ → ℕ → Target
target priority weight = record Srv.init { priority = priority; weight = weight }

abbrev targets : Targets
targets d =
    if d == 7 then some (target 1 10) else if d == 8 then some (target 1 20) else some (target 2 5)

abbrev three : Heap
three = record {
  cells = λ a.
      if a == 1
      then node none (some 2) 7
      else if a == 2
      then node (some 1) (some 3) 8
      else if a == 3
      then node (some 2) none 9
      else none;
  top = 4;
}

abbrev answer : List Entry
answer = (1, 7) ∷ (2, 8) ∷ (3, 9) ∷ []

three-Chain : Chain three none (some 1) answer
unfolding Chain
three-Chain = (some 2, refl, refl, (some 3, refl, refl, (none, refl, refl, refl)))

sort-Chain_example :
    (h' : Heap) × (p' : Pointer) × (ys : List Entry) × (sort 4 (by_target targets) three (some 1)
      ≡ ok (h', p'))
    × Chain h' none p' ys
    × Perm ys answer
    × (ascends (by_target targets) ys ≡ true)
unfolding distinct mentions
sort-Chain_example =
    sort-Chain answer 4 (by_target targets) three (some 1) three-Chain refl (omega arith)
      (by_target-Ordering targets)

-- The random numbers that are the sum, and those of `RAND_MAX`.
abbrev highest : Draw
highest k (pos sum) = pos sum
highest k (negsuc sum) = pos 0

abbrev beyond : Draw
beyond k (pos sum) = pos (suc sum)
beyond k (negsuc sum) = pos 0

order_targets-ends_example :
    (h' : Heap) × (out : Pointer) × (sorted ys : List Entry) × (order_targets 4 targets highest
        three
        (some 1)
      ≡ ok (h', out))
    × Forward h' out ys none
    × Perm sorted answer
    × (ascends (by_target targets) sorted ≡ true)
    × Rearranged (groups_of targets sorted) ys
unfolding distinct mentions distinct_data lacks_datum known
order_targets-ends_example =
    order_targets-ends answer 4 targets highest three (some 1) three-Chain refl refl refl
      (omega arith) (λ k sum. (sum, refl, omega arith))

-- The last target of the list, alone.
abbrev one : Heap
one = record { cells = λ a. if a == 3 then node none none 9 else none; top = 4 }

choose_group-past_example :
    choose_group 3 targets beyond 3
      (record { heap = one; targets = some 3; out = none; tail = none; drawn = 0 })
    ≡ fault
unfolding Chain level total
choose_group-past_example =
    choose_group-past 3 9 3 2 [] targets beyond
      (record { heap = one; targets = some 3; out = none; tail = none; drawn = 0 })
      (none, refl, refl, refl) refl (omega arith) refl
