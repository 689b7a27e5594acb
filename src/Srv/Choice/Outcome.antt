-- ===== src/Srv/Choice/Outcome.antt =====
-- src/srv.c: what the choice among the targets of the first priority of the list leaves.
use taningia.Base.{
  ℕ, zero, suc, ◌+◌, ◌<◌, ◌≡◌, refl, sym, ap, ◌∙◌, Bool, true, false, not, Option, none, some, List,
  [], ◌∷◌, ◌++◌, ◌==◌, arith, length, append-nil,
}
use mathlib.Core.List.{Perm}
use mathlib.Core.Path.{subst}
use taningia.Base.Int.{pos}
use taningia.Base.Run.{ok, fault}
use taningia.Srv.{Target}
use taningia.Srv.Choice.{Targets, Draw, State, choose, choose_all, choose_group, group_sum}
use taningia.Srv.Choice.Walk.{weight_in, has_priority, total, level, level-target, pick-past}
use taningia.Srv.Choice.Group.{Ready, InRange, choose_all-Ready}
use taningia.TaList.{Heap, Pointer}
use taningia.TaList.Chain.{Entry, Chain, node}

abbrev pub is_other : ℕ → Option Target → Bool
is_other v none = false
is_other v (some t) = not (t.priority == v)

-- Behind the group comes nothing, or a target of another priority.
abbrev pub ends : Targets → ℕ → List Entry → Bool
ends targets v [] = true
ends targets v ((a, d) ∷ xs) = is_other v (targets d)

other-target :
    (t : Option Target) (v : ℕ)
    → is_other v t ≡ true
    → (target : Target) × (t ≡ some target) × ((target.priority == v) ≡ false)
other-target none v h = absurd (ground arith)
other-target (some t) v h = (t, refl, ground arith)

-- The loop stops at the end of the list, and in front of another priority.
group_sum-end :
    (rest : List Entry) (fuel : ℕ) (h : Heap) (targets : Targets) (q p : Pointer) (v sum num : ℕ)
    → Chain h q p rest
    → ends targets v rest ≡ true
    → 0 < fuel
    → group_sum fuel h targets p v sum num ≡ ok (sum, num)
unfolding group_sum Chain
group_sum-end rest zero h targets q p v sum num c e f = absurd (omega arith)
group_sum-end [] (suc fuel) h targets q p v sum num c e f = rw c refl
group_sum-end ((a, d) ∷ rest) (suc fuel) h targets q p v sum num (n, here, at, later) e f =
    let (t, found, other) = other-target (targets d) v e in rw (here, at, found, other) refl

group_sum-step :
    (fuel : ℕ) (h : Heap) (targets : Targets) (q n : Pointer) (a d v sum num : ℕ)
    → h.cells a ≡ node q n d
    → has_priority v (targets d) ≡ true
    → group_sum (suc fuel) h targets (some a) v sum num
      ≡ group_sum fuel h targets n v (sum + weight_in (targets d)) (num + 1)
unfolding group_sum
group_sum-step fuel h targets q n a d v sum num at l =
    let (t, e, same) = level-target (targets d) v l in
    let self : (t.priority == v) ≡ true = ground arith in rw (at, e, self) refl

group_sum-total :
    (xs rest : List Entry) (fuel : ℕ) (h : Heap) (targets : Targets) (q p : Pointer) (v sum num : ℕ)
    → Chain h q p (xs ++ rest)
    → level targets v xs ≡ true
    → ends targets v rest ≡ true
    → length xs < fuel
    → group_sum fuel h targets p v sum num ≡ ok (sum + total targets xs, num + length xs)
unfolding Chain level total
group_sum-total xs rest zero h targets q p v sum num c l e f = absurd (omega arith)
group_sum-total [] rest (suc fuel) h targets q p v sum num c l e f =
    let none_more : sum + 0 ≡ sum = omega arith in
    let none_left : num + 0 ≡ num = omega arith in
    rw (none_more, none_left)
      (group_sum-end rest (suc fuel) h targets q p v sum num c e (omega arith))
group_sum-total ((a, d) ∷ xs) rest (suc fuel) h targets q p v sum num (n, here, at, later) l e f =
    let here_level : has_priority v (targets d) ≡ true = ground arith in
    let w : ℕ = weight_in (targets d) in
    let more : sum + w + total targets xs ≡ sum + (w + total targets xs) = omega arith in
    let left : num + 1 + length xs ≡ num + suc (length xs) = omega arith in
    rw (here, group_sum-step fuel h targets q n a d v sum num at here_level, sym more, sym left)
      (group_sum-total xs rest fuel h targets (some a) n v (sum + w) (num + 1) later (ground arith)
        e (omega arith))

-- The group starts with the first target: its sum and its number go into the choice.
choose_group-all :
    (a d fuel v : ℕ) (xs rest : List Entry) (targets : Targets) (draw : Draw) (s : State)
    → Chain s.heap none s.targets ((a, d) ∷ xs ++ rest)
    → level targets v ((a, d) ∷ xs) ≡ true
    → ends targets v rest ≡ true
    → suc (length xs) < fuel
    → choose_group fuel targets draw a s
      ≡ choose_all (suc (length xs)) fuel targets draw (pos (total targets ((a, d) ∷ xs))) s
unfolding choose_group Chain level
choose_group-all a d fuel v xs rest targets draw s c l e f =
    let (n, here, at, later) = c in
    let (t, found, same) = level-target (targets d) v (ground arith) in
    let all : ℕ = total targets ((a, d) ∷ xs) in
    let sums : group_sum fuel s.heap targets s.targets v 0 0 ≡ ok (all, suc (length xs)) =
      group_sum-total ((a, d) ∷ xs) rest fuel s.heap targets none s.targets v 0 0 c l e f
      ∙ ap (λ k. ok (k, 0 + suc (length xs))) (omega arith)
      ∙ ap (λ k. ok (all, k)) (omega arith) in
    rw (at, found, same, sums) refl

-- A list that starts with the targets of one priority, no two of its nodes with one address or one
-- target, with more fuel than there are targets of that priority, where no random number is more
-- than the sum that it is drawn for: the choice among them does not fault, whatever the random
-- numbers, takes exactly these targets off the list, which keeps the others in their order, and puts
-- them behind the winners from before, each once.
pub choose_group-leaves :
    (a d fuel v : ℕ) (outs xs rest : List Entry) (targets : Targets) (draw : Draw) (s : State)
    → Ready s outs ((a, d) ∷ xs ++ rest)
    → level targets v ((a, d) ∷ xs) ≡ true
    → ends targets v rest ≡ true
    → suc (length xs) < fuel
    → InRange draw
    → (s' : State) × (us : List Entry) × (choose_group fuel targets draw a s ≡ ok s')
      × Ready s' (outs ++ us) rest
      × Perm us ((a, d) ∷ xs)
choose_group-leaves a d fuel v outs xs rest targets draw s ready l e f range =
    let (s', us, all, ready', moved) =
      choose_all-Ready (suc (length xs)) outs ((a, d) ∷ xs) rest fuel v targets draw s ready refl
        (omega arith) l range in
    (
      s',
      us,
      choose_group-all a d fuel v xs rest targets draw s ready.chain l e f ∙ all,
      ready',
      moved,
    )

-- The last priority of the list, with more fuel than it has targets: where the first random number
-- is the sum and one, which is what `rand () == RAND_MAX` gives, the walk passes the last target
-- and reads behind the list.
pub choose_group-past :
    (a d fuel v : ℕ) (xs : List Entry) (targets : Targets) (draw : Draw) (s : State)
    → Chain s.heap none s.targets ((a, d) ∷ xs)
    → level targets v ((a, d) ∷ xs) ≡ true
    → suc (length xs) < fuel
    → draw s.drawn (pos (total targets ((a, d) ∷ xs))) ≡ pos (suc (total targets ((a, d) ∷ xs)))
    → choose_group fuel targets draw a s ≡ fault
unfolding choose_all choose
choose_group-past a d fuel v xs targets draw s c l f drawn =
    let all : List Entry = (a, d) ∷ xs in
    let c' : Chain s.heap none s.targets (all ++ []) =
      subst (Chain s.heap none s.targets) (sym (append-nil all)) c in
    let past =
      pick-past all fuel s.heap targets none s.targets v (suc (total targets all)) c l
        (omega arith) in
    choose_group-all a d fuel v xs [] targets draw s c' l refl f ∙ rw (drawn, past) refl
