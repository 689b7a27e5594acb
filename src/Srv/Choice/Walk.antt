-- ===== src/Srv/Choice/Walk.antt =====
-- src/srv.c: how far a random number walks along the targets.
use taningia.Base.{
  ℕ, zero, suc, ◌+◌, ◌-◌, ◌<◌, ◌≤◌, ◌≡◌, refl, ap, Bool, true, false, ◌&&◌, Option, none, some,
  List, [], ◌∷◌, ◌++◌, leb, ◌==◌, arith, length, inl, inr, Bool-cases,
}
use taningia.Base.Int.{pos}
use taningia.Base.Run.{Run, ok, fault}
use taningia.Base.{if◌then◌else◌}
use taningia.Srv.{Target}
use taningia.Srv.Choice.{minus, Targets, pick}
use taningia.TaList.{Heap, Pointer}
use taningia.TaList.Chain.{Entry, Chain, node}

abbrev pub weight_in : Option Target → ℕ
weight_in none = 0
weight_in (some t) = t.weight

abbrev pub has_priority : ℕ → Option Target → Bool
has_priority p none = false
has_priority p (some t) = t.priority == p

-- The sum of the weights.
unfoldable pub total : Targets → List Entry → ℕ
total targets [] = 0
total targets ((a, d) ∷ xs) = weight_in (targets d) + total targets xs

pub total-length : (targets : Targets) (xs : List Entry) → 0 < total targets xs → 0 < length xs
unfolding total
total-length targets [] h = absurd (omega arith)
total-length targets (x ∷ xs) h = omega arith

-- Each entry is a target with the priority.
unfoldable pub level : Targets → ℕ → List Entry → Bool
level targets p [] = true
level targets p ((a, d) ∷ xs) = has_priority p (targets d) && level targets p xs

pub level-target :
    (t : Option Target) (p : ℕ)
    → has_priority p t ≡ true
    → (target : Target) × (t ≡ some target) × (target.priority ≡ p)
level-target none p h = absurd (ground arith)
level-target (some target) p h = (target, refl, ground arith)

-- One step of the walk.
pick-step :
    (fuel : ℕ) (h : Heap) (targets : Targets) (q n : Pointer) (a d v r : ℕ)
    → h.cells a ≡ node q n d
    → has_priority v (targets d) ≡ true
    → pick (suc fuel) h targets (some a) (pos r) ≡ (
        if leb r (weight_in (targets d))
        then ok (a, weight_in (targets d))
        else pick fuel h targets n (minus (pos r) (weight_in (targets d))))
unfolding pick
pick-step fuel h targets q n a d v r at l =
    let (t, e, same) = level-target (targets d) v l in rw (at, e) refl

-- More than all the weights: the walk leaves the list.
pub pick-past :
    (xs : List Entry) (fuel : ℕ) (h : Heap) (targets : Targets) (q p : Pointer) (level_of r : ℕ)
    → Chain h q p xs
    → level targets level_of xs ≡ true
    → total targets xs < r
    → pick fuel h targets p (pos r) ≡ fault
unfolding pick Chain level total
pick-past xs zero h targets q p v r c l m = refl
pick-past [] (suc fuel) h targets q p v r c l m = rw c refl
pick-past ((a, d) ∷ xs) (suc fuel) h targets q p v r (n, here, at, rest) l m =
    let here_level : has_priority v (targets d) ≡ true = ground arith in
    let w : ℕ = weight_in (targets d) in
    let over : leb r w ≡ false = ground arith in
    let room : leb w r ≡ true = ground arith in
    rw (here, pick-step fuel h targets q n a d v r at here_level, over, room)
      (pick-past xs fuel h targets (some a) n v (r - w) rest (ground arith) (omega arith))

-- Where a walk ends: at an entry of the group.
abbrev pub Lands : Targets → List Entry → Run (ℕ × ℕ) → Type 0
Lands targets xs run =
    (ys : List Entry) × (a : ℕ) × (d : ℕ) × (zs : List Entry) × (xs ≡ ys ++ (a, d) ∷ zs)
    × (run ≡ ok (a, weight_in (targets d)))

pub pick-Lands :
    (xs rest : List Entry) (fuel : ℕ) (h : Heap) (targets : Targets) (q p : Pointer) (v r : ℕ)
    → Chain h q p (xs ++ rest)
    → level targets v xs ≡ true
    → r ≤ total targets xs
    → 0 < length xs
    → length xs ≤ fuel
    → Lands targets xs (pick fuel h targets p (pos r))
unfolding pick Chain level total
pick-Lands [] rest fuel h targets q p v r c l m some_entry f = absurd (omega arith)
pick-Lands ((a, d) ∷ xs) rest zero h targets q p v r c l m some_entry f = absurd (omega arith)
pick-Lands ((a, d) ∷ xs) rest (suc fuel) h targets q p v r (n, here, at, later) l m some_entry f =
    let here_level : has_priority v (targets d) ≡ true = ground arith in
    let w : ℕ = weight_in (targets d) in
    let step = pick-step fuel h targets q n a d v r at here_level in
    elim (Bool-cases (leb r w)) [
      | inl enough ↦ ([], a, d, xs, refl, rw (here, step, enough) refl)
      | inr over ↦
          let room : leb w r ≡ true = ground arith in
          let (ys, b, db, zs, split, found) =
            pick-Lands xs rest fuel h targets (some a) n v (r - w) later (ground arith)
              (ground arith) (total-length targets xs (ground arith)) (omega arith) in
          ((a, d) ∷ ys, b, db, zs, ap (λ l. (a, d) ∷ l) split, rw (here, step, over, room) found)
    ]
