-- ===== src/Srv/Sorting/Groups.antt =====
-- src/srv.c: the priorities of any list of targets, as the loop over them meets them.
use taningia.Base.{
  ℕ, suc, ◌≤◌, ◌<◌, ◌≡◌, refl, ap, ◌∙◌, Bool, true, false, ◌&&◌, Option, none, some, List, [], ◌∷◌,
  ltb, ◌==◌, arith, is_some, Bool-cases, inl, inr, if◌then◌else◌, length, length-append,
}
use taningia.Srv.{Target}
use taningia.Srv.Choice.{Targets}
use taningia.Srv.Choice.Walk.{has_priority, level}
use taningia.Srv.Choice.Outcome.{is_other, ends}
use taningia.Srv.Choice.Rounds.{Group, entries, grouped}
use taningia.TaList.Chain.{Entry}

abbrev priority_in : Option Target → ℕ
priority_in none = 0
priority_in (some t) = t.priority

-- An entry in front of the groups: in the first one where that has its priority.
abbrev add_entry : ℕ → Entry → List Group → List Group
add_entry v x [] = record { priority = v; first = x; others = [] } ∷ []
add_entry v x (g ∷ groups) =
    if g.priority == v
    then record { priority = v; first = x; others = g.first ∷ g.others } ∷ groups
    else record { priority = v; first = x; others = [] } ∷ g ∷ groups

-- The priorities of a list, as they follow each other.
unfoldable pub groups_of : Targets → List Entry → List Group
groups_of targets [] = []
groups_of targets ((a, d) ∷ xs) = add_entry (priority_in (targets d)) (a, d) (groups_of targets xs)

add_entry-entries :
    (v : ℕ) (x : Entry) (groups : List Group) → entries (add_entry v x groups) ≡ x ∷ entries groups
add_entry-entries v x [] = refl
add_entry-entries v x (g ∷ groups) = elim (Bool-cases (g.priority == v)) [
  | inl same ↦ rw same refl
  | inr other ↦ rw other refl
]

pub groups_of-entries : (targets : Targets) (xs : List Entry) → entries (groups_of targets xs) ≡ xs
unfolding groups_of
groups_of-entries targets [] = refl
groups_of-entries targets ((a, d) ∷ xs) =
    add_entry-entries (priority_in (targets d)) (a, d) (groups_of targets xs)
    ∙ ap (λ l. (a, d) ∷ l) (groups_of-entries targets xs)

-- Every entry has a target.
unfoldable pub known : Targets → List Entry → Bool
known targets [] = true
known targets ((a, d) ∷ xs) = is_some (targets d) && known targets xs

known-priority : (t : Option Target) → is_some t ≡ true → has_priority (priority_in t) t ≡ true
known-priority none k = absurd (ground arith)
known-priority (some t) k = ground arith

other-priority :
    (t : Option Target) (v w : ℕ) → has_priority w t ≡ true → (w == v) ≡ false → is_other v t ≡ true
other-priority none v w h o = absurd (ground arith)
other-priority (some t) v w h o = ground arith

same-level :
    (targets : Targets) (v w : ℕ) (xs : List Entry)
    → (w == v) ≡ true
    → level targets w xs ≡ true
    → level targets v xs ≡ true
same-level targets v w xs e l = let same : w ≡ v = ground arith in rw same at l

add_entry-grouped :
    (targets : Targets) (fuel v a d : ℕ) (groups : List Group)
    → has_priority v (targets d) ≡ true
    → grouped targets fuel groups ≡ true
    → suc (length (entries groups)) < fuel
    → grouped targets fuel (add_entry v (a, d) groups) ≡ true
unfolding grouped level
add_entry-grouped targets fuel v a d [] here g f = rw here (ground arith)
add_entry-grouped targets fuel v a d (g ∷ groups) here h f =
    let (b, e) = g.first in
    let own : level targets g.priority ((b, e) ∷ g.others) ≡ true = ground arith in
    let next : ends targets g.priority (entries groups) ≡ true = ground arith in
    let size : ltb (suc (length g.others)) fuel ≡ true = ground arith in
    let rest : grouped targets fuel groups ≡ true = ground arith in
    let first : has_priority g.priority (targets e) ≡ true = ground arith in
    elim (Bool-cases (g.priority == v)) [
      | inl same ↦
          let more : ltb (suc (suc (length g.others))) fuel ≡ true =
            ground (arith, length-append g.others (entries groups)) in
          let moved = same-level targets v g.priority ((b, e) ∷ g.others) same own in
          let v_same : g.priority ≡ v = ground arith in
          let next' : ends targets v (entries groups) ≡ true = rw v_same at next in
          rw (same, here, moved, next', more, rest) refl
      | inr other ↦
          let apart = other-priority (targets e) v g.priority first other in
          let few : ltb 1 fuel ≡ true = ground arith in
          rw (other, here, apart, few, own, next, size, rest) refl
    ]

pub groups_of-grouped :
    (targets : Targets) (fuel : ℕ) (xs : List Entry)
    → known targets xs ≡ true
    → length xs < fuel
    → grouped targets fuel (groups_of targets xs) ≡ true
unfolding groups_of grouped known
groups_of-grouped targets fuel [] k f = refl
groups_of-grouped targets fuel ((a, d) ∷ xs) k f =
    add_entry-grouped targets fuel (priority_in (targets d)) a d (groups_of targets xs)
      (known-priority (targets d) (ground arith))
      (groups_of-grouped targets fuel xs (ground arith) (omega arith))
      (omega (arith, ap length (groups_of-entries targets xs)))

length-add_entry :
    (v : ℕ) (x : Entry) (groups : List Group) → length (add_entry v x groups) ≤ suc (length groups)
length-add_entry v x [] = omega arith
length-add_entry v x (g ∷ groups) = elim (Bool-cases (g.priority == v)) [
  | inl same ↦ rw same (omega arith)
  | inr other ↦ rw other (omega arith)
]

pub length-groups_of :
    (targets : Targets) (xs : List Entry) → length (groups_of targets xs) ≤ length xs
unfolding groups_of
length-groups_of targets [] = omega arith
length-groups_of targets ((a, d) ∷ xs) = omega (
  arith,
  length-groups_of targets xs,
  length-add_entry (priority_in (targets d)) (a, d) (groups_of targets xs),
)
