-- ===== src/Srv/Choice/Rounds.antt =====
-- src/srv.c: the choice over all the priorities of the list.
use taningia.Base.{
  ℕ, zero, suc, ◌<◌, ◌≡◌, refl, ap, ◌∙◌, Bool, true, ◌&&◌, none, some, List, [], ◌∷◌, ◌++◌, ltb,
  arith, length, append-nil, append_assoc,
}
use taningia.Base.Run.{ok}
use taningia.Srv.Choice.{Targets, Draw, State, choose_group, arrange}
use taningia.Srv.Choice.Walk.{level}
use taningia.Srv.Choice.Group.{Ready, InRange}
use taningia.Srv.Choice.Winners.{Open}
use taningia.Srv.Choice.Removal.{distinct_data}
use taningia.TaList.{Heap, Pointer}
use taningia.TaList.Sort.Segments.{Forward, copies, distinct-copies}
use mathlib.Core.Path.{subst}
use mathlib.Core.List.{Perm}
use taningia.Srv.Choice.Outcome.{ends, choose_group-leaves}
use taningia.TaList.Chain.{Entry, Chain, distinct}

-- The targets of one priority: the priority, and the entries, of which there is one at least.
pub record Group : Type 0 where
  pub priority : ℕ
  pub first : Entry
  pub others : List Entry

abbrev pub entries : List Group → List Entry
entries [] = []
entries (g ∷ groups) = g.first ∷ g.others ++ entries groups

-- Each group has its priority, which the next one does not have, and fewer entries than the fuel.
unfoldable pub grouped : Targets → ℕ → List Group → Bool
grouped targets fuel [] = true
grouped targets fuel (g ∷ groups) =
    (level targets g.priority (g.first ∷ g.others) && ends targets g.priority (entries groups))
    && (ltb (suc (length g.others)) fuel && grouped targets fuel groups)

-- The targets of the groups, group by group, each group in an order of its own.
unfoldable pub Rearranged : List Group → List Entry → Type 0
Rearranged [] ys = ys ≡ []
Rearranged (g ∷ groups) ys =
    (us vs : List Entry) × (ys ≡ us ++ vs) × Perm us (g.first ∷ g.others) × Rearranged groups vs

head_lem :
    (a d : ℕ) (s : State) (outs xs : List Entry) → Ready s outs ((a, d) ∷ xs) → s.targets ≡ some a
unfolding Chain
head_lem a d s outs xs ready = let (n, here, at, rest) = ready.chain in here

round_lem :
    (rounds fuel a : ℕ) (targets : Targets) (draw : Draw) (s s1 : State)
    → choose_group fuel targets draw a s ≡ ok s1
    → arrange (suc rounds) fuel targets draw s (some a)
      ≡ arrange rounds fuel targets draw s1 s1.targets
unfolding arrange
round_lem rounds fuel a targets draw s s1 chosen = rw chosen refl

pub arrange-Ready :
    (groups : List Group) (rounds fuel : ℕ) (targets : Targets) (draw : Draw) (s : State)
    (outs : List Entry)
    → Ready s outs (entries groups)
    → grouped targets fuel groups ≡ true
    → length groups < rounds
    → InRange draw
    → (s' : State) × (ys : List Entry) × (arrange rounds fuel targets draw s s.targets
        ≡ ok (s'.heap, s'.out))
      × Ready s' (outs ++ ys) []
      × Rearranged groups ys
unfolding arrange grouped Chain Rearranged
arrange-Ready groups zero fuel targets draw s outs ready g f range = absurd (omega arith)
arrange-Ready [] (suc rounds) fuel targets draw s outs ready g f range =
    let gone : s.targets ≡ none = ready.chain in
    (s, [], rw gone refl, rw (append-nil outs) ready, refl)
arrange-Ready (g ∷ groups) (suc rounds) fuel targets draw s outs ready h f range =
    let (a, d) = g.first in
    let (s1, us, chosen, ready1, moved) =
      choose_group-leaves a d fuel g.priority outs g.others (entries groups) targets draw s ready
        (ground arith) (ground arith) (ground arith) range in
    let (s2, vs, rest, ready2, others) =
      arrange-Ready groups rounds fuel targets draw s1 (outs ++ us) ready1 (ground arith)
        (omega arith) range in
    (
      s2,
      us ++ vs,
      ap (arrange (suc rounds) fuel targets draw s) (head_lem a d s outs _ ready)
          ∙ round_lem rounds fuel a targets draw s s1 chosen
          ∙ rest,
      subst (λ o. Ready s2 o []) (append_assoc outs us vs) ready2,
      (us, vs, refl, moved, others),
    )

none-Open : (xs : List Entry) → Open xs none
none-Open [] = refl
none-Open (x ∷ xs) = tt

-- The variables before the loop over the priorities.
abbrev pub start : Heap → Pointer → State
start h p = record { heap = h; targets = p; out = none; tail = none; drawn = 0 }

-- A list of targets by priority, none of them twice, with more rounds than priorities and more fuel
-- than targets of each, where no random number is more than the sum that it is drawn for: the choice
-- comes to its end without a fault, whatever the random numbers, and returns a list, linked forwards
-- and ended by NULL, that has every target once, and the priorities in the order that they had.
pub arrange-ends :
    (groups : List Group) (rounds fuel : ℕ) (targets : Targets) (draw : Draw) (h : Heap)
    (p : Pointer)
    → Chain h none p (entries groups)
    → distinct (entries groups) ≡ true
    → distinct_data (entries groups) ≡ true
    → grouped targets fuel groups ≡ true
    → length groups < rounds
    → InRange draw
    → (h' : Heap) × (out : Pointer) × (ys : List Entry) × (arrange rounds fuel targets draw
          (start h p)
          p
        ≡ ok (h', out))
      × Forward h' out ys none
      × Rearranged groups ys
unfolding Forward copies
arrange-ends groups rounds fuel targets draw h p c u ud g f range =
    let ready : Ready (start h p) [] (entries groups) = record {
      chain = c;
      addresses = u;
      data_apart = ud;
      behind = none;
      winners = refl;
      last = refl;
      opened = refl;
      closed = none-Open (entries groups);
      once = λ x. omega (arith, distinct-copies x (entries groups) u);
    } in
    let (s', ys, arranged, ready', moved) =
      arrange-Ready groups rounds fuel targets draw (start h p) [] ready g f range in
    (
      s'.heap,
      s'.out,
      ys,
      arranged,
      subst (Forward s'.heap s'.out ys) ready'.closed ready'.winners,
      moved,
    )
