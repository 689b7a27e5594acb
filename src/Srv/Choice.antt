-- ===== src/Srv/Choice.antt =====
-- src/srv.c, the part of `ta_srv_query_domain` behind the sort: the choice among the targets of one
-- priority by their weights, on the heap of TaList. The targets stand at the addresses that the
-- nodes have as data. The arithmetic on floating point numbers is a parameter. A loop runs on fuel,
-- and running out of it is a fault.
pub mod Walk
pub mod Removal
pub mod Winners
pub mod Group
pub mod Outcome
pub mod Rounds
use taningia.Base.{ℕ, zero, suc, ◌+◌, ◌-◌, Bool, true, Option, none, some, leb, ◌==◌, if◌then◌else◌}
use taningia.Base.Int.{ℤ, pos, negsuc}
use taningia.Base.Run.{Run, ok, fault, ◌>>=◌}
use taningia.Srv.{Target}
use taningia.TaList.{Heap, Pointer, load, update}
use taningia.TaList.Remove.{remove}

abbrev pub Targets : Type 0
Targets = ℕ → Option Target

-- `((float) rand() / (float) RAND_MAX) * (sum+1)`, for the number of calls before and for `sum`.
abbrev pub Draw : Type 0
Draw = ℕ → ℤ → ℤ

abbrev pub target_at : Option Target → Run Target
target_at none = fault
target_at (some t) = ok t

-- `weight >= randint`
abbrev pub reaches : ℕ → ℤ → Bool
reaches weight (pos n) = leb n weight
reaches weight (negsuc n) = true

-- `-= weight`
abbrev pub minus : ℤ → ℕ → ℤ
minus (pos n) weight = if leb weight n then pos (n - weight) else negsuc (weight - n - 1)
minus (negsuc n) weight = negsuc (n + weight)

-- The loop over the targets of one priority: their weights, and their number.
unfoldable pub group_sum : ℕ → Heap → Targets → Pointer → ℕ → ℕ → ℕ → Run (ℕ × ℕ)
group_sum zero h targets t priority sum num = fault
group_sum (suc fuel) h targets none priority sum num = ok (sum, num)
group_sum (suc fuel) h targets (some a) priority sum num = do
  n ← load h a
  target ← target_at (targets n.datum)
  let rest = group_sum fuel h targets n.next priority (sum + target.weight) (num + 1)
  if target.priority == priority then rest else ok (sum, num)

-- The loop without a condition: the winner, and its weight.
unfoldable pub pick : ℕ → Heap → Targets → Pointer → ℤ → Run (ℕ × ℕ)
pick zero h targets t randint = fault
pick (suc fuel) h targets none randint = fault
pick (suc fuel) h targets (some a) randint = do
  n ← load h a
  target ← target_at (targets n.datum)
  let rest = pick fuel h targets n.next (minus randint target.weight)
  if reaches target.weight randint then ok (a, target.weight) else rest

-- The variables that the choice changes; `drawn` counts the calls of `rand`.
pub record State : Type 0 where
  pub heap : Heap
  pub targets : Pointer
  pub out : Pointer
  pub tail : Pointer
  pub drawn : ℕ

-- `if (!out) out = t; else tail->next = t;`
unfoldable pub attach : Pointer → Pointer → ℕ → Heap → Run (Heap × Pointer)
attach none tail a h = ok (h, some a)
attach (some o) tail a h = do h' ← update (λ n. record n { next = some a }) tail h; ok (h', some o)

-- One winner, with the weight that it takes off the sum.
unfoldable pub choose : ℕ → Targets → Draw → ℤ → State → Run (State × ℕ)
choose fuel targets draw sum s = do
  (a, weight) ← pick fuel s.heap targets s.targets (draw s.drawn sum)
  n ← load s.heap a
  (h, list, removed) ← remove fuel s.heap s.targets n.datum
  (h', out) ← attach s.out s.tail a h
  ok (record { heap = h'; targets = list; out = out; tail = some a; drawn = suc s.drawn }, weight)

-- `while (num)`
unfoldable pub choose_all : ℕ → ℕ → Targets → Draw → ℤ → State → Run State
choose_all zero fuel targets draw sum s = ok s
choose_all (suc num) fuel targets draw sum s = do
  (s', weight) ← choose fuel targets draw sum s
  choose_all num fuel targets draw (minus sum weight) s'

-- The choice among the targets of the first priority of the list.
unfoldable pub choose_group : ℕ → Targets → Draw → ℕ → State → Run State
choose_group fuel targets draw a s = do
  n ← load s.heap a
  first ← target_at (targets n.datum)
  (sum, num) ← group_sum fuel s.heap targets s.targets first.priority 0 0
  choose_all num fuel targets draw (pos sum) s

-- `while (targets)`: the list in its new order.
unfoldable pub arrange : ℕ → ℕ → Targets → Draw → State → Pointer → Run (Heap × Pointer)
arrange zero fuel targets draw s list = fault
arrange (suc rounds) fuel targets draw s none = ok (s.heap, s.out)
arrange (suc rounds) fuel targets draw s (some a) = do
  s' ← choose_group fuel targets draw a s
  arrange rounds fuel targets draw s' s'.targets
