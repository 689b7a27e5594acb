-- ===== src/Srv/Sorting.antt =====
-- src/srv.c, the part of `ta_srv_query_domain` behind the reading of the answer: the targets are
-- sorted by `ta_list_sort` with `cmp_targets`, and put in order by the choice.
pub mod Groups
pub mod Laws
use taningia.Base.{ℕ, Option, none, some}
use taningia.Base.Int.{ℤ, pos}
use taningia.Base.Run.{Run, ◌>>=◌}
use taningia.Srv.{Target, cmp_targets}
use taningia.Srv.Choice.{Targets, Draw, arrange}
use taningia.Srv.Choice.Rounds.{start}
use taningia.TaList.{Heap, Pointer}
use taningia.TaList.Sort.{Compare, sort}

-- `cmp_targets` on the data of two nodes. Every node has a target; an address without one, which
-- the lists do not have, comes first.
abbrev pub cmp_cells : Option Target → Option Target → ℤ
cmp_cells none tb = pos 0
cmp_cells (some ta) none = pos 1
cmp_cells (some ta) (some tb) = cmp_targets ta tb

abbrev pub by_target : Targets → Compare
by_target targets d e = cmp_cells (targets d) (targets e)

-- The list of the targets that were read, in the order in which they are to be used.
unfoldable pub order_targets : ℕ → Targets → Draw → Heap → Pointer → Run (Heap × Pointer)
order_targets fuel targets draw h p = do
  (h', list) ← sort fuel (by_target targets) h p
  arrange fuel fuel targets draw (start h' list) list
