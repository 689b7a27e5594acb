-- ===== src/TaList/Insert.antt =====
-- src/list.c: `ta_list_insert` and `ta_list_prepend`, on the heap of TaList.
use taningia.Base.{ℕ, zero, suc, Option, none, some, if◌then◌else◌}
use taningia.Base.Int.{ℤ, pos}
use taningia.Base.Run.{Run, ok, fault, ◌>>=◌}
use taningia.TaList.{Pointer, Heap, load, update, free, new, append, is_at}

-- The body of the loop of `ta_list_insert` where the counter is the position.
unfoldable pub insert_before : ℕ → ℕ → Heap → Run Heap
insert_before newnode a h = do
  n ← load h a
  h1 ← update (λ m. record m { next = some newnode }) n.prev h
  h2 ← update (λ m. record m { next = some a; prev = n.prev }) (some newnode) h1
  update (λ m. record m { prev = some newnode }) (some a) h2

-- Its loop: `none` where the end is reached.
unfoldable pub insert_from : ℕ → ℕ → ℤ → Heap → Pointer → ℕ → Run (Option Heap)
unfolding insert_before
insert_from zero newnode position h ptr counter = fault
insert_from (suc fuel) newnode position h none counter = ok none
insert_from (suc fuel) newnode position h (some a) counter = do
  n ← load h a
  let rest = insert_from fuel newnode position h n.next (suc counter)
  let found = (do h' ← insert_before newnode a h; ok (some h'))
  if is_at position counter then found else rest

-- The rest of `ta_list_insert` behind its loop.
unfoldable pub insert_end : ℕ → ℕ → Heap → ℕ → ℕ → Option Heap → Run (Heap × Pointer)
unfolding append
insert_end fuel newnode h l datum (some h') = ok (h', some l)
insert_end fuel newnode h l datum none = do h' ← free newnode h; append fuel h' (some l) datum

-- `ta_list_insert` behind the allocation of `newnode`.
unfoldable pub insert_node : ℕ → ℕ → Heap → Pointer → ℕ → ℤ → Run (Heap × Pointer)
unfolding insert_from insert_end
insert_node fuel newnode h none datum position = ok (h, some newnode)
insert_node fuel newnode h (some l) datum position =
    let front = (do
      h1 ← update (λ n. record n { prev = some newnode }) (some l) h
      h2 ← update (λ n. record n { next = some l }) (some newnode) h1
      ok (h2, some newnode)) in
    let behind = (do
      found ← insert_from fuel newnode position h (some l) 0
      insert_end fuel newnode h l datum found) in
    if is_at position 0 then front else behind

unfoldable pub insert : ℕ → Heap → Pointer → ℕ → ℤ → Run (Heap × Pointer)
unfolding new insert_node
insert fuel h list datum position =
    let (newnode, h') = new h in
    (do
      h'' ← update (λ n. record n { datum = datum }) (some newnode) h'
      insert_node fuel newnode h'' list datum position)

-- `ta_list_prepend`
unfoldable pub prepend : ℕ → Heap → Pointer → ℕ → Run (Heap × Pointer)
unfolding insert
prepend fuel h list datum = insert fuel h list datum (pos 0)
