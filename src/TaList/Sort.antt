-- ===== src/TaList/Sort.antt =====
-- src/list.c: `ta_list_sort`, the merge sort from the bottom up, on the heap of TaList. `cmp` is
-- `cmpfunc`, which reads the data of two nodes. The loops over the list run on fuel, and running out
-- of it is a fault; the loop of one merge gets the number of rounds that it can have. The sizes are
-- of type int in the source, which lists below 2 ^ 30 nodes do not leave.
pub mod Segments
pub mod Runs
pub mod Merging
pub mod Rounds
pub mod Passes
pub mod Sorted
pub mod Whole
pub mod Tally
use taningia.Base.{
  ℕ, zero, suc, ◌+◌, ◌-◌, ◌*◌, Bool, true, false, not, ◌&&◌, ◌||◌, none, some, ltb, leb, ◌==◌,
  if◌then◌else◌,
}
use taningia.Base.Int.{ℤ, pos, negsuc}
use taningia.Base.Run.{Run, ok, fault, ◌>>=◌}
use taningia.TaList.{Heap, Pointer, load, update}
use taningia.TaList.Remove.{is_null}

abbrev pub Compare : Type 0
Compare = ℕ → ℕ → ℤ

-- `cmpfunc (p, q) <= 0`
abbrev pub at_most_zero : ℤ → Bool
at_most_zero (pos n) = n == 0
at_most_zero (negsuc n) = true

-- The variables of the loop that merges.
pub record Merge : Type 0 where
  pub heap : Heap
  pub psize : ℕ
  pub qsize : ℕ
  pub p : Pointer
  pub q : Pointer
  pub list : Pointer
  pub tail : Pointer

-- The loop that splits, behind `psize` rounds: `psize` and `q`.
unfoldable pub split : ℕ → Heap → ℕ → Pointer → Run (ℕ × Pointer)
split zero h psize q = ok (psize, q)
split (suc i) h psize none = fault
split (suc i) h psize (some a) = do
  n ← load h a
  let rest = split i h (suc psize) n.next
  if is_null n.next then ok (suc psize, none) else rest

-- `psize > 0 || (qsize > 0 && q)`
abbrev pub goes_on : ℕ → ℕ → Pointer → Bool
goes_on psize qsize q = ltb 0 psize || (ltb 0 qsize && not (is_null q))

-- `cmpfunc (p, q) <= 0` on the heap.
abbrev pub compared : Compare → Heap → Pointer → Pointer → Run Bool
compared cmp h (some a) (some b) = do
  na ← load h a
  nb ← load h b
  ok (at_most_zero (cmp na.datum nb.datum))
compared cmp h _ _ = fault

-- Whether the next node comes from `p`, and not from `q`.
unfoldable pub takes_p : Compare → Merge → Run Bool
takes_p cmp m =
    let both = compared cmp m.heap m.p m.q in
    if m.psize == 0 then ok false else if m.qsize == 0 || is_null m.q then ok true else both

-- `if (tail) tail->next = e; else list = e; e->prev = tail; tail = e;`
unfoldable pub attach : ℕ → Merge → Run Merge
attach e m = do
  h1 ←
      (if is_null m.tail then ok m.heap else update (λ n. record n { next = some e }) m.tail m.heap)
  h2 ← update (λ n. record n { prev = m.tail }) (some e) h1
  ok (record m { heap = h2; list = (if is_null m.tail then some e else m.list); tail = some e })

abbrev pub next_of : Heap → Pointer → Run (ℕ × Pointer)
next_of h none = fault
next_of h (some a) = do n ← load h a; ok (a, n.next)

-- The two ways that a round goes: `e = p; p = p->next; psize--;`, and the same for `q`.
unfoldable pub take_p : Merge → Run Merge
take_p m = do (e, next) ← next_of m.heap m.p; attach e (record m { p = next; psize = m.psize - 1 })

unfoldable pub take_q : Merge → Run Merge
take_q m = do (e, next) ← next_of m.heap m.q; attach e (record m { q = next; qsize = m.qsize - 1 })

-- The loop that merges.
unfoldable pub merge : ℕ → Compare → Merge → Run Merge
merge zero cmp m = fault
merge (suc fuel) cmp m =
    let round = (do
      from_p ← takes_p cmp m
      m' ← (if from_p then take_p m else take_q m)
      merge fuel cmp m') in
    if goes_on m.psize m.qsize m.q then round else ok m

-- One pair of parts from `p` on: split and merged, behind which `p = q`.
unfoldable pub merge_next : Compare → ℕ → Merge → Run Merge
merge_next cmp split_point m = do
  (psize, q) ← split split_point m.heap 0 m.p
  m' ←
      merge (suc (psize + split_point)) cmp (record m { psize = psize; qsize = split_point; q = q })
  ok (record m' { p = m'.q })

-- `while (p)`, with `nmerges`.
unfoldable pub pass : ℕ → Compare → ℕ → Merge → ℕ → Run (Merge × ℕ)
pass zero cmp split_point m nmerges = fault
pass (suc fuel) cmp split_point m nmerges =
    let round = (do
      m' ← merge_next cmp split_point m
      pass fuel cmp split_point m' (suc nmerges)) in
    if is_null m.p then ok (m, nmerges) else round

-- A pass over the list: `tail->next = NULL` is its end.
unfoldable pub pass_over : ℕ → Compare → ℕ → Heap → Pointer → Run (Heap × Pointer × ℕ)
pass_over fuel cmp split_point h list = do
  (m, nmerges) ←
      pass fuel cmp split_point
        (record { heap = h; psize = 0; qsize = 0; p = list; q = none; list = none; tail = none }) 0
  h' ← update (λ n. record n { next = none }) m.tail m.heap
  ok (h', m.list, nmerges)

-- `while (1)`
unfoldable pub sort_from : ℕ → ℕ → Compare → ℕ → Heap → Pointer → Run (Heap × Pointer)
sort_from zero fuel cmp split_point h list = fault
sort_from (suc passes) fuel cmp split_point h list = do
  (h', list', nmerges) ← pass_over fuel cmp split_point h list
  let rest = sort_from passes fuel cmp (split_point * 2) h' list'
  if leb nmerges 1 then ok (h', list') else rest

-- `ta_list_sort`
unfoldable pub sort : ℕ → Compare → Heap → Pointer → Run (Heap × Pointer)
sort fuel cmp h none = ok (h, none)
sort fuel cmp h (some l) = do
  n ← load h l
  let sorted = sort_from fuel fuel cmp 1 h (some l)
  if is_null n.next then ok (h, some l) else sorted
