-- ===== src/TaList.antt =====
-- src/list.c: the doubly linked list over a heap of nodes. The field `data` is `datum` here, an address, 0 for NULL. Each
-- loop runs on fuel, and running out of it is a fault; the length of the list and one is enough.
pub mod Chain
pub mod Reading
pub mod Changing
pub mod Ends
pub mod Insert
pub mod Popping
pub mod Remove
pub mod Middle
pub mod Unlinking
pub mod Sort
use taningia.Base.{
  ℕ, zero, suc, ◌+◌, Bool, true, false, ◌||◌, Option, none, some, ◌==◌, if◌then◌else◌,
}
use taningia.Base.Int.{ℤ, pos, negsuc}
use taningia.Base.Run.{Run, ok, fault, ◌>>=◌}
use taningia.Object.{is_zero}

abbrev pub Pointer : Type 0
Pointer = Option ℕ

-- `ta_list_t`
pub record Node : Type 0 where
  pub prev : Pointer
  pub next : Pointer
  pub datum : ℕ

-- The allocated nodes, and an address above all that were given out.
pub record Heap : Type 0 where
  pub cells : ℕ → Option Node
  pub top : ℕ

abbrev pub write : ℕ → Option Node → Heap → Heap
write a c h = record h { cells = λ b. if b == a then c else h.cells b }

abbrev pub deref : Option Node → Run Node
deref none = fault
deref (some n) = ok n

abbrev pub load : Heap → ℕ → Run Node
load h a = deref (h.cells a)

-- An assignment to fields of a node.
abbrev pub update : (Node → Node) → Pointer → Heap → Run Heap
update f none h = fault
update f (some a) h = do n ← load h a; ok (write a (some (f n)) h)

abbrev pub free : ℕ → Heap → Run Heap
free a h = do n ← load h a; ok (write a none h)

-- `ta_list_new`; `data` is written by its callers before it is read.
unfoldable pub new : Heap → ℕ × Heap
new h = (
  h.top,
  write h.top (some (record { prev = none; next = none; datum = 0 }))
      (record h { top = suc h.top }),
)

-- The loop of `ta_list_last`.
unfoldable pub last_from : ℕ → Heap → Pointer → Pointer → Run Pointer
last_from zero h ptr tmp = fault
last_from (suc fuel) h none tmp = ok tmp
last_from (suc fuel) h (some a) tmp = do n ← load h a; last_from fuel h n.next (some a)

unfoldable pub last : ℕ → Heap → Pointer → Run Pointer
unfolding last_from
last fuel h list = last_from fuel h list none

-- The loop of `ta_list_first`.
unfoldable pub first_from : ℕ → Heap → Pointer → Pointer → Run Pointer
first_from zero h ptr tmp = fault
first_from (suc fuel) h none tmp = ok tmp
first_from (suc fuel) h (some a) tmp = do n ← load h a; first_from fuel h n.prev (some a)

unfoldable pub first : ℕ → Heap → Pointer → Run Pointer
unfolding first_from
first fuel h list = first_from fuel h list none

-- `ta_list_free`
unfoldable pub free_all : ℕ → Heap → Pointer → Run Heap
free_all zero h ptr = fault
free_all (suc fuel) h none = ok h
free_all (suc fuel) h (some a) = do n ← load h a; h' ← free a h; free_all fuel h' n.next

-- The loop of `ta_list_len`, with its counter.
unfoldable pub len_from : ℕ → Heap → Pointer → ℕ → Run ℕ
len_from zero h ptr count = fault
len_from (suc fuel) h none count = ok count
len_from (suc fuel) h (some a) count = do n ← load h a; len_from fuel h n.next (suc count)

unfoldable pub len : ℕ → Heap → Pointer → Run ℕ
unfolding len_from
len fuel h list = len_from fuel h list 0

-- The loop of `ta_list_count`; `cmp` is `cmpfunc`.
unfoldable pub count_from : ℕ → (ℕ → ℕ → ℤ) → Heap → Pointer → ℕ → ℕ → Run ℕ
count_from zero cmp h ptr datum count = fault
count_from (suc fuel) cmp h none datum count = ok count
count_from (suc fuel) cmp h (some a) datum count = do
  n ← load h a
  count_from fuel cmp h n.next datum (if is_zero (cmp n.datum datum) then suc count else count)

unfoldable pub count : ℕ → (ℕ → ℕ → ℤ) → Heap → Pointer → ℕ → Run ℕ
unfolding count_from
count fuel cmp h list datum = count_from fuel cmp h list datum 0

-- The loop of `ta_list_index`.
unfoldable pub index_from : ℕ → Heap → Pointer → ℕ → ℕ → Run ℤ
index_from zero h ptr datum counter = fault
index_from (suc fuel) h none datum counter = ok (negsuc 0)
index_from (suc fuel) h (some a) datum counter = do
  n ← load h a
  let rest = index_from fuel h n.next datum (suc counter)
  if n.datum == datum then ok (pos counter) else rest

unfoldable pub index : ℕ → Heap → Pointer → ℕ → Run ℤ
unfolding index_from
index fuel h list datum = index_from fuel h list datum 0

-- `index == counter`
abbrev pub is_at : ℤ → ℕ → Bool
is_at (pos n) counter = n == counter
is_at (negsuc n) counter = false

-- The loop of `ta_list_item`; 0 is NULL.
unfoldable pub item_from : ℕ → Heap → Pointer → ℤ → ℕ → Run ℕ
item_from zero h ptr i counter = fault
item_from (suc fuel) h none i counter = ok 0
item_from (suc fuel) h (some a) i counter = do
  n ← load h a
  let rest = item_from fuel h n.next i (suc counter)
  if is_at i counter then ok n.datum else rest

unfoldable pub item : ℕ → Heap → Pointer → ℤ → Run ℕ
unfolding item_from
item fuel h list i = item_from fuel h list i 0

-- The two branches of `ta_list_append` behind the allocation of the node.
unfoldable pub link : ℕ → ℕ → Heap → Pointer → Run (Heap × Pointer)
unfolding last
link fuel ptr h none = ok (h, some ptr)
link fuel ptr h (some l) = do
  end ← last fuel h (some l)
  h' ← update (λ n. record n { next = some ptr }) end h
  h'' ← update (λ n. record n { prev = end }) (some ptr) h'
  ok (h'', some l)

-- `ta_list_append`
unfoldable pub append : ℕ → Heap → Pointer → ℕ → Run (Heap × Pointer)
unfolding new link
append fuel h list datum =
    let (ptr, h') = new h in
    let linked = (do
      h'' ← update (λ n. record n { next = none; datum = datum }) (some ptr) h'
      link fuel ptr h'' list) in
    if datum == 0 then ok (h, list) else linked

-- `ta_list_extend`
unfoldable pub extend : ℕ → Heap → Pointer → Pointer → Run (Heap × Pointer)
unfolding last
extend fuel h list none = ok (h, list)
extend fuel h list (some other) = do
  end ← last fuel h list
  elim end [
    | some e ↦ do
      h' ← update (λ n. record n { next = some other }) (some e) h
      h'' ← update (λ n. record n { prev = some e }) (some other) h'
      ok (h'', list)
    | none ↦ do h' ← update (λ n. record n { prev = none }) (some other) h; ok (h', some other)
  ]

-- The loop of `ta_list_reverse`.
unfoldable pub reverse_from : ℕ → Heap → Pointer → Pointer → Run (Heap × Pointer)
reverse_from zero h list ptr = fault
reverse_from (suc fuel) h none ptr = ok (h, ptr)
reverse_from (suc fuel) h (some a) ptr = do
  n ← load h a
  reverse_from fuel (write a (some (record n { next = n.prev; prev = n.next })) h) n.next (some a)

unfoldable pub reverse : ℕ → Heap → Pointer → Run (Heap × Pointer)
unfolding reverse_from
reverse fuel h list = reverse_from fuel h list none
