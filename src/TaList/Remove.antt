-- ===== src/TaList/Remove.antt =====
-- src/list.c: `ta_list_remove` and `ta_list_pop`, on the heap of TaList.
use taningia.Base.{ℕ, zero, suc, Bool, true, false, none, some, ◌==◌, if◌then◌else◌}
use taningia.Base.Run.{Run, ok, fault, ◌>>=◌}
use taningia.TaList.{Pointer, Node, Heap, load, update, last}

abbrev pub is_null : Pointer → Bool
is_null none = true
is_null (some a) = false

-- `if (p) p->… = …`
abbrev pub update_if : (Node → Node) → Pointer → Heap → Run Heap
update_if f none h = ok h
update_if f (some a) h = update f (some a) h

-- What `ta_list_remove` does with the node that it has found; `list` is the head.
unfoldable pub unlink : Heap → ℕ → ℕ → Run (Heap × Pointer)
unlink h l a = do
  n ← load h a
  h1 ← update_if (λ m. record m { next = n.next }) n.prev h
  h2 ← update_if (λ m. record m { prev = n.prev }) n.next h1
  head ← load h2 l
  let second = (do h3 ← update_if (λ m. record m { prev = none }) head.next h2; ok (h3, head.next))
  if a == l then second else ok (h2, some l)

-- The loop of `ta_list_remove`: the list, and what is stored in `removed`.
unfoldable pub remove_from : ℕ → Heap → ℕ → Pointer → ℕ → Run (Heap × Pointer × Pointer)
unfolding unlink
remove_from zero h l ptr datum = fault
remove_from (suc fuel) h l none datum = ok (h, some l, none)
remove_from (suc fuel) h l (some a) datum = do
  n ← load h a
  let rest = remove_from fuel h l n.next datum
  let found = (do (h', list) ← unlink h l a; ok (h', list, some a))
  if n.datum == datum then found else rest

unfoldable pub remove : ℕ → Heap → Pointer → ℕ → Run (Heap × Pointer × Pointer)
unfolding remove_from
remove fuel h none datum = ok (h, none, none)
remove fuel h (some l) datum = remove_from fuel h l (some l) datum

-- `ta_list_pop`, on the last node `a`: the list, and what is stored in `popped_out`.
unfoldable pub pop_last : Heap → ℕ → ℕ → Run (Heap × Pointer × Pointer)
pop_last h l a = do
  n ← load h a
  h1 ← update_if (λ m. record m { next = none }) n.prev h
  h2 ← (if is_null n.prev then ok h1 else update (λ m. record m { prev = none }) (some a) h1)
  ok (h2, (if a == l then none else some l), some a)

abbrev pub pop_end : Heap → ℕ → Pointer → Run (Heap × Pointer × Pointer)
pop_end h l none = fault
pop_end h l (some a) = pop_last h l a

unfoldable pub pop : ℕ → Heap → Pointer → Run (Heap × Pointer × Pointer)
unfolding last pop_last
pop fuel h none = ok (h, none, none)
pop fuel h (some l) = do end ← last fuel h (some l); pop_end h l end
