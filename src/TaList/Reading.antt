-- ===== src/TaList/Reading.antt =====
-- src/list.c: what the functions that only read a list compute.
use taningia.Base.{
  ℕ, zero, suc, ◌+◌, ◌<◌, ◌≡◌, refl, true, false, none, some, List, [], ◌∷◌, ◌==◌, arith,
  Bool-cases, inl, inr, length, if◌then◌else◌,
}
use taningia.Base.Int.{ℤ, pos, negsuc}
use taningia.Base.Run.{ok}
use taningia.Object.{is_zero}
use taningia.TaList.{
  Heap, Pointer, last, last_from, len, len_from, count, count_from, index, index_from, item,
  item_from,
}
use taningia.TaList.Chain.{Entry, Chain}

-- What the functions mean on the entries themselves.
abbrev pub matches : (ℕ → ℕ → ℤ) → List Entry → ℕ → ℕ
matches cmp [] d = 0
matches cmp ((a, e) ∷ xs) d = if is_zero (cmp e d) then suc (matches cmp xs d) else matches cmp xs d

abbrev pub nth : List Entry → ℕ → ℕ
nth [] n = 0
nth ((a, e) ∷ xs) zero = e
nth ((a, e) ∷ xs) (suc n) = nth xs n

abbrev pub last_of : List Entry → Pointer → Pointer
last_of [] tmp = tmp
last_of ((a, d) ∷ xs) tmp = last_of xs (some a)

pub last_from_lem :
    (xs : List Entry) (fuel : ℕ) (h : Heap) (q p tmp : Pointer)
    → Chain h q p xs
    → length xs < fuel
    → last_from fuel h p tmp ≡ ok (last_of xs tmp)
unfolding last_from Chain
last_from_lem xs zero h q p tmp c f = absurd (omega arith)
last_from_lem [] (suc fuel) h q p tmp c f = rw c refl
last_from_lem ((a, d) ∷ xs) (suc fuel) h q p tmp (n, at, cell, rest) f =
    rw (at, cell) (last_from_lem xs fuel h (some a) n (some a) rest (omega arith))

len_from_lem :
    (xs : List Entry) (fuel : ℕ) (h : Heap) (q p : Pointer) (k m : ℕ)
    → Chain h q p xs
    → length xs < fuel
    → k + length xs ≡ m
    → len_from fuel h p k ≡ ok m
unfolding len_from Chain
len_from_lem xs zero h q p k m c f e = absurd (omega arith)
len_from_lem [] (suc fuel) h q p k m c f e = let same : k ≡ m = omega arith in rw (c, same) refl
len_from_lem ((a, d) ∷ xs) (suc fuel) h q p k m (n, at, cell, rest) f e =
    rw (at, cell) (len_from_lem xs fuel h (some a) n (suc k) m rest (omega arith) (omega arith))

count_from_lem :
    (cmp : ℕ → ℕ → ℤ) (xs : List Entry) (fuel : ℕ) (h : Heap) (q p : Pointer) (d k m : ℕ)
    → Chain h q p xs
    → length xs < fuel
    → k + matches cmp xs d ≡ m
    → count_from fuel cmp h p d k ≡ ok m
unfolding count_from Chain
count_from_lem cmp xs zero h q p d k m c f e = absurd (omega arith)
count_from_lem cmp [] (suc fuel) h q p d k m c f e =
    let same : k ≡ m = omega arith in rw (c, same) refl
count_from_lem cmp ((a, v) ∷ xs) (suc fuel) h q p d k m (n, at, cell, rest) f e =
    elim (Bool-cases (is_zero (cmp v d))) [
      | inl hit ↦
          let e' : k + suc (matches cmp xs d) ≡ m = rw hit at e in
          rw (at, cell, hit)
            (count_from_lem cmp xs fuel h (some a) n d (suc k) m rest (omega arith) (omega arith))
      | inr miss ↦
          let e' : k + matches cmp xs d ≡ m = rw miss at e in
          rw (at, cell, miss)
            (count_from_lem cmp xs fuel h (some a) n d k m rest (omega arith) (omega arith))
    ]

-- The position of the first entry with the data, counted from `k`, or -1.
abbrev pub position : ℕ → List Entry → ℕ → ℤ
position k [] d = negsuc 0
position k ((a, v) ∷ xs) d = if v == d then pos k else position (suc k) xs d

index_from_lem :
    (xs : List Entry) (fuel : ℕ) (h : Heap) (q p : Pointer) (d k : ℕ)
    → Chain h q p xs
    → length xs < fuel
    → index_from fuel h p d k ≡ ok (position k xs d)
unfolding index_from Chain
index_from_lem xs zero h q p d k c f = absurd (omega arith)
index_from_lem [] (suc fuel) h q p d k c f = rw c refl
index_from_lem ((a, v) ∷ xs) (suc fuel) h q p d k (n, at, cell, rest) f =
    elim (Bool-cases (v == d)) [
      | inl hit ↦ rw (at, cell, hit) refl
      | inr miss ↦
          rw (at, cell, miss) (index_from_lem xs fuel h (some a) n d (suc k) rest (omega arith))
    ]

item_from_lem :
    (xs : List Entry) (fuel : ℕ) (h : Heap) (q p : Pointer) (i k j : ℕ)
    → Chain h q p xs
    → length xs < fuel
    → j ≡ k + i
    → item_from fuel h p (pos j) k ≡ ok (nth xs i)
unfolding item_from Chain
item_from_lem xs zero h q p i k j c f e = absurd (omega arith)
item_from_lem [] (suc fuel) h q p i k j c f e = rw c refl
item_from_lem ((a, v) ∷ xs) (suc fuel) h q p zero k j (n, at, cell, rest) f e =
    let here : (j == k) ≡ true = ground arith in rw (at, cell, here) refl
item_from_lem ((a, v) ∷ xs) (suc fuel) h q p (suc i) k j (n, at, cell, rest) f e =
    let there : (j == k) ≡ false = ground arith in
    rw (at, cell, there)
      (item_from_lem xs fuel h (some a) n i (suc k) j rest (omega arith) (omega arith))

-- A negative index never meets the counter.
item_negative :
    (xs : List Entry) (fuel : ℕ) (h : Heap) (q p : Pointer) (i k : ℕ)
    → Chain h q p xs
    → length xs < fuel
    → item_from fuel h p (negsuc i) k ≡ ok 0
unfolding item_from Chain
item_negative xs zero h q p i k c f = absurd (omega arith)
item_negative [] (suc fuel) h q p i k c f = rw c refl
item_negative ((a, v) ∷ xs) (suc fuel) h q p i k (n, at, cell, rest) f =
    rw (at, cell) (item_negative xs fuel h (some a) n i (suc k) rest (omega arith))

abbrev pub lookup : List Entry → ℤ → ℕ
lookup xs (pos n) = nth xs n
lookup xs (negsuc n) = 0

item_lem :
    (xs : List Entry) (fuel : ℕ) (h : Heap) (p : Pointer) (i : ℤ)
    → Chain h none p xs
    → length xs < fuel
    → item fuel h p i ≡ ok (lookup xs i)
unfolding item
item_lem xs fuel h p (pos i) c f = item_from_lem xs fuel h none p i 0 i c f (omega arith)
item_lem xs fuel h p (negsuc i) c f = item_negative xs fuel h none p i 0 c f

-- On a chain with the given entries, with more fuel than entries: `ta_list_len` is the number of
-- entries, `ta_list_last` the address of the last one, `ta_list_count` the number of those that
-- compare as equal, `ta_list_index` the position of the first one with the given data or -1, and
-- `ta_list_item` the data at a position, or NULL where there is none or it is negative.
reading :
    (xs : List Entry) (fuel : ℕ) (h : Heap) (p : Pointer) (cmp : ℕ → ℕ → ℤ) (d : ℕ) (i : ℤ)
    → Chain h none p xs
    → length xs < fuel
    → (len fuel h p ≡ ok (length xs))
      × (last fuel h p ≡ ok (last_of xs none))
      × (count fuel cmp h p d ≡ ok (matches cmp xs d))
      × (index fuel h p d ≡ ok (position 0 xs d))
      × (item fuel h p i ≡ ok (lookup xs i))
unfolding len last count index
reading xs fuel h p cmp d i c f = (
  len_from_lem xs fuel h none p 0 _ c f (omega arith),
  last_from_lem xs fuel h none p none c f,
  count_from_lem cmp xs fuel h none p d 0 _ c f (omega arith),
  index_from_lem xs fuel h none p d 0 c f,
  item_lem xs fuel h p i c f,
)
