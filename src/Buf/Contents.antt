-- ===== src/Buf/Contents.antt =====
-- What the block of a buffer of src/buf.c holds behind `ta_buf_cat`.
use taningia.Base.{
  ℕ, zero, suc, ◌+◌, ◌-◌, ◌^◌, ◌≤◌, ◌<◌, ◌≡◌, refl, sym, ap, ◌∙◌, Bool, true, false, Option, none,
  some, List, [], ◌∷◌, ◌++◌, map, leb, arith, Bool-cases, inl, inr, ◌⊎◌, length, take, drop,
  replicate, length-append, length-take, length-drop, length-replicate, take-append, append-nil,
  take_all,
}
use taningia.Base.CString.{Bytes}
use taningia.Base.Run.{ok}
use taningia.Error.{ta_ok, ta_error}
use taningia.Buf.{Buf, Memory, store, resize, put, cat, buf_realloc, int}
use taningia.Buf.Growth.{buf_realloc-grows, int-ok}

abbrev pub block : Option Memory → Memory
block none = []
block (some m) = m

-- The buffer holds the text `s`, and its fields agree with its block.
unfoldable pub Holds : Buf → Bytes → Type 0
Holds b s =
    (b.string_length ≡ length s)
    × (b.allocated_size ≡ length (block b.ptr))
    × (take (length s) (block b.ptr) ≡ map some s)

-- The text is followed by a NUL.
unfoldable pub IsEnded : Buf → Bytes → Type 0
IsEnded b s = take (length s + 1) (block b.ptr) ≡ map some s ++ some 0 ∷ []

module _ {ℓ} {A : Type ℓ} where
  take-take : (k n : ℕ) (xs : List A) → k ≤ n → take k (take n xs) ≡ take k xs
  take-take zero n xs h = refl
  take-take (suc k) zero xs h = absurd (omega arith)
  take-take (suc k) (suc n) [] h = refl
  take-take (suc k) (suc n) (x ∷ xs) h = ap (◌∷◌ x) (take-take k n xs (omega arith))

  pub take_prefix :
      (k n : ℕ) (m xs ys : List A) → take n m ≡ xs ++ ys → k ≡ length xs → k ≤ n → take k m ≡ xs
  take_prefix k n m xs ys e l h = sym (take-take k n m h) ∙ (ap (take k) e ∙ take-append xs ys k l)

  take-append_short : (k : ℕ) (xs ys : List A) → k ≤ length xs → take k (xs ++ ys) ≡ take k xs
  take-append_short zero xs ys h = refl
  take-append_short (suc k) [] ys h = absurd (omega arith)
  take-append_short (suc k) (x ∷ xs) ys h = ap (◌∷◌ x) (take-append_short k xs ys (omega arith))

pub length-map : (s : Bytes) → length (map some s) ≡ length s
length-map [] = refl
length-map (c ∷ s) = ap suc (length-map s)

pub map-append : (s t : Bytes) → map some (s ++ t) ≡ map some s ++ map some t
map-append [] t = refl
map-append (c ∷ s) t = ap (◌∷◌ (some c)) (map-append s t)

-- A write inside the block succeeds and keeps the size and the bytes before it.
store-writes :
    (at : ℕ) (src m : Memory)
    → at + length src ≤ length m
    → (m' : Memory) × (store at src (some m) ≡ ok (some m'))
      × (length m' ≡ length m)
      × (take (at + length src) m' ≡ take at m ++ src)
unfolding store
store-writes at [] m h =
    (m, refl, refl, rw (append-nil (take at m)) (ap (λ n. take n m) (omega arith)))
store-writes at (c ∷ src) m h =
    let m' : Memory = take at m ++ (c ∷ src) ++ drop (at + length (c ∷ src)) m in
    let put_length : length (take at m ++ (c ∷ src)) ≡ at + length (c ∷ src) =
      omega (arith, length-append (take at m) (c ∷ src), length-take at m) in
    (
      m',
      ground arith,
      omega (
        arith,
        put_length,
        length-append (take at m ++ (c ∷ src)) (drop (at + length (c ∷ src)) m),
        length-drop (at + length (c ∷ src)) m,
      ),
      take-append (take at m ++ (c ∷ src)) _ _ (sym put_length),
    )

pub store-block :
    (at : ℕ) (src : Memory) (p : Option Memory)
    → at + length src ≤ length (block p)
    → 0 < length (block p)
    → (m' : Memory) × (store at src p ≡ ok (some m'))
      × (length m' ≡ length (block p))
      × (take (at + length src) m' ≡ take at (block p) ++ src)
store-block at src none h nz = absurd (omega arith)
store-block at src (some m) h nz = store-writes at src m h

pub length-resize : (p : Option Memory) (n : ℕ) → length (block p) ≤ n → length (resize p n) ≡ n
unfolding resize
length-resize none n h = length-replicate n none
length-resize (some m) n h = omega (
  arith,
  length-append (take n m) (replicate (n - length m) none),
  length-take n m,
  length-replicate {A = Option ℕ} (n - length m) none,
)

pub take-resize :
    (p : Option Memory) (k n : ℕ)
    → k ≤ length (block p)
    → length (block p) ≤ n
    → take k (resize p n) ≡ take k (block p)
unfolding resize
take-resize none zero n h l = refl
take-resize none (suc k) n h l = absurd (omega arith)
take-resize (some m) k n h l = rw (take_all m n l) (take-append_short k m _ h)

-- A text that a buffer holds is inside its block.
pub short :
    (b : Buf) (s : Bytes) → Holds b s → (b.string_length ≡ length s) × (length s ≤ b.allocated_size)
unfolding Holds
short b s (sl, al, tk) =
    (sl, omega (arith, ap length tk, length-take (length s) (block b.ptr), length-map s))

pub grown :
    (b : Buf) (s : Bytes) (n : ℕ)
    → Holds b s
    → b.allocated_size ≤ n
    → Holds (record b { ptr = some (resize b.ptr n); allocated_size = n }) s
unfolding Holds
grown b s n (sl, al, tk) le =
    let inside : length s ≤ length (block b.ptr) =
      omega (arith, ap length tk, length-take (length s) (block b.ptr), length-map s) in
    (
      sl,
      sym (length-resize b.ptr n (omega arith)),
      take-resize b.ptr (length s) n inside (omega arith) ∙ tk,
    )

enough :
    (mem : ℕ → Bool) (b : Buf) (requested : ℕ)
    → leb requested b.allocated_size ≡ true
    → buf_realloc mem b requested ≡ ok (b, ta_ok)
unfolding buf_realloc
enough mem b requested e = ground arith

-- A request is met by a block that holds it and keeps the text, or `realloc` has refused a size.
reserve :
    (mem : ℕ → Bool) (b : Buf) (s : Bytes) (requested : ℕ)
    → Holds b s
    → length s < requested
    → requested ≤ 2 ^ 30
    → ((n : ℕ) × (mem n ≡ false) × (buf_realloc mem b requested ≡ ok (b, ta_error)))
      ⊎ ((b' : Buf) × (buf_realloc mem b requested ≡ ok (b', ta_ok))
          × Holds b' s
          × (requested ≤ b'.allocated_size))
unfolding Holds
reserve mem b s requested h l r = elim (Bool-cases (leb requested b.allocated_size)) [
  | inl e ↦ inr (b, enough mem b requested e, h, ground arith)
  | inr e ↦
      let lt : b.allocated_size < requested = ground arith in
      let (n, ge, le, aligned, eq) = buf_realloc-grows mem b requested lt r in
      elim (Bool-cases (mem n)) [
        | inr denied ↦ inl (n, denied, rw (eq, denied) refl)
        | inl given ↦ inr (
          record b { ptr = some (resize b.ptr n); allocated_size = n },
          rw (eq, given) refl,
          grown b s n h (omega arith),
          ge,
        )
      ]
]

-- The text and the NUL go into a block that has room for them.
put-Holds :
    (b : Buf) (s t : Bytes)
    → Holds b s
    → length s + length t + 1 ≤ b.allocated_size
    → (b' : Buf) × (put b t ≡ ok (b', ta_ok)) × Holds b' (s ++ t) × IsEnded b' (s ++ t)
unfolding put Holds IsEnded
put-Holds b s t (sl, al, tk) r =
    let (m1, w1, l1, t1) =
      store-block b.string_length (map some t) b.ptr (omega (arith, length-map t)) (omega arith) in
    let (m2, w2, l2, t2) =
      store-writes (b.string_length + length t) (some 0 ∷ []) m1 (omega arith) in
    let kept : take (b.string_length + length t) m1 ≡ map some (s ++ t) =
      ap (λ n. take (b.string_length + n) m1) (sym (length-map t))
      ∙ (t1
          ∙ (ap (λ x. x ++ map some t) (ap (λ n. take n (block b.ptr)) sl ∙ tk)
              ∙ sym (map-append s t))) in
    let total : length (s ++ t) ≡ b.string_length + length t = omega (arith, length-append s t) in
    let ended : take (length (s ++ t) + 1) m2 ≡ map some (s ++ t) ++ some 0 ∷ [] =
      ap (λ n. take (n + 1) m2) total ∙ (t2 ∙ ap (λ x. x ++ some 0 ∷ []) kept) in
    (
      record b { ptr = some m2; string_length = b.string_length + length t },
      rw (w1, w2) refl,
      (
        sym total,
        omega arith,
        take_prefix (length (s ++ t)) _ m2 _ _ ended (sym (length-map (s ++ t))) (omega arith),
      ),
      ended,
    )

-- A buffer that holds `s`, and a text `t` with `length s + length t < 2^30`: `ta_buf_cat` returns
-- TA_OK with a buffer that holds `s ++ t` followed by a NUL, or `realloc` has refused a size, the
-- result is TA_ERROR and the buffer is the old one.
pub cat-Holds :
    (mem : ℕ → Bool) (b : Buf) (s t : Bytes)
    → Holds b s
    → length s + length t < 2 ^ 30
    → ((n : ℕ) × (mem n ≡ false) × (cat mem b t ≡ ok (b, ta_error)))
      ⊎ ((b' : Buf) × (cat mem b t ≡ ok (b', ta_ok)) × Holds b' (s ++ t) × IsEnded b' (s ++ t))
unfolding cat Holds
cat-Holds mem b s t h lt =
    let sl : b.string_length ≡ length s = h.0 in
    let e1 : int (length t) ≡ ok (length t) = int-ok _ (omega arith) in
    let e2 : int (b.string_length + length t + 1) ≡ ok (b.string_length + length t + 1) =
      int-ok _ (omega arith) in
    elim (reserve mem b s (b.string_length + length t + 1) h (omega arith) (omega arith)) [
      | inl (n, denied, eq) ↦ inl (n, denied, rw (e1, e2, eq) refl)
      | inr (b', eq, h', ge) ↦
          let (b'', eq', held, ended) = put-Holds b' s t h' (omega arith) in
          inr (b'', rw (e1, e2, eq) eq', held, ended)
    ]
