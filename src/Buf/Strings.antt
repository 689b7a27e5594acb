-- ===== src/Buf/Strings.antt =====
-- src/buf.c: what `ta_buf_dump` gives back of the texts that were added.
use taningia.Base.{
  ℕ, zero, suc, ◌+◌, ◌^◌, ◌≤◌, ◌<◌, ◌≡◌, refl, sym, ap, ◌∙◌, Bool, true, false, Option, none, some,
  List, [], ◌∷◌, ◌++◌, map, ltb, ◌==◌, arith, inl, inr, length, take, length-append,
  length-replicate, append_assoc, append-nil,
}
use taningia.Base.CString.{Bytes, lacks}
use taningia.Base.Int.{pos}
use taningia.Base.Run.{Run, ok, ◌>>=◌}
use taningia.Error.{ta_ok}
use taningia.Buf.{Buf, Memory, empty, alloc, cat, dump, dup, read_string, resize}
use taningia.Buf.Contents.{Holds, IsEnded, block, cat-Holds}
use taningia.Buf.Growth.{buf_realloc-grows}

abbrev pub always : ℕ → Bool
always n = true

-- The texts added one behind the other, and all of them as one text.
unfoldable pub cat_all : Buf → List Bytes → Run Buf
cat_all b [] = ok b
cat_all b (t ∷ ts) = do (b, status) ← cat always b t; cat_all b ts

unfoldable pub concat : List Bytes → Bytes
concat [] = []
concat (t ∷ ts) = t ++ concat ts

read_string_lem :
    (s : Bytes) (m : Memory)
    → lacks 0 s ≡ true
    → take (suc (length s)) m ≡ map some s ++ some 0 ∷ []
    → read_string m ≡ ok s
unfolding read_string
read_string_lem [] [] h e = cc
read_string_lem [] (none ∷ m) h e = cc
read_string_lem [] (some d ∷ m) h e = let z : d ≡ 0 = cc in rw z refl
read_string_lem (c ∷ s) [] h e = absurd (cc)
read_string_lem (c ∷ s) (none ∷ m) h e = cc
read_string_lem (c ∷ s) (some d ∷ m) h e =
    let same : d ≡ c = cc in
    let tail : take (suc (length s)) m ≡ map some s ++ some 0 ∷ [] = cc in
    let free : lacks 0 s ≡ true = ground arith in
    let nz : (c == 0) ≡ false = ground arith in rw (same, nz, read_string_lem s m free tail) refl

cat-always :
    (b : Buf) (s t : Bytes)
    → Holds b s
    → length s + length t < 2 ^ 30
    → (b' : Buf) × (cat always b t ≡ ok (b', ta_ok)) × Holds b' (s ++ t) × IsEnded b' (s ++ t)
cat-always b s t h lt = elim (cat-Holds always b s t h lt) [
  | inl (n, denied, eq) ↦ cc
  | inr found ↦ found
]

cat_all_lem :
    (ts : List Bytes) (b : Buf) (s : Bytes)
    → Holds b s
    → IsEnded b s
    → length s + length (concat ts) < 2 ^ 30
    → (b' : Buf) × (cat_all b ts ≡ ok b') × Holds b' (s ++ concat ts) × IsEnded b' (s ++ concat ts)
unfolding cat_all concat
cat_all_lem [] b s h e lt = (b, refl, rw (append-nil s) h, rw (append-nil s) e)
cat_all_lem (t ∷ ts) b s h e lt =
    let short : length s + length t < 2 ^ 30 = omega (arith, length-append t (concat ts)) in
    let (b', eq, h', e') = cat-always b s t h short in
    let (b'', eq', h'', e'') =
      cat_all_lem ts b' (s ++ t) h' e'
        (omega (arith, length-append t (concat ts), length-append s t)) in
    (
      b'',
      rw eq eq',
      rw (sym (append_assoc s t (concat ts))) h'',
      rw (sym (append_assoc s t (concat ts))) e'',
    )

alloc_lem : (n : ℕ) → n ≤ 2 ^ 30 → (b : Buf) × (alloc always (pos n) ≡ ok b) × Holds b []
unfolding alloc Holds resize
alloc_lem zero h = (empty, refl, (refl, refl, refl))
alloc_lem (suc n) h =
    let (size, ge, le, aligned, eq) = buf_realloc-grows always empty (suc n) (omega arith) h in
    (
      record empty { ptr = some (resize none size); allocated_size = size },
      rw eq refl,
      (refl, sym (length-replicate {A = Option ℕ} size none), refl),
    )

cat_all_ended :
    (t : Bytes) (ts : List Bytes) (b : Buf)
    → Holds b []
    → length (concat (t ∷ ts)) < 2 ^ 30
    → (b' : Buf) × (cat_all b (t ∷ ts) ≡ ok b')
      × Holds b' (concat (t ∷ ts))
      × IsEnded b' (concat (t ∷ ts))
unfolding cat_all concat
cat_all_ended t ts b held lt =
    let (b', eq, h', e') = cat-always b [] t held (omega (arith, length-append t (concat ts))) in
    let (b'', eq', h'', e'') =
      cat_all_lem ts b' t h' e' (omega (arith, length-append t (concat ts))) in
    (b'', rw eq eq', h'', e'')

dup_lem :
    (p : Option Memory) (s : Bytes)
    → lacks 0 s ≡ true
    → take (suc (length s)) (block p) ≡ map some s ++ some 0 ∷ []
    → dup p ≡ ok s
dup_lem none [] h e = absurd cc
dup_lem none (c ∷ s) h e = absurd cc
dup_lem (some m) s h e = read_string_lem s m h e

ltb-true : (n : ℕ) → 0 < n → ltb 0 n ≡ true
ltb-true n h = ground arith

dump_lem :
    (b : Buf) (s : Bytes)
    → Holds b s
    → IsEnded b s
    → 0 < length s
    → lacks 0 s ≡ true
    → dump b ≡ ok (empty, some s)
unfolding dump Holds IsEnded
dump_lem b s h e nz free =
    let found : dup b.ptr ≡ ok s =
      dup_lem b.ptr s free
        (ap (λ n. take n (block b.ptr)) {x = suc (length s)} (omega arith) ∙ e) in
    let filled : ltb 0 b.string_length ≡ true = ltb-true b.string_length (omega (arith, h.0)) in
    rw (filled, found) refl

-- A buffer allocated with at most 2^30 bytes, to which texts without a NUL are added that are not
-- all empty and have fewer than 2^30 bytes together: with memory for every request `ta_buf_dump`
-- returns the texts one behind the other and leaves the buffer empty.
pub dump-cat_all :
    (n : ℕ) (t : Bytes) (ts : List Bytes)
    → n ≤ 2 ^ 30
    → length (concat (t ∷ ts)) < 2 ^ 30
    → 0 < length (concat (t ∷ ts))
    → lacks 0 (concat (t ∷ ts)) ≡ true
    → (do b ← alloc always (pos n); b ← cat_all b (t ∷ ts); dump b)
      ≡ ok (empty, some (concat (t ∷ ts)))
dump-cat_all n t ts h lt nz free =
    let (b, eq, held) = alloc_lem n h in
    let (b', eq', h', e') = cat_all_ended t ts b held lt in
    rw (eq, eq') (dump_lem b' (concat (t ∷ ts)) h' e' nz free)
