-- ===== src/Buf/Format.antt =====
-- src/buf.c, `ta_buf_catf`: text that fits, and text that does not.
use taningia.Base.{
  ℕ, suc, ◌+◌, ◌-◌, ◌/◌, ◌^◌, ◌≤◌, ◌<◌, ◌≡◌, refl, sym, ap, ◌∙◌, true, false, some, [], ◌∷◌, ◌++◌,
  map, leb, ◌==◌, arith, length, take, length-append, length-take, append_assoc, take_all,
}
use taningia.Base.CString.{Bytes}
use taningia.Base.Run.{ok}
use taningia.Error.{ta_ok, c99}
use taningia.Buf.{Buf, Memory, catf, vcatf, vcatf_loop, print_at, resize, int}
use taningia.Buf.Contents.{
  Holds, IsEnded, short, grown, block, store-block, length-map, map-append, take_prefix,
}
use taningia.Buf.Growth.{buf_realloc-grows, int-ok}
use taningia.Buf.Strings.{always}

-- `Fits b s out size b'`: `b'` is the buffer behind a print of `out` behind `s` into `size` bytes.
Printed : Bytes → Bytes → ℕ → Buf → Type 0
Printed s out size b =
    (b.allocated_size ≡ size)
    × (b.string_length ≡ length s + length out)
    × (length s + length out < size → Holds b (s ++ out) × IsEnded b (s ++ out))

held :
    (b : Buf) (s out : Bytes) (m : Memory)
    → Holds b s
    → length m ≡ b.allocated_size
    → length s + length out < b.allocated_size
    → take (length (s ++ out) + 1) m ≡ map some (s ++ out) ++ some 0 ∷ []
    → (b' : Buf) → b' ≡ record b { ptr = some m; string_length = b.string_length + length out }
    → Holds b' (s ++ out) × IsEnded b' (s ++ out)
unfolding Holds IsEnded
held b s out m (sl, al, tk) len fits ended b' eq = rw eq (
  (
    omega (arith, length-append s out),
    sym len,
    take_prefix (length (s ++ out)) _ m _ _ ended (sym (length-map (s ++ out))) (omega arith),
  ),
  ended,
)

joined :
    (l : ℕ) (s out : Bytes) (p m : Memory)
    → take l p ≡ map some s
    → l ≡ length s
    → take (l + length (map some out ++ some 0 ∷ [])) m ≡ take l p ++ (map some out ++ some 0 ∷ [])
    → take (length (s ++ out) + 1) m ≡ map some (s ++ out) ++ some 0 ∷ []
joined l s out p m tk e pre =
    ap (λ n. take n m)
      (omega
        (arith, length-append s out, length-append (map some out) (some 0 ∷ []), length-map out))
    ∙ (pre
        ∙ (ap (λ x. x ++ (map some out ++ some 0 ∷ [])) tk
            ∙ rw (map-append s out) (simp append_assoc)))

loop_lem :
    (fuel : ℕ) (b : Buf) (s out : Bytes) (request : ℕ)
    → Holds b s
    → length s < b.allocated_size
    → length s + length out < 2 ^ 31
    → (b' : Buf) × (vcatf_loop (suc fuel) always (c99 out) b request ≡ ok (b', ta_ok))
      × Printed s out b.allocated_size b'
unfolding vcatf_loop print_at Holds IsEnded Printed
loop_lem fuel b s out request (sl, al, tk) lt bound =
    let msg : Bytes = take (b.allocated_size - b.string_length - 1) out in
    let (m', eq, len, pre) =
      store-block b.string_length (map some msg ++ some 0 ∷ []) b.ptr
        (omega (
          arith,
          length-append (map some msg) (some 0 ∷ []),
          length-map msg,
          length-take (b.allocated_size - b.string_length - 1) out,
        ))
        (omega arith) in
    let whole : length s + length out < b.allocated_size → msg ≡ out =
      λ fits. take_all out _ (omega arith) in
    let prefix : length s + length out < b.allocated_size
        → take (length (s ++ out) + 1) m' ≡ map some (s ++ out) ++ some 0 ∷ [] =
      λ fits.
        ap (λ x. take (length (s ++ x) + 1) m') (sym (whole fits))
        ∙ (joined b.string_length s msg (block b.ptr) m' (ap (λ n. take n (block b.ptr)) sl ∙ tk) sl
              pre
            ∙ ap (λ x. map some (s ++ x) ++ some 0 ∷ []) (whole fits)) in
    let has_room : leb b.string_length b.allocated_size ≡ true = ground arith in
    let not_full : (b.string_length == b.allocated_size) ≡ false = ground arith in
    let counted : int (b.string_length + length out) ≡ ok (b.string_length + length out) =
      int-ok _ (omega arith) in
    let done : leb (length out) (b.string_length + length out) ≡ true = ground arith in
    (
      record b { ptr = some m'; string_length = b.string_length + length out },
      rw (has_room, not_full, eq, counted, done) refl,
      (
        refl,
        omega arith,
        λ fits. held b s out m' (sl, al, tk) (len ∙ sym al) fits (prefix fits) _ refl,
      ),
    )

-- The block that `ta_buf_vcatf` allocates, and what it prints into it.
vcatf_lem :
    (b : Buf) (s format out : Bytes)
    → Holds b s
    → 0 < length format
    → b.allocated_size + length format ≤ 2 ^ 30
    → length s + length out < 2 ^ 31
    → (n : ℕ) × (b' : Buf) × (b.allocated_size + length format ≤ n)
      × (n ≤ b.allocated_size + length format + (b.allocated_size + length format) / 2 + 7)
      × (catf always b format (c99 out) ≡ ok (b', ta_ok))
      × Printed s out n b'
unfolding catf vcatf
vcatf_lem b s format out h nz le bound =
    let (n, ge, up, aligned, eq) =
      buf_realloc-grows always b (b.allocated_size + length format) (omega arith) le in
    let b1 : Buf = record b { ptr = some (resize b.ptr n); allocated_size = n } in
    let (b', eq', printed) =
      loop_lem (suc b.string_length) b1 s out (b.allocated_size + length format)
        (grown b s n h (omega arith)) (omega (arith, short b s h)) bound in
    let i : int (b.allocated_size + length format) ≡ ok (b.allocated_size + length format) =
      int-ok _ (omega arith) in
    (
      n,
      b',
      ge,
      up,
      rw (i, eq)
          (ap (λ k. vcatf_loop k always (c99 out) b1 (b.allocated_size + length format))
              {x = b.string_length + 2} {y = suc (suc b.string_length)} (omega arith)
            ∙ eq'),
      printed,
    )

-- A buffer that holds `s`, and a format that is not empty: text that is shorter than the room left
-- in the block and the format together is added, with a NUL behind it, and the result is TA_OK.
-- The size of the block and the format is at most 2^30, and memory is given for every request.
catf-fits :
    (b : Buf) (s format out : Bytes)
    → Holds b s
    → 0 < length format
    → b.allocated_size + length format ≤ 2 ^ 30
    → length s + length out < b.allocated_size + length format
    → (b' : Buf) × (catf always b format (c99 out) ≡ ok (b', ta_ok))
      × Holds b' (s ++ out)
      × IsEnded b' (s ++ out)
unfolding Printed
catf-fits b s format out h nz le less =
    let (n, b', ge, up, eq, printed) = vcatf_lem b s format out h nz le (omega arith) in
    let (held, ended) = printed.2 (omega arith) in (b', eq, held, ended)

-- A longer text: where it leaves no room in any block that the growth can give, `ta_buf_catf`
-- still returns TA_OK, but counts bytes that it has not printed, so that the length is no longer
-- inside the block and the buffer holds no text of that length.
pub catf-overruns :
    (b : Buf) (s format out : Bytes)
    → Holds b s
    → 0 < length format
    → b.allocated_size + length format ≤ 2 ^ 30
    → b.allocated_size + length format + (b.allocated_size + length format) / 2 + 7
      < length s + length out
    → length s + length out < 2 ^ 31
    → (b' : Buf) × (catf always b format (c99 out) ≡ ok (b', ta_ok))
      × (b'.string_length ≡ length s + length out)
      × (b'.allocated_size < b'.string_length)
      × ((t : Bytes) → ¬ Holds b' t)
unfolding Printed
catf-overruns b s format out h nz le long bound =
    let (n, b', ge, up, eq, printed) = vcatf_lem b s format out h nz le bound in
    (
      b',
      eq,
      printed.1,
      omega (arith, printed.0, printed.1),
      λ t held. omega (arith, printed.0, printed.1, short b' t held),
    )
