-- ===== src/Log/Layout.antt =====
-- src/log.c, `_call_handler`: the text that a handler gets, written piece by piece into a block.
use taningia.Base.{
  ℕ, zero, suc, ◌+◌, ◌≡◌, refl, sym, ap, ◌∙◌, length-append, true, false, Option, none, some, List,
  [], ◌∷◌, ◌++◌, append_assoc, length, arith, ◌==◌, if◌then◌else◌,
}
use taningia.Base.CString.{Bytes, codes, lacks}
use taningia.Base.Run.{Run, ok, fault, ◌>>=◌}

-- The bytes of a block, `none` where nothing was written.
abbrev pub Block : Type 0
Block = List (Option ℕ)

abbrev pub malloc : ℕ → Block
malloc zero = []
malloc (suc n) = none ∷ malloc n

-- `memcpy (full + offset, source, …)`
unfoldable pub memcpy : Block → ℕ → Bytes → Run Block
memcpy block zero [] = ok block
memcpy [] zero (c ∷ cs) = fault
memcpy (x ∷ block) zero (c ∷ cs) = do rest ← memcpy block zero cs; ok (some c ∷ rest)
memcpy [] (suc offset) source = fault
memcpy (x ∷ block) (suc offset) source = do rest ← memcpy block offset source; ok (x ∷ rest)

-- The string in a block: the bytes before the first NUL.
unfoldable pub string_in : Block → Run Bytes
string_in [] = fault
string_in (none ∷ block) = fault
string_in (some c ∷ block) =
    let rest = (do cs ← string_in block; ok (c ∷ cs)) in if c == 0 then ok [] else rest

-- The text of `_call_handler`, with its offsets and its size.
unfoldable pub full : Bytes → Bytes → Bytes → Run Bytes
full ltime name msg = do
  let size1 = length ltime
  let size2 = length name
  let size3 = length msg
  let total = size1 + size2 + size3 + 5
  b1 ← memcpy (malloc (total + 1)) 0 (codes "[")
  b2 ← memcpy b1 1 ltime
  b3 ← memcpy b2 (1 + size1) (codes "][")
  b4 ← memcpy b3 (3 + size1) name
  b5 ← memcpy b4 (3 + size1 + size2) (codes "] ")
  b6 ← memcpy b5 (5 + size1 + size2) msg
  b7 ← memcpy b6 total (0 ∷ [])
  string_in b7

-- A block whose first bytes are written.
abbrev written : Bytes → ℕ → Block
written [] n = malloc n
written (c ∷ cs) n = some c ∷ written cs n

memcpy-malloc :
    (source : Bytes) (size n : ℕ)
    → size ≡ length source + n
    → memcpy (malloc size) 0 source ≡ ok (written source n)
unfolding memcpy
memcpy-malloc [] size n e = ap (λ k. ok (malloc k)) {x = size} {y = n} (omega arith)
memcpy-malloc (c ∷ cs) zero n e = absurd (omega arith)
memcpy-malloc (c ∷ cs) (suc size) n e = rw (memcpy-malloc cs size n (omega arith)) refl

memcpy-written :
    (done source : Bytes) (offset size n : ℕ)
    → offset ≡ length done
    → size ≡ length source + n
    → memcpy (written done size) offset source ≡ ok (written (done ++ source) n)
unfolding memcpy
memcpy-written [] source offset size n e s = rw e (memcpy-malloc source size n s)
memcpy-written (d ∷ done) source zero size n e s = absurd (omega arith)
memcpy-written (d ∷ done) source (suc offset) size n e s =
    rw (memcpy-written done source offset size n (omega arith) s) refl

string_in-written : (s : Bytes) → lacks 0 s ≡ true → string_in (written (s ++ 0 ∷ []) 0) ≡ ok s
unfolding string_in
string_in-written [] h = refl
string_in-written (c ∷ s) h =
    let rest : lacks 0 s ≡ true = ground arith in
    let some_byte : (c == 0) ≡ false = ground arith in rw (some_byte, string_in-written s rest) refl

-- The text of a handler.
abbrev pub entry : Bytes → Bytes → Bytes → Bytes
entry ltime name msg = codes "[" ++ ltime ++ codes "][" ++ name ++ codes "] " ++ msg

-- The text that `_call_handler` makes of a time, a name and a message without a NUL: each piece is
-- written inside the block, none over another, and the string in it is `[time][name] message`.
pub full-entry :
    (ltime name msg : Bytes)
    → lacks 0 (entry ltime name msg) ≡ true
    → full ltime name msg ≡ ok (entry ltime name msg)
unfolding full
full-entry ltime name msg h =
    let d1 : Bytes = codes "[" in
    let d2 : Bytes = d1 ++ ltime in
    let d3 : Bytes = d2 ++ codes "][" in
    let d4 : Bytes = d3 ++ name in
    let d5 : Bytes = d4 ++ codes "] " in
    let d6 : Bytes = d5 ++ msg in
    let s1 = length ltime in
    let s2 = length name in
    let s3 = length msg in
    let total = s1 + s2 + s3 + 5 in
    let e1 : memcpy (malloc (total + 1)) 0 d1 ≡ ok (written d1 total) =
      memcpy-malloc d1 (total + 1) total (omega arith) in
    let e2 : memcpy (written d1 total) 1 ltime ≡ ok (written d2 (s2 + s3 + 5)) =
      memcpy-written d1 ltime 1 total (s2 + s3 + 5) refl (omega arith) in
    let l2 : length d2 ≡ 1 + s1 = omega (arith, length-append d1 ltime) in
    let e3 : memcpy (written d2 (s2 + s3 + 5)) (1 + s1) (codes "][")
        ≡ ok (written d3 (s2 + s3 + 3)) =
      memcpy-written d2 (codes "][") (1 + s1) _ (s2 + s3 + 3) (sym l2) (omega arith) in
    let l3 : length d3 ≡ 3 + s1 = omega (arith, length-append d2 (codes "]["), l2) in
    let e4 : memcpy (written d3 (s2 + s3 + 3)) (3 + s1) name ≡ ok (written d4 (s3 + 3)) =
      memcpy-written d3 name (3 + s1) _ (s3 + 3) (sym l3) (omega arith) in
    let l4 : length d4 ≡ 3 + s1 + s2 = omega (arith, length-append d3 name, l3) in
    let e5 : memcpy (written d4 (s3 + 3)) (3 + s1 + s2) (codes "] ") ≡ ok (written d5 (s3 + 1)) =
      memcpy-written d4 (codes "] ") (3 + s1 + s2) _ (s3 + 1) (sym l4) (omega arith) in
    let l5 : length d5 ≡ 5 + s1 + s2 = omega (arith, length-append d4 (codes "] "), l4) in
    let e6 : memcpy (written d5 (s3 + 1)) (5 + s1 + s2) msg ≡ ok (written d6 1) =
      memcpy-written d5 msg (5 + s1 + s2) _ 1 (sym l5) (omega arith) in
    let l6 : length d6 ≡ total = omega (arith, length-append d5 msg, l5) in
    let e7 : memcpy (written d6 1) total (0 ∷ []) ≡ ok (written (d6 ++ 0 ∷ []) 0) =
      memcpy-written d6 (0 ∷ []) total 1 0 (sym l6) refl in
    let text : d6 ≡ entry ltime name msg = simp append_assoc in
    let whole : lacks 0 d6 ≡ true = ap (lacks 0) text ∙ h in
    rw (e1, e2, e3, e4, e5, e6, e7, string_in-written d6 whole) (ap ok text)
