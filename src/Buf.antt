-- ===== src/Buf.antt =====
-- src/buf.c: the growing string buffer. The memory behind `ptr` is a list of bytes as long as the
-- allocation, `none` being a byte that was never written. `mem` says which sizes `realloc` can give.
pub mod Growth
pub mod Contents
pub mod Strings
pub mod Format
use taningia.Base.{
  ℕ, zero, suc, ◌+◌, ◌-◌, ◌*◌, ◌/◌, ◌^◌, Bool, false, ◌||◌, Option, none, some, List, [], ◌∷◌, ◌++◌,
  map, leb, ltb, ◌==◌, if◌then◌else◌, length, take, drop, replicate,
}
use taningia.Base.CString.{Bytes}
use taningia.Base.Int.{ℤ, pos, negsuc}
use taningia.Base.Run.{Run, ok, fault, ◌>>=◌}
use taningia.Error.{Printer, ta_ok, ta_error}

abbrev pub Memory : Type 0
Memory = List (Option ℕ)

-- `ta_buf_t`
pub record Buf : Type 0 where
  pub ptr : Option Memory
  pub string_length : ℕ
  pub allocated_size : ℕ

-- `TA_BUF_INIT`
abbrev pub empty : Buf
empty = record { ptr = none; string_length = 0; allocated_size = 0 }

-- A value of type `int`; C gives an overflow no meaning.
abbrev pub int : ℕ → Run ℕ
int n = if ltb n (2 ^ 31) then ok n else fault

-- The loop that multiplies by 1.5. It runs out of fuel, here a fault, only where it is given less
-- than the distance to the requested size.
unfoldable pub grow : ℕ → ℕ → ℕ → Run ℕ
grow zero requested size = if ltb size requested then fault else ok size
grow (suc fuel) requested size =
    let rest = (do twice ← int (size * 2); grow fuel requested (twice - size / 2)) in
    if ltb size requested then rest else ok size

-- `(size + 7) & ~7`
unfoldable pub align : ℕ → Run ℕ
align size = do n ← int (size + 7); ok (n / 8 * 8)

-- `realloc`: the old bytes, and new ones that hold nothing yet.
unfoldable pub resize : Option Memory → ℕ → Memory
resize none size = replicate size none
resize (some m) size = take size m ++ replicate (size - length m) none

-- The size that `_buf_realloc` asks for, where it asks.
unfoldable pub new_size : ℕ → ℕ → Run ℕ
unfolding grow align
new_size requested size = do
  n ← grow requested requested (if size == 0 then requested else size)
  align n

-- `_buf_realloc`
unfoldable pub buf_realloc : (ℕ → Bool) → Buf → ℕ → Run (Buf × ℤ)
buf_realloc mem b requested =
    if requested == 0 || leb requested b.allocated_size then ok (b, ta_ok) else (do
      size ← new_size requested b.allocated_size
      if mem size
          then ok (record b { ptr = some (resize b.ptr size); allocated_size = size }, ta_ok)
          else ok (b, ta_error))

-- `ta_buf_alloc`, which ignores the result of `_buf_realloc`. A negative size is not greater than
-- the zero bytes that are allocated.
unfoldable pub alloc : (ℕ → Bool) → ℤ → Run Buf
unfolding buf_realloc
alloc mem (pos n) = do (b, status) ← buf_realloc mem empty n; ok b
alloc mem (negsuc n) = ok empty

-- `ta_buf_dealloc`; the block is given back with its pointer.
unfoldable pub dealloc : Buf → Buf
dealloc b = record { ptr = none; string_length = 0; allocated_size = 0 }

-- The bytes `src` written at an offset: outside the block is a fault.
unfoldable pub store : ℕ → Memory → Option Memory → Run (Option Memory)
store at [] m = ok m
store at (c ∷ src) none = fault
store at (c ∷ src) (some m) =
    if leb (at + length (c ∷ src)) (length m)
    then ok (some (take at m ++ (c ∷ src) ++ drop (at + length (c ∷ src)) m))
    else fault

-- What `vsnprintf` leaves at `ptr + string_length`: nothing where it has no room, else what it
-- printed and a NUL. The room is a `size_t`, so a negative one is larger than any block.
unfoldable pub print_at : Buf → Bytes → Run (Option Memory)
print_at b msg =
    if b.string_length == b.allocated_size
    then ok b.ptr
    else store b.string_length (map some msg ++ some 0 ∷ []) b.ptr

abbrev pub room : Buf → ℕ
room b =
    if leb b.string_length b.allocated_size
    then b.allocated_size - b.string_length
    else b.allocated_size + 2 ^ 64 - b.string_length

-- A call of `_buf_realloc`, and what follows if it gives the memory.
abbrev pub with_memory : (ℕ → Bool) → Buf → ℕ → (Buf → Run (Buf × ℤ)) → Run (Buf × ℤ)
with_memory mem b requested k = do
  (b, status) ← buf_realloc mem b requested
  elim status [ negsuc n ↦ ok (b, ta_error) | pos n ↦ k b ]

-- `ta_buf_cat` behind the allocation: the text, then the NUL.
unfoldable pub put : Buf → Bytes → Run (Buf × ℤ)
unfolding store
put b s = do
  moved ← store b.string_length (map some s) b.ptr
  ended ← store (b.string_length + length s) (some 0 ∷ []) moved
  ok (record b { ptr = ended; string_length = b.string_length + length s }, ta_ok)

-- `ta_buf_cat`
unfoldable pub cat : (ℕ → Bool) → Buf → Bytes → Run (Buf × ℤ)
unfolding put
cat mem b s = do
  s_size ← int (length s)
  requested ← int (b.string_length + s_size + 1)
  with_memory mem b requested (λ b. put b s)

-- `string_length += n`, with `none` for the -1 of a failure. A negative length moves the pointer
-- out of the block.
abbrev pub advance : ℕ → Option ℕ → Run ℕ
advance l (some n) = int (l + n)
advance zero none = fault
advance (suc l) none = ok l

-- `n > -1 && n <= b->string_length`, behind the addition.
abbrev pub is_done : Option ℕ → ℕ → Bool
is_done none l = false
is_done (some n) l = leb n l

-- `allocated_size += n`; a request that is not positive allocates nothing, like one of 0.
abbrev pub request : ℕ → Option ℕ → Run ℕ
request size none = ok (size - 1)
request size (some n) = int (size + n)

-- The loop of `ta_buf_vcatf`; running out of fuel is a fault.
unfoldable pub vcatf_loop : ℕ → (ℕ → Bool) → Printer → Buf → ℕ → Run (Buf × ℤ)
vcatf_loop zero mem print b size = fault
vcatf_loop (suc fuel) mem print b size =
    let (msg, n) = print (room b) in
    (do
      written ← print_at b msg
      l ← advance b.string_length n
      let b = record b { ptr = written; string_length = l }
      let again = (do
        more ← request size n
        with_memory mem b more (λ b. vcatf_loop fuel mem print b more))
      if is_done n l then ok (b, ta_ok) else again)

-- `ta_buf_vcatf`; the printer is `vsnprintf` for the format and its arguments.
unfoldable pub vcatf : (ℕ → Bool) → Buf → Bytes → Printer → Run (Buf × ℤ)
unfolding vcatf_loop
vcatf mem b format print = do
  size ← int (b.allocated_size + length format)
  with_memory mem b size (λ b. vcatf_loop (b.string_length + 2) mem print b size)

-- `ta_buf_catf`
unfoldable pub catf : (ℕ → Bool) → Buf → Bytes → Printer → Run (Buf × ℤ)
unfolding vcatf
catf mem b format print = vcatf mem b format print

-- `ta_buf_cstr`
unfoldable pub cstr : Buf → Option Memory
cstr b = b.ptr

-- What `strdup` reads: the bytes before the first NUL; a fault outside the block, or where a byte
-- holds nothing.
unfoldable pub read_string : Memory → Run Bytes
read_string [] = fault
read_string (none ∷ m) = fault
read_string (some c ∷ m) =
    let rest = (do s ← read_string m; ok (c ∷ s)) in if c == 0 then ok [] else rest

abbrev pub dup : Option Memory → Run Bytes
dup none = fault
dup (some m) = read_string m

-- `ta_buf_dump`, with memory for the copy.
unfoldable pub dump : Buf → Run (Buf × Option Bytes)
unfolding read_string dealloc
dump b =
    let copied = (do tmp ← dup b.ptr; ok (dealloc b, some tmp)) in
    if ltb 0 b.string_length then copied else ok (b, none)
