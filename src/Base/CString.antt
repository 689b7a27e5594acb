-- ===== src/Base/CString.antt =====
-- C strings: the bytes before the terminating NUL, and the functions of string.h, ctype.h and
-- stdlib.h that the library calls. A pointer into a string is the suffix that starts there.
use Prim.Native.Char.{code}
use Prim.Native.Nat.{ℕ, ◌+◌, ◌-◌, ◌*◌}
use Prim.Native.String.{String}
use mathlib.Core.Bool.{Bool, true, not, ◌&&◌, ◌||◌}
use mathlib.Core.Option.{Option, none, some}
use mathlib.Core.List.{List, [], ◌∷◌, ◌++◌, foldl}
use mathlib.Core.Path.{◌≡◌, refl}
use native.Mathlib.Omega.{arith}
use taningia.Base.Tests.{leb, ◌==◌, if◌then◌else◌}
use taningia.Base.Lists.{length, take}

abbrev pub Bytes : Type 0
Bytes = List ℕ

-- A `char *` that may be NULL.
abbrev pub Text : Type 0
Text = Option Bytes

-- The bytes of an ASCII literal.
abbrev pub codes : String → Bytes
codes String.[] = []
codes (String.◌∷◌ c s) = code c ∷ codes s

-- `*p`, which is 0 at the end of the string.
abbrev pub deref : Bytes → ℕ
deref [] = 0
deref (c ∷ cs) = c

-- `p + 1`
abbrev pub next : Bytes → Bytes
next [] = []
next (c ∷ cs) = cs

abbrev pub is_alpha : ℕ → Bool
is_alpha c = (leb b'a' c && leb c b'z') || (leb b'A' c && leb c b'Z')

abbrev pub is_digit : ℕ → Bool
is_digit c = leb b'0' c && leb c b'9'

abbrev pub is_alnum : ℕ → Bool
is_alnum c = is_alpha c || is_digit c

-- `strchr` for a character that is not NUL.
abbrev pub strchr : Bytes → ℕ → Option Bytes
strchr [] k = none
strchr (c ∷ cs) k = if c == k then some (c ∷ cs) else strchr cs k

-- `strndup`: at most `n` bytes, and no further than the NUL.
abbrev pub strndup : Bytes → ℕ → Bytes
strndup s n = take n s

-- `p - q` for a pointer `p` into the string that starts at `q`.
abbrev pub distance : Bytes → Bytes → ℕ
distance q p = length q - length p

abbrev pub digits_value : Bytes → ℕ
digits_value = foldl (λ n c. n * 10 + (c - b'0')) 0

-- No byte of the string is `k`.
abbrev pub lacks : ℕ → Bytes → Bool
lacks k [] = true
lacks k (c ∷ cs) = not (c == k) && lacks k cs

pub strchr-lacks : (s : Bytes) (k : ℕ) → lacks k s ≡ true → strchr s k ≡ none
strchr-lacks [] k h = refl
strchr-lacks (c ∷ cs) k h = ground (arith, strchr-lacks cs k)

pub strchr-append : (s t : Bytes) (k : ℕ) → lacks k s ≡ true → strchr (s ++ t) k ≡ strchr t k
strchr-append [] t k h = refl
strchr-append (c ∷ cs) t k h = ground (arith, strchr-append cs t k)

pub lacks-append : (s t : Bytes) (k : ℕ) → lacks k (s ++ t) ≡ (lacks k s && lacks k t)
lacks-append [] t k = refl
lacks-append (c ∷ cs) t k = ground (arith, lacks-append cs t k)
