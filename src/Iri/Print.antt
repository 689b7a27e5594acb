-- ===== src/Iri/Print.antt =====
-- src/iri.c, `ta_iri_to_string`: the size of the buffer, the texts copied into it one behind the
-- other, and the four bytes that `sprintf` has for the port.
pub mod Digits
pub mod Layout
use taningia.Base.{
  ◌^◌, ℕ, zero, suc, ◌+◌, ◌/◌, ◌%◌, Bool, true, false, not, ◌&&◌, none, some, List, [], ◌∷◌, ◌++◌,
  leb, ltb, ◌==◌, if◌then◌else◌, is_some, length,
}
use taningia.Base.CString.{Bytes, Text, codes}
use taningia.Base.Int.{ℤ, pos, negsuc}
use taningia.Base.Run.{Run, ok, fault, ◌>>=◌}
use taningia.Object.{is_zero}
use taningia.Iri.{Iri}

-- The digits of `n`, in front of `out`; a round drops a digit, so `n` rounds are enough.
unfoldable pub digits : ℕ → ℕ → Bytes → Bytes
digits zero n out = out
digits (suc fuel) n out =
    let rest = digits fuel (n / 10) ((b'0' + n % 10) ∷ out) in if n == 0 then out else rest

-- `%d`
unfoldable pub decimal : ℤ → Bytes
unfolding digits
decimal (pos n) = if n == 0 then codes "0" else digits n n []
decimal (negsuc n) = b'-' ∷ digits (suc n) (suc n) []

-- `iri->x ? strlen (iri->x) : 0`
abbrev pub size : Text → ℕ
size none = 0
size (some s) = length s

abbrev pub one_if : Bool → ℕ
one_if b = if b then 1 else 0

unfoldable pub static_part : Iri → ℕ
static_part iri =
    3
    + 4
    + one_if (is_some iri.user)
    + one_if (not (is_zero iri.port))
    + one_if (is_some iri.query)
    + one_if (is_some iri.fragment)

-- `rlen`, the bytes allocated for the result.
unfoldable pub rlen : Iri → ℕ
unfolding static_part
rlen iri =
    size iri.scheme
    + size iri.user
    + size iri.host
    + size iri.path
    + size iri.query
    + size iri.fragment
    + static_part iri
    + 1

-- The copies that the code makes for a text that is not NULL, a mark before or behind it.
abbrev pub copy_text : Text → List Bytes
copy_text none = []
copy_text (some s) = s ∷ []

abbrev pub copy_before : Bytes → Text → List Bytes
copy_before mark none = []
copy_before mark (some s) = mark ∷ s ∷ []

abbrev pub copy_behind : Text → Bytes → List Bytes
copy_behind none mark = []
copy_behind (some s) mark = s ∷ mark ∷ []

unfoldable pub separator : Iri → List Bytes
separator iri =
    (if is_some iri.host && is_some iri.scheme then codes "://" ∷ [] else [])
    ++ (if is_some iri.host then [] else codes ":" ∷ [])

-- `sprintf (port, "%d", iri->port)` into `char port[4]`: the digits and the NUL must fit.
unfoldable pub copy_port : ℤ → Run (List Bytes)
copy_port port =
    if is_zero port
    then ok []
    else if leb (length (decimal port) + 1) 4
    then ok (codes ":" ∷ decimal port ∷ [])
    else fault

-- The sources of the calls of `memcpy`, in order.
unfoldable pub copies : Iri → Run (List Bytes)
unfolding separator copy_port
copies iri = do
  port ← copy_port iri.port
  ok (
      copy_text iri.scheme
      ++ separator iri
      ++ copy_behind iri.user (codes "@")
      ++ copy_text iri.host
      ++ port
      ++ copy_text iri.path
      ++ copy_before (codes "?") iri.query
      ++ copy_before (codes "#") iri.fragment)

-- `memcpy (ret + position, src, size)` for each source, and `position += size`: `out` holds `ret` up
-- to `position`, an `int` whose overflow is a fault.
unfoldable pub write_all : ℕ → List Bytes → Bytes → Run Bytes
write_all room [] out = ok out
write_all room (src ∷ srcs) out =
    let rest = write_all room srcs (out ++ src) in
    if leb (length out + length src) room && ltb (length out + length src) (2 ^ 31)
    then rest
    else fault

-- `ta_iri_to_string`; the last write is that of the NUL.
unfoldable pub to_string : Iri → Run Bytes
unfolding rlen copies write_all
to_string iri = do
  srcs ← copies iri
  out ← write_all (rlen iri) srcs []
  if ltb (length out) (rlen iri) then ok out else fault
