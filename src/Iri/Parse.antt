-- ===== src/Iri/Parse.antt =====
-- src/iri.c, `ta_iri_set_from_string`. A pointer into the string is the suffix that starts there,
-- so that a loop over it is a recursion and a difference of pointers one of lengths. `top` is the
-- address of the terminating NUL: the size of the host is computed from addresses, NULL included.
pub mod Pieces
pub mod Authority
pub mod RoundTrip
pub mod AuthorityParts
pub mod Errors
pub mod Opaque
use taningia.Base.{
  true, ℕ, suc, ◌+◌, ◌-◌, ◌%◌, ◌^◌, Bool, not, ◌&&◌, ◌||◌, Option, none, some, [], ◌∷◌, ltb, ◌==◌,
  if◌then◌else◌, length,
}
use taningia.Base.CString.{
  Bytes, Text, codes, deref, next, is_alpha, is_digit, is_alnum, strchr, strndup, distance,
  digits_value,
}
use taningia.Base.Int.{ℤ, pos, negsuc}
use taningia.Base.Run.{Run, ok, fault, ◌>>=◌}
use taningia.Error.{Global, report, ta_iri_parsing_error, ta_ok, ta_error}
use taningia.Iri.{Iri}

unfoldable pub is_scheme_char : ℕ → Bool
is_scheme_char c = is_alnum c || (c == b'-' || c == b'+' || c == b'.')

-- The scheme loop: the pointer to the colon, `none` at a character that no scheme has. The NUL is
-- such a character.
unfoldable pub scan_scheme : Bytes → Option Bytes
unfolding is_scheme_char
scan_scheme [] = none
scan_scheme (c ∷ cs) =
    if c == b':' then some (c ∷ cs) else if is_scheme_char c then scan_scheme cs else none

-- The local pointers `query` and `fragment`: behind the question mark; behind the number sign if
-- there is a query, and else at it.
pub record Marks : Type 0 where
  pub query : Option Bytes
  pub fragment : Option Bytes

abbrev pub step {ℓ} : {A : Type ℓ} → Option A → (A → A) → Option A
step none f = none
step (some a) f = some (f a)

unfoldable pub find_marks : Bytes → Marks
find_marks p = elim (strchr p b'?') [
  | some q ↦ record { query = some (next q); fragment = step (strchr (next q) b'#') next }
  | none ↦ record { query = none; fragment = strchr p b'#' }
]

-- The assignments to `iri->query` and `iri->fragment`.
unfoldable pub set_marks : Marks → Iri → Iri
set_marks m iri = elim m.query [
  | some q ↦ (elim m.fragment [
    | some f ↦ record iri { query = some (strndup q (distance q f - 1)); fragment = some f }
    | none ↦ record iri { query = some q }
  ])
  | none ↦ (elim m.fragment [ some f ↦ record iri { fragment = some (next f) } | none ↦ iri ])
]

-- The port loop: the pointer to a colon before any query or fragment.
unfoldable pub find_port : Bytes → Option Bytes
find_port [] = none
find_port (c ∷ cs) =
    if c == b':' then some (c ∷ cs) else if c == b'?' || c == b'#' then none else find_port cs

-- `port_len`
unfoldable pub count_digits : Bytes → ℕ
count_digits [] = 0
count_digits (c ∷ cs) = if is_digit c then suc (count_digits cs) else 0

-- `atoi` of a text of digits; C gives it no meaning where the value is no `int`.
unfoldable pub atoi : Bytes → Run ℤ
atoi s = if ltb (digits_value s) (2 ^ 31) then ok (pos (digits_value s)) else fault

-- `path_len`
unfoldable pub count_path : Bytes → ℕ
count_path [] = 0
count_path (c ∷ cs) = if c == b'?' || c == b'#' then 0 else suc (count_path cs)

-- The address of a pointer into the string.
abbrev pub address : ℕ → Bytes → ℕ
address top p = top - length p

-- `host_end`, as an address.
unfoldable pub host_end : ℕ → Option Bytes → Marks → Option Bytes → ℕ
host_end top port m path = elim port [
  | some p ↦ address top p
  | none ↦ (elim m.query [
    | some q ↦ address top q - 1
    | none ↦ (elim m.fragment [
      | some f ↦ address top f
      | none ↦ (elim path [ some p ↦ address top p | none ↦ 0 ])
    ])
  ])
]

-- `p - q - 1` on addresses, converted to `size_t`.
unfoldable pub host_size : ℕ → ℕ → ℕ
host_size p q = (p + 2 ^ 64 - q + 2 ^ 64 - 1) % 2 ^ 64

-- An `int` passed as a `size_t`.
unfoldable pub int_to_size : ℕ → ℕ
int_to_size n = let m = n % 2 ^ 32 in if ltb m (2 ^ 31) then m else m + 2 ^ 64 - 2 ^ 32

-- The state after the call, and the message of the error that it reports, if any.
abbrev pub Outcome : Type 0
Outcome = Run (Iri × Text)

unfoldable pub set_port_from : Option Bytes → Iri → Outcome
unfolding count_digits atoi
set_port_from none iri = ok (iri, none)
set_port_from (some port) iri =
    let len = count_digits (next port) in
    if len == 0
    then ok (iri, some (codes "Invalid port number"))
    else (do n ← atoi (strndup (next port) len); ok (record iri { port = n }, none))

unfoldable pub set_path_from : Option Bytes → Iri → Iri × Text
unfolding count_path
set_path_from none iri = (iri, none)
set_path_from (some path) iri =
    if not (deref path == b'/')
    then (iri, some (codes "Path should start with a '/' since authority section was filled"))
    else (record iri { path = some (strndup path (count_path path)) }, none)

-- `iri->user`, where there is an at sign.
unfoldable pub set_user_from : Bytes → Option Bytes → Iri → Iri
set_user_from hier none iri = iri
set_user_from hier (some at) iri = record iri { user = some (strndup hier (distance hier at)) }

-- `userinfo ? userinfo + 1 : ihier_part`
unfoldable pub host_start : Bytes → Option Bytes → Bytes
host_start hier none = hier
host_start hier (some at) = next at

-- `userinfo ? userinfo : ihier_part - 1`, as an address.
unfoldable pub before_host : ℕ → Bytes → Option Bytes → ℕ
before_host top hier none = address top hier - 1
before_host top hier (some at) = address top at

-- The host, the last part to be set, unless the path reported an error.
unfoldable pub set_host_from :
    ℕ → Bytes → Marks → Option Bytes → Option Bytes → Option Bytes → Iri × Text → Outcome
set_host_from top hier m userinfo port path (iri, some msg) = ok (iri, some msg)
set_host_from top hier m userinfo port path (iri, none) =
    let len = host_size (host_end top port m path) (before_host top hier userinfo) in
    ok (record iri { host = some (strndup (host_start hier userinfo) len) }, none)

-- `path_len` is an `int`, and its overflow is a fault.
unfoldable pub path_fits : Option Bytes → Bool
unfolding count_path
path_fits none = true
path_fits (some path) = ltb (count_path path) (2 ^ 31)

-- The path and the host, unless the port reported an error.
unfoldable pub set_path_and_host :
    ℕ → Bytes → Marks → Option Bytes → Option Bytes → Iri × Text → Outcome
set_path_and_host top hier m userinfo port (iri, some msg) = ok (iri, some msg)
set_path_and_host top hier m userinfo port (iri, none) =
    let path = strchr hier b'/' in
    if path_fits path
    then set_host_from top hier m userinfo port path (set_path_from path iri)
    else fault

-- The authority, `hier` being behind the two slashes.
unfoldable pub set_authority : ℕ → Bytes → Marks → Iri → Outcome
set_authority top hier m iri =
    let userinfo = strchr hier b'@' in
    let port = find_port (host_start hier userinfo) in
    set_port_from port (set_user_from hier userinfo iri)
    >>= set_path_and_host top hier m userinfo port

-- The other branch, for an IRI with no authority.
unfoldable pub set_opaque_path : Bytes → Marks → Iri → Iri
unfolding int_to_size
set_opaque_path hier m iri = elim m.query [
  | some q ↦ record iri { path = some (strndup hier (int_to_size (distance hier q - 1))) }
  | none ↦ (elim m.fragment [
    | some f ↦ record iri { path = some (strndup hier (distance hier f)) }
    | none ↦ record iri { path = some hier }
  ])
]

-- What follows the scheme, `p` being at the colon.
unfoldable pub set_rest : ℕ → Bytes → Iri → Outcome
set_rest top p iri =
    let m = find_marks p in
    let marked = set_marks m iri in
    let hier = next p in
    if deref hier == b'/' && deref (next hier) == b'/'
    then set_authority top (next (next hier)) m marked
    else ok (set_opaque_path hier m marked, none)

-- The function without its report of the error.
unfoldable pub parse : ℕ → Bytes → Iri → Outcome
unfolding scan_scheme set_rest find_marks set_marks set_authority set_opaque_path find_port
    set_port_from set_user_from host_start set_path_and_host set_path_from path_fits set_host_from
    host_end host_size before_host
parse top string iri =
    if not (is_alpha (deref string))
    then ok (iri, some (codes "Schema should start with an alpha char"))
    else (elim (scan_scheme string) [
      | none ↦ ok (iri, some (codes "Schema should only have the following chars: [a-Z][0-9][-+.]"))
      | some p ↦ set_rest top p (record iri { scheme = some (strndup string (distance string p)) })
    ])

-- `ta_iri_set_from_string`: the new state of the IRI and of the thread's errors, and the result.
unfoldable pub set_from_string : ℕ → Bytes → Iri → Global → Run (Iri × Global × ℤ)
unfolding parse
set_from_string top string iri g = do
  (iri', e) ← parse top string iri
  elim e [
    | none ↦ ok (iri', g, ta_ok)
    | some msg ↦ do g' ← report ta_iri_parsing_error msg g; ok (iri', g', ta_error)
  ]
