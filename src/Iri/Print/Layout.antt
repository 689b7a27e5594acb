-- ===== src/Iri/Print/Layout.antt =====
-- What `ta_iri_to_string` writes, and when it fits.
use taningia.Base.{
  ℕ, zero, suc, ◌+◌, ◌^◌, ◌≤◌, ◌<◌, ◌≡◌, refl, ap, ◌∙◌, inl, inr, Bool, true, false, not, none,
  some, List, [], ◌∷◌, ◌++◌, append-nil, append_assoc, arith, leb, ltb, ◌==◌, if◌then◌else◌,
  is_some, length, length-append, Bool-cases,
}
use taningia.Base.CString.{Bytes, Text, codes}
use taningia.Base.Int.{ℤ, pos, negsuc}
use taningia.Base.Run.{ok, fault}
use taningia.Object.{is_zero}
use taningia.Iri.{Iri}
use taningia.Iri.Print.{
  digits, decimal, size, one_if, static_part, rlen, copy_text, copy_before, copy_behind, separator,
  copy_port, copies, write_all, to_string,
}
use taningia.Iri.Print.Digits.{length-digits_le, length-digits_ge}

-- The copies joined.
abbrev pub joined : List Bytes → Bytes
joined [] = []
joined (s ∷ ss) = s ++ joined ss

pub joined-append : (ss ts : List Bytes) → joined (ss ++ ts) ≡ joined ss ++ joined ts
joined-append [] ts = refl
joined-append (s ∷ ss) ts = rw (joined-append ss ts, append_assoc)

write_all_lem :
    (room : ℕ) (srcs : List Bytes) (out : Bytes)
    → length out + length (joined srcs) ≤ room
    → length out + length (joined srcs) < 2 ^ 31
    → write_all room srcs out ≡ ok (out ++ joined srcs)
unfolding write_all
write_all_lem room [] out h b = rw append-nil
write_all_lem room (s ∷ ss) out h b =
    let len = length-append s (joined ss) in
    let fits : leb (length out + length s) room ≡ true = ground (arith, len) in
    let below : ltb (length out + length s) (2 ^ 31) ≡ true = ground (arith, len) in
    rw (fits, below)
      (write_all_lem room ss (out ++ s) (omega (arith, len, length-append out s))
          (omega (arith, len, length-append out s))
        ∙ ap ok (append_assoc out s (joined ss)))

-- Ports that `sprintf` can print into four bytes.
abbrev pub is_printable : ℤ → Bool
is_printable (pos n) = ltb n 1000
is_printable (negsuc n) = ltb n 99

-- The syntax: `scheme://user@host:port/path?query#fragment`, with a lone colon where there is no
-- host and no slashes where there is no scheme.
abbrev pub text : Text → Bytes
text none = []
text (some s) = s

abbrev pub before : Bytes → Text → Bytes
before mark none = []
before mark (some s) = mark ++ s

abbrev pub behind : Text → Bytes → Bytes
behind none mark = []
behind (some s) mark = s ++ mark

abbrev pub delimiter : Text → Text → Bytes
delimiter scheme none = codes ":"
delimiter none (some h) = []
delimiter (some s) (some h) = codes "://"

abbrev pub port_text : ℤ → Bytes
port_text port = if is_zero port then [] else codes ":" ++ decimal port

abbrev pub render : Iri → Bytes
render iri =
    text iri.scheme
    ++ delimiter iri.scheme iri.host
    ++ behind iri.user (codes "@")
    ++ text iri.host
    ++ port_text iri.port
    ++ text iri.path
    ++ before (codes "?") iri.query
    ++ before (codes "#") iri.fragment

pub decimal_pos : (n : ℕ) → decimal (pos (suc n)) ≡ digits (suc n) (suc n) []
unfolding decimal
decimal_pos n = let e : (suc n == 0) ≡ false = ground arith in rw e

length-decimal_le : (port : ℤ) → is_printable port ≡ true → length (decimal port) ≤ 3
unfolding decimal
length-decimal_le (pos zero) h = omega arith
length-decimal_le (pos (suc n)) h =
    rw (decimal_pos n) (length-digits_le 3 (suc n) (suc n) [] (omega arith) (ground arith))
length-decimal_le (negsuc n) h =
    let small : suc n < 10 ^ 2 = ground arith in
    omega (arith, length-digits_le 2 (suc n) (suc n) [] (omega arith) small)

length-decimal_ge : (port : ℤ) → is_printable port ≡ false → 4 ≤ length (decimal port)
unfolding decimal
length-decimal_ge (pos zero) h = cc
length-decimal_ge (pos (suc n)) h =
    let big : 10 ^ 3 ≤ suc n = ground arith in
    rw (decimal_pos n) (length-digits_ge 3 (suc n) (suc n) [] (omega arith) big)
length-decimal_ge (negsuc n) h =
    let big : 10 ^ 2 ≤ suc n = ground arith in
    omega (arith, length-digits_ge 2 (suc n) (suc n) [] (omega arith) big)

-- The copies of a port that can be printed.
abbrev port_copies : ℤ → List Bytes
port_copies port = if is_zero port then [] else codes ":" ∷ decimal port ∷ []

copy_port_lem : (port : ℤ) → is_printable port ≡ true → copy_port port ≡ ok (port_copies port)
unfolding copy_port
copy_port_lem port h =
    let fits : leb (length (decimal port) + 1) 4 ≡ true =
      ground (arith, length-decimal_le port h) in
    rw fits (ground arith)

copy_port_fault : (port : ℤ) → is_printable port ≡ false → copy_port port ≡ fault
unfolding copy_port
copy_port_fault (pos zero) h = cc
copy_port_fault port h =
    let fits : leb (length (decimal port) + 1) 4 ≡ false =
      ground (arith, length-decimal_ge port h) in
    rw fits (ground arith)

joined-port_copies : (port : ℤ) → joined (port_copies port) ≡ port_text port
joined-port_copies port = elim (Bool-cases (is_zero port)) [
  | inl e ↦ rw e
  | inr e ↦ rw (e, append-nil)
]

-- The copies, with those of the port given.
abbrev copies_with : Iri → List Bytes → List Bytes
copies_with iri port =
    copy_text iri.scheme
    ++ separator iri
    ++ copy_behind iri.user (codes "@")
    ++ copy_text iri.host
    ++ port
    ++ copy_text iri.path
    ++ copy_before (codes "?") iri.query
    ++ copy_before (codes "#") iri.fragment

joined-copy_text : (t : Text) → joined (copy_text t) ≡ text t
joined-copy_text none = refl
joined-copy_text (some s) = append-nil s

joined-copy_before : (mark : Bytes) (t : Text) → joined (copy_before mark t) ≡ before mark t
joined-copy_before mark none = refl
joined-copy_before mark (some s) = rw append-nil

joined-copy_behind : (t : Text) (mark : Bytes) → joined (copy_behind t mark) ≡ behind t mark
joined-copy_behind none mark = refl
joined-copy_behind (some s) mark = rw append-nil

joined-separator : (iri : Iri) → joined (separator iri) ≡ delimiter iri.scheme iri.host
unfolding separator
joined-separator iri = ground arith

joined-copies_with :
    (iri : Iri) (port : List Bytes)
    → joined port ≡ port_text iri.port
    → joined (copies_with iri port) ≡ render iri
joined-copies_with iri port e =
    simp
      (joined-append, joined-copy_text, joined-copy_before, joined-copy_behind, joined-separator, e)

length-text : (t : Text) → length (text t) ≡ size t
length-text none = refl
length-text (some s) = refl

length-before : (c : ℕ) (t : Text) → length (before (c ∷ []) t) ≡ size t + one_if (is_some t)
length-before c none = omega arith
length-before c (some s) = omega arith

length-behind : (t : Text) (c : ℕ) → length (behind t (c ∷ [])) ≡ size t + one_if (is_some t)
length-behind none c = omega arith
length-behind (some s) c = omega (arith, length-append s (c ∷ []))

length-port_text :
    (port : ℤ)
    → is_printable port ≡ true
    → length (port_text port) ≤ 3 + one_if (not (is_zero port))
length-port_text port h = ground (arith, length-decimal_le port h)

length-delimiter : (scheme host : Text) → length (delimiter scheme host) ≤ 3
length-delimiter scheme none = omega arith
length-delimiter none (some h) = omega arith
length-delimiter (some s) (some h) = omega arith

-- The result of every IRI with a printable port, its NUL included, fits into `rlen` bytes.
length-render : (iri : Iri) → is_printable iri.port ≡ true → length (render iri) < rlen iri
unfolding rlen static_part
length-render iri h = simp length-append (
    omega (
      arith,
      length-text iri.scheme,
      length-text iri.host,
      length-text iri.path,
      length-before b'?' iri.query,
      length-before b'#' iri.fragment,
      length-behind iri.user b'@',
      length-port_text iri.port h,
      length-delimiter iri.scheme iri.host,
    ))

-- `ta_iri_to_string` of any IRI whose port has at most three characters (-99 to 999) and whose parts
-- and marks have fewer than 2^31 bytes together writes the scheme, the delimiter, the user, the host,
-- the port, the path, the query and the fragment that are set, each with its mark, stays inside the
-- bytes that it allocates, and does not overflow its position.
pub to_string-render :
    (iri : Iri)
    → is_printable iri.port ≡ true
    → length (render iri) < 2 ^ 31
    → to_string iri ≡ ok (render iri)
unfolding to_string copies
to_string-render iri h b =
    let srcs = copies_with iri (port_copies iri.port) in
    let whole : joined srcs ≡ render iri =
      joined-copies_with iri (port_copies iri.port) (joined-port_copies iri.port) in
    let small = length-render iri h in
    let written : write_all (rlen iri) srcs [] ≡ ok (render iri) =
      write_all_lem (rlen iri) srcs [] (rw whole (omega arith)) (rw whole (omega arith))
      ∙ ap ok whole in
    let room : ltb (length (render iri)) (rlen iri) ≡ true = ground arith in
    rw (copy_port_lem iri.port h) (rw written (rw room))

-- A port of four characters or more, as the XMPP port 5222, is written past the end of the four
-- bytes that `ta_iri_to_string` has for it.
to_string-long_port : (iri : Iri) → is_printable iri.port ≡ false → to_string iri ≡ fault
unfolding to_string copies
to_string-long_port iri h = rw (copy_port_fault iri.port h)
