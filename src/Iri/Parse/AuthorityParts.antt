-- ===== src/Iri/Parse/AuthorityParts.antt =====
-- The loops of the authority section of `ta_iri_set_from_string` on a text that is put together
-- from a user, a host, a port, a path and the end of the IRI.
use mathlib.Core.List.{foldl}
use taningia.Base.{
  ℕ, zero, suc, ◌+◌, ◌-◌, ◌*◌, ◌/◌, ◌%◌, ◌^◌, ◌≤◌, ◌<◌, ◌≡◌, refl, ap, ◌∙◌, Bool, true, false, ◌&&◌,
  Option, none, some, [], ◌∷◌, ◌++◌, append_assoc, arith, ltb, ◌==◌, length, length-append,
}
use taningia.Base.CString.{
  Bytes, Text, codes, deref, is_digit, lacks, strchr, strchr-lacks, strchr-append,
}
use taningia.Base.Int.{pos}
use taningia.Base.Run.{ok, ◌>>=◌}
use taningia.Iri.{Iri}
use taningia.Iri.Parse.{
  find_port, count_digits, atoi, count_path, host_size, set_port_from, set_path_from, set_user_from,
  host_start, before_host,
}
use taningia.Iri.Parse.Pieces.{tail, strndup-append, distance-append}
use taningia.Iri.Print.{digits}
use taningia.Iri.Print.Digits.{digits_zero, digits_step, length-digits_ge}
use taningia.Iri.Print.Layout.{behind}

-- No byte of the text is one of the marks.
abbrev pub clean : Bytes → Bytes → Bool
clean [] s = true
clean (k ∷ ks) s = lacks k s && clean ks s

abbrev pub all_digits : Bytes → Bool
all_digits [] = true
all_digits (c ∷ cs) = is_digit c && all_digits cs

digits-all_digits :
    (fuel n : ℕ) (out : Bytes) → all_digits out ≡ true → all_digits (digits fuel n out) ≡ true
digits-all_digits fuel zero out h = rw digits_zero h
digits-all_digits zero (suc n) out h = unfold digits in h
digits-all_digits (suc fuel) (suc n) out h =
    rw (digits_step fuel (suc n) out (omega arith))
      (digits-all_digits fuel (suc n / 10) ((b'0' + suc n % 10) ∷ out) (ground arith))

abbrev value : ℕ → Bytes → ℕ
value = foldl (λ n c. n * 10 + (c - b'0'))

value-digits : (fuel n : ℕ) (out : Bytes) → n ≤ fuel → value 0 (digits fuel n out) ≡ value n out
value-digits fuel zero out h = rw digits_zero
value-digits zero (suc n) out h = absurd (omega arith)
value-digits (suc fuel) (suc n) out h =
    let e : suc n / 10 * 10 + (b'0' + suc n % 10 - b'0') ≡ suc n = omega arith in
    rw (digits_step fuel (suc n) out (omega arith)) (
      value-digits fuel (suc n / 10) ((b'0' + suc n % 10) ∷ out) (omega arith)
      ∙ ap (λ m. value m out) e)

-- The digits of a port, with the colon in front, or nothing for port 0.
abbrev pub port_digits : ℕ → Bytes
port_digits zero = []
port_digits (suc n) = digits (suc n) (suc n) []

pub port_digits-all_digits : (n : ℕ) → all_digits (port_digits n) ≡ true
port_digits-all_digits zero = refl
port_digits-all_digits (suc n) = digits-all_digits (suc n) (suc n) [] refl

lacks_of_all_digits :
    (s : Bytes) (k : ℕ) → is_digit k ≡ false → all_digits s ≡ true → lacks k s ≡ true
lacks_of_all_digits [] k h a = refl
lacks_of_all_digits (c ∷ cs) k h a = ground (arith, lacks_of_all_digits cs k)

pub lacks-port_digits : (n k : ℕ) → is_digit k ≡ false → lacks k (port_digits n) ≡ true
lacks-port_digits n k h = lacks_of_all_digits (port_digits n) k h (port_digits-all_digits n)

pub count_digits-append :
    (s rest : Bytes)
    → all_digits s ≡ true
    → is_digit (deref rest) ≡ false
    → count_digits (s ++ rest) ≡ length s
unfolding count_digits
count_digits-append [] [] a h = refl
count_digits-append [] (c ∷ cs) a h = ground arith
count_digits-append (c ∷ cs) rest a h = ground (arith, count_digits-append cs rest)

length-port_digits : (n : ℕ) → 0 < length (port_digits (suc n))
length-port_digits n =
    omega (arith, length-digits_ge 0 (suc n) (suc n) [] (omega arith) (omega arith))

atoi_lem : (n : ℕ) → suc n < 2 ^ 31 → atoi (port_digits (suc n)) ≡ ok (pos (suc n))
unfolding atoi
atoi_lem n h =
    let e = value-digits (suc n) (suc n) [] (omega arith) in
    let fits : ltb (suc n) (2 ^ 31) ≡ true = ground arith in rw e (rw fits)

pub set_port_from_lem :
    (n : ℕ) (rest : Bytes) (iri : Iri)
    → suc n < 2 ^ 31
    → is_digit (deref rest) ≡ false
    → set_port_from (some (b':' ∷ (port_digits (suc n) ++ rest))) iri
      ≡ ok (record iri { port = pos (suc n) }, none)
unfolding set_port_from
set_port_from_lem n rest iri small h =
    let ds = port_digits (suc n) in
    let len = count_digits-append ds rest (port_digits-all_digits (suc n)) h in
    let some_digit : (length ds == 0) ≡ false = ground (arith, length-port_digits n) in
    rw len (
      rw some_digit (
        ap (λ s. atoi s >>= λ m. ok (record iri { port = m }, none))
          (strndup-append ds rest (length ds) refl)
        ∙ rw (atoi_lem n small)))

pub find_port-append :
    (s rest : Bytes) → clean (codes ":?#") s ≡ true → find_port (s ++ rest) ≡ find_port rest
unfolding find_port
find_port-append [] rest h = refl
find_port-append (c ∷ cs) rest h = ground (arith, find_port-append cs rest)

pub find_port-tail : (q f : Text) → find_port (tail q f) ≡ none
unfolding find_port
find_port-tail (some q) f = refl
find_port-tail none (some f) = refl
find_port-tail none none = refl

pub count_path-append :
    (s rest : Bytes)
    → clean (codes "?#") s ≡ true
    → count_path rest ≡ 0
    → count_path (s ++ rest) ≡ length s
unfolding count_path
count_path-append [] rest h e = e
count_path-append (c ∷ cs) rest h e = ground (arith, count_path-append cs rest)

pub count_path-tail : (q f : Text) → count_path (tail q f) ≡ 0
unfolding count_path
count_path-tail (some q) f = refl
count_path-tail none (some f) = refl
count_path-tail none none = refl

pub set_path_from_lem :
    (p : Bytes) (q f : Text) (iri : Iri)
    → clean (codes "?#") p ≡ true
    → set_path_from (some (b'/' ∷ (p ++ tail q f))) iri
      ≡ (record iri { path = some (b'/' ∷ p) }, none)
unfolding set_path_from
set_path_from_lem p q f iri h =
    ap (λ s. (record iri { path = some (b'/' ∷ s) }, none))
      (strndup-append p (tail q f) _ (count_path-append p (tail q f) h (count_path-tail q f)))

-- The pointer to the at sign.
abbrev pub at : Text → Bytes → Option Bytes
at none rest = none
at (some u) rest = some (b'@' ∷ rest)

-- With no user, no at sign may follow: it would end one.
abbrev pub IsUser : Text → Bytes → Type 0
IsUser none rest = lacks b'@' rest ≡ true
IsUser (some u) rest = clean (codes "@/?#") u ≡ true

pub strchr-at :
    (u : Text) (rest : Bytes)
    → IsUser u rest
    → strchr (behind u (codes "@") ++ rest) b'@' ≡ at u rest
strchr-at none rest h = strchr-lacks rest b'@' h
strchr-at (some u) rest h = rw append_assoc (strchr-append u (b'@' ∷ rest) b'@' (ground arith))

pub set_user_from_lem :
    (u : Text) (rest : Bytes) (iri : Iri)
    → iri.user ≡ none
    → set_user_from (behind u (codes "@") ++ rest) (at u rest) iri ≡ record iri { user = u }
unfolding set_user_from
set_user_from_lem none rest iri h = ground arith
set_user_from_lem (some u) rest iri h = rw append_assoc (
    ap (λ s. record iri { user = some s })
      (strndup-append u (b'@' ∷ rest) _ (distance-append u (b'@' ∷ rest))))

pub host_start_lem :
    (u : Text) (rest : Bytes) → host_start (behind u (codes "@") ++ rest) (at u rest) ≡ rest
unfolding host_start
host_start_lem none rest = refl
host_start_lem (some u) rest = refl

pub before_host_lem :
    (top : ℕ) (u : Text) (rest : Bytes)
    → before_host top (behind u (codes "@") ++ rest) (at u rest) ≡ top - length rest - 1
unfolding before_host
before_host_lem top none rest = refl
before_host_lem top (some u) rest = omega arith

-- From the address before the host to that of its end.
pub host_size_lem :
    (top : ℕ) (h e : Bytes)
    → length (h ++ e) < top
    → top < 2 ^ 64
    → host_size (top - length e) (top - length (h ++ e) - 1) ≡ length h
unfolding host_size
host_size_lem top h e low high = omega (arith, length-append h e)

-- With NULL for the end the size is beyond that of any string.
pub host_size_null :
    (top : ℕ) (h : Bytes)
    → length h < top
    → top < 2 ^ 64
    → length h ≤ host_size 0 (top - length h - 1)
unfolding host_size
host_size_null top h low high = omega arith
