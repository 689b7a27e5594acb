-- ===== src/Iri/Parse/Authority.antt =====
-- IRIs with an authority: what `ta_iri_to_string` writes for them is read back.
use taningia.Base.{
  ℕ, zero, suc, ◌-◌, ◌^◌, ◌<◌, ◌≡◌, refl, ap, ◌∙◌, true, false, ◌||◌, Option, none, some, [], ◌∷◌,
  ◌++◌, append-nil, append_assoc, arith, ◌==◌, length, take_all,
}
use taningia.Base.CString.{
  Bytes, Text, codes, is_digit, deref, next, lacks, strchr, strndup, strchr-lacks, strchr-append,
  lacks-append,
}
use taningia.Base.Int.{pos}
use taningia.Base.Run.{ok}
use taningia.Iri.{Iri}
use taningia.Iri.Parse.{
  find_port, host_end, host_size, set_authority, set_host_from, set_path_and_host, set_port_from,
  set_path_from, path_fits, step,
}
use taningia.Iri.Parse.AuthorityParts.{
  clean, port_digits, lacks-port_digits, set_port_from_lem, find_port-append, find_port-tail,
  count_path-append, count_path-tail, set_path_from_lem, at, IsUser, strchr-at, set_user_from_lem,
  host_start_lem, before_host_lem, host_size_lem, host_size_null,
}
use taningia.Iri.Parse.Pieces.{tail, marks, IsTail, strndup-append}
use taningia.Iri.Print.Layout.{behind}

-- A port with its colon; port 0 is not written.
abbrev pub port_part : ℕ → Bytes
port_part zero = []
port_part (suc n) = b':' ∷ port_digits (suc n)

-- A path, given by what follows its first slash.
abbrev pub rooted : Option Bytes → Text
rooted p = step p (◌∷◌ b'/')

abbrev pub path_part : Option Bytes → Bytes
path_part none = []
path_part (some p) = b'/' ∷ p

abbrev pub after_port : Option Bytes → Text → Text → Bytes
after_port p q f = path_part p ++ tail q f

abbrev pub after_host : ℕ → Option Bytes → Text → Text → Bytes
after_host n p q f = port_part n ++ after_port p q f

abbrev pub IsPath : ℕ → Option Bytes → Text → Text → Type 0
IsPath n none q f = lacks b'/' (tail q f) ≡ true
IsPath zero (some p) q f = clean (codes ":?#") p ≡ true
IsPath (suc n) (some p) q f = clean (codes "?#") p ≡ true

-- The host ends at the port if there is one; else at the query or the fragment if there is one,
-- and then no path may stand before it.
abbrev pub HostEnds : ℕ → Option Bytes → Text → Text → Type 0
HostEnds (suc n) p q f = Unit
HostEnds zero none q f = Unit
HostEnds zero (some p) none none = Unit
HostEnds zero (some p) _ _ = ⊥

-- No part holds a mark that ends it or begins another, and the length of the path is an int.
pub record IsAuthority (u : Text) (h : Bytes) (n : ℕ) (p : Option Bytes) (q f : Text) : Type 0 where
  pub user : IsUser u (h ++ after_host n p q f)
  pub host : clean (codes "/:?#") h ≡ true
  pub port : n < 2 ^ 31
  pub path : IsPath n p q f
  pub size : length (path_part p) < 2 ^ 31
  pub tail : IsTail q f

unfoldable pub port_pointer : ℕ → Bytes → Option Bytes
port_pointer zero rest = none
port_pointer (suc n) rest = some (port_part (suc n) ++ rest)

unfoldable pub path_pointer : Option Bytes → Bytes → Option Bytes
path_pointer none rest = none
path_pointer (some p) rest = some (b'/' ∷ (p ++ rest))

find_port_lem :
    (n : ℕ) (h : Bytes) (p : Option Bytes) (q f : Text)
    → clean (codes "/:?#") h ≡ true
    → IsPath n p q f
    → find_port (h ++ after_host n p q f) ≡ port_pointer n (after_port p q f)
unfolding port_pointer
find_port_lem n h p q f clear is =
    find_port-append h (after_host n p q f) (ground arith) ∙ at_end n p is
  where
    at_end :
        (n : ℕ) (p : Option Bytes)
        → IsPath n p q f
        → find_port (after_host n p q f) ≡ port_pointer n (after_port p q f)
    at_end zero none is = find_port-tail q f
    at_end zero (some p) is =
        find_port-append (b'/' ∷ p) (tail q f) (ground arith) ∙ find_port-tail q f
    at_end (suc n) p is = unfold find_port in refl

pub lacks-behind :
    (u : Text) (rest : Bytes) (k : ℕ)
    → IsUser u rest
    → (k == b'/' || (k == b'?' || k == b'#')) ≡ true
    → lacks k (behind u (codes "@")) ≡ true
lacks-behind none rest k is e = refl
lacks-behind (some u) rest k is e = rw lacks-append (ground arith)

pub lacks-port_part :
    (n k : ℕ) → (k == b'/' || (k == b'?' || k == b'#')) ≡ true → lacks k (port_part n) ≡ true
lacks-port_part zero k e = refl
lacks-port_part (suc n) k e = ground (arith, lacks-port_digits (suc n) k)

strchr_path :
    (u : Text) (h : Bytes) (n : ℕ) (p : Option Bytes) (q f : Text)
    → IsAuthority u h n p q f
    → strchr (behind u (codes "@") ++ (h ++ after_host n p q f)) b'/' ≡ path_pointer p (tail q f)
unfolding path_pointer
strchr_path u h n p q f is =
    let clear : lacks b'/' h ≡ true = ground (arith, is.host) in
    strchr-append (behind u (codes "@")) (h ++ after_host n p q f) b'/'
      (lacks-behind u _ b'/' is.user refl)
    ∙ strchr-append h (after_host n p q f) b'/' clear
    ∙ strchr-append (port_part n) (after_port p q f) b'/' (lacks-port_part n b'/' refl)
    ∙ at_path p is.path
  where
    at_path :
        (p : Option Bytes)
        → IsPath n p q f
        → strchr (after_port p q f) b'/' ≡ path_pointer p (tail q f)
    at_path none is = strchr-lacks (tail q f) b'/' is
    at_path (some p) is = refl

cut_host :
    (top : ℕ) (h e : Bytes)
    → length (h ++ e) < top
    → top < 2 ^ 64
    → strndup (h ++ e) (host_size (top - length e) (top - length (h ++ e) - 1)) ≡ h
cut_host top h e low high = strndup-append h e _ (host_size_lem top h e low high)

-- What the code takes for the host.
abbrev pub host_found : ℕ → Bytes → ℕ → Option Bytes → Text → Text → Bytes
host_found top h n p q f = strndup (h ++ after_host n p q f) (
    host_size
      (host_end top (port_pointer n (after_port p q f)) (marks q f) (path_pointer p (tail q f)))
      (top - length (h ++ after_host n p q f) - 1))

pub host_found_lem :
    (top : ℕ) (h : Bytes) (n : ℕ) (p : Option Bytes) (q f : Text)
    → HostEnds n p q f
    → length (h ++ after_host n p q f) < top
    → top < 2 ^ 64
    → host_found top h n p q f ≡ h
unfolding host_end port_pointer path_pointer
host_found_lem top h (suc n) p q f is low high = cut_host top h (after_host (suc n) p q f) low high
host_found_lem top h zero none (some q) f is low high =
    let e = tail (some q) f in
    let same : top - length (next e) - 1 ≡ top - length e = omega arith in
    ap (λ a. strndup (h ++ e) (host_size a (top - length (h ++ e) - 1))) same
    ∙ cut_host top h e low high
host_found_lem top h zero none none (some f) is low high =
    cut_host top h (tail none (some f)) low high
host_found_lem top h zero none none none is low high =
    rw append-nil (take_all h _ (host_size_null top h (rw append-nil at low) high))
host_found_lem top h zero (some p) none none is low high =
    cut_host top h (after_port (some p) none none) low high
host_found_lem top h zero (some p) none (some f) is low high = elim is [ ]
host_found_lem top h zero (some p) (some q) f is low high = elim is [ ]

-- With no port, a path and a query or a fragment, the path is taken for a part of the host.
pub host_found_path :
    (top : ℕ) (h p : Bytes) (q f : Text)
    → ¬ (HostEnds zero (some p) q f)
    → length (h ++ after_host zero (some p) q f) < top
    → top < 2 ^ 64
    → host_found top h zero (some p) q f ≡ h ++ b'/' ∷ p
unfolding host_end port_pointer path_pointer
host_found_path top h p none none out low high = absurd (out tt)
host_found_path top h p none (some f) out low high =
    let e = tail none (some f) in
    rw (← append_assoc h (b'/' ∷ p) e)
      (cut_host top (h ++ b'/' ∷ p) e (rw (append_assoc h (b'/' ∷ p) e) low) high)
host_found_path top h p (some q) f out low high =
    let e = tail (some q) f in
    let same : top - length (next e) - 1 ≡ top - length e = omega arith in
    rw same (
      rw (← append_assoc h (b'/' ∷ p) e)
        (cut_host top (h ++ b'/' ∷ p) e (rw (append_assoc h (b'/' ∷ p) e) low) high))

-- The port that the code stores, where the field held 0.
set_port_lem :
    (n : ℕ) (p : Option Bytes) (q f : Text) (iri : Iri)
    → n < 2 ^ 31
    → iri.port ≡ pos 0
    → set_port_from (port_pointer n (after_port p q f)) iri ≡ ok (record iri { port = pos n }, none)
unfolding port_pointer
set_port_lem zero p q f iri small e = unfold set_port_from in ground arith
set_port_lem (suc n) p q f iri small e =
    set_port_from_lem n (after_port p q f) iri small (ends p q f)
  where
    ends : (p : Option Bytes) (q f : Text) → is_digit (deref (after_port p q f)) ≡ false
    ends none none none = refl
    ends none none (some f) = refl
    ends none (some q) f = refl
    ends (some p) q f = refl

set_path_lem :
    (n : ℕ) (p : Option Bytes) (q f : Text) (iri : Iri)
    → IsPath n p q f
    → iri.path ≡ none
    → set_path_from (path_pointer p (tail q f)) iri ≡ (record iri { path = rooted p }, none)
unfolding path_pointer
set_path_lem n none q f iri is e = unfold set_path_from in ground arith
set_path_lem zero (some p) q f iri is e = set_path_from_lem p q f iri (ground arith)
set_path_lem (suc n) (some p) q f iri is e = set_path_from_lem p q f iri is

path_fits_lem :
    (n : ℕ) (p : Option Bytes) (q f : Text)
    → IsPath n p q f
    → length (path_part p) < 2 ^ 31
    → path_fits (path_pointer p (tail q f)) ≡ true
unfolding path_pointer path_fits
path_fits_lem n none q f is b = refl
path_fits_lem zero (some p) q f is b =
    rw (count_path-append (b'/' ∷ p) (tail q f) (ground arith) (count_path-tail q f)) (ground arith)
path_fits_lem (suc n) (some p) q f is b =
    rw (count_path-append (b'/' ∷ p) (tail q f) is (count_path-tail q f)) (ground arith)

-- The fields that the authority section sets.
abbrev pub authority : Text → Bytes → ℕ → Option Bytes → Iri → Iri
authority u h n p iri = record iri { user = u; host = some h; port = pos n; path = rooted p }

set_path_and_host_lem :
    (top : ℕ) (u : Text) (h : Bytes) (n : ℕ) (p : Option Bytes) (q f : Text) (iri : Iri)
    {h' : Bytes}
    → IsAuthority u h n p q f
    → host_found top h n p q f ≡ h'
    → iri.path ≡ none
    → let rest = h ++ after_host n p q f in
      set_path_and_host top
        (behind u (codes "@") ++ rest)
        (marks q f)
        (at u rest)
        (port_pointer n (after_port p q f))
        (iri, none)
      ≡ ok (record iri { host = some h'; path = rooted p }, none)
unfolding set_path_and_host set_host_from
set_path_and_host_lem top u h n p q f iri is found ep =
    let rest = h ++ after_host n p q f in
    rw (strchr_path u h n p q f is, path_fits_lem n p q f is.path is.size)
      (rw (set_path_lem n p q f iri is.path ep) (
        rw (host_start_lem u rest, before_host_lem top u rest)
          (ap (λ t. ok (record iri { host = some t; path = rooted p }, none)) found)))

pub set_authority_lem :
    (top : ℕ) (u : Text) (h : Bytes) (n : ℕ) (p : Option Bytes) (q f : Text) (iri : Iri)
    {h' : Bytes}
    → IsAuthority u h n p q f
    → host_found top h n p q f ≡ h'
    → iri.user ≡ none
    → iri.port ≡ pos 0
    → iri.path ≡ none
    → set_authority top (behind u (codes "@") ++ (h ++ after_host n p q f)) (marks q f) iri
      ≡ ok (authority u h' n p iri, none)
unfolding set_authority
set_authority_lem top u h n p q f iri is found eu en ep =
    let rest = h ++ after_host n p q f in
    rw (strchr-at u rest is.user) (
      rw (set_user_from_lem u rest iri eu, host_start_lem u rest)
        (rw (find_port_lem n h p q f is.host is.path) (
          rw (set_port_lem n p q f (record iri { user = u }) is.port en) (
            set_path_and_host_lem top u h n p q f (record iri { user = u; port = pos n }) is found
              ep))))
