-- ===== src/Iri/Parse/RoundTrip.antt =====
-- Parsing what was printed.
use taningia.Base.{
  ℕ, zero, suc, ◌^◌, ◌≤◌, ◌<◌, ◌≡◌, refl, ◌∙◌, true, Option, none, some, ◌∷◌, ◌++◌, append_assoc,
  arith, ◌==◌, ◌||◌, length, length-append,
}
use taningia.Base.CString.{Bytes, Text, codes, lacks, lacks-append}
use taningia.Base.Int.{pos}
use taningia.Base.Run.{ok, ◌>>=◌}
use taningia.Iri
use taningia.Iri.{Iri}
use taningia.Iri.Parse.{find_marks, set_rest, parse}
use taningia.Iri.Parse.Authority.{
  port_part, path_part, after_host, rooted, IsPath, IsAuthority, HostEnds, host_found,
  host_found_lem, host_found_path, authority, lacks-behind, lacks-port_part, set_authority_lem,
}
use taningia.Iri.Parse.Pieces.{
  is_scheme, marks, find_marks_lem, set_marks_lem, parse-scheme, render-tail,
}
use taningia.Iri.Print.{to_string}
use taningia.Iri.Print.Layout.{behind, text, port_text, render, decimal_pos, to_string-render}

text-rooted : (p : Option Bytes) → text (rooted p) ≡ path_part p
text-rooted none = refl
text-rooted (some p) = refl

port_text_lem : (n : ℕ) → port_text (pos n) ≡ port_part n
port_text_lem zero = refl
port_text_lem (suc n) = rw decimal_pos

lacks-path :
    (n : ℕ) (p : Option Bytes) (q f : Text)
    → IsPath n p q f
    → (lacks b'?' (path_part p) ≡ true) × (lacks b'#' (path_part p) ≡ true)
lacks-path n none q f is = (refl, refl)
lacks-path zero (some p) q f is = ground arith
lacks-path (suc n) (some p) q f is = ground arith

module _ (u : Text) (h : Bytes) (n : ℕ) (p : Option Bytes) (q f : Text) where
  abbrev body : Bytes
  body = behind u (codes "@") ++ (h ++ (port_part n ++ path_part p))

  -- Neither a question mark nor a number sign stands before the query.
  lacks-body :
      (k : ℕ)
      → IsAuthority u h n p q f
      → (k == b'/' || (k == b'?' || k == b'#')) ≡ true
      → lacks k h ≡ true
      → lacks k (path_part p) ≡ true
      → lacks k body ≡ true
  lacks-body k is e host path =
      simp (lacks-append, lacks-behind u _ k is.user e, host, lacks-port_part n k e, path)

  find_marks-authority :
      IsAuthority u h n p q f
      → find_marks (b':' ∷ b'/' ∷ b'/' ∷ (behind u (codes "@") ++ (h ++ after_host n p q f)))
        ≡ marks q f
  find_marks-authority is =
      let (query, fragment) = lacks-path n p q f is.path in
      let no_query : lacks b'?' body ≡ true =
        lacks-body b'?' is refl (ground (arith, is.host)) query in
      let no_fragment : lacks b'#' body ≡ true =
        lacks-body b'#' is refl (ground (arith, is.host)) fragment in
      let whole = find_marks_lem (b':' ∷ b'/' ∷ b'/' ∷ body) q f no_query no_fragment is.tail in
      simp append_assoc at whole

  set_rest-authority :
      (top : ℕ) (iri : Iri) {h' : Bytes}
      → IsAuthority u h n p q f
      → host_found top h n p q f ≡ h'
      → iri.user ≡ none
      → iri.port ≡ pos 0
      → iri.path ≡ none
      → iri.query ≡ none
      → iri.fragment ≡ none
      → set_rest top (b':' ∷ b'/' ∷ b'/' ∷ (behind u (codes "@") ++ (h ++ after_host n p q f))) iri
        ≡ ok (authority u h' n p (record iri { query = q; fragment = f }), none)
  unfolding set_rest
  set_rest-authority top iri is found eu en ep eq ef = rw (find_marks-authority is) (
      rw (set_marks_lem q f iri eq ef) (
        set_authority_lem top u h n p q f (record iri { query = q; fragment = f }) is found eu en
          ep))

-- The IRI with these parts, as the setters make it from a new one.
abbrev pub with_authority : Bytes → Text → Bytes → ℕ → Option Bytes → Text → Text → Iri
with_authority sc u h n p q f = record Iri.init {
  scheme = some sc;
  user = u;
  host = some h;
  port = pos n;
  path = rooted p;
  query = q;
  fragment = f;
}

render-authority :
    (sc : Bytes) (u : Text) (h : Bytes) (n : ℕ) (p : Option Bytes) (q f : Text)
    → render (with_authority sc u h n p q f)
      ≡ sc ++ (b':' ∷ b'/' ∷ b'/' ∷ (behind u (codes "@") ++ (h ++ after_host n p q f)))
render-authority sc u h n p q f =
    render-tail (with_authority sc u h n p q f) ∙ rw (text-rooted p) (rw (port_text_lem n))

-- What parsing the print of such an IRI into a new one gives, with the host that the code finds.
parse-to_string_found :
    (top : ℕ) (sc : Bytes) (u : Text) (h : Bytes) (n : ℕ) (p : Option Bytes) (q f : Text)
    {h' : Bytes}
    → is_scheme sc ≡ true
    → IsAuthority u h n p q f
    → n < 1000
    → length (render (with_authority sc u h n p q f)) < 2 ^ 31
    → host_found top h n p q f ≡ h'
    → (do s ← to_string (with_authority sc u h n p q f); parse top s Iri.init)
      ≡ ok (with_authority sc u h' n p q f, none)
unfolding Iri.init
parse-to_string_found top sc u h n p q f valid is small short found =
    let rest = behind u (codes "@") ++ (h ++ after_host n p q f) in
    rw (to_string-render (with_authority sc u h n p q f) (ground arith) short) (
      rw (render-authority sc u h n p q f) (
        parse-scheme top sc (b'/' ∷ b'/' ∷ rest) Iri.init valid
        ∙ set_rest-authority u h n p q f top (record Iri.init { scheme = some sc }) is found refl
            refl refl refl refl))

length-rest :
    (sc : Bytes) (u : Text) (h : Bytes) (n : ℕ) (p : Option Bytes) (q f : Text)
    → length (h ++ after_host n p q f) ≤ length (render (with_authority sc u h n p q f))
length-rest sc u h n p q f =
    let rest = behind u (codes "@") ++ (h ++ after_host n p q f) in
    rw (render-authority sc u h n p q f) (
      omega (
        arith,
        length-append sc (b':' ∷ b'/' ∷ b'/' ∷ rest),
        length-append (behind u (codes "@")) (h ++ after_host n p q f),
      ))

-- `ta_iri_set_from_string` reads back what `ta_iri_to_string` writes. For a valid scheme, an
-- optional user, a host, a port below 1000 (0 for none), an optional path that begins with a slash,
-- an optional query and an optional fragment, none of which holds a mark that ends it or begins
-- another, and no path before a query or fragment unless there is a port: printing succeeds, and
-- parsing the print into a new IRI gives every part again, with no error. The string has fewer than
-- 2^31 bytes, which the code counts in an int, and lies in an address space of 64 bits, and not at
-- NULL.
pub parse-to_string :
    (top : ℕ) (sc : Bytes) (u : Text) (h : Bytes) (n : ℕ) (p : Option Bytes) (q f : Text)
    → is_scheme sc ≡ true
    → IsAuthority u h n p q f
    → HostEnds n p q f
    → n < 1000
    → length (render (with_authority sc u h n p q f)) < 2 ^ 31
    → length (render (with_authority sc u h n p q f)) < top
    → top < 2 ^ 64
    → (do s ← to_string (with_authority sc u h n p q f); parse top s Iri.init)
      ≡ ok (with_authority sc u h n p q f, none)
parse-to_string top sc u h n p q f valid is ends small short low high =
    parse-to_string_found top sc u h n p q f valid is small short
      (host_found_lem top h n p q f ends (omega (arith, length-rest sc u h n p q f)) high)

-- Where an IRI of that kind has a path, a query or a fragment (or both), and no port, the host
-- that is read back is not the one that was written: the path is appended to it. All other parts
-- are those that were written.
parse-to_string_host_path :
    (top : ℕ) (sc : Bytes) (u : Text) (h p : Bytes) (q f : Text)
    → is_scheme sc ≡ true
    → IsAuthority u h 0 (some p) q f
    → ¬ (HostEnds 0 (some p) q f)
    → length (render (with_authority sc u h 0 (some p) q f)) < 2 ^ 31
    → length (render (with_authority sc u h 0 (some p) q f)) < top
    → top < 2 ^ 64
    → (do s ← to_string (with_authority sc u h 0 (some p) q f); parse top s Iri.init)
      ≡ ok (with_authority sc u (h ++ b'/' ∷ p) 0 (some p) q f, none)
parse-to_string_host_path top sc u h p q f valid is out short low high =
    parse-to_string_found top sc u h 0 (some p) q f valid is (omega arith) short
      (host_found_path top h p q f out (omega (arith, length-rest sc u h 0 (some p) q f)) high)
