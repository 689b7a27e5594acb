-- ===== src/Iri/Parse/Opaque.antt =====
-- IRIs with no authority, such as tags: what `ta_iri_to_string` writes for them is read back.
use taningia.Base.{
  ℕ, ◌-◌, ◌%◌, ◌^◌, ◌<◌, ◌≡◌, refl, ap, ◌∙◌, Bool, true, false, not, ◌&&◌, none, some, ◌∷◌, ◌++◌,
  append-nil, arith, ltb, ◌==◌, length, length-append,
}
use taningia.Base.CString.{Bytes, Text, codes, deref, next, lacks, distance}
use taningia.Base.Run.{ok}
use taningia.Iri
use taningia.Iri.{Iri}
use taningia.Iri.Parse.{int_to_size, set_opaque_path, set_rest, parse}
use taningia.Iri.Parse.Pieces.{
  is_scheme, tail, marks, IsTail, find_marks_lem, set_marks_lem, strndup-append, distance-append,
  parse-scheme, render-tail,
}
use taningia.Iri.Print.Layout.{before, render}

int_to_size_small : (n : ℕ) → n < 2 ^ 31 → int_to_size n ≡ n
unfolding int_to_size
int_to_size_small n h =
    let small : n % 2 ^ 32 ≡ n = omega arith in
    let fits : ltb n (2 ^ 31) ≡ true = ground arith in rw small (rw fits)

set_opaque_path_lem :
    (path : Bytes) (q f : Text) (iri : Iri)
    → length path < 2 ^ 31
    → set_opaque_path (path ++ tail q f) (marks q f) iri ≡ record iri { path = some path }
unfolding set_opaque_path
set_opaque_path_lem path (some q) f iri h =
    let rest = q ++ before (codes "#") f in
    let cut : distance (path ++ b'?' ∷ rest) rest - 1 ≡ length path =
      omega (arith, length-append path (b'?' ∷ rest)) in
    let size = ap int_to_size cut ∙ int_to_size_small (length path) h in
    ap (λ t. record iri { path = some t }) (strndup-append path (b'?' ∷ rest) _ size)
set_opaque_path_lem path none (some f) iri h =
    ap (λ t. record iri { path = some t })
      (strndup-append path (b'#' ∷ f) _ (distance-append path (b'#' ∷ f)))
set_opaque_path_lem path none none iri h = rw append-nil

-- The text does not begin with two slashes.
abbrev pub no_slashes : Bytes → Bool
no_slashes s = not (deref s == b'/' && deref (next s) == b'/')

-- The record that the parts of such an IRI make, whatever its other fields hold.
abbrev opaque : Bytes → Text → Text → Iri → Iri
opaque path q f iri = record iri { path = some path; query = q; fragment = f }

set_rest-opaque :
    (top : ℕ) (path : Bytes) (q f : Text) (iri : Iri)
    → no_slashes (path ++ tail q f) ≡ true
    → lacks b'?' path ≡ true
    → lacks b'#' path ≡ true
    → IsTail q f
    → length path < 2 ^ 31
    → iri.query ≡ none
    → iri.fragment ≡ none
    → set_rest top (b':' ∷ (path ++ tail q f)) iri ≡ ok (opaque path q f iri, none)
unfolding set_rest
set_rest-opaque top path q f iri slashes h k t small eq ef =
    let found = find_marks_lem (b':' ∷ path) q f h k t in
    let plain : (deref (path ++ tail q f) == b'/' && deref (next (path ++ tail q f)) == b'/')
        ≡ false =
      ground arith in
    rw plain
      (rw found (rw (set_marks_lem q f iri eq ef) (rw (set_opaque_path_lem path q f _ small))))

-- An IRI with a scheme and a path that does not begin with two slashes, and no authority, is read
-- back from its print, `scheme:path?query#fragment`: every part has its text, the parts that were
-- not written are NULL, and no error is reported. No part holds the mark that ends it, and the
-- path is shorter than 2^31 bytes.
pub parse-opaque :
    (top : ℕ) (sc path : Bytes) (q f : Text)
    → is_scheme sc ≡ true
    → no_slashes (path ++ tail q f) ≡ true
    → lacks b'?' path ≡ true
    → lacks b'#' path ≡ true
    → IsTail q f
    → length path < 2 ^ 31
    → let iri = record Iri.init { scheme = some sc; path = some path; query = q; fragment = f } in
      parse top (render iri) Iri.init ≡ ok (iri, none)
unfolding Iri.init
parse-opaque top sc path q f valid slashes h k t small =
    let iri = record Iri.init { scheme = some sc; path = some path; query = q; fragment = f } in
    ap (λ s. parse top s Iri.init) (render-tail iri)
    ∙ parse-scheme top sc (path ++ tail q f) Iri.init valid
    ∙ set_rest-opaque top path q f (record Iri.init { scheme = some sc }) slashes h k t small refl
        refl
