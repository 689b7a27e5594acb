-- ===== src/Iri/Parse/Pieces.antt =====
-- The loops of `ta_iri_set_from_string` on a text that is put together from its parts.
use taningia.Base.{
  ℕ, ◌-◌, ◌≡◌, refl, ap, ◌∙◌, Bool, true, ◌&&◌, none, some, [], ◌∷◌, ◌++◌, append-nil, append_assoc,
  arith, length, length-append, take-append,
}
use taningia.Base.CString.{
  Bytes, Text, codes, deref, next, is_alpha, lacks, strchr, strndup, distance, strchr-lacks,
  strchr-append,
}
use taningia.Iri.{Iri}
use taningia.Iri.Parse.{
  Marks, step, is_scheme_char, scan_scheme, find_marks, set_marks, parse, set_rest,
}
use taningia.Iri.Print.Layout.{before, behind, delimiter, port_text, render, text}

-- A scheme as RFC 3987 has it: a letter, then letters, digits, plus, minus and dot.
abbrev pub all_scheme : Bytes → Bool
all_scheme [] = true
all_scheme (c ∷ cs) = is_scheme_char c && all_scheme cs

abbrev pub is_scheme : Bytes → Bool
is_scheme s = is_alpha (deref s) && all_scheme s

pub scan_scheme-append :
    (s rest : Bytes) → all_scheme s ≡ true → scan_scheme (s ++ b':' ∷ rest) ≡ some (b':' ∷ rest)
unfolding scan_scheme is_scheme_char
scan_scheme-append [] rest h = refl
scan_scheme-append (c ∷ cs) rest h = ground (arith, scan_scheme-append cs rest)

pub deref-append : (s rest : Bytes) → is_alpha (deref s) ≡ true → deref (s ++ rest) ≡ deref s
deref-append [] rest h = cc
deref-append (c ∷ cs) rest h = refl

-- What cuts a text off in front of its suffix.
pub distance-append : (s rest : Bytes) → distance (s ++ rest) rest ≡ length s
distance-append s rest = omega (arith, length-append s rest)

pub strndup-append : (s rest : Bytes) (n : ℕ) → n ≡ length s → strndup (s ++ rest) n ≡ s
strndup-append = take-append

-- The end of an IRI: its query and its fragment.
abbrev pub tail : Text → Text → Bytes
tail query fragment = before (codes "?") query ++ before (codes "#") fragment

abbrev pub marks : Text → Text → Marks
marks (some q) fragment = record {
  query = some (q ++ before (codes "#") fragment);
  fragment = fragment;
}
marks none (some f) = record { query = none; fragment = some (b'#' ∷ f) }
marks none none = record { query = none; fragment = none }

-- A number sign ends the query, and a question mark in a fragment would begin one.
abbrev pub IsTail : Text → Text → Type 0
IsTail (some q) fragment = lacks b'#' q ≡ true
IsTail none (some f) = lacks b'?' f ≡ true
IsTail none none = Unit

find_marks_query :
    (s r : Bytes)
    → lacks b'?' s ≡ true
    → find_marks (s ++ b'?' ∷ r) ≡ record { query = some r; fragment = step (strchr r b'#') next }
unfolding find_marks
find_marks_query s r h = rw (strchr-append s (b'?' ∷ r) b'?' h, find_marks)

pub find_marks_lem :
    (s : Bytes) (q f : Text)
    → lacks b'?' s ≡ true
    → lacks b'#' s ≡ true
    → IsTail q f
    → find_marks (s ++ tail q f) ≡ marks q f
unfolding find_marks
find_marks_lem s (some q) (some f) h k t =
    find_marks_query s (q ++ b'#' ∷ f) h ∙ rw (strchr-append q (b'#' ∷ f) b'#' t)
find_marks_lem s (some q) none h k t =
    find_marks_query s (q ++ []) h ∙ rw append-nil (rw (strchr-lacks q b'#' t))
find_marks_lem s none (some f) h k t =
    let no_query : strchr (s ++ b'#' ∷ f) b'?' ≡ none =
      strchr-append s (b'#' ∷ f) b'?' h ∙ strchr-lacks f b'?' t in
    rw (no_query, find_marks) (rw (strchr-append s (b'#' ∷ f) b'#' k))
find_marks_lem s none none h k t =
    rw append-nil (rw (strchr-lacks s b'?' h, find_marks) (rw (strchr-lacks s b'#' k)))

pub set_marks_lem :
    (q f : Text) (iri : Iri)
    → iri.query ≡ none
    → iri.fragment ≡ none
    → set_marks (marks q f) iri ≡ record iri { query = q; fragment = f }
unfolding set_marks
set_marks_lem (some q) (some f) iri h k =
    let cut : distance (q ++ b'#' ∷ f) f - 1 ≡ length q =
      omega (arith, length-append q (b'#' ∷ f)) in
    rw (strndup-append q (b'#' ∷ f) _ cut)
set_marks_lem (some q) none iri h k = rw append-nil (ground arith)
set_marks_lem none (some f) iri h k = ground arith
set_marks_lem none none iri h k = ground arith

pub is_scheme-split :
    (sc rest : Bytes)
    → is_scheme sc ≡ true
    → (is_alpha (deref (sc ++ rest)) ≡ true) × (all_scheme sc ≡ true)
is_scheme-split [] rest h = cc
is_scheme-split (c ∷ cs) rest h = ground arith

-- The scheme is cut off, and the rest is parsed behind it.
pub parse-scheme :
    (top : ℕ) (sc rest : Bytes) (iri : Iri)
    → is_scheme sc ≡ true
    → parse top (sc ++ b':' ∷ rest) iri
      ≡ set_rest top (b':' ∷ rest) (record iri { scheme = some sc })
unfolding parse
parse-scheme top sc rest iri h =
    let (alpha, valid) = is_scheme-split sc (b':' ∷ rest) h in
    let cut = strndup-append sc (b':' ∷ rest) _ (distance-append sc (b':' ∷ rest)) in
    rw alpha (
      rw (scan_scheme-append sc rest valid)
        (ap (λ t. set_rest top (b':' ∷ rest) (record iri { scheme = some t })) cut))

-- The print, bracketed the way in which it is read.
pub render-tail :
    (iri : Iri)
    → render iri
      ≡ text iri.scheme
        ++ (delimiter iri.scheme iri.host
            ++ (behind iri.user (codes "@")
                ++ (text iri.host
                    ++ (port_text iri.port ++ (text iri.path ++ tail iri.query iri.fragment)))))
render-tail iri = simp append_assoc
