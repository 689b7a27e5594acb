-- ===== src/Tag/Laws.antt =====
-- What the functions on tags do, and where they fault.
use mathlib.Core.Path.{ap₂}
use taningia.Base.{
  inl, inr, ℕ, ◌+◌, ◌-◌, ◌≡◌, refl, ◌∙◌, true, false, none, some, ◌∷◌, ◌++◌, arith, leb, length,
  length-append,
}
use taningia.Base.CString.{Bytes, Text, lacks, distance, strchr-append}
use taningia.Base.Int.{ℤ, pos}
use taningia.Base.Run.{Run, ok, fault, Run-cases}
use taningia.Error.{Global, report, ta_iri_parsing_error}
use taningia.Error.Laws.{IsSound}
use taningia.Iri.{Iri}
use taningia.Iri.Parse
use taningia.Iri.Parse.{parse}
use taningia.Iri.Parse.Errors.{parse-Keeps}
use taningia.Iri.Parse.Pieces.{strndup-append, distance-append}
use taningia.Tag.{
  Tag, entity, update_path, set_authority, set_date, set_specific, set_fields, set_from_path,
  set_from_string,
}

length-entity : (a d s : Bytes) → length (entity a d s) ≡ length a + length d + length s + 2
length-entity a d s =
    omega (arith, length-append a (b',' ∷ (d ++ b':' ∷ s)), length-append d (b':' ∷ s))

-- The print of the three parts does not fit into the bytes allocated for it.
update_path_short :
    (iri : Iri) (a d s : Text)
    → update_path (record { iri = iri; authority = a; date = d; specific = s }) ≡ fault
unfolding update_path
update_path_short iri none d s = refl
update_path_short iri (some a) none s = refl
update_path_short iri (some a) (some d) none = refl
update_path_short iri (some a) (some d) (some s) =
    let size = length-entity a d s in
    let over : leb (length (entity a d s) + 1) (length a + length d + length s + 2) ≡ false =
      ground (arith, size) in
    rw over

-- Every setter of a tag field faults, on every tag and for every text: where a field is NULL at
-- `strlen`, and where all are set at `sprintf`, whose NUL is one byte past the memory allocated.
setters_fault :
    (tag : Tag) (text : Text)
    → (set_authority tag text ≡ fault)
      × (set_date tag text ≡ fault)
      × (set_specific tag text ≡ fault)
unfolding set_authority set_date set_specific
setters_fault tag none = (refl, refl, refl)
setters_fault tag (some t) = (
  update_path_short tag.iri (some t) tag.date tag.specific,
  update_path_short tag.iri tag.authority (some t) tag.specific,
  update_path_short tag.iri tag.authority tag.date (some t),
)

-- The split of a path undoes its print: with no comma in the authority and no colon in the date,
-- the three fields are the three parts, and no error is reported.
pub set_fields-entity :
    (a d s : Bytes) (tag : Tag)
    → lacks b',' a ≡ true
    → lacks b':' d ≡ true
    → set_fields (entity a d s) tag
      ≡ (record tag { authority = some a; date = some d; specific = some s }, none)
unfolding set_fields
set_fields-entity a d s tag h k =
    let rest = d ++ b':' ∷ s in
    let cut : distance (b',' ∷ rest) (b':' ∷ s) - 1 ≡ length d =
      omega (arith, length-append d (b':' ∷ s)) in
    rw (strchr-append a (b',' ∷ rest) b',' h, set_fields)
      (rw (strchr-append d (b':' ∷ s) b':' k) (
        ap₂ (λ x y. (record tag { authority = some x; date = some y; specific = some s }, none))
          (strndup-append a (b',' ∷ rest) _ (distance-append a (b',' ∷ rest)))
          (strndup-append d (b':' ∷ s) _ cut)))

set_from_string_valid :
    (top : ℕ) (s : Bytes) (tag : Tag) (g : Global) (iri : Iri)
    → parse top s tag.iri ≡ ok (iri, none)
    → set_from_string top s tag g ≡ ok (record tag { iri = iri }, g, pos 0)
unfolding set_from_string Parse.set_from_string
set_from_string_valid top s tag g iri e = rw e

set_from_string_invalid :
    (top : ℕ) (s : Bytes) (tag : Tag) (g : Global) (iri : Iri) (msg : Bytes)
    → parse top s tag.iri ≡ ok (iri, some msg)
    → IsSound g
    → iri.path ≡ none
    → set_from_string top s tag g ≡ fault
unfolding set_from_string Parse.set_from_string set_from_path
set_from_string_invalid top s tag g iri msg e sound path =
    elim (Run-cases (report ta_iri_parsing_error msg g)) [
      | inl fails ↦ rw e (rw fails refl)
      | inr (g', told) ↦ rw e (rw told (rw path refl))
    ]

-- What comes of a parse of the IRI that reported an error or none.
abbrev pub failed : Tag → Iri → Global → Text → Run (Tag × Global × ℤ)
failed tag iri g none = ok (record tag { iri = iri }, g, pos 0)
failed tag iri g (some msg) = fault

-- `ta_tag_set_from_string` never succeeds on a tag with no path. Where the string is a valid IRI it
-- returns 0 without an error, and only the IRI part of the tag changes; where it is not, the
-- function goes on with a path that is NULL, and faults.
set_from_string_fails :
    (top : ℕ) (s : Bytes) (tag : Tag) (g : Global) (iri : Iri) (e : Text)
    → IsSound g
    → tag.iri.path ≡ none
    → parse top s tag.iri ≡ ok (iri, e)
    → set_from_string top s tag g ≡ failed tag iri g e
set_from_string_fails top s tag g iri none sound path h = set_from_string_valid top s tag g iri h
set_from_string_fails top s tag g iri (some msg) sound path h =
    set_from_string_invalid top s tag g iri msg h sound ((parse-Keeps top s tag.iri h).path ∙ path)
