-- ===== src/Tag.antt =====
-- src/iri.c, `ta_tag_t`: tag URIs (RFC 4151) on top of `ta_iri_t`.
pub mod Laws
use taningia.Base.{ℕ, suc, ◌+◌, ◌-◌, none, some, ◌∷◌, ◌++◌, leb, if◌then◌else◌, length}
use taningia.Base.CString.{Bytes, Text, codes, next, strchr, strndup, distance}
use taningia.Base.Int.{ℤ, pos}
use taningia.Base.Run.{Run, ok, fault, ◌>>=◌}
use taningia.Error.{Global, report, ta_tag_parsing_error}
use taningia.Iri
use taningia.Iri.{Iri, strdup}
use taningia.Iri.Parse
use taningia.Object.{is_zero}

-- `ta_tag_t`
pub record Tag : Type 0 where
  pub iri : Iri
  pub authority : Text
  pub date : Text
  pub specific : Text

-- `ta_tag_init`. `ta_iri_init` writes the object's fields again, so `ta_iri_free` replaces the
-- destructor `ta_tag_free` that was installed just before.
unfoldable pub init : Tag
init = record { iri = Iri.init; authority = none; date = none; specific = none }

-- `strlen`, a fault at NULL.
abbrev pub strlen : Text → Run ℕ
strlen none = fault
strlen (some s) = ok (length s)

-- What `sprintf (…, "%s,%s:%s", …)` prints.
abbrev pub entity : Bytes → Bytes → Bytes → Bytes
entity authority date specific = authority ++ b',' ∷ (date ++ b':' ∷ specific)

abbrev pub print_entity : Text → Text → Text → Run Bytes
print_entity (some a) (some d) (some s) = ok (entity a d s)
print_entity _ _ _ = fault

-- `_ta_tag_update_path`: the bytes allocated, then the print, which needs one more for its NUL.
unfoldable pub update_path : Tag → Run Tag
update_path tag = do
  a ← strlen tag.authority
  d ← strlen tag.date
  s ← strlen tag.specific
  path ← print_entity tag.authority tag.date tag.specific
  let room = a + d + s + 2
  if leb (length path + 1) room
      then ok (record tag { iri = record tag.iri { path = some path } })
      else fault

unfoldable pub get_authority : Tag → Text
get_authority tag = tag.authority

unfoldable pub set_authority : Tag → Text → Run Tag
unfolding update_path
set_authority tag authority = do
  copy ← strdup authority
  update_path (record tag { authority = copy })

unfoldable pub get_date : Tag → Text
get_date tag = tag.date

unfoldable pub set_date : Tag → Text → Run Tag
unfolding update_path
set_date tag date = do copy ← strdup date; update_path (record tag { date = copy })

unfoldable pub get_specific : Tag → Text
get_specific tag = tag.specific

unfoldable pub set_specific : Tag → Text → Run Tag
unfolding update_path
set_specific tag specific = do copy ← strdup specific; update_path (record tag { specific = copy })

-- The part of `ta_tag_set_from_string` behind the IRI, on a path that is not NULL: the tag and
-- the message of the error that it reports, if any.
unfoldable pub set_fields : Bytes → Tag → Tag × Text
set_fields path tag = elim (strchr path b',') [
  | none ↦ (tag, some (codes "Date field missing in tag"))
  | some date ↦
      let named = record tag { authority = some (strndup path (distance path date)) } in
      elim (strchr date b':') [
        | none ↦ (named, some (codes "Domain specific not provided"))
        | some specific ↦ (
          record named {
            date = some (strndup (next date) (distance date specific - 1));
            specific = some (next specific);
          },
          none,
        )
      ]
]

-- Its report of an error and its result.
abbrev pub conclude : Tag × Text → Global → Run (Tag × Global × ℤ)
conclude (tag, none) g = ok (tag, g, pos 1)
conclude (tag, some msg) g = do g' ← report ta_tag_parsing_error msg g; ok (tag, g', pos 0)

-- `strchr (path, ',')` and what follows, a fault at NULL.
unfoldable pub set_from_path : Text → Tag → Global → Run (Tag × Global × ℤ)
unfolding set_fields
set_from_path none tag g = fault
set_from_path (some path) tag g = conclude (set_fields path tag) g

-- `ta_tag_set_from_string`: a zero from `ta_iri_set_from_string` is taken for a failure.
unfoldable pub set_from_string : ℕ → Bytes → Tag → Global → Run (Tag × Global × ℤ)
set_from_string top string tag g = do
  (iri, g', status) ← Parse.set_from_string top string tag.iri g
  let parsed = record tag { iri = iri }
  let rest = set_from_path iri.path parsed g'
  if is_zero status then ok (parsed, g', pos 0) else rest
