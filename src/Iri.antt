-- ===== src/Iri.antt =====
-- src/iri.c, `ta_iri_t`: the record, its constructor, getters and setters. `ta_iri_to_string` is
-- in Iri/Print, `ta_iri_set_from_string` in Iri/Parse. The record owns its texts, so a setter,
-- which frees the old text and stores a copy, is a new value of the field; leaks are not modelled.
pub mod Accessors
pub mod Parse
pub mod Print
use taningia.Base.{Option, none, some}
use taningia.Base.CString.{Bytes, Text}
use taningia.Base.Int.{ℤ, pos}
use taningia.Base.Run.{Run, ok, fault, ◌>>=◌}
use taningia.Object
use taningia.Object.{Object, iri_free}

-- `ta_iri_t`
pub record Iri : Type 0 where
  pub parent : Object
  pub scheme : Text
  pub user : Text
  pub host : Text
  pub port : ℤ
  pub path : Text
  pub query : Text
  pub fragment : Text

-- `ta_iri_init`, which writes every field.
unfoldable pub init : Iri
init = record {
  parent = Object.init (some iri_free);
  scheme = none;
  user = none;
  host = none;
  port = pos 0;
  path = none;
  query = none;
  fragment = none;
}

-- `strdup`, a fault at NULL.
abbrev pub strdup : Text → Run Text
strdup none = fault
strdup (some s) = ok (some s)

unfoldable pub get_scheme : Iri → Text
get_scheme iri = iri.scheme

unfoldable pub set_scheme : Iri → Text → Run Iri
set_scheme iri scheme = do copy ← strdup scheme; ok (record iri { scheme = copy })

unfoldable pub get_user : Iri → Text
get_user iri = iri.user

unfoldable pub set_user : Iri → Text → Run Iri
set_user iri user = do copy ← strdup user; ok (record iri { user = copy })

unfoldable pub get_host : Iri → Text
get_host iri = iri.host

unfoldable pub set_host : Iri → Text → Run Iri
set_host iri host = do copy ← strdup host; ok (record iri { host = copy })

unfoldable pub get_port : Iri → ℤ
get_port iri = iri.port

unfoldable pub set_port : Iri → ℤ → Iri
set_port iri port = record iri { port = port }

unfoldable pub get_path : Iri → Text
get_path iri = iri.path

unfoldable pub set_path : Iri → Text → Run Iri
set_path iri path = do copy ← strdup path; ok (record iri { path = copy })

unfoldable pub get_query : Iri → Text
get_query iri = iri.query

unfoldable pub set_query : Iri → Text → Run Iri
set_query iri query = do copy ← strdup query; ok (record iri { query = copy })

unfoldable pub get_fragment : Iri → Text
get_fragment iri = iri.fragment

unfoldable pub set_fragment : Iri → Text → Run Iri
set_fragment iri fragment = do copy ← strdup fragment; ok (record iri { fragment = copy })
