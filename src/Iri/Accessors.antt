-- ===== src/Iri/Accessors.antt =====
-- The setters of `ta_iri_t` as writes to separate fields.
use taningia.Base.{◌≡◌, refl, Bool, true, false, some, if◌then◌else◌}
use taningia.Base.CString.{Bytes, Text}
use taningia.Base.Run.{Run, ok}
use taningia.Iri.{
  Iri, get_scheme, set_scheme, get_user, set_user, get_host, set_host, get_port, get_path, set_path,
  get_query, set_query, get_fragment, set_fragment,
}

pub data Field : Type 0 where
  scheme user host path query fragment : Field

abbrev pub same : Field → Field → Bool
same scheme scheme = true
same user user = true
same host host = true
same path path = true
same query query = true
same fragment fragment = true
same _ _ = false

abbrev pub get : Field → Iri → Text
get scheme = get_scheme
get user = get_user
get host = get_host
get path = get_path
get query = get_query
get fragment = get_fragment

abbrev pub set : Field → Iri → Text → Run Iri
set scheme = set_scheme
set user = set_user
set host = set_host
set path = set_path
set query = set_query
set fragment = set_fragment

abbrev written : Field → Iri → Bytes → Iri
written scheme iri text = record iri { scheme = some text }
written user iri text = record iri { user = some text }
written host iri text = record iri { host = some text }
written path iri text = record iri { path = some text }
written query iri text = record iri { query = some text }
written fragment iri text = record iri { fragment = some text }

set-written :
    (f : Field) (iri : Iri) (text : Bytes) → set f iri (some text) ≡ ok (written f iri text)
unfolding set_scheme set_user set_host set_path set_query set_fragment
set-written scheme iri text = refl
set-written _ iri text = refl

get-written :
    (f g : Field) (iri : Iri) (text : Bytes)
    → get g (written f iri text) ≡ (if same f g then some text else get g iri)
unfolding get_scheme get_user get_host get_path get_query get_fragment
get-written scheme scheme iri text = refl
get-written scheme _ iri text = refl
get-written user user iri text = refl
get-written user _ iri text = refl
get-written host host iri text = refl
get-written host _ iri text = refl
get-written path path iri text = refl
get-written path _ iri text = refl
get-written query query iri text = refl
get-written query _ iri text = refl
get-written fragment fragment iri text = refl
get-written fragment _ iri text = refl

get_port-written :
    (f : Field) (iri : Iri) (text : Bytes) → get_port (written f iri text) ≡ get_port iri
unfolding get_port
get_port-written scheme iri text = refl
get_port-written _ iri text = refl

-- A setter called with a text succeeds; its getter then gives that text, and every other getter,
-- of the texts and of the port, gives what it gave before.
pub get-set :
    (f g : Field) (iri : Iri) (text : Bytes)
    → (iri' : Iri) × (set f iri (some text) ≡ ok iri')
      × (get g iri' ≡ (if same f g then some text else get g iri))
      × (get_port iri' ≡ get_port iri)
get-set f g iri text = (
  written f iri text,
  set-written f iri text,
  get-written f g iri text,
  get_port-written f iri text,
)
