-- ===== src/Iri/Parse/Errors.antt =====
-- The error paths of `ta_iri_set_from_string`, on any string and any IRI.
use taningia.Base.{
  ℕ, ◌≡◌, refl, ap, ◌∙◌, true, ◌&&◌, Option, none, some, ◌∷◌, [], arith, ◌==◌, Bool-cases,
  Option-cases, inl, inr,
}
use taningia.Base.CString.{Bytes, Text, deref, next, is_alpha, strchr}
use taningia.Base.Run.{ok, >>=-eq-ok}
use taningia.Iri.{Iri}
use taningia.Iri.Parse.{
  Marks, Outcome, scan_scheme, find_port, set_marks, find_marks, set_port_from, set_path_from,
  set_host_from, path_fits, set_path_and_host, set_authority, set_user_from, host_start, set_rest,
  parse,
}

-- What an error leaves as it was.
pub record Keeps (iri iri' : Iri) : Type 0 where
  pub host : iri'.host ≡ iri.host
  pub port : iri'.port ≡ iri.port
  pub path : iri'.path ≡ iri.path

Keeps-trans : {a b c : Iri} → Keeps a b → Keeps b c → Keeps a c
Keeps-trans h k = record { host = k.host ∙ h.host; port = k.port ∙ h.port; path = k.path ∙ h.path }

strchr-deref : (s : Bytes) (k : ℕ) (p : Bytes) → strchr s k ≡ some p → deref p ≡ k
strchr-deref [] k p e = cc
strchr-deref (c ∷ cs) k p e = ground (arith, strchr-deref cs k p)

-- The test of the path's first byte never fails: the path was found by that byte.
set_path_from_ok : (s : Bytes) (iri : Iri) → (set_path_from (strchr s b'/') iri).1 ≡ none
unfolding set_path_from
set_path_from_ok s iri = elim (Option-cases (strchr s b'/')) [
  | inl e ↦ rw e
  | inr (p, e) ↦
      let slash : (deref p == b'/') ≡ true = ground (arith, strchr-deref s b'/' p e) in
      rw e (rw slash)
]

set_port_from-Keeps :
    (port : Option Bytes) (iri : Iri) {iri' : Iri} {msg : Bytes}
    → set_port_from port iri ≡ ok (iri', some msg)
    → iri' ≡ iri
unfolding set_port_from
set_port_from-Keeps none iri e = cc
set_port_from-Keeps (some p) iri e = ground arith

-- Behind a port without error there is none at all.
set_host_from_ok :
    (top : ℕ) (hier : Bytes) (m : Marks) (userinfo port path : Option Bytes) (set : Iri × Text)
    → set.1 ≡ none
    → (iri' : Iri) × (set_host_from top hier m userinfo port path set ≡ ok (iri', none))
unfolding set_host_from
set_host_from_ok top hier m userinfo port path (iri, some msg) e = cc
set_host_from_ok top hier m userinfo port path (iri, none) e = (_, refl)

set_path_and_host-error :
    (top : ℕ) (hier : Bytes) (m : Marks) (userinfo port : Option Bytes) (set : Iri × Text)
    {iri' : Iri} {msg : Bytes}
    → set_path_and_host top hier m userinfo port set ≡ ok (iri', some msg)
    → set ≡ (iri', some msg)
unfolding set_path_and_host
set_path_and_host-error top hier m userinfo port (iri, some msg) e = cc
set_path_and_host-error top hier m userinfo port (iri, none) e =
    let path = strchr hier b'/' in
    let (iri'', done) =
      set_host_from_ok top hier m userinfo port path (set_path_from path iri)
        (set_path_from_ok hier iri) in
    elim (Bool-cases (path_fits path)) [
      | inl fits ↦ absurd (cc (rw fits at e, done))
      | inr over ↦ absurd (cc (rw over at e))
    ]

set_user_from-Keeps :
    (hier : Bytes) (at : Option Bytes) (iri : Iri) → Keeps iri (set_user_from hier at iri)
unfolding set_user_from
set_user_from-Keeps hier none iri = record { host = refl; port = refl; path = refl }
set_user_from-Keeps hier (some at) iri = record { host = refl; port = refl; path = refl }

set_marks-Keeps : (m : Marks) (iri : Iri) → Keeps iri (set_marks m iri)
unfolding set_marks
set_marks-Keeps m iri = ground arith

set_authority-Keeps :
    (top : ℕ) (hier : Bytes) (m : Marks) (iri : Iri) {iri' : Iri} {msg : Bytes}
    → set_authority top hier m iri ≡ ok (iri', some msg)
    → Keeps iri iri'
unfolding set_authority
set_authority-Keeps top hier m iri {iri'} {msg} e =
    let userinfo = strchr hier b'@' in
    let port = find_port (host_start hier userinfo) in
    let named = set_user_from hier userinfo iri in
    let (set, ran, refused) =
      >>=-eq-ok (set_port_from port named) (set_path_and_host top hier m userinfo port) e in
    let same = set_path_and_host-error top hier m userinfo port set refused in
    let first : iri' ≡ named = set_port_from-Keeps port named (ran ∙ ap ok same) in
    rw first (set_user_from-Keeps hier userinfo iri)

set_rest-Keeps :
    (top : ℕ) (p : Bytes) (iri : Iri) {iri' : Iri} {msg : Bytes}
    → set_rest top p iri ≡ ok (iri', some msg)
    → Keeps iri iri'
unfolding set_rest
set_rest-Keeps top p iri {iri'} e =
    let hier = next p in
    let marked = set_marks (find_marks p) iri in
    elim (Bool-cases (deref hier == b'/' && deref (next hier) == b'/')) [
      | inl double ↦
          let inner =
            set_authority-Keeps top (next (next hier)) (find_marks p) marked (rw double at e) in
          Keeps-trans (set_marks-Keeps (find_marks p) iri) inner
      | inr plain ↦ absurd (cc (rw plain at e))
    ]

Keeps-eq :
    {iri iri' : Iri} {t t' : Text}
    → ◌≡◌ {A = Outcome} (ok (iri, t)) (ok (iri', t'))
    → Keeps iri iri'
Keeps-eq e = record { host = cc; port = cc; path = cc }

-- When `ta_iri_set_from_string` reports an error, on any string, the host, the port and the path of
-- the IRI are those it had.
pub parse-Keeps :
    (top : ℕ) (string : Bytes) (iri : Iri) {iri' : Iri} {msg : Bytes}
    → parse top string iri ≡ ok (iri', some msg)
    → Keeps iri iri'
unfolding parse
parse-Keeps top string iri e = elim (Bool-cases (is_alpha (deref string))) [
  | inr bad ↦ let same = (rw bad at e) in Keeps-eq same
  | inl good ↦ elim (Option-cases (scan_scheme string)) [
    | inl bad ↦ let same = (rw bad at (rw good at e)) in Keeps-eq same
    | inr (p, found) ↦
        let rest = rw found at (rw good at e) in
        let inner = set_rest-Keeps top p _ rest in
        record { host = inner.host; port = inner.port; path = inner.path }
  ]
]
