-- ===== src/Xmpp/Session.antt =====
-- The session of src/xmpp.c behind the authentication, and the client that connects again.
use taningia.Base.{◌≡◌, refl, ℕ, true, false, none, some, [], ◌∷◌}
use taningia.Base.CString.{Text, codes}
use taningia.Base.Int.{ℤ}
use taningia.Base.Run.{ok, After, >>=-After, >>=-After_any, if-After, option-Holds, ok-After}
use taningia.Error.{report}
use taningia.Log.{info}
use taningia.Xmpp.{
  Jid, Library, State, node_normal, send, send_header, delete, log, perform, result, id_of,
}
use taningia.Xmpp.Events.{deref, call_event_hooks}
use taningia.Xmpp.Setup.{drop_parser, drop_filter}
use taningia.Xmpp.Stanzas.{is_ok}
use taningia.Xmpp.Stream.{
  xmpp_connection_error, reason, open_stream, dial, announce, connected, connect, disconnect,
  send_off, bind_stanza, make_bind, open_session, bind_and_open, on_features, on_success, on_node,
  on_event, hook,
}
use taningia.Xmpp.Loop.{deliver}
use taningia.Xmpp.Stability.{HookKeeps, call_event_hooks-After}

-- The flags of a client that has authenticated over SASL.
abbrev pub Session : (lib : Library) → State lib → Type 0
Session lib w =
    (w.client.authenticated ≡ true) × (w.client.use_sasl ≡ true) × (w.client.use_tls ≡ false)

module _ (lib : Library) where
  drop_parser-Session : (w : State lib) → Session lib w → Session lib (drop_parser lib w)
  unfolding drop_parser
  drop_parser-Session w p = option-Holds (Session lib) w.client.parser w _ p (λ a. p)

  drop_filter-Session : (w : State lib) → Session lib w → Session lib (drop_filter lib w)
  unfolding drop_filter
  drop_filter-Session w p = option-Holds (Session lib) w.client.filter w _ p (λ a. p)

  disconnect-Session : (w : State lib) → Session lib w → Session lib (disconnect lib w)
  unfolding disconnect
  disconnect-Session w p =
      let w1 : State lib = record w { client = record w.client { running = false } } in
      drop_filter-Session (drop_parser lib w1) (drop_parser-Session w1 p)

  dial-Session : (server : Text) (w : State lib) → Session lib w → Session lib (dial lib server w)
  unfolding dial
  dial-Session server w p = option-Holds (Session lib) w.client.host _ _ p (λ a. p)

  connected-Session :
      (keeps : HookKeeps lib (Session lib)) (fuel : ℕ) (server : Text) (w : State lib)
      → Session lib w
      → After (Session lib) (connected lib fuel server w)
  unfolding connected After
  connected-Session keeps fuel server w p =
      >>=-After_any (Session lib)
        (deref (elim w.client.host [ none ↦ server | some host ↦ some host ])) _
        (λ name.
          >>=-After (Session lib) (Session lib)
            (call_event_hooks lib fuel (codes "connected") none (announce lib name w)) _
            (call_event_hooks-After lib (Session lib) keeps fuel (codes "connected") none
              (announce lib name w) p)
            (λ w1 q. q))

  abbrev Kept : ℤ × State lib → Type 0
  Kept r = Session lib r.1

  connect-Session :
      (keeps : HookKeeps lib (Session lib)) (fuel : ℕ) (w : State lib)
      → Session lib w
      → After Kept (connect lib fuel w)
  unfolding connect open_stream After
  connect-Session keeps fuel w p = >>=-After_any Kept (id_of lib (open_stream lib w)) _ (λ i.
      let w2 : State lib = dial lib i.server (open_stream lib w) in
      let q : Session lib w2 = dial-Session i.server (open_stream lib w) p in
      if-After Kept (is_ok (result lib w2)) _ _
        (λ _.
          >>=-After (Session lib) Kept (connected lib fuel i.server w2) _
            (connected-Session keeps fuel i.server w2 q) (λ w3 h. h))
        (λ _.
          >>=-After_any Kept (report xmpp_connection_error (reason (result lib w2)) w2.errors) _
            (λ g. q)))

  on_features-idle :
      (w : State lib) (x : lib.xml.Node)
      → Session lib w
      → (lib.stream_features x).bind ≡ false
      → (lib.stream_features x).session ≡ false
      → (w' : State lib) × (on_features lib x w ≡ ok w')
        × (w'.trace ≡ w.trace)
        × (w'.client.authenticated ≡ true)
  unfolding on_features bind_and_open
  on_features-idle w x (a, s, t) b o = (
    record w { client = record w.client { features = lib.stream_features x } },
    rw (s, t, a, b, o) refl,
    refl,
    a,
  )

  -- A node of a stream whose name is `stream:features`.
  abbrev pub IsFeatures : lib.xml.Node → Type 0
  IsFeatures x = lib.xml.name x ≡ codes "stream:features"

  hook-idle :
      (fuel : ℕ) (w : State lib) (x : lib.xml.Node)
      → Session lib w
      → IsFeatures x
      → (lib.stream_features x).bind ≡ false
      → (lib.stream_features x).session ≡ false
      → (w' : State lib) × (hook lib fuel node_normal (some x) w ≡ ok w')
        × (w'.trace ≡ delete x ∷ w.trace)
        × (w'.client.authenticated ≡ true)
  unfolding hook on_event on_node
  hook-idle fuel w x p n b o =
      let (w', eq, t, still) = on_features-idle w x p b o in
      (perform lib (delete x) w', rw (n, eq) refl, rw t refl, still)

-- A client that has authenticated over SASL without TLS, whose connection was closed and made
-- again, with hooks that leave its flags: to the features of the new stream, where these offer the
-- mechanisms of SASL but neither a resource nor a session, it makes no call but to free the node. It
-- is still taken to be authenticated, and does not authenticate on the new stream.
pub connect-idle :
    (lib : Library) (keeps : HookKeeps lib (Session lib)) (fuel : ℕ) (w w' : State lib) (r : ℤ)
    (x : lib.xml.Node)
    → Session lib w
    → connect lib fuel (disconnect lib w) ≡ ok (r, w')
    → IsFeatures lib x
    → (lib.stream_features x).bind ≡ false
    → (lib.stream_features x).session ≡ false
    → (w'' : State lib) × (hook lib fuel node_normal (some x) w' ≡ ok w'')
      × (w''.trace ≡ delete x ∷ w'.trace)
      × (w''.client.authenticated ≡ true)
connect-idle lib keeps fuel w w' r x p e n b o =
    let kept : Session lib w' =
      ok-After (Kept lib) (connect lib fuel (disconnect lib w)) (r, w') e
        (connect-Session lib keeps fuel (disconnect lib w) (disconnect-Session lib w p)) in
    hook-idle lib fuel w' x kept n b o

module _ (lib : Library) where
  -- The calls of a client that asks for its resource and its session.
  abbrev pub session_stanza : lib.xml.Node
  session_stanza = lib.xml.insert_attrib lib.make_session (codes "id") (some (codes "auth"))

  hook-success :
      (fuel : ℕ) (w : State lib) (x : lib.xml.Node) (i : Jid)
      → w.client.id ≡ some i
      → lib.xml.name x ≡ codes "success"
      → hook lib fuel node_normal (some x) w
        ≡ ok (record w {
          client = record w.client { authenticated = true };
          trace =
              delete x
              ∷ log info (codes "authentication successful")
              ∷ send_header w.client.parser i.server
              ∷ w.trace;
        })
  unfolding hook on_event on_node on_success
  hook-success fuel w x i e n = rw (n, e) refl

  hook-session :
      (fuel : ℕ) (w : State lib) (x : lib.xml.Node) (i : Jid)
      → w.client.id ≡ some i
      → Session lib w
      → IsFeatures lib x
      → (lib.stream_features x).bind ≡ true
      → (lib.stream_features x).session ≡ true
      → (w' : State lib) × (hook lib fuel node_normal (some x) w ≡ ok w')
        × (w'.trace
            ≡ delete x
              ∷ delete session_stanza
              ∷ send w.client.parser session_stanza
              ∷ delete (bind_stanza lib i.resource)
              ∷ send w.client.parser (bind_stanza lib i.resource)
              ∷ w.trace)
  unfolding hook on_event on_node on_features bind_and_open make_bind open_session send_off
  hook-session fuel w x i e (a, s, t) n b o =
      let w1 : State lib = record w {
        client = record w.client { features = lib.stream_features x };
        trace =
            delete x
            ∷ delete session_stanza
            ∷ send w.client.parser session_stanza
            ∷ delete (bind_stanza lib i.resource)
            ∷ send w.client.parser (bind_stanza lib i.resource)
            ∷ w.trace;
      } in
      (w1, rw (n, s, t, a, b, e, o) refl, refl)

-- A client with SASL and without TLS that is told of its success and then of the features of the
-- stream, where these offer a resource and a session: it opens the stream again, asks for the
-- resource, then for the session, and frees what it made and received.
pub deliver-session :
    (lib : Library) (fuel : ℕ) (w : State lib) (x y : lib.xml.Node) (i : Jid)
    → w.client.id ≡ some i
    → w.client.use_sasl ≡ true
    → w.client.use_tls ≡ false
    → lib.xml.name x ≡ codes "success"
    → IsFeatures lib y
    → (lib.stream_features y).bind ≡ true
    → (lib.stream_features y).session ≡ true
    → (w' : State lib) × (deliver lib fuel ((node_normal, some x) ∷ (node_normal, some y) ∷ []) w
        ≡ ok w')
      × (w'.trace
          ≡ delete y
            ∷ delete (session_stanza lib)
            ∷ send w.client.parser (session_stanza lib)
            ∷ delete (bind_stanza lib i.resource)
            ∷ send w.client.parser (bind_stanza lib i.resource)
            ∷ delete x
            ∷ log info (codes "authentication successful")
            ∷ send_header w.client.parser i.server
            ∷ w.trace)
unfolding deliver
deliver-session lib fuel w x y i e s t n f b o =
    let w1 : State lib = record w {
      client = record w.client { authenticated = true };
      trace =
          delete x
          ∷ log info (codes "authentication successful")
          ∷ send_header w.client.parser i.server
          ∷ w.trace;
    } in
    let (w', eq, calls) = hook-session lib fuel w1 y i e (refl, s, t) f b o in
    (w', rw (hook-success lib fuel w x i e n) (rw eq refl), calls)
