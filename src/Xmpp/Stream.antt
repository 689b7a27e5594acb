-- ===== src/Xmpp/Stream.antt =====
-- src/xmpp.c, the stream: connecting and disconnecting, the callback of the stream, and what it
-- does with the features and the success of the authentication.
use taningia.Base.{ℕ, suc, Bool, true, false, ◌&&◌, not, Option, none, some, ◌++◌, if◌then◌else◌}
use taningia.Base.CString.{Bytes, Text, codes}
use taningia.Base.Int.{ℤ}
use taningia.Base.Run.{Run, ok, fault, ◌>>=◌}
use taningia.Error.{report, ta_ok, ta_error}
use taningia.Iri.Print.{decimal}
use taningia.Atom.Xml.{same_key}
use taningia.Log.{info, error}
use taningia.Xmpp.{
  Result, net_nodns, net_noconn, NodeType, node_start, node_normal, node_error, node_stop,
  Mechanism, digest_md5, plain, on_message, on_presence, Library, State, stream_new, filter_new,
  connect_via, connect_tcp, start_tls, start_sasl, send, send_header, add_rule, delete, log,
  perform, result, id_of,
}
use taningia.Xmpp.Events.{deref, call_event_hooks}
use taningia.Xmpp.Setup.{drop_parser, drop_filter}
use taningia.Xmpp.Stanzas.{is_ok, filter_node}

abbrev pub xmpp_connection_error : ℕ
xmpp_connection_error = 300

-- The `switch` of `ta_xmpp_client_connect`.
abbrev pub reason : Result → Bytes
reason net_nodns = codes "hostname lookup failed"
reason net_noconn = codes "connection failed"
reason _ = codes "io error"

-- `x != NULL && strcmp (x, key) == 0`
abbrev pub is_text : Text → Bytes → Bool
is_text none key = false
is_text (some x) key = same_key x key

module _ (lib : Library) where
  -- `client->parser = iks_stream_new (…); client->filter = iks_filter_new ();`
  unfoldable pub open_stream : State lib → State lib
  open_stream w =
      let w1 = perform lib stream_new (record w { fresh = suc w.fresh }) in
      let w2 = perform lib filter_new (record w1 { fresh = suc w1.fresh }) in
      record w2 { client = record w2.client { parser = some w.fresh; filter = some w1.fresh } }

  -- `iks_connect_via` or `iks_connect_tcp`
  unfoldable pub dial : Text → State lib → State lib
  dial server w = elim w.client.host [
    | none ↦ perform lib (connect_tcp w.client.parser server w.client.port) w
    | some host ↦ perform lib (connect_via w.client.parser host w.client.port server) w
  ]

  -- `ta_log_info (client->log, "Connected to xmpp:%s:%d", …)`
  abbrev pub announce : Bytes → State lib → State lib
  announce name w =
      perform lib
        (log info (codes "Connected to xmpp:" ++ name ++ codes ":" ++ decimal w.client.port)) w

  -- `ta_xmpp_client_connect` behind a connection that was made.
  unfoldable pub connected : ℕ → Text → State lib → Run (State lib)
  unfolding call_event_hooks
  connected fuel server w = do
    name ← deref (elim w.client.host [ none ↦ server | some host ↦ some host ])
    w1 ← call_event_hooks lib fuel (codes "connected") none (announce name w)
    let w2 = perform lib (add_rule w1.client.filter on_message) w1
    ok (perform lib (add_rule w2.client.filter on_presence) w2)

  -- `ta_xmpp_client_connect`
  unfoldable pub connect : ℕ → State lib → Run (ℤ × State lib)
  unfolding open_stream dial connected report
  connect fuel w = do
    let w1 = open_stream w
    id ← id_of lib w1
    let w2 = dial id.server w1
    let good = (do w3 ← connected fuel id.server w2; ok (ta_ok, w3))
    let bad = (do
      g ← report xmpp_connection_error (reason (result lib w2)) w2.errors
      ok (ta_error, record w2 { errors = g }))
    if is_ok (result lib w2) then good else bad

  -- `ta_xmpp_client_disconnect`
  unfoldable pub disconnect : State lib → State lib
  unfolding drop_parser drop_filter
  disconnect w = perform lib (log info (codes "Disconnected")) (
      drop_filter lib (drop_parser lib (record w { client = record w.client { running = false } })))

  -- `iks_send (client->parser, x); iks_delete (x);`
  unfoldable pub send_off : lib.xml.Node → State lib → State lib
  send_off x w = perform lib (delete x) (perform lib (send w.client.parser x) w)

  -- The stanza of `_make_bind`.
  unfoldable pub bind_stanza : Text → lib.xml.Node
  bind_stanza resource =
      let x =
        lib.xml.insert_attrib (lib.xml.new (codes "iq")) (codes "type") (some (codes "set")) in
      let y =
        lib.xml.insert_attrib (lib.xml.new (codes "bind")) (codes "xmlns")
          (some (codes "urn:ietf:params:xml:ns:xmpp-bind")) in
      elim resource [
        | none ↦ lib.xml.insert_node x y
        | some r ↦
            lib.xml.insert_node x (
              lib.xml.insert_node y
                (lib.xml.insert_cdata (lib.xml.new (codes "resource")) (some r)))
      ]

  -- `_make_bind`
  unfoldable pub make_bind : State lib → Run (State lib)
  unfolding bind_stanza send_off
  make_bind w = do id ← id_of lib w; ok (send_off (bind_stanza id.resource) w)

  -- The session stanza of `_on_features`.
  unfoldable pub open_session : State lib → State lib
  unfolding send_off
  open_session w =
      send_off (lib.xml.insert_attrib lib.make_session (codes "id") (some (codes "auth"))) w

  -- `_on_features` once authenticated.
  unfoldable pub bind_and_open : State lib → Run (State lib)
  unfolding make_bind open_session
  bind_and_open w = do
    let bound = make_bind w
    w' ← (if w.client.features.bind then bound else ok w)
    ok (if w'.client.features.session then open_session w' else w')

  -- `iks_start_sasl (client->parser, …, client->id->user, client->password)`
  unfoldable pub start : Mechanism → State lib → Run (State lib)
  start mechanism w = do
    id ← id_of lib w
    ok (perform lib (start_sasl w.client.parser mechanism id.user w.client.password) w)

  -- `_on_features` before: the negotiation with a mechanism that the server offers.
  unfoldable pub authenticate : State lib → Run (State lib)
  unfolding start
  authenticate w =
      if w.client.features.sasl_md5
      then start digest_md5 w
      else if w.client.features.sasl_plain
      then start plain w
      else ok w

  -- `_on_features`
  unfoldable pub on_features : lib.xml.Node → State lib → Run (State lib)
  unfolding bind_and_open authenticate
  on_features node w =
      let w' = record w { client = record w.client { features = lib.stream_features node } } in
      let wait = w'.client.use_tls && not (lib.is_secure w'.trace) in
      let go = if w'.client.authenticated then bind_and_open w' else authenticate w' in
      if w'.client.use_sasl then (if wait then ok w' else go) else ok w'

  -- `_on_success`
  unfoldable pub on_success : State lib → Run (State lib)
  on_success w = do
    id ← id_of lib w
    let w1 = perform lib (send_header w.client.parser id.server) w
    ok (
        perform lib (log info (codes "authentication successful"))
          (record w1 { client = record w1.client { authenticated = true } }))

  -- The case IKS_NODE_START: TLS where it is wanted, and the old authentication without SASL.
  unfoldable pub secure_stream : State lib → State lib
  secure_stream w =
      if w.client.use_tls && not (lib.is_secure w.trace)
      then perform lib (start_tls w.client.parser) w
      else w

  unfoldable pub old_authenticate : State lib → State lib
  unfolding send_off
  old_authenticate w =
      if w.client.use_sasl
      then w
      else send_off
          (lib.xml.insert_attrib (lib.make_auth w.client.id w.client.password) (codes "id")
            (some (codes "auth")))
          w

  unfoldable pub on_start : State lib → State lib
  unfolding secure_stream old_authenticate
  on_start w = old_authenticate (secure_stream w)

  -- The result of the session or of the old authentication.
  unfoldable pub is_auth_result : lib.xml.Node → Bool
  is_auth_result node =
      same_key (lib.xml.name node) (codes "iq")
      && is_text (lib.xml.find_attrib node (codes "type")) (codes "result")
      && is_text (lib.xml.find_attrib node (codes "id")) (codes "auth")

  -- The end of the case IKS_NODE_NORMAL: a failure, or a packet for the filter.
  unfoldable pub on_other : ℕ → lib.xml.Node → State lib → Run (State lib)
  unfolding call_event_hooks filter_node
  on_other fuel node w =
      if same_key (lib.xml.name node) (codes "failure")
      then call_event_hooks lib fuel (codes "authentication-failed") (some (lib.packet node))
          (perform lib (log info (codes "authentication failed")) w)
      else (elim w.client.filter [
        | none ↦ ok w
        | some filter ↦ filter_node lib fuel (some filter) node w
      ])

  -- The case IKS_NODE_NORMAL.
  unfoldable pub on_node : ℕ → lib.xml.Node → State lib → Run (State lib)
  unfolding on_features on_success is_auth_result call_event_hooks on_other
  on_node fuel node w =
      if same_key (lib.xml.name node) (codes "stream:features")
      then on_features node w
      else if same_key (lib.xml.name node) (codes "success")
      then on_success w
      else if is_auth_result node
      then call_event_hooks lib fuel (codes "authenticated") none w
      else on_other fuel node w

  -- The `switch` of `_ta_xmpp_client_hook`.
  unfoldable pub on_event : ℕ → NodeType → Option lib.xml.Node → State lib → Run (State lib)
  unfolding on_start on_node
  on_event fuel node_start x w = ok (on_start w)
  on_event fuel node_normal none w = fault
  on_event fuel node_normal (some node) w = on_node fuel node w
  on_event fuel node_error none w = fault
  on_event fuel node_error (some node) w =
      ok (perform lib (log error (codes "Error stream: " ++ lib.string_of node)) w)
  on_event fuel node_stop x w = ok w

  -- `_ta_xmpp_client_hook`
  unfoldable pub hook : ℕ → NodeType → Option lib.xml.Node → State lib → Run (State lib)
  unfolding on_event
  hook fuel type node w = do
    w' ← on_event fuel type node w
    ok (elim node [ none ↦ w' | some x ↦ perform lib (delete x) w' ])
