-- ===== src/Xmpp/Setup.antt =====
-- src/xmpp.c, the life of a client: its initialisation, its destruction and its accessors.
use taningia.Base.{ℕ, Bool, true, false, none, some, if◌then◌else◌}
use taningia.Base.CString.{Text, codes}
use taningia.Base.Int.{ℤ, pos}
use taningia.Base.Run.{Run, ok, ◌>>=◌}
use taningia.Error.{ta_ok, ta_error}
use taningia.Iri.{strdup}
use taningia.Object
use taningia.Object.{xmpp_client_free, is_zero}
use taningia.Xmpp.{
  Pointer, Features, Client, HashTable, Library, State, parser_delete, filter_delete, stack_delete,
  log_unref, table_destroy, perform,
}
use taningia.Xmpp.Events.{event_disconnect, deref}

-- IKS_JABBER_PORT
abbrev pub iks_jabber_port : ℤ
iks_jabber_port = pos 5222

abbrev pub no_features : Features
no_features = record { bind = false; session = false; sasl_md5 = false; sasl_plain = false }

-- The table behind `ta_xmpp_client_init`.
unfoldable pub init_events : (table : HashTable) → table.Table
init_events table =
    let t1 = table.set table.create (codes "connected") none in
    let t2 = table.set t1 (codes "authenticated") none in
    let t3 = table.set t2 (codes "authentication-failed") none in
    let t4 = table.set t3 (codes "message-received") none in
    table.set t4 (codes "presence-noticed") none

module _ (lib : Library) where
  -- `ta_xmpp_client_init`
  unfoldable pub init : Text → Text → Text → ℤ → State lib → Run (State lib)
  unfolding init_events
  init jid password host port w = do
    jid' ← strdup jid
    password' ← strdup password
    name ← deref jid'
    ok (record w {
      client = record {
        parent = Object.init (some xmpp_client_free);
        jid = jid';
        password = password';
        host = host;
        port = (if is_zero port then iks_jabber_port else port);
        use_sasl = true;
        use_tls = false;
        parser = none;
        idstack = true;
        id = lib.id_new name;
        filter = none;
        features = no_features;
        authenticated = false;
        running = false;
        logger = true;
        events = some (init_events lib.table);
      };
    })

  -- `if (client->parser) { iks_parser_delete …; client->parser = NULL; }`
  unfoldable pub drop_parser : State lib → State lib
  drop_parser w = elim w.client.parser [
    | none ↦ w
    | some p ↦
        perform lib (parser_delete (some p))
          (record w { client = record w.client { parser = none } })
  ]

  -- The same for the filter.
  unfoldable pub drop_filter : State lib → State lib
  drop_filter w = elim w.client.filter [
    | none ↦ w
    | some p ↦
        perform lib (filter_delete (some p))
          (record w { client = record w.client { filter = none } })
  ]

  -- The fields of the libraries that `ta_xmpp_client_free` releases and sets to NULL.
  unfoldable pub free_fields : State lib → State lib
  unfolding drop_parser drop_filter
  free_fields w =
      let w1 = record w { client = record w.client { jid = none; password = none; host = none } } in
      let w2 =
        if w1.client.idstack
        then perform lib stack_delete (record w1 { client = record w1.client { idstack = false } })
        else w1 in
      let w3 = drop_filter (drop_parser w2) in
      if w3.client.logger
      then perform lib log_unref (record w3 { client = record w3.client { logger = false } })
      else w3

  -- `ta_xmpp_client_free`
  unfoldable pub free : ℕ → State lib → Run (State lib)
  unfolding free_fields event_disconnect
  free fuel w = do
    (r1, w1) ← event_disconnect lib fuel (codes "connected") none (free_fields w)
    (r2, w2) ← event_disconnect lib fuel (codes "authenticated") none w1
    (r3, w3) ← event_disconnect lib fuel (codes "authentication-failed") none w2
    (r4, w4) ← event_disconnect lib fuel (codes "message-received") none w3
    (r5, w5) ← event_disconnect lib fuel (codes "presence-noticed") none w4
    elim w5.client.events [
      | none ↦ ok w5
      | some t ↦
          ok (perform lib table_destroy (record w5 { client = record w5.client { events = none } }))
    ]

module _ {Table : Type 0} where
  unfoldable pub get_jid : Client Table → Text
  get_jid client = client.jid

  unfoldable pub get_password : Client Table → Text
  get_password client = client.password

  unfoldable pub set_password : Client Table → Text → Run (Client Table)
  set_password client password = do copy ← strdup password; ok (record client { password = copy })

  unfoldable pub get_host : Client Table → Text
  get_host client = client.host

  unfoldable pub set_host : Client Table → Text → Run (Client Table)
  set_host client host = do copy ← strdup host; ok (record client { host = copy })

  unfoldable pub get_port : Client Table → ℤ
  get_port client = client.port

  unfoldable pub set_port : Client Table → ℤ → Client Table
  set_port client port = record client { port = port }

  unfoldable pub get_logger : Client Table → Bool
  get_logger client = client.logger

  unfoldable pub get_filter : Client Table → Pointer
  get_filter client = client.filter

  -- `ta_xmpp_client_is_running`
  unfoldable pub is_running : Client Table → ℤ
  is_running client = if client.running then ta_ok else ta_error

module _ (lib : Library) where
  -- `ta_xmpp_client_set_jid`
  unfoldable pub set_jid : Client lib.table.Table → Text → Run (Client lib.table.Table)
  set_jid client jid = do
    copy ← strdup jid
    name ← deref jid
    ok (record client { jid = copy; id = lib.id_new name })
