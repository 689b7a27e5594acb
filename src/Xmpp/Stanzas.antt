-- ===== src/Xmpp/Stanzas.antt =====
-- src/xmpp.c, what the client sends: plain stanzas, the presence, stanzas whose answer is watched,
-- and the callbacks of the filter.
use taningia.Base.{ℕ, suc, Bool, true, false, ◌||◌, none, some, ◌==◌, if◌then◌else◌}
use taningia.Base.CString.{Bytes, Text, codes}
use taningia.Base.Int.{pos}
use taningia.Base.Run.{Run, ok, ◌>>=◌}
use taningia.Error.{report, ta_ok}
use taningia.Iri.{strdup}
use taningia.TaList.Remove.{is_null}
use taningia.Log.{warn}
use taningia.Xmpp.{
  Pointer, Result, iks_ok, Rule, on_message, on_presence, on_id, WatchData, Library, State, Status,
  own, passed, send, delete, log, add_rule, remove_rule, filter_packet, perform, result,
}
use taningia.Xmpp.Events.{deref, store, call_event_hooks}

abbrev pub xmpp_send_error : ℕ
xmpp_send_error = 302

-- `err == IKS_OK`
abbrev pub is_ok : Result → Bool
is_ok iks_ok = true
is_ok _ = false

module _ (lib : Library) where
  -- `ta_log_warn` and `ta_error_set` where `iks_send` fails.
  unfoldable pub send_failed : Bytes → Bytes → State lib → Run (State lib)
  unfolding report
  send_failed warning message w = do
    g ← report xmpp_send_error message w.errors
    ok (record (perform lib (log warn warning) w) { errors = g })

  -- `ta_xmpp_client_send`
  unfoldable pub send_node : lib.xml.Node → State lib → Run (Status × State lib)
  unfolding send_failed
  send_node node w =
      let w1 = perform lib (send w.client.parser node) w in
      let failed = (do
        w2 ← send_failed (codes "Fail to send the stanza") (codes "Failed to send the stanza") w1
        ok (passed (result lib w1), w2)) in
      if is_ok (result lib w1) then ok (own ta_ok, w1) else failed

  -- `ta_xmpp_client_send_presence`
  unfoldable pub send_presence : ℕ → Text → State lib → Run (Status × State lib)
  unfolding send_failed
  send_presence type msg w =
      let pres = lib.make_pres type msg in
      let w1 = perform lib (send w.client.parser pres) w in
      let failed = (do
        w2 ←
            send_failed (codes "Fail to send the presence stanza")
              (codes "Failed to send the presence stanza") w1
        ok (passed (result lib w1), w2)) in
      if is_ok (result lib w1) then ok (own ta_ok, perform lib (delete pres) w1) else failed

  -- `wdata_new`
  unfoldable pub wdata_new : Text → ℕ → ℕ → Pointer → State lib → Run (ℕ × State lib)
  wdata_new stanza_id callback user free_data w = do
    copy ← strdup stanza_id
    let wdata : WatchData = record {
      stanza_id = copy;
      rule = none;
      callback = callback;
      user = user;
      free_data_func = free_data;
    }
    ok (w.fresh, record w { watches = store w.fresh (some wdata) w.watches; fresh = suc w.fresh })

  -- `if (wdata->free_data_func && wdata->data) …`
  unfoldable pub free_user : WatchData → State lib → Run (State lib)
  free_user wdata w = elim wdata.free_data_func [
    | none ↦ ok w
    | some f ↦ let freed = lib.free_data f wdata.user w in if wdata.user == 0 then ok w else freed
  ]

  -- `wdata_free`
  unfoldable pub wdata_free : ℕ → State lib → Run (State lib)
  unfolding free_user
  wdata_free val w = do
    wdata ← deref (w.watches val)
    w' ← free_user wdata w
    ok (record w' { watches = store val none w'.watches })

  -- `iks_filter_add_rule` for the answer, and the assignments to `wdata` behind it.
  unfoldable pub add_watch : Text → Bytes → ℕ → State lib → Run (State lib)
  add_watch stanza_id key at w = do
    wdata ← deref (w.watches at)
    let w1 = perform lib (add_rule w.client.filter (on_id key at)) w
    let wdata' : WatchData = record wdata { rule = lib.rule_of w1.trace; stanza_id = stanza_id }
    ok (record w1 { watches = store at (some wdata') w1.watches })

  -- `ta_xmpp_client_send_and_filter` behind the test of the stanza's id.
  unfoldable pub send_watched :
      lib.xml.Node → Bytes → ℕ → ℕ → Pointer → State lib → Run (Status × State lib)
  unfolding wdata_new add_watch send_failed wdata_free
  send_watched node key callback user free_cb w = do
    (at, w1) ← wdata_new (some key) callback user free_cb w
    w2 ← add_watch (some key) key at w1
    let w3 = perform lib (send w2.client.parser node) w2
    let failed = (do
      w4 ← send_failed (codes "Fail to send the stanza") (codes "Failed to send the stanza") w3
      wdata ← deref (w4.watches at)
      w5 ← wdata_free at (perform lib (remove_rule w4.client.filter wdata.rule) w4)
      ok (passed (result lib w3), w5))
    if is_ok (result lib w3) then ok (passed (result lib w3), w3) else failed

  -- `ta_xmpp_client_send_and_filter`
  unfoldable pub send_and_filter :
      lib.xml.Node → ℕ → ℕ → Pointer → State lib → Run (Status × State lib)
  unfolding send_watched
  send_and_filter node callback user free_cb w = elim (lib.xml.find_attrib node (codes "id")) [
    | none ↦ ok (own (pos 1), w)
    | some key ↦ send_watched node key callback user free_cb w
  ]

  -- `_ta_xmpp_client_ikshook_watcher`
  unfoldable pub watcher : ℕ → lib.Packet → State lib → Run (State lib)
  unfolding wdata_free
  watcher at pak w = do
    wdata ← deref (w.watches at)
    w1 ← lib.run_answer wdata.callback (lib.node_of pak) wdata.user w
    wdata' ← deref (w1.watches at)
    let keep = is_null w1.client.filter || is_null wdata'.rule
    wdata_free at (if keep then w1 else perform lib (remove_rule w1.client.filter wdata'.rule) w1)

  -- The callback of the rule that a packet fires: `_ta_xmpp_client_ikshook_message_received`,
  -- `_ta_xmpp_client_ikshook_presence_noticed` or the watcher, which all return IKS_FILTER_EAT.
  unfoldable pub fire : ℕ → Rule → lib.Packet → State lib → Run (State lib)
  unfolding call_event_hooks watcher
  fire fuel on_message pak w = call_event_hooks lib fuel (codes "message-received") (some pak) w
  fire fuel on_presence pak w = call_event_hooks lib fuel (codes "presence-noticed") (some pak) w
  fire fuel (on_id key at) pak w = watcher at pak w

  -- `iks_filter_packet`, which runs the callback of a rule.
  unfoldable pub filter_node : ℕ → Pointer → lib.xml.Node → State lib → Run (State lib)
  unfolding fire
  filter_node fuel filter node w =
      let w' = perform lib (filter_packet filter node) w in
      elim (lib.fired w'.trace) [ none ↦ ok w' | some rule ↦ fire fuel rule (lib.packet node) w' ]
