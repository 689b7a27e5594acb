-- ===== src/Xmpp/Loop.antt =====
-- src/xmpp.c, the main loop of the client.
use taningia.Base.{ℕ, zero, suc, true, false, Option, none, some, List, [], ◌∷◌, if◌then◌else◌}
use taningia.Base.CString.{Bytes, codes}
use taningia.Base.Int.{ℤ}
use taningia.Base.Run.{Run, ok, fault, ◌>>=◌}
use taningia.Error.{report, ta_ok, ta_error}
use taningia.Log.{info, error}
use taningia.Xmpp.{
  Result, iks_ok, iks_hook, net_nodns, net_noconn, net_rwerr, net_tlsfail, iks_other, NodeType,
  Library, State, recv, log, perform, result,
}
use taningia.Xmpp.Stream.{hook}

abbrev pub ta_xmpp_network_error : ℕ
ta_xmpp_network_error = 303

abbrev pub ta_xmpp_tls_error : ℕ
ta_xmpp_tls_error = 304

abbrev pub ta_xmpp_io_error : ℕ
ta_xmpp_io_error = 305

module _ (lib : Library) where
  -- What a `recv` delivers, each to the callback of the stream.
  unfoldable pub deliver : ℕ → List (NodeType × Option lib.xml.Node) → State lib → Run (State lib)
  unfolding hook
  deliver fuel [] w = ok w
  deliver fuel ((type, node) ∷ nodes) w = do w' ← hook lib fuel type node w; deliver fuel nodes w'

  -- `client->running = 0`
  abbrev pub stopped : State lib → State lib
  stopped w = record w { client = record w.client { running = false } }

  -- A case of the `switch` that ends the loop with an error.
  unfoldable pub fail : Bytes → ℕ → Bytes → State lib → Run (ℤ × State lib)
  unfolding report
  fail line code message w = do
    g ← report code message w.errors
    ok (ta_error, stopped (record (perform lib (log error line) w) { errors = g }))

  -- The `switch` of `_ta_xmpp_client_do_run`; `ret` is what was returned so far.
  unfoldable pub handle : Result → ℤ → State lib → Run (ℤ × State lib)
  unfolding fail
  handle iks_hook ret w = ok (ret, w)
  handle iks_ok ret w = ok (ret, w)
  handle net_noconn ret w =
      ok
        (ret, stopped (perform lib (log info (codes "Client not connected, stopping main loop")) w))
  handle net_rwerr ret w =
      fail (codes "Network error") ta_xmpp_network_error (codes "Network Error") w
  handle net_tlsfail ret w =
      fail (codes "TLS handshake failed") ta_xmpp_tls_error (codes "TLS handshake failed") w
  handle net_nodns ret w = fail (codes "IO error") ta_xmpp_io_error (codes "IO Error") w
  handle iks_other ret w = fail (codes "IO error") ta_xmpp_io_error (codes "IO Error") w

  -- A round of the loop: `iks_recv`, which calls the callback, and the `switch`.
  unfoldable pub round : ℕ → ℤ → State lib → Run (ℤ × State lib)
  unfolding deliver handle
  round fuel ret w =
      let w1 = perform lib (recv w.client.parser) w in
      (do w2 ← deliver fuel (lib.received w1.trace) w1; handle (result lib w1) ret w2)

  -- The loop of `_ta_xmpp_client_do_run`: `none` means that the rounds ran out.
  unfoldable pub loop : ℕ → ℕ → ℤ → State lib → Option (Run (ℤ × State lib))
  loop zero fuel ret w = none
  loop (suc rounds) fuel ret w =
      let next : Option (Run (ℤ × State lib)) = elim (round fuel ret w) [
        | fault ↦ some fault
        | ok (ret', w') ↦ loop rounds fuel ret' w'
      ] in
      if w.client.running
      then next
      else some (ok (ret, perform lib (log info (codes "Main loop thread dying")) w))

  -- `ta_xmpp_client_run` with `_ta_xmpp_client_do_run`.
  unfoldable pub run : ℕ → ℕ → State lib → Option (Run (ℤ × State lib))
  unfolding loop
  run rounds fuel w =
      loop rounds fuel ta_ok (record w { client = record w.client { running = true } })
