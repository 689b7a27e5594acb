-- ===== src/Xmpp/Ending.antt =====
-- The end of the main loop of src/xmpp.c.
use taningia.Base.{
  ℕ, zero, suc, ◌+◌, ◌≤◌, ◌≡◌, refl, Bool, true, false, Option, none, some, List, [], ◌∷◌, ◌⊎◌, inl,
  inr, arith, if◌then◌else◌, Bool-cases,
}
use taningia.Base.CString.{Bytes, codes}
use taningia.Base.Int.{ℤ}
use taningia.Base.Run.{Run, ok, fault, After, map-After, >>=-After}
use taningia.Error.{report, ta_ok, ta_error}
use taningia.Error.Laws.{report_lem}
use taningia.Log.{info}
use taningia.Xmpp.{
  Pointer, Call, recv, log, Result, iks_ok, iks_hook, net_nodns, net_noconn, net_rwerr, net_tlsfail,
  iks_other, NodeType, node_start, node_normal, node_error, node_stop, Library, State, perform,
}
use taningia.Xmpp.Stability.{Stable, spared, deliver-After}
use taningia.Xmpp.Loop.{
  ta_xmpp_io_error, ta_xmpp_network_error, ta_xmpp_tls_error, deliver, fail, handle, round, loop,
  run,
}

abbrev pub is_recv : {Node : Type 0} → Call Node → Bool
is_recv (recv p) = true
is_recv _ = false

-- The calls of `iks_recv`.
unfoldable pub receives : {Node : Type 0} → List (Call Node) → ℕ
receives [] = 0
receives (call ∷ trace) = if is_recv call then suc (receives trace) else receives trace

-- The results behind which the loop goes on.
abbrev pub goes_on : Result → Bool
goes_on iks_ok = true
goes_on iks_hook = true
goes_on _ = false

-- At least `n` calls were made.
abbrev Received : (lib : Library) → ℕ → State lib → Type 0
Received lib n w = n ≤ receives w.trace

-- Functions of the user that take back none of the calls that were made.
pub record Forward (lib : Library) : Type 0 where
  pub on_hook :
      (n k : ℕ) (pak : Option lib.Packet) (user : ℕ) (w : State lib)
      → n ≤ receives w.trace
      → After (λ r. n ≤ receives r.1.trace) (lib.run_hook k pak user w)
  pub on_answer :
      (n k : ℕ) (x : lib.xml.Node) (user : ℕ) (w : State lib)
      → n ≤ receives w.trace
      → After (λ w'. n ≤ receives w'.trace) (lib.run_answer k x user w)
  pub on_free :
      (n f user : ℕ) (w : State lib)
      → n ≤ receives w.trace
      → After (λ w'. n ≤ receives w'.trace) (lib.free_data f user w)

module _ (lib : Library) where
  receives-call :
      (n : ℕ) (call : Call lib.xml.Node) (trace : List (Call lib.xml.Node))
      → n ≤ receives trace
      → n ≤ receives (call ∷ trace)
  unfolding receives
  receives-call n call trace h = ground arith

  Received-Stable : (n : ℕ) (u : Forward lib) → Stable lib true (Received lib n)
  Received-Stable n u = record {
    calls = λ call w h p. receives-call n call w.trace p;
    sends = λ x w h p. receives-call n _ w.trace p;
    on_features = λ f w p. p;
    on_success = λ w h p. p;
    on_watches = λ f w p. p;
    on_hook = u.on_hook n;
    on_answer = u.on_answer n;
    on_free = u.on_free n;
  }

  spared_all : (nodes : List (NodeType × Option lib.xml.Node)) → spared lib true nodes ≡ true
  unfolding spared
  spared_all [] = refl
  spared_all ((node_normal, some x) ∷ nodes) = spared_all nodes
  spared_all ((node_normal, none) ∷ nodes) = spared_all nodes
  spared_all ((node_start, x) ∷ nodes) = spared_all nodes
  spared_all ((node_error, x) ∷ nodes) = spared_all nodes
  spared_all ((node_stop, x) ∷ nodes) = spared_all nodes

  -- The loop is over, with TA_OK, or with TA_ERROR and an error that can be read.
  abbrev pub Reported : ℤ × State lib → Type 0
  Reported (ret, w) = (ret ≡ ta_ok) ⊎ ((ret ≡ ta_error) × (w.errors.last_error ≡ true))

  abbrev pub Ended : ℤ × State lib → Type 0
  Ended r = (r.1.client.running ≡ false) × Reported r

  fail-Ended :
      (line : Bytes) (code : ℕ) (message : Bytes) (w : State lib)
      → After Ended (fail lib line code message w)
  unfolding fail After
  fail-Ended line code message w =
      >>=-After (λ g. g.last_error ≡ true) Ended (report code message w.errors) _
        (report_lem code message w.errors) (λ g h. (refl, inr (refl, h)))

  handle-Ended :
      (r : Result) (w : State lib) → goes_on r ≡ false → After Ended (handle lib r ta_ok w)
  unfolding handle After
  handle-Ended iks_ok w h = absurd (ground arith)
  handle-Ended iks_hook w h = absurd (ground arith)
  handle-Ended net_noconn w h = (refl, inl refl)
  handle-Ended net_nodns w h = fail-Ended (codes "IO error") ta_xmpp_io_error (codes "IO Error") w
  handle-Ended net_rwerr w h =
      fail-Ended (codes "Network error") ta_xmpp_network_error (codes "Network Error") w
  handle-Ended net_tlsfail w h =
      fail-Ended (codes "TLS handshake failed") ta_xmpp_tls_error (codes "TLS handshake failed") w
  handle-Ended iks_other w h = fail-Ended (codes "IO error") ta_xmpp_io_error (codes "IO Error") w

  handle-goes_on :
      (r : Result) (ret : ℤ) (w : State lib) → goes_on r ≡ true → handle lib r ret w ≡ ok (ret, w)
  unfolding handle
  handle-goes_on iks_ok ret w h = refl
  handle-goes_on iks_hook ret w h = refl
  handle-goes_on net_noconn ret w h = absurd (ground arith)
  handle-goes_on net_nodns ret w h = absurd (ground arith)
  handle-goes_on net_rwerr ret w h = absurd (ground arith)
  handle-goes_on net_tlsfail ret w h = absurd (ground arith)
  handle-goes_on iks_other ret w h = absurd (ground arith)

  -- What the library answers to the `recv` of a round.
  abbrev answered : State lib → Result
  answered w = lib.reply (recv w.client.parser ∷ w.trace)

  -- Behind a round, the loop goes on with one call more, or is over.
  abbrev Next : State lib → ℤ × State lib → Type 0
  Next w r =
      ((goes_on (answered w) ≡ true)
        × (r.0 ≡ ta_ok)
        × (suc (receives w.trace) ≤ receives r.1.trace))
      ⊎ Ended r

  round-Next :
      (u : Forward lib) (fuel : ℕ) (w : State lib) → After (Next w) (round lib fuel ta_ok w)
  unfolding round receives After
  round-Next u fuel w =
      let w1 : State lib = perform lib (recv w.client.parser) w in
      let more : suc (receives w.trace) ≤ receives w1.trace = omega arith in
      >>=-After (Received lib (suc (receives w.trace))) (Next w)
        (deliver lib fuel (lib.received w1.trace) w1) _
        (deliver-After lib true (Received lib (suc (receives w.trace))) (Received-Stable _ u) fuel
          (lib.received w1.trace) w1 (spared_all (lib.received w1.trace)) more)
        (λ w2 q. elim (Bool-cases (goes_on (answered w))) [
          | inl e ↦ rw (handle-goes_on (answered w) ta_ok w2 e) (inl (e, refl, q))
          | inr e ↦ map-After Ended (Next w) _ (λ r h. inr h) (handle-Ended (answered w) w2 e)
        ])

  -- The loop ends within the rounds given.
  abbrev Ends : ℕ → ℕ → State lib → Type 0
  Ends rounds fuel w =
      (r : Run (ℤ × State lib)) × (loop lib rounds fuel ta_ok w ≡ some r) × After Ended r

  loop_stopped :
      (rounds fuel : ℕ) (ret : ℤ) (w : State lib)
      → Ended (ret, w)
      → (r : Run (ℤ × State lib)) × (loop lib (suc rounds) fuel ret w ≡ some r) × After Ended r
  unfolding loop After
  loop_stopped rounds fuel ret w (e, h) =
      (ok (ret, perform lib (log info (codes "Main loop thread dying")) w), rw e refl, (e, h))

  -- A round of a client that runs.
  round-Ends :
      (rounds fuel : ℕ) (w : State lib) (r : Run (ℤ × State lib))
      → w.client.running ≡ true
      → round lib fuel ta_ok w ≡ r
      → After (Next w) r
      → ((w' : State lib)
          → goes_on (answered w) ≡ true
          → suc (receives w.trace) ≤ receives w'.trace
          → Ends (suc rounds) fuel w')
      → Ends (suc (suc rounds)) fuel w
  unfolding loop After
  round-Ends rounds fuel w fault up e h k = (fault, rw (e, up) refl, tt)
  round-Ends rounds fuel w (ok (ret, w')) up e (inl (g, here, q)) k =
      let (r, eq, h) = k w' g q in (r, rw (e, here, up) eq, h)
  round-Ends rounds fuel w (ok (ret, w')) up e (inr end) k =
      let (r, eq, h) = loop_stopped rounds fuel ret w' end in (r, rw (e, up) eq, h)

  loop-Ends :
      (u : Forward lib) (limit fuel left : ℕ) (w : State lib)
      → ((p : Pointer) (t : List (Call lib.xml.Node))
          → limit ≤ receives t
          → goes_on (lib.reply (recv p ∷ t)) ≡ false)
      → limit ≤ left + receives w.trace
      → Ends (suc (suc left)) fuel w
  loop-Ends u limit fuel zero w dies h = elim (Bool-cases w.client.running) [
    | inr stop ↦ loop_stopped 1 fuel ta_ok w (stop, inl refl)
    | inl up ↦
        let over : goes_on (answered w) ≡ false = dies w.client.parser w.trace (omega arith) in
        round-Ends 0 fuel w (round lib fuel ta_ok w) up refl (round-Next u fuel w)
          (λ w' g q. absurd (ground arith))
  ]
  loop-Ends u limit fuel (suc left) w dies h = elim (Bool-cases w.client.running) [
    | inr stop ↦ loop_stopped (suc (suc left)) fuel ta_ok w (stop, inl refl)
    | inl up ↦
        round-Ends (suc left) fuel w (round lib fuel ta_ok w) up refl (round-Next u fuel w)
          (λ w' g q. loop-Ends u limit fuel left w' dies (omega arith))
  ]

-- A network that reports something other than IKS_OK and IKS_HOOK once `limit` calls of `iks_recv`
-- were made, and functions of the user that take no call back: `ta_xmpp_client_run` ends within
-- `limit` rounds and two, whatever is received and whatever the hooks do. Where it returns, the
-- client does not run, and the result is TA_OK, or TA_ERROR with an error that `ta_error_last` gives.
pub run-Ended :
    (lib : Library) (u : Forward lib) (limit fuel : ℕ) (w : State lib)
    → ((p : Pointer) (t : List (Call lib.xml.Node))
        → limit ≤ receives t
        → goes_on (lib.reply (recv p ∷ t)) ≡ false)
    → (r : Run (ℤ × State lib)) × (run lib (suc (suc limit)) fuel w ≡ some r) × After (Ended lib) r
unfolding run
run-Ended lib u limit fuel w dies =
    let w' : State lib = record w { client = record w.client { running = true } } in
    loop-Ends lib u limit fuel limit w' dies (omega arith)
