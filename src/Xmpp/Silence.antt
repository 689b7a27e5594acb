-- ===== src/Xmpp/Silence.antt =====
-- What the client of src/xmpp.c does before the server reports the success of the authentication.
use taningia.Base.{
  ℕ, suc, ◌≡◌, refl, true, false, Option, List, [], ◌∷◌, ◌⊎◌, inl, inr, ◌∙◌, arith, if◌then◌else◌,
}
use taningia.Base.Run.{ok, After, ok-After}
use taningia.Xmpp.{Call, send, NodeType, Library, State, perform}
use taningia.Xmpp.Stability.{Stable, is_send, spared, deliver-After}
use taningia.Xmpp.Loop.{deliver}

-- The stanzas sent.
unfoldable pub sends : {Node : Type 0} → List (Call Node) → ℕ
sends [] = 0
sends (call ∷ trace) = if is_send call then suc (sends trace) else sends trace

-- The client waits for the authentication, and `n` stanzas were sent.
unfoldable pub Waits : (lib : Library) → ℕ → State lib → Type 0
unfolding sends
Waits lib n w = (w.client.authenticated ≡ false) × (w.client.use_sasl ≡ true) × (sends w.trace ≡ n)

-- Functions of the user that leave such a client as it is, whatever else they do.
pub record Calm (lib : Library) : Type 0 where
  pub on_hook :
      (n k : ℕ) (pak : Option lib.Packet) (user : ℕ) (w : State lib)
      → Waits lib n w
      → After (λ r. Waits lib n r.1) (lib.run_hook k pak user w)
  pub on_answer :
      (n k : ℕ) (x : lib.xml.Node) (user : ℕ) (w : State lib)
      → Waits lib n w
      → After (Waits lib n) (lib.run_answer k x user w)
  pub on_free :
      (n f user : ℕ) (w : State lib) → Waits lib n w → After (Waits lib n) (lib.free_data f user w)

module _ (lib : Library) where
  sends-other :
      (call : Call lib.xml.Node) (trace : List (Call lib.xml.Node))
      → is_send call ≡ false
      → sends (call ∷ trace) ≡ sends trace
  unfolding sends
  sends-other call trace h = rw h refl

  -- A client that waits is in no state in which it sends.
  Waits-send :
      (n : ℕ) (w w' : State lib)
      → (w.client.use_sasl ≡ false) ⊎ (w.client.authenticated ≡ true)
      → Waits lib n w
      → Waits lib n w'
  unfolding Waits
  Waits-send n w w' (inl e) (a, s, m) = absurd (ground arith)
  Waits-send n w w' (inr e) (a, s, m) = absurd (ground arith)

  Waits-Stable : (n : ℕ) (c : Calm lib) → Stable lib false (Waits lib n)
  unfolding Waits
  Waits-Stable n c = record {
    calls = λ call w h p. (p.0, p.1, sends-other call w.trace h ∙ p.2);
    sends = λ x w h p. Waits-send n w (perform lib (send w.client.parser x) w) h p;
    on_features = λ f w p. p;
    on_success = λ w h p. absurd (ground arith);
    on_watches = λ f w p. p;
    on_hook = c.on_hook n;
    on_answer = c.on_answer n;
    on_free = c.on_free n;
  }

-- Nodes that a `recv` delivers to a client with SASL that is not authenticated, none of them a
-- `success`, and functions of the user that neither send stanzas nor touch these flags: the client
-- is not authenticated behind them either, and no stanza was sent.
pub deliver-sends :
    (lib : Library) (c : Calm lib) (fuel : ℕ) (nodes : List (NodeType × Option lib.xml.Node))
    (w w' : State lib)
    → w.client.use_sasl ≡ true
    → w.client.authenticated ≡ false
    → spared lib false nodes ≡ true
    → deliver lib fuel nodes w ≡ ok w'
    → (w'.client.authenticated ≡ false) × (sends w'.trace ≡ sends w.trace)
unfolding Waits
deliver-sends lib c fuel nodes w w' s a h e =
    let (a', s', n) = ok-After (Waits lib (sends w.trace)) (deliver lib fuel nodes w) w' e (
      deliver-After lib false (Waits lib (sends w.trace)) (Waits-Stable lib (sends w.trace) c) fuel
        nodes w h (a, s, refl)) in
    (a', n)
