-- ===== src/Xmpp/Stability.antt =====
-- What the callback of the stream of src/xmpp.c keeps: a predicate on the state that every step of
-- it keeps is kept by all that a `recv` delivers.
use taningia.Base.{
  ℕ, zero, suc, ◌≡◌, refl, Bool, true, false, ◌&&◌, ◌||◌, ◌==◌, not, Option, none, some, List, [],
  ◌∷◌, ◌⊎◌, inl, inr, if◌then◌else◌, arith,
}
use taningia.Base.CString.{Bytes, codes}
use taningia.Base.Run.{ok, After, >>=-After, >>=-After_any, if-After, if-Holds, option-After}
use taningia.TaList.{load}
use taningia.TaList.Remove.{is_null}
use taningia.Atom.Xml.{same_key}
use taningia.Xmpp.{
  Pointer, Call, send, filter_packet, start_tls, Features, Mechanism, Rule, on_message, on_presence,
  on_id, NodeType, node_start, node_normal, node_error, node_stop, WatchData, Library, State,
  perform, events_of, id_of,
}
use taningia.Xmpp.Events.{deref, call_hooks, call_event_hooks, list_of}
use taningia.Xmpp.Stanzas.{free_user, wdata_free, watcher, fire, filter_node}
use taningia.Xmpp.Stream.{
  send_off, bind_stanza, make_bind, open_session, bind_and_open, start, authenticate, on_features,
  on_success, on_start, secure_stream, old_authenticate, is_auth_result, on_other, on_node,
  on_event, hook,
}
use taningia.Xmpp.Loop.{deliver}

abbrev pub is_send : {Node : Type 0} → Call Node → Bool
is_send (send p x) = true
is_send _ = false

-- A predicate that the steps of the callback keep. A stanza is only sent without SASL or behind the
-- authentication, which may only happen where it is allowed.
pub record Stable (lib : Library) (allowed : Bool) (P : State lib → Type 0) : Type 0 where
  pub calls :
      (call : Call lib.xml.Node) (w : State lib)
      → is_send call ≡ false
      → P w
      → P (perform lib call w)
  pub sends :
      (x : lib.xml.Node) (w : State lib)
      → (w.client.use_sasl ≡ false) ⊎ (w.client.authenticated ≡ true)
      → P w
      → P (perform lib (send w.client.parser x) w)
  pub on_features :
      (f : Features) (w : State lib)
      → P w
      → P (record w { client = record w.client { features = f } })
  pub on_success :
      (w : State lib)
      → allowed ≡ true
      → P w
      → P (record w { client = record w.client { authenticated = true } })
  pub on_watches : (f : ℕ → Option WatchData) (w : State lib) → P w → P (record w { watches = f })
  pub on_hook :
      (k : ℕ) (pak : Option lib.Packet) (user : ℕ) (w : State lib)
      → P w
      → After (λ r. P r.1) (lib.run_hook k pak user w)
  pub on_answer :
      (k : ℕ) (x : lib.xml.Node) (user : ℕ) (w : State lib)
      → P w
      → After P (lib.run_answer k x user w)
  pub on_free : (f user : ℕ) (w : State lib) → P w → After P (lib.free_data f user w)

-- No node delivered is a `success`, or one is allowed.
unfoldable pub spared : (lib : Library) → Bool → List (NodeType × Option lib.xml.Node) → Bool
spared lib allowed [] = true
spared lib allowed ((node_normal, some x) ∷ nodes) =
    (allowed || not (same_key (lib.xml.name x) (codes "success"))) && spared lib allowed nodes
spared lib allowed ((type, x) ∷ nodes) = spared lib allowed nodes

-- Hooks that keep a predicate.
abbrev pub HookKeeps : (lib : Library) → (State lib → Type 0) → Type 0
HookKeeps lib P =
    (k : ℕ) (pak : Option lib.Packet) (user : ℕ) (w : State lib)
    → P w
    → After (λ r. P r.1) (lib.run_hook k pak user w)

module _ (lib : Library) (P : State lib → Type 0) (keeps : HookKeeps lib P) where
  call_hooks-After :
      (fuel : ℕ) (tmp : Pointer) (pak : Option lib.Packet) (w : State lib)
      → P w
      → After P (call_hooks lib fuel tmp pak w)
  unfolding call_hooks After
  call_hooks-After zero tmp pak w p = tt
  call_hooks-After (suc fuel) none pak w p = p
  call_hooks-After (suc fuel) (some a) pak w p = >>=-After_any P (load w.lists a) _ (λ n.
      >>=-After_any P (deref (w.hooks n.datum)) _ (λ hdata.
        >>=-After (λ r. P r.1) P (lib.run_hook hdata.hook pak hdata.user w) _
          (keeps hdata.hook pak hdata.user w p)
          (λ r q.
            if-After P r.0 (ok r.1) _ (λ _. q)
              (λ _.
                >>=-After_any P (load r.1.lists a) _
                  (λ n'. call_hooks-After fuel n'.next pak r.1 q)))))

  pub call_event_hooks-After :
      (fuel : ℕ) (event : Bytes) (pak : Option lib.Packet) (w : State lib)
      → P w
      → After P (call_event_hooks lib fuel event pak w)
  unfolding call_event_hooks
  call_event_hooks-After fuel event pak w p =
      >>=-After_any P (events_of lib w) _
        (λ t. call_hooks-After fuel (list_of (lib.table.get_test t event)) pak w p)

module _ (lib : Library) (allowed : Bool) (P : State lib → Type 0) (s : Stable lib allowed P) where
  send_off-After :
      (x : lib.xml.Node) (w : State lib)
      → (w.client.use_sasl ≡ false) ⊎ (w.client.authenticated ≡ true)
      → P w
      → P (send_off lib x w)
  unfolding send_off
  send_off-After x w c p = s.calls _ _ refl (s.sends x w c p)

  -- The client behind a bind.
  abbrev Sent : State lib → Type 0
  Sent w = P w × (w.client.authenticated ≡ true)

  make_bind-After :
      (w : State lib) → P w → w.client.authenticated ≡ true → After Sent (make_bind lib w)
  unfolding make_bind send_off After
  make_bind-After w p a =
      >>=-After_any Sent (id_of lib w) _
        (λ i. (send_off-After (bind_stanza lib i.resource) w (inr a) p, a))

  bind_and_open-After :
      (w : State lib) → P w → w.client.authenticated ≡ true → After P (bind_and_open lib w)
  unfolding bind_and_open open_session After
  bind_and_open-After w p a =
      >>=-After Sent P (if w.client.features.bind then make_bind lib w else ok w) _
        (if-After Sent w.client.features.bind (make_bind lib w) (ok w) (λ _. make_bind-After w p a)
          (λ _. (p, a)))
        (λ w' q.
          if-Holds P w'.client.features.session (open_session lib w') w'
            (λ _. send_off-After _ w' (inr q.1) q.0) (λ _. q.0))

  start-After : (m : Mechanism) (w : State lib) → P w → After P (start lib m w)
  unfolding start After
  start-After m w p = >>=-After_any P (id_of lib w) _ (λ i. s.calls _ w refl p)

  authenticate-After : (w : State lib) → P w → After P (authenticate lib w)
  unfolding authenticate After
  authenticate-After w p =
      if-After P w.client.features.sasl_md5 _ _ (λ _. start-After _ w p)
        (λ _. if-After P w.client.features.sasl_plain _ _ (λ _. start-After _ w p) (λ _. p))

  on_features-After : (x : lib.xml.Node) (w : State lib) → P w → After P (on_features lib x w)
  unfolding on_features After
  on_features-After x w p =
      let q = s.on_features (lib.stream_features x) w p in
      if-After P w.client.use_sasl _ _
        (λ _.
          if-After P (w.client.use_tls && not (lib.is_secure w.trace)) _ _ (λ _. q)
            (λ _.
              if-After P w.client.authenticated _ _ (λ a. bind_and_open-After _ q a)
                (λ _. authenticate-After _ q)))
        (λ _. q)

  on_success-After : (w : State lib) → allowed ≡ true → P w → After P (on_success lib w)
  unfolding on_success After
  on_success-After w h p =
      >>=-After_any P (id_of lib w) _
        (λ i. s.calls _ _ refl (s.on_success _ h (s.calls _ w refl p)))

  on_start-After : (w : State lib) → P w → P (on_start lib w)
  unfolding on_start secure_stream old_authenticate
  on_start-After w p =
      let q =
        if-Holds P (w.client.use_tls && not (lib.is_secure w.trace)) _ w
          (λ _. s.calls (start_tls w.client.parser) w refl p) (λ _. p) in
      if-Holds P (secure_stream lib w).client.use_sasl _ _ (λ _. q)
        (λ h. send_off-After _ (secure_stream lib w) (inl h) q)

  free_user-After : (wdata : WatchData) (w : State lib) → P w → After P (free_user lib wdata w)
  unfolding free_user After
  free_user-After wdata w p =
      option-After P wdata.free_data_func (ok w) _ p
        (λ f. if-After P (wdata.user == 0) _ _ (λ _. p) (λ _. s.on_free f wdata.user w p))

  wdata_free-After : (at : ℕ) (w : State lib) → P w → After P (wdata_free lib at w)
  unfolding wdata_free After
  wdata_free-After at w p = >>=-After_any P (deref (w.watches at)) _ (λ wdata.
      >>=-After P P (free_user lib wdata w) _ (free_user-After wdata w p)
        (λ w' q. s.on_watches _ w' q))

  watcher-After : (at : ℕ) (pak : lib.Packet) (w : State lib) → P w → After P (watcher lib at pak w)
  unfolding watcher
  watcher-After at pak w p = >>=-After_any P (deref (w.watches at)) _ (λ wdata.
      >>=-After P P (lib.run_answer wdata.callback (lib.node_of pak) wdata.user w) _
        (s.on_answer wdata.callback (lib.node_of pak) wdata.user w p)
        (λ w1 q. >>=-After_any P (deref (w1.watches at)) _ (λ wdata'. wdata_free-After at _ (
          if-Holds P (is_null w1.client.filter || is_null wdata'.rule) w1 _ (λ _. q)
            (λ _. s.calls _ w1 refl q)))))

  fire-After :
      (fuel : ℕ) (rule : Rule) (pak : lib.Packet) (w : State lib)
      → P w
      → After P (fire lib fuel rule pak w)
  unfolding fire
  fire-After fuel on_message pak w p = call_event_hooks-After lib P s.on_hook fuel _ (some pak) w p
  fire-After fuel on_presence pak w p = call_event_hooks-After lib P s.on_hook fuel _ (some pak) w p
  fire-After fuel (on_id key at) pak w p = watcher-After at pak w p

  filter_node-After :
      (fuel : ℕ) (filter : Pointer) (x : lib.xml.Node) (w : State lib)
      → P w
      → After P (filter_node lib fuel filter x w)
  unfolding filter_node After
  filter_node-After fuel filter x w p =
      let q = s.calls (filter_packet filter x) w refl p in
      option-After P (lib.fired (filter_packet filter x ∷ w.trace)) (ok _) _ q
        (λ rule. fire-After fuel rule (lib.packet x) _ q)

  on_other-After :
      (fuel : ℕ) (x : lib.xml.Node) (w : State lib) → P w → After P (on_other lib fuel x w)
  unfolding on_other After
  on_other-After fuel x w p =
      if-After P (same_key (lib.xml.name x) (codes "failure")) _ _
        (λ _.
          call_event_hooks-After lib P s.on_hook fuel _ (some (lib.packet x)) _
            (s.calls _ w refl p))
        (λ _.
          option-After P w.client.filter (ok w) _ p
            (λ filter. filter_node-After fuel (some filter) x w p))

  on_node-After :
      (fuel : ℕ) (x : lib.xml.Node) (w : State lib)
      → (allowed || not (same_key (lib.xml.name x) (codes "success"))) ≡ true
      → P w
      → After P (on_node lib fuel x w)
  unfolding on_node
  on_node-After fuel x w h p =
      if-After P (same_key (lib.xml.name x) (codes "stream:features")) _ _
        (λ _. on_features-After x w p)
        (λ _.
          if-After P (same_key (lib.xml.name x) (codes "success")) _ _
            (λ e. let a : allowed ≡ true = ground arith in on_success-After w a p)
            (λ _.
              if-After P (is_auth_result lib x) _ _
                (λ _. call_event_hooks-After lib P s.on_hook fuel _ none w p)
                (λ _. on_other-After fuel x w p)))

  on_event-After :
      (fuel : ℕ) (type : NodeType) (x : Option lib.xml.Node) (w : State lib)
      → spared lib allowed ((type, x) ∷ []) ≡ true
      → P w
      → After P (on_event lib fuel type x w)
  unfolding on_event spared After
  on_event-After fuel node_start x w h p = on_start-After w p
  on_event-After fuel node_normal none w h p = tt
  on_event-After fuel node_normal (some x) w h p =
      let h' : (allowed || not (same_key (lib.xml.name x) (codes "success"))) ≡ true =
        ground arith in
      on_node-After fuel x w h' p
  on_event-After fuel node_error none w h p = tt
  on_event-After fuel node_error (some x) w h p = s.calls _ w refl p
  on_event-After fuel node_stop x w h p = p

  hook-After :
      (fuel : ℕ) (type : NodeType) (x : Option lib.xml.Node) (w : State lib)
      → spared lib allowed ((type, x) ∷ []) ≡ true
      → P w
      → After P (hook lib fuel type x w)
  unfolding hook After
  hook-After fuel type none w h p =
      >>=-After P P (on_event lib fuel type none w) _ (on_event-After fuel type none w h p)
        (λ _ q. q)
  hook-After fuel type (some x) w h p =
      >>=-After P P (on_event lib fuel type (some x) w) _ (on_event-After fuel type (some x) w h p)
        (λ w' q. s.calls _ w' refl q)

  spared-cons :
      (type : NodeType) (x : Option lib.xml.Node) (nodes : List (NodeType × Option lib.xml.Node))
      → spared lib allowed ((type, x) ∷ nodes) ≡ true
      → (spared lib allowed ((type, x) ∷ []) ≡ true) × (spared lib allowed nodes ≡ true)
  unfolding spared
  spared-cons node_normal (some x) nodes h = (ground arith, ground arith)
  spared-cons node_normal none nodes h = (refl, h)
  spared-cons node_start x nodes h = (refl, h)
  spared-cons node_error x nodes h = (refl, h)
  spared-cons node_stop x nodes h = (refl, h)

  pub deliver-After :
      (fuel : ℕ) (nodes : List (NodeType × Option lib.xml.Node)) (w : State lib)
      → spared lib allowed nodes ≡ true
      → P w
      → After P (deliver lib fuel nodes w)
  unfolding deliver After
  deliver-After fuel [] w h p = p
  deliver-After fuel ((type, x) ∷ nodes) w h p =
      let (one, rest) = spared-cons type x nodes h in
      >>=-After P P (hook lib fuel type x w) _ (hook-After fuel type x w one p)
        (λ w' q. deliver-After fuel nodes w' rest q)
