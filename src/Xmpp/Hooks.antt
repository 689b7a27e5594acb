-- ===== src/Xmpp/Hooks.antt =====
-- The hooks of an event of src/xmpp.c: the order in which they are called, and how one is added.
use taningia.Base.{
  ℕ, zero, suc, ◌<◌, ◌≡◌, refl, sym, ◌∙◌, true, false, Option, none, some, List, [], ◌∷◌, ◌++◌,
  ◌==◌, length, arith, if◌then◌else◌,
}
use taningia.Base.CString.{Bytes}
use taningia.Base.Int.{pos}
use taningia.Base.Run.{Run, ok, ◌>>=◌, After, >>=-After_any, if-After, >>=-ext, ok-After}
use taningia.TaList
use taningia.TaList.{Heap, Node, Pointer, load, append, link, update, new}
use taningia.TaList.Chain.{Chain, Entry, mentions, distinct}
use taningia.TaList.Changing.{append-Chain}
use taningia.Atom.Xml.{same_key}
use taningia.Xmpp.{HookData, Library, State, events_of}
use taningia.Xmpp.Events.{
  deref, store, set_event, hdata_new, call_hooks, call_event_hooks, connect_hook, event_connect,
}

-- The nodes of a list point at these hooks.
unfoldable pub Loaded : (ℕ → Option HookData) → List Entry → List HookData → Type 0
Loaded cells [] [] = Unit {0}
Loaded cells [] (h ∷ hs) = ⊥
Loaded cells ((a, d) ∷ xs) [] = ⊥
Loaded cells ((a, d) ∷ xs) (h ∷ hs) = (cells d ≡ some h) × Loaded cells xs hs

module _ (lib : Library) where
  -- The hooks in their order, up to the first that returns a true value.
  unfoldable pub run_until : List HookData → Option lib.Packet → State lib → Run (State lib)
  run_until [] pak w = ok w
  run_until (h ∷ hs) pak w = do
    (stop, w') ← lib.run_hook h.hook pak h.user w
    let rest = run_until hs pak w'
    if stop then ok w' else rest

  -- Hooks that do not connect or disconnect hooks.
  abbrev pub KeepsHooks : Type 0
  KeepsHooks =
      (k : ℕ) (pak : Option lib.Packet) (user : ℕ) (w : State lib)
      → After (λ r. (r.1.lists ≡ w.lists) × (r.1.hooks ≡ w.hooks)) (lib.run_hook k pak user w)

  call_hooks-run_until :
      (keeps : KeepsHooks) (fuel : ℕ) (pak : Option lib.Packet) (h : Heap)
      (cells : ℕ → Option HookData) (xs : List Entry) (hs : List HookData) (q p : Pointer)
      (w : State lib)
      → w.lists ≡ h
      → w.hooks ≡ cells
      → Chain h q p xs
      → Loaded cells xs hs
      → length xs < fuel
      → call_hooks lib fuel p pak w ≡ run_until hs pak w
  unfolding call_hooks run_until Chain Loaded
  call_hooks-run_until keeps zero pak h cells xs hs q p w l c at held f = absurd (omega arith)
  call_hooks-run_until keeps (suc fuel) pak h cells [] [] q p w l c at held f = rw at refl
  call_hooks-run_until keeps (suc fuel) pak h cells [] (hd ∷ hs) q p w l c at held f = absurd held
  call_hooks-run_until keeps (suc fuel) pak h cells ((a, d) ∷ xs) [] q p w l c at held f =
      absurd held
  call_hooks-run_until keeps (suc fuel) pak h cells ((a, d) ∷ xs) (hd ∷ hs) q p w l c
        (n, at, cell, rest) (here, held) f =
      let node' : Node = record { prev = q; next = n; datum = d } in
      let one : load w.lists a ≡ ok node' = rw (l, cell) refl in
      let two : deref (w.hooks d) ≡ ok hd = rw (c, here) refl in
      rw (at, one, two)
        (>>=-ext _ (lib.run_hook hd.hook pak hd.user w) _ _ (keeps hd.hook pak hd.user w) (λ r k.
          let l' : r.1.lists ≡ h = k.0 ∙ l in
          let c' : r.1.hooks ≡ cells = k.1 ∙ c in
          let one' : load r.1.lists a ≡ ok node' = rw (l', cell) refl in
          let rest' : call_hooks lib fuel n pak r.1 ≡ run_until hs pak r.1 =
            call_hooks-run_until keeps fuel pak h cells xs hs (some a) n r.1 l' c' rest held
              (omega arith) in
          rw (one', rest') refl))

-- The list of an event, and hooks that neither connect nor disconnect hooks: with more fuel than
-- hooks `_ta_xmpp_client_call_event_hooks` calls them in the order of the list, each with the
-- client that the one before left, and stops behind the first that returns a true value.
pub call_event_hooks-run_until :
    (lib : Library) (keeps : KeepsHooks lib) (fuel : ℕ) (event : Bytes) (pak : Option lib.Packet)
    (xs : List Entry) (hs : List HookData) (t : lib.table.Table) (p : Pointer) (w : State lib)
    → w.client.events ≡ some t
    → lib.table.get_test t event ≡ some p
    → Chain w.lists none p xs
    → Loaded w.hooks xs hs
    → length xs < fuel
    → call_event_hooks lib fuel event pak w ≡ run_until lib hs pak w
unfolding call_event_hooks
call_event_hooks-run_until lib keeps fuel event pak xs hs t p w e g at held f =
    let found : events_of lib w ≡ ok t = rw e refl in
    rw (found, g)
      (call_hooks-run_until lib keeps fuel pak w.lists w.hooks xs hs none p w refl refl at held f)

-- The list that is returned starts at this node.
abbrev Starts : ℕ → Heap × Pointer → Type 0
Starts l r = r.1 ≡ some l

link-head : (fuel ptr : ℕ) (h : Heap) (l : ℕ) → After (Starts l) (link fuel ptr h (some l))
unfolding link After
link-head fuel ptr h l = >>=-After_any (Starts l) (TaList.last fuel h (some l)) _ (λ end.
    >>=-After_any (Starts l) (update (λ n. record n { next = some ptr }) end h) _ (λ h1.
      >>=-After_any (Starts l) (update (λ n. record n { prev = end }) (some ptr) h1) _
        (λ h2. refl)))

append-head : (fuel : ℕ) (h : Heap) (l d : ℕ) → After (Starts l) (append fuel h (some l) d)
unfolding append After
append-head fuel h l d =
    let (ptr, h') = new h in
    if-After (Starts l) (d == 0) (ok (h, some l)) _ (λ _. refl)
      (λ _.
        >>=-After_any (Starts l) (update (λ n. record n { next = none; datum = d }) (some ptr) h') _
          (λ h1. link-head fuel ptr h1 l))

pub same_key_refl : (k : Bytes) → same_key k k ≡ true
same_key_refl [] = refl
same_key_refl (b ∷ k) = rw (same_key_refl k) (ground arith)

-- What the client has behind `event_connect` where it had the list `xs` for the event.
abbrev pub Connected :
    (lib : Library) → Bytes → List Entry → HookData → State lib → State lib → Type 0
Connected lib event xs hdata w w' =
    (t' : lib.table.Table) × (p' : Pointer) × (w'.client.events ≡ some t')
    × (lib.table.get_test t' event ≡ some p')
    × Chain w'.lists none p' (xs ++ (w.lists.top, w.fresh) ∷ [])
    × (w'.hooks w.fresh ≡ some hdata)

-- The client with the block of a hook and other lists.
abbrev with_hook : (lib : Library) → HookData → Heap → State lib → State lib
with_hook lib hdata h w = record w {
  hooks = store w.fresh (some hdata) w.hooks;
  fresh = suc w.fresh;
  lists = h;
}

connect_hook-Connected :
    (lib : Library) (fuel : ℕ) (event : Bytes) (xs : List Entry) (t : lib.table.Table) (p : Pointer)
    (hdata : HookData) (w : State lib)
    → w.client.events ≡ some t
    → lib.table.get_test t event ≡ some p
    → Chain w.lists none p xs
    → distinct xs ≡ true
    → mentions w.lists.top xs ≡ false
    → length xs < fuel
    → 0 < w.fresh
    → (w' : State lib) × (connect_hook lib fuel t event p w.fresh
          (record w { hooks = store w.fresh (some hdata) w.hooks; fresh = suc w.fresh })
        ≡ ok (pos 1, w'))
      × Connected lib event xs hdata w w'
unfolding connect_hook
connect_hook-Connected lib fuel event xs t none hdata w e g at u m f nz =
    let (h', p', eq, c') = append-Chain xs fuel w.lists none w.fresh at u m f nz in
    let stored : store w.fresh (some hdata) w.hooks w.fresh ≡ some hdata = ground arith in
    let found : lib.table.get_test (lib.table.set t event p') event ≡ some p' =
      lib.table.get_test-set t event p' event ∙ rw (same_key_refl event) refl in
    let w1 : State lib = with_hook lib hdata h' w in
    (
      set_event lib t event p' w1,
      rw eq refl,
      (lib.table.set t event p', p', refl, found, c', stored),
    )
connect_hook-Connected lib fuel event xs t (some l) hdata w e g at u m f nz =
    let (h', p', eq, c') = append-Chain xs fuel w.lists (some l) w.fresh at u m f nz in
    let stored : store w.fresh (some hdata) w.hooks w.fresh ≡ some hdata = ground arith in
    let same : p' ≡ some l =
      ok-After (Starts l) _ (h', p') eq (append-head fuel w.lists l w.fresh) in
    let c'' : Chain h' none (some l) (xs ++ (w.lists.top, w.fresh) ∷ []) = rw (sym same) c' in
    (with_hook lib hdata h' w, rw eq refl, (t, some l, e, g, c'', stored))

-- An event of the client, with a list of hooks, none of them twice and none at the next address:
-- with more fuel than hooks `ta_xmpp_client_event_connect` returns 1, and behind it the list of the
-- event is the one before with the new hook at its end, for the first hook of an event too.
pub event_connect-Connected :
    (lib : Library) (fuel : ℕ) (event : Bytes) (hook user : ℕ) (xs : List Entry)
    (t : lib.table.Table) (p : Pointer) (w : State lib)
    → w.client.events ≡ some t
    → lib.table.get_test t event ≡ some p
    → Chain w.lists none p xs
    → distinct xs ≡ true
    → mentions w.lists.top xs ≡ false
    → length xs < fuel
    → 0 < w.fresh
    → (w' : State lib) × (event_connect lib fuel event hook user w ≡ ok (pos 1, w'))
      × Connected lib event xs (record { hook = hook; user = user; free_data_func = none }) w w'
unfolding event_connect hdata_new
event_connect-Connected lib fuel event hook user xs t p w e g at u m f nz =
    rw (e, g) (connect_hook-Connected lib fuel event xs t p _ w e g at u m f nz)
