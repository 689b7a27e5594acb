-- ===== src/Xmpp/Dropping.antt =====
-- How hooks of src/xmpp.c are disconnected: the list that `ta_xmpp_client_event_disconnect` leaves.
use taningia.Base.{
  ℕ, zero, suc, ◌+◌, ◌<◌, ◌≡◌, refl, sym, ap, ◌∙◌, Bool, true, false, ◌&&◌, ◌||◌, Option, none,
  some, List, [], ◌∷◌, ◌++◌, append_assoc, ◌==◌, length, length-append, arith, if◌then◌else◌,
  Bool-cases, inl, inr,
}
use taningia.Base.CString.{Bytes}
use taningia.Base.Int.{pos}
use taningia.Base.Run.{ok}
use taningia.TaList.{Heap, Pointer, write}
use taningia.TaList.Chain.{Entry, node, Chain, mentions, distinct, Chain-write}
use taningia.TaList.Middle.{head_of, Chain-head, Chain-at, mentions-append, distinct-middle}
use taningia.TaList.Remove.{is_null, remove}
use taningia.TaList.Unlinking.{lacks_datum, remove-Chain}
use taningia.Xmpp.{HookData, Library, State, events_of}
use taningia.Xmpp.Events.{
  store, set_event, hdata_free, is_other, free_removed, drop_hooks, event_disconnect,
}
use taningia.Xmpp.Hooks.{Loaded, same_key_refl}

-- The entries under their data.
unfoldable pub by_data : List Entry → List Entry
by_data [] = []
by_data ((a, d) ∷ xs) = (d, a) ∷ by_data xs

-- The hook of an entry is not the one to disconnect; NULL disconnects all.
abbrev pub stays : Pointer → HookData → Bool
stays none hdata = false
stays (some hook) hdata = if hdata.hook == hook then false else true

-- The entries that stay.
unfoldable pub staying : Pointer → List Entry → List HookData → List Entry
staying hook [] hs = []
staying hook (x ∷ xs) [] = x ∷ xs
staying hook (x ∷ xs) (h ∷ hs) =
    let rest = staying hook xs hs in if stays hook h then x ∷ rest else rest

-- The entries that do not stay.
unfoldable pub leaving : Pointer → List Entry → List HookData → List Entry
leaving hook [] hs = []
leaving hook (x ∷ xs) [] = []
leaving hook (x ∷ xs) (h ∷ hs) =
    let rest = leaving hook xs hs in if stays hook h then rest else x ∷ rest

-- No hook has a function that frees its data, as none that was connected has.
unfoldable pub unowned : List HookData → Bool
unowned [] = true
unowned (h ∷ hs) = is_null h.free_data_func && unowned hs

by_data-append : (ys zs : List Entry) → by_data (ys ++ zs) ≡ by_data ys ++ by_data zs
unfolding by_data
by_data-append [] zs = refl
by_data-append ((a, d) ∷ ys) zs = ap (λ xs. (d, a) ∷ xs) (by_data-append ys zs)

lacks_datum-mentions :
    (d : ℕ) (xs : List Entry) → mentions d (by_data xs) ≡ false → lacks_datum d xs ≡ true
unfolding mentions by_data lacks_datum
lacks_datum-mentions d [] m = refl
lacks_datum-mentions d ((a, e) ∷ xs) m =
    let rest : lacks_datum d xs ≡ true = lacks_datum-mentions d xs (ground arith) in
    let other : (e == d) ≡ false = ground arith in rw (other, rest) refl

Loaded-store :
    (cells : ℕ → Option HookData) (d : ℕ) (c : Option HookData) (xs : List Entry)
    (hs : List HookData)
    → Loaded cells xs hs
    → mentions d (by_data xs) ≡ false
    → Loaded (store d c cells) xs hs
unfolding Loaded mentions by_data
Loaded-store cells d c [] [] held m = tt
Loaded-store cells d c [] (h ∷ hs) held m = held
Loaded-store cells d c ((a, e) ∷ xs) [] held m = held
Loaded-store cells d c ((a, e) ∷ xs) (h ∷ hs) (here, held) m =
    let other : (e == d) ≡ false = ground arith in
    (rw other here, Loaded-store cells d c xs hs held (ground arith))

is_null-none : (p : Pointer) → is_null p ≡ true → p ≡ none
is_null-none none h = refl
is_null-none (some a) h = absurd (ground arith)

module _ (lib : Library) where
  is_other-stays :
      (hook : Pointer) (d : ℕ) (hdata : HookData) (w : State lib)
      → w.hooks d ≡ some hdata
      → is_other lib hook d w ≡ ok (stays hook hdata)
  unfolding is_other
  is_other-stays none d hdata w e = refl
  is_other-stays (some hook) d hdata w e = rw e refl

  -- The nodes of the entries, and the blocks that they point at, are freed.
  unfoldable pub Freed : List Entry → State lib → Type 0
  Freed [] w = Unit
  Freed ((a, d) ∷ xs) w = (w.lists.cells a ≡ none) × (w.hooks d ≡ none) × Freed xs w

  -- The state without a node and its block.
  abbrev without : ℕ → ℕ → Heap → State lib → State lib
  without a d h w = record w { lists = write a none h; hooks = store d none w.hooks }

  free_removed-without :
      (a d : ℕ) (h : Heap) (b n : Pointer) (hdata : HookData) (w : State lib)
      → h.cells a ≡ node b n d
      → w.hooks d ≡ some hdata
      → hdata.free_data_func ≡ none
      → free_removed lib (some a) (record w { lists = h }) ≡ ok (without a d h w)
  unfolding free_removed hdata_free
  free_removed-without a d h b n hdata w at here f = rw (at, here, f, at) refl

  -- A hook that does not stay: its node is taken out of the list, and both blocks are freed.
  remove-without :
      (ys zs : List Entry) (hs : List HookData) (inner a d : ℕ) (hooks b : Pointer)
      (hdata : HookData) (w : State lib)
      → Chain w.lists none hooks (ys ++ (a, d) ∷ zs)
      → distinct (ys ++ (a, d) ∷ zs) ≡ true
      → distinct (by_data (ys ++ (a, d) ∷ zs)) ≡ true
      → w.hooks d ≡ some hdata
      → Loaded w.hooks zs hs
      → hdata.free_data_func ≡ none
      → length ys < inner
      → w.lists.cells a ≡ node b (head_of zs) d
      → (h : Heap) × (hooks' : Pointer) × (remove inner w.lists hooks d ≡ ok (h, hooks', some a))
        × (free_removed lib (some a) (record w { lists = h }) ≡ ok (without a d h w))
        × Chain (write a none h) none hooks' (ys ++ zs)
        × (distinct (ys ++ zs) ≡ true)
        × (distinct (by_data (ys ++ zs)) ≡ true)
        × Loaded (store d none w.hooks) zs hs
        × (mentions a (ys ++ zs) ≡ false)
        × ((x : ℕ) → mentions x (ys ++ (a, d) ∷ zs) ≡ false → h.cells x ≡ w.lists.cells x)
  unfolding by_data
  remove-without ys zs hs inner a d hooks b hdata w c u v here held f i at =
      let (u', away) = distinct-middle ys zs a d u in
      let (v', apart) =
        distinct-middle (by_data ys) (by_data zs) d a
          (ap distinct (sym (by_data-append ys ((a, d) ∷ zs))) ∙ v) in
      let unique : (mentions d (by_data ys) || mentions d (by_data zs)) ≡ false =
        sym (mentions-append d (by_data ys) (by_data zs)) ∙ apart in
      let (h, hooks', eq, c', same, frame) =
        remove-Chain ys zs inner w.lists hooks a d c u (lacks_datum-mentions d ys (ground arith))
          i in
      (
        h,
        hooks',
        eq,
        free_removed-without a d h b (head_of zs) hdata w (same ∙ at) here f,
        Chain-write h a none (ys ++ zs) none hooks' c' away,
        u',
        ap distinct (by_data-append ys zs) ∙ v',
        Loaded-store w.hooks d none zs hs held (ground arith),
        away,
        frame,
      )

  -- What the loop leaves of the entries `ys` that it has passed and the entries `zs` before it.
  abbrev Dropped :
      ℕ
      → ℕ
      → Pointer
      → Pointer
      → Pointer
      → State lib
      → List Entry
      → List Entry
      → List HookData
      → Type 0
  Dropped inner fuel hook hooks removed w ys zs hs =
      (hooks' : Pointer) × (w' : State lib) × (drop_hooks lib inner fuel hook (head_of zs) hooks
          removed w
        ≡ ok (hooks', w'))
      × Chain w'.lists none hooks' (ys ++ staying hook zs hs)
      × (w'.client ≡ w.client)
      × Freed (leaving hook zs hs) w'
      × ((x : ℕ) → mentions x (ys ++ zs) ≡ false → w.lists.cells x ≡ none → w'.lists.cells x ≡ none)
      × ((x : ℕ) → w.hooks x ≡ none → w'.hooks x ≡ none)

  mentions-middle :
      (x a d : ℕ) (ys zs : List Entry)
      → mentions x (ys ++ (a, d) ∷ zs) ≡ false
      → mentions x (ys ++ zs) ≡ false
  unfolding mentions
  mentions-middle x a d ys zs m =
      let whole = sym (mentions-append x ys ((a, d) ∷ zs)) ∙ m in
      mentions-append x ys zs ∙ ground arith

  drop_hooks-Dropped :
      (zs : List Entry) (hs : List HookData) (ys : List Entry) (inner fuel : ℕ)
      (hook hooks removed : Pointer) (w : State lib)
      → Chain w.lists none hooks (ys ++ zs)
      → distinct (ys ++ zs) ≡ true
      → distinct (by_data (ys ++ zs)) ≡ true
      → Loaded w.hooks zs hs
      → unowned hs ≡ true
      → length ys + length zs < inner
      → length zs < fuel
      → Dropped inner fuel hook hooks removed w ys zs hs
  unfolding drop_hooks staying leaving Freed Loaded unowned
  drop_hooks-Dropped zs hs ys inner zero hook hooks removed w c u v held o i f =
      absurd (omega arith)
  drop_hooks-Dropped [] hs ys inner (suc fuel) hook hooks removed w c u v held o i f =
      (hooks, w, refl, c, refl, tt, λ x m e. e, λ x e. e)
  drop_hooks-Dropped ((a, d) ∷ zs) [] ys inner (suc fuel) hook hooks removed w c u v held o i f =
      absurd held
  drop_hooks-Dropped ((a, d) ∷ zs) (hd ∷ hs) ys inner (suc fuel) hook hooks removed w c u v
        (here, held) o i f =
      let (b, at) = Chain-at ys zs w.lists none hooks a d c in
      let other : is_other lib hook d w ≡ ok (stays hook hd) = is_other-stays hook d hd w here in
      elim (Bool-cases (stays hook hd)) [
        | inl e ↦
            let whole : (ys ++ (a, d) ∷ []) ++ zs ≡ ys ++ (a, d) ∷ zs = simp append_assoc in
            let size : length (ys ++ (a, d) ∷ []) + length zs < inner =
              omega (arith, length-append ys ((a, d) ∷ [])) in
            let (hooks', w', eq, c', same, gone, frame, blocks) =
              drop_hooks-Dropped zs hs (ys ++ (a, d) ∷ []) inner fuel hook hooks removed w
                (rw whole c) (rw whole u) (rw whole v) held (ground arith) size (omega arith) in
            let after : (ys ++ (a, d) ∷ []) ++ staying hook zs hs
                ≡ ys ++ (a, d) ∷ staying hook zs hs =
              simp append_assoc in
            (
              hooks',
              w',
              rw (at, other, e, eq) refl,
              rw e (rw (sym after) c'),
              same,
              rw e gone,
              λ x m k. frame x (rw whole m) k,
              blocks,
            )
        | inr e ↦
            let (h, hooks', gone, freed, c', u', v', held', away, kept) =
              remove-without ys zs hs inner a d hooks b hd w c u v here held
                (is_null-none hd.free_data_func (ground arith)) (omega arith) at in
            let (hooks'', w', eq, c'', same, more, frame, blocks) =
              drop_hooks-Dropped zs hs ys inner fuel hook hooks' (some a) (without a d h w) c' u' v'
                held' (ground arith) (omega arith) (omega arith) in
            let h1 : Heap = write a none h in
            let node_gone : h1.cells a ≡ none = ground arith in
            let block_gone : store d none w.hooks d ≡ none = ground arith in
            (
              hooks'',
              w',
              rw (at, other, e, gone, freed, eq) refl,
              rw e c'',
              same,
              rw e (frame a away node_gone, blocks d block_gone, more),
              λ x m k.
                  let before : h.cells x ≡ none = kept x m ∙ k in
                  let now : h1.cells x ≡ none = ground arith in
                  frame x (mentions-middle x a d ys zs m) now,
              λ x k. let now : store d none w.hooks x ≡ none = ground arith in blocks x now,
            )
      ]

Freed-event :
    (lib : Library) (xs : List Entry) (t : lib.table.Table) (event : Bytes) (p : Pointer)
    (w : State lib)
    → Freed lib xs w
    → Freed lib xs (set_event lib t event p w)
unfolding Freed
Freed-event lib [] t event p w h = tt
Freed-event lib ((a, d) ∷ xs) t event p w (node, block, rest) =
    (node, block, Freed-event lib xs t event p w rest)

events_of-some :
    (lib : Library) (w : State lib) (t : lib.table.Table)
    → w.client.events ≡ some t
    → events_of lib w ≡ ok t
events_of-some lib w t e = rw e refl

-- What is left of an event and its hooks.
abbrev pub Disconnected :
    (lib : Library) → Bytes → Pointer → List Entry → List HookData → State lib → Type 0
Disconnected lib event hook xs hs w' =
    (t' : lib.table.Table) × (p' : Pointer) × (w'.client.events ≡ some t')
    × (lib.table.get_test t' event ≡ some p')
    × Chain w'.lists none p' (staying hook xs hs)
    × Freed lib (leaving hook xs hs) w'

-- An event of the client and the list of its hooks, whose nodes and whose `hook_data` are apart, and
-- whose data no hook frees: with more fuel than hooks `ta_xmpp_client_event_disconnect` returns 1,
-- and the list of the event is then that of the hooks that are not the one given, in their order, or
-- empty where NULL is given. The nodes that it takes out and their `hook_data` are freed.
pub event_disconnect-Disconnected :
    (lib : Library) (fuel : ℕ) (event : Bytes) (hook : Pointer) (xs : List Entry)
    (hs : List HookData) (t : lib.table.Table) (p : Pointer) (w : State lib)
    → w.client.events ≡ some t
    → lib.table.get_test t event ≡ some p
    → Chain w.lists none p xs
    → distinct xs ≡ true
    → distinct (by_data xs) ≡ true
    → Loaded w.hooks xs hs
    → unowned hs ≡ true
    → length xs < fuel
    → (w' : State lib) × (event_disconnect lib fuel event hook w ≡ ok (pos 1, w'))
      × Disconnected lib event hook xs hs w'
unfolding event_disconnect
event_disconnect-Disconnected lib fuel event hook xs hs t p w e g c u v held o f =
    let (p', w', eq, c', same, gone, frame, blocks) =
      drop_hooks-Dropped lib xs hs [] fuel fuel hook p none w c u v held o (omega arith) f in
    let start : p ≡ head_of xs = Chain-head xs w.lists none p c in
    let found : events_of lib w ≡ ok t = events_of-some lib w t e in
    let still : w'.client.events ≡ some t = ap (λ k. k.events) same ∙ e in
    let found' : events_of lib w' ≡ ok t = events_of-some lib w' t still in
    let eq' : drop_hooks lib fuel fuel hook p p none w ≡ ok (p', w') =
      ap (λ k. drop_hooks lib fuel fuel hook k p none w) start ∙ eq in
    let got : lib.table.get_test (lib.table.set t event p') event ≡ some p' =
      lib.table.get_test-set t event p' event ∙ rw (same_key_refl event) refl in
    (
      set_event lib t event p' w',
      rw (found, g, eq', found') refl,
      (
        lib.table.set t event p',
        p',
        refl,
        got,
        c',
        Freed-event lib (leaving hook xs hs) t event p' w' gone,
      ),
    )
