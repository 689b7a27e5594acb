-- ===== src/Xmpp/Events.antt =====
-- src/xmpp.c, the events of the client: `hook_data`, the call of the hooks of an event, and how
-- hooks are connected and disconnected. The lists are those of TaList; `fuel` bounds their loops.
use taningia.Base.{ℕ, zero, suc, Bool, true, false, Option, none, some, ◌++◌, ◌==◌, if◌then◌else◌}
use taningia.Base.CString.{Bytes, codes}
use taningia.Base.Int.{ℤ, pos}
use taningia.Base.Run.{Run, ok, fault, ◌>>=◌}
use taningia.Error.{report}
use taningia.TaList
use taningia.TaList.{Heap, load, append}
use taningia.TaList.Remove.{is_null, remove}
use taningia.Xmpp.{Pointer, Library, State, events_of}

abbrev pub xmpp_no_such_event_error : ℕ
xmpp_no_such_event_error = 301

abbrev pub store {ℓ} : {A : Type ℓ} → ℕ → Option A → (ℕ → Option A) → ℕ → Option A
store a c cells b = if b == a then c else cells b

abbrev pub deref {ℓ} : {A : Type ℓ} → Option A → Run A
deref none = fault
deref (some x) = ok x

-- The list of an event, NULL for one that is not in the table.
abbrev pub list_of : Option Pointer → Pointer
list_of none = none
list_of (some hooks) = hooks

module _ (lib : Library) where
  -- `hdata_new`
  unfoldable pub hdata_new : ℕ → ℕ → Pointer → State lib → ℕ × State lib
  hdata_new hook user free_data w = (
    w.fresh,
    record w {
      hooks =
          store w.fresh (some (record { hook = hook; user = user; free_data_func = free_data }))
            w.hooks;
      fresh = suc w.fresh;
    },
  )

  -- `hdata_free`
  unfoldable pub hdata_free : ℕ → State lib → Run (State lib)
  hdata_free val w = do
    hdata ← deref (w.hooks val)
    w' ← elim hdata.free_data_func [ none ↦ ok w | some f ↦ lib.free_data f hdata.user w ]
    ok (record w' { hooks = store val none w'.hooks })

  -- The loop of `_ta_xmpp_client_call_event_hooks`.
  unfoldable pub call_hooks : ℕ → Pointer → Option lib.Packet → State lib → Run (State lib)
  call_hooks zero tmp pak w = fault
  call_hooks (suc fuel) none pak w = ok w
  call_hooks (suc fuel) (some tmp) pak w = do
    n ← load w.lists tmp
    hdata ← deref (w.hooks n.datum)
    (stop, w') ← lib.run_hook hdata.hook pak hdata.user w
    let next = (do n' ← load w'.lists tmp; call_hooks fuel n'.next pak w')
    if stop then ok w' else next

  -- `_ta_xmpp_client_call_event_hooks`
  unfoldable pub call_event_hooks : ℕ → Bytes → Option lib.Packet → State lib → Run (State lib)
  unfolding call_hooks
  call_event_hooks fuel event pak w = do
    t ← events_of lib w
    call_hooks fuel (list_of (lib.table.get_test t event)) pak w

  -- `hashtable_set (client->events, event, hooks)`
  abbrev pub set_event : lib.table.Table → Bytes → Pointer → State lib → State lib
  set_event t event hooks w = record w {
    client = record w.client { events = some (lib.table.set t event hooks) };
  }

  -- `ta_error_set (XMPP_NO_SUCH_EVENT_ERROR, …)`
  unfoldable pub no_such_event : Bytes → State lib → Run (ℤ × State lib)
  unfolding report
  no_such_event event w = do
    g ← report xmpp_no_such_event_error (codes "XMPP client has no event called " ++ event) w.errors
    ok (pos 0, record w { errors = g })

  -- `ta_xmpp_client_event_connect` behind the lookup.
  unfoldable pub connect_hook :
      ℕ → lib.table.Table → Bytes → Pointer → ℕ → State lib → Run (ℤ × State lib)
  unfolding append
  connect_hook fuel t event hooks hdata w = do
    (h, hooks') ← append fuel w.lists hooks hdata
    let w' = record w { lists = h }
    ok (pos 1, (if is_null hooks then set_event t event hooks' w' else w'))

  -- `ta_xmpp_client_event_connect`
  unfoldable pub event_connect : ℕ → Bytes → ℕ → ℕ → State lib → Run (ℤ × State lib)
  unfolding hdata_new connect_hook no_such_event
  event_connect fuel event hook user w =
      let (hdata, w') = hdata_new hook user none w in
      (do
        t ← events_of lib w'
        elim (lib.table.get_test t event) [
          | none ↦ no_such_event event w'
          | some hooks ↦ connect_hook fuel t event hooks hdata w'
        ])

  -- `hook != NULL && … ->hook != hook`, which skips the element.
  unfoldable pub is_other : Pointer → ℕ → State lib → Run Bool
  is_other none datum w = ok false
  is_other (some hook) datum w = do
    hdata ← deref (w.hooks datum)
    ok (if hdata.hook == hook then false else true)

  -- `if (removed) { hdata_free (removed->data); free (removed); }`
  unfoldable pub free_removed : Pointer → State lib → Run (State lib)
  unfolding hdata_free
  free_removed none w = ok w
  free_removed (some a) w = do
    n ← load w.lists a
    w' ← hdata_free n.datum w
    h ← TaList.free a w'.lists
    ok (record w' { lists = h })

  -- The loop of `ta_xmpp_client_event_disconnect`, with the fuel of `ta_list_remove` first.
  unfoldable pub drop_hooks :
      ℕ → ℕ → Pointer → Pointer → Pointer → Pointer → State lib → Run (Pointer × State lib)
  unfolding is_other remove free_removed
  drop_hooks inner zero hook tmp hooks removed w = fault
  drop_hooks inner (suc fuel) hook none hooks removed w = ok (hooks, w)
  drop_hooks inner (suc fuel) hook (some elm) hooks removed w = do
    n ← load w.lists elm
    other ← is_other hook n.datum w
    let skip = drop_hooks inner fuel hook n.next hooks removed w
    let drop = (do
      (h, hooks', found) ← remove inner w.lists hooks n.datum
      let removed' = (if is_null found then removed else found)
      w' ← free_removed removed' (record w { lists = h })
      drop_hooks inner fuel hook n.next hooks' removed' w')
    if other then skip else drop

  -- `ta_xmpp_client_event_disconnect`; the `none` of the hook is NULL.
  unfoldable pub event_disconnect : ℕ → Bytes → Pointer → State lib → Run (ℤ × State lib)
  unfolding drop_hooks no_such_event
  event_disconnect fuel event hook w = do
    t ← events_of lib w
    elim (lib.table.get_test t event) [
      | none ↦ no_such_event event w
      | some hooks ↦ do
        (hooks', w') ← drop_hooks fuel fuel hook hooks hooks none w
        t' ← events_of lib w'
        ok (pos 1, set_event t' event hooks' w')
    ]
