-- ===== src/Tests/Streams.antt =====
-- The XMPP client at inputs that meet the hypotheses of its theorems.
use taningia.Base.{
  ℕ, ◌≡◌, refl, ◌==◌, ltb, Bool, true, false, Option, none, some, List, [], ◌∷◌, arith, is_some,
  if◌then◌else◌,
}
use taningia.Base.CString.{Bytes, codes}
use taningia.Base.Int.{ℤ, pos}
use taningia.Base.Run.{Run, ok, fault, After}
use taningia.Atom.Xml.{same_key}
use taningia.Error.{fresh, ta_ok}
use taningia.Object
use taningia.Object.{xmpp_client_free}
use taningia.TaList.{Heap}
use taningia.TaList.Chain.{Chain, distinct, mentions}
use taningia.Xmpp.{
  Call, recv, send, send_header, delete, log, Result, iks_ok, net_rwerr, Jid, Client, HookData,
  HashTable, Library, State, NodeType, node_start, node_normal,
}
use taningia.Log.{info}
use taningia.Xmpp.Events.{call_event_hooks, event_connect}
use taningia.Xmpp.Stream.{connect, disconnect, hook, bind_stanza}
use taningia.Xmpp.Loop.{deliver, run}
use taningia.Xmpp.Dropping.{by_data, unowned, Disconnected, event_disconnect-Disconnected}
use taningia.Xmpp.Events.{event_disconnect}
use taningia.Xmpp.Hooks.{
  Loaded, run_until, Connected, call_event_hooks-run_until, event_connect-Connected,
}
use taningia.Xmpp.Session.{session_stanza, connect-idle, deliver-session}
use taningia.Xmpp.Silence.{Calm, sends, deliver-sends}
use taningia.Xmpp.Stability.{spared}
use taningia.Xmpp.Ending.{Forward, Ended, receives, run-Ended}
use taningia.Tests.Elements.{elements, Element}

-- A table that keeps a function of the keys.
abbrev functions : HashTable
functions = record {
  Table = Bytes → Option (Option ℕ);
  create = λ k. none;
  get_test = λ t k. t k;
  set = λ t j v. λ k. if same_key j k then some v else t k;
  get_test-create = λ k. refl;
  get_test-set = λ t j v k. refl;
}

-- A network that fails at the second `recv`.
abbrev reply : List (Call Element) → Result
reply [] = iks_ok
reply (recv p ∷ trace) = if ltb (receives trace) 1 then iks_ok else net_rwerr
reply (call ∷ trace) = iks_ok

abbrev has : Bytes → Element → Bool
has key x = is_some (elements.find_attrib x key)

abbrev id : Jid
id = record { user = some (codes "u"); server = some (codes "s"); resource = some (codes "r") }

-- A library whose hooks return whether they are the hook 9, and do nothing else.
abbrev lib : Library
lib = record {
  xml = elements;
  table = functions;
  Packet = Element;
  reply = reply;
  is_secure = λ trace. false;
  received = λ trace. (node_start, none) ∷ [];
  fired = λ trace. none;
  rule_of = λ trace. none;
  stream_features = λ x. record {
    bind = has (codes "bind") x;
    session = has (codes "bind") x;
    sasl_md5 = true;
    sasl_plain = false;
  };
  id_new = λ jid. some id;
  make_session = elements.new (codes "iq");
  make_auth = λ i password. elements.new (codes "iq");
  make_pres = λ type msg. elements.new (codes "presence");
  string_of = λ x. [];
  packet = λ x. x;
  node_of = λ x. x;
  run_hook = λ k pak user w. ok (k == 9, w);
  run_answer = λ k x user w. ok w;
  free_data = λ f user w. ok w;
}

-- The list of the hooks at 101 and 102.
abbrev hook_list : Heap
hook_list = record {
  cells = λ a.
      if a == 1
      then some (record { prev = none; next = some 2; datum = 101 })
      else if a == 2
      then some (record { prev = some 1; next = none; datum = 102 })
      else none;
  top = 3;
}

abbrev data_of : ℕ → HookData
data_of k = record { hook = k; user = 7; free_data_func = none }

abbrev client : Bool → Client (Bytes → Option (Option ℕ))
client authenticated = record {
  parent = Object.init (some xmpp_client_free);
  jid = some (codes "u@s/r");
  password = some (codes "p");
  host = none;
  port = pos 5222;
  use_sasl = true;
  use_tls = false;
  parser = some 50;
  idstack = true;
  id = some id;
  filter = some 51;
  features = record { bind = false; session = false; sasl_md5 = false; sasl_plain = false };
  authenticated = authenticated;
  running = true;
  logger = true;
  events = some (λ k. if same_key (codes "connected") k then some (some 1) else none);
}

abbrev world : Bool → State lib
world authenticated = record {
  client = client authenticated;
  lists = hook_list;
  hooks = λ a. if a == 101 then some (data_of 8) else if a == 102 then some (data_of 9) else none;
  watches = λ a. none;
  fresh = 103;
  errors = fresh;
  trace = [];
}

abbrev named : Bytes → Element
named s = elements.new s

abbrev offering : Element
offering = elements.insert_attrib (named (codes "stream:features")) (codes "bind") (some [])

-- The state of a run, or another one.
abbrev state_of : State lib → Run (State lib) → State lib
state_of w fault = w
state_of w (ok w') = w'

abbrev state_with : State lib → Run (ℤ × State lib) → State lib
state_with w fault = w
state_with w (ok (r, w')) = w'

calm : Calm lib
unfolding After
calm = record {
  on_hook = λ n k pak user w p. p;
  on_answer = λ n k x user w p. p;
  on_free = λ n f user w p. p;
}

forward : Forward lib
unfolding After
forward = record {
  on_hook = λ n k pak user w p. p;
  on_answer = λ n k x user w p. p;
  on_free = λ n f user w p. p;
}

abbrev greeting : List (NodeType × Option Element)
greeting = (node_start, none) ∷ (node_normal, some (named (codes "stream:features"))) ∷ []

abbrev greeted : State lib
unfolding deliver
greeted = state_of (world false) (deliver lib 5 greeting (world false))

deliver-sends_example :
    (greeted.client.authenticated ≡ false) × (sends greeted.trace ≡ sends (world false).trace)
unfolding deliver spared
deliver-sends_example = deliver-sends lib calm 5 greeting (world false) greeted refl refl refl refl

run-Ended_example :
    (r : Run (ℤ × State lib)) × (run lib 3 5 (world false) ≡ some r) × After (Ended lib) r
unfolding receives
run-Ended_example = run-Ended lib forward 1 5 (world false) (λ p t h. ground arith)

call_event_hooks-run_until_example :
    call_event_hooks lib 3 (codes "connected") none (world true)
    ≡ run_until lib (data_of 8 ∷ data_of 9 ∷ []) none (world true)
unfolding After Chain Loaded
call_event_hooks-run_until_example =
    call_event_hooks-run_until lib (λ k pak user w. (refl, refl)) 3 (codes "connected") none
      ((1, 101) ∷ (2, 102) ∷ []) (data_of 8 ∷ data_of 9 ∷ [])
      (λ k. if same_key (codes "connected") k then some (some 1) else none) (some 1) (world true)
      refl refl (some 2, refl, refl, (none, refl, refl, refl)) (refl, (refl, tt)) (omega arith)

event_connect-Connected_example :
    (w' : State lib) × (event_connect lib 3 (codes "connected") 4 5 (world true) ≡ ok (pos 1, w'))
    × Connected lib
        (codes "connected")
        ((1, 101) ∷ (2, 102) ∷ [])
        (record { hook = 4; user = 5; free_data_func = none })
        (world true)
        w'
unfolding Chain distinct mentions
event_connect-Connected_example =
    event_connect-Connected lib 3 (codes "connected") 4 5 ((1, 101) ∷ (2, 102) ∷ [])
      (λ k. if same_key (codes "connected") k then some (some 1) else none) (some 1) (world true)
      refl refl (some 2, refl, refl, (none, refl, refl, refl)) refl refl (omega arith) (omega arith)

abbrev again : State lib
unfolding connect disconnect
again = state_with (world true) (connect lib 3 (disconnect lib (world true)))

connect-idle_example :
    (w'' : State lib) × (hook lib 3 node_normal (some (named (codes "stream:features"))) again
      ≡ ok w'')
    × (w''.trace ≡ delete (named (codes "stream:features")) ∷ again.trace)
    × (w''.client.authenticated ≡ true)
unfolding After connect disconnect
connect-idle_example =
    connect-idle lib (λ k pak user w p. p) 3 (world true) again ta_ok
      (named (codes "stream:features")) (refl, refl, refl) refl refl refl refl

deliver-session_example :
    (w' : State lib) × (deliver lib 3
        ((node_normal, some (named (codes "success"))) ∷ (node_normal, some offering) ∷ [])
        (world false)
      ≡ ok w')
    × (w'.trace
        ≡ delete offering
          ∷ delete (session_stanza lib)
          ∷ send (some 50) (session_stanza lib)
          ∷ delete (bind_stanza lib (some (codes "r")))
          ∷ send (some 50) (bind_stanza lib (some (codes "r")))
          ∷ delete (named (codes "success"))
          ∷ log info (codes "authentication successful")
          ∷ send_header (some 50) (some (codes "s"))
          ∷ [])
deliver-session_example =
    deliver-session lib 3 (world false) (named (codes "success")) offering id refl refl refl refl
      refl refl refl

event_disconnect-Disconnected_example :
    (w' : State lib) × (event_disconnect lib 3 (codes "connected") (some 8) (world true)
      ≡ ok (pos 1, w'))
    × Disconnected lib
        (codes "connected")
        (some 8)
        ((1, 101) ∷ (2, 102) ∷ [])
        (data_of 8 ∷ data_of 9 ∷ [])
        w'
unfolding Chain Loaded distinct mentions by_data unowned
event_disconnect-Disconnected_example =
    event_disconnect-Disconnected lib 3 (codes "connected") (some 8) ((1, 101) ∷ (2, 102) ∷ [])
      (data_of 8 ∷ data_of 9 ∷ [])
      (λ k. if same_key (codes "connected") k then some (some 1) else none) (some 1) (world true)
      refl refl (some 2, refl, refl, (none, refl, refl, refl)) refl refl (refl, (refl, tt)) refl
      (omega arith)
