-- ===== src/Xmpp.antt =====
-- src/xmpp.c, the XMPP client: its state, the calls that it makes to the libraries of the stream,
-- the filter and the hash table, and what stands behind them as parameters.
pub mod Setup
pub mod Events
pub mod Stanzas
pub mod Stream
pub mod Loop
pub mod Stability
pub mod Silence
pub mod Ending
pub mod Hooks
pub mod Dropping
pub mod Session
use taningia.Base.{ℕ, ◌≡◌, Bool, false, Option, none, some, List, [], ◌∷◌, if◌then◌else◌}
use taningia.Base.CString.{Bytes, Text}
use taningia.Base.Int.{ℤ}
use taningia.Base.Run.{Run, ok, fault}
use taningia.Error.{Global}
use taningia.Log.{Level}
use taningia.Object.{Object}
use taningia.TaList.{Heap}
use taningia.Atom.Xml.{Xml, same_key}

-- A pointer to something that this module only passes on.
abbrev pub Pointer : Type 0
Pointer = Option ℕ

-- The values that calls of the stream library return and src/xmpp.c tells apart.
pub data Result : Type 0 where
  iks_ok iks_hook net_nodns net_noconn net_rwerr net_tlsfail iks_other : Result

-- The first argument of the callback of a stream.
pub data NodeType : Type 0 where
  node_start node_normal node_error node_stop : NodeType

-- The bits of `client->features` that are tested.
pub record Features : Type 0 where
  pub bind : Bool
  pub session : Bool
  pub sasl_md5 : Bool
  pub sasl_plain : Bool

-- The fields of `iksid` that are read.
pub record Jid : Type 0 where
  pub user : Text
  pub server : Text
  pub resource : Text

pub data Mechanism : Type 0 where
  digest_md5 plain : Mechanism

-- The rules that are added to a filter, and the callback of each.
pub data Rule : Type 0 where
  on_message on_presence : Rule
  on_id : Bytes → ℕ → Rule

-- A call of the stream library or of the logger. A parser or a filter is named by its pointer.
pub data Call (Node : Type 0) : Type 0 where
  stream_new filter_new : Call Node
  parser_delete filter_delete start_tls recv : Pointer → Call Node
  connect_via : Pointer → Bytes → ℤ → Text → Call Node
  connect_tcp : Pointer → Text → ℤ → Call Node
  send : Pointer → Node → Call Node
  send_header : Pointer → Text → Call Node
  start_sasl : Pointer → Mechanism → Text → Text → Call Node
  add_rule : Pointer → Rule → Call Node
  remove_rule : Pointer → Pointer → Call Node
  filter_packet : Pointer → Node → Call Node
  delete : Node → Call Node
  stack_delete log_unref table_destroy : Call Node
  log : Level → Bytes → Call Node

-- `struct _ta_xmpp_client_t`. The logger and the stack of the identifier are either there or NULL.
pub record Client (Table : Type 0) : Type 0 where
  pub parent : Object
  pub jid : Text
  pub password : Text
  pub host : Text
  pub port : ℤ
  pub use_sasl : Bool
  pub use_tls : Bool
  pub parser : Pointer
  pub idstack : Bool
  pub id : Option Jid
  pub filter : Pointer
  pub features : Features
  pub authenticated : Bool
  pub running : Bool
  pub logger : Bool
  pub events : Option Table

-- `struct hook_data`; a hook is named by its address, and so is the data.
pub record HookData : Type 0 where
  pub hook : ℕ
  pub user : ℕ
  pub free_data_func : Pointer

-- `struct watch_data` without its pointer to the client.
pub record WatchData : Type 0 where
  pub stanza_id : Text
  pub rule : Pointer
  pub callback : ℕ
  pub user : ℕ
  pub free_data_func : Pointer

-- The client with the memory it uses: the nodes of the hook lists, the `hook_data` and
-- `watch_data` blocks, the last error of the thread, and the calls made, the last one first.
pub record World (Node Table : Type 0) : Type 0 where
  pub client : Client Table
  pub lists : Heap
  pub hooks : ℕ → Option HookData
  pub watches : ℕ → Option WatchData
  pub fresh : ℕ
  pub errors : Global
  pub trace : List (Call Node)

-- The hash table of src/hashtable.c, with strings as keys and hook lists as values: the `none` of
-- `get_test` is a missing key.
pub record HashTable : Type 1 where
  pub Table : Type 0
  pub create : Table
  pub get_test : Table → Bytes → Option Pointer
  pub set : Table → Bytes → Pointer → Table
  pub get_test-create : (k : Bytes) → get_test create k ≡ none
  pub get_test-set :
      (t : Table) (j : Bytes) (v : Pointer) (k : Bytes)
      → get_test (set t j v) k ≡ (if same_key j k then some v else get_test t k)

-- The stream library and the user's functions. What a call returns, whether the stream is secure
-- what a `recv` delivers to the callback and
-- which rule a packet fires depend on the calls made; the last one is first.
pub record Library : Type 1 where
  pub xml : Xml
  pub table : HashTable
  pub Packet : Type 0
  pub reply : List (Call xml.Node) → Result
  pub is_secure : List (Call xml.Node) → Bool
  pub received : List (Call xml.Node) → List (NodeType × Option xml.Node)
  pub fired : List (Call xml.Node) → Option Rule
  pub rule_of : List (Call xml.Node) → Pointer
  pub stream_features : xml.Node → Features
  pub id_new : Bytes → Option Jid
  pub make_session : xml.Node
  pub make_auth : Option Jid → Text → xml.Node
  pub make_pres : ℕ → Text → xml.Node
  pub string_of : xml.Node → Bytes
  pub packet : xml.Node → Packet
  pub node_of : Packet → xml.Node
  pub run_hook :
      ℕ → Option Packet → ℕ → World xml.Node table.Table → Run (Bool × World xml.Node table.Table)
  pub run_answer : ℕ → xml.Node → ℕ → World xml.Node table.Table → Run (World xml.Node table.Table)
  pub free_data : ℕ → ℕ → World xml.Node table.Table → Run (World xml.Node table.Table)

-- The value that a function of the client returns: a number of its own, or one it was given.
pub data Status : Type 0 where
  own : ℤ → Status
  passed : Result → Status

module _ (lib : Library) where
  abbrev pub State : Type 0
  State = World lib.xml.Node lib.table.Table

  abbrev pub perform : Call lib.xml.Node → State → State
  perform call w = record w { trace = call ∷ w.trace }

  -- What the last call returned.
  abbrev pub result : State → Result
  result w = lib.reply w.trace

  -- A use of `client->events`.
  abbrev pub events_of : State → Run lib.table.Table
  events_of w = elim w.client.events [ none ↦ fault | some t ↦ ok t ]

  -- `client->id->…`
  abbrev pub id_of : State → Run Jid
  id_of w = elim w.client.id [ none ↦ fault | some i ↦ ok i ]
