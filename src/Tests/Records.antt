-- ===== src/Tests/Records.antt =====
-- The records of src/srv.c and the states of src/global.c at inputs that meet the hypotheses of
-- their theorems.
use taningia.Base.{
  arith, ℕ, ◌≡◌, refl, ◌==◌, ◌++◌, true, Option, none, some, [], ◌∷◌, if◌then◌else◌,
}
use taningia.Base.CString.{codes}
use taningia.Base.Run.{ok}
use taningia.Error.{fresh}
use taningia.Srv
use taningia.Srv.{Target}
use taningia.Srv.Answer.{Expand, c_in, read_record}
use taningia.Srv.Order.{body, read_record-body}
use taningia.Thread.{Threads, World}
use taningia.Thread.State.{Below, state_get, Made, state_get-again}

-- Names of two bytes each: of an owner at the start, of a host elsewhere.
abbrev expand : Expand
expand answer p buf = (some 2, some (if p == 1 then codes "o" else codes "h"))

abbrev target : Target
target = record Srv.init { ttl = 70000; priority = 5; weight = 300; port = 5222 }

read_record-body_example :
    read_record expand ((9 ∷ [] ++ (192 ∷ 12 ∷ [])) ++ body target 8 (192 ∷ 20 ∷ [])) 1 none
    ≡ ok (
      some (record Srv.init {
        ttl = 70000;
        class = c_in;
        priority = 5;
        weight = 300;
        port = 5222;
        host = some (codes "h");
      }),
      21,
      some (codes "h"),
    )
read_record-body_example =
    read_record-body expand (9 ∷ []) (192 ∷ 12 ∷ []) (192 ∷ 20 ∷ []) (codes "h") (some (codes "o"))
      target 8 2 none refl refl

-- A thread library that keeps a function of the threads.
abbrev functions : Threads
functions = record {
  Key = ℕ → Option ℕ;
  key_create = λ thread. none;
  getspecific = λ key thread. key thread;
  setspecific = λ key thread p. λ other. if thread == other then p else key other;
  get-create = λ thread. refl;
  get-set = λ key thread p other. refl;
}

-- The thread 1 has the state at 4.
abbrev one_thread : ℕ → Option ℕ
one_thread thread = if thread == 1 then some 4 else none

abbrev world : World (ℕ → Option ℕ)
world = record {
  tls_key = some one_thread;
  tls_init = true;
  states = λ a. if a == 4 then some fresh else none;
  top = 5;
}

one_thread-Below : Below functions one_thread world
one_thread-Below thread a e = ground arith

state_get-again_example :
    (w' : World (ℕ → Option ℕ)) × (state_get functions true 2 world ≡ ok (some 5, w'))
    × Made functions 2 one_thread world w'
    × (state_get functions true 2 w' ≡ ok (some 5, w'))
state_get-again_example =
    state_get-again functions 2 one_thread true world refl refl one_thread-Below
