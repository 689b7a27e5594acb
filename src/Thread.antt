-- ===== src/Thread.antt =====
-- src/global.c: the error state of each thread, with and without a thread library. The library is a
-- parameter: a value for each thread under a key.
pub mod State
use taningia.Base.{ℕ, suc, ◌≡◌, refl, Bool, true, false, Option, none, some, ◌==◌, if◌then◌else◌}
use taningia.Error.{Global, fresh}

abbrev pub Pointer : Type 0
Pointer = Option ℕ

-- What the file uses of the thread library: the value of a thread is NULL until it is set, and
-- setting it changes that of no other thread.
pub record Threads : Type 1 where
  pub Key : Type 0
  pub key_create : Key
  pub getspecific : Key → ℕ → Pointer
  pub setspecific : Key → ℕ → Pointer → Key
  pub get-create : (thread : ℕ) → getspecific key_create thread ≡ none
  pub get-set :
      (key : Key) (thread : ℕ) (p : Pointer) (other : ℕ)
      → getspecific (setspecific key thread p) other
        ≡ (if thread == other then p else getspecific key other)

-- The static variables, and the states that were allocated.
pub record World (Key : Type 0) : Type 0 where
  pub tls_key : Option Key
  pub tls_init : Bool
  pub states : ℕ → Option Global
  pub top : ℕ
