-- ===== src/Object/Counting.antt =====
-- Runs of references and releases on one object.
use mathlib.Core.Path.{subst}
use taningia.Base.{
  ◌<◌, ◌-◌, ◌^◌, ltb, true, ℕ, zero, suc, ◌≡◌, refl, ap, ◌∙◌, Option, none, some, List, [], ◌∷◌,
  ◌++◌, append-nil, arith,
}
use taningia.Base.Int.{pos}
use taningia.Base.Run.{Run, ok, fault, ◌>>=◌}
use taningia.Object.{Destructor, Cell, live, freed, Destroyed, init, ref, unref}

-- What the holders of an object do to it, in the order in which it happens.
pub data Use : Type 0 where
  take release : Use

abbrev pub use_once : Use → Cell → Run (Cell × Destroyed)
use_once take c = do c' ← ref c; ok (c', [])
use_once release c = do (c', d) ← unref (some c); elim c' [ none ↦ fault | some c'' ↦ ok (c'', d) ]

-- A run of uses, with the destructors called on the way.
abbrev pub use_all : List Use → Cell → Run (Cell × Destroyed)
use_all [] c = ok (c, [])
use_all (u ∷ us) c = do (c', d) ← use_once u c; (c'', d') ← use_all us c'; ok (c'', d ++ d')

-- The references held after a run from `n`; `none` where a release comes before its reference.
abbrev pub held : List Use → ℕ → Option ℕ
held [] n = some n
held (take ∷ us) n = held us (suc n)
held (release ∷ us) zero = none
held (release ∷ us) (suc n) = held us n

abbrev pub counted : ℕ → Option Destructor → Cell
counted zero d = freed
counted (suc n) d = live (record { refcount = pos (suc n); destructor = d })

-- Every prefix of a run leaves a reference, and fewer than 2^31 of them.
abbrev pub Guarded : List Use → ℕ → Type 0
Guarded us zero = ⊥
Guarded [] (suc n) = Unit
Guarded (take ∷ us) (suc n) = (suc n < 2 ^ 31 - 1) × Guarded us (suc (suc n))
Guarded (release ∷ us) (suc n) = Guarded us n

bind-eta : (r : Run (Cell × Destroyed)) → (r >>= λ c. ok (c.0, c.1)) ≡ r
bind-eta (ok c) = refl
bind-eta fault = refl

use_all-append :
    (us vs : List Use) (n m : ℕ) (d : Option Destructor)
    → Guarded us n
    → held us n ≡ some m
    → use_all (us ++ vs) (counted n d) ≡ use_all vs (counted m d)
unfolding ref unref
use_all-append us vs zero m d g h = elim g [ ]
use_all-append [] vs (suc n) m d g h =
    let e : suc n ≡ m = ground arith in ap (λ k. use_all vs (counted k d)) e
use_all-append (take ∷ us) vs (suc n) m d (b, g) h =
    let room : ltb (suc n) (2 ^ 31 - 1) ≡ true = ground arith in
    rw room (bind-eta _ ∙ use_all-append us vs (suc (suc n)) m d g h)
use_all-append (release ∷ us) vs (suc zero) m d g h = elim g [ ]
use_all-append (release ∷ us) vs (suc (suc n)) m d g h =
    bind-eta _ ∙ use_all-append us vs (suc n) m d g h

counted-live :
    (us : List Use) (n m : ℕ) (d : Option Destructor)
    → Guarded us n
    → held us n ≡ some m
    → counted m d ≡ live (record { refcount = pos m; destructor = d })
counted-live us zero m d g h = elim g [ ]
counted-live [] (suc n) m d g h =
    let e : suc n ≡ m = ground arith in
    subst (λ k. counted k d ≡ live (record { refcount = pos k; destructor = d })) e refl
counted-live (take ∷ us) (suc n) m d (b, g) h = counted-live us (suc (suc n)) m d g h
counted-live (release ∷ us) (suc n) m d g h = counted-live us n m d g h

use_once-freed : (u : Use) → use_once u freed ≡ fault
unfolding ref unref
use_once-freed take = refl
use_once-freed release = refl

-- An object behind any run that leaves a reference at every point, and never 2^31 of them, is
-- alive, with the count of the references held, and no destructor was called.
init-held :
    (us : List Use) (m : ℕ) (d : Option Destructor)
    → Guarded us 1
    → held us 1 ≡ some m
    → use_all us (live (init d)) ≡ ok (live (record { refcount = pos m; destructor = d }), [])
unfolding init
init-held us m d g h =
    rw append-nil at (use_all-append us [] 1 m d g h)
    ∙ ap (λ c. ok (c, [])) (counted-live us 1 m d g h)

-- Behind a run that leaves a reference at every point, never 2^31 of them, and one at its end, a
-- further release calls the destructor, once, and frees the object; and any use behind that is a
-- fault.
pub init-release :
    (us vs : List Use) (u : Use) (d : Option Destructor)
    → Guarded us 1
    → held us 1 ≡ some 1
    → (use_all (us ++ release ∷ []) (live (init d)) ≡ ok (freed, d ∷ []))
      × (use_all (us ++ release ∷ u ∷ vs) (live (init d)) ≡ fault)
unfolding init unref
init-release us vs u d g h =
    (use_all-append us _ 1 1 d g h, use_all-append us _ 1 1 d g h ∙ rw (use_once-freed u))
