-- ===== src/Thread/State.antt =====
-- src/global.c: setting up, taking down, and the state of a thread.
use taningia.Base.{
  ◌<◌, ◌≢◌, sym, Bool-cases, inl, inr, ℕ, suc, ◌≡◌, refl, ◌∙◌, Bool, true, false, none, some, ◌==◌,
  arith, if◌then◌else◌,
}
use taningia.Base.Run.{Run, ok, fault}
use taningia.Error.{fresh}
use taningia.Thread.{Pointer, Threads, World}

below_self : (n : ℕ) → n < n → ⊥
below_self n h = omega arith

module _ (lib : Threads) where
  -- `ta_global_state_setup`
  unfoldable pub state_setup : World lib.Key → World lib.Key
  state_setup w = record w { tls_key = some lib.key_create; tls_init = true }

  -- `ta_global_state_teardown`
  unfoldable pub state_teardown : World lib.Key → World lib.Key
  state_teardown w = record w { tls_key = none; tls_init = false }

  -- The state that is made for a thread: `malloc`, `memset` and `pthread_setspecific`.
  unfoldable pub new_state : Bool → ℕ → lib.Key → World lib.Key → Pointer × World lib.Key
  new_state mem thread key w =
      if mem
      then (
        some w.top,
        record w {
          tls_key = some (lib.setspecific key thread (some w.top));
          states = λ a. if a == w.top then some fresh else w.states a;
          top = suc w.top;
        },
      )
      else (none, w)

  -- `ta_global_state_get` of a thread; `mem` says whether there is memory. A key that was not
  -- created, or was deleted, has no meaning.
  unfoldable pub state_get : Bool → ℕ → World lib.Key → Run (Pointer × World lib.Key)
  unfolding new_state
  state_get mem thread w = elim w.tls_key [
    | none ↦ fault
    | some key ↦ elim (lib.getspecific key thread) [
      | none ↦ ok (new_state mem thread key w)
      | some a ↦ ok (some a, w)
    ]
  ]

  -- The values of the threads are states that were allocated.
  abbrev pub Below : lib.Key → World lib.Key → Type 0
  Below key w = (thread a : ℕ) → lib.getspecific key thread ≡ some a → a < w.top

  -- The first call of a thread: a zeroed state that no other thread has, and the value of no other
  -- thread changes.
  abbrev pub Made : ℕ → lib.Key → World lib.Key → World lib.Key → Type 0
  Made thread key w w' =
      (key' : lib.Key) × (w'.tls_key ≡ some key')
      × (w'.states w.top ≡ some fresh)
      × (lib.getspecific key' thread ≡ some w.top)
      × ((other : ℕ)
          → (thread == other) ≡ false
          → (lib.getspecific key' other ≡ lib.getspecific key other)
            × (lib.getspecific key' other ≢ some w.top))
      × Below key' w'

  set-Below :
      (thread : ℕ) (key : lib.Key) (w : World lib.Key)
      → Below key w
      → Below (lib.setspecific key thread (some w.top)) (new_state true thread key w).1
  unfolding new_state
  set-Below thread key w below other a e = elim (Bool-cases (thread == other)) [
    | inl same ↦
        let it : some w.top ≡ some a =
          sym (lib.get-set key thread (some w.top) other ∙ rw same refl) ∙ e in
        ground arith
    | inr apart ↦
        let old : lib.getspecific key other ≡ some a =
          sym (lib.get-set key thread (some w.top) other ∙ rw apart refl) ∙ e in
        omega (arith, below other a old)
  ]

  -- The state of a thread that has none, where the values of the threads are states that were
  -- allocated: with memory, `ta_global_state_get` allocates a zeroed one, which no other thread has,
  -- and the next call of the thread returns the same and changes nothing. The values of the threads
  -- are states that were allocated behind the call too.
  pub state_get-again :
      (thread : ℕ) (key : lib.Key) (mem : Bool) (w : World lib.Key)
      → w.tls_key ≡ some key
      → lib.getspecific key thread ≡ none
      → Below key w
      → (w' : World lib.Key) × (state_get true thread w ≡ ok (some w.top, w'))
        × Made thread key w w'
        × (state_get mem thread w' ≡ ok (some w.top, w'))
  unfolding state_get
  state_get-again thread key mem w k n below =
      let w' : World lib.Key = (new_state true thread key w).1 in
      let self : (thread == thread) ≡ true = ground arith in
      let here : (w.top == w.top) ≡ true = ground arith in
      let set : lib.getspecific (lib.setspecific key thread (some w.top)) thread ≡ some w.top =
        lib.get-set key thread (some w.top) thread ∙ rw self refl in
      (
        w',
        rw (state_get, k, n) refl,
        (
          lib.setspecific key thread (some w.top),
          refl,
          rw here refl,
          set,
          λ other e.
              let kept = lib.get-set key thread (some w.top) other ∙ rw e refl in
              (kept, λ taken. elim (below_self w.top (below other w.top (sym kept ∙ taken))) [ ]),
          set-Below thread key w below,
        ),
        rw (state_get, set) refl,
      )
