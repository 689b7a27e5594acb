-- ===== src/Base/Run.antt =====
-- The outcome of C code: a value, or a fault where the C standard gives the run no meaning
-- (a NULL or dangling pointer, a second free, a write past a buffer).
use native.Mathlib.Omega.{arith}
use mathlib.Core.Bool.{Bool, true, false}
use mathlib.Core.Option.{Option, none, some}
use mathlib.Core.Path.{◌≡◌, refl}
use mathlib.Core.Logic.{◌⊎◌, inl, inr}
use taningia.Base.Tests.{if◌then◌else◌}

pub data Run {ℓ} (Value : Type ℓ) : Type ℓ where
  fault : Run Value
  ok : Value → Run Value

module _ {ℓ κ} {First : Type ℓ} {Then : Type κ} where
  infixl 5 ◌>>=◌ ◌>>◌
  abbrev pub ◌>>=◌ : Run First → (First → Run Then) → Run Then
  fault >>= next = fault
  ok value >>= next = next value

  abbrev pub ◌>>◌ : Run First → Run Then → Run Then
  run >> next = run >>= λ _. next

  pub >>=-eq-ok :
      (run : Run First) (next : First → Run Then) {end : Then}
      → (run >>= next) ≡ ok end
      → (value : First) × (run ≡ ok value) × (next value ≡ ok end)
  >>=-eq-ok fault next h = cc
  >>=-eq-ok (ok value) next h = (value, refl, h)

-- What holds of the value where a run does not fault.
unfoldable pub After {ℓ} : {Value : Type ℓ} → (Value → Type 0) → Run Value → Type 0
After P fault = Unit {0}
After P (ok value) = P value

module _ {ℓ κ} {First : Type ℓ} {Then : Type κ} where
  pub >>=-After :
      (P : First → Type 0) (Q : Then → Type 0) (run : Run First) (next : First → Run Then)
      → After P run
      → ((value : First) → P value → After Q (next value))
      → After Q (run >>= next)
  unfolding After
  >>=-After P Q fault next h k = tt
  >>=-After P Q (ok value) next h k = k value h

  -- Two ways to go on that agree on what can come.
  pub >>=-ext :
      (P : First → Type 0) (run : Run First) (next next' : First → Run Then)
      → After P run
      → ((value : First) → P value → next value ≡ next' value)
      → (run >>= next) ≡ (run >>= next')
  unfolding After
  >>=-ext P fault next next' h k = refl
  >>=-ext P (ok value) next next' h k = k value h

  -- The second step on its own, as two.
  pub >>=_split {μ} :
      {Middle : Type μ} (run : Run First) (next : First → Run Then) (first : First → Run Middle)
      (last : Middle → Run Then)
      → ((x : First) → next x ≡ (do y ← first x; last y))
      → (do x ← run; next x) ≡ (do y ← (do x ← run; first x); last y)
  >>=_split fault next first last e = refl
  >>=_split (ok x) next first last e = e x

  pub >>=-ext_any :
      (run : Run First) (next next' : First → Run Then)
      → ((value : First) → next value ≡ next' value)
      → (run >>= next) ≡ (run >>= next')
  >>=-ext_any fault next next' k = refl
  >>=-ext_any (ok value) next next' k = k value

  -- The same where nothing is known of the first value.
  pub >>=-After_any :
      (Q : Then → Type 0) (run : Run First) (next : First → Run Then)
      → ((value : First) → After Q (next value))
      → After Q (run >>= next)
  unfolding After
  >>=-After_any Q fault next k = tt
  >>=-After_any Q (ok value) next k = k value

module _ {ℓ} {Value : Type ℓ} where
  pub if-After :
      (P : Value → Type 0) (b : Bool) (yes' no' : Run Value)
      → (b ≡ true → After P yes')
      → (b ≡ false → After P no')
      → After P (if b then yes' else no')
  if-After P true yes' no' h k = h refl
  if-After P false yes' no' h k = k refl

  pub if-Holds :
      (P : Value → Type 0) (b : Bool) (x y : Value)
      → (b ≡ true → P x)
      → (b ≡ false → P y)
      → P (if b then x else y)
  if-Holds P true x y h k = h refl
  if-Holds P false x y h k = k refl

  pub option-After {κ} :
      {Held : Type κ} (P : Value → Type 0) (held : Option Held) (run : Run Value)
      (next : Held → Run Value)
      → After P run
      → ((x : Held) → After P (next x))
      → After P (elim held [ none ↦ run | some x ↦ next x ])
  option-After P none run next h k = h
  option-After P (some x) run next h k = k x

  pub ok-After :
      (P : Value → Type 0) (run : Run Value) (value : Value)
      → run ≡ ok value
      → After P run
      → P value
  unfolding After
  ok-After P fault value e h = cc
  ok-After P (ok v) value e h = let same : value ≡ v = cc in rw same h

  pub map-After :
      (P Q : Value → Type 0) (run : Run Value)
      → ((value : Value) → P value → Q value)
      → After P run
      → After Q run
  unfolding After
  map-After P Q fault f h = tt
  map-After P Q (ok value) f h = f value h

  -- The same for a choice that is no run.
  pub option-Holds {κ} :
      {Held : Type κ} (P : Value → Type 0) (held : Option Held) (x : Value) (next : Held → Value)
      → P x
      → ((y : Held) → P (next y))
      → P (elim held [ none ↦ x | some y ↦ next y ])
  option-Holds P none x next h k = h
  option-Holds P (some y) x next h k = k y

  pub Run-cases : (run : Run Value) → (run ≡ fault) ⊎ ((value : Value) × (run ≡ ok value))
  Run-cases fault = inl refl
  Run-cases (ok value) = inr (value, refl)

  -- The run does not fault.
  abbrev pub returns : Run Value → Bool
  returns fault = false
  returns (ok value) = true

  pub returns-ok : (run : Run Value) → returns run ≡ true → (value : Value) × (run ≡ ok value)
  returns-ok fault h = absurd (ground arith)
  returns-ok (ok value) h = (value, refl)

  pub returns-if : (b : Bool) (value : Value) → returns (if b then ok value else fault) ≡ b
  returns-if true value = refl
  returns-if false value = refl
