-- ===== src/Iri/Print/Digits.antt =====
-- The decimal digits that `sprintf` prints in src/iri.c, and how many there are.
use native.Mathlib.Nat.{pow-suc}
use taningia.Base.{
  ℕ, zero, suc, ◌+◌, ◌/◌, ◌%◌, ◌^◌, ◌≤◌, ◌<◌, ◌≡◌, refl, false, ◌∷◌, arith, ◌==◌, length,
}
use taningia.Base.CString.{Bytes}
use taningia.Iri.Print.{digits}

pub digits_zero : (fuel : ℕ) (out : Bytes) → digits fuel 0 out ≡ out
unfolding digits
digits_zero zero out = refl
digits_zero (suc fuel) out = refl

pub digits_step :
    (fuel n : ℕ) (out : Bytes)
    → 0 < n
    → digits (suc fuel) n out ≡ digits fuel (n / 10) ((b'0' + n % 10) ∷ out)
unfolding digits
digits_step fuel n out h = let e : (n == 0) ≡ false = ground arith in rw e

pub length-digits_le :
    (k fuel n : ℕ) (out : Bytes)
    → n ≤ fuel
    → n < 10 ^ k
    → length (digits fuel n out) ≤ k + length out
length-digits_le k fuel zero out f h = rw digits_zero (omega arith)
length-digits_le k zero (suc n) out f h = absurd (omega arith)
length-digits_le zero (suc fuel) (suc n) out f h = absurd (omega arith)
length-digits_le (suc k) (suc fuel) (suc n) out f h =
    let small : suc n / 10 < 10 ^ k = omega (arith, pow-suc 10 k) in
    rw (digits_step fuel (suc n) out (omega arith)) (
      omega (
        arith,
        length-digits_le k fuel (suc n / 10) ((b'0' + suc n % 10) ∷ out) (omega arith) small,
      ))

pow_pos : (k : ℕ) → 0 < 10 ^ k
pow_pos zero = omega arith
pow_pos (suc k) = omega (arith, pow-suc 10 k, pow_pos k)

length-digits_out : (fuel n : ℕ) (out : Bytes) → length out ≤ length (digits fuel n out)
length-digits_out fuel zero out = rw digits_zero (omega arith)
length-digits_out zero (suc n) out = unfold digits in omega arith
length-digits_out (suc fuel) (suc n) out =
    rw (digits_step fuel (suc n) out (omega arith))
      (omega (arith, length-digits_out fuel (suc n / 10) ((b'0' + suc n % 10) ∷ out)))

pub length-digits_ge :
    (k fuel n : ℕ) (out : Bytes)
    → n ≤ fuel
    → 10 ^ k ≤ n
    → suc k + length out ≤ length (digits fuel n out)
length-digits_ge k fuel zero out f h = absurd (omega (arith, pow_pos k))
length-digits_ge k zero (suc n) out f h = absurd (omega arith)
length-digits_ge zero (suc fuel) (suc n) out f h =
    rw (digits_step fuel (suc n) out (omega arith))
      (omega (arith, length-digits_out fuel (suc n / 10) ((b'0' + suc n % 10) ∷ out)))
length-digits_ge (suc k) (suc fuel) (suc n) out f h =
    let big : 10 ^ k ≤ suc n / 10 = omega (arith, pow-suc 10 k) in
    rw (digits_step fuel (suc n) out (omega arith)) (
      omega
        (arith, length-digits_ge k fuel (suc n / 10) ((b'0' + suc n % 10) ∷ out) (omega arith) big))
