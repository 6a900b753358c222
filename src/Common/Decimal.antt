-- ===== src/Common/Decimal.antt =====
-- Numbers in decimal: what digits stand for, and `std::to_string`.
use Prim.Native.Nat.{ℕ, zero, suc, ◌+◌, ◌-◌, ◌*◌, ◌/◌, ◌%◌, ◌≤◌, ◌<◌}
use mathlib.Core.Path.{◌≡◌, ap, ◌∙◌}
use mathlib.Core.Logic.{inl, inr}
use mathlib.Core.List.{[], ◌∷◌}
use native.Mathlib.Omega.{arith}
use iqlogger.Common.Compare.{ltb, Bool-cases, if◌then◌else◌}
use iqlogger.Common.Text.{Bytes}

-- The number that decimal digits stand for, behind the digits of `acc`.
unfoldable pub number : ℕ → Bytes → ℕ
number acc [] = acc
number acc (d ∷ ds) = number (acc * 10 + (d - b'0')) ds

pub number-le : (acc : ℕ) (ds : Bytes) → acc ≤ number acc ds
unfolding number
number-le acc [] = omega arith
number-le acc (d ∷ ds) = omega (arith, number-le (acc * 10 + (d - b'0')) ds)

-- The digits of `n`, put in front of `acc`.
unfoldable pub digits_before : ℕ → ℕ → Bytes → Bytes
digits_before zero n acc = acc
digits_before (suc fuel) n acc =
    let rest = digits_before fuel (n / 10) ((b'0' + n % 10) ∷ acc) in
    if ltb n 10 then (b'0' + n) ∷ acc else rest

-- `std::to_string`; the fuel is enough by `number-to_string`.
unfoldable pub to_string : ℕ → Bytes
unfolding digits_before
to_string n = digits_before (suc n) n []

number-digits_before :
    (fuel n : ℕ) (acc : Bytes) → n < fuel → number 0 (digits_before fuel n acc) ≡ number n acc
unfolding number digits_before
number-digits_before zero n acc h = absurd (omega arith)
number-digits_before (suc fuel) n acc h = elim (Bool-cases (ltb n 10)) [
  | inl small ↦ rw small (ap (λ (k : ℕ). number k acc) (omega arith))
  | inr large ↦ rw large (
      number-digits_before fuel (n / 10) ((b'0' + n % 10) ∷ acc) (ground arith)
      ∙ ap (λ (k : ℕ). number k acc) (omega arith))
]

-- The digits of a number stand for it.
pub number-to_string : (n : ℕ) → number 0 (to_string n) ≡ n
unfolding to_string number
number-to_string n = number-digits_before (suc n) n [] (omega arith)
