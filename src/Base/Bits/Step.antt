-- ===== src/Base/Bits/Step.antt =====
-- One equation for the lowest digit of each operation. The native operations are recursions on a
-- count of digits; the count is dropped here.
use Prim.Native.Nat.{ℕ, zero, suc, ◌+◌, ◌*◌, ◌/◌, ◌%◌, ◌≤◌, min, max, differ, digits}
use Prim.Native.Nat.{bit_and, bit_or, bit_xor, bit_and-bitwise, bit_or-bitwise, bit_xor-bitwise}
use mathlib.Core.Path.{◌≡◌, refl}
use native.Mathlib.Omega.{arith}

module _ (rest : ℕ → ℕ) (op : ℕ → ℕ → ℕ) where
  -- Any two counts that are large enough give the same digits.
  recount : (x y : ℕ) (k l : ℕ) → x ≤ k → x ≤ l → digits rest op k x y ≡ digits rest op l x y
  recount (suc x) y zero l h g = absurd (omega arith)
  recount (suc x) y (suc k) zero h g = absurd (omega arith)
  recount (suc x) y (suc k) (suc l) h g =
      let half_x : suc x / 2 ≤ k = omega arith in
      let also : suc x / 2 ≤ l = omega arith in
      omega (arith, recount (suc x / 2) (y / 2) k l half_x also)
  recount zero y zero zero h g = refl
  recount zero y (suc k) zero h g = refl
  recount zero y zero (suc l) h g = refl
  recount zero y (suc k) (suc l) h g = refl

  -- In particular the halves may be counted one lower.
  lower :
      (x y : ℕ)
      → digits rest op x (suc x / 2) (y / 2) ≡ digits rest op (suc x / 2) (suc x / 2) (y / 2)
  lower x y = recount (suc x / 2) (y / 2) x (suc x / 2) (omega arith) (omega arith)

pub bit_and_step : (a b : ℕ) → bit_and a b ≡ bit_and (a / 2) (b / 2) * 2 + min (a % 2) (b % 2)
bit_and_step zero y = omega (arith, bit_and-bitwise 0 (y / 2), bit_and-bitwise 0 y)
bit_and_step (suc x) y =
    let halves = bit_and-bitwise (suc x / 2) (y / 2) in
    omega (arith, halves, lower (λ _. 0) min x y, bit_and-bitwise (suc x) y)

pub bit_or_step : (a b : ℕ) → bit_or a b ≡ bit_or (a / 2) (b / 2) * 2 + max (a % 2) (b % 2)
bit_or_step zero y = omega (arith, bit_or-bitwise 0 (y / 2), bit_or-bitwise 0 y)
bit_or_step (suc x) y =
    let halves = bit_or-bitwise (suc x / 2) (y / 2) in
    omega (arith, halves, lower (λ d. d) max x y, bit_or-bitwise (suc x) y)

differ_digits : (x y : ℕ) → x ≤ 1 → y ≤ 1 → differ x y ≡ (x + y) % 2
differ_digits zero zero p q = refl
differ_digits zero (suc zero) p q = refl
differ_digits zero (suc (suc y)) p q = absurd (omega arith)
differ_digits (suc zero) zero p q = refl
differ_digits (suc zero) (suc zero) p q = refl
differ_digits (suc zero) (suc (suc y)) p q = absurd (omega arith)
differ_digits (suc (suc x)) y p q = absurd (omega arith)

pub bit_xor_step : (a b : ℕ) → bit_xor a b ≡ bit_xor (a / 2) (b / 2) * 2 + (a % 2 + b % 2) % 2
bit_xor_step zero y = omega (arith, bit_xor-bitwise 0 (y / 2), bit_xor-bitwise 0 y)
bit_xor_step (suc x) y =
    let halves = bit_xor-bitwise (suc x / 2) (y / 2) in
    let lowest = differ_digits (suc x % 2) (y % 2) (omega arith) (omega arith) in
    omega (arith, halves, lowest, lower (λ d. d) differ x y, bit_xor-bitwise (suc x) y)
