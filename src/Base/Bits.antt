-- ===== src/Base/Bits.antt =====
-- Laws of `&`, `|` and `^` at variables, from the digit recursion that the native operations stand
-- for.
mod Step
pub use Step.{bit_and_step, bit_or_step, bit_xor_step}
use Prim.Native.Nat.{ℕ, zero, suc, ◌+◌, ◌-◌, ◌*◌, ◌/◌, ◌%◌, ◌^◌, ◌≤◌, ◌<◌, min, max}
use Prim.Native.Nat.{bit_and, bit_or, bit_xor, bit_xor-bitwise, bit_and-bitwise}
use mathlib.Core.Path.{◌≡◌, refl, ap, sym, ◌∙◌}
use mathlib.Core.Logic.{◌↔◌}
use native.Mathlib.Nat.{pow-suc, one-le-pow, div-add-mod, mod-lt, mod-eq_of_lt}
use native.Mathlib.Nat.{add-mul-mod_self_left, div-div-eq-div-mul, zero-div}
use native.Mathlib.Omega.{arith}

two_pow-suc : (k : ℕ) → 2 ^ suc k ≡ 2 * 2 ^ k
two_pow-suc k = omega (arith, pow-suc 2 k)

two_pow-pos : (k : ℕ) → 1 ≤ 2 ^ k
two_pow-pos k = one-le-pow k 2 (omega arith)

pub zero-bit_xor : (b : ℕ) → bit_xor 0 b ≡ b
zero-bit_xor b = bit_xor-bitwise 0 b

bit_xor-comm_fuel : (n a b : ℕ) → a ≤ n → b ≤ n → bit_xor a b ≡ bit_xor b a
bit_xor-comm_fuel zero zero zero p q = refl
bit_xor-comm_fuel zero zero (suc b) p q = absurd (omega arith)
bit_xor-comm_fuel zero (suc a) b p q = absurd (omega arith)
bit_xor-comm_fuel (suc n) a b p q = omega (
  arith,
  bit_xor_step a b,
  bit_xor_step b a,
  bit_xor-comm_fuel n (a / 2) (b / 2) (omega arith) (omega arith),
)

pub bit_xor_comm : (a b : ℕ) → bit_xor a b ≡ bit_xor b a
bit_xor_comm a b = bit_xor-comm_fuel (a + b) a b (omega arith) (omega arith)

-- XOR with the same word twice gives the first word back.
bit_xor-cancel_fuel : (n a b : ℕ) → a ≤ n → b ≤ n → bit_xor (bit_xor a b) b ≡ a
bit_xor-cancel_fuel zero zero zero p q = refl
bit_xor-cancel_fuel zero zero (suc b) p q = absurd (omega arith)
bit_xor-cancel_fuel zero (suc a) b p q = absurd (omega arith)
bit_xor-cancel_fuel (suc n) a b p q =
    let lo : bit_xor a b % 2 ≡ (a % 2 + b % 2) % 2 = omega (arith, bit_xor_step a b) in
    let hi : bit_xor a b / 2 ≡ bit_xor (a / 2) (b / 2) = omega (arith, bit_xor_step a b) in
    let rest : bit_xor (bit_xor a b / 2) (b / 2) ≡ a / 2 =
      rw hi (bit_xor-cancel_fuel n (a / 2) (b / 2) (omega arith) (omega arith)) in
    omega (arith, bit_xor_step (bit_xor a b) b, lo, rest)

pub bit_xor-cancel : (a b : ℕ) → bit_xor (bit_xor a b) b ≡ a
bit_xor-cancel a b = bit_xor-cancel_fuel (a + b) a b (omega arith) (omega arith)

-- The XOR of two words is zero exactly when they are equal.
pub bit_xor-eq-zero_iff : (a b : ℕ) → (bit_xor a b ≡ 0) ↔ (a ≡ b)
bit_xor-eq-zero_iff a b =
    (λ e. sym (bit_xor-cancel a b) ∙ ap (λ t. bit_xor t b) e ∙ zero-bit_xor b, λ e. rw e (same b))
  where
    same : (c : ℕ) → bit_xor c c ≡ 0
    same c = ap (λ t. bit_xor t c) (sym (zero-bit_xor c)) ∙ bit_xor-cancel 0 c

-- An OR is zero exactly when both words are.
bit_or-eq-zero_fuel : (n a b : ℕ) → a ≤ n → b ≤ n → bit_or a b ≡ 0 → (a ≡ 0) × (b ≡ 0)
bit_or-eq-zero_fuel zero a b p q e = omega arith
bit_or-eq-zero_fuel (suc n) a b p q e =
    let rest : (a / 2 ≡ 0) × (b / 2 ≡ 0) =
      bit_or-eq-zero_fuel n (a / 2) (b / 2) (omega arith) (omega arith)
        (omega (arith, bit_or_step a b)) in
    omega (arith, bit_or_step a b, rest)

pub bit_or-eq-zero_iff : (a b : ℕ) → (bit_or a b ≡ 0) ↔ ((a ≡ 0) × (b ≡ 0))
bit_or-eq-zero_iff a b =
    (bit_or-eq-zero_fuel (a + b) a b (omega arith) (omega arith), λ (p, q). rw (p, q))

-- A bound on the widths of the operands is one on the result.
pub bit_xor-lt : (k a b : ℕ) → a < 2 ^ k → b < 2 ^ k → bit_xor a b < 2 ^ k
bit_xor-lt zero zero zero p q = omega arith
bit_xor-lt zero zero (suc b) p q = absurd (omega arith)
bit_xor-lt zero (suc a) b p q = absurd (omega arith)
bit_xor-lt (suc k) a b p q = omega (
  arith,
  bit_xor_step a b,
  two_pow-suc k,
  bit_xor-lt k (a / 2) (b / 2) (omega (arith, two_pow-suc k)) (omega (arith, two_pow-suc k)),
)

pub bit_or-lt : (k a b : ℕ) → a < 2 ^ k → b < 2 ^ k → bit_or a b < 2 ^ k
bit_or-lt zero zero zero p q = omega arith
bit_or-lt zero zero (suc b) p q = absurd (omega arith)
bit_or-lt zero (suc a) b p q = absurd (omega arith)
bit_or-lt (suc k) a b p q = omega (
  arith,
  bit_or_step a b,
  two_pow-suc k,
  bit_or-lt k (a / 2) (b / 2) (omega (arith, two_pow-suc k)) (omega (arith, two_pow-suc k)),
)

-- Nothing is left of a word under an empty mask: digit by digit, on a count of digits.
emptied : (digits w : ℕ) → w ≤ digits → bit_and w 0 ≡ 0
emptied zero w few = let none_left : w ≡ 0 = omega arith in rw none_left refl
emptied (suc digits) w few =
    let upper : bit_and (w / 2) 0 ≡ 0 = emptied digits (w / 2) (omega arith) in
    let lowest = bit_and_step w 0 in omega (arith, lowest, upper)

pub bit_and-zero : (a : ℕ) → bit_and a 0 ≡ 0
bit_and-zero a = emptied a a (omega arith)

bit_or-zero_fuel : (n a : ℕ) → a ≤ n → bit_or a 0 ≡ a
bit_or-zero_fuel n zero h = refl
bit_or-zero_fuel zero (suc a) h = absurd (omega arith)
bit_or-zero_fuel (suc n) (suc a) h =
    omega (arith, bit_or_step (suc a) 0, bit_or-zero_fuel n (suc a / 2) (omega arith))

-- The remainder by an even number, from the lowest digit and the rest.
mod_double : (n m : ℕ) → 1 ≤ m → n % (2 * m) ≡ n / 2 % m * 2 + n % 2
mod_double n m h =
    ap (λ t. t % (2 * m)) whole
    ∙ add-mul-mod_self_left (n / 2 % m * 2 + n % 2) (2 * m) (n / 2 / m)
    ∙ mod-eq_of_lt (omega (arith, mod-lt (n / 2) h))
  where
    whole : n ≡ n / 2 % m * 2 + n % 2 + 2 * m * (n / 2 / m)
    whole = omega (arith, div-add-mod (n / 2) m)

-- The mask of the `k` low bits takes the remainder by `2 ^ k`.
pub bit_and_low : (k a : ℕ) → bit_and a (2 ^ k - 1) ≡ a % 2 ^ k
bit_and_low zero a = omega (arith, bit_and-zero a)
bit_and_low (suc k) a =
    bit_and_step a (2 ^ suc k - 1)
    ∙ omega (arith, odd, rest (bit_and_low k (a / 2)))
    ∙ sym (mod_double a (2 ^ k) (two_pow-pos k))
    ∙ ap (λ t. a % t) (sym (two_pow-suc k))
  where
    half : (2 ^ suc k - 1) / 2 ≡ 2 ^ k - 1
    half = omega (arith, two_pow-suc k, two_pow-pos k)

    odd : (2 ^ suc k - 1) % 2 ≡ 1
    odd = omega (arith, two_pow-suc k, two_pow-pos k)

    rest :
        bit_and (a / 2) (2 ^ k - 1) ≡ a / 2 % 2 ^ k
        → bit_and (a / 2) ((2 ^ suc k - 1) / 2) ≡ a / 2 % 2 ^ k
    rest ih = rw half ih

-- If no bit of `a` falls outside the mask `m`, each bit of `a` is one of `m`.
pub bit_within :
    (k a m : ℕ)
    → a < 2 ^ k
    → m < 2 ^ k
    → bit_and a (2 ^ k - 1 - m) ≡ 0
    → (i : ℕ) → a / 2 ^ i % 2 ≤ m / 2 ^ i % 2
bit_within zero a m p q e i =
    let none_set : a ≡ 0 = omega arith in rw (none_set, zero-div) (omega arith)
bit_within (suc k) a m p q e zero = omega (arith, bit_and_step a (2 ^ suc k - 1 - m), two_pow-suc k)
bit_within (suc k) a m p q e (suc i) =
    rw (halved a, halved m)
      (bit_within k (a / 2) (m / 2) (omega (arith, two_pow-suc k)) (omega (arith, two_pow-suc k))
        rest i)
  where
    halved : (n : ℕ) → n / 2 ^ suc i ≡ n / 2 / 2 ^ i
    halved n = ap (λ t. n / t) (two_pow-suc i) ∙ sym (div-div-eq-div-mul n 2 (2 ^ i))

    rest : bit_and (a / 2) (2 ^ k - 1 - m / 2) ≡ 0
    rest =
        let half : (2 ^ suc k - 1 - m) / 2 ≡ 2 ^ k - 1 - m / 2 = omega (arith, two_pow-suc k) in
        let high : bit_and (a / 2) ((2 ^ suc k - 1 - m) / 2) ≡ 0 =
          omega (arith, bit_and_step a (2 ^ suc k - 1 - m)) in
        rw half at high

bit_and-le_fuel : (n a b : ℕ) → a ≤ n → bit_and a b ≤ a
bit_and-le_fuel n zero b h = omega (arith, bit_and-bitwise 0 b)
bit_and-le_fuel zero (suc a) b h = absurd (omega arith)
bit_and-le_fuel (suc n) (suc a) b h =
    omega (arith, bit_and_step (suc a) b, bit_and-le_fuel n (suc a / 2) (b / 2) (omega arith))

pub bit_and-le : (a b : ℕ) → bit_and a b ≤ a
bit_and-le a b = bit_and-le_fuel a a b (omega arith)
