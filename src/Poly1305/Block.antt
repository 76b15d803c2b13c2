-- ===== src/Poly1305/Block.antt =====
-- One block: the accumulator is replaced by (h + block) * r modulo 2 ^ 130 - 5, and stays in range.
use axiom_os.Base.{
  ℕ, zero, suc, ◌+◌, ◌-◌, ◌*◌, ◌/◌, ◌%◌, ◌^◌, ◌<◌, ◌≤◌, ◌≡◌, refl, ap, sym, ◌∙◌, arith, inl, inr,
  Bool, true, ◌&&◌, List, [], ◌∷◌, ◌++◌, ◌==◌, ltb, ==_iff, &&_iff, Bool-cases, length, overwrite,
  replicate, IsBytes, take_all, overwrite-replicate,
}
use axiom_os.Base.Bits.{bit_and_low}
use axiom_os.Base.Bytes.{from_le, from_le-lt, pow_256-suc}
use native.Mathlib.Nat.{add-mul-mod_self_right, pow-le-pow_right}
use native.Mathlib.Numerals.{towards_suc}
use axiom_os.Poly1305.{
  Accumulator, load_le_u128, overflowing_add, overflowing_sub, block_bits, add_bits, multiply,
  fold_product, subtract_modulus, reduce_once, add_block,
}
use axiom_os.Poly1305.Multiply.{value, multiply_lem}

abbrev pub modulus : ℕ
modulus = 2 ^ 130 - 5

-- Between blocks the accumulator may equal the modulus, but does not exceed it.
pub record InRange (h : Accumulator) : Type 0 where
  pub low : h.h1 < 2 ^ 128
  pub bounded : value h ≤ modulus

from_le-padded : (b : List ℕ) (n : ℕ) → from_le (b ++ replicate n 0) ≡ from_le b
unfolding from_le
from_le-padded [] zero = refl
from_le-padded [] (suc n) = omega (arith, from_le-padded [] n)
from_le-padded (x ∷ b) n = omega (arith, from_le-padded b n)

-- A block of at most 16 bytes is read as the number that it spells.
pub load_le_u128_lem : (b : List ℕ) → length b ≤ 16 → load_le_u128 b ≡ from_le b
unfolding load_le_u128
load_le_u128_lem b h =
    ap (λ l. from_le (overwrite (replicate 16 0) 0 l)) (take_all 16 b h)
    ∙ ap from_le (overwrite-replicate 16 0 b h)
    ∙ from_le-padded b (16 - length b)

two_pow_bytes : (n : ℕ) → 2 ^ (n * 8) ≡ 256 ^ n
two_pow_bytes zero = refl
two_pow_bytes (suc n) =
    ap (λ k. 2 ^ k) {x = suc n * 8} {y = n * 8 + 8} (omega arith)
    ∙ simp towards_suc (omega (arith, two_pow_bytes n, pow_256-suc n))

pub overflowing_add_lem :
    (a b : ℕ)
    → a < 2 ^ 128
    → b < 2 ^ 128
    → ((overflowing_add a b).1 * 2 ^ 128 + (overflowing_add a b).0 ≡ a + b)
      × ((overflowing_add a b).0 < 2 ^ 128)
      × ((overflowing_add a b).1 ≤ 1)
unfolding overflowing_add
overflowing_add_lem a b p q = ground arith

-- The block with a one bit behind it, as the pair of its low 128 bits and bit 128.
pub block_bits_lem :
    (b : List ℕ) (full : Bool)
    → IsBytes b
    → length b ≤ 16
    → (full ≡ true → length b ≡ 16)
    → ((block_bits b full).1 * 2 ^ 128 + (block_bits b full).0 ≡ from_le b + 256 ^ length b)
      × ((block_bits b full).0 < 2 ^ 128)
      × ((block_bits b full).1 ≤ 1)
unfolding block_bits
block_bits_lem b full bytes h whole = elim (Bool-cases (full && (length b == 16))) [
  | inl all ↦
      let len : length b ≡ 16 = (==_iff _ 16).0 ((&&_iff full (length b == 16)).0 all).1 in
      rw (all, load_le_u128_lem b h)
        (omega (arith, ap (λ k. 256 ^ k) len), omega (arith, spelled), omega arith)
  | inr some_left ↦
      rw (some_left, load_le_u128_lem b h)
        (elim (Bool-cases (ltb (length b * 8) 128)) [
          | inl short ↦
              let lt : length b ≤ 15 = ground arith in
              rw short (partial (pow-le-pow_right {n = 256} (omega arith) lt))
          | inr long ↦
              let len : length b ≡ 16 = ground arith in
              rw long (omega (arith, ap (λ k. 256 ^ k) len), omega (arith, spelled), omega arith)
        ])
]
  where
    spelled : from_le b < 2 ^ 128
    spelled = omega (arith, from_le-lt b bytes, pow-le-pow_right {n = 256} (omega arith) h)

    partial :
        256 ^ length b ≤ 256 ^ 15
        → let n = overflowing_add (from_le b) (1 * 2 ^ (length b * 8)) in
          (n.1 * 2 ^ 128 + n.0 ≡ from_le b + 256 ^ length b) × (n.0 < 2 ^ 128) × (n.1 ≤ 1)
    partial le = omega (
      arith,
      two_pow_bytes (length b),
      overflowing_add_lem (from_le b) (1 * 2 ^ (length b * 8)) spelled
          (omega (arith, two_pow_bytes (length b), le)),
    )

pub add_bits_lem :
    (h : Accumulator) (n : ℕ × ℕ)
    → InRange h
    → n.0 < 2 ^ 128
    → n.1 ≤ 1
    → (value (add_bits h n) ≡ value h + (n.1 * 2 ^ 128 + n.0))
      × ((add_bits h n).h1 < 2 ^ 128)
      × ((add_bits h n).h0 ≤ 7)
unfolding add_bits
add_bits_lem h (n1, c) r p q = ground (arith, overflowing_add_lem h.h1 n1)

-- Bits 130 and up come back in five times, since 2 ^ 130 is 5.
pub fold_product_lem :
    (lo hi : ℕ)
    → lo < 2 ^ 128
    → hi < 2 ^ 127
    → (value (fold_product (lo, hi)) + hi / 4 * modulus ≡ hi * 2 ^ 128 + lo)
      × ((fold_product (lo, hi)).h1 < 2 ^ 128)
      × (value (fold_product (lo, hi)) < 2 ^ 130 + 2 ^ 128)
unfolding fold_product
fold_product_lem lo hi p q = rw (bit_and_low 2 hi) (ground arith)

pub reduce_once_lem :
    (h : Accumulator)
    → h.h1 < 2 ^ 128
    → value h < 2 ^ 130 + 2 ^ 128
    → InRange (reduce_once h) × (value (reduce_once h) % modulus ≡ value h % modulus)
unfolding reduce_once subtract_modulus overflowing_sub
reduce_once_lem h p q = ground arith

-- A block of at most 16 bytes, `full` only at 16: the accumulator becomes (h + block) * r modulo
-- 2 ^ 130 - 5, where the block is read with a one bit behind it, and stays in range.
pub add_block_lem :
    (r : ℕ) (h : Accumulator) (b : List ℕ) (full : Bool)
    → r < 2 ^ 124
    → InRange h
    → IsBytes b
    → length b ≤ 16
    → (full ≡ true → length b ≡ 16)
    → InRange (add_block r h b full)
      × (value (add_block r h b full) % modulus
          ≡ (value h + (from_le b + 256 ^ length b)) * r % modulus)
unfolding add_block
add_block_lem r h b full small range bytes len whole = (reduced.0, reduced.1 ∙ congruent)
  where
    bits : ℕ × ℕ
    bits = block_bits b full

    bits_lem :
        (bits.1 * 2 ^ 128 + bits.0 ≡ from_le b + 256 ^ length b) × (bits.0 < 2 ^ 128) × (bits.1 ≤ 1)
    bits_lem = block_bits_lem b full bytes len whole

    sum : Accumulator
    sum = add_bits h bits

    sum_lem :
        (value sum ≡ value h + (bits.1 * 2 ^ 128 + bits.0)) × (sum.h1 < 2 ^ 128) × (sum.h0 ≤ 7)
    sum_lem = add_bits_lem h bits range bits_lem.1 bits_lem.2

    prod : ℕ × ℕ
    prod = multiply sum r

    prod_lem : (prod.1 * 2 ^ 128 + prod.0 ≡ value sum * r) × (prod.0 < 2 ^ 128) × (prod.1 < 2 ^ 127)
    prod_lem = multiply_lem sum r sum_lem.2 sum_lem.1 small

    folded :
        (value (fold_product prod) + prod.1 / 4 * modulus ≡ prod.1 * 2 ^ 128 + prod.0)
        × ((fold_product prod).h1 < 2 ^ 128)
        × (value (fold_product prod) < 2 ^ 130 + 2 ^ 128)
    folded = fold_product_lem prod.0 prod.1 prod_lem.1 prod_lem.2

    reduced :
        InRange (reduce_once (fold_product prod))
        × (value (reduce_once (fold_product prod)) % modulus ≡ value (fold_product prod) % modulus)
    reduced = reduce_once_lem (fold_product prod) folded.1 folded.2

    congruent :
        value (fold_product prod) % modulus ≡ (value h + (from_le b + 256 ^ length b)) * r % modulus
    congruent =
        sym (add-mul-mod_self_right (value (fold_product prod)) (prod.1 / 4) modulus)
        ∙ ap (λ t. t % modulus)
            (folded.0 ∙ prod_lem.0 ∙ ap (λ t. t * r) (sum_lem.0 ∙ ap (λ t. value h + t) bits_lem.0))
