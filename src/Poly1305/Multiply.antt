-- ===== src/Poly1305/Multiply.antt =====
-- The schoolbook product: `multiply` gives all 256 bits of the accumulator times `r`.
use axiom_os.Base.{
  ℕ, ◌+◌, ◌*◌, ◌/◌, ◌%◌, ◌^◌, ◌<◌, ◌≤◌, ◌≡◌, ap, ap₂, sym, ◌∙◌, arith, u64, u128, ◌>>>◌,
}
use axiom_os.Base.Bits.{bit_and_low}
use axiom_os.Poly1305.{Accumulator, mul_hi, multiply}

abbrev half : ℕ
half = 2 ^ 64

-- The carries between the four products, for any products that fit 128 bits with room to add.
carries :
    (x y z w : ℕ)
    → x < half * half
    → y < half * half
    → z < half * half
    → w * (half * half) + (y + z) * half + x < half * half * (half * half)
    → u128 (
        u128
          (u128 ((u128 (u128 (x / half + y % half) + z % half) >>> 64) + (y >>> 64)) + (z >>> 64))
        + w)
      ≡ (w * (half * half) + (y + z) * half + x) / (half * half)
carries x y z w hx hy hz total = omega arith

product_of_halves :
    (blo bhi rlo rhi : ℕ)
    → (bhi * half + blo) * (rhi * half + rlo)
      ≡ bhi * rhi * (half * half) + (blo * rhi + bhi * rlo) * half + blo * rlo
product_of_halves blo bhi rlo rhi = omega arith

mul-lt : {a b m n : ℕ} → a < m → b < n → a * b < m * n
mul-lt {a} {b} {m} {n} p q = grind arith

-- `mul_hi` is the high half of the product.
pub mul_hi_lem : (b r : ℕ) → b < 2 ^ 128 → r < 2 ^ 128 → mul_hi b r ≡ b * r / 2 ^ 128
unfolding mul_hi
mul_hi_lem b r p q =
    rw (bit_and_low 64 (blo * rhi), bit_and_low 64 (bhi * rlo))
      (carries (blo * rlo) (blo * rhi) (bhi * rlo) (bhi * rhi)
          (mul-lt {m = half} {n = half} (omega arith) (omega arith))
          (mul-lt {m = half} {n = half} (omega arith) (omega arith))
          (mul-lt {m = half} {n = half} (omega arith) (omega arith))
          (rw (← product_of_halves blo bhi rlo rhi, ← b_halves, ← r_halves)
            (mul-lt {m = half * half} {n = half * half} p q))
        ∙ ap (λ t. t / 2 ^ 128)
            (sym (product_of_halves blo bhi rlo rhi) ∙ sym (ap₂ ◌*◌ b_halves r_halves)))
  where
    blo : ℕ
    blo = u64 b

    bhi : ℕ
    bhi = u64 (b >>> 64)

    rlo : ℕ
    rlo = u64 r

    rhi : ℕ
    rhi = u64 (r >>> 64)

    b_halves : b ≡ bhi * half + blo
    b_halves = omega arith

    r_halves : r ≡ rhi * half + rlo
    r_halves = omega arith

-- The number that an accumulator stands for.
abbrev pub value : Accumulator → ℕ
value h = h.h0 * 2 ^ 128 + h.h1

-- The pair `(prod_lo, prod_hi)` is the whole product, with no carry lost.
pub multiply_lem :
    (h : Accumulator) (r : ℕ)
    → h.h0 ≤ 7
    → h.h1 < 2 ^ 128
    → r < 2 ^ 124
    → ((multiply h r).1 * 2 ^ 128 + (multiply h r).0 ≡ value h * r)
      × ((multiply h r).0 < 2 ^ 128)
      × ((multiply h r).1 < 2 ^ 127)
unfolding multiply
multiply_lem h r p q small =
    rw (mul_hi_lem h.h1 r q (omega arith))
      (omega (arith, low, high, expand), omega arith, omega (arith, low, high))
  where
    low : h.h1 * r < 2 ^ 128 * 2 ^ 124
    low = mul-lt q small

    high : h.h0 * r ≤ 7 * r
    high = grind arith

    expand : (h.h0 * 2 ^ 128 + h.h1) * r ≡ h.h0 * r * 2 ^ 128 + h.h1 * r
    expand = omega arith
