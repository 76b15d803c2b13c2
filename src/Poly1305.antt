-- ===== src/Poly1305.antt =====
-- kernel/src/poly1305.rs, lines 12 to 178: the one-time MAC over 2 ^ 130 - 5.
-- A u128 is a number below 2 ^ 128, and each wrapping operation reduces modulo 2 ^ 128.
pub mod Multiply
pub mod Block
pub mod Tag
mod Tests
use axiom_os.Base.{
  ℕ, zero, suc, ◌+◌, ◌-◌, ◌*◌, ◌^◌, bit_and, Bool, true, false, ◌&&◌, ◌||◌, List, ltb, leb, ◌==◌,
  if◌then◌else◌, length, get_or, set, take, drop, overwrite, replicate, u64, u128, ◌<<<◌, ◌>>>◌,
}
use axiom_os.Base.Bytes.{to_le, from_le}

-- `r[i] &= mask`
unfoldable pub mask_at : ℕ → ℕ → List ℕ → List ℕ
mask_at i mask r = set r i (bit_and (get_or r i 0) mask)

unfoldable pub clamp : List ℕ → List ℕ
unfolding mask_at
clamp r =
    let top = mask_at 15 15 (mask_at 11 15 (mask_at 7 15 (mask_at 3 15 r))) in
    mask_at 12 252 (mask_at 8 252 (mask_at 4 252 top))

unfoldable pub load_le_u128 : List ℕ → ℕ
load_le_u128 b = from_le (overwrite (replicate 16 0) 0 (take 16 b))

-- The accumulator: bits 128 and up in `h0`, the low 128 bits in `h1`.
pub record Accumulator : Type 0 where
  pub h0 : ℕ
  pub h1 : ℕ

-- `overflowing_add` and `overflowing_sub` of u128, with the carry as a number.
unfoldable pub overflowing_add : ℕ → ℕ → ℕ × ℕ
overflowing_add a b = (u128 (a + b), if ltb (a + b) (2 ^ 128) then 0 else 1)

unfoldable pub overflowing_sub : ℕ → ℕ → ℕ × ℕ
overflowing_sub a b = (u128 (a + 2 ^ 128 - b), if ltb a b then 1 else 0)

abbrev pub low64 : ℕ
low64 = 0xFFFF_FFFF_FFFF_FFFF

-- `br_hi`: the high 128 bits of `b * r`, from four products of 64-bit halves.
unfoldable pub mul_hi : ℕ → ℕ → ℕ
mul_hi b r =
    let blo = u64 b in
    let bhi = u64 (b >>> 64) in
    let rlo = u64 r in
    let rhi = u64 (r >>> 64) in
    let lo_lo = blo * rlo in
    let lo_hi = blo * rhi in
    let hi_lo = bhi * rlo in
    let hi_hi = bhi * rhi in
    let mid = u128 (u128 ((lo_lo >>> 64) + bit_and lo_hi low64) + bit_and hi_lo low64) in
    u128 (u128 (u128 ((mid >>> 64) + (lo_hi >>> 64)) + (hi_lo >>> 64)) + hi_hi)

-- The number that a block stands for and its bit 128: the block with a one bit behind it.
unfoldable pub block_bits : List ℕ → Bool → ℕ × ℕ
unfolding overflowing_add
block_bits block full =
    let n = load_le_u128 block in
    if full && (length block == 16)
    then (n, 1)
    else (let at = length block * 8 in if ltb at 128 then overflowing_add n (1 <<< at) else (n, 1))

-- `h += n`
unfoldable pub add_bits : Accumulator → ℕ × ℕ → Accumulator
unfolding overflowing_add
add_bits h (n1, carry) =
    let (h1, c) = overflowing_add h.h1 n1 in record { h0 = u64 (u64 (h.h0 + carry) + c); h1 = h1 }

-- `(prod_lo, prod_hi)`: the product of the accumulator with `r`.
unfoldable pub multiply : Accumulator → ℕ → ℕ × ℕ
unfolding overflowing_add
multiply h r =
    let br_lo = u128 (h.h1 * r) in
    let br_hi = mul_hi h.h1 r in
    let ar = u128 (h.h0 * r) in let (phi, c2) = overflowing_add br_hi ar in (br_lo, phi)

-- The product folded once at bit 130, then reduced by the modulus if it is too large.
unfoldable pub fold_product : ℕ × ℕ → Accumulator
unfolding overflowing_add
fold_product (prod_lo, prod_hi) =
    let carry_bits = prod_hi >>> 2 in
    let (h1, c) = overflowing_add prod_lo (u128 (carry_bits * 5)) in
    record { h0 = u64 (bit_and prod_hi 3 + c); h1 = h1 }

unfoldable pub subtract_modulus : Accumulator → Accumulator
unfolding overflowing_sub
subtract_modulus h =
    let (h1, borrow) = overflowing_sub h.h1 (2 ^ 128 - 1 - 4) in
    record { h0 = u64 (u64 (h.h0 + 2 ^ 64 - 3) + 2 ^ 64 - borrow); h1 = h1 }

unfoldable pub reduce_once : Accumulator → Accumulator
reduce_once h =
    if leb 4 h.h0 || ((h.h0 == 3) && leb (2 ^ 128 - 1 - 3) h.h1) then subtract_modulus h else h

unfoldable pub add_block : ℕ → Accumulator → List ℕ → Bool → Accumulator
add_block r h block full =
    reduce_once (fold_product (multiply (add_bits h (block_bits block full)) r))

-- `while offset + 16 <= msg.len()`, on fuel, and the partial block behind it. The list is
-- `msg[offset..]`.
unfoldable pub block_loop : ℕ → ℕ → Accumulator → List ℕ → Accumulator
block_loop zero r h msg = h
block_loop (suc fuel) r h msg =
    let rest = block_loop fuel r (add_block r h (take 16 msg) true) (drop 16 msg) in
    if leb 16 (length msg) then rest else if ltb 0 (length msg) then add_block r h msg false else h

-- The final reduction, and the tag.
unfoldable pub finish : Accumulator → ℕ → List ℕ
unfolding overflowing_add
finish h s =
    let g =
      if ltb 3 h.h0 || ((h.h0 == 3) && leb (2 ^ 128 - 1 - 4) h.h1) then subtract_modulus h else h in
    to_le 16 (overflowing_add g.h1 s).0

unfoldable pub poly1305 : List ℕ → List ℕ → List ℕ
poly1305 key msg =
    let r = load_le_u128 (clamp (take 16 key)) in
    let s = load_le_u128 (drop 16 key) in
    finish (block_loop (suc (length msg)) r (record { h0 = 0; h1 = 0 }) msg) s
