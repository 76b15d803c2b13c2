-- ===== src/Poly1305/Tag.antt =====
-- The whole MAC against RFC 8439, section 2.5: evaluate the polynomial of the blocks modulo
-- 2 ^ 130 - 5, add `s`, and keep 128 bits.
use axiom_os.Base.{
  ℕ, zero, suc, ◌+◌, ◌*◌, ◌/◌, ◌%◌, ◌^◌, ◌<◌, ◌≤◌, ◌≢◌, ◌≡◌, refl, ap, ap₂, sym, ◌∙◌, arith, inl,
  inr, bit_and, true, false, List, [], ◌∷◌, leb, Bool-cases, length, get_or, take, drop,
  length-take, length-drop, length-set, get_or-set_self, get_or-set_ne, take_all, drop_all, lt→ltb,
  IsBytes, IsBytes-set, IsBytes-take, IsBytes-drop, IsBytes-get_or,
}
use axiom_os.Base.Bits.{bit_and_low, bit_and-le}
use axiom_os.Base.Bytes.{to_le, from_le, from_le-lt, pow_256-suc, length-to_le}
use native.Mathlib.Nat.{add-mul-mod_self_right, div-add-mod}
use axiom_os.Poly1305.{
  Accumulator, mask_at, clamp, add_block, block_loop, finish, poly1305, subtract_modulus,
  overflowing_add, overflowing_sub,
}
use axiom_os.Poly1305.Multiply.{value}
use axiom_os.Poly1305.Block.{modulus, InRange, load_le_u128_lem, add_block_lem}

-- The polynomial, one 16-byte block after the other; the last may be shorter. `fuel` bounds the
-- number of blocks.
unfoldable pub evaluate : ℕ → ℕ → ℕ → List ℕ → ℕ
evaluate zero r acc msg = acc
evaluate (suc fuel) r acc [] = acc
evaluate (suc fuel) r acc (x ∷ xs) =
    let block = take 16 (x ∷ xs) in
    evaluate fuel r ((acc + (from_le block + 256 ^ length block)) * r % modulus) (drop 16 (x ∷ xs))

-- The tag of RFC 8439, for the clamped `r`.
unfoldable pub reference : List ℕ → List ℕ → List ℕ
reference key msg =
    let r = from_le (clamp (take 16 key)) in
    to_le 16 ((evaluate (length msg) r 0 msg + from_le (drop 16 key)) % 2 ^ 128)

-- A product modulo `m` depends on its first factor modulo `m`.
mod-mul_congr : (a b n r m : ℕ) → a % m ≡ b → (a + n) * r % m ≡ (b + n) * r % m
mod-mul_congr a b n r m e =
    ap (λ t. t % m) whole ∙ add-mul-mod_self_right ((b + n) * r) (a / m * r) m
  where
    parts : m * (a / m) + b ≡ a
    parts = ap (λ t. m * (a / m) + t) (sym e) ∙ div-add-mod a m

    whole : (a + n) * r ≡ (b + n) * r + a / m * r * m
    whole = omega (arith, ap (λ t. t * r) parts)

mask-lt : (i k : ℕ) (r : List ℕ) → IsBytes r → IsBytes (mask_at i k r)
unfolding mask_at
mask-lt i k r h =
    IsBytes-set r i (bit_and (get_or r i 0) k) h
      (omega (arith, bit_and-le (get_or r i 0) k, IsBytes-get_or r i h))

length-mask_at : (i k : ℕ) (r : List ℕ) → length (mask_at i k r) ≡ length r
unfolding mask_at
length-mask_at i k r = length-set r i (bit_and (get_or r i 0) k)

mask_at_ne : (i k j : ℕ) (r : List ℕ) → i ≢ j → get_or (mask_at i k r) j 0 ≡ get_or r j 0
unfolding mask_at
mask_at_ne i k j r h = get_or-set_ne r i j (bit_and (get_or r i 0) k) 0 h

length-clamp : (r : List ℕ) → length (clamp r) ≡ length r
unfolding clamp
length-clamp r = simp length-mask_at

clamp-IsBytes : (r : List ℕ) → IsBytes r → IsBytes (clamp r)
unfolding clamp
clamp-IsBytes r h = mask-lt _ _ _ (
    mask-lt _ _ _ (mask-lt _ _ _ (mask-lt _ _ _ (mask-lt _ _ _ (mask-lt _ _ _ (mask-lt _ _ _ h))))))

-- A little-endian number is below 16 * 256 ^ n if its top byte is below 16.
from_le_top :
    (n : ℕ) (l : List ℕ)
    → length l ≡ suc n
    → IsBytes l
    → get_or l n 0 < 16
    → from_le l < 16 * 256 ^ n
unfolding from_le
from_le_top n [] e h t = absurd (omega arith)
from_le_top zero (x ∷ []) e h t = omega arith
from_le_top zero (x ∷ y ∷ l) e h t = absurd (omega arith)
from_le_top (suc n) (x ∷ l) e (hx, h) t =
    omega (arith, from_le_top n l (omega arith) h t, pow_256-suc n)

-- A clamped `r` leaves four bits of room.
clamp-lt : (r : List ℕ) → length r ≡ 16 → IsBytes r → from_le (clamp r) < 2 ^ 124
clamp-lt r e h = from_le_top 15 (clamp r) (omega (arith, length-clamp r)) (clamp-IsBytes r h) top
  where
    inner : List ℕ
    inner = mask_at 11 15 (mask_at 7 15 (mask_at 3 15 r))

    len : length inner ≡ 16
    len = simp length-mask_at e

    masked : get_or (mask_at 15 15 inner) 15 0 < 16
    masked =
        unfold mask_at in
        rw (get_or-set_self inner 15 (bit_and (get_or inner 15 0) 15) 0 (omega (arith, len)))
          (omega (arith, bit_and_low 4 (get_or inner 15 0)))

    top : get_or (clamp r) 15 0 < 16
    top =
        unfold clamp in
        rw
          (
            mask_at_ne 12 252 15 (mask_at 8 252 (mask_at 4 252 (mask_at 15 15 inner)))
                (omega arith),
            mask_at_ne 8 252 15 (mask_at 4 252 (mask_at 15 15 inner)) (omega arith),
            mask_at_ne 4 252 15 (mask_at 15 15 inner) (omega arith),
          )
          masked

-- The last reduction is complete, and the tag drops what lies above 128 bits.
finish_lem :
    (h : Accumulator) (s : ℕ)
    → InRange h
    → s < 2 ^ 128
    → finish h s ≡ to_le 16 ((value h % modulus + s) % 2 ^ 128)
unfolding finish subtract_modulus overflowing_add overflowing_sub
finish_lem h s range p = ap (to_le 16) (ground arith)

evaluate-nil : (g r acc : ℕ) → evaluate g r acc [] ≡ acc
unfolding evaluate
evaluate-nil zero r acc = refl
evaluate-nil (suc g) r acc = refl

-- The last block is all that is left.
evaluate_short :
    (g r acc x : ℕ) (xs : List ℕ)
    → length (x ∷ xs) ≤ 16
    → evaluate (suc g) r acc (x ∷ xs)
      ≡ (acc + (from_le (x ∷ xs) + 256 ^ length (x ∷ xs))) * r % modulus
unfolding evaluate
evaluate_short g r acc x xs h =
    ap₂ (λ (b c : List ℕ). evaluate g r ((acc + (from_le b + 256 ^ length b)) * r % modulus) c)
      (take_all 16 (x ∷ xs) h) (drop_all 16 (x ∷ xs) h)
    ∙ evaluate-nil g r _

-- The loop evaluates the polynomial, with fuel for each byte and one more.
block_loop_lem :
    (fuel g r : ℕ) (h : Accumulator) (acc : ℕ) (msg : List ℕ)
    → r < 2 ^ 124
    → length msg < fuel
    → length msg ≤ g
    → IsBytes msg
    → InRange h
    → value h % modulus ≡ acc
    → InRange (block_loop fuel r h msg)
      × (value (block_loop fuel r h msg) % modulus ≡ evaluate g r acc msg)
unfolding block_loop evaluate
block_loop_lem zero g r h acc msg small f l bytes range e = absurd (omega arith)
block_loop_lem (suc fuel) zero r h acc [] small f l bytes range e = (range, e)
block_loop_lem (suc fuel) (suc g) r h acc [] small f l bytes range e = (range, e)
block_loop_lem (suc fuel) zero r h acc (x ∷ xs) small f l bytes range e = absurd (omega arith)
block_loop_lem (suc fuel) (suc g) r h acc (x ∷ xs) small f l bytes range e =
    elim (Bool-cases (leb 16 (length (x ∷ xs)))) [
      | inl whole ↦
          let len : length (take 16 (x ∷ xs)) ≡ 16 = ground (arith, length-take 16 (x ∷ xs)) in
          let step =
            add_block_lem r h (take 16 (x ∷ xs)) true small range (IsBytes-take 16 (x ∷ xs) bytes)
              (omega arith) (λ _. len) in
          rw whole (
            block_loop_lem fuel g r (add_block r h (take 16 (x ∷ xs)) true) _ (drop 16 (x ∷ xs))
              small (omega (arith, length-drop 16 (x ∷ xs)))
              (omega (arith, length-drop 16 (x ∷ xs))) (IsBytes-drop 16 (x ∷ xs) bytes) step.0
              (step.1 ∙ next (take 16 (x ∷ xs))))
      | inr part ↦
          let short : length (x ∷ xs) ≤ 16 = ground arith in
          let step =
            add_block_lem r h (x ∷ xs) false small range bytes short (λ (c : false ≡ true). cc) in
          rw (part, lt→ltb 0 (length (x ∷ xs)) (omega arith))
            (step.0, step.1 ∙ next (x ∷ xs) ∙ sym (evaluate_short g r acc x xs short))
    ]
  where
    next :
        (b : List ℕ)
        → (value h + (from_le b + 256 ^ length b)) * r % modulus
          ≡ (acc + (from_le b + 256 ^ length b)) * r % modulus
    next b = mod-mul_congr (value h) acc (from_le b + 256 ^ length b) r modulus e

-- `poly1305` is the MAC of RFC 8439 for every 32-byte key and every message: the polynomial of the
-- blocks modulo 2 ^ 130 - 5 at the clamped `r`, plus `s`, modulo 2 ^ 128.
pub poly1305-reference :
    (key msg : List ℕ)
    → length key ≡ 32
    → IsBytes key
    → IsBytes msg
    → poly1305 key msg ≡ reference key msg
unfolding poly1305 reference
poly1305-reference key msg e key_bytes msg_bytes =
    rw
      (
        load_le_u128_lem (clamp (take 16 key)) (omega (arith, r_len, length-clamp (take 16 key))),
        load_le_u128_lem (drop 16 key) (omega (arith, s_len)),
      )
      (finish_lem _ (from_le (drop 16 key)) loop.0 s_small
        ∙ ap (λ t. to_le 16 ((t + from_le (drop 16 key)) % 2 ^ 128)) loop.1)
  where
    r_len : length (take 16 key) ≡ 16
    r_len = omega (arith, length-take 16 key)

    s_len : length (drop 16 key) ≡ 16
    s_len = omega (arith, length-drop 16 key)

    s_small : from_le (drop 16 key) < 2 ^ 128
    s_small =
        omega
          (arith, from_le-lt (drop 16 key) (IsBytes-drop 16 key key_bytes), ap (λ n. 256 ^ n) s_len)

    r : ℕ
    r = from_le (clamp (take 16 key))

    start : Accumulator
    start = record { h0 = 0; h1 = 0 }

    loop :
        InRange (block_loop (suc (length msg)) r start msg)
        × (value (block_loop (suc (length msg)) r start msg) % modulus
            ≡ evaluate (length msg) r 0 msg)
    loop =
        block_loop_lem (suc (length msg)) (length msg) r start 0 msg
          (clamp-lt (take 16 key) r_len (IsBytes-take 16 key key_bytes)) (omega arith) (omega arith)
          msg_bytes (record { low = omega arith; bounded = omega arith }) refl

pub length-poly1305 : (key msg : List ℕ) → length (poly1305 key msg) ≡ 16
unfolding poly1305 finish
length-poly1305 key msg = length-to_le 16 _
