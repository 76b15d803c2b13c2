-- ===== src/Aead/Xor.antt =====
-- The XOR loops over a keystream: `chacha20_xor` of kernel/src/crypto_aead.rs, and the loop over
-- blocks that `chacha20_poly1305_seal` and `chacha20_poly1305_open` share.
use axiom_os.Base.{
  ℕ, zero, suc, ◌+◌, ◌-◌, ◌/◌, ◌%◌, ◌^◌, ◌<◌, ◌≤◌, min, ◌≡◌, refl, ap, ap₂, ◌∙◌, arith, inl, inr,
  bit_xor, List, ltb, if◌then◌else◌, lt→ltb, Bool-cases, eq_or_lt, lt_or_le, length, get_or, set,
  length-set, get_or-set_self, get_or-set_ne, u32,
}
use axiom_os.Base.Bits.{bit_xor-cancel}
use axiom_os.Crypto.ConstTime.{lists_agree}
use axiom_os.Aead.ChaCha.{chacha20_block}

-- `for i in from..from + n { out[pos + i] = input[pos + i] ^ ks[i]; }`
unfoldable pub xor_at : ℕ → ℕ → ℕ → List ℕ → List ℕ → List ℕ → List ℕ
xor_at zero from pos input ks out = out
xor_at (suc n) from pos input ks out =
    xor_at n (from + 1) pos input ks
      (set out (pos + from) (bit_xor (get_or input (pos + from) 0) (get_or ks from 0)))

unfoldable pub chacha20_xor : List ℕ → List ℕ → List ℕ → List ℕ → List ℕ
chacha20_xor key nonce input out = xor_at (length input) 0 0 input (chacha20_block key 1 nonce) out

-- `while pos < input.len()`, on fuel: each pass takes at least one byte. `ks` gives the block of
-- a counter.
unfoldable pub xor_blocks : ℕ → (ℕ → List ℕ) → ℕ → ℕ → List ℕ → List ℕ → List ℕ
xor_blocks zero ks counter pos input out = out
xor_blocks (suc fuel) ks counter pos input out =
    let n = min (length input - pos) 64 in
    let rest =
      xor_blocks fuel ks (u32 (counter + 1)) (pos + n) input
        (xor_at n 0 pos input (ks counter) out) in
    if ltb pos (length input) then rest else out

-- What the loop writes, index by index: `out` agrees with the XOR below `pos + n`.
pub length-xor_at :
    (n from pos : ℕ) (input ks out : List ℕ) → length (xor_at n from pos input ks out) ≡ length out
unfolding xor_at
length-xor_at zero from pos input ks out = refl
length-xor_at (suc n) from pos input ks out =
    length-xor_at n (from + 1) pos input ks _ ∙ length-set out (pos + from) _

pub xor_at_below :
    (n from pos j : ℕ) (input ks out : List ℕ)
    → j < pos + from
    → get_or (xor_at n from pos input ks out) j 0 ≡ get_or out j 0
unfolding xor_at
xor_at_below zero from pos j input ks out h = refl
xor_at_below (suc n) from pos j input ks out h =
    xor_at_below n (from + 1) pos j input ks _ (omega arith)
    ∙ get_or-set_ne out (pos + from) j _ 0 (omega arith)

pub xor_at_inside :
    (n from pos j : ℕ) (input ks out : List ℕ)
    → pos + from + n ≤ length out
    → from ≤ j
    → j < from + n
    → get_or (xor_at n from pos input ks out) (pos + j) 0
      ≡ bit_xor (get_or input (pos + j) 0) (get_or ks j 0)
unfolding xor_at
xor_at_inside zero from pos j input ks out fits lo hi = absurd (omega arith)
xor_at_inside (suc n) from pos j input ks out fits lo hi = elim (eq_or_lt from j lo) [
  | inl e ↦ rw (← e) (
      xor_at_below n (from + 1) pos (pos + from) input ks _ (omega arith)
      ∙ get_or-set_self out (pos + from) _ 0 (omega arith))
  | inr lt ↦
      xor_at_inside n (from + 1) pos j input ks _
        (omega (
          arith,
          length-set out (pos + from) (bit_xor (get_or input (pos + from) 0) (get_or ks from 0)),
        ))
        (omega arith) (omega arith)
]

-- The keystream byte for index `j`, if the loop stands at `pos` with `counter`.
abbrev pub key_byte : (ℕ → List ℕ) → ℕ → ℕ → ℕ → ℕ
key_byte ks counter pos j = get_or (ks (u32 (counter + (j - pos) / 64))) ((j - pos) % 64) 0

pub length-xor_blocks :
    (fuel : ℕ) (ks : ℕ → List ℕ) (counter pos : ℕ) (input out : List ℕ)
    → length (xor_blocks fuel ks counter pos input out) ≡ length out
unfolding xor_blocks
length-xor_blocks zero ks counter pos input out = refl
length-xor_blocks (suc fuel) ks counter pos input out = elim (Bool-cases (ltb pos (length input))) [
  | inl more ↦ rw more (
      length-xor_blocks fuel ks (u32 (counter + 1)) (pos + n) input
        (xor_at n 0 pos input (ks counter) out)
      ∙ length-xor_at n 0 pos input (ks counter) out)
  | inr end ↦ rw end
]
  where
    n : ℕ
    n = min (length input - pos) 64

pub xor_blocks_below :
    (fuel : ℕ) (ks : ℕ → List ℕ) (counter pos j : ℕ) (input out : List ℕ)
    → j < pos
    → get_or (xor_blocks fuel ks counter pos input out) j 0 ≡ get_or out j 0
unfolding xor_blocks
xor_blocks_below zero ks counter pos j input out h = refl
xor_blocks_below (suc fuel) ks counter pos j input out h =
    elim (Bool-cases (ltb pos (length input))) [
      | inl more ↦ rw more (
          xor_blocks_below fuel ks (u32 (counter + 1)) (pos + n) j input
            (xor_at n 0 pos input (ks counter) out) (omega arith)
          ∙ xor_at_below n 0 pos j input (ks counter) out (omega arith))
      | inr end ↦ rw end
    ]
  where
    n : ℕ
    n = min (length input - pos) 64

-- With fuel for each byte left, every byte from `pos` on is the XOR with its keystream byte.
pub xor_blocks_inside :
    (fuel : ℕ) (ks : ℕ → List ℕ) (counter pos j : ℕ) (input out : List ℕ)
    → length input ≤ pos + fuel
    → length out ≡ length input
    → counter < 2 ^ 32
    → pos ≤ j
    → j < length input
    → get_or (xor_blocks fuel ks counter pos input out) j 0
      ≡ bit_xor (get_or input j 0) (key_byte ks counter pos j)
unfolding xor_blocks
xor_blocks_inside zero ks counter pos j input out enough same small lo hi = absurd (omega arith)
xor_blocks_inside (suc fuel) ks counter pos j input out enough same small lo hi =
    rw (lt→ltb pos (length input) (omega arith)) (elim (lt_or_le j (pos + n)) [
      | inl here ↦
          xor_blocks_below fuel ks (u32 (counter + 1)) (pos + n) j input step here
          ∙ ap (λ i. get_or step i 0) {y = pos + (j - pos)} (omega arith)
          ∙ xor_at_inside n 0 pos (j - pos) input (ks counter) out (omega arith) (omega arith)
              (omega arith)
          ∙ ap₂ bit_xor (ap (λ i. get_or input i 0) (omega arith))
              (ap₂ (λ c i. get_or (ks c) i 0) (omega arith) (omega arith))
      | inr later ↦
          xor_blocks_inside fuel ks (u32 (counter + 1)) (pos + n) j input step (omega arith)
            (length-xor_at n 0 pos input (ks counter) out ∙ same) (omega arith) later hi
          ∙ ap (bit_xor (get_or input j 0))
              (ap₂ (λ c i. get_or (ks c) i 0) (omega arith) (omega arith))
    ])
  where
    n : ℕ
    n = min (length input - pos) 64

    step : List ℕ
    step = xor_at n 0 pos input (ks counter) out

-- Running the loop on its own output, with the same keystream, gives the input back.
pub xor_blocks_undo :
    (ks : ℕ → List ℕ) (counter : ℕ) (input out back : List ℕ)
    → counter < 2 ^ 32
    → length out ≡ length input
    → length back ≡ length input
    → let ct = xor_blocks (length input) ks counter 0 input out in
      xor_blocks (length ct) ks counter 0 ct back ≡ input
xor_blocks_undo ks counter input out back small same same' =
    lists_agree _ input (length-xor_blocks (length ct) ks counter 0 ct back ∙ same') agree
  where
    ct : List ℕ
    ct = xor_blocks (length input) ks counter 0 input out

    len : length ct ≡ length input
    len = length-xor_blocks (length input) ks counter 0 input out ∙ same

    agree :
        (j : ℕ)
        → j < length (xor_blocks (length ct) ks counter 0 ct back)
        → get_or (xor_blocks (length ct) ks counter 0 ct back) j 0 ≡ get_or input j 0
    agree j h =
        let inside : j < length input =
          omega (arith, length-xor_blocks (length ct) ks counter 0 ct back) in
        xor_blocks_inside (length ct) ks counter 0 j ct back (omega arith) (omega (arith, len))
          small (omega arith) (omega (arith, len))
        ∙ ap (λ t. bit_xor t (key_byte ks counter 0 j))
            (xor_blocks_inside (length input) ks counter 0 j input out (omega arith) same small
              (omega arith) inside)
        ∙ bit_xor-cancel (get_or input j 0) (key_byte ks counter 0 j)

-- So it is for the loop over one block.
pub xor_at_undo :
    (input ks out back : List ℕ)
    → length out ≡ length input
    → length back ≡ length input
    → let ct = xor_at (length input) 0 0 input ks out in xor_at (length ct) 0 0 ct ks back ≡ input
xor_at_undo input ks out back same same' =
    lists_agree _ input (length-xor_at (length ct) 0 0 ct ks back ∙ same') agree
  where
    ct : List ℕ
    ct = xor_at (length input) 0 0 input ks out

    len : length ct ≡ length input
    len = length-xor_at (length input) 0 0 input ks out ∙ same

    zero_plus : (j : ℕ) → 0 + j ≡ j
    zero_plus j = omega arith

    agree :
        (j : ℕ)
        → j < length (xor_at (length ct) 0 0 ct ks back)
        → get_or (xor_at (length ct) 0 0 ct ks back) j 0 ≡ get_or input j 0
    agree j h =
        let inside : j < length input = omega (arith, length-xor_at (length ct) 0 0 ct ks back) in
        rw zero_plus at (
          xor_at_inside (length ct) 0 0 j ct ks back (omega (arith, len)) (omega arith)
            (omega (arith, len)))
        ∙ ap (λ t. bit_xor t (get_or ks j 0))
            (rw zero_plus at (
              xor_at_inside (length input) 0 0 j input ks out (omega arith) (omega arith)
                (omega arith)))
        ∙ bit_xor-cancel (get_or input j 0) (get_or ks j 0)
