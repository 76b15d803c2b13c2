-- ===== src/Crypto/Sha256/Blocks.antt =====
-- The hash of FIPS 180-4 as a function of the whole message: pad it, compress its 64-byte blocks
-- in order, and write the state out.
use axiom_os.Base.{
  ℕ, zero, suc, ◌+◌, ◌-◌, ◌*◌, ◌/◌, ◌%◌, ◌≡◌, ap, sym, ◌∙◌, arith, List, [], ◌∷◌, ◌++◌, length,
  take, drop, replicate, append_assoc, take-append, drop-append, length-append, length-replicate,
  take_all, length-drop, take-append-drop,
}
use axiom_os.Base.Bytes.{to_be, length-to_be}
use axiom_os.Crypto.Sha256.{initial_state, compress, serialize_words}

-- The state after the first `n` blocks of `m`.
unfoldable pub fold_blocks : ℕ → List ℕ → List ℕ → List ℕ
fold_blocks zero state m = state
fold_blocks (suc n) state m = fold_blocks n (compress state (take 64 m)) (drop 64 m)

-- The padding of FIPS 180-4, section 5.1.1: a one bit, zeros, and the length in bits.
unfoldable pub padding : ℕ → List ℕ
padding n = 0x80 ∷ replicate ((119 - n % 64) % 64) 0 ++ to_be 8 (n * 8)

unfoldable pub reference : List ℕ → List ℕ
reference m =
    let padded = m ++ padding (length m) in
    serialize_words (fold_blocks (length padded / 64) initial_state padded)

pub fold_blocks-one :
    (state blk : List ℕ) → length blk ≡ 64 → fold_blocks 1 state blk ≡ compress state blk
unfolding fold_blocks
fold_blocks-one state blk e = ap (compress state) (take_all 64 blk (omega arith))

-- Blocks are compressed one after the other, however the message is cut at block boundaries.
pub fold_blocks-append :
    (n k : ℕ) (state m rest : List ℕ)
    → length m ≡ n * 64
    → fold_blocks (n + k) state (m ++ rest) ≡ fold_blocks k (fold_blocks n state m) rest
unfolding fold_blocks
fold_blocks-append zero k state [] rest e =
    ap (λ j. fold_blocks j state rest) {x = zero + k} {y = k} (omega arith)
fold_blocks-append zero k state (x ∷ m) rest e = absurd (omega arith)
fold_blocks-append (suc n) k state m rest e =
    ap (λ j. fold_blocks j state (m ++ rest)) {x = suc n + k} {y = suc (n + k)} (omega arith)
    ∙ ap (λ l. fold_blocks (suc (n + k)) state (l ++ rest)) (sym (take-append-drop 64 m))
    ∙ ap (λ l. fold_blocks (suc (n + k)) state l) (append_assoc (take 64 m) (drop 64 m) rest)
    ∙ ap (λ l. fold_blocks (n + k) (compress state l) (drop 64 (take 64 m ++ (drop 64 m ++ rest))))
        (take-append 64 (take 64 m) (drop 64 m ++ rest) len)
    ∙ ap (λ l. fold_blocks (n + k) (compress state (take 64 m)) l)
        (drop-append 64 (take 64 m) (drop 64 m ++ rest) len)
    ∙ fold_blocks-append n k (compress state (take 64 m)) (drop 64 m) rest
        (omega (arith, length-drop 64 m))
  where
    len : length (take 64 m) ≡ 64
    len = omega (
      arith,
      ap (length {A = ℕ}) (take-append-drop 64 m),
      length-append (take 64 m) (drop 64 m),
      length-drop 64 m,
    )

pub length-padding : (n : ℕ) → length (padding n) ≡ (119 - n % 64) % 64 + 9
unfolding padding
length-padding n = omega (
  arith,
  length-append (replicate ((119 - n % 64) % 64) 0) (to_be 8 (n * 8)),
  length-replicate {A = ℕ} ((119 - n % 64) % 64) 0,
  length-to_be 8 (n * 8),
)

-- The padded message is a whole number of blocks, one or two past the last whole block of `m`.
pub length-padded_lem : (m : List ℕ) → length (m ++ padding (length m)) % 64 ≡ 0
length-padded_lem m = omega (arith, length-append m (padding (length m)), length-padding (length m))
