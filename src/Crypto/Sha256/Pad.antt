-- ===== src/Crypto/Sha256/Pad.antt =====
-- `finalize` pads as FIPS 180-4 says, so that `sha256` computes the reference hash, and so does
-- the hasher fed in pieces.
use axiom_os.Base.{
  ℕ, ◌+◌, ◌-◌, ◌*◌, ◌/◌, ◌%◌, ◌^◌, ◌<◌, ◌≤◌, ◌≡◌, refl, ap, ap₂, sym, ◌∙◌, arith, inl, inr, List,
  [], ◌∷◌, ◌++◌, ltb, Bool-cases, u64, length, set, overwrite, replicate, append_assoc, append-nil,
  length-append, overwrite-nil, length-replicate, overwrite-overwrite, set-eq-overwrite,
  replicate-append,
}
use axiom_os.Base.Bytes.{to_be, length-to_be}
use axiom_os.Crypto.Sha256.{
  Hasher, new, initial_state, compress, update, zero_range, close_block, finalize, serialize_words,
  sha256,
}
use axiom_os.Crypto.Sha256.Blocks.{fold_blocks, padding, reference}
use axiom_os.Crypto.Sha256.Stream.{Fed, compress-Fed, Holds, new-Holds, update-Holds}

-- With an empty buffer the state is that of the whole message.
state_of_empty :
    (s : Hasher) (m : List ℕ)
    → Fed s m
    → s.buf_len ≡ 0
    → s.state ≡ fold_blocks (length m / 64) initial_state m
state_of_empty s m fed e =
    fed.state_eq
    ∙ ap₂ (λ n l. fold_blocks n initial_state l)
        (omega (arith, fed.length_whole, ap (length {A = ℕ}) all_whole)) (sym all_whole)
  where
    is_nil : (l : List ℕ) → length l ≡ 0 → l ≡ []
    is_nil [] h = refl
    is_nil (x ∷ l) h = absurd (omega arith)

    all_whole : m ≡ fed.whole
    all_whole =
        fed.split
        ∙ ap (λ l. fed.whole ++ l) (is_nil fed.rest (fed.length_rest ∙ e))
        ∙ append-nil fed.whole

-- The last block, of which the zeros and the length are still to be written.
last_block :
    (s : Hasher) (m z : List ℕ) (bits from : ℕ)
    → Fed s m
    → s.buf_len + length z ≡ from
    → from ≤ 56
    → compress s.state
        (overwrite (zero_range (overwrite s.buf s.buf_len z) from 56) 56 (to_be 8 bits))
      ≡ fold_blocks
          (length (m ++ (z ++ (replicate (56 - from) 0 ++ to_be 8 bits))) / 64)
          initial_state
          (m ++ (z ++ (replicate (56 - from) 0 ++ to_be 8 bits)))
unfolding zero_range
last_block s m z bits from fed e h =
    ap (compress s.state) one_write ∙ state_of_empty _ (m ++ c) (compress-Fed s m c fed len) refl
  where
    zeros : List ℕ
    zeros = replicate (56 - from) 0

    c : List ℕ
    c = z ++ (zeros ++ to_be 8 bits)

    len : s.buf_len + length c ≡ 64
    len = omega (
      arith,
      length-append z (zeros ++ to_be 8 bits),
      length-append zeros (to_be 8 bits),
      length-replicate {A = ℕ} (56 - from) 0,
      length-to_be 8 bits,
    )

    one_write :
        overwrite (overwrite (overwrite s.buf s.buf_len z) from zeros) 56 (to_be 8 bits)
        ≡ overwrite s.buf s.buf_len c
    one_write =
        overwrite-overwrite (overwrite s.buf s.buf_len z) from 56 zeros (to_be 8 bits)
          (omega (arith, length-replicate {A = ℕ} (56 - from) 0))
        ∙ overwrite-overwrite s.buf s.buf_len from z (zeros ++ to_be 8 bits) e

module _ (s : Hasher) (m : List ℕ) (h : Holds s m) (small : length m < 2 ^ 61) where
  abbrev bits : ℕ
  bits = u64 (s.total_len * 8)

  abbrev zeros : ℕ → List ℕ
  zeros n = replicate n 0

  bits_lem : bits ≡ length m * 8
  bits_lem = omega (arith, h.counted)

  residue : length m % 64 ≡ s.buf_len
  residue = omega (
    arith,
    ap (length {A = ℕ}) h.fed.split,
    length-append h.fed.whole h.fed.rest,
    h.fed.length_whole,
    h.fed.length_rest,
    h.fed.short,
  )

  -- The state that `finalize` writes out.
  abbrev hashed : List ℕ → List ℕ
  hashed l = fold_blocks (length l / 64) initial_state l

  one_block :
      s.buf_len + 1 ≤ 56
      → compress s.state
          (overwrite (zero_range (set s.buf s.buf_len 0x80) (s.buf_len + 1) 56) 56 (to_be 8 bits))
        ≡ hashed (m ++ padding (length m))
  unfolding padding
  one_block fits =
      ap (λ l. compress s.state (overwrite (zero_range l (s.buf_len + 1) 56) 56 (to_be 8 bits)))
        (set-eq-overwrite s.buf s.buf_len 0x80)
      ∙ last_block s m (0x80 ∷ []) bits (s.buf_len + 1) h.fed (omega arith) fits
      ∙ ap₂ (λ n b. hashed (m ++ (0x80 ∷ (zeros n ++ to_be 8 b))))
          (omega (arith, residue, h.fed.short)) bits_lem

  two_blocks :
      56 < s.buf_len + 1
      → let buf = zero_range (set s.buf s.buf_len 0x80) (s.buf_len + 1) 64 in
        compress (compress s.state buf) (overwrite (zero_range buf 0 56) 56 (to_be 8 bits))
        ≡ hashed (m ++ padding (length m))
  unfolding padding zero_range
  two_blocks spills =
      ap
        (λ l.
          compress (compress s.state l) (overwrite (overwrite l 0 (zeros 56)) 56 (to_be 8 bits)))
        first_write
      ∙ ap
          (λ l.
            compress (compress s.state first)
              (overwrite (overwrite l 0 (zeros 56)) 56 (to_be 8 bits)))
          (sym (overwrite-nil first 0))
      ∙ last_block t (m ++ c) [] bits 0 (compress-Fed s m c h.fed full) refl (omega arith)
      ∙ ap hashed (append_assoc m c (zeros 56 ++ to_be 8 bits) ∙ ap (λ l. m ++ (0x80 ∷ l)) regroup)
    where
      c : List ℕ
      c = 0x80 ∷ zeros (64 - (s.buf_len + 1))

      first : List ℕ
      first = overwrite s.buf s.buf_len c

      t : Hasher
      t = record s { state = compress s.state first; buf = first; buf_len = 0 }

      full : s.buf_len + length c ≡ 64
      full = omega (arith, length-replicate {A = ℕ} (64 - (s.buf_len + 1)) 0, h.fed.short)

      first_write :
          overwrite (set s.buf s.buf_len 0x80) (s.buf_len + 1) (zeros (64 - (s.buf_len + 1)))
          ≡ first
      first_write =
          ap (λ l. overwrite l (s.buf_len + 1) (zeros (64 - (s.buf_len + 1))))
            (set-eq-overwrite s.buf s.buf_len 0x80)
          ∙ overwrite-overwrite s.buf s.buf_len (s.buf_len + 1) (0x80 ∷ [])
              (zeros (64 - (s.buf_len + 1))) (omega arith)

      regroup :
          zeros (64 - (s.buf_len + 1)) ++ (zeros 56 ++ to_be 8 bits)
          ≡ zeros ((119 - length m % 64) % 64) ++ to_be 8 (length m * 8)
      regroup =
          sym (append_assoc (zeros (64 - (s.buf_len + 1))) (zeros 56) (to_be 8 bits))
          ∙ ap (λ l. l ++ to_be 8 bits) (replicate-append (64 - (s.buf_len + 1)) 56 0)
          ∙ ap₂ (λ n b. zeros n ++ to_be 8 b) (omega (arith, residue, h.fed.short)) bits_lem

  -- A hasher that holds `m` gives the reference hash of `m`.
  pub finalize-reference : finalize s ≡ reference m
  unfolding finalize reference close_block
  finalize-reference = elim (Bool-cases (ltb 56 (s.buf_len + 1))) [
    | inl spills ↦ rw spills (ap serialize_words (two_blocks (ground arith)))
    | inr fits ↦ rw fits (ap serialize_words (one_block (ground arith)))
  ]

-- `sha256` is the hash of FIPS 180-4 for every message shorter than 2 ^ 61 bytes: pad, compress
-- the 64-byte blocks in order, and write the state out.
pub sha256-reference : (m : List ℕ) → length m < 2 ^ 61 → sha256 m ≡ reference m
unfolding sha256
sha256-reference m small =
    finalize-reference (update new m) m (update-Holds new [] m new-Holds) small

-- A hasher fed with pieces.
unfoldable pub feed : Hasher → List (List ℕ) → Hasher
feed s [] = s
feed s (piece ∷ pieces) = feed (update s piece) pieces

abbrev pub joined : List (List ℕ) → List ℕ
joined [] = []
joined (piece ∷ pieces) = piece ++ joined pieces

feed-Holds :
    (pieces : List (List ℕ)) (s : Hasher) (m : List ℕ)
    → Holds s m
    → Holds (feed s pieces) (m ++ joined pieces)
unfolding feed
feed-Holds [] s m h = rw append-nil h
feed-Holds (piece ∷ pieces) s m h =
    rw append_assoc at (feed-Holds pieces (update s piece) (m ++ piece) (update-Holds s m piece h))

-- However a message is cut into calls of `update`, the digest is that of one call of `sha256` on
-- the whole message, if it is shorter than 2 ^ 61 bytes.
pub feed-sha256 :
    (pieces : List (List ℕ))
    → length (joined pieces) < 2 ^ 61
    → finalize (feed new pieces) ≡ sha256 (joined pieces)
feed-sha256 pieces small =
    finalize-reference (feed new pieces) (joined pieces) (feed-Holds pieces new [] new-Holds) small
    ∙ sym (sha256-reference (joined pieces) small)
