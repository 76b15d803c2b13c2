-- ===== src/Crypto/Hmac.antt =====
-- kernel/src/crypto.rs, `hmac_sha256`, against RFC 2104.
use axiom_os.Base.{
  ap₂, ℕ, zero, suc, ◌+◌, ◌-◌, ◌^◌, ◌<◌, ◌≤◌, ◌≡◌, refl, ap, ◌∙◌, arith, bit_xor, List, [], ◌∷◌,
  ◌++◌, map, ltb, if◌then◌else◌, length, get_or, set, overwrite, replicate, length-append,
  length-replicate, length-overwrite, overwrite-replicate, append-nil, get_or-middle, set-middle,
  snoc_append, Bool-cases, inl, inr,
}
use axiom_os.Base.Bytes.{to_be}
use axiom_os.Crypto.Sha256.{Hasher, new, update, finalize, sha256, compress, serialize_words}
use axiom_os.Crypto.Sha256.Pad.{feed, feed-sha256}

-- `k`: the key hashed if it is longer than a block, and padded with zeros.
unfoldable pub block_key : List ℕ → List ℕ
block_key key =
    if ltb 64 (length key)
    then overwrite (replicate 64 0) 0 (sha256 key)
    else overwrite (replicate 64 0) 0 key

-- `let mut pad = [byte; 64]; for i in 0..64 { pad[i] ^= k[i]; }`
unfoldable pub xor_loop : ℕ → ℕ → List ℕ → List ℕ → List ℕ
xor_loop zero i k pad = pad
xor_loop (suc n) i k pad =
    xor_loop n (i + 1) k (set pad i (bit_xor (get_or pad i 0) (get_or k i 0)))

unfoldable pub hmac_sha256 : List ℕ → List ℕ → List ℕ
hmac_sha256 key input =
    let k = block_key key in
    let k_ipad = xor_loop 64 0 k (replicate 64 0x36) in
    let k_opad = xor_loop 64 0 k (replicate 64 0x5c) in
    let inner_hash = finalize (update (update new k_ipad) input) in
    finalize (update (update new k_opad) inner_hash)

-- RFC 2104: H(K xor opad, H(K xor ipad, text)).
abbrev pub xor_with : ℕ → List ℕ → List ℕ
xor_with byte k = map (λ x. bit_xor byte x) k

abbrev pub padded_key : List ℕ → List ℕ
padded_key key = key ++ replicate (64 - length key) 0

unfoldable pub rfc2104 : List ℕ → List ℕ → List ℕ
rfc2104 key input =
    let k = if ltb 64 (length key) then padded_key (sha256 key) else padded_key key in
    sha256 (xor_with 0x5c k ++ sha256 (xor_with 0x36 k ++ input))

-- A digest has 32 bytes.
pub length-finalize : (s : Hasher) → length (finalize s) ≡ 32
unfolding finalize compress serialize_words to_be
length-finalize s = refl

pub length-sha256 : (m : List ℕ) → length (sha256 m) ≡ 32
unfolding sha256
length-sha256 m = length-finalize (update new m)

pub length-hmac_sha256 : (key input : List ℕ) → length (hmac_sha256 key input) ≡ 32
unfolding hmac_sha256
length-hmac_sha256 key input = length-finalize _

block_key_lem :
    (key : List ℕ)
    → block_key key ≡ (if ltb 64 (length key) then padded_key (sha256 key) else padded_key key)
unfolding block_key
block_key_lem key = elim (Bool-cases (ltb 64 (length key))) [
  | inl long ↦ rw long (overwrite-replicate 64 0 (sha256 key) (omega (arith, length-sha256 key)))
  | inr short ↦ rw short (overwrite-replicate 64 0 key (ground arith))
]

length-padded_key : (key : List ℕ) → length key ≤ 64 → length (padded_key key) ≡ 64
length-padded_key key h = omega (
  arith,
  length-append key (replicate (64 - length key) 0),
  length-replicate {A = ℕ} (64 - length key) 0,
)

length-block_key : (key : List ℕ) → length (block_key key) ≡ 64
unfolding block_key
length-block_key key = elim (Bool-cases (ltb 64 (length key))) [
  | inl long ↦ rw long (length-overwrite (replicate 64 0) 0 (sha256 key))
  | inr short ↦ rw short (length-overwrite (replicate 64 0) 0 key)
]

-- The loop runs over the rest `k` of the key and the rest of the pad.
xor_loop_lem :
    (k : List ℕ) (n i byte : ℕ) (done done_key : List ℕ)
    → length k ≡ n
    → length done ≡ i
    → length done_key ≡ i
    → xor_loop n i (done_key ++ k) (done ++ replicate n byte) ≡ done ++ xor_with byte k
unfolding xor_loop
xor_loop_lem [] zero i byte done done_key p q r = refl
xor_loop_lem [] (suc n) i byte done done_key p q r = absurd (omega arith)
xor_loop_lem (x ∷ k) zero i byte done done_key p q r = absurd (omega arith)
xor_loop_lem (x ∷ k) (suc n) i byte done done_key p q r =
    rw
      (
        get_or-middle done byte 0 (replicate n byte) i q,
        get_or-middle done_key x 0 k i r,
        set-middle done byte (bit_xor byte x) (replicate n byte) i q,
        ← snoc_append done (bit_xor byte x) (replicate n byte),
        ← snoc_append done_key x k,
      )
      (xor_loop_lem k n (i + 1) byte (done ++ (bit_xor byte x ∷ [])) (done_key ++ (x ∷ []))
          (omega arith) (omega (arith, length-append done (bit_xor byte x ∷ [])))
          (omega (arith, length-append done_key (x ∷ [])))
        ∙ snoc_append done (bit_xor byte x) (xor_with byte k))

xor_pad :
    (k : List ℕ) (byte : ℕ) → length k ≡ 64 → xor_loop 64 0 k (replicate 64 byte) ≡ xor_with byte k
xor_pad k byte e = xor_loop_lem k 64 0 byte [] [] e refl refl

length-xor_with : (byte : ℕ) (k : List ℕ) → length (xor_with byte k) ≡ length k
length-xor_with byte [] = refl
length-xor_with byte (x ∷ k) = ap suc (length-xor_with byte k)

-- Two calls of `update` hash the two parts joined.
two_updates :
    (a b : List ℕ)
    → length a + length b < 2 ^ 61
    → finalize (update (update new a) b) ≡ sha256 (a ++ b)
two_updates a b h =
    let pieces : List (List ℕ) = a ∷ b ∷ [] in
    let joined_lem : a ++ (b ++ []) ≡ a ++ b = ap (λ l. a ++ l) (append-nil b) in
    unfold feed in
    (feed-sha256 pieces (rw joined_lem (omega (arith, length-append a b))) ∙ ap sha256 joined_lem)

module _ (k input : List ℕ) (block : length k ≡ 64) (small : length input + 64 < 2 ^ 61) where
  inner_hash :
      finalize (update (update new (xor_loop 64 0 k (replicate 64 0x36))) input)
      ≡ sha256 (xor_with 0x36 k ++ input)
  inner_hash =
      ap (λ l. finalize (update (update new l) input)) (xor_pad k 0x36 block)
      ∙ two_updates (xor_with 0x36 k) input (omega (arith, length-xor_with 0x36 k))

  outer_hash :
      finalize (
        update
          (update new (xor_loop 64 0 k (replicate 64 0x5c)))
          (finalize (update (update new (xor_loop 64 0 k (replicate 64 0x36))) input)))
      ≡ sha256 (xor_with 0x5c k ++ sha256 (xor_with 0x36 k ++ input))
  outer_hash =
      ap₂ (λ l d. finalize (update (update new l) d)) (xor_pad k 0x5c block) inner_hash
      ∙ two_updates (xor_with 0x5c k) (sha256 (xor_with 0x36 k ++ input))
          (omega (arith, length-xor_with 0x5c k, length-sha256 (xor_with 0x36 k ++ input)))

-- `hmac_sha256` is the construction of RFC 2104 over `sha256`, for every key and every message
-- that leaves room for the key block below 2 ^ 61 bytes.
pub hmac_sha256-rfc2104 :
    (key input : List ℕ) → length input + 64 < 2 ^ 61 → hmac_sha256 key input ≡ rfc2104 key input
unfolding hmac_sha256 rfc2104
hmac_sha256-rfc2104 key input small =
    outer_hash (block_key key) input (length-block_key key) small
    ∙ ap (λ k. sha256 (xor_with 0x5c k ++ sha256 (xor_with 0x36 k ++ input))) (block_key_lem key)
