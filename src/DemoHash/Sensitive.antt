-- ===== src/DemoHash/Sensitive.antt =====
-- Two inputs that differ in one byte have different hashes.
use axiom_os.Base.{
  ◌==◌, nat-cases, u64, IsBytes, ℕ, ◌*◌, ◌%◌, ◌^◌, ◌<◌, bit_xor, ◌≡◌, refl, sym, ap, ◌∙◌, ◌≢◌, inl,
  inr, false, List, [], ◌∷◌, ◌++◌, arith,
}
use axiom_os.Base.Bits.{bit_xor_comm, bit_xor-cancel, bit_xor-eq-zero_iff, bit_xor-lt}
use axiom_os.DemoHash.{fnv_offset, fnv_prime, hash_bytes, rotate_half, keyed_hash, tags_equal}

-- The inverse of the prime modulo 2 ^ 64.
unmultiply : (a : ℕ) → a < 2 ^ 64 → (a * fnv_prime % 2 ^ 64) * 0xce965057aff6957b % 2 ^ 64 ≡ a
unmultiply a h = omega arith

multiply-injective :
    (a b : ℕ) → a < 2 ^ 64 → b < 2 ^ 64 → u64 (a * fnv_prime) ≡ u64 (b * fnv_prime) → a ≡ b
multiply-injective a b p q e =
    sym (unmultiply a p) ∙ ap (λ n. n * 0xce965057aff6957b % 2 ^ 64) e ∙ unmultiply b q

bit_xor-injective : (a b c : ℕ) → bit_xor a c ≡ bit_xor b c → a ≡ b
bit_xor-injective a b c e = sym (bit_xor-cancel a c) ∙ ap (λ n. bit_xor n c) e ∙ bit_xor-cancel b c

-- One turn of the loop: from one byte, two states lead to one only if they are equal.
mix-injective :
    (h k c : ℕ)
    → h < 2 ^ 64
    → k < 2 ^ 64
    → c < 2 ^ 64
    → u64 (bit_xor h c * fnv_prime) ≡ u64 (bit_xor k c * fnv_prime)
    → h ≡ k
mix-injective h k c p q r e = bit_xor-injective h k c (
    multiply-injective (bit_xor h c) (bit_xor k c) (bit_xor-lt 64 h c p r) (bit_xor-lt 64 k c q r)
      e)

hash_bytes-lt : (bytes : List ℕ) (h : ℕ) → h < 2 ^ 64 → hash_bytes h bytes < 2 ^ 64
unfolding hash_bytes
hash_bytes-lt [] h p = p
hash_bytes-lt (b ∷ bytes) h p = hash_bytes-lt bytes (u64 (bit_xor h b * fnv_prime)) (omega arith)

hash_bytes-injective :
    (bytes : List ℕ) (h k : ℕ)
    → IsBytes bytes
    → h < 2 ^ 64
    → k < 2 ^ 64
    → hash_bytes h bytes ≡ hash_bytes k bytes
    → h ≡ k
unfolding hash_bytes
hash_bytes-injective [] h k ok p q e = e
hash_bytes-injective (b ∷ bytes) h k (small, ok) p q e = mix-injective h k b p q (omega arith) (
    hash_bytes-injective bytes (u64 (bit_xor h b * fnv_prime)) (u64 (bit_xor k b * fnv_prime)) ok
      (omega arith) (omega arith) e)

hash_bytes-append :
    (xs ys : List ℕ) (h : ℕ) → hash_bytes h (xs ++ ys) ≡ hash_bytes (hash_bytes h xs) ys
unfolding hash_bytes
hash_bytes-append [] ys h = refl
hash_bytes-append (x ∷ xs) ys h = hash_bytes-append xs ys _

rotate_half-lt : (key : ℕ) → key < 2 ^ 64 → rotate_half key < 2 ^ 64
unfolding rotate_half
rotate_half-lt key h = omega arith

hash_bytes-then :
    (xs : List ℕ) (a : ℕ) (ys : List ℕ) (h : ℕ)
    → hash_bytes h (xs ++ (a ∷ ys)) ≡ hash_bytes (u64 (bit_xor (hash_bytes h xs) a * fnv_prime)) ys
unfolding hash_bytes
hash_bytes-then xs a ys h = hash_bytes-append xs (a ∷ ys) h

-- The state before the byte, and what follows it.
hash_bytes-byte :
    (h : ℕ) (xs ys : List ℕ) (a b : ℕ)
    → h < 2 ^ 64
    → IsBytes ys
    → a < 256
    → b < 256
    → hash_bytes h (xs ++ (a ∷ ys)) ≡ hash_bytes h (xs ++ (b ∷ ys))
    → a ≡ b
hash_bytes-byte h xs ys a b small ok p q e =
    let s : ℕ = hash_bytes h xs in
    let below : s < 2 ^ 64 = hash_bytes-lt xs h small in
    let after : u64 (bit_xor s a * fnv_prime) ≡ u64 (bit_xor s b * fnv_prime) =
      hash_bytes-injective ys _ _ ok (omega arith) (omega arith)
        (sym (hash_bytes-then xs a ys h) ∙ e ∙ hash_bytes-then xs b ys h) in
    let mixed : bit_xor s a ≡ bit_xor s b =
      multiply-injective (bit_xor s a) (bit_xor s b) (bit_xor-lt 64 s a below (omega arith))
        (bit_xor-lt 64 s b below (omega arith)) after in
    bit_xor-injective a b s (bit_xor_comm a s ∙ mixed ∙ bit_xor_comm s b)

-- Where two inputs differ in a byte, their tags are told apart, for every key.
pub keyed_hash-sensitive :
    (key : ℕ) (xs ys : List ℕ) (a b : ℕ)
    → key < 2 ^ 64
    → IsBytes ys
    → a < 256
    → b < 256
    → a ≢ b
    → tags_equal (keyed_hash key (xs ++ (a ∷ ys))) (keyed_hash key (xs ++ (b ∷ ys))) ≡ false
unfolding keyed_hash tags_equal
keyed_hash-sensitive key xs ys a b small ok p q differ =
    elim (nat-cases (keyed_hash key (xs ++ (a ∷ ys))) (keyed_hash key (xs ++ (b ∷ ys)))) [
      | inr apart ↦ apart_untagged _ _ apart
      | inl same ↦
          let start : ℕ = bit_xor fnv_offset key in
          let below : start < 2 ^ 64 = bit_xor-lt 64 fnv_offset key (omega arith) small in
          absurd (
            differ (
              hash_bytes-byte start xs ys a b below ok p q (
                mix-injective _ _ (rotate_half key) (hash_bytes-lt (xs ++ (a ∷ ys)) start below)
                  (hash_bytes-lt (xs ++ (b ∷ ys)) start below) (rotate_half-lt key small) same)))
    ]
  where
    apart_untagged : (m n : ℕ) → m ≢ n → (bit_xor m n == 0) ≡ false
    apart_untagged m n h = ground (arith, (bit_xor-eq-zero_iff m n).0)
