-- ===== src/Aead/Tests.antt =====
-- Known vectors and runs of the authenticated encryption, and the theorems at concrete inputs.
use axiom_os.Base.{
  ℕ, ◌≡◌, ◌≢◌, refl, arith, true, false, some, List, [], ◌∷◌, ◌++◌, take, replicate,
}
use axiom_os.Aead.ChaCha.{chacha20_block, double_rounds, double_round, add_words}
use axiom_os.Aead.Xor.{xor_blocks}
use axiom_os.Aead.EncryptHmac.{AeadCt, aead_seal, aead_open, aead_open-seal}
use axiom_os.Aead.Sealed.{
  chacha20_poly1305_seal, chacha20_poly1305_open, expected_tag, open_lem, open-seal,
}

-- RFC 8439: the first word of the block of a zero key, counter and nonce is 0xade0b876.
block_vector :
    take 4 (chacha20_block (replicate 32 0) 0 (replicate 12 0)) ≡ 0x76 ∷ 0xb8 ∷ 0xe0 ∷ 0xad ∷ []
unfolding chacha20_block double_rounds double_round add_words
block_vector = refl

abbrev key : List ℕ
key = replicate 32 7

abbrev nonce : List ℕ
nonce = replicate 12 1

abbrev hello : List ℕ
hello = 0x48 ∷ 0x65 ∷ 0x6c ∷ 0x6c ∷ 0x6f ∷ []

open-seal_example :
    chacha20_poly1305_open key nonce
      (1 ∷ 2 ∷ [])
      (chacha20_poly1305_seal key nonce (1 ∷ 2 ∷ []) hello (replicate 5 0)).0
      (chacha20_poly1305_seal key nonce (1 ∷ 2 ∷ []) hello (replicate 5 0)).1
      (replicate 5 9)
    ≡ (true, hello)
open-seal_example = open-seal key nonce (1 ∷ 2 ∷ []) hello (replicate 5 0) (replicate 5 9) refl refl

open_lem_example :
    (replicate 16 0 ≡ expected_tag key nonce [] hello
      → chacha20_poly1305_open key nonce [] hello (replicate 16 0) (replicate 5 9)
        ≡ (true, xor_blocks 5 (λ c. chacha20_block key c nonce) 1 0 hello (replicate 5 9)))
    × (replicate 16 0 ≢ expected_tag key nonce [] hello
        → chacha20_poly1305_open key nonce [] hello (replicate 16 0) (replicate 5 9)
          ≡ (false, replicate 5 9))
open_lem_example = open_lem key nonce [] hello (replicate 16 0) (replicate 5 9) refl

abbrev forged : AeadCt
forged = record { ct = replicate 48 3; len = 5; tag = replicate 16 0 }

aead_open-seal_example :
    (c : AeadCt) × (aead_seal key nonce hello ≡ some c)
    × (aead_open key nonce c ≡ some (hello ++ replicate 43 0, 5))
aead_open-seal_example = aead_open-seal key nonce hello (omega arith)
