-- ===== src/Crypto/Tests.antt =====
-- The FIPS 180-4 vector, and the theorems at concrete inputs.
use axiom_os.Base.{ℕ, ◌≡◌, refl, List, [], ◌∷◌, arith}
use axiom_os.Base.Bytes.{to_be}
use axiom_os.Crypto.Sha256.{
  sha256, new, update, update_loop, absorb, chunk_len, compress, finalize, close_block, zero_range,
  serialize_words,
}
use axiom_os.Crypto.Sha256.Blocks.{reference}
use axiom_os.Crypto.Sha256.Pad.{sha256-reference}

abbrev abc : List ℕ
abc = 0x61 ∷ 0x62 ∷ 0x63 ∷ []

sha256_vector :
    sha256 abc
    ≡ 0xba ∷ 0x78 ∷ 0x16 ∷ 0xbf ∷ 0x8f ∷ 0x01 ∷ 0xcf ∷ 0xea ∷ 0x41 ∷ 0x41 ∷ 0x40 ∷ 0xde ∷ 0x5d
      ∷ 0xae ∷ 0x22 ∷ 0x23 ∷ 0xb0 ∷ 0x03 ∷ 0x61 ∷ 0xa3 ∷ 0x96 ∷ 0x17 ∷ 0x7a ∷ 0x9c ∷ 0xb4 ∷ 0x10
      ∷ 0xff ∷ 0x61 ∷ 0xf2 ∷ 0x00 ∷ 0x15 ∷ 0xad ∷ []
unfolding sha256 new update update_loop absorb chunk_len compress finalize close_block zero_range
    serialize_words to_be
sha256_vector = refl

sha256-reference_example : sha256 abc ≡ reference abc
sha256-reference_example = sha256-reference abc (omega arith)
