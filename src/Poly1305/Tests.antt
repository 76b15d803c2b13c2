-- ===== src/Poly1305/Tests.antt =====
-- The vector of RFC 8439, section 2.5.2, and the theorem at it.
use axiom_os.Base.{replicate, IsBytes, IsBytes-replicate, ℕ, ◌≡◌, refl, List, [], ◌∷◌, arith}
use axiom_os.Base.Bytes.{to_le, from_le}
use axiom_os.Poly1305.{
  poly1305, clamp, load_le_u128, finish, block_loop, add_block, reduce_once, fold_product,
  subtract_modulus, multiply, mul_hi, add_bits, block_bits,
}
use axiom_os.Poly1305.Tag.{reference, poly1305-reference}

abbrev rfc_key : List ℕ
rfc_key =
    0x85 ∷ 0xd6 ∷ 0xbe ∷ 0x78 ∷ 0x57 ∷ 0x55 ∷ 0x6d ∷ 0x33 ∷ 0x7f ∷ 0x44 ∷ 0x52 ∷ 0xfe ∷ 0x42 ∷ 0xd5
    ∷ 0x06 ∷ 0xa8 ∷ 0x01 ∷ 0x03 ∷ 0x80 ∷ 0x8a ∷ 0xfb ∷ 0x0d ∷ 0xb2 ∷ 0xfd ∷ 0x4a ∷ 0xbf ∷ 0xf6
    ∷ 0xaf ∷ 0x41 ∷ 0x49 ∷ 0xf5 ∷ 0x1b ∷ []

-- "Cryptographic Forum Research Group"
abbrev msg : List ℕ
msg =
    0x43 ∷ 0x72 ∷ 0x79 ∷ 0x70 ∷ 0x74 ∷ 0x6f ∷ 0x67 ∷ 0x72 ∷ 0x61 ∷ 0x70 ∷ 0x68 ∷ 0x69 ∷ 0x63 ∷ 0x20
    ∷ 0x46 ∷ 0x6f ∷ 0x72 ∷ 0x75 ∷ 0x6d ∷ 0x20 ∷ 0x52 ∷ 0x65 ∷ 0x73 ∷ 0x65 ∷ 0x61 ∷ 0x72 ∷ 0x63
    ∷ 0x68 ∷ 0x20 ∷ 0x47 ∷ 0x72 ∷ 0x6f ∷ 0x75 ∷ 0x70 ∷ []

rfc_tag :
    poly1305 rfc_key msg
    ≡ 0xa8 ∷ 0x06 ∷ 0x1d ∷ 0xc1 ∷ 0x30 ∷ 0x51 ∷ 0x36 ∷ 0xc6 ∷ 0xc2 ∷ 0x2b ∷ 0x8b ∷ 0xaf ∷ 0x0c
      ∷ 0x01 ∷ 0x27 ∷ 0xa9 ∷ []
unfolding poly1305 clamp load_le_u128 finish block_loop add_block reduce_once fold_product
    subtract_modulus multiply mul_hi add_bits block_bits to_le from_le
rfc_tag = refl

short-IsBytes : IsBytes (1 ∷ 2 ∷ 3 ∷ [])
short-IsBytes = (omega arith, (omega arith, (omega arith, tt)))

poly1305-reference_example :
    poly1305 (replicate 32 5) (1 ∷ 2 ∷ 3 ∷ []) ≡ reference (replicate 32 5) (1 ∷ 2 ∷ 3 ∷ [])
poly1305-reference_example =
    poly1305-reference (replicate 32 5) (1 ∷ 2 ∷ 3 ∷ []) refl (IsBytes-replicate 32 5 (omega arith))
      short-IsBytes
