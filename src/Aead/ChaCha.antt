-- ===== src/Aead/ChaCha.antt =====
-- kernel/src/crypto_aead.rs, `qr` and `chacha20_block`.
use axiom_os.Base.{
  ℕ, zero, suc, ◌+◌, ◌-◌, bit_xor, bit_or, List, [], ◌∷◌, ◌++◌, ◌≡◌, refl, length, get_or, set,
  slice, u32, ◌<<<◌, ◌>>>◌,
}
use axiom_os.Base.Bytes.{to_le, from_le}
use axiom_os.Crypto.Sha256.{add32}

unfoldable pub rotate_left : ℕ → ℕ → ℕ
rotate_left x k = bit_or (u32 (x <<< k)) (x >>> (32 - k))

-- `s[a] = s[a].wrapping_add(s[b]); s[d] ^= s[a]; s[d] = s[d].rotate_left(k);`
unfoldable pub qr_line : ℕ → ℕ → ℕ → ℕ → List ℕ → List ℕ
unfolding add32 rotate_left
qr_line a b d k s =
    let s1 = set s a (add32 (get_or s a 0) (get_or s b 0)) in
    set s1 d (rotate_left (bit_xor (get_or s1 d 0) (get_or s1 a 0)) k)

unfoldable pub qr : List ℕ → ℕ → ℕ → ℕ → ℕ → List ℕ
unfolding qr_line
qr s a b c d = qr_line c d b 7 (qr_line a b d 8 (qr_line c d b 12 (qr_line a b d 16 s)))

-- One pass of the loop: four column rounds and four diagonal rounds.
unfoldable pub double_round : List ℕ → List ℕ
unfolding qr
double_round s =
    let s1 = qr (qr s 0 4 8 12) 1 5 9 13 in
    let s2 = qr (qr s1 2 6 10 14) 3 7 11 15 in
    let s3 = qr (qr s2 0 5 10 15) 1 6 11 12 in qr (qr s3 2 7 8 13) 3 4 9 14

unfoldable pub double_rounds : ℕ → List ℕ → List ℕ
double_rounds zero s = s
double_rounds (suc n) s = double_rounds n (double_round s)

-- The word at byte `o`.
abbrev pub word_at : List ℕ → ℕ → ℕ
word_at bytes o = from_le (slice bytes o 4)

unfoldable pub initial_block : List ℕ → ℕ → List ℕ → List ℕ
unfolding from_le
initial_block key counter nonce =
    0x61707865
    ∷ 0x3320646e
    ∷ 0x79622d32
    ∷ 0x6b206574
    ∷ word_at key 0
    ∷ word_at key 4
    ∷ word_at key 8
    ∷ word_at key 12
    ∷ word_at key 16
    ∷ word_at key 20
    ∷ word_at key 24
    ∷ word_at key 28
    ∷ counter
    ∷ word_at nonce 0
    ∷ word_at nonce 4
    ∷ word_at nonce 8
    ∷ []

-- `for i in 0..16 { out[i*4..i*4+4] = (s[i] + init[i]).to_le_bytes(); }`
unfoldable pub add_words : ℕ → ℕ → List ℕ → List ℕ → List ℕ
unfolding add32 to_le
add_words zero i s init = []
add_words (suc n) i s init =
    to_le 4 (add32 (get_or s i 0) (get_or init i 0)) ++ add_words n (i + 1) s init

unfoldable pub chacha20_block : List ℕ → ℕ → List ℕ → List ℕ
unfolding initial_block
chacha20_block key counter nonce =
    let init = initial_block key counter nonce in add_words 16 0 (double_rounds 10 init) init

-- A block of the keystream has 64 bytes.
pub length-chacha20_block :
    (key : List ℕ) (counter : ℕ) (nonce : List ℕ) → length (chacha20_block key counter nonce) ≡ 64
unfolding chacha20_block add_words
length-chacha20_block key counter nonce = refl
