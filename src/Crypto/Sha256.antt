-- ===== src/Crypto/Sha256.antt =====
-- kernel/src/crypto.rs, lines 12 to 168: the SHA-256 compression function and the streaming hasher.
-- A word is a number below 2 ^ 32, a byte array a list of numbers below 256.
pub mod Blocks
pub mod Stream
pub mod Pad
use axiom_os.Base.{
  ℕ, zero, suc, ◌+◌, ◌-◌, ◌*◌, ◌^◌, min, bit_and, bit_or, bit_xor, List, [], ◌∷◌, ◌++◌, ltb, ◌==◌,
  if◌then◌else◌, length, get_or, set, take, drop, slice, overwrite, replicate, u32, u64, ◌<<<◌,
  ◌>>>◌,
}
use axiom_os.Base.Bytes.{to_be, from_be}

-- `const K`
abbrev pub round_constants : List ℕ
round_constants =
    0x428a2f98 ∷ 0x71374491 ∷ 0xb5c0fbcf ∷ 0xe9b5dba5 ∷ 0x3956c25b ∷ 0x59f111f1 ∷ 0x923f82a4
    ∷ 0xab1c5ed5 ∷ 0xd807aa98 ∷ 0x12835b01 ∷ 0x243185be ∷ 0x550c7dc3 ∷ 0x72be5d74 ∷ 0x80deb1fe
    ∷ 0x9bdc06a7 ∷ 0xc19bf174 ∷ 0xe49b69c1 ∷ 0xefbe4786 ∷ 0x0fc19dc6 ∷ 0x240ca1cc ∷ 0x2de92c6f
    ∷ 0x4a7484aa ∷ 0x5cb0a9dc ∷ 0x76f988da ∷ 0x983e5152 ∷ 0xa831c66d ∷ 0xb00327c8 ∷ 0xbf597fc7
    ∷ 0xc6e00bf3 ∷ 0xd5a79147 ∷ 0x06ca6351 ∷ 0x14292967 ∷ 0x27b70a85 ∷ 0x2e1b2138 ∷ 0x4d2c6dfc
    ∷ 0x53380d13 ∷ 0x650a7354 ∷ 0x766a0abb ∷ 0x81c2c92e ∷ 0x92722c85 ∷ 0xa2bfe8a1 ∷ 0xa81a664b
    ∷ 0xc24b8b70 ∷ 0xc76c51a3 ∷ 0xd192e819 ∷ 0xd6990624 ∷ 0xf40e3585 ∷ 0x106aa070 ∷ 0x19a4c116
    ∷ 0x1e376c08 ∷ 0x2748774c ∷ 0x34b0bcb5 ∷ 0x391c0cb3 ∷ 0x4ed8aa4a ∷ 0x5b9cca4f ∷ 0x682e6ff3
    ∷ 0x748f82ee ∷ 0x78a5636f ∷ 0x84c87814 ∷ 0x8cc70208 ∷ 0x90befffa ∷ 0xa4506ceb ∷ 0xbef9a3f7
    ∷ 0xc67178f2 ∷ []

-- `const H0`
abbrev pub initial_state : List ℕ
initial_state =
    0x6a09e667 ∷ 0xbb67ae85 ∷ 0x3c6ef372 ∷ 0xa54ff53a ∷ 0x510e527f ∷ 0x9b05688c ∷ 0x1f83d9ab
    ∷ 0x5be0cd19 ∷ []

-- `u32::wrapping_add`, `rotate_right` and `!`
unfoldable pub add32 : ℕ → ℕ → ℕ
add32 a b = u32 (a + b)

unfoldable pub rotate_right : ℕ → ℕ → ℕ
rotate_right x k = bit_or (x >>> k) (u32 (x <<< (32 - k)))

unfoldable pub not32 : ℕ → ℕ
not32 x = 2 ^ 32 - 1 - x

-- The first loop of `compress`: the 16 words of the block, from index `i` on.
unfoldable pub load_words : ℕ → ℕ → List ℕ → List ℕ → List ℕ
unfolding from_be
load_words zero i block w = w
load_words (suc n) i block w =
    load_words n (i + 1) block (set w i (from_be (slice block (i * 4) 4)))

-- One step of the second loop: the word `w[i]` for `16 <= i`.
unfoldable pub schedule_word : ℕ → List ℕ → ℕ
unfolding add32 rotate_right
schedule_word i w =
    let x = get_or w (i - 15) 0 in
    let y = get_or w (i - 2) 0 in
    let s0 = bit_xor (bit_xor (rotate_right x 7) (rotate_right x 18)) (x >>> 3) in
    let s1 = bit_xor (bit_xor (rotate_right y 17) (rotate_right y 19)) (y >>> 10) in
    add32 (add32 (add32 (get_or w (i - 16) 0) s0) (get_or w (i - 7) 0)) s1

unfoldable pub expand_words : ℕ → ℕ → List ℕ → List ℕ
unfolding schedule_word
expand_words zero i w = w
expand_words (suc n) i w = expand_words n (i + 1) (set w i (schedule_word i w))

-- The working variables `a` to `h`.
pub record Working : Type 0 where
  pub a : ℕ
  pub b : ℕ
  pub c : ℕ
  pub d : ℕ
  pub e : ℕ
  pub f : ℕ
  pub g : ℕ
  pub h : ℕ

-- The body of the round loop.
unfoldable pub round : ℕ → List ℕ → Working → Working
unfolding add32 rotate_right not32
round i w v =
    let s1 = bit_xor (bit_xor (rotate_right v.e 6) (rotate_right v.e 11)) (rotate_right v.e 25) in
    let ch = bit_xor (bit_and v.e v.f) (bit_and (not32 v.e) v.g) in
    let t1 = add32 (add32 (add32 (add32 v.h s1) ch) (get_or round_constants i 0)) (get_or w i 0) in
    let s0 = bit_xor (bit_xor (rotate_right v.a 2) (rotate_right v.a 13)) (rotate_right v.a 22) in
    let maj = bit_xor (bit_xor (bit_and v.a v.b) (bit_and v.a v.c)) (bit_and v.b v.c) in
    let t2 = add32 s0 maj in
    record {
      a = add32 t1 t2;
      b = v.a;
      c = v.b;
      d = v.c;
      e = add32 v.d t1;
      f = v.e;
      g = v.f;
      h = v.g;
    }

unfoldable pub rounds : ℕ → ℕ → List ℕ → Working → Working
unfolding round
rounds zero i w v = v
rounds (suc n) i w v = rounds n (i + 1) w (round i w v)

unfoldable pub compress : List ℕ → List ℕ → List ℕ
unfolding load_words expand_words rounds add32
compress state block =
    let w = expand_words 48 16 (load_words 16 0 block (replicate 64 0)) in
    let s = λ (i : ℕ). get_or state i 0 in
    let v =
      rounds 64 0 w
        (record { a = s 0; b = s 1; c = s 2; d = s 3; e = s 4; f = s 5; g = s 6; h = s 7 }) in
    add32 (s 0) v.a
    ∷ add32 (s 1) v.b
    ∷ add32 (s 2) v.c
    ∷ add32 (s 3) v.d
    ∷ add32 (s 4) v.e
    ∷ add32 (s 5) v.f
    ∷ add32 (s 6) v.g
    ∷ add32 (s 7) v.h
    ∷ []

-- `struct Sha256`
pub record Hasher : Type 0 where
  pub state : List ℕ
  pub buf : List ℕ
  pub buf_len : ℕ
  pub total_len : ℕ

unfoldable pub new : Hasher
new = record { state = initial_state; buf = replicate 64 0; buf_len = 0; total_len = 0 }

-- `take` in the loop of `update`: the bytes that the buffer still holds, or all that are left.
unfoldable pub chunk_len : Hasher → List ℕ → ℕ
chunk_len s input = min (64 - s.buf_len) (length input)

-- The body of the loop of `update`.
unfoldable pub absorb : Hasher → List ℕ → Hasher
absorb s input =
    let buf = overwrite s.buf s.buf_len (take (chunk_len s input) input) in
    let buf_len = s.buf_len + chunk_len s input in
    if buf_len == 64
    then record s { state = compress s.state buf; buf = buf; buf_len = 0 }
    else record s { buf = buf; buf_len = buf_len }

-- `while !data.is_empty()`, on fuel: each pass takes at least one byte.
unfoldable pub update_loop : ℕ → Hasher → List ℕ → Hasher
update_loop zero s input = s
update_loop (suc fuel) s [] = s
update_loop (suc fuel) s (x ∷ xs) =
    update_loop fuel (absorb s (x ∷ xs)) (drop (chunk_len s (x ∷ xs)) (x ∷ xs))

unfoldable pub update : Hasher → List ℕ → Hasher
update s input =
    update_loop (length input) (record s { total_len = u64 (s.total_len + length input) }) input

-- `for i in from..to { buf[i] = 0; }`
unfoldable pub zero_range : List ℕ → ℕ → ℕ → List ℕ
zero_range buf from to = overwrite buf from (replicate (to - from) 0)

-- Step 2 of `finalize`: where the length field no longer fits, the block is closed and a new one
-- is begun.
unfoldable pub close_block : Hasher → Hasher
close_block s =
    if ltb 56 s.buf_len
    then (let buf = zero_range s.buf s.buf_len 64 in
        record s { state = compress s.state buf; buf = buf; buf_len = 0 })
    else s

unfoldable pub serialize_words : List ℕ → List ℕ
serialize_words [] = []
serialize_words (x ∷ xs) = to_be 4 x ++ serialize_words xs

unfoldable pub finalize : Hasher → List ℕ
finalize s =
    let total_bits = u64 (s.total_len * 8) in
    let t = close_block (record s { buf = set s.buf s.buf_len 0x80; buf_len = s.buf_len + 1 }) in
    let buf = overwrite (zero_range t.buf t.buf_len 56) 56 (to_be 8 total_bits) in
    serialize_words (compress t.state buf)

unfoldable pub sha256 : List ℕ → List ℕ
sha256 input = finalize (update new input)
