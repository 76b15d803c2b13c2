-- ===== src/DemoHash.antt =====
-- kernel/src/axiom/demo_crypto.rs: the keyed FNV-1a hash of the first capability demo.
pub mod Sensitive
mod Tests
use axiom_os.Base.{◌==◌, u64, ◌<<<◌, ◌>>>◌, ℕ, ◌+◌, ◌*◌, bit_xor, Bool, List, [], ◌∷◌}

abbrev pub fnv_offset : ℕ
fnv_offset = 0xcbf29ce484222325

abbrev pub fnv_prime : ℕ
fnv_prime = 0x100000001b3

-- `for &byte in data`
unfoldable pub hash_bytes : ℕ → List ℕ → ℕ
hash_bytes hash [] = hash
hash_bytes hash (byte ∷ rest) = hash_bytes (u64 (bit_xor hash byte * fnv_prime)) rest

-- `key.rotate_left(32)`
unfoldable pub rotate_half : ℕ → ℕ
rotate_half key = u64 (key <<< 32) + (key >>> 32)

unfoldable pub keyed_hash : ℕ → List ℕ → ℕ
unfolding hash_bytes rotate_half
keyed_hash key bytes =
    u64 (bit_xor (hash_bytes (bit_xor fnv_offset key) bytes) (rotate_half key) * fnv_prime)

unfoldable pub tags_equal : ℕ → ℕ → Bool
tags_equal a b = bit_xor a b == 0
