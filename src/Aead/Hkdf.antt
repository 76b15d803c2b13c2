-- ===== src/Aead/Hkdf.antt =====
-- kernel/src/crypto_aead.rs, HKDF-SHA-256 and the EIPC session key.
use axiom_os.Base.{ℕ, ◌+◌, min, List, [], ◌∷◌, length, set, take, overwrite, replicate}
use axiom_os.Base.Bytes.{to_le}
use axiom_os.Crypto.Hmac.{hmac_sha256}

unfoldable pub hkdf_extract : List ℕ → List ℕ → List ℕ
hkdf_extract salt ikm = hmac_sha256 salt ikm

unfoldable pub hkdf_expand_32 : List ℕ → List ℕ → List ℕ
hkdf_expand_32 prk info =
    let len = min (length info) 127 in
    let buf = set (overwrite (replicate 128 0) 0 (take len info)) len 0x01 in
    hmac_sha256 prk (take (len + 1) buf)

-- "AXIOM-EIPC-v1"
abbrev pub eipc_label : List ℕ
eipc_label =
    0x41 ∷ 0x58 ∷ 0x49 ∷ 0x4F ∷ 0x4D ∷ 0x2D ∷ 0x45 ∷ 0x49 ∷ 0x50 ∷ 0x43 ∷ 0x2D ∷ 0x76 ∷ 0x31 ∷ []

unfoldable pub session_info : ℕ → ℕ → List ℕ
session_info sender receiver =
    overwrite (overwrite (overwrite (replicate 21 0) 0 eipc_label) 13 (to_le 4 sender)) 17
      (to_le 4 receiver)

unfoldable pub eipc_session_key : List ℕ → ℕ → ℕ → List ℕ
eipc_session_key cap_chain_hash sender receiver =
    hkdf_expand_32 (hkdf_extract (replicate 32 0) cap_chain_hash) (session_info sender receiver)
