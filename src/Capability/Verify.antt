-- ===== src/Capability/Verify.antt =====
-- When a capability verifies: over time, for a minted one, and what a forgery would take.
use axiom_os.Base.{
  leb, Bool-cases, length, numbers_or_not, ℕ, ◌+◌, ◌^◌, ◌≤◌, ◌<◌, ◌≡◌, refl, sym, ◌∙◌, ◌≢◌, ◌↔◌,
  ◌⊎◌, inl, inr, true, List, arith,
}
use axiom_os.Crypto.Hmac.{hmac_sha256, length-hmac_sha256}
use axiom_os.Crypto.ConstTime.{ct_eq_32_iff}
use axiom_os.Capability.{Capability, auth_bytes, mint, verify, ttl}
use axiom_os.Capability.Encoding.{auth_bytes-injective}

-- The bytes that the MAC of `c` is over.
abbrev pub signed_bytes : Capability → List ℕ
signed_bytes c = auth_bytes c.object_id c.rights c.expires_at c.depth c.parent_hash

-- A capability as the source's types allow it: u64 fields and two arrays of 32 bytes.
pub record IsTyped (c : Capability) : Type 0 where
  pub object_range : c.object_id < 2 ^ 64
  pub expiry_range : c.expires_at < 2 ^ 64
  pub parent_length : length c.parent_hash ≡ 32
  pub mac_length : length c.mac ≡ 32

-- A capability verifies exactly before its expiry and when its MAC is the HMAC of its fields.
pub verify_iff :
    (c : Capability) (k : List ℕ) (now : ℕ)
    → length c.mac ≡ 32
    → (verify c k now ≡ true) ↔ ((now < c.expires_at) × (hmac_sha256 k (signed_bytes c) ≡ c.mac))
unfolding verify
verify_iff c k now sized = elim (Bool-cases (leb c.expires_at now)) [
  | inl late ↦ rw late (λ e. absurd (ground arith), λ p. absurd (ground arith))
  | inr early ↦
      let agree =
        ct_eq_32_iff (hmac_sha256 k (signed_bytes c)) c.mac (length-hmac_sha256 k (signed_bytes c))
          sized in
      rw early (λ e. (ground arith, agree.0 e), λ p. agree.1 p.1)
]

-- A capability that verifies at one time verifies at every earlier time, so that one that does not
-- never will again.
pub verify-antitone :
    (c : Capability) (k : List ℕ) (earlier now : ℕ)
    → earlier ≤ now
    → verify c k now ≡ true
    → verify c k earlier ≡ true
unfolding verify
verify-antitone c k earlier now h e = ground arith

pub verify-early :
    (c : Capability) (k : List ℕ) (now : ℕ) → verify c k now ≡ true → now < c.expires_at
unfolding verify
verify-early c k now e = ground arith

-- A verified capability has a positive remaining time, which leads exactly to its expiry.
pub ttl-verify :
    (c : Capability) (k : List ℕ) (now : ℕ)
    → verify c k now ≡ true
    → (0 < ttl c now) × (now + ttl c now ≡ c.expires_at)
unfolding verify ttl
ttl-verify c k now e = ground arith

-- A minted capability verifies with its key exactly before its expiry.
pub verify-mint_iff :
    (k : List ℕ) (object_id rights expires_at now : ℕ)
    → (verify (mint k object_id rights expires_at) k now ≡ true) ↔ (now < expires_at)
unfolding mint
verify-mint_iff k object_id rights expires_at now =
    let c = mint k object_id rights expires_at in
    let both = verify_iff c k now (length-hmac_sha256 k (signed_bytes c)) in
    (λ e. (both.0 e).0, λ h. both.1 (h, refl))

-- The five fields under the MAC are the same.
pub SameFields : Capability → Capability → Type 0
SameFields a b =
    (a.object_id ≡ b.object_id)
    × (a.rights ≡ b.rights)
    × (a.expires_at ≡ b.expires_at)
    × (a.depth ≡ b.depth)
    × (a.parent_hash ≡ b.parent_hash)

-- Two capabilities that verify with one key and have one MAC agree in every field, or they give two
-- different messages of 50 bytes with one HMAC: a field cannot be altered under an unchanged MAC short
-- of such a collision.
pub verify-forgery :
    (a b : Capability) (k : List ℕ) (t u : ℕ)
    → IsTyped a
    → IsTyped b
    → verify a k t ≡ true
    → verify b k u ≡ true
    → a.mac ≡ b.mac
    → SameFields a b
      ⊎ ((signed_bytes a ≢ signed_bytes b)
          × (hmac_sha256 k (signed_bytes a) ≡ hmac_sha256 k (signed_bytes b)))
unfolding SameFields
verify-forgery a b k t u ta tb va vb same =
    elim (numbers_or_not (signed_bytes a) (signed_bytes b)) [
      | inl e ↦ inl (
          auth_bytes-injective a.object_id a.rights a.expires_at a.depth a.parent_hash b.object_id
            b.rights b.expires_at b.depth b.parent_hash ta.object_range tb.object_range
            ta.expiry_range tb.expiry_range ta.parent_length tb.parent_length e)
      | inr differ ↦ inr (
        differ,
        ((verify_iff a k t ta.mac_length).0 va).1
            ∙ same
            ∙ sym ((verify_iff b k u tb.mac_length).0 vb).1,
      )
    ]
