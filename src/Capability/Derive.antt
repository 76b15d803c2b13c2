-- ===== src/Capability/Derive.antt =====
-- `derive`: when it succeeds, what it returns, and that it never adds authority.
use axiom_os.Base.{
  ℕ, ◌+◌, ◌-◌, ◌/◌, ◌%◌, ◌^◌, ◌≤◌, ◌<◌, bit_and, ◌≡◌, refl, sym, ap, ◌∙◌, ◌≢◌, ◌↔◌, true, some,
  List, arith,
}
use axiom_os.Base.Bits.{bit_within}
use axiom_os.Crypto.Sha256.{sha256}
use axiom_os.Crypto.Hmac.{length-hmac_sha256}
use axiom_os.Capability.{Capability, verify, child, next_depth, derive, right_derive}
use axiom_os.Capability.Verify.{verify_iff, signed_bytes}

-- What `derive` requires of the parent and the request.
pub record Grants (c : Capability) (k : List ℕ) (now new_rights new_expires_at : ℕ) : Type 0 where
  pub verified : verify c k now ≡ true
  pub may_derive : bit_and c.rights right_derive ≢ 0
  pub within : bit_and new_rights (255 - c.rights) ≡ 0
  pub no_later : new_expires_at ≤ c.expires_at
  pub shallow : c.depth < 64

derive-checks :
    (c : Capability) (k : List ℕ) (now r e : ℕ) (d : Capability)
    → derive c k now r e ≡ some d
    → (verify c k now ≡ true)
      × (bit_and c.rights right_derive ≢ 0)
      × (bit_and r (255 - c.rights) ≡ 0)
      × (e ≤ c.expires_at)
      × (c.depth < 64)
      × (d ≡ child c k r e (c.depth + 1))
unfolding derive next_depth
derive-checks c k now r e d h = ground arith

checks-derive :
    (c : Capability) (k : List ℕ) (now r e : ℕ)
    → Grants c k now r e
    → derive c k now r e ≡ some (child c k r e (c.depth + 1))
unfolding derive next_depth
checks-derive c k now r e g =
    let verified = g.verified in
    let may_derive = g.may_derive in
    let within = g.within in let no_later = g.no_later in let shallow = g.shallow in ground arith

-- `derive` succeeds exactly when the parent verifies, has the DERIVE right, covers the requested
-- rights and expiry, and is less than 64 derivations from its root; it then returns the child one
-- level deeper.
pub derive_iff :
    (c : Capability) (k : List ℕ) (now r e : ℕ) (d : Capability)
    → (derive c k now r e ≡ some d) ↔ (Grants c k now r e × (d ≡ child c k r e (c.depth + 1)))
derive_iff c k now r e d = (
  λ h.
      let p = derive-checks c k now r e d h in
      (
        record { verified = p.0; may_derive = p.1; within = p.2; no_later = p.3; shallow = p.4 },
        p.5,
      ),
  λ p. checks-derive c k now r e p.0 ∙ ap some (sym p.1),
)

-- The child is for the same object, one level deeper but no deeper than 64, lives no longer than its
-- parent, has no right that the parent lacks, and names its parent by the hash of the parent's MAC.
pub derive-attenuates :
    (c : Capability) (k : List ℕ) (now r e : ℕ) (d : Capability)
    → c.rights < 256
    → r < 256
    → derive c k now r e ≡ some d
    → (d.object_id ≡ c.object_id)
      × (d.depth ≡ c.depth + 1)
      × (d.depth ≤ 64)
      × (d.expires_at ≤ c.expires_at)
      × (d.parent_hash ≡ sha256 c.mac)
      × (d.rights ≡ r)
      × (d.expires_at ≡ e)
      × ((i : ℕ) → d.rights / 2 ^ i % 2 ≤ c.rights / 2 ^ i % 2)
unfolding child
derive-attenuates c k now r e d small_c small_r h =
    let p = (derive_iff c k now r e d).0 h in
    let g = p.0 in
    let shallow = g.shallow in
    let no_later = g.no_later in
    rw p.1 (
      refl,
      refl,
      omega arith,
      no_later,
      refl,
      refl,
      refl,
      bit_within 8 r c.rights small_r small_c g.within,
    )

-- A derived capability verifies with the key exactly before the expiry asked for.
pub verify-derive_iff :
    (c : Capability) (k : List ℕ) (now r e : ℕ) (d : Capability) (later : ℕ)
    → derive c k now r e ≡ some d
    → (verify d k later ≡ true) ↔ (later < e)
unfolding child
verify-derive_iff c k now r e d later h =
    let p = (derive_iff c k now r e d).0 h in
    let made = child c k r e (c.depth + 1) in
    let both = verify_iff made k later (length-hmac_sha256 k (signed_bytes made)) in
    rw p.1 (λ v. (both.0 v).0, λ l. both.1 (l, refl))
