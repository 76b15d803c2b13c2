-- ===== src/Capability/Chain.antt =====
-- Chains of derivations: the capabilities that `derive` reaches from a given one.
use axiom_os.Base.{ℕ, suc, ◌+◌, ◌/◌, ◌%◌, ◌^◌, ◌≤◌, ◌<◌, ◌≡◌, refl, ◌∙◌, true, some, List, arith}
use axiom_os.Capability.{Capability, verify, derive}
use axiom_os.Capability.Verify.{verify-early}
use axiom_os.Capability.Derive.{derive-attenuates}

-- `Derives k c n d`: `d` comes from `c` by `n` calls of `derive` under the key `k`, each at some time
-- and for some rights of u8 and some expiry.
pub data Derives (k : List ℕ) (c : Capability) : ℕ → Capability → Type 0 where
  start : Derives k c 0 c
  step :
      {n : ℕ} {p d : Capability} (now r e : ℕ)
      → Derives k c n p
      → r < 256
      → derive p k now r e ≡ some d
      → Derives k c (suc n) d

rights-range :
    (k : List ℕ) (c : Capability) (n : ℕ) (d : Capability)
    → c.rights < 256
    → Derives k c n d
    → d.rights < 256
rights-range k c n d h start = h
rights-range k c n d h (step {p = p} now r e s small made) =
    rw (derive-attenuates p k now r e d (rights-range k c _ p h s) small made).5 small

-- However often it is derived, a capability keeps its object, its depth counts the derivations and
-- is at most 64, it lives no longer than the one the chain starts from, and has none but its rights.
pub derives-attenuates :
    (k : List ℕ) (c : Capability) (n : ℕ) (d : Capability)
    → c.rights < 256
    → c.depth ≤ 64
    → Derives k c n d
    → (d.object_id ≡ c.object_id)
      × (d.depth ≡ c.depth + n)
      × (d.depth ≤ 64)
      × (d.expires_at ≤ c.expires_at)
      × ((i : ℕ) → d.rights / 2 ^ i % 2 ≤ c.rights / 2 ^ i % 2)
derives-attenuates k c n d small shallow start =
    (refl, omega arith, shallow, omega arith, λ i. omega arith)
derives-attenuates k c n d small shallow (step {n = m} {p = p} now r e s ranged made) =
    let before = derives-attenuates k c m p small shallow s in
    let last = derive-attenuates p k now r e d (rights-range k c m p small s) ranged made in
    (
      last.0 ∙ before.0,
      omega (arith, last.1, before.1),
      last.2,
      omega (arith, last.3, before.3),
      λ i. omega (arith, last.7 i, before.4 i),
    )

-- So from a minted capability no chain is longer than 64, and none of its members verifies at or
-- after the expiry of the first.
pub derives-bounded :
    (k : List ℕ) (c : Capability) (n : ℕ) (d : Capability) (t : ℕ)
    → c.rights < 256
    → c.depth ≡ 0
    → Derives k c n d
    → (n ≤ 64) × (verify d k t ≡ true → t < c.expires_at)
derives-bounded k c n d t small root s =
    let p = derives-attenuates k c n d small (omega arith) s in
    (omega (arith, p.1, p.2), λ v. omega (arith, p.3, verify-early d k t v))
