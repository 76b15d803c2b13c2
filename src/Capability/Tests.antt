-- ===== src/Capability/Tests.antt =====
-- Runs of the capability code on the values of `demonstrate`, and the theorems applied to them.
use axiom_os.Base.{
  replicate, ℕ, ◌+◌, ◌/◌, ◌%◌, ◌^◌, ◌≤◌, ◌<◌, ◌≡◌, refl, ◌≢◌, ◌⊎◌, true, none, some, List, arith,
}
use axiom_os.Capability.{
  Capability, auth_bytes, mint, verify, derive, child, right_read, right_write, right_execute,
  right_derive, right_grant,
}
use axiom_os.Crypto.Hmac.{hmac_sha256, length-hmac_sha256}
use axiom_os.Capability.Verify.{signed_bytes, IsTyped, SameFields, verify-mint_iff, verify-forgery}
use axiom_os.Capability.Derive.{Grants, derive_iff}
use axiom_os.Capability.Chain.{Derives, start, step, derives-attenuates, derives-bounded}

abbrev k : List ℕ
k = replicate 32 0xaa

abbrev root : Capability
root = record {
  object_id = 0xf11e;
  rights = 11;
  expires_at = 1000;
  depth = 0;
  parent_hash = replicate 32 0;
  mac = hmac_sha256 k (auth_bytes 0xf11e 11 1000 0 (replicate 32 0));
}

root_minted : mint k 0xf11e 11 1000 ≡ root
unfolding mint
root_minted = refl

-- The five rights are different bits of one byte.
rights_total : right_read + right_write + right_execute + right_derive + right_grant ≡ 31
rights_total = refl

root_verifies : verify root k 500 ≡ true
root_verifies = rw (← root_minted) ((verify-mint_iff k 0xf11e 11 1000 500).1 (omega arith))

root-Grants : Grants root k 500 1 800
root-Grants = record {
  verified = root_verifies;
  may_derive = λ e. absurd (omega arith);
  within = refl;
  no_later = omega arith;
  shallow = omega arith;
}

derives_child : derive root k 500 1 800 ≡ some (child root k 1 800 1)
derives_child = (derive_iff root k 500 1 800 (child root k 1 800 1)).1 (root-Grants, refl)

-- READ | EXECUTE is more than the root has.
escalation_refused : derive root k 500 5 800 ≡ none
unfolding derive
escalation_refused = rw root_verifies refl

one_step : Derives k root 1 (child root k 1 800 1)
one_step = step 500 1 800 start (omega arith) derives_child

derives-attenuates_example :
    (root.object_id ≡ root.object_id)
    × (1 ≡ 0 + 1)
    × (1 ≤ 64)
    × (800 ≤ 1000)
    × ((i : ℕ) → 1 / 2 ^ i % 2 ≤ 11 / 2 ^ i % 2)
unfolding child
derives-attenuates_example =
    derives-attenuates k root 1 (child root k 1 800 1) (omega arith) (omega arith) one_step

derives-bounded_example : (1 ≤ 64) × (verify (child root k 1 800 1) k 999 ≡ true → 999 < 1000)
derives-bounded_example =
    derives-bounded k root 1 (child root k 1 800 1) 999 (omega arith) refl one_step

root-IsTyped : IsTyped root
root-IsTyped = record {
  object_range = omega arith;
  expiry_range = omega arith;
  parent_length = refl;
  mac_length = length-hmac_sha256 k (signed_bytes root);
}

verify-forgery_example :
    SameFields root root
    ⊎ ((signed_bytes root ≢ signed_bytes root)
        × (hmac_sha256 k (signed_bytes root) ≡ hmac_sha256 k (signed_bytes root)))
verify-forgery_example =
    verify-forgery root root k 500 500 root-IsTyped root-IsTyped root_verifies root_verifies refl
