-- ===== src/Capability.antt =====
-- kernel/src/axiom/capability.rs: temporal capabilities authenticated with HMAC-SHA-256.
pub mod Encoding
pub mod Verify
pub mod Derive
pub mod Chain
mod Tests
use axiom_os.Base.{
  ℕ, ◌+◌, ◌-◌, bit_and, Bool, false, not, Option, none, some, List, ltb, leb, ◌==◌, if◌then◌else◌,
  set, overwrite, replicate,
}
use axiom_os.Base.Bytes.{to_le}
use axiom_os.Crypto.Sha256.{sha256}
use axiom_os.Crypto.Hmac.{hmac_sha256}
use axiom_os.Crypto.ConstTime.{ct_eq_32}

-- `mod rights`
abbrev pub right_read : ℕ
right_read = 0b0000_0001

abbrev pub right_write : ℕ
right_write = 0b0000_0010

abbrev pub right_execute : ℕ
right_execute = 0b0000_0100

abbrev pub right_derive : ℕ
right_derive = 0b0000_1000

abbrev pub right_grant : ℕ
right_grant = 0b0001_0000

-- `struct Capability`; the times are nanoseconds as u64.
pub record Capability : Type 0 where
  pub object_id : ℕ
  pub rights : ℕ
  pub expires_at : ℕ
  pub depth : ℕ
  pub parent_hash : List ℕ
  pub mac : List ℕ

unfoldable pub auth_bytes : ℕ → ℕ → ℕ → ℕ → List ℕ → List ℕ
auth_bytes object_id rights expires_at depth parent_hash =
    let buf0 = replicate 50 0 in
    let buf1 = overwrite buf0 0 (to_le 8 object_id) in
    let buf2 = set buf1 8 rights in
    let buf3 = overwrite buf2 9 (to_le 8 expires_at) in
    let buf4 = set buf3 17 depth in overwrite buf4 18 parent_hash

unfoldable pub mint : List ℕ → ℕ → ℕ → ℕ → Capability
mint k object_id rights expires_at =
    let parent_hash = replicate 32 0 in
    let bytes = auth_bytes object_id rights expires_at 0 parent_hash in
    record {
      object_id = object_id;
      rights = rights;
      expires_at = expires_at;
      depth = 0;
      parent_hash = parent_hash;
      mac = hmac_sha256 k bytes;
    }

unfoldable pub verify : Capability → List ℕ → ℕ → Bool
verify c k now =
    let bytes = auth_bytes c.object_id c.rights c.expires_at c.depth c.parent_hash in
    if leb c.expires_at now then false else ct_eq_32 (hmac_sha256 k bytes) c.mac

-- `saturating_sub`
unfoldable pub ttl : Capability → ℕ → ℕ
ttl c now = c.expires_at - now

-- The capability that `derive` builds, at depth `depth`.
unfoldable pub child : Capability → List ℕ → ℕ → ℕ → ℕ → Capability
child c k new_rights new_expires_at depth =
    let parent_hash = sha256 c.mac in
    let bytes = auth_bytes c.object_id new_rights new_expires_at depth parent_hash in
    record {
      object_id = c.object_id;
      rights = new_rights;
      expires_at = new_expires_at;
      depth = depth;
      parent_hash = parent_hash;
      mac = hmac_sha256 k bytes;
    }

-- `self.depth.checked_add(1)` of u8
unfoldable pub next_depth : Capability → Option ℕ
next_depth c = if ltb 255 (c.depth + 1) then none else some (c.depth + 1)

unfoldable pub derive : Capability → List ℕ → ℕ → ℕ → ℕ → Option Capability
unfolding next_depth
derive c k now new_rights new_expires_at =
    if not (verify c k now)
    then none
    else if bit_and c.rights right_derive == 0
    then none
    else if not (bit_and new_rights (255 - c.rights) == 0)
    then none
    else if ltb c.expires_at new_expires_at
    then none
    else (elim (next_depth c) [
      | none ↦ none
      | some depth ↦ if ltb 64 depth then none else some (child c k new_rights new_expires_at depth)
    ])
