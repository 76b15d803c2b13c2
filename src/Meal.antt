-- ===== src/Meal.antt =====
-- kernel/src/meal.rs: the audit log, a ring of 64 authenticated entries, each with the hash of the
-- one before it.
pub mod Encoding
pub mod Verify
pub mod History
mod Tests
use axiom_os.Base.{
  ◌==◌, if◌then◌else◌, get_or, set, replicate, overwrite, u64, ℕ, zero, suc, ◌+◌, ◌%◌, Bool, true,
  false, not, Option, none, some, List, [], ◌∷◌,
}
use axiom_os.Base.Bytes.{to_le, same_bytes}
use axiom_os.Crypto.Sha256.{sha256}
use axiom_os.Crypto.Hmac.{hmac_sha256}
use axiom_os.Crypto.ConstTime.{ct_diff}

pub data AuditEvent : Type 0 where
  log_initialised : AuditEvent
  capability_derived : AuditEvent
  capability_expired : AuditEvent
  process_created : AuditEvent
  process_exited : AuditEvent
  eipc_send : AuditEvent
  eipc_receive : AuditEvent
  syscall_dispatched : AuditEvent
  scba_fence_fired : AuditEvent
  driver_loaded : AuditEvent
  driver_fault_mmio : AuditEvent
  driver_fault_syscall : AuditEvent
  driver_stopped : AuditEvent
  lattice_reconfigured : AuditEvent
  memory_zeroed : AuditEvent
  boot_complete : AuditEvent

-- `event_type as u16`
unfoldable pub event_code : AuditEvent → ℕ
event_code log_initialised = 0x0000
event_code capability_derived = 0x0001
event_code capability_expired = 0x0002
event_code process_created = 0x0100
event_code process_exited = 0x0101
event_code eipc_send = 0x0200
event_code eipc_receive = 0x0201
event_code syscall_dispatched = 0x0300
event_code scba_fence_fired = 0x0500
event_code driver_loaded = 0x0400
event_code driver_fault_mmio = 0x0401
event_code driver_fault_syscall = 0x0402
event_code driver_stopped = 0x0404
event_code lattice_reconfigured = 0x0600
event_code memory_zeroed = 0x0700
event_code boot_complete = 0xff00

pub record AuditEntry : Type 0 where
  pub sequence : ℕ
  pub timestamp : ℕ
  pub event_type : AuditEvent
  pub actor : ℕ
  pub value_a : ℕ
  pub value_b : ℕ
  pub prev_hash : List ℕ
  pub mac : List ℕ

unfoldable pub auth_bytes : AuditEntry → List ℕ
auth_bytes e =
    let b0 = replicate 80 0 in
    let b1 = overwrite b0 0 (to_le 8 e.sequence) in
    let b2 = overwrite b1 8 (to_le 8 e.timestamp) in
    let b3 = overwrite b2 16 (to_le 2 (event_code e.event_type)) in
    let b4 = overwrite b3 24 (to_le 4 e.actor) in
    let b5 = overwrite b4 32 (to_le 8 e.value_a) in
    let b6 = overwrite b5 40 (to_le 8 e.value_b) in overwrite b6 48 e.prev_hash

unfoldable pub self_hash : AuditEntry → List ℕ
self_hash e = sha256 (auth_bytes e)

abbrev pub capacity : ℕ
capacity = 64

pub record MealLog : Type 0 where
  pub entries : List (Option AuditEntry)
  pub write_head : ℕ
  pub total : ℕ
  pub chain_tip : List ℕ
  pub audit_key : List ℕ

-- b"AXIOM-MEAL-GENESIS-v4"
abbrev pub genesis_label : List ℕ
genesis_label =
    0x41 ∷ 0x58 ∷ 0x49 ∷ 0x4f ∷ 0x4d ∷ 0x2d ∷ 0x4d ∷ 0x45 ∷ 0x41 ∷ 0x4c ∷ 0x2d ∷ 0x47 ∷ 0x45 ∷ 0x4e
    ∷ 0x45 ∷ 0x53 ∷ 0x49 ∷ 0x53 ∷ 0x2d ∷ 0x76 ∷ 0x34 ∷ []

unfoldable pub new : List ℕ → MealLog
new key = record {
  entries = replicate capacity none;
  write_head = 0;
  total = 0;
  chain_tip = sha256 genesis_label;
  audit_key = key;
}

-- The entry that `append` writes, its MAC filled in last; `ticks` is the value of `TICKS`.
unfoldable pub sealed_entry : List ℕ → ℕ → List ℕ → ℕ → AuditEvent → ℕ → ℕ → ℕ → AuditEntry
sealed_entry key seq tip ticks ev actor a b =
    let e : AuditEntry = record {
      sequence = seq;
      timestamp = ticks;
      event_type = ev;
      actor = actor;
      value_a = a;
      value_b = b;
      prev_hash = tip;
      mac = replicate 32 0;
    } in
    record e { mac = hmac_sha256 key (auth_bytes e) }

unfoldable pub append : MealLog → ℕ → AuditEvent → ℕ → ℕ → ℕ → ℕ × MealLog
unfolding sealed_entry
append m ticks ev actor a b =
    let seq = m.total in
    let e = sealed_entry m.audit_key seq m.chain_tip ticks ev actor a b in
    (
      seq,
      record m {
        chain_tip = self_hash e;
        entries = set m.entries m.write_head (some e);
        write_head = (m.write_head + 1) % capacity;
        total = u64 (m.total + 1);
      },
    )

-- `d |= exp[i] ^ e.mac[i]` over the 32 bytes, as in `ct_eq_32`
unfoldable pub verify_entry : List ℕ → AuditEntry → Bool
verify_entry key e = ct_diff 32 0 (hmac_sha256 key (auth_bytes e)) e.mac 0 == 0

-- `if let Some(ph) = prev { if e.prev_hash != ph … }`
unfoldable pub link_broken : Option (List ℕ) → AuditEntry → Bool
unfolding same_bytes
link_broken none e = false
link_broken (some ph) e = not (same_bytes e.prev_hash ph)

-- The loop of `verify_chain` from index `i` on, `k` turns left.
unfoldable pub verify_loop : ℕ → ℕ → MealLog → Option (List ℕ) → ℕ → ℕ × Bool
unfolding verify_entry link_broken self_hash
verify_loop zero i m prev n = (n, true)
verify_loop (suc k) i m prev n =
    let idx = (m.write_head + i) % capacity in
    elim (get_or m.entries idx none) [
      | none ↦ verify_loop k (i + 1) m prev n
      | some e ↦
          let rest = verify_loop k (i + 1) m (some (self_hash e)) (n + 1) in
          if not (verify_entry m.audit_key e)
          then (n, false)
          else if link_broken prev e
          then (n, false)
          else rest
    ]

unfoldable pub verify_chain : MealLog → ℕ × Bool
unfolding verify_loop
verify_chain m = verify_loop capacity 0 m none 0

unfoldable pub entry_count : MealLog → ℕ
entry_count m = m.total

-- `log`: an event that finds the log locked is dropped.
unfoldable pub log : Bool → MealLog → ℕ → AuditEvent → ℕ → ℕ → ℕ → MealLog
unfolding append
log locked m ticks ev actor a b = if locked then m else (append m ticks ev actor a b).1
