-- ===== src/Meal/Encoding.antt =====
-- The bytes under an entry's MAC: their layout, and that they determine every field.
use axiom_os.Base.{
  ◌==◌, if◌then◌else◌, length, replicate, overwrite, length-append, length-replicate,
  overwrite_to_end, overwrite-overwrite, append-injective, overwrite-replicate_more, ℕ, ◌+◌, ◌^◌,
  ◌<◌, ◌≡◌, refl, sym, ap, ◌∙◌, List, ◌++◌, append_assoc, arith,
}
use axiom_os.Base.Bytes.{to_le, length-to_le, to_le-injective}
use axiom_os.Meal.{
  AuditEvent, log_initialised, capability_derived, capability_expired, process_created,
  process_exited, eipc_send, eipc_receive, syscall_dispatched, scba_fence_fired, driver_loaded,
  driver_fault_mmio, driver_fault_syscall, driver_stopped, lattice_reconfigured, memory_zeroed,
  boot_complete, event_code, AuditEntry, auth_bytes,
}

-- sequence (8) | timestamp (8) | event (2) | 0 (6) | actor (4) | 0 (4) | value_a (8) | value_b (8)
-- | prev_hash (32)
abbrev pub layout : AuditEntry → List ℕ
layout e =
    to_le 8 e.sequence
    ++ (to_le 8 e.timestamp
        ++ (to_le 2 (event_code e.event_type)
            ++ (replicate 6 0
                ++ (to_le 4 e.actor
                    ++ (replicate 4 0
                        ++ (to_le 8 e.value_a ++ (to_le 8 e.value_b ++ e.prev_hash)))))))

-- Writing the next field over the zeros, at the place where the last one ended.
next :
    (xs ys : List ℕ) (i : ℕ)
    → length xs ≡ i
    → overwrite (overwrite (replicate 80 0) 0 xs) i ys ≡ overwrite (replicate 80 0) 0 (xs ++ ys)
next xs ys i e = overwrite-overwrite (replicate 80 0) 0 i xs ys (omega arith)

gap :
    (xs ys : List ℕ) (p i : ℕ)
    → length xs + p ≡ i
    → overwrite (overwrite (replicate 80 0) 0 xs) i ys
      ≡ overwrite (replicate 80 0) 0 ((xs ++ replicate p 0) ++ ys)
gap xs ys p i e =
    ap (λ l. overwrite l i ys) (overwrite-replicate_more 80 p 0 xs)
    ∙ next (xs ++ replicate p 0) ys i
        (omega (arith, length-append xs (replicate p 0), length-replicate {A = ℕ} p 0))

fields :
    (a b c d e f g : List ℕ)
    → length a ≡ 8
    → length b ≡ 8
    → length c ≡ 2
    → length d ≡ 4
    → length e ≡ 8
    → length f ≡ 8
    → length g ≡ 32
    → overwrite
        (overwrite
          (overwrite
            (overwrite (overwrite (overwrite (overwrite (replicate 80 0) 0 a) 8 b) 16 c) 24 d)
            32
            e)
          40
          f)
        48
        g
      ≡ ((((((((a ++ b) ++ c) ++ replicate 6 0) ++ d) ++ replicate 4 0) ++ e) ++ f) ++ g)
fields a b c d e f g la lb lc ld le lf lg =
    let ab = a ++ b in
    let abc = ab ++ c in
    let d1 = (abc ++ replicate 6 0) ++ d in
    let e1 = (d1 ++ replicate 4 0) ++ e in
    let f1 = e1 ++ f in
    let l2 = length-append a b in
    let l3 = length-append ab c in
    let l4 = length-append abc (replicate 6 0) in
    let l5 = length-append (abc ++ replicate 6 0) d in
    let l6 = length-append d1 (replicate 4 0) in
    let l7 = length-append (d1 ++ replicate 4 0) e in
    let l8 = length-append e1 f in
    let l9 = length-append f1 g in
    rw
      (
        next a b 8 la,
        next ab c 16 (omega (arith, l2)),
        gap abc d 6 24 (omega (arith, l2, l3)),
        gap d1 e 4 32 (omega (arith, l2, l3, l4, l5)),
        next e1 f 40 (omega (arith, l2, l3, l4, l5, l6, l7)),
        next f1 g 48 (omega (arith, l2, l3, l4, l5, l6, l7, l8)),
      )
      (overwrite_to_end (replicate 80 0) 0 (f1 ++ g)
        (omega (arith, l2, l3, l4, l5, l6, l7, l8, l9)))

auth_bytes_lem : (e : AuditEntry) → length e.prev_hash ≡ 32 → auth_bytes e ≡ layout e
unfolding auth_bytes
auth_bytes_lem e sized =
    fields (to_le 8 e.sequence) (to_le 8 e.timestamp) (to_le 2 (event_code e.event_type))
      (to_le 4 e.actor) (to_le 8 e.value_a) (to_le 8 e.value_b) e.prev_hash
      (length-to_le 8 e.sequence) (length-to_le 8 e.timestamp)
      (length-to_le 2 (event_code e.event_type)) (length-to_le 4 e.actor) (length-to_le 8 e.value_a)
      (length-to_le 8 e.value_b) sized
    ∙ simp (append_assoc) refl

event_of : ℕ → AuditEvent
event_of n =
    if n == 0x0
    then log_initialised
    else if n == 0x1
    then capability_derived
    else if n == 0x2
    then capability_expired
    else if n == 0x100
    then process_created
    else if n == 0x101
    then process_exited
    else if n == 0x200
    then eipc_send
    else if n == 0x201
    then eipc_receive
    else if n == 0x300
    then syscall_dispatched
    else if n == 0x500
    then scba_fence_fired
    else if n == 0x400
    then driver_loaded
    else if n == 0x401
    then driver_fault_mmio
    else if n == 0x402
    then driver_fault_syscall
    else if n == 0x404
    then driver_stopped
    else if n == 0x600
    then lattice_reconfigured
    else if n == 0x700
    then memory_zeroed
    else boot_complete

event_of-event_code : (e : AuditEvent) → event_of (event_code e) ≡ e
unfolding event_of event_code
event_of-event_code log_initialised = refl
event_of-event_code capability_derived = refl
event_of-event_code capability_expired = refl
event_of-event_code process_created = refl
event_of-event_code process_exited = refl
event_of-event_code eipc_send = refl
event_of-event_code eipc_receive = refl
event_of-event_code syscall_dispatched = refl
event_of-event_code scba_fence_fired = refl
event_of-event_code driver_loaded = refl
event_of-event_code driver_fault_mmio = refl
event_of-event_code driver_fault_syscall = refl
event_of-event_code driver_stopped = refl
event_of-event_code lattice_reconfigured = refl
event_of-event_code memory_zeroed = refl
event_of-event_code boot_complete = refl

event_code-small : (e : AuditEvent) → event_code e < 2 ^ 16
unfolding event_code
event_code-small e = ground arith

-- An entry as the source's types allow it.
pub record IsTyped (e : AuditEntry) : Type 0 where
  pub sequence_range : e.sequence < 2 ^ 64
  pub timestamp_range : e.timestamp < 2 ^ 64
  pub actor_range : e.actor < 2 ^ 32
  pub a_range : e.value_a < 2 ^ 64
  pub b_range : e.value_b < 2 ^ 64
  pub hash_length : length e.prev_hash ≡ 32
  pub mac_length : length e.mac ≡ 32

same_field :
    (n x y : ℕ) (us vs : List ℕ)
    → x < 256 ^ n
    → y < 256 ^ n
    → to_le n x ++ us ≡ to_le n y ++ vs
    → (x ≡ y) × (us ≡ vs)
same_field n x y us vs p q h =
    let s =
      append-injective (to_le n x) (to_le n y) us vs (length-to_le n x ∙ sym (length-to_le n y))
        h in
    (to_le-injective n x y p q s.0, s.1)

-- Two entries with the same authenticated bytes agree in every field but the MAC itself.
pub auth_bytes-fields :
    (e f : AuditEntry)
    → IsTyped e
    → IsTyped f
    → auth_bytes e ≡ auth_bytes f
    → (e.sequence ≡ f.sequence)
      × (e.timestamp ≡ f.timestamp)
      × (e.event_type ≡ f.event_type)
      × (e.actor ≡ f.actor)
      × (e.value_a ≡ f.value_a)
      × (e.value_b ≡ f.value_b)
      × (e.prev_hash ≡ f.prev_hash)
auth_bytes-fields e f te tf h =
    let whole = sym (auth_bytes_lem e te.hash_length) ∙ h ∙ auth_bytes_lem f tf.hash_length in
    let s1 = same_field 8 e.sequence f.sequence _ _ te.sequence_range tf.sequence_range whole in
    let s2 = same_field 8 e.timestamp f.timestamp _ _ te.timestamp_range tf.timestamp_range s1.1 in
    let s3 =
      same_field 2 (event_code e.event_type) (event_code f.event_type) _ _
        (event_code-small e.event_type) (event_code-small f.event_type) s2.1 in
    let z1 = append-injective (replicate 6 0) (replicate 6 0) _ _ refl s3.1 in
    let s4 = same_field 4 e.actor f.actor _ _ te.actor_range tf.actor_range z1.1 in
    let z2 = append-injective (replicate 4 0) (replicate 4 0) _ _ refl s4.1 in
    let s5 = same_field 8 e.value_a f.value_a _ _ te.a_range tf.a_range z2.1 in
    let s6 = same_field 8 e.value_b f.value_b _ _ te.b_range tf.b_range s5.1 in
    (
      s1.0,
      s2.0,
      sym (event_of-event_code e.event_type) ∙ ap event_of s3.0 ∙ event_of-event_code f.event_type,
      s4.0,
      s5.0,
      s6.0,
      s6.1,
    )
