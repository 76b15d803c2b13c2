-- ===== src/Meal/Verify.antt =====
-- `verify_chain` read as a statement about the entries, oldest first.
use axiom_os.Base.{
  if◌then◌else◌, ==_iff, length, get_or, drop, All, drop_all, drop_step, rotate, length-rotate,
  get_or-rotate, ℕ, zero, suc, ◌+◌, ◌%◌, ◌<◌, ◌≡◌, refl, sym, ap, ◌∙◌, ◌↔◌, Bool, true, false, not,
  Option, none, some, List, [], ◌∷◌, arith,
}
use axiom_os.Base.Bytes.{same_bytes_iff}
use axiom_os.Crypto.Hmac.{hmac_sha256, length-hmac_sha256}
use axiom_os.Crypto.ConstTime.{ct_diff_iff}
use axiom_os.Meal.{
  AuditEntry, MealLog, auth_bytes, self_hash, verify_entry, link_broken, verify_loop, verify_chain,
}

-- The slots of the ring in the order in which `verify_chain` reads them.
abbrev pub slots : MealLog → List (Option AuditEntry)
slots m = rotate m.entries m.write_head

-- The arrays of the log have the lengths that their types give them.
abbrev pub MacSized : Option AuditEntry → Type 0
MacSized none = Unit
MacSized (some e) = length e.mac ≡ 32

-- The MAC of an entry is the HMAC of its fields.
abbrev pub Authentic : List ℕ → AuditEntry → Type 0
Authentic key e = hmac_sha256 key (auth_bytes e) ≡ e.mac

abbrev pub Follows : Option (List ℕ) → AuditEntry → Type 0
Follows none e = Unit
Follows (some hash) e = e.prev_hash ≡ hash

-- Each entry is authentic and has the hash of the entry before it.
abbrev pub Chained : List ℕ → List (Option AuditEntry) → Option (List ℕ) → Type 0
Chained key [] prev = Unit
Chained key (none ∷ s) prev = Chained key s prev
Chained key (some e ∷ s) prev =
    Authentic key e × Follows prev e × Chained key s (some (self_hash e))

abbrev pub present : List (Option AuditEntry) → ℕ
present [] = 0
present (none ∷ s) = present s
present (some e ∷ s) = 1 + present s

pub verify_slots : List ℕ → List (Option AuditEntry) → Option (List ℕ) → ℕ → ℕ × Bool
unfolding verify_entry link_broken self_hash
verify_slots key [] prev n = (n, true)
verify_slots key (none ∷ s) prev n = verify_slots key s prev n
verify_slots key (some e ∷ s) prev n =
    let rest = verify_slots key s (some (self_hash e)) (n + 1) in
    if not (verify_entry key e) then (n, false) else if link_broken prev e then (n, false) else rest

link_broken_iff :
    (prev : Option (List ℕ)) (e : AuditEntry) → (link_broken prev e ≡ false) ↔ Follows prev e
unfolding link_broken
link_broken_iff none e = (λ h. tt, λ h. refl)
link_broken_iff (some hash) e = (
  λ h. (same_bytes_iff e.prev_hash hash).0 (ground arith),
  λ h. rw ((same_bytes_iff e.prev_hash hash).1 h) refl,
)

pub verify_entry_iff :
    (key : List ℕ) (e : AuditEntry)
    → length e.mac ≡ 32
    → (verify_entry key e ≡ true) ↔ Authentic key e
unfolding verify_entry
verify_entry_iff key e sized =
    let agree =
      ct_diff_iff 32 (hmac_sha256 key (auth_bytes e)) e.mac (length-hmac_sha256 key (auth_bytes e))
        sized in
    (λ h. agree.0 ((==_iff _ 0).0 h), λ h. (==_iff _ 0).1 (agree.1 h))

-- A run over the slots succeeds exactly if they are chained, and then counts the entries.
verify_slots_iff :
    (key : List ℕ) (s : List (Option AuditEntry)) (prev : Option (List ℕ)) (n c : ℕ)
    → All MacSized s
    → (verify_slots key s prev n ≡ (c, true)) ↔ (Chained key s prev × (c ≡ n + present s))
unfolding verify_slots
verify_slots_iff key [] prev n c sized = (
  λ h. (tt, omega (arith, ap (λ p. p.0) h)),
  λ h. ap (λ k. (k, true)) {x = n} (omega (arith, h.1)),
)
verify_slots_iff key (none ∷ s) prev n c sized = verify_slots_iff key s prev n c sized.1
verify_slots_iff key (some e ∷ s) prev n c sized =
    let authentic = verify_entry_iff key e sized.0 in
    let linked = link_broken_iff prev e in
    let rest = verify_slots_iff key s (some (self_hash e)) (n + 1) c sized.1 in
    (
      λ h.
          let p = passes (verify_entry key e) (link_broken prev e) h in
          ((authentic.0 p.0, linked.0 p.1, (rest.0 p.2).0), omega (arith, (rest.0 p.2).1)),
      λ h. rw (authentic.1 h.0.0, linked.1 h.0.1) (rest.1 (h.0.2, omega (arith, h.1))),
    )
  where
    passes :
        {r : ℕ × Bool} (v b : Bool)
        → (if not v then (n, false) else if b then (n, false) else r) ≡ (c, true)
        → (v ≡ true) × (b ≡ false) × (r ≡ (c, true))
    passes true true h = absurd (let e : false ≡ true = ap (λ p. p.1) h in ground arith)
    passes true false h = (refl, refl, h)
    passes false b h = absurd (let e : false ≡ true = ap (λ p. p.1) h in ground arith)

verify_loop_lem :
    (k i : ℕ) (m : MealLog) (prev : Option (List ℕ)) (n : ℕ)
    → length m.entries ≡ 64
    → m.write_head < 64
    → i + k ≡ 64
    → verify_loop k i m prev n ≡ verify_slots m.audit_key (drop i (slots m)) prev n
unfolding verify_loop verify_slots
verify_loop_lem zero i m prev n sized inside e =
    rw (drop_all i (slots m) (omega (arith, length-rotate m.entries m.write_head))) refl
verify_loop_lem (suc k) i m prev n sized inside e =
    let found = get_or-rotate m.entries 64 m.write_head i none sized inside (omega arith) in
    let cut_here =
      drop_step (slots m) i none (omega (arith, length-rotate m.entries m.write_head)) in
    rw (cut_here, found)
      (go (get_or m.entries ((m.write_head + i) % 64) none)
        (λ p c. verify_loop_lem k (i + 1) m p c sized inside (omega arith)))
  where
    go :
        (o : Option AuditEntry)
        → ((p : Option (List ℕ)) (c : ℕ)
            → verify_loop k (i + 1) m p c ≡ verify_slots m.audit_key (drop (i + 1) (slots m)) p c)
        → (elim o [
          | none ↦ verify_loop k (i + 1) m prev n
          | some e ↦
              let rest = verify_loop k (i + 1) m (some (self_hash e)) (n + 1) in
              if not (verify_entry m.audit_key e)
              then (n, false)
              else if link_broken prev e
              then (n, false)
              else rest
        ])
          ≡ verify_slots m.audit_key (o ∷ drop (i + 1) (slots m)) prev n
    go none rest = rest prev n
    go (some e) rest = rw (rest (some (self_hash e)) (n + 1)) refl

-- `verify_chain` answers `(n, true)` exactly when every entry of the ring has the right MAC and the
-- hash of the entry before it, oldest first, and `n` is the number of entries.
pub verify_chain_iff :
    (m : MealLog) (n : ℕ)
    → length m.entries ≡ 64
    → m.write_head < 64
    → All MacSized (slots m)
    → (verify_chain m ≡ (n, true)) ↔ (Chained m.audit_key (slots m) none × (n ≡ present (slots m)))
unfolding verify_chain
verify_chain_iff m n sized inside macs =
    let run = verify_loop_lem 64 0 m none 0 sized inside (omega arith) in
    let both = verify_slots_iff m.audit_key (slots m) none 0 n macs in
    (
      λ h. let p = both.0 (sym run ∙ h) in (p.0, omega (arith, p.1)),
      λ h. run ∙ both.1 (h.0, omega (arith, h.1)),
    )
