-- ===== src/Ztdf/Confined.antt =====
-- A driver is confined to its specification.
use native.Mathlib.Nat.{mod-eq_of_lt}
use axiom_os.Base.{
  ◌==◌, if◌then◌else◌, ==_iff, Bool-cases, some-injective, get_elem?, u32, u64, ℕ, zero, suc, ◌+◌,
  ◌^◌, ◌≤◌, ◌<◌, ◌≡◌, refl, sym, ap, subst, ◌∙◌, ◌≢◌, ◌↔◌, ◌⊎◌, inl, inr, Bool, true, false, not,
  ◌||◌, Option, none, some, List, [], ◌∷◌, arith,
}
use axiom_os.Ztdf.{
  MmioRegion, contains, DriverSpec, any_present, mmio_allowed, irq_allowed, syscall_allowed,
  DriverResult, ok, fault_mmio, fault_irq, fault_syscall, stopped, ZtdfChecker, DriverOp, mmio_read,
  mmio_write, handle_irq, syscall, exit, done, step,
}

-- Some entry of a table has the property `P`.
abbrev pub Listed {ℓ κ} : {A : Type ℓ} → (A → Type κ) → List (Option A) → Type (ℓ ⊔ κ)
Listed {A = A} P xs = (i : ℕ) × (x : A) × (get_elem? xs i ≡ some (some x)) × P x

none-some {ℓ} : {A : Type ℓ} {x : A} → none ≢ some x
none-some e = ground arith

or_true : (b : Bool) → (b || true) ≡ true
or_true true = refl
or_true false = refl

any_present_iff {ℓ κ} :
    {A : Type ℓ} (p : A → Bool) (P : A → Type κ) (xs : List (Option A))
    → ((x : A) → (p x ≡ true) ↔ P x)
    → (any_present p xs ≡ true) ↔ Listed P xs
unfolding any_present
any_present_iff p P [] f = (λ e. absurd (ground arith), λ l. absurd (ground (arith, l.2)))
any_present_iff {A = A} p P (none ∷ xs) f = (
  λ e. let l = (any_present_iff p P xs f).0 e in (suc l.0, l.1, l.2, l.3),
  λ l. (any_present_iff p P xs f).1 (tail l.0 l.1 l.2 l.3),
)
  where
    tail : (i : ℕ) (x : A) → get_elem? (none ∷ xs) i ≡ some (some x) → P x → Listed P xs
    tail zero x e q = absurd (none-some (some-injective e))
    tail (suc i) x e q = (i, x, e, q)
any_present_iff {A = A} p P (some x ∷ xs) f = (
  λ e. elim (Bool-cases (p x)) [
    | inl here ↦ (0, x, refl, (f x).0 here)
    | inr there ↦
        let l = (any_present_iff p P xs f).0 (ap (λ b. b || any_present p xs) (sym there) ∙ e) in
        (suc l.0, l.1, l.2, l.3)
  ],
  λ l. found (any_present_iff p P xs f).1 l.0 l.1 l.2 l.3,
)
  where
    found :
        (Listed P xs → any_present p xs ≡ true)
        → (i : ℕ) (y : A) → get_elem? (some x ∷ xs) i ≡ some (some y)
        → P y
        → (p x || any_present p xs) ≡ true
    found rest zero y e q =
        ap (λ b. b || any_present p xs)
          ((f x).1 (subst P (sym (some-injective (some-injective e))) q))
    found rest (suc i) y e q = rw (rest (i, y, e, q)) (or_true (p x))

-- What a specification permits: an access to an address inside a region of its table, a listed interrupt,
-- a listed system call.
abbrev pub Inside : ℕ → MmioRegion → Type 0
Inside addr r = (r.start ≤ addr) × (addr < r.start + r.len)

abbrev pub Permitted : DriverSpec → DriverOp → Type 0
Permitted s (mmio_read addr) = Listed (Inside addr) s.mmio
Permitted s (mmio_write addr) = Listed (Inside addr) s.mmio
Permitted s (handle_irq irq) = Listed (λ i. i ≡ irq) s.allowed_irqs
Permitted s (syscall nr) = Listed (λ n. n ≡ nr) s.allowed_syscalls
Permitted s exit = ⊥

-- The regions end below 2 ^ 64.
abbrev pub NoWrap : DriverSpec → Type 0
NoWrap s = (i : ℕ) (r : MmioRegion) → get_elem? s.mmio i ≡ some (some r) → r.start + r.len < 2 ^ 64

mmio_allowed_iff :
    (s : DriverSpec) (addr : ℕ)
    → NoWrap s
    → (mmio_allowed s addr ≡ true) ↔ Listed (Inside addr) s.mmio
unfolding mmio_allowed contains
mmio_allowed_iff s addr wrap =
    let both =
      any_present_iff (λ r. contains r addr)
        (λ r. (r.start ≤ addr) × (addr < u64 (r.start + r.len))) s.mmio
        (λ r. (λ e. ground arith, λ q. let q0 = q.0 in let q1 = q.1 in ground arith)) in
    (
      λ e.
          let l = both.0 e in
          (l.0, l.1, l.2, (l.3.0, subst (λ n. addr < n) (mod-eq_of_lt (wrap l.0 l.1 l.2)) l.3.1)),
      λ l. both.1 (
        l.0,
        l.1,
        l.2,
        (l.3.0, subst (λ n. addr < n) (sym (mod-eq_of_lt (wrap l.0 l.1 l.2))) l.3.1),
      ),
    )

irq_allowed_iff :
    (s : DriverSpec) (irq : ℕ) → (irq_allowed s irq ≡ true) ↔ Listed (λ i. i ≡ irq) s.allowed_irqs
unfolding irq_allowed
irq_allowed_iff s irq =
    any_present_iff (λ i. i == irq) (λ i. i ≡ irq) s.allowed_irqs (λ i. ==_iff i irq)

syscall_allowed_iff :
    (s : DriverSpec) (nr : ℕ)
    → (syscall_allowed s nr ≡ true) ↔ Listed (λ n. n ≡ nr) s.allowed_syscalls
unfolding syscall_allowed
syscall_allowed_iff s nr =
    any_present_iff (λ n. n == nr) (λ n. n ≡ nr) s.allowed_syscalls (λ n. ==_iff n nr)

-- What a step answers to an operation that the specification does not permit.
abbrev pub refusal : DriverOp → DriverResult
refusal (mmio_read addr) = fault_mmio addr
refusal (mmio_write addr) = fault_mmio addr
refusal (handle_irq irq) = fault_irq irq
refusal (syscall nr) = fault_syscall nr
refusal exit = stopped

guarded :
    (c : ZtdfChecker) (b : Bool) (P : Type 0) (r : DriverResult)
    → (b ≡ true) ↔ P
    → (P
        × ((if not b then (r, c) else done c) ≡ (ok, record c { ops_done = u32 (c.ops_done + 1) })))
      ⊎ (¬ P × ((if not b then (r, c) else done c) ≡ (r, c)))
unfolding done
guarded c true P r iff = inl (iff.0 refl, refl)
guarded c false P r iff = inr (λ p. absurd (let e = iff.1 p in ground arith), refl)

-- A step of the checker lets an operation through, and counts it, exactly when the specification
-- permits it; otherwise it names the fault (or the exit) and changes nothing.
pub step-cases :
    (c : ZtdfChecker) (op : DriverOp)
    → NoWrap c.spec
    → (Permitted c.spec op × (step c op ≡ (ok, record c { ops_done = u32 (c.ops_done + 1) })))
      ⊎ (¬ Permitted c.spec op × (step c op ≡ (refusal op, c)))
unfolding step
step-cases c (mmio_read addr) wrap =
    guarded c (mmio_allowed c.spec addr) _ (fault_mmio addr) (mmio_allowed_iff c.spec addr wrap)
step-cases c (mmio_write addr) wrap =
    guarded c (mmio_allowed c.spec addr) _ (fault_mmio addr) (mmio_allowed_iff c.spec addr wrap)
step-cases c (handle_irq irq) wrap =
    guarded c (irq_allowed c.spec irq) _ (fault_irq irq) (irq_allowed_iff c.spec irq)
step-cases c (syscall nr) wrap =
    guarded c (syscall_allowed c.spec nr) _ (fault_syscall nr) (syscall_allowed_iff c.spec nr)
step-cases c exit wrap = inr (λ p. p, refl)

-- `Runs s ops passed r`: of the operations `ops` exactly the first `passed` are permitted and carried
-- out, and the next one, if there is one, is not permitted and gives the result `r`.
pub data Runs (s : DriverSpec) : List DriverOp → ℕ → DriverResult → Type 0 where
  finished : Runs s [] 0 ok
  refused :
      {op : DriverOp} {ops : List DriverOp} → ¬ Permitted s op → Runs s (op ∷ ops) 0 (refusal op)
  passed :
      {op : DriverOp} {ops : List DriverOp} {n : ℕ} {r : DriverResult}
      → Permitted s op
      → Runs s ops n r
      → Runs s (op ∷ ops) (suc n) r
