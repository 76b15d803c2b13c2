-- ===== src/Ztdf.antt =====
-- kernel/src/ztdf.rs: what a driver may touch, and the checker that stops it at the first operation
-- outside of that.
pub mod Confined
mod Tests
use axiom_os.Base.{
  ltb, leb, ◌==◌, if◌then◌else◌, u32, u64, ℕ, ◌+◌, Bool, false, not, ◌&&◌, ◌||◌, Option, none, some,
  List, [], ◌∷◌,
}

pub record MmioRegion : Type 0 where
  pub start : ℕ
  pub len : ℕ

-- `start + len` is a sum of u64.
unfoldable pub contains : MmioRegion → ℕ → Bool
contains r addr = leb r.start addr && ltb addr (u64 (r.start + r.len))

pub record DriverSpec : Type 0 where
  pub driver_id : ℕ
  pub name : List ℕ
  pub mmio : List (Option MmioRegion)
  pub allowed_irqs : List (Option ℕ)
  pub allowed_syscalls : List (Option ℕ)
  pub op_budget : ℕ

-- `iter().flatten().any(p)`
unfoldable pub any_present {ℓ} : {A : Type ℓ} → (A → Bool) → List (Option A) → Bool
any_present p [] = false
any_present p (none ∷ xs) = any_present p xs
any_present p (some x ∷ xs) = p x || any_present p xs

unfoldable pub mmio_allowed : DriverSpec → ℕ → Bool
unfolding any_present
mmio_allowed s addr = any_present (λ r. contains r addr) s.mmio

unfoldable pub irq_allowed : DriverSpec → ℕ → Bool
unfolding any_present
irq_allowed s irq = any_present (λ i. i == irq) s.allowed_irqs

unfoldable pub syscall_allowed : DriverSpec → ℕ → Bool
unfolding any_present
syscall_allowed s nr = any_present (λ n. n == nr) s.allowed_syscalls

pub data DriverResult : Type 0 where
  ok : DriverResult
  fault_mmio : ℕ → DriverResult
  fault_irq : ℕ → DriverResult
  fault_syscall : ℕ → DriverResult
  stopped : DriverResult

pub record ZtdfChecker : Type 0 where
  pub spec : DriverSpec
  pub ops_done : ℕ

pub data DriverOp : Type 0 where
  mmio_read : ℕ → DriverOp
  mmio_write : ℕ → DriverOp
  handle_irq : ℕ → DriverOp
  syscall : ℕ → DriverOp
  exit : DriverOp

unfoldable pub new : DriverSpec → ZtdfChecker
new spec = record { spec = spec; ops_done = 0 }

-- The count of an operation that passed; a u32.
unfoldable pub done : ZtdfChecker → DriverResult × ZtdfChecker
done c = (ok, record c { ops_done = u32 (c.ops_done + 1) })

unfoldable pub step : ZtdfChecker → DriverOp → DriverResult × ZtdfChecker
unfolding done
step c (mmio_read addr) = if not (mmio_allowed c.spec addr) then (fault_mmio addr, c) else done c
step c (mmio_write addr) = if not (mmio_allowed c.spec addr) then (fault_mmio addr, c) else done c
step c (handle_irq irq) = if not (irq_allowed c.spec irq) then (fault_irq irq, c) else done c
step c (syscall nr) = if not (syscall_allowed c.spec nr) then (fault_syscall nr, c) else done c
step c exit = (stopped, c)

-- The loops of `run_demo`: step by step up to the first answer that is not `Ok`.
unfoldable pub run : ZtdfChecker → List DriverOp → DriverResult × ZtdfChecker
run c [] = (ok, c)
run c (op ∷ ops) = let r = step c op in let rest = run r.1 ops in elim (r.0) [ ok ↦ rest | _ ↦ r ]
