-- ===== src/Kernel.antt =====
-- kernel/src/syscall.rs, the exit of kernel/src/user.rs and the handlers of kernel/src/interrupts.rs: the
-- state that the kernel keeps while a user program runs, and what each entry into it does.
pub mod Handled
pub mod Audit
pub mod Fences
mod Tests
use axiom_os.Base.{
  ltb, ◌==◌, if◌then◌else◌, u64, ℕ, ◌+◌, ◌-◌, ◌^◌, Bool, true, Option, none, List, [], ◌∷◌,
}
use axiom_os.Meal.{AuditEvent, MealLog, syscall_dispatched, process_exited, log}
use axiom_os.Scheduler.{Scheduler, prepare_switch}

-- A signed word: `negsuc n` is -(n + 1).
pub data ℤ : Type 0 where
  pos : ℕ → ℤ
  negsuc : ℕ → ℤ

-- `x as i64` of a u64
unfoldable pub as_i64 : ℕ → ℤ
as_i64 x = if ltb x (2 ^ 63) then pos x else negsuc (2 ^ 64 - 1 - x)

pub record Kernel : Type 0 where
  pub meal : MealLog
  pub scheduler : Scheduler
  pub ticks : ℕ
  pub syscall_count : ℕ
  pub last_syscall_nr : ℕ
  pub last_syscall_ret : ℤ
  pub user_exited : Bool
  pub halted : Bool

-- Which locks are held elsewhere when the kernel is entered; both are only tried.
pub record Locks : Type 0 where
  pub meal_held : Bool
  pub scheduler_held : Bool

-- `meal::log`, which reads the clock.
unfoldable pub log_event : Locks → Kernel → AuditEvent → ℕ → ℕ → ℕ → Kernel
log_event l k ev actor a b = record k { meal = log l.meal_held k.meal k.ticks ev actor a b }

unfoldable pub notify_exit : Locks → Kernel → ℕ → Kernel
notify_exit l k code = record (log_event l k process_exited 3 code 0) { user_exited = true }

-- The `match nr`: the value to return, and the kernel's state.
unfoldable pub dispatch : Locks → Kernel → ℕ → ℕ → ℤ × Kernel
unfolding as_i64
dispatch l k nr arg1 =
    if nr == 0
    then (pos 0, k)
    else if nr == 9
    then (if l.scheduler_held then negsuc 0 else as_i64 k.scheduler.total_fences, k)
    else if nr == 11
    then (pos 0, notify_exit l k arg1)
    else (negsuc 37, k)

unfoldable pub syscall_dispatch : Locks → Kernel → ℕ → ℕ → ℤ × Kernel
syscall_dispatch l k nr arg1 =
    let counted = record k { syscall_count = u64 (k.syscall_count + 1); last_syscall_nr = nr } in
    let r = dispatch l (log_event l counted syscall_dispatched 3 nr 0) nr arg1 in
    (r.0, record (r.1) { last_syscall_ret = r.0 })

-- The timer: the switch that `perform_switch` is given, if there is one.
unfoldable pub timer_interrupt : Locks → Kernel → Option (ℕ × ℕ × Bool) × Kernel
timer_interrupt l k =
    let ticked = record k { ticks = u64 (k.ticks + 1) } in
    let r = prepare_switch k.scheduler in
    if l.scheduler_held then (none, ticked) else (r.0, record ticked { scheduler = r.1 })

-- A double fault halts; one of the user's is logged before.
unfoldable pub double_fault : Locks → Kernel → Bool → Kernel
double_fault l k from_user =
    record (if from_user then log_event l k process_exited 3 0xff 0 else k) { halted = true }

-- An entry into the kernel. A page fault or a general protection fault only prints and halts.
pub data Entry : Type 0 where
  syscall : ℕ → ℕ → Entry
  timer : Entry
  breakpoint : Entry
  fault : Entry
  double : Bool → Entry

unfoldable pub handle : Locks → Kernel → Entry → Kernel
handle l k (syscall nr arg1) = (syscall_dispatch l k nr arg1).1
handle l k timer = (timer_interrupt l k).1
handle l k breakpoint = k
handle l k fault = record k { halted = true }
handle l k (double from_user) = double_fault l k from_user

-- A sequence of entries; a halted kernel takes no more.
unfoldable pub run : Kernel → List (Locks × Entry) → Kernel
run k [] = k
run k ((l, e) ∷ rest) = let after = run (handle l k e) rest in if k.halted then k else after
