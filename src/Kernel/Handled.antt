-- ===== src/Kernel/Handled.antt =====
-- What one entry into the kernel does to the log, the clock and the exit of the process.
use axiom_os.Base.{
  ◌==◌, if◌then◌else◌, Bool-cases, u64, ℕ, ◌+◌, ◌≡◌, refl, ap, ◌∙◌, inl, inr, Bool, true, false,
  ◌||◌, List, [], ◌∷◌, ◌++◌, arith,
}
use axiom_os.Meal.{AuditEvent, MealLog, syscall_dispatched, process_exited, log}
use axiom_os.Meal.History.{Input, append_all}
use axiom_os.Kernel.{
  Kernel, Locks, Entry, syscall, timer, breakpoint, fault, double, handle, log_event, dispatch,
  notify_exit, syscall_dispatch, timer_interrupt, double_fault,
}

-- An event of the user process, at a time.
abbrev pub user_event : ℕ → AuditEvent → ℕ → Input
user_event ticks ev a = record { ticks = ticks; event = ev; actor = 3; value_a = a; value_b = 0 }

-- What one entry logs when it finds the log free.
abbrev pub logged : ℕ → Entry → List Input
logged t (syscall nr arg1) =
    user_event t syscall_dispatched nr
    ∷ (if nr == 11 then user_event t process_exited arg1 ∷ [] else [])
logged t timer = []
logged t breakpoint = []
logged t fault = []
logged t (double from_user) = if from_user then user_event t process_exited 0xff ∷ [] else []

-- Whether an entry halts the kernel, and the clock after it.
abbrev pub halts : Entry → Bool
halts (syscall nr arg1) = false
halts timer = false
halts breakpoint = false
halts fault = true
halts (double from_user) = true

abbrev pub clock_after : ℕ → Entry → ℕ
clock_after t (syscall nr arg1) = t
clock_after t timer = u64 (t + 1)
clock_after t breakpoint = t
clock_after t fault = t
clock_after t (double from_user) = t

-- `SYSCALL 11`
abbrev pub is_exit : Entry → Bool
is_exit (syscall nr arg1) = nr == 11
is_exit timer = false
is_exit breakpoint = false
is_exit fault = false
is_exit (double from_user) = false

pub append_all-append :
    (xs ys : List Input) (m : MealLog) → append_all m (xs ++ ys) ≡ append_all (append_all m xs) ys
append_all-append [] ys m = refl
append_all-append (x ∷ xs) ys m = append_all-append xs ys _

log_event-meal :
    (l : Locks) (k : Kernel) (ev : AuditEvent) (a : ℕ)
    → (log_event l k ev 3 a 0).meal
      ≡ append_all k.meal (if l.meal_held then [] else user_event k.ticks ev a ∷ [])
unfolding log_event log
log_event-meal l k ev a = elim (Bool-cases l.meal_held) [
  | inl held ↦ rw held refl
  | inr free ↦ rw free refl
]

-- Only the exit changes the kernel's state.
pub dispatch-state :
    (l : Locks) (k : Kernel) (nr arg1 : ℕ)
    → (dispatch l k nr arg1).1 ≡ (if nr == 11 then notify_exit l k arg1 else k)
unfolding dispatch
dispatch-state l k nr arg1 = ground arith

no_events : (held : Bool) (m : MealLog) → m ≡ append_all m (if held then [] else [])
no_events true m = refl
no_events false m = refl

one_then :
    (held : Bool) (m : MealLog) (i : Input) (is : List Input)
    → append_all (append_all m (if held then [] else i ∷ [])) (if held then [] else is)
      ≡ append_all m (if held then [] else i ∷ is)
one_then true m i is = refl
one_then false m i is = refl

-- What the exit of the user process logs, if the call is one.
abbrev exit_event : ℕ → ℕ → ℕ → List Input
exit_event t nr arg1 = if nr == 11 then user_event t process_exited arg1 ∷ [] else []

notify_exit-meal :
    (l : Locks) (k : Kernel) (code : ℕ)
    → (notify_exit l k code).meal
      ≡ append_all k.meal (if l.meal_held then [] else user_event k.ticks process_exited code ∷ [])
unfolding notify_exit
notify_exit-meal l k code = log_event-meal l k process_exited code

dispatch-meal :
    (l : Locks) (k : Kernel) (nr arg1 : ℕ)
    → (dispatch l k nr arg1).1.meal
      ≡ append_all k.meal (if l.meal_held then [] else exit_event k.ticks nr arg1)
dispatch-meal l k nr arg1 = elim (Bool-cases (nr == 11)) [
  | inl exit ↦
      let e : (dispatch l k nr arg1).1 ≡ notify_exit l k arg1 =
        dispatch-state l k nr arg1 ∙ rw exit refl in
      rw (e, exit) (notify_exit-meal l k arg1)
  | inr other ↦
      let e : (dispatch l k nr arg1).1 ≡ k = dispatch-state l k nr arg1 ∙ rw other refl in
      rw (e, other) (no_events l.meal_held k.meal)
]

-- A call leaves the clock and the halt alone.
dispatch-rest :
    (l : Locks) (k : Kernel) (nr arg1 : ℕ)
    → ((dispatch l k nr arg1).1.ticks ≡ k.ticks)
      × ((dispatch l k nr arg1).1.halted ≡ k.halted)
      × ((dispatch l k nr arg1).1.user_exited ≡ (k.user_exited || (nr == 11)))
unfolding notify_exit log_event
dispatch-rest l k nr arg1 = elim (Bool-cases (nr == 11)) [
  | inl exit ↦
      let e : (dispatch l k nr arg1).1 ≡ notify_exit l k arg1 =
        dispatch-state l k nr arg1 ∙ rw exit refl in
      rw (e, exit) (refl, refl, ground arith)
  | inr other ↦
      let e : (dispatch l k nr arg1).1 ≡ k = dispatch-state l k nr arg1 ∙ rw other refl in
      rw (e, other) (refl, refl, ground arith)
]

-- One entry, seen from the log, the clock, the halt and the user process.
pub record Handled (k : Kernel) (l : Locks) (e : Entry) : Type 0 where
  pub meal : (handle l k e).meal ≡ append_all k.meal (if l.meal_held then [] else logged k.ticks e)
  pub ticks : (handle l k e).ticks ≡ clock_after k.ticks e
  pub halted : (handle l k e).halted ≡ (halts e || k.halted)
  pub exited : (handle l k e).user_exited ≡ (k.user_exited || is_exit e)

pub or_false : (b : Bool) → b ≡ (b || false)
or_false true = refl
or_false false = refl

pub handle-Handled : (k : Kernel) (l : Locks) (e : Entry) → Handled k l e
unfolding handle syscall_dispatch timer_interrupt double_fault log_event
handle-Handled k l (syscall nr arg1) =
    let counted : Kernel = record k {
      syscall_count = u64 (k.syscall_count + 1);
      last_syscall_nr = nr;
    } in
    let entered : Kernel = log_event l counted syscall_dispatched 3 nr 0 in
    let rest = dispatch-rest l entered nr arg1 in
    record {
      meal =
          dispatch-meal l entered nr arg1
          ∙ ap (λ m. append_all m (if l.meal_held then [] else exit_event k.ticks nr arg1))
              (log_event-meal l counted syscall_dispatched nr)
          ∙ one_then l.meal_held k.meal (user_event k.ticks syscall_dispatched nr)
              (exit_event k.ticks nr arg1);
      ticks = rest.0;
      halted = rest.1;
      exited = rest.2;
    }
handle-Handled k l timer = elim (Bool-cases l.scheduler_held) [
  | inl held ↦ record {
    meal = rw held (no_events l.meal_held k.meal);
    ticks = rw held refl;
    halted = rw held refl;
    exited = rw held (or_false k.user_exited);
  }
  | inr free ↦ record {
    meal = rw free (no_events l.meal_held k.meal);
    ticks = rw free refl;
    halted = rw free refl;
    exited = rw free (or_false k.user_exited);
  }
]
handle-Handled k l breakpoint = record {
  meal = no_events l.meal_held k.meal;
  ticks = refl;
  halted = refl;
  exited = or_false k.user_exited;
}
handle-Handled k l fault = record {
  meal = no_events l.meal_held k.meal;
  ticks = refl;
  halted = refl;
  exited = or_false k.user_exited;
}
handle-Handled k l (double true) = record {
  meal = log_event-meal l k process_exited 0xff;
  ticks = refl;
  halted = refl;
  exited = or_false k.user_exited;
}
handle-Handled k l (double false) = record {
  meal = no_events l.meal_held k.meal;
  ticks = refl;
  halted = refl;
  exited = or_false k.user_exited;
}
