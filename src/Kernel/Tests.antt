-- ===== src/Kernel/Tests.antt =====
-- The user program's calls with ticks in between, and the theorems applied to them.
use axiom_os.Base.{
  length, replicate, u64, ◌-◌, ◌^◌, ◌≡◌, refl, true, false, List, [], ◌∷◌, ◌++◌, arith,
}
use axiom_os.Crypto.Sha256.{sha256}
use axiom_os.Meal
use axiom_os.Meal.{log_initialised, boot_complete, verify_chain, genesis_label}
use axiom_os.Meal.Verify.{slots}
use axiom_os.Meal.History.{Input, append_all, history, last_entries}
use axiom_os.Scheduler
use axiom_os.Scheduler.{add_task, new_idle, new_scba}
use axiom_os.Scheduler.Ledger.{IsLedger, fences}
use axiom_os.Kernel.{
  pos, negsuc, Kernel, Locks, Entry, syscall, timer, double, run, syscall_dispatch, dispatch,
  as_i64,
}
use axiom_os.Kernel.Audit.{trail, run-audit}
use axiom_os.Kernel.Fences.{switches, run-query}

abbrev unlocked : Locks
unlocked = record { meal_held = false; scheduler_held = false }

abbrev idle_scheduler : Scheduler.Scheduler
idle_scheduler = add_task Scheduler.new (new_idle 0)

-- The first event and the last of the boot sequence.
abbrev boot_events : List Input
boot_events =
    record { ticks = 1; event = log_initialised; actor = 0; value_a = 0; value_b = 0 }
    ∷ record { ticks = 4; event = boot_complete; actor = 0; value_a = 0; value_b = 0 }
    ∷ []

abbrev started : Kernel
started = record {
  meal = append_all (Meal.new (replicate 32 1)) boot_events;
  scheduler = idle_scheduler;
  ticks = 5;
  syscall_count = 0;
  last_syscall_nr = 2 ^ 64 - 1;
  last_syscall_ret = pos 0;
  user_exited = false;
  halted = false;
}

-- Yield, a tick, ScbaQuery, Exit, a double fault, and a call that comes too late.
abbrev session : List (Locks × Entry)
session =
    (unlocked, syscall 0 0)
    ∷ (unlocked, timer)
    ∷ (unlocked, syscall 9 0)
    ∷ (unlocked, syscall 11 0)
    ∷ (unlocked, double true)
    ∷ (unlocked, syscall 0 0)
    ∷ []

five_events : length (trail 5 session) ≡ 5
five_events = refl

run-audit_example :
    (verify_chain (run started session).meal ≡ (7, true))
    × (slots (run started session).meal
        ≡ last_entries
            (history (replicate 32 1) 0 (sha256 genesis_label) (boot_events ++ trail 5 session)))
    × ((run started session).user_exited ≡ true)
run-audit_example = run-audit boot_events session started (replicate 32 1) refl refl refl

idle-IsLedger : IsLedger idle_scheduler
unfolding add_task new_idle Scheduler.new fences new_scba
idle-IsLedger = record { current_inside = omega arith; total = refl }

run-query_example :
    ((syscall_dispatch unlocked (run started session) 9 0).0
      ≡ as_i64 (u64 (fences (run started session).scheduler.tasks)))
    × ((run started session).scheduler ≡ switches 1 idle_scheduler)
run-query_example = run-query session started unlocked 0 refl idle-IsLedger

unknown_call : (syscall_dispatch unlocked started 7 0).0 ≡ negsuc 37
unfolding syscall_dispatch dispatch
unknown_call = refl
