-- ===== src/Scheduler/Tests.antt =====
-- The scheduler's theorems applied to an idle task and two others.
use axiom_os.Base.{◌==◌, length, ℕ, zero, suc, ◌+◌, ◌*◌, ◌%◌, ◌<◌, ◌≡◌, refl, not, [], ◌∷◌, arith}
use axiom_os.Scheduler.{
  TaskState, ready, running, Task, Scheduler, task_at, is_ready, add_task, new_scba,
}
use axiom_os.Scheduler.Budget.{charges, charges_lem}
use axiom_os.Scheduler.RoundRobin.{WellFormed, ticks, ticks-current, add_task-WellFormed}

abbrev task : ℕ → TaskState → ℕ → Task
task id state budget = record {
  id = id;
  state = state;
  rsp = 100 + id;
  stack = [];
  scba = record {
    budget_max = budget;
    budget_consumed = 0;
    fence_count = 0;
    throttle_count = 0;
    epoch = 0;
  };
}

abbrev idle_only : Scheduler
idle_only = record {
  tasks = task 0 running 1000 ∷ [];
  current = 0;
  total_fences = 0;
  total_switches = 0;
}

idle_state : (i : ℕ) → i < 1 → is_ready (task_at (idle_only.tasks) i) ≡ not (i == 0)
unfolding is_ready
idle_state zero h = refl
idle_state (suc i) h = absurd (omega arith)

idle_formed : WellFormed idle_only
idle_formed = record { current_inside = omega arith; states = idle_state }

abbrev three : Scheduler
three = record {
  tasks = task 0 running 1000 ∷ task 1 ready 2 ∷ task 2 ready 3 ∷ [];
  current = 0;
  total_fences = 0;
  total_switches = 0;
}

three_formed : WellFormed three
unfolding add_task is_ready
three_formed =
    add_task-WellFormed (add_task idle_only (task 1 ready 2)) (task 2 ready 3)
      (add_task-WellFormed idle_only (task 1 ready 2) idle_formed refl) refl

ticks-current_example :
    WellFormed (ticks 4 three)
    × (length (ticks 4 three).tasks ≡ length three.tasks)
    × ((ticks 4 three).current ≡ (three.current + 4) % length three.tasks)
ticks-current_example = ticks-current 4 three three_formed (omega arith)

charges_lem_example :
    ((charges 7 (task 1 ready 3)).scba.fence_count * 3
        + (charges 7 (task 1 ready 3)).scba.budget_consumed
      ≡ 7)
    × ((charges 7 (task 1 ready 3)).scba.budget_consumed < 3)
    × ((charges 7 (task 1 ready 3)).scba.budget_max ≡ 3)
    × ((charges 7 (task 1 ready 3)).scba.epoch ≡ (charges 7 (task 1 ready 3)).scba.fence_count)
unfolding new_scba
charges_lem_example =
    charges_lem 7 3 (task 1 ready 3) (omega arith) (omega arith) (omega arith) refl
