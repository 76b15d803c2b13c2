-- ===== src/Scheduler.antt =====
-- kernel/src/task.rs and kernel/src/scheduler.rs: tasks with a side-channel budget, and the round-robin
-- scheduler that charges it on every tick.
pub mod Budget
pub mod RoundRobin
pub mod Ledger
mod Tests
use axiom_os.Base.{
  ltb, leb, ◌==◌, if◌then◌else◌, length, get_or, set, replicate, overwrite, u64, ℕ, zero, suc, ◌+◌,
  ◌-◌, ◌%◌, ◌^◌, Bool, true, false, Option, none, some, List, [], ◌∷◌, ◌++◌,
}
use axiom_os.Base.Bytes.{to_le}

pub data TaskState : Type 0 where
  ready : TaskState
  running : TaskState

pub record ScbaState : Type 0 where
  pub budget_max : ℕ
  pub budget_consumed : ℕ
  pub fence_count : ℕ
  pub throttle_count : ℕ
  pub epoch : ℕ

unfoldable pub new_scba : ℕ → ScbaState
new_scba budget_max = record {
  budget_max = budget_max;
  budget_consumed = 0;
  fence_count = 0;
  throttle_count = 0;
  epoch = 0;
}

unfoldable pub tick : ScbaState → Bool × ScbaState
tick s =
    let consumed = u64 (s.budget_consumed + 1) in
    (leb s.budget_max consumed, record s { budget_consumed = consumed })

unfoldable pub reset_epoch : ScbaState → ScbaState
reset_epoch s = record s {
  budget_consumed = 0;
  fence_count = u64 (s.fence_count + 1);
  epoch = u64 (s.epoch + 1);
}

pub record Task : Type 0 where
  pub id : ℕ
  pub state : TaskState
  pub rsp : ℕ
  pub stack : List ℕ
  pub scba : ScbaState

-- `InitCtx`: six zero registers, the flags, and the entry point, as 64-bit words.
unfoldable pub init_ctx : ℕ → List ℕ
init_ctx entry = replicate 48 0 ++ (to_le 8 0x200 ++ to_le 8 entry)

-- `stack_ptr` is where the allocator put the stack, of `stack_size` zero bytes. The context is written
-- 64 + 128 bytes below its top.
unfoldable pub new_with_budget : ℕ → ℕ → ℕ → ℕ → ℕ → Task
unfolding init_ctx new_scba
new_with_budget stack_ptr id entry stack_size budget_max =
    let stack_top = stack_ptr + stack_size in
    let ctx_ptr = stack_top - 64 - 128 in
    record {
      id = id;
      state = ready;
      rsp = ctx_ptr;
      stack = overwrite (replicate stack_size 0) (ctx_ptr - stack_ptr) (init_ctx entry);
      scba = new_scba budget_max;
    }

-- The idle task runs on the boot stack; its budget is `u64::MAX`.
unfoldable pub new_idle : ℕ → Task
unfolding new_scba
new_idle id = record {
  id = id;
  state = running;
  rsp = 0;
  stack = replicate 4096 0;
  scba = new_scba (2 ^ 64 - 1);
}

pub record Scheduler : Type 0 where
  pub tasks : List Task
  pub current : ℕ
  pub total_fences : ℕ
  pub total_switches : ℕ

unfoldable pub new : Scheduler
new = record { tasks = []; current = 0; total_fences = 0; total_switches = 0 }

unfoldable pub add_task : Scheduler → Task → Scheduler
add_task s task = record s { tasks = s.tasks ++ (task ∷ []) }

unfoldable pub task_count : Scheduler → ℕ
task_count s = length s.tasks

-- What an index past the last task reads; the source panics there.
abbrev pub no_task : Task
no_task = record {
  id = 0;
  state = running;
  rsp = 0;
  stack = [];
  scba = record {
    budget_max = 0;
    budget_consumed = 0;
    fence_count = 0;
    throttle_count = 0;
    epoch = 0;
  };
}

abbrev pub task_at : List Task → ℕ → Task
task_at ts i = get_or ts i no_task

unfoldable pub is_ready : Task → Bool
is_ready t = elim (t.state) [ ready ↦ true | running ↦ false ]

-- The loop that looks for a ready task, from `next`; at most `fuel` turns.
unfoldable pub find_ready : ℕ → List Task → ℕ → ℕ → Option ℕ
unfolding is_ready
find_ready zero ts next start = none
find_ready (suc fuel) ts next start =
    let after = (next + 1) % length ts in
    let rest = find_ready fuel ts after start in
    if is_ready (task_at ts next) then some next else if after == start then none else rest

-- The task's part of the accounting: its budget is ticked, and reset when it is exhausted.
unfoldable pub charge : Task → Bool × Task
unfolding tick reset_epoch
charge t =
    let r = tick t.scba in
    if r.0 then (true, record t { scba = reset_epoch r.1 }) else (false, record t { scba = r.1 })

-- `prepare_switch`: the index of the task whose stack pointer is saved (for `old_rsp_ptr`), the new stack
-- pointer, and whether a fence is due.
unfoldable pub prepare_switch : Scheduler → Option (ℕ × ℕ × Bool) × Scheduler
unfolding find_ready charge
prepare_switch s =
    let n = length s.tasks in
    let old_idx = s.current in
    let charged = charge (task_at s.tasks old_idx) in
    let fences = if charged.0 then u64 (s.total_fences + 1) else s.total_fences in
    let tasks1 = set s.tasks old_idx (record charged.1 { state = ready }) in
    let s1 = record s { tasks = tasks1; total_fences = fences } in
    let start = (old_idx + 1) % n in
    if ltb n 2 then (none, s) else (elim (find_ready n tasks1 start start) [
      | none ↦ (none, s1)
      | some next_idx ↦ if next_idx == old_idx then (none, s1) else (
        some (old_idx, (task_at tasks1 next_idx).rsp, charged.0),
        record s1 {
          tasks = set tasks1 next_idx (record (task_at tasks1 next_idx) { state = running });
          current = next_idx;
          total_switches = u64 (s.total_switches + 1);
        },
      )
    ])

-- `scba_snapshot`: budget consumed, fences and epoch of the tasks 1 to 3.
unfoldable pub snapshot_slot : Scheduler → ℕ → ℕ × ℕ × ℕ
snapshot_slot s i =
    let t = task_at s.tasks (i + 1) in
    if ltb (i + 1) (length s.tasks)
    then (t.scba.budget_consumed, t.scba.fence_count, t.scba.epoch)
    else (0, 0, 0)

unfoldable pub scba_snapshot : Scheduler → List (ℕ × ℕ × ℕ)
unfolding snapshot_slot
scba_snapshot s = snapshot_slot s 0 ∷ snapshot_slot s 1 ∷ snapshot_slot s 2 ∷ []
