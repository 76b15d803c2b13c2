-- ===== src/Scheduler/Ledger.antt =====
-- The scheduler's count of fences against the counts that the tasks keep.
use axiom_os.Base.{
  ltb, leb, ◌==◌, if◌then◌else◌, Bool-cases, Option-cases, length, set, length-append, length-set,
  u64, ℕ, zero, suc, ◌+◌, ◌%◌, ◌<◌, ◌≡◌, refl, sym, ap, ◌∙◌, inl, inr, Bool, true, false, some,
  List, [], ◌∷◌, ◌++◌, arith,
}
use axiom_os.Scheduler.{
  Task, Scheduler, ready, running, task_at, find_ready, tick, reset_epoch, charge, prepare_switch,
  add_task,
}

unfoldable pub fences : List Task → ℕ
fences [] = 0
fences (t ∷ ts) = t.scba.fence_count + fences ts

-- The current task exists, and the total is the sum over the tasks, as a u64.
pub record IsLedger (s : Scheduler) : Type 0 where
  pub current_inside : s.current < length s.tasks
  pub total : s.total_fences ≡ u64 (fences s.tasks)

fences-set :
    (ts : List Task) (i : ℕ) (t : Task)
    → i < length ts
    → fences (set ts i t) + (task_at ts i).scba.fence_count ≡ fences ts + t.scba.fence_count
unfolding fences
fences-set [] i t h = absurd (omega arith)
fences-set (x ∷ ts) zero t h = omega arith
fences-set (x ∷ ts) (suc i) t h = omega (arith, fences-set ts i t (omega arith))

fences-set_same :
    (ts : List Task) (i : ℕ) (t : Task)
    → t.scba.fence_count ≡ (task_at ts i).scba.fence_count
    → fences (set ts i t) ≡ fences ts
unfolding fences
fences-set_same [] i t h = refl
fences-set_same (x ∷ ts) zero t h = omega arith
fences-set_same (x ∷ ts) (suc i) t h = omega (arith, fences-set_same ts i t h)

fences-append : (ts us : List Task) → fences (ts ++ us) ≡ fences ts + fences us
unfolding fences
fences-append [] us = omega arith
fences-append (t ∷ ts) us = omega (arith, fences-append ts us)

charge-fences :
    (t : Task)
    → (charge t).1.scba.fence_count
      ≡ (if (charge t).0 then u64 (t.scba.fence_count + 1) else t.scba.fence_count)
unfolding charge tick reset_epoch
charge-fences t = elim (Bool-cases (leb t.scba.budget_max (u64 (t.scba.budget_consumed + 1)))) [
  | inl spent ↦ rw spent refl
  | inr more ↦ rw more refl
]

mod_lt : (a b : ℕ) → 0 < b → a % b < b
mod_lt a b p = grind arith

find_ready-inside :
    (n : ℕ) (ts : List Task) (next start r : ℕ)
    → next < length ts
    → find_ready n ts next start ≡ some r
    → r < length ts
unfolding find_ready
find_ready-inside zero ts next start r h e = absurd (cc)
find_ready-inside (suc n) ts next start r h e =
    let after : ℕ = (next + 1) % length ts in
    ground (arith, mod_lt (next + 1) (length ts), find_ready-inside n ts after start r)

-- The books after the charge of the current task.
abbrev charged : Scheduler → Scheduler
charged s =
    let c = charge (task_at s.tasks s.current) in
    record s {
      tasks = set s.tasks s.current (record (c.1) { state = ready });
      total_fences = if c.0 then u64 (s.total_fences + 1) else s.total_fences;
    }

charged-IsLedger : (s : Scheduler) → IsLedger s → IsLedger (charged s)
charged-IsLedger s l =
    let t = task_at s.tasks s.current in
    let c = charge-fences t in
    let sum =
      fences-set s.tasks s.current (record ((charge t).1) { state = ready }) l.current_inside in
    record {
      current_inside = omega (
        arith,
        l.current_inside,
        length-set s.tasks s.current (record ((charge t).1) { state = ready }),
      );
      total =
          booked s.total_fences (fences s.tasks) (fences (charged s).tasks) t.scba.fence_count
            (charge t).1.scba.fence_count (charge t).0 l.total c sum;
    }
  where
    booked :
        (all_fences sum sum' mine mine' : ℕ) (spent : Bool)
        → all_fences ≡ u64 sum
        → mine' ≡ (if spent then u64 (mine + 1) else mine)
        → sum' + mine ≡ sum + mine'
        → (if spent then u64 (all_fences + 1) else all_fences) ≡ u64 sum'
    booked all_fences sum sum' mine mine' true e f g = omega arith
    booked all_fences sum sum' mine mine' false e f g = omega arith

-- A tick keeps the ledger.
pub prepare_switch-IsLedger : (s : Scheduler) → IsLedger s → IsLedger (prepare_switch s).1
unfolding prepare_switch
prepare_switch-IsLedger s l =
    let n : ℕ = length s.tasks in
    let after = charged-IsLedger s l in
    let tasks1 : List Task = (charged s).tasks in
    let start : ℕ = (s.current + 1) % n in
    let kept : length tasks1 ≡ n =
      length-set s.tasks s.current
        (record ((charge (task_at s.tasks s.current)).1) { state = ready }) in
    elim (Bool-cases (ltb n 2)) [
      | inl few ↦ rw few l
      | inr several ↦ elim (Option-cases (find_ready n tasks1 start start)) [
        | inl nobody ↦ rw (several, nobody) after
        | inr (next, found) ↦ elim (Bool-cases (next == s.current)) [
          | inl same ↦ rw (several, found) (rw same after)
          | inr other ↦
              rw (several, found)
                (rw other (record {
                  current_inside = omega (
                    arith,
                    length-set tasks1 next (record (task_at tasks1 next) { state = running }),
                    find_ready-inside n tasks1 start start next
                        (omega (arith, mod_lt (s.current + 1) n (omega arith), kept)) found,
                  );
                  total =
                      after.total
                      ∙ ap u64 (
                          sym (
                            fences-set_same tasks1 next
                              (record (task_at tasks1 next) { state = running }) refl));
                }))
        ]
      ]
    ]

fences-single : (t : Task) → t.scba.fence_count ≡ 0 → fences (t ∷ []) ≡ 0
unfolding fences
fences-single t h = omega arith

-- A new task has no fence yet.
pub add_task-IsLedger :
    (s : Scheduler) (t : Task) → t.scba.fence_count ≡ 0 → IsLedger s → IsLedger (add_task s t)
unfolding add_task
add_task-IsLedger s t unfenced l = record {
  current_inside = omega (arith, l.current_inside, length-append s.tasks (t ∷ []));
  total =
      l.total ∙ ap u64 (omega (arith, fences-append s.tasks (t ∷ []), fences-single t unfenced));
}
