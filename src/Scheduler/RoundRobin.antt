-- ===== src/Scheduler/RoundRobin.antt =====
-- Which task runs: the switch always goes to the next task, and every task has its turn.
use native.Mathlib.Nat.{mod-eq_of_lt, mod_self, mod-add-mod}
use axiom_os.Base.{
  ltb, ◌==◌, ==_iff, eq_or_lt, nat-cases, length, set, length-append, length-set, get_or-set_self,
  get_or-set_ne, get_or-append_left, get_or-append_right, ℕ, zero, suc, ◌+◌, ◌%◌, ◌≤◌, ◌<◌, ◌≡◌,
  refl, sym, ap, ap₂, ◌∙◌, ◌≢◌, ◌⊎◌, inl, inr, true, false, not, some, List, [], ◌∷◌, ◌++◌, arith,
}
use axiom_os.Scheduler.{
  ready, running, Task, Scheduler, no_task, task_at, is_ready, find_ready, charge, prepare_switch,
  add_task,
}

-- The current task, and only it, is running.
pub record WellFormed (s : Scheduler) : Type 0 where
  pub current_inside : s.current < length s.tasks
  pub states : (i : ℕ) → i < length s.tasks → is_ready (task_at s.tasks i) ≡ not (i == s.current)

find_ready-first :
    (n : ℕ) (ts : List Task) (next start : ℕ)
    → 0 < n
    → is_ready (task_at ts next) ≡ true
    → find_ready n ts next start ≡ some next
unfolding find_ready
find_ready-first zero ts next start p e = absurd (omega arith)
find_ready-first (suc n) ts next start p e = rw e refl

-- The index after the current one, around the end of the list.
abbrev pub successor : Scheduler → ℕ
successor s = (s.current + 1) % length s.tasks

successor-cases :
    (c n : ℕ) → c < n → ((c + 1 < n) × ((c + 1) % n ≡ c + 1)) ⊎ ((c + 1 ≡ n) × ((c + 1) % n ≡ 0))
successor-cases c n h = elim (eq_or_lt (c + 1) n (omega arith)) [
  | inl last ↦ inr (last, ap (λ k. k % n) last ∙ mod_self n)
  | inr more ↦ inl (more, mod-eq_of_lt more)
]

successor-inside : (c n : ℕ) → c < n → (c + 1) % n < n
successor-inside c n h = elim (successor-cases c n h) [
  | inl p ↦ let e = p.1 in let m = p.0 in omega arith
  | inr p ↦ let e = p.1 in omega arith
]

successor-other : (c n : ℕ) → c < n → 2 ≤ n → c ≢ (c + 1) % n
successor-other c n h two same = elim (successor-cases c n h) [
  | inl p ↦ let e = p.1 in absurd (omega arith)
  | inr p ↦ let e = p.1 in let l = p.0 in absurd (omega arith)
]

-- The task that is charged and made ready, and the tasks after that.
abbrev pub charged_tasks : Scheduler → List Task
charged_tasks s =
    set s.tasks s.current (record (charge (task_at s.tasks s.current)).1 { state = ready })

successor_ready :
    (s : Scheduler)
    → WellFormed s
    → 2 ≤ length s.tasks
    → is_ready (task_at (charged_tasks s) (successor s)) ≡ true
successor_ready s w two =
    let other = successor-other s.current (length s.tasks) w.current_inside two in
    let inside = successor-inside s.current (length s.tasks) w.current_inside in
    let differs : (successor s == s.current) ≡ false = ground arith in
    ap is_ready (get_or-set_ne s.tasks s.current (successor s) _ no_task other)
    ∙ w.states (successor s) inside
    ∙ ap not differs

-- With at least two tasks, of which exactly the current one runs, a tick always switches to the next
-- task around the list: the search ends at its first candidate. The stack pointer handed out is that
-- task's, and a fence is due exactly when the tick exhausted the old task's budget.
pub prepare_switch-next :
    (s : Scheduler)
    → WellFormed s
    → 2 ≤ length s.tasks
    → ((prepare_switch s).0
        ≡ some (
          s.current,
          (task_at s.tasks (successor s)).rsp,
          (charge (task_at s.tasks s.current)).0,
        ))
      × ((prepare_switch s).1.current ≡ successor s)
      × ((prepare_switch s).1.tasks
          ≡ set
              (charged_tasks s)
              (successor s)
              (record (task_at s.tasks (successor s)) { state = running }))
unfolding prepare_switch
prepare_switch-next s w two =
    let n = length s.tasks in
    let other = successor-other s.current n w.current_inside two in
    let few : ltb n 2 ≡ false = ground arith in
    let found =
      find_ready-first n (charged_tasks s) (successor s) (successor s) (omega arith)
        (successor_ready s w two) in
    let differs : (successor s == s.current) ≡ false = ground arith in
    let same =
      get_or-set_ne s.tasks s.current (successor s)
        (record (charge (task_at s.tasks s.current)).1 { state = ready }) no_task other in
    rw (few, found, differs, same) (refl, refl, refl)

pub length-prepare_switch :
    (s : Scheduler)
    → WellFormed s
    → 2 ≤ length s.tasks
    → length (prepare_switch s).1.tasks ≡ length s.tasks
length-prepare_switch s w two =
    let p = prepare_switch-next s w two in
    ap length p.2 ∙ length-set (charged_tasks s) (successor s) _ ∙ length-set s.tasks s.current _

running_lem : (t : Task) → is_ready (record t { state = running }) ≡ false
unfolding is_ready
running_lem t = refl

ready_lem : (t : Task) → is_ready (record t { state = ready }) ≡ true
unfolding is_ready
ready_lem t = refl

-- A tick keeps exactly the current task running.
pub prepare_switch-WellFormed :
    (s : Scheduler) → WellFormed s → 2 ≤ length s.tasks → WellFormed (prepare_switch s).1
prepare_switch-WellFormed s w two =
    let p = prepare_switch-next s w two in
    let sized = length-prepare_switch s w two in
    let here = p.1 in
    let inside = successor-inside s.current (length s.tasks) w.current_inside in
    record {
      current_inside = omega arith;
      states = λ i h.
          ap (λ ts. is_ready (task_at ts i)) p.2
          ∙ state_of i (omega arith)
          ∙ ap (λ c. not (i == c)) (sym here);
    }
  where
    a : Task
    a = record (charge (task_at s.tasks s.current)).1 { state = ready }

    b : Task
    b = record (task_at s.tasks (successor s)) { state = running }

    old_state : (i : ℕ) → i < length s.tasks → is_ready (task_at (charged_tasks s) i) ≡ true
    old_state i h = elim (nat-cases i s.current) [
      | inl same ↦ rw same (
          ap is_ready (get_or-set_self s.tasks s.current a no_task w.current_inside)
          ∙ ready_lem (charge (task_at s.tasks s.current)).1)
      | inr differ ↦
          let q : (i == s.current) ≡ false = ground arith in
          ap is_ready (get_or-set_ne s.tasks s.current i a no_task (λ e. differ (sym e)))
          ∙ w.states i h
          ∙ ap not q
    ]

    state_of :
        (i : ℕ)
        → i < length s.tasks
        → is_ready (task_at (set (charged_tasks s) (successor s) b) i) ≡ not (i == successor s)
    state_of i h = elim (nat-cases i (successor s)) [
      | inl same ↦
          let q : (i == successor s) ≡ true = (==_iff i (successor s)).1 same in
          rw (q, same)
            (ap is_ready (
                get_or-set_self (charged_tasks s) (successor s) b no_task
                  (omega (arith, length-set s.tasks s.current a)))
              ∙ running_lem (task_at s.tasks (successor s)))
      | inr differ ↦
          let q : (i == successor s) ≡ false = ground arith in
          rw q (
            ap is_ready
              (get_or-set_ne (charged_tasks s) (successor s) i b no_task (λ e. differ (sym e)))
            ∙ old_state i h)
    ]

-- `k` ticks in a row.
abbrev pub ticks : ℕ → Scheduler → Scheduler
ticks zero s = s
ticks (suc k) s = (prepare_switch (ticks k s)).1

-- After `k` ticks the task `k` places further around the list is running, so that among `n` tasks each
-- one runs again after `n` ticks, and none waits longer.
pub ticks-current :
    (k : ℕ) (s : Scheduler)
    → WellFormed s
    → 2 ≤ length s.tasks
    → WellFormed (ticks k s)
      × (length (ticks k s).tasks ≡ length s.tasks)
      × ((ticks k s).current ≡ (s.current + k) % length s.tasks)
ticks-current zero s w two =
    let inside = w.current_inside in
    (
      w,
      refl,
      sym (mod-eq_of_lt inside) ∙ ap (λ c. c % length s.tasks) {y = s.current + 0} (omega arith),
    )
ticks-current (suc k) s w two =
    let before = ticks-current k s w two in
    let t = ticks k s in
    let two_t : 2 ≤ length t.tasks = omega (arith, before.1) in
    let p = prepare_switch-next t before.0 two_t in
    (
      prepare_switch-WellFormed t before.0 two_t,
      length-prepare_switch t before.0 two_t ∙ before.1,
      p.1
          ∙ ap₂ (λ c n. (c + 1) % n) before.2 before.1
          ∙ mod-add-mod (s.current + k) (length s.tasks) 1
          ∙ ap (λ m. m % length s.tasks) {x = s.current + k + 1} (omega arith),
    )

-- A ready task can be added to a well-formed scheduler.
pub add_task-WellFormed :
    (s : Scheduler) (t : Task) → WellFormed s → is_ready t ≡ true → WellFormed (add_task s t)
unfolding add_task
add_task-WellFormed s t w e =
    let grown = length-append s.tasks (t ∷ []) in
    let inside = w.current_inside in
    record {
      current_inside = omega arith;
      states = λ i h. elim (eq_or_lt i (length s.tasks) (omega arith)) [
        | inl last ↦
            let q : (i == s.current) ≡ false = ground arith in
            rw q (
              ap (λ k. is_ready (task_at (s.tasks ++ (t ∷ [])) k)) {y = length s.tasks + 0}
                (omega arith)
              ∙ ap is_ready (get_or-append_right s.tasks (t ∷ []) 0 no_task)
              ∙ e)
        | inr old ↦ ap is_ready (get_or-append_left s.tasks (t ∷ []) i no_task old) ∙ w.states i old
      ];
    }
