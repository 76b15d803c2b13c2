-- ===== src/Kernel/Fences.antt =====
-- What a user process learns of the scheduler, and what it cannot change there.
use axiom_os.Base.{
  ◌==◌, if◌then◌else◌, Bool-cases, u64, ℕ, zero, suc, ◌≡◌, refl, sym, ap, subst, ◌∙◌, inl, inr,
  true, false, List, [], ◌∷◌,
}
use axiom_os.Scheduler.{Scheduler, prepare_switch}
use axiom_os.Scheduler.Ledger.{IsLedger, fences, prepare_switch-IsLedger}
use axiom_os.Kernel.{
  negsuc, Kernel, Locks, Entry, syscall, timer, breakpoint, fault, double, handle, run, log_event,
  dispatch, notify_exit, syscall_dispatch, timer_interrupt, double_fault, as_i64,
}
use axiom_os.Kernel.Audit.{run-halted, run-nil, run-step}
use axiom_os.Kernel.Handled.{dispatch-state, handle-Handled}

-- `k` ticks of the scheduler.
abbrev pub switches : ℕ → Scheduler → Scheduler
switches zero s = s
switches (suc n) s = switches n (prepare_switch s).1

-- The timer interrupts of a sequence that find the scheduler free, up to a halt.
abbrev pub served : List (Locks × Entry) → ℕ
served [] = 0
served ((l, syscall nr arg1) ∷ es) = served es
served ((l, timer) ∷ es) = if l.scheduler_held then served es else suc (served es)
served ((l, breakpoint) ∷ es) = served es
served ((l, fault) ∷ es) = 0
served ((l, double from_user) ∷ es) = 0

dispatch-scheduler :
    (l : Locks) (k : Kernel) (nr arg1 : ℕ) → (dispatch l k nr arg1).1.scheduler ≡ k.scheduler
unfolding notify_exit log_event
dispatch-scheduler l k nr arg1 = elim (Bool-cases (nr == 11)) [
  | inl exit ↦
      let e : (dispatch l k nr arg1).1 ≡ notify_exit l k arg1 =
        dispatch-state l k nr arg1 ∙ rw exit refl in
      rw e refl
  | inr other ↦
      let e : (dispatch l k nr arg1).1 ≡ k = dispatch-state l k nr arg1 ∙ rw other refl in rw e refl
]

syscall-scheduler :
    (l : Locks) (k : Kernel) (nr arg1 : ℕ) → (handle l k (syscall nr arg1)).scheduler ≡ k.scheduler
unfolding handle syscall_dispatch log_event
syscall-scheduler l k nr arg1 = dispatch-scheduler l _ nr arg1

timer-scheduler :
    (l : Locks) (k : Kernel)
    → (handle l k timer).scheduler
      ≡ (if l.scheduler_held then k.scheduler else (prepare_switch k.scheduler).1)
unfolding handle timer_interrupt
timer-scheduler l k = elim (Bool-cases l.scheduler_held) [
  | inl held ↦ rw held refl
  | inr free ↦ rw free refl
]

last-scheduler :
    (k : Kernel) (l : Locks) (e : Entry) (es : List (Locks × Entry))
    → k.halted ≡ false
    → (handle l k e).halted ≡ true
    → (handle l k e).scheduler ≡ k.scheduler
    → (run k ((l, e) ∷ es)).scheduler ≡ k.scheduler
last-scheduler k l e es up down same =
    ap (λ (s : Kernel). s.scheduler) (run-step k l e es up ∙ run-halted (handle l k e) es down)
    ∙ same

-- Nothing but the timer moves the scheduler, and each timer interrupt that finds it free is one tick.
pub run-switches :
    (es : List (Locks × Entry)) (k : Kernel)
    → k.halted ≡ false
    → (run k es).scheduler ≡ switches (served es) k.scheduler
unfolding handle double_fault log_event
run-switches [] k up = ap (λ (s : Kernel). s.scheduler) (run-nil k)
run-switches ((l, syscall nr arg1) ∷ es) k up =
    ap (λ (s : Kernel). s.scheduler) (run-step k l (syscall nr arg1) es up)
    ∙ run-switches es (handle l k (syscall nr arg1))
        ((handle-Handled k l (syscall nr arg1)).halted ∙ up)
    ∙ ap (switches (served es)) (syscall-scheduler l k nr arg1)
run-switches ((l, timer) ∷ es) k up =
    ap (λ (s : Kernel). s.scheduler) (run-step k l timer es up)
    ∙ run-switches es (handle l k timer) ((handle-Handled k l timer).halted ∙ up)
    ∙ ap (switches (served es)) (timer-scheduler l k)
    ∙ (elim (Bool-cases l.scheduler_held) [ inl held ↦ rw held refl | inr free ↦ rw free refl ])
run-switches ((l, breakpoint) ∷ es) k up =
    ap (λ (s : Kernel). s.scheduler) (run-step k l breakpoint es up) ∙ run-switches es k up
run-switches ((l, fault) ∷ es) k up = last-scheduler k l fault es up refl refl
run-switches ((l, double true) ∷ es) k up = last-scheduler k l (double true) es up refl refl
run-switches ((l, double false) ∷ es) k up = last-scheduler k l (double false) es up refl refl

switches-IsLedger : (n : ℕ) (s : Scheduler) → IsLedger s → IsLedger (switches n s)
switches-IsLedger zero s h = h
switches-IsLedger (suc n) s h = switches-IsLedger n _ (prepare_switch-IsLedger s h)

query-fences :
    (l : Locks) (k : Kernel) (arg1 : ℕ)
    → (syscall_dispatch l k 9 arg1).0
      ≡ (if l.scheduler_held then negsuc 0 else as_i64 k.scheduler.total_fences)
unfolding syscall_dispatch dispatch log_event
query-fences l k arg1 = refl

-- After any sequence of entries, SYSCALL 9 returns the sum of the fences that the tasks count, as a
-- signed word, or -1 when the scheduler is locked; the scheduler has made one tick for each timer
-- interrupt that found it free, and no other entry has moved it.
pub run-query :
    (es : List (Locks × Entry)) (k : Kernel) (l : Locks) (arg1 : ℕ)
    → k.halted ≡ false
    → IsLedger k.scheduler
    → ((syscall_dispatch l (run k es) 9 arg1).0
        ≡ (if l.scheduler_held then negsuc 0 else as_i64 (u64 (fences (run k es).scheduler.tasks))))
      × ((run k es).scheduler ≡ switches (served es) k.scheduler)
run-query es k l arg1 up ledger =
    let moved = run-switches es k up in
    let kept = subst IsLedger (sym moved) (switches-IsLedger (served es) k.scheduler ledger) in
    (
      query-fences l (run k es) arg1
          ∙ ap (λ n. if l.scheduler_held then negsuc 0 else as_i64 n) kept.total,
      moved,
    )
