-- ===== src/Kernel/Audit.antt =====
-- What the audit log holds after any sequence of entries into the kernel.
use axiom_os.Base.{
  if◌then◌else◌, Bool-cases, length, ℕ, min, ◌≡◌, refl, sym, ap, ap₂, ◌∙◌, inl, inr, Bool, true,
  false, not, ◌&&◌, ◌||◌, List, [], ◌∷◌, ◌++◌, append-nil, arith,
}
use axiom_os.Crypto.Sha256.{sha256}
use axiom_os.Meal.{new, verify_chain, genesis_label}
use axiom_os.Meal.Verify.{slots}
use axiom_os.Meal.History.{
  Input, append_all, history, last_entries, append-contents, append-verifies,
}
use axiom_os.Kernel.{Kernel, Locks, Entry, handle, run}
use axiom_os.Kernel.Handled.{
  logged, halts, clock_after, is_exit, append_all-append, or_false, handle-Handled,
}

-- The events of a sequence, up to the entry that halts, without those that find the log locked.
abbrev pub trail : ℕ → List (Locks × Entry) → List Input
trail t [] = []
trail t ((l, e) ∷ rest) =
    (if l.meal_held then [] else logged t e)
    ++ (if halts e then [] else trail (clock_after t e) rest)

pub run-halted : (k : Kernel) (es : List (Locks × Entry)) → k.halted ≡ true → run k es ≡ k
unfolding run
run-halted k [] h = refl
run-halted k ((l, e) ∷ es) h = rw h refl

pub run-nil : (k : Kernel) → run k [] ≡ k
unfolding run
run-nil k = refl

pub run-step :
    (k : Kernel) (l : Locks) (e : Entry) (es : List (Locks × Entry))
    → k.halted ≡ false
    → run k ((l, e) ∷ es) ≡ run (handle l k e) es
unfolding run
run-step k l e es up = ap (λ b. if b then k else run (handle l k e) es) up

-- What one entry adds to the log.
abbrev added : ℕ → Locks → Entry → List Input
added t l e = if l.meal_held then [] else logged t e

run-meal :
    (es : List (Locks × Entry)) (k : Kernel)
    → k.halted ≡ false
    → (run k es).meal ≡ append_all k.meal (trail k.ticks es)
run-meal [] k up = ap (λ (s : Kernel). s.meal) (run-nil k)
run-meal ((l, e) ∷ es) k up =
    let h = handle-Handled k l e in
    ap (λ (s : Kernel). s.meal) (run-step k l e es up) ∙ (elim (Bool-cases (halts e)) [
      | inl last ↦
          ap (λ (s : Kernel). s.meal) (run-halted (handle l k e) es (h.halted ∙ rw last refl))
          ∙ h.meal
          ∙ ap (append_all k.meal) {x = added k.ticks l e} {y = trail k.ticks ((l, e) ∷ es)}
              (rw last (sym (append-nil (added k.ticks l e))))
      | inr more ↦
          run-meal es (handle l k e) (h.halted ∙ rw (more, up) refl)
          ∙ ap₂ (λ m t. append_all m (trail t es)) h.meal h.ticks
          ∙ sym (append_all-append (added k.ticks l e) (trail (clock_after k.ticks e) es) k.meal)
          ∙ ap (append_all k.meal) {x = added k.ticks l e ++ trail (clock_after k.ticks e) es}
              {y = trail k.ticks ((l, e) ∷ es)} (rw more refl)
    ])

-- Whether the user process exits before a halt.
abbrev pub exits : List (Locks × Entry) → Bool
exits [] = false
exits ((l, e) ∷ es) = is_exit e || (not (halts e) && exits es)

run-exited :
    (es : List (Locks × Entry)) (k : Kernel)
    → k.halted ≡ false
    → (run k es).user_exited ≡ (k.user_exited || exits es)
run-exited [] k up = ap (λ (s : Kernel). s.user_exited) (run-nil k) ∙ or_false k.user_exited
run-exited ((l, e) ∷ es) k up =
    let h = handle-Handled k l e in
    ap (λ (s : Kernel). s.user_exited) (run-step k l e es up) ∙ (elim (Bool-cases (halts e)) [
      | inl last ↦
          ap (λ (s : Kernel). s.user_exited)
            (run-halted (handle l k e) es (h.halted ∙ rw last refl))
          ∙ h.exited
          ∙ rw last (ground arith)
      | inr more ↦
          run-exited es (handle l k e) (h.halted ∙ rw (more, up) refl)
          ∙ ap (λ b. b || exits es) h.exited
          ∙ rw more (ground arith)
    ])

-- The kernel after any events that were logged before, whatever enters it from then on and whichever
-- locks are held: the log verifies and holds the last 64 of those events and the trail, and the process
-- counts as exited exactly when it asked to be before a halt.
pub run-audit :
    (earlier : List Input) (es : List (Locks × Entry)) (k : Kernel) (key : List ℕ)
    → k.meal ≡ append_all (new key) earlier
    → k.halted ≡ false
    → k.user_exited ≡ false
    → (verify_chain (run k es).meal ≡ (min (length (earlier ++ trail k.ticks es)) 64, true))
      × (slots (run k es).meal
          ≡ last_entries (history key 0 (sha256 genesis_label) (earlier ++ trail k.ticks es)))
      × ((run k es).user_exited ≡ exits es)
run-audit earlier es k key logged_before up inside =
    let events = earlier ++ trail k.ticks es in
    let e : (run k es).meal ≡ append_all (new key) events =
      run-meal es k up
      ∙ ap (λ m. append_all m (trail k.ticks es)) logged_before
      ∙ sym (append_all-append earlier (trail k.ticks es) (new key)) in
    (
      ap verify_chain e ∙ append-verifies key events,
      ap slots e ∙ append-contents key events,
      run-exited es k up ∙ rw inside refl,
    )
