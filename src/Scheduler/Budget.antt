-- ===== src/Scheduler/Budget.antt =====
-- The side-channel budget of one task over any number of ticks, and the frame of a new task.
use native.Mathlib.Nat.{mod-eq_of_lt, suc-mul}
use axiom_os.Base.{
  leb, le→leb, lt_or_le, ℕ, zero, suc, ◌+◌, ◌*◌, ◌^◌, ◌≤◌, ◌<◌, max, ◌≡◌, refl, sym, ap, ap₂, ◌∙◌,
  ◌⊎◌, inl, inr, true, false, arith,
}
use axiom_os.Scheduler.{ScbaState, Task, new_scba, tick, reset_epoch, charge}

-- Less than the budget is consumed, and the counters are u64.
pub record Within (s : ScbaState) : Type 0 where
  pub below : s.budget_consumed < s.budget_max
  pub max_range : s.budget_max < 2 ^ 64

-- One tick either consumes one more unit, still within the budget, or exhausts it: then a fence is due,
-- it is counted, and a new epoch starts with nothing consumed.
pub charge_lem :
    (t : Task)
    → Within t.scba
    → t.scba.fence_count + 1 < 2 ^ 64
    → t.scba.epoch + 1 < 2 ^ 64
    → ((charge t).0 ≡ false)
        × ((charge t).1.scba.budget_consumed ≡ t.scba.budget_consumed + 1)
        × (t.scba.budget_consumed + 1 < t.scba.budget_max)
        × ((charge t).1.scba.fence_count ≡ t.scba.fence_count)
        × ((charge t).1.scba.epoch ≡ t.scba.epoch)
      ⊎ ((charge t).0 ≡ true)
        × ((charge t).1.scba.budget_consumed ≡ 0)
        × (t.scba.budget_consumed + 1 ≡ t.scba.budget_max)
        × ((charge t).1.scba.fence_count ≡ t.scba.fence_count + 1)
        × ((charge t).1.scba.epoch ≡ t.scba.epoch + 1)
unfolding charge tick reset_epoch
charge_lem t w f e =
    let below = w.below in
    let max_range = w.max_range in
    let consumed = mod-eq_of_lt {n = t.scba.budget_consumed + 1} {m = 2 ^ 64} (omega arith) in
    let fences = mod-eq_of_lt f in
    let epochs = mod-eq_of_lt e in
    elim (lt_or_le (t.scba.budget_consumed + 1) t.scba.budget_max) [
      | inl more ↦
          let p : leb t.scba.budget_max (t.scba.budget_consumed + 1) ≡ false = ground arith in
          rw (consumed, p) (inl (refl, refl, more, refl, refl))
      | inr spent ↦
          let p = le→leb t.scba.budget_max (t.scba.budget_consumed + 1) spent in
          rw (consumed, p, fences, epochs) (inr (refl, refl, omega arith, refl, refl))
    ]

pub budget_max-charge : (t : Task) → (charge t).1.scba.budget_max ≡ t.scba.budget_max
unfolding charge tick reset_epoch
budget_max-charge t = ground arith

le-times : (f m : ℕ) → 0 < m → f ≤ f * m
le-times f zero h = absurd (omega arith)
le-times f (suc m) h = omega arith

-- `k` ticks in a row.
abbrev pub charges : ℕ → Task → Task
charges zero t = t
charges (suc k) t = (charge (charges k t)).1

-- After `k` ticks a new task with a positive budget has been fenced once for each whole budget, and what
-- it has consumed since the last fence is the rest: less than the budget, at every time.
pub charges_lem :
    (k max : ℕ) (t : Task)
    → 0 < max
    → max < 2 ^ 64
    → k < 2 ^ 64
    → t.scba ≡ new_scba max
    → ((charges k t).scba.fence_count * max + (charges k t).scba.budget_consumed ≡ k)
      × ((charges k t).scba.budget_consumed < max)
      × ((charges k t).scba.budget_max ≡ max)
      × ((charges k t).scba.epoch ≡ (charges k t).scba.fence_count)
unfolding new_scba
charges_lem zero max t p q r e = rw e (omega arith, p, refl, refl)
charges_lem (suc k) max t p q r e =
    let before = charges_lem k max t p q (omega arith) e in
    let u = charges k t in
    let few : u.scba.fence_count ≤ u.scba.fence_count * max = le-times u.scba.fence_count max p in
    let b0 = before.0 in
    let b1 = before.1 in
    let b2 = before.2 in
    let b3 = before.3 in
    let kept = budget_max-charge u in
    elim (charge_lem u (record { below = omega arith; max_range = omega arith }) (omega arith)
      (omega arith)) [
        | inl more ↦
            let m1 = more.1 in
            let m2 = more.2 in
            let m3 = more.3 in
            let m4 = more.4 in
            (ap₂ (λ f c. f * max + c) m3 m1 ∙ omega arith, omega arith, kept ∙ b2, m4 ∙ b3 ∙ sym m3)
        | inr spent ↦
            let s1 = spent.1 in
            let s2 = spent.2 in
            let s3 = spent.3 in
            let s4 = spent.4 in
            (
              ap₂ (λ f c. f * max + c) s3 s1
                  ∙ ap (λ n. n + 0) {x = (u.scba.fence_count + 1) * max}
                      (ap (λ n. n * max) {x = u.scba.fence_count + 1} {y = suc u.scba.fence_count}
                          (omega arith)
                        ∙ suc-mul u.scba.fence_count max)
                  ∙ omega arith,
              omega arith,
              kept ∙ b2,
              s4 ∙ ap (λ n. n + 1) b3 ∙ sym s3,
            )
      ]
