-- ===== src/Smp/Boot/Counted.antt =====
-- The number of cores that report is that of the cores online after every turn of the loop over the
-- processors.
use axiom_os.Base.{
  leb, ◌==◌, if◌then◌else◌, lt→ltb, le→leb, ==_iff, Bool-cases, lt_or_le, nat-cases, length, All, ℕ,
  ◌+◌, ◌<◌, ◌≡◌, refl, ◌∙◌, ◌≢◌, inl, inr, false, List, [], ◌∷◌, arith,
}
use axiom_os.Base.Distinct.{Distinct}
use axiom_os.Smp.Boot.{Machine, Platform, set_online, ap_main, start_ap, start_aps}
use axiom_os.Smp.Boot.Online.{
  online, count_online, set_online-online, length-set_online, count_online-set_online,
  count_online-le,
}

-- What holds between two turns, for the ids that are left.
pub record Counted (p : Platform) (bsp_id : ℕ) (ids : List ℕ) (m : Machine) : Type 0 where
  pub eight : length m.cores ≡ 8
  pub tally : count_online m.cores ≡ 1 + m.aps_online
  pub fresh : All (λ id. (id ≢ bsp_id) → id < 8 → online m.cores id ≡ false) ids

All-zip {ℓ κ μ} :
    {A : Type 0} {P : A → Type ℓ} {Q : A → Type κ} {R : A → Type μ} (xs : List A)
    → ((x : A) → P x → Q x → R x)
    → All P xs
    → All Q xs
    → All R xs
All-zip [] f h k = tt
All-zip (x ∷ xs) f (hx, h) (kx, k) = (f x hx kx, All-zip xs f h k)

-- A machine with the same cores as one that is counted.
Counted-same :
    (p : Platform) (bsp_id : ℕ) (ids : List ℕ) (m t : Machine)
    → t.cores ≡ m.cores
    → t.aps_online ≡ m.aps_online
    → Counted p bsp_id ids m
    → Counted p bsp_id ids t
Counted-same p bsp_id ids m t e f c = record {
  eight = rw e c.eight;
  tally = rw (e, f) c.tally;
  fresh = rw e c.fresh;
}

-- The turn in which a processor reports.
ap_main-Counted :
    (p : Platform) (bsp_id id : ℕ) (ids : List ℕ) (m : Machine)
    → All (λ y. id ≢ y) ids
    → id ≢ bsp_id
    → id < 8
    → Counted p bsp_id (id ∷ ids) m
    → Counted p bsp_id ids (ap_main id m)
unfolding ap_main
ap_main-Counted p bsp_id id ids m distinct other small c =
    let down : online m.cores id ≡ false = c.fresh.0 other small in
    let more = count_online-set_online m.cores id (omega (arith, c.eight)) down in
    let bound = count_online-le (set_online m.cores id) in
    let len = length-set_online m.cores id in
    rw (lt→ltb id 8 small) (record {
      eight = len ∙ c.eight;
      tally = omega (arith, more, bound, len, c.eight, c.tally);
      fresh =
          All-zip ids
            (λ y apart h ne lt.
              set_online-online m.cores id y (omega (arith, c.eight)) ∙ ground (arith, h ne lt))
            distinct c.fresh.1;
    })

start_ap-Counted :
    (p : Platform) (bsp_id id : ℕ) (ids : List ℕ) (m : Machine)
    → All (λ y. id ≢ y) ids
    → Counted p bsp_id (id ∷ ids) m
    → Counted p bsp_id ids (if id == bsp_id then m else start_ap p id m)
unfolding start_ap
start_ap-Counted p bsp_id id ids m distinct c = elim (nat-cases id bsp_id) [
  | inl same ↦
      rw ((==_iff id bsp_id).1 same)
        (record { eight = c.eight; tally = c.tally; fresh = c.fresh.1 })
  | inr other ↦
      let differ : (id == bsp_id) ≡ false = ground arith in
      elim (lt_or_le id 8) [
        | inr large ↦
            rw (differ, le→leb 8 id large)
              (record { eight = c.eight; tally = c.tally; fresh = c.fresh.1 })
        | inl small ↦
            let fits : leb 8 id ≡ false = ground arith in
            elim (Bool-cases (p.starts id)) [
              | inl up ↦
                  rw (differ, fits, up)
                    (ap_main-Counted p bsp_id id ids _ distinct other small
                      (Counted-same p bsp_id (id ∷ ids) m _ refl refl c))
              | inr down ↦
                  rw (differ, fits, down)
                    (Counted-same p bsp_id ids m _ refl refl
                      (record { eight = c.eight; tally = c.tally; fresh = c.fresh.1 }))
            ]
      ]
]

pub start_aps-Counted :
    (p : Platform) (bsp_id : ℕ) (ids : List ℕ) (m : Machine)
    → Distinct ids
    → Counted p bsp_id ids m
    → Counted p bsp_id [] (start_aps p bsp_id ids m)
unfolding start_aps
start_aps-Counted p bsp_id [] m d c = c
start_aps-Counted p bsp_id (id ∷ ids) m (d, ds) c =
    start_aps-Counted p bsp_id ids _ ds (start_ap-Counted p bsp_id id ids m d c)
