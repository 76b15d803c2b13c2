-- ===== src/Lattice/Axioms.antt =====
-- The check that a lattice has to pass, read as the laws of a bounded order.
use axiom_os.Base.{u8, ℕ, ◌≤◌, ◌<◌, ◌≡◌, refl, ◌∙◌, ◌↔◌, inr, true, none, arith}
use axiom_os.Lattice.{
  SecurityLattice, dom_at, join, meet, is_some, reflexive, antisymmetric, transitive, bounded_below,
  bounded_above, joins_exist, meets_exist, verify, accepted,
}
use axiom_os.Lattice.Loops.{
  below_iff, u8_small, IsLabel, Upper, Lower, dominates-inside, meet_loop-total,
}
use axiom_os.Lattice.JoinLoop.{join_loop-total}

-- The matrix has 8 rows, and the two bounds are labels.
pub record IsSized (l : SecurityLattice) : Type 0 where
  pub few : l.count ≤ 8
  pub bottom_label : l.bottom < l.count
  pub top_label : l.top < l.count

-- Dominance is a partial order on the labels, between the bottom and the top.
pub record Ordered (l : SecurityLattice) : Type 0 where
  pub reflexivity : (a : ℕ) → IsLabel l a → dom_at l a a ≡ true
  pub antisymmetry :
      (a b : ℕ) → IsLabel l a → IsLabel l b → dom_at l a b ≡ true → dom_at l b a ≡ true → a ≡ b
  pub transitivity :
      (a b c : ℕ)
      → IsLabel l a
      → IsLabel l b
      → IsLabel l c
      → dom_at l a b ≡ true
      → dom_at l b c ≡ true
      → dom_at l a c ≡ true
  pub above_bottom : (a : ℕ) → IsLabel l a → dom_at l a l.bottom ≡ true
  pub below_top : (a : ℕ) → IsLabel l a → dom_at l l.top a ≡ true

antisymmetric_iff :
    (l : SecurityLattice)
    → (antisymmetric l ≡ true)
      ↔ ((a b : ℕ) → IsLabel l a → IsLabel l b → dom_at l a b ≡ true → dom_at l b a ≡ true → a ≡ b)
unfolding antisymmetric
antisymmetric_iff l = (
  λ e a b p q h k.
      let row = (below_iff l.count _).0 e a p in
      let here = (below_iff l.count _).0 row b q in ground arith,
  λ f.
      (below_iff l.count _).1
        (λ a p. (below_iff l.count _).1 (λ b q. let g = f a b p q in ground arith)),
)

transitive_iff :
    (l : SecurityLattice)
    → (transitive l ≡ true) ↔ (
        (a b c : ℕ)
        → IsLabel l a
        → IsLabel l b
        → IsLabel l c
        → dom_at l a b ≡ true
        → dom_at l b c ≡ true
        → dom_at l a c ≡ true)
unfolding transitive
transitive_iff l = (
  λ e a b c p q r h k.
      let row = (below_iff l.count _).0 e a p in
      let cell = (below_iff l.count _).0 row b q in
      let here = (below_iff l.count _).0 cell c r in ground arith,
  λ f. (below_iff l.count _).1 (λ a p.
      (below_iff l.count _).1
        (λ b q. (below_iff l.count _).1 (λ c r. let g = f a b c p q r in ground arith))),
)

-- With a top every two labels have an upper bound, so `join` finds one.
joins_exist_lem : (l : SecurityLattice) → IsSized l → Ordered l → joins_exist l ≡ true
unfolding joins_exist is_some
joins_exist_lem l w o =
    (below_iff l.count _).1 (λ a p. (below_iff l.count _).1 (λ b q. found a b p q))
  where
    found : (a b : ℕ) → IsLabel l a → IsLabel l b → is_some (join l (u8 a) (u8 b)) ≡ true
    found a b p q =
        let few = w.few in
        let top_label = w.top_label in
        let upper : Upper l a b l.top = (
          dominates-inside l l.top a w.top_label p ∙ o.below_top a p,
          dominates-inside l l.top b w.top_label q ∙ o.below_top b q,
        ) in
        let j =
          join_loop-total l.count 0 l a b l.top (omega arith) (omega arith) (omega arith) upper in
        rw (u8_small a (omega arith), u8_small b (omega arith)) (unfold join in rw j.1 refl)

meets_exist_lem : (l : SecurityLattice) → IsSized l → Ordered l → meets_exist l ≡ true
unfolding meets_exist is_some
meets_exist_lem l w o =
    (below_iff l.count _).1 (λ a p. (below_iff l.count _).1 (λ b q. found a b p q))
  where
    found : (a b : ℕ) → IsLabel l a → IsLabel l b → is_some (meet l (u8 a) (u8 b)) ≡ true
    found a b p q =
        let few = w.few in
        let bottom_label = w.bottom_label in
        let lower : Lower l a b l.bottom = (
          dominates-inside l a l.bottom p w.bottom_label ∙ o.above_bottom a p,
          dominates-inside l b l.bottom q w.bottom_label ∙ o.above_bottom b q,
        ) in
        let m =
          meet_loop-total l.count 0 l a b none (omega arith) tt
            (inr (l.bottom, omega arith, omega arith, lower)) in
        rw (u8_small a (omega arith), u8_small b (omega arith)) (unfold meet in rw m.1 refl)

checks :
    (l : SecurityLattice)
    → verify l ≡ (true, accepted)
    → (reflexive l ≡ true)
      × (antisymmetric l ≡ true)
      × (transitive l ≡ true)
      × (bounded_below l ≡ true)
      × (bounded_above l ≡ true)
unfolding verify
checks l e = ground arith

-- `verify` accepts a lattice whose bounds are labels exactly when dominance is a partial order with
-- the bottom below and the top above every label. The last two checks never refuse what the first
-- five accept.
pub verify-Ordered_iff :
    (l : SecurityLattice) → IsSized l → (verify l ≡ (true, accepted)) ↔ Ordered l
unfolding verify reflexive bounded_below bounded_above
verify-Ordered_iff l w = (
  λ e.
      let p = checks l e in
      record {
        reflexivity = (below_iff l.count _).0 p.0;
        antisymmetry = (antisymmetric_iff l).0 p.1;
        transitivity = (transitive_iff l).0 p.2;
        above_bottom = (below_iff l.count _).0 p.3;
        below_top = (below_iff l.count _).0 p.4;
      },
  λ o.
      let c1 : reflexive l ≡ true = (below_iff l.count _).1 o.reflexivity in
      let c2 = (antisymmetric_iff l).1 o.antisymmetry in
      let c3 = (transitive_iff l).1 o.transitivity in
      let c4 : bounded_below l ≡ true = (below_iff l.count _).1 o.above_bottom in
      let c5 : bounded_above l ≡ true = (below_iff l.count _).1 o.below_top in
      rw (c1, c2, c3, c4, c5, joins_exist_lem l w o, meets_exist_lem l w o) refl,
)
