-- ===== src/Lattice/Bounds.antt =====
-- `join` and `meet` against the least upper and the greatest lower bound.
use axiom_os.Base.{ℕ, ◌≤◌, ◌≡◌, sym, ap, ◌∙◌, inr, true, none, some, arith}
use axiom_os.Lattice.{SecurityLattice, dominates, join, meet, verify, accepted}
use axiom_os.Lattice.Loops.{
  IsLabel, Upper, Lower, Greatest, dominates-inside, dominates-IsLabel, meet_loop-total,
  meet_loop-Greatest,
}
use axiom_os.Lattice.JoinLoop.{join_loop-some, join_loop-total}
use axiom_os.Lattice.Axioms.{IsSized, Ordered, verify-Ordered_iff}

-- A label below every upper bound, and one itself.
abbrev pub Least : SecurityLattice → ℕ → ℕ → ℕ → Type 0
Least l a b x = Upper l a b x × ((y : ℕ) → Upper l a b y → dominates l y x ≡ true)

anti :
    (l : SecurityLattice)
    → Ordered l
    → (x y : ℕ) → dominates l x y ≡ true
    → dominates l y x ≡ true
    → x ≡ y
anti l o x y h k =
    let p = dominates-IsLabel l x y h in
    o.antisymmetry x y p.0 p.1 (sym (dominates-inside l x y p.0 p.1) ∙ h)
      (sym (dominates-inside l y x p.1 p.0) ∙ k)

-- In an accepted lattice `meet` returns the greatest lower bound wherever two labels have one.
pub meet-Greatest :
    (l : SecurityLattice) (a b g : ℕ)
    → IsSized l
    → verify l ≡ (true, accepted)
    → Greatest l a b g
    → meet l a b ≡ some g
unfolding meet
meet-Greatest l a b g w e great =
    let few = w.few in
    let inside = dominates-IsLabel l a g great.0.0 in
    meet_loop-Greatest l.count 0 l a b g none (anti l ((verify-Ordered_iff l w).0 e)) great
      (omega arith) tt (inr (omega arith, omega (arith, inside.1)))

-- In an accepted lattice `meet` of two labels returns a label below both.
pub meet-Lower :
    (l : SecurityLattice) (a b : ℕ)
    → IsSized l
    → verify l ≡ (true, accepted)
    → IsLabel l a
    → IsLabel l b
    → (x : ℕ) × (meet l a b ≡ some x) × Lower l a b x
unfolding meet
meet-Lower l a b w e p q =
    let few = w.few in
    let bottom_label = w.bottom_label in
    let o = (verify-Ordered_iff l w).0 e in
    let lower : Lower l a b l.bottom = (
      dominates-inside l a l.bottom p w.bottom_label ∙ o.above_bottom a p,
      dominates-inside l b l.bottom q w.bottom_label ∙ o.above_bottom b q,
    ) in
    meet_loop-total l.count 0 l a b none (omega arith) tt
      (inr (l.bottom, omega arith, omega arith, lower))

-- In an accepted lattice `join` of two labels returns a label above both, the first in index order.
pub join-Upper :
    (l : SecurityLattice) (a b : ℕ)
    → IsSized l
    → verify l ≡ (true, accepted)
    → IsLabel l a
    → IsLabel l b
    → (x : ℕ) × (join l a b ≡ some x) × Upper l a b x × ((y : ℕ) → Upper l a b y → x ≤ y)
unfolding join
join-Upper l a b w e p q =
    let few = w.few in
    let top_label = w.top_label in
    let o = (verify-Ordered_iff l w).0 e in
    let upper : Upper l a b l.top = (
      dominates-inside l l.top a w.top_label p ∙ o.below_top a p,
      dominates-inside l l.top b w.top_label q ∙ o.below_top b q,
    ) in
    let j = join_loop-total l.count 0 l a b l.top (omega arith) (omega arith) (omega arith) upper in
    let s = join_loop-some l.count 0 l a b j.0 (omega arith) j.1 in
    (j.0, j.1, s.0, λ y u. s.3 y (omega arith) u)

-- Where labels are numbered along the order, and two labels have a least upper bound, `join` returns
-- it.
pub join-Least :
    (l : SecurityLattice) (a b x : ℕ)
    → IsSized l
    → verify l ≡ (true, accepted)
    → ((y z : ℕ) → dominates l y z ≡ true → z ≤ y)
    → Least l a b x
    → join l a b ≡ some x
join-Least l a b x w e numbered least =
    let inside = dominates-IsLabel l x a least.0.0 in
    let other = dominates-IsLabel l x b least.0.1 in
    let j = join-Upper l a b w e inside.1 other.1 in
    let below = j.3 x least.0 in
    let above = numbered j.0 x (least.1 j.0 j.2) in j.1 ∙ ap some (omega arith)
