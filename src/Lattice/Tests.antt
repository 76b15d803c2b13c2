-- ===== src/Lattice/Tests.antt =====
-- The default lattice, and the theorems applied to it.
use axiom_os.Base.{
  length, get_or, replicate, ℕ, zero, suc, ◌≤◌, ◌<◌, ◌≡◌, refl, ◌≢◌, ◌↔◌, true, false, none, some,
  [], ◌∷◌, arith,
}
use axiom_os.Lattice.{
  SecurityLattice, dominates, dom_at, may_read, may_write, join, meet, join_loop, meet_loop, better,
  for_all, is_some, reflexive, antisymmetric, transitive, bounded_below, bounded_above, joins_exist,
  meets_exist, verify, accepted, default_blp, default_dom, set_dom, add_ts_sci,
}
use axiom_os.Lattice.Loops.{Lower, dominates-IsLabel}
use axiom_os.Lattice.Axioms.{IsSized, Ordered, verify-Ordered_iff}
use axiom_os.Lattice.Reconfigure.{IsSquare, add_ts_sci-accepted}
use axiom_os.Lattice.Bounds.{join-Least}

blp-IsSized : IsSized default_blp
unfolding default_blp
blp-IsSized = record { few = omega arith; bottom_label = omega arith; top_label = omega arith }

blp_accepted : verify default_blp ≡ (true, accepted)
unfolding default_blp verify reflexive antisymmetric transitive bounded_below bounded_above
    joins_exist meets_exist for_all is_some join meet join_loop meet_loop better dominates dom_at
    default_dom set_dom
blp_accepted = refl

verify-Ordered_iff_example : (verify default_blp ≡ (true, accepted)) ↔ Ordered default_blp
verify-Ordered_iff_example = verify-Ordered_iff default_blp blp-IsSized

read_down : may_read default_blp 2 1 ≡ true
unfolding default_blp may_read dominates dom_at default_dom set_dom
read_down = refl

write_up : may_write default_blp 2 3 ≡ true
unfolding default_blp may_write dominates dom_at default_dom set_dom
write_up = refl

-- Two labels, 0 above 1: the order runs against the index.
abbrev reversed : SecurityLattice
reversed = record {
  nodes = replicate 8 none;
  dom =
      (true ∷ true ∷ replicate 6 false)
      ∷ (false ∷ true ∷ replicate 6 false)
      ∷ replicate 6 (replicate 8 false);
  count = 2;
  bottom = 1;
  top = 0;
}

reversed_accepted : verify reversed ≡ (true, accepted)
unfolding verify reflexive antisymmetric transitive bounded_below bounded_above joins_exist
    meets_exist for_all is_some join meet join_loop meet_loop better dominates dom_at
reversed_accepted = refl

-- The join of 1 with itself is 0, which is not the least upper bound 1.
reversed-join : join reversed 1 1 ≡ some 0
unfolding join join_loop dominates dom_at
reversed-join = refl

level_one : Lower default_blp 2 1 1
unfolding default_blp dominates dom_at default_dom set_dom
level_one = (refl, refl)

-- Two labels numbered along the order.
abbrev two : SecurityLattice
two = record {
  nodes = replicate 8 none;
  dom =
      (true ∷ replicate 7 false)
      ∷ (true ∷ true ∷ replicate 6 false)
      ∷ replicate 6 (replicate 8 false);
  count = 2;
  bottom = 0;
  top = 1;
}

two_accepted : verify two ≡ (true, accepted)
unfolding verify reflexive antisymmetric transitive bounded_below bounded_above joins_exist
    meets_exist for_all is_some join meet join_loop meet_loop better dominates dom_at
two_accepted = refl

not_above : dominates two 0 1 ≢ true
unfolding dominates dom_at
not_above e = ground arith

two_numbered : (y z : ℕ) → dominates two y z ≡ true → z ≤ y
two_numbered y z h = go y z (dominates-IsLabel two y z h) h
  where
    go : (y z : ℕ) → (y < 2) × (z < 2) → dominates two y z ≡ true → z ≤ y
    go zero zero p e = omega arith
    go zero (suc zero) p e = absurd (not_above e)
    go (suc y) zero p e = omega arith
    go (suc y) (suc z) p e = let q = p.1 in omega arith
    go zero (suc (suc z)) p e = let q = p.1 in absurd (omega arith)

join-Least_example : join two 0 1 ≡ some 1
unfolding dominates dom_at
join-Least_example =
    join-Least two 0 1 1
      (record { few = omega arith; bottom_label = omega arith; top_label = omega arith })
      two_accepted two_numbered ((refl, refl), λ y u. u.1)

blp-IsSquare : IsSquare default_blp.dom
unfolding default_blp default_dom set_dom
blp-IsSquare = (refl, rows)
  where
    rows : (i : ℕ) → i < 8 → length (get_or default_blp.dom i []) ≡ 8
    rows zero h = refl
    rows (suc zero) h = refl
    rows (suc (suc zero)) h = refl
    rows (suc (suc (suc zero))) h = refl
    rows (suc (suc (suc (suc zero)))) h = refl
    rows (suc (suc (suc (suc (suc zero))))) h = refl
    rows (suc (suc (suc (suc (suc (suc zero)))))) h = refl
    rows (suc (suc (suc (suc (suc (suc (suc zero))))))) h = refl
    rows (suc (suc (suc (suc (suc (suc (suc (suc i)))))))) h = absurd (omega arith)

blp-four : default_blp.count ≡ 4
unfolding default_blp
blp-four = refl

add_ts_sci-accepted_example :
    (verify (add_ts_sci default_blp) ≡ (true, accepted))
    × ((a b : ℕ)
        → a < 4
        → b < 4
        → dominates (add_ts_sci default_blp) a b ≡ dominates default_blp a b)
    × ((a : ℕ) → a < 5 → dominates (add_ts_sci default_blp) 4 a ≡ true)
    × ((a : ℕ) → a < 4 → dominates (add_ts_sci default_blp) a 4 ≡ false)
add_ts_sci-accepted_example =
    add_ts_sci-accepted default_blp blp-IsSquare blp-four blp-IsSized blp_accepted
