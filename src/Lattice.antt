-- ===== src/Lattice.antt =====
-- kernel/src/lattice.rs: the security lattice as a dominance matrix, its access checks, its bounds
-- and the check that a proposed lattice has to pass.
pub mod JoinLoop
pub mod Loops
pub mod Axioms
pub mod Bounds
pub mod Reconfigure
pub mod Flow
mod Tests
use axiom_os.Base.{
  leb, ◌==◌, if◌then◌else◌, length, get_or, set, take, replicate, overwrite, u8, ℕ, zero, suc, ◌+◌,
  min, Bool, true, false, not, ◌&&◌, ◌||◌, Option, none, some, List, [], ◌∷◌,
}

-- `struct LatticeNode`
pub record LatticeNode : Type 0 where
  pub name : List ℕ
  pub level : ℕ

unfoldable pub make_name : List ℕ → List ℕ
make_name s = let len = min (length s) 15 in overwrite (replicate 16 0) 0 (take len s)

-- `iter().position(|&b| b == 0)`
unfoldable pub position_zero : List ℕ → Option ℕ
position_zero [] = none
position_zero (b ∷ bs) =
    let rest = position_zero bs in
    if b == 0 then some 0 else elim rest [ none ↦ none | some i ↦ some (i + 1) ]

-- The bytes of the name before its first zero; they are ASCII in every name of the kernel.
unfoldable pub name_str : LatticeNode → List ℕ
unfolding position_zero
name_str n = let end : ℕ = elim (position_zero n.name) [ none ↦ 16 | some i ↦ i ] in take end n.name

-- A label is its index, a byte.
pub record SecurityLattice : Type 0 where
  pub nodes : List (Option LatticeNode)
  pub dom : List (List Bool)
  pub count : ℕ
  pub bottom : ℕ
  pub top : ℕ

-- `self.dom[i][j]`
unfoldable pub dom_at : SecurityLattice → ℕ → ℕ → Bool
dom_at l i j = get_or (get_or l.dom i []) j false

unfoldable pub set_dom : List (List Bool) → ℕ → ℕ → Bool → List (List Bool)
set_dom d i j v = set d i (set (get_or d i []) j v)

unfoldable pub dominates : SecurityLattice → ℕ → ℕ → Bool
unfolding dom_at
dominates l a b = if leb l.count a || leb l.count b then false else dom_at l a b

unfoldable pub may_read : SecurityLattice → ℕ → ℕ → Bool
may_read l subject obj = dominates l subject obj

unfoldable pub may_write : SecurityLattice → ℕ → ℕ → Bool
may_write l subject obj = dominates l obj subject

-- The loop of `join` from `i` on, `n` turns left.
unfoldable pub join_loop : ℕ → ℕ → SecurityLattice → ℕ → ℕ → Option ℕ
join_loop zero i l a b = none
join_loop (suc n) i l a b =
    let rest = join_loop n (i + 1) l a b in
    if dominates l (u8 i) a && dominates l (u8 i) b then some (u8 i) else rest

unfoldable pub join : SecurityLattice → ℕ → ℕ → Option ℕ
unfolding join_loop
join l a b = join_loop l.count 0 l a b

-- `best` after a lower bound `x` is met
unfoldable pub better : SecurityLattice → Option ℕ → ℕ → ℕ
better l none x = x
better l (some prev) x = if dominates l x prev then x else prev

unfoldable pub meet_loop : ℕ → ℕ → SecurityLattice → ℕ → ℕ → Option ℕ → Option ℕ
unfolding better
meet_loop zero i l a b best = best
meet_loop (suc n) i l a b best =
    meet_loop n (i + 1) l a b
      (if dominates l a (u8 i) && dominates l b (u8 i) then some (better l best (u8 i)) else best)

unfoldable pub meet : SecurityLattice → ℕ → ℕ → Option ℕ
unfolding meet_loop
meet l a b = meet_loop l.count 0 l a b none

-- `for i in from..from + n` with a return on the first `i` that fails `p`
unfoldable pub for_all : ℕ → ℕ → (ℕ → Bool) → Bool
for_all zero from p = true
for_all (suc n) from p = p from && for_all n (from + 1) p

unfoldable pub is_some {ℓ} : {A : Type ℓ} → Option A → Bool
is_some none = false
is_some (some a) = true

-- The reasons that `verify` gives.
pub data Reason : Type 0 where
  accepted : Reason
  reflexivity_violated : Reason
  antisymmetry_violated : Reason
  transitivity_violated : Reason
  bottom_bound_violated : Reason
  top_bound_violated : Reason
  join_does_not_exist : Reason
  meet_does_not_exist : Reason

unfoldable pub reflexive : SecurityLattice → Bool
unfolding for_all
reflexive l = for_all l.count 0 (λ i. dom_at l i i)

unfoldable pub antisymmetric : SecurityLattice → Bool
unfolding for_all
antisymmetric l =
    for_all l.count 0
      (λ i. for_all l.count 0 (λ j. not (not (i == j) && (dom_at l i j && dom_at l j i))))

unfoldable pub transitive : SecurityLattice → Bool
unfolding for_all
transitive l = for_all l.count 0 (λ i.
    for_all l.count 0
      (λ j. for_all l.count 0 (λ k. not (dom_at l i j && (dom_at l j k && not (dom_at l i k))))))

unfoldable pub bounded_below : SecurityLattice → Bool
unfolding for_all
bounded_below l = for_all l.count 0 (λ i. dom_at l i l.bottom)

unfoldable pub bounded_above : SecurityLattice → Bool
unfolding for_all
bounded_above l = for_all l.count 0 (λ i. dom_at l l.top i)

unfoldable pub joins_exist : SecurityLattice → Bool
unfolding for_all is_some
joins_exist l = for_all l.count 0 (λ i. for_all l.count 0 (λ j. is_some (join l (u8 i) (u8 j))))

unfoldable pub meets_exist : SecurityLattice → Bool
unfolding for_all is_some
meets_exist l = for_all l.count 0 (λ i. for_all l.count 0 (λ j. is_some (meet l (u8 i) (u8 j))))

unfoldable pub verify : SecurityLattice → Bool × Reason
unfolding reflexive antisymmetric transitive bounded_below bounded_above joins_exist meets_exist
verify l =
    if not (reflexive l)
    then (false, reflexivity_violated)
    else if not (antisymmetric l)
    then (false, antisymmetry_violated)
    else if not (transitive l)
    then (false, transitivity_violated)
    else if not (bounded_below l)
    then (false, bottom_bound_violated)
    else if not (bounded_above l)
    then (false, top_bound_violated)
    else if not (joins_exist l)
    then (false, join_does_not_exist)
    else if not (meets_exist l)
    then (false, meet_does_not_exist)
    else (true, accepted)

-- `default_blp`: the loops that fill the names and the matrix.
unfoldable pub default_dom : ℕ → ℕ → List (List Bool) → List (List Bool)
unfolding set_dom
default_dom zero i d = d
default_dom (suc n) i d = default_dom n (i + 1) (fill_row 4 0 d)
  where
    fill_row : ℕ → ℕ → List (List Bool) → List (List Bool)
    fill_row zero j d = d
    fill_row (suc m) j d = fill_row m (j + 1) (set_dom d i j (leb j i))

abbrev unclassified : List ℕ
unclassified =
    0x55 ∷ 0x6e ∷ 0x63 ∷ 0x6c ∷ 0x61 ∷ 0x73 ∷ 0x73 ∷ 0x69 ∷ 0x66 ∷ 0x69 ∷ 0x65 ∷ 0x64 ∷ []

abbrev confidential : List ℕ
confidential =
    0x43 ∷ 0x6f ∷ 0x6e ∷ 0x66 ∷ 0x69 ∷ 0x64 ∷ 0x65 ∷ 0x6e ∷ 0x74 ∷ 0x69 ∷ 0x61 ∷ 0x6c ∷ []

abbrev secret : List ℕ
secret = 0x53 ∷ 0x65 ∷ 0x63 ∷ 0x72 ∷ 0x65 ∷ 0x74 ∷ []

abbrev top_secret : List ℕ
top_secret = 0x54 ∷ 0x6f ∷ 0x70 ∷ 0x53 ∷ 0x65 ∷ 0x63 ∷ 0x72 ∷ 0x65 ∷ 0x74 ∷ []

unfoldable pub default_blp : SecurityLattice
unfolding default_dom make_name
default_blp =
    let node : List ℕ → ℕ → Option LatticeNode =
      λ s i. some (record { name = make_name s; level = i }) in
    record {
      nodes =
          node unclassified 0
          ∷ node confidential 1
          ∷ node secret 2
          ∷ node top_secret 3
          ∷ replicate 4 none;
      dom = default_dom 4 0 (replicate 8 (replicate 8 false));
      count = 4;
      bottom = 0;
      top = 3;
    }

-- The reconfiguration of `run_demo`: level 4 becomes the new top. Its loops run over `j` in 0..5 and
-- `i` in 0..4.
unfoldable pub dominate_all : ℕ → ℕ → List (List Bool) → List (List Bool)
unfolding set_dom
dominate_all zero j d = d
dominate_all (suc n) j d = dominate_all n (j + 1) (set_dom d 4 j true)

unfoldable pub dominated_by_none : ℕ → ℕ → List (List Bool) → List (List Bool)
unfolding set_dom
dominated_by_none zero i d = d
dominated_by_none (suc n) i d = dominated_by_none n (i + 1) (set_dom d i 4 false)

abbrev ts_sci : List ℕ
ts_sci = 0x54 ∷ 0x53 ∷ 0x2d ∷ 0x53 ∷ 0x43 ∷ 0x49 ∷ []

unfoldable pub add_ts_sci : SecurityLattice → SecurityLattice
unfolding dominate_all dominated_by_none make_name
add_ts_sci l = record l {
  nodes = set l.nodes 4 (some (record { name = make_name ts_sci; level = 4 }));
  count = 5;
  top = 4;
  dom = dominated_by_none 4 0 (dominate_all 5 0 l.dom);
}
