-- ===== src/Lattice/JoinLoop.antt =====
-- The loop of join in kernel/src/lattice.rs: it finds an upper bound when there is one.
use axiom_os.Base.{
  Bool-cases, &&_iff, eq_or_lt, some-injective, ℕ, zero, suc, ◌+◌, ◌≤◌, ◌<◌, ◌≡◌, refl, sym, subst,
  ◌∙◌, inl, inr, true, false, ◌&&◌, some, arith,
}
use axiom_os.Lattice.Loops.{Upper, u8_small}
use axiom_os.Lattice.{SecurityLattice, dominates, join_loop}

join_hit :
    (n i : ℕ) (l : SecurityLattice) (a b : ℕ)
    → i < 256
    → (dominates l i a && dominates l i b) ≡ true
    → join_loop (suc n) i l a b ≡ some i
unfolding join_loop
join_hit n i l a b h e = rw (u8_small i h, e) refl

join_miss :
    (n i : ℕ) (l : SecurityLattice) (a b : ℕ)
    → i < 256
    → (dominates l i a && dominates l i b) ≡ false
    → join_loop (suc n) i l a b ≡ join_loop n (i + 1) l a b
unfolding join_loop
join_miss n i l a b h e = rw (u8_small i h, e) refl

not-Upper :
    (l : SecurityLattice) (a b i : ℕ)
    → (dominates l i a && dominates l i b) ≡ false
    → ¬ Upper l a b i
not-Upper l a b i e u = absurd (ground arith)

-- What the loop of `join` returns is the upper bound of the lowest index.
pub join_loop-some :
    (n i : ℕ) (l : SecurityLattice) (a b x : ℕ)
    → i + n ≤ 256
    → join_loop n i l a b ≡ some x
    → Upper l a b x × (x < i + n) × (i ≤ x) × ((y : ℕ) → i ≤ y → Upper l a b y → x ≤ y)
join_loop-some zero i l a b x h e = absurd (unfold join_loop in ground arith)
join_loop-some (suc n) i l a b x h e = elim (Bool-cases (dominates l i a && dominates l i b)) [
  | inl found ↦
      let same : i ≡ x = some-injective (sym (join_hit n i l a b (omega arith) found) ∙ e) in
      let p = (&&_iff (dominates l i a) (dominates l i b)).0 found in
      rw (← same) (p, omega arith, omega arith, λ y q u. q)
  | inr none_here ↦
      let rest =
        join_loop-some n (i + 1) l a b x (omega arith)
          (sym (join_miss n i l a b (omega arith) none_here) ∙ e) in
      (
        rest.0,
        omega (arith, rest.1),
        omega (arith, rest.2),
        λ y q u. elim (eq_or_lt i y q) [
          | inl same ↦ absurd (not-Upper l a b i none_here (subst (Upper l a b) (sym same) u))
          | inr above ↦ rest.3 y (omega arith) u
        ],
      )
]

pub join_loop-total :
    (n i : ℕ) (l : SecurityLattice) (a b x : ℕ)
    → i + n ≤ 256
    → i ≤ x
    → x < i + n
    → Upper l a b x
    → (y : ℕ) × (join_loop n i l a b ≡ some y)
join_loop-total zero i l a b x h p q u = absurd (omega arith)
join_loop-total (suc n) i l a b x h p q u = elim (Bool-cases (dominates l i a && dominates l i b)) [
  | inl found ↦ (i, join_hit n i l a b (omega arith) found)
  | inr none_here ↦ elim (eq_or_lt i x p) [
    | inl same ↦ absurd (not-Upper l a b i none_here (subst (Upper l a b) (sym same) u))
    | inr above ↦
        let rest = join_loop-total n (i + 1) l a b x (omega arith) (omega arith) (omega arith) u in
        (rest.0, join_miss n i l a b (omega arith) none_here ∙ rest.1)
  ]
]
