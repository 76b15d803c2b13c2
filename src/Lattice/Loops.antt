-- ===== src/Lattice/Loops.antt =====
-- What the counted loops of the lattice find.
use native.Mathlib.Nat.{mod-eq_of_lt}
use axiom_os.Base.{
  Bool-cases, &&_iff, eq_or_lt, u8, ℕ, zero, suc, ◌+◌, ◌≤◌, ◌<◌, ◌≡◌, refl, sym, ap, subst, ◌∙◌,
  ◌↔◌, ◌⊎◌, inl, inr, Bool, true, false, ◌&&◌, Option, none, some, arith,
}
use axiom_os.Lattice.{SecurityLattice, for_all, dominates, dom_at, meet_loop, better}

pub for_all_iff :
    (n from : ℕ) (p : ℕ → Bool)
    → (for_all n from p ≡ true) ↔ ((i : ℕ) → from ≤ i → i < from + n → p i ≡ true)
unfolding for_all
for_all_iff zero from p = (λ e i h k. absurd (omega arith), λ f. refl)
for_all_iff (suc n) from p =
    let rest = for_all_iff n (from + 1) p in
    let both = &&_iff (p from) (for_all n (from + 1) p) in
    (
      λ e i h k. elim (eq_or_lt from i h) [
        | inl same ↦ rw (← same) ((both.0 e).0)
        | inr above ↦ rest.0 (both.0 e).1 i (omega arith) (omega arith)
      ],
      λ f.
          both.1
            (f from (omega arith) (omega arith), rest.1 (λ i h k. f i (omega arith) (omega arith))),
    )

-- From 0 on, as all the checks run.
pub below_iff : (n : ℕ) (p : ℕ → Bool) → (for_all n 0 p ≡ true) ↔ ((i : ℕ) → i < n → p i ≡ true)
below_iff n p =
    let w = for_all_iff n 0 p in
    (λ e i h. w.0 e i (omega arith) (omega arith), λ f. w.1 (λ i h k. f i (omega arith)))

-- The bounds that `join` and `meet` look for.
abbrev pub Upper : SecurityLattice → ℕ → ℕ → ℕ → Type 0
Upper l a b x = (dominates l x a ≡ true) × (dominates l x b ≡ true)

abbrev pub Lower : SecurityLattice → ℕ → ℕ → ℕ → Type 0
Lower l a b x = (dominates l a x ≡ true) × (dominates l b x ≡ true)

abbrev pub IsLabel : SecurityLattice → ℕ → Type 0
IsLabel l x = x < l.count

pub u8_small : (i : ℕ) → i < 256 → u8 i ≡ i
u8_small i h = mod-eq_of_lt h

-- The dominance check inside the lattice is the matrix.
pub dominates-inside :
    (l : SecurityLattice) (a b : ℕ) → IsLabel l a → IsLabel l b → dominates l a b ≡ dom_at l a b
unfolding dominates
dominates-inside l a b p q = ground arith

-- Outside of it there is no dominance.
pub dominates-IsLabel :
    (l : SecurityLattice) (a b : ℕ) → dominates l a b ≡ true → IsLabel l a × IsLabel l b
unfolding dominates
dominates-IsLabel l a b h = ground arith

meet_hit :
    (n i : ℕ) (l : SecurityLattice) (a b : ℕ) (best : Option ℕ)
    → i < 256
    → (dominates l a i && dominates l b i) ≡ true
    → meet_loop (suc n) i l a b best ≡ meet_loop n (i + 1) l a b (some (better l best i))
unfolding meet_loop
meet_hit n i l a b best h e = rw (u8_small i h, e) refl

meet_miss :
    (n i : ℕ) (l : SecurityLattice) (a b : ℕ) (best : Option ℕ)
    → i < 256
    → (dominates l a i && dominates l b i) ≡ false
    → meet_loop (suc n) i l a b best ≡ meet_loop n (i + 1) l a b best
unfolding meet_loop
meet_miss n i l a b best h e = rw (u8_small i h, e) refl

-- A label that dominates every lower bound, and is one.
abbrev pub Greatest : SecurityLattice → ℕ → ℕ → ℕ → Type 0
Greatest l a b g = Lower l a b g × ((x : ℕ) → Lower l a b x → dominates l g x ≡ true)

abbrev pub LowerBest : SecurityLattice → ℕ → ℕ → Option ℕ → Type 0
LowerBest l a b none = Unit
LowerBest l a b (some x) = Lower l a b x

better-Lower :
    (l : SecurityLattice) (a b i : ℕ) (best : Option ℕ)
    → LowerBest l a b best
    → Lower l a b i
    → Lower l a b (better l best i)
unfolding better
better-Lower l a b i none p q = q
better-Lower l a b i (some prev) p q = elim (Bool-cases (dominates l i prev)) [
  | inl above ↦ rw above q
  | inr aside ↦ rw aside p
]

-- The loop of `meet` returns a lower bound as soon as there is one.
pub meet_loop-total :
    (n i : ℕ) (l : SecurityLattice) (a b : ℕ) (best : Option ℕ)
    → i + n ≤ 256
    → LowerBest l a b best
    → ((x : ℕ) × (best ≡ some x)) ⊎ ((x : ℕ) × (i ≤ x) × (x < i + n) × Lower l a b x)
    → (y : ℕ) × (meet_loop n i l a b best ≡ some y) × Lower l a b y
meet_loop-total zero i l a b best h p (inl q) =
    (q.0, unfold meet_loop in q.1, subst (LowerBest l a b) q.1 p)
meet_loop-total zero i l a b best h p (inr q) = absurd (omega (arith, q.1, q.2))
meet_loop-total (suc n) i l a b best h p q =
    elim (Bool-cases (dominates l a i && dominates l b i)) [
      | inl found ↦
          let low = (&&_iff (dominates l a i) (dominates l b i)).0 found in
          let next =
            meet_loop-total n (i + 1) l a b (some (better l best i)) (omega arith)
              (better-Lower l a b i best p low) (inl (better l best i, refl)) in
          (next.0, meet_hit n i l a b best (omega arith) found ∙ next.1, next.2)
      | inr miss ↦
          let next = meet_loop-total n (i + 1) l a b best (omega arith) p (later q miss) in
          (next.0, meet_miss n i l a b best (omega arith) miss ∙ next.1, next.2)
    ]
  where
    later :
        ((x : ℕ) × (best ≡ some x)) ⊎ ((x : ℕ) × (i ≤ x) × (x < i + suc n) × Lower l a b x)
        → (dominates l a i && dominates l b i) ≡ false
        → ((x : ℕ) × (best ≡ some x)) ⊎ ((x : ℕ) × (i + 1 ≤ x) × (x < i + 1 + n) × Lower l a b x)
    later (inl q) miss = inl q
    later (inr q) miss = elim (eq_or_lt i q.0 q.1) [
      | inl same ↦ absurd (
          let low : Lower l a b i = subst (Lower l a b) (sym same) q.3 in
          let l0 = low.0 in let l1 = low.1 in ground arith)
      | inr above ↦ inr (q.0, omega arith, omega (arith, q.2), q.3)
    ]

better-Greatest :
    (l : SecurityLattice) (a b g i : ℕ)
    → ((x y : ℕ) → dominates l x y ≡ true → dominates l y x ≡ true → x ≡ y)
    → Greatest l a b g
    → Lower l a b i
    → better l (some g) i ≡ g
unfolding better
better-Greatest l a b g i anti great low = elim (Bool-cases (dominates l i g)) [
  | inl above ↦ rw above (anti i g above (great.1 i low))
  | inr aside ↦ rw aside refl
]

better-reached :
    (l : SecurityLattice) (a b g : ℕ) (best : Option ℕ)
    → Greatest l a b g
    → LowerBest l a b best
    → better l best g ≡ g
unfolding better
better-reached l a b g none great p = refl
better-reached l a b g (some prev) great p = rw (great.1 prev p) refl

-- Where a greatest lower bound exists, in an order that tells labels apart, the loop ends with it.
pub meet_loop-Greatest :
    (n i : ℕ) (l : SecurityLattice) (a b g : ℕ) (best : Option ℕ)
    → ((x y : ℕ) → dominates l x y ≡ true → dominates l y x ≡ true → x ≡ y)
    → Greatest l a b g
    → i + n ≤ 256
    → LowerBest l a b best
    → (best ≡ some g) ⊎ ((i ≤ g) × (g < i + n))
    → meet_loop n i l a b best ≡ some g
meet_loop-Greatest zero i l a b g best anti great h p (inl q) = unfold meet_loop in q
meet_loop-Greatest zero i l a b g best anti great h p (inr q) = absurd (omega (arith, q.0, q.1))
meet_loop-Greatest (suc n) i l a b g best anti great h p q =
    elim (Bool-cases (dominates l a i && dominates l b i)) [
      | inl found ↦
          let low = (&&_iff (dominates l a i) (dominates l b i)).0 found in
          meet_hit n i l a b best (omega arith) found
          ∙ meet_loop-Greatest n (i + 1) l a b g (some (better l best i)) anti great (omega arith)
              (better-Lower l a b i best p low) (onward q low)
      | inr miss ↦
          meet_miss n i l a b best (omega arith) miss
          ∙ meet_loop-Greatest n (i + 1) l a b g best anti great (omega arith) p (skip q miss)
    ]
  where
    skip :
        (best ≡ some g) ⊎ ((i ≤ g) × (g < i + suc n))
        → (dominates l a i && dominates l b i) ≡ false
        → (best ≡ some g) ⊎ ((i + 1 ≤ g) × (g < i + 1 + n))
    skip (inl q) miss = inl q
    skip (inr q) miss = elim (eq_or_lt i g q.0) [
      | inl same ↦ absurd (
          let low : Lower l a b i = subst (Lower l a b) (sym same) great.0 in
          let l0 = low.0 in let l1 = low.1 in ground arith)
      | inr above ↦ inr (omega arith, omega (arith, q.1))
    ]

    keep : (best ≡ some g) → Lower l a b i → better l best i ≡ g
    keep e low = rw e (better-Greatest l a b g i anti great low)

    reach : i ≡ g → LowerBest l a b best → better l best i ≡ g
    reach e p = ap (better l best) e ∙ better-reached l a b g best great p

    onward :
        (best ≡ some g) ⊎ ((i ≤ g) × (g < i + suc n))
        → Lower l a b i
        → (some (better l best i) ≡ some g) ⊎ ((i + 1 ≤ g) × (g < i + 1 + n))
    onward (inl q) low = inl (ap some (keep q low))
    onward (inr q) low = elim (eq_or_lt i g q.0) [
      | inl same ↦ inl (ap some (reach same p))
      | inr above ↦ inr (omega arith, omega (arith, q.1))
    ]
