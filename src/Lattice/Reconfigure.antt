-- ===== src/Lattice/Reconfigure.antt =====
-- The reconfiguration in kernel/src/lattice.rs that puts a new top above a lattice of four labels.
use axiom_os.Base.{
  eq_or_lt, lt_or_le, nat-cases, length, get_or, set, length-set, get_or-set_self, get_or-set_ne,
  get_or_past, ℕ, zero, suc, ◌+◌, ◌≤◌, ◌<◌, ◌≡◌, refl, sym, ap, ◌∙◌, ◌≢◌, ◌⊎◌, inl, inr, Bool, true,
  false, List, [], arith,
}
use axiom_os.Lattice.{
  SecurityLattice, dom_at, set_dom, dominates, verify, accepted, dominate_all, dominated_by_none,
  add_ts_sci,
}
use axiom_os.Lattice.Loops.{dominates-inside}
use axiom_os.Lattice.Axioms.{IsSized, Ordered, verify-Ordered_iff}

-- `d[i][j]`
abbrev cell : List (List Bool) → ℕ → ℕ → Bool
cell d i j = get_or (get_or d i []) j false

-- Eight rows of eight.
abbrev pub IsSquare : List (List Bool) → Type 0
IsSquare d = (length d ≡ 8) × ((i : ℕ) → i < 8 → length (get_or d i []) ≡ 8)

set_dom-IsSquare :
    (d : List (List Bool)) (i j : ℕ) (v : Bool) → i < 8 → IsSquare d → IsSquare (set_dom d i j v)
unfolding set_dom
set_dom-IsSquare d i j v p s = (length-set d i _ ∙ s.0, rows)
  where
    rows : (k : ℕ) → k < 8 → length (get_or (set d i (set (get_or d i []) j v)) k []) ≡ 8
    rows k h = elim (nat-cases i k) [
      | inl same ↦
          ap (λ n. length (get_or (set d i (set (get_or d i []) j v)) n [])) (sym same)
          ∙ ap length (get_or-set_self d i (set (get_or d i []) j v) [] (omega (arith, s.0)))
          ∙ length-set (get_or d i []) j v
          ∙ s.1 i p
      | inr other ↦ ap length (get_or-set_ne d i k (set (get_or d i []) j v) [] other) ∙ s.1 k h
    ]

set_dom-here :
    (d : List (List Bool)) (i j : ℕ) (v : Bool)
    → i < 8
    → j < 8
    → IsSquare d
    → cell (set_dom d i j v) i j ≡ v
unfolding set_dom
set_dom-here d i j v p q s =
    ap (λ r. get_or r j false)
      (get_or-set_self d i (set (get_or d i []) j v) [] (omega (arith, s.0)))
    ∙ get_or-set_self (get_or d i []) j v false (omega (arith, s.1 i p))

set_dom-row :
    (d : List (List Bool)) (i j a b : ℕ) (v : Bool)
    → i ≢ a
    → cell (set_dom d i j v) a b ≡ cell d a b
unfolding set_dom
set_dom-row d i j a b v other =
    ap (λ r. get_or r b false) (get_or-set_ne d i a (set (get_or d i []) j v) [] other)

set_dom-column :
    (d : List (List Bool)) (i j b : ℕ) (v : Bool)
    → i < 8
    → IsSquare d
    → j ≢ b
    → cell (set_dom d i j v) i b ≡ cell d i b
unfolding set_dom
set_dom-column d i j b v p s other =
    ap (λ r. get_or r b false)
      (get_or-set_self d i (set (get_or d i []) j v) [] (omega (arith, s.0)))
    ∙ get_or-set_ne (get_or d i []) j b v false other

-- The loop that lets label 4 dominate the labels from `j` on.
dominate_all-rows :
    (n j : ℕ) (d : List (List Bool)) (a b : ℕ) → a ≢ 4 → cell (dominate_all n j d) a b ≡ cell d a b
unfolding dominate_all
dominate_all-rows zero j d a b other = refl
dominate_all-rows (suc n) j d a b other =
    dominate_all-rows n (j + 1) (set_dom d 4 j true) a b other
    ∙ set_dom-row d 4 j a b true (λ e. other (sym e))

dominate_all-kept :
    (n j : ℕ) (d : List (List Bool)) (b : ℕ)
    → IsSquare d
    → cell d 4 b ≡ true
    → cell (dominate_all n j d) 4 b ≡ true
unfolding dominate_all
dominate_all-kept zero j d b s e = e
dominate_all-kept (suc n) j d b s e =
    dominate_all-kept n (j + 1) (set_dom d 4 j true) b (set_dom-IsSquare d 4 j true (omega arith) s)
      (elim (nat-cases j b) [
        | inl same ↦ elim (lt_or_le b 8) [
          | inl inside ↦
              ap (cell (set_dom d 4 j true) 4) (sym same)
              ∙ set_dom-here d 4 j true (omega arith) (omega arith) s
          | inr past ↦ absurd (past_row (get_or d 4 []) b (omega (arith, s.1 4 (omega arith))) e)
        ]
        | inr other ↦ set_dom-column d 4 j b true (omega arith) s other ∙ e
      ])
  where
    past_row : (r : List Bool) (k : ℕ) → length r ≤ k → get_or r k false ≢ true
    past_row r k h e = let none_there = get_or_past r k false h in ground arith

dominate_all-IsSquare :
    (n j : ℕ) (d : List (List Bool)) → IsSquare d → IsSquare (dominate_all n j d)
unfolding dominate_all
dominate_all-IsSquare zero j d s = s
dominate_all-IsSquare (suc n) j d s =
    dominate_all-IsSquare n (j + 1) (set_dom d 4 j true)
      (set_dom-IsSquare d 4 j true (omega arith) s)

dominate_all-top :
    (n j : ℕ) (d : List (List Bool)) (b : ℕ)
    → IsSquare d
    → j ≤ b
    → b < j + n
    → j + n ≤ 8
    → cell (dominate_all n j d) 4 b ≡ true
unfolding dominate_all
dominate_all-top zero j d b s from to inside = absurd (omega arith)
dominate_all-top (suc n) j d b s from to inside =
    let t = set_dom-IsSquare d 4 j true (omega arith) s in
    elim (eq_or_lt j b from) [
      | inl same ↦ dominate_all-kept n (j + 1) (set_dom d 4 j true) b t (
          ap (cell (set_dom d 4 j true) 4) (sym same)
          ∙ set_dom-here d 4 j true (omega arith) (omega arith) s)
      | inr above ↦
          dominate_all-top n (j + 1) (set_dom d 4 j true) b t (omega arith) (omega arith)
            (omega arith)
    ]

-- The loop that takes label 4 from what the labels from `i` on dominate.
dominated_by_none-columns :
    (n i : ℕ) (d : List (List Bool)) (a b : ℕ)
    → IsSquare d
    → i + n ≤ 8
    → b ≢ 4
    → cell (dominated_by_none n i d) a b ≡ cell d a b
unfolding dominated_by_none
dominated_by_none-columns zero i d a b s inside other = refl
dominated_by_none-columns (suc n) i d a b s inside other =
    dominated_by_none-columns n (i + 1) (set_dom d i 4 false) a b
      (set_dom-IsSquare d i 4 false (omega arith) s) (omega arith) other
    ∙ (elim (nat-cases i a) [
      | inl same ↦
          ap (λ k. cell (set_dom d i 4 false) k b) (sym same)
          ∙ set_dom-column d i 4 b false (omega arith) s (λ e. other (sym e))
          ∙ ap (λ k. cell d k b) same
      | inr apart ↦ set_dom-row d i 4 a b false apart
    ])

-- A row that the loop does not come to, or has been at, keeps what it has.
dominated_by_none-outside :
    (n i : ℕ) (d : List (List Bool)) (a b : ℕ)
    → (a < i) ⊎ (i + n ≤ a)
    → cell (dominated_by_none n i d) a b ≡ cell d a b
unfolding dominated_by_none
dominated_by_none-outside zero i d a b out = refl
dominated_by_none-outside (suc n) i d a b out =
    dominated_by_none-outside n (i + 1) (set_dom d i 4 false) a b (omega arith)
    ∙ set_dom-row d i 4 a b false (omega arith)

dominated_by_none-cleared :
    (n i : ℕ) (d : List (List Bool)) (a : ℕ)
    → IsSquare d
    → i + n ≤ 8
    → i ≤ a
    → a < i + n
    → cell (dominated_by_none n i d) a 4 ≡ false
unfolding dominated_by_none
dominated_by_none-cleared zero i d a s inside from to = absurd (omega arith)
dominated_by_none-cleared (suc n) i d a s inside from to = elim (eq_or_lt i a from) [
  | inl same ↦
      dominated_by_none-outside n (i + 1) (set_dom d i 4 false) a 4 (omega arith)
      ∙ ap (λ k. cell (set_dom d i 4 false) k 4) (sym same)
      ∙ set_dom-here d i 4 false (omega arith) (omega arith) s
  | inr above ↦
      dominated_by_none-cleared n (i + 1) (set_dom d i 4 false) a
        (set_dom-IsSquare d i 4 false (omega arith) s) (omega arith) (omega arith) (omega arith)
]

-- The matrix afterwards, on the five labels.
top-row : (l : SecurityLattice) (b : ℕ) → IsSquare l.dom → b < 5 → dom_at (add_ts_sci l) 4 b ≡ true
unfolding add_ts_sci dom_at
top-row l b s h =
    dominated_by_none-outside 4 0 (dominate_all 5 0 l.dom) 4 b (omega arith)
    ∙ dominate_all-top 5 0 l.dom b s (omega arith) (omega arith) (omega arith)

top-column :
    (l : SecurityLattice) (a : ℕ) → IsSquare l.dom → a < 4 → dom_at (add_ts_sci l) a 4 ≡ false
unfolding add_ts_sci dom_at
top-column l a s h =
    dominated_by_none-cleared 4 0 (dominate_all 5 0 l.dom) a (dominate_all-IsSquare 5 0 l.dom s)
      (omega arith) (omega arith) (omega arith)

old-cells :
    (l : SecurityLattice) (a b : ℕ)
    → IsSquare l.dom
    → a < 4
    → b < 4
    → dom_at (add_ts_sci l) a b ≡ dom_at l a b
unfolding add_ts_sci dom_at
old-cells l a b s p q =
    dominated_by_none-columns 4 0 (dominate_all 5 0 l.dom) a b (dominate_all-IsSquare 5 0 l.dom s)
      (omega arith) (omega arith)
    ∙ dominate_all-rows 5 0 l.dom a b (omega arith)

label-cases : (a : ℕ) → a < 5 → (a < 4) ⊎ (a ≡ 4)
label-cases a h = grind arith

top_above :
    (l : SecurityLattice) (a b : ℕ)
    → IsSquare l.dom
    → a ≡ 4
    → b < 5
    → dom_at (add_ts_sci l) a b ≡ true
top_above l a b s e h = ap (λ k. dom_at (add_ts_sci l) k b) e ∙ top-row l b s h

-- What an old label dominates is an old label, and was dominated before.
below_old :
    (l : SecurityLattice) (a b : ℕ)
    → IsSquare l.dom
    → a < 4
    → b < 5
    → dom_at (add_ts_sci l) a b ≡ true
    → (b < 4) × (dom_at l a b ≡ true)
below_old l a b s p q h = elim (label-cases b q) [
  | inl old ↦ (old, sym (old-cells l a b s p old) ∙ h)
  | inr new ↦
      absurd
        (false-true (sym (top-column l a s p) ∙ ap (λ k. dom_at (add_ts_sci l) a k) (sym new) ∙ h))
]
  where
    false-true : false ≢ true
    false-true e = ground arith

add_ts_sci-Ordered :
    (l : SecurityLattice)
    → IsSquare l.dom
    → l.count ≡ 4
    → l.bottom < 4
    → Ordered l
    → Ordered (add_ts_sci l)
unfolding add_ts_sci
add_ts_sci-Ordered l s four low o = record {
  reflexivity = λ a p. elim (label-cases a p) [
    | inl old ↦ old-cells l a a s old old ∙ o.reflexivity a (omega arith)
    | inr new ↦ top_above l a a s new p
  ];
  antisymmetry = λ a b p q h k. elim (label-cases a p) [
    | inl old ↦
        let down = below_old l a b s old q h in
        let below = down.0 in
        o.antisymmetry a b (omega arith) (omega arith) down.1 (below_old l b a s below p k).1
    | inr new ↦ elim (label-cases b q) [
      | inl old ↦ let up = (below_old l b a s old p k).0 in absurd (omega arith)
      | inr also ↦ new ∙ sym also
    ]
  ];
  transitivity = λ a b c p q r h k. elim (label-cases a p) [
    | inr new ↦ top_above l a c s new r
    | inl old ↦
        let down = below_old l a b s old q h in
        let below = down.0 in
        let further = below_old l b c s below r k in
        let lowest = further.0 in
        old-cells l a c s old lowest
        ∙ o.transitivity a b c (omega arith) (omega arith) (omega arith) down.1 further.1
  ];
  above_bottom = λ a p. elim (label-cases a p) [
    | inl old ↦ old-cells l a l.bottom s old low ∙ o.above_bottom a (omega arith)
    | inr new ↦ top_above l a l.bottom s new (omega arith)
  ];
  below_top = λ a p. top-row l a s p;
}

-- A lattice of four labels that verify accepts is accepted after the reconfiguration too. The order of
-- the four labels is as it was; the new label dominates each of the five, and none of the four
-- dominates it.
pub add_ts_sci-accepted :
    (l : SecurityLattice)
    → IsSquare l.dom
    → l.count ≡ 4
    → IsSized l
    → verify l ≡ (true, accepted)
    → (verify (add_ts_sci l) ≡ (true, accepted))
      × ((a b : ℕ) → a < 4 → b < 4 → dominates (add_ts_sci l) a b ≡ dominates l a b)
      × ((a : ℕ) → a < 5 → dominates (add_ts_sci l) 4 a ≡ true)
      × ((a : ℕ) → a < 4 → dominates (add_ts_sci l) a 4 ≡ false)
add_ts_sci-accepted l s four w e =
    let low = w.bottom_label in
    let bigger : IsSized (add_ts_sci l) =
      unfold add_ts_sci in
      record { few = omega arith; bottom_label = omega arith; top_label = omega arith } in
    let five : (add_ts_sci l).count ≡ 5 = unfold add_ts_sci in refl in
    (
      (verify-Ordered_iff (add_ts_sci l) bigger).1
          (add_ts_sci-Ordered l s four (omega arith) ((verify-Ordered_iff l w).0 e)),
      λ a b p q.
          dominates-inside (add_ts_sci l) a b (omega arith) (omega arith)
          ∙ old-cells l a b s p q
          ∙ sym (dominates-inside l a b (omega arith) (omega arith)),
      λ a p. dominates-inside (add_ts_sci l) 4 a (omega arith) (omega arith) ∙ top-row l a s p,
      λ a p. dominates-inside (add_ts_sci l) a 4 (omega arith) (omega arith) ∙ top-column l a s p,
    )
