-- ===== src/Frames/Distinct.antt =====
-- No frame is handed out twice.
use axiom_os.Base.{
  Bool-cases, some-injective, length, get_elem?, ℕ, zero, suc, ◌+◌, ◌-◌, ◌*◌, ◌%◌, ◌≤◌, ◌<◌, ◌≡◌,
  refl, sym, ap, subst, ◌∙◌, ◌⊎◌, inl, inr, Bool, true, some, List, [], ◌∷◌, ◌++◌, map, arith,
}
use axiom_os.Frames.{
  MemoryRegion, step_by, steps, usable_frames, BootInfoFrameAllocator, allocate_frame, init,
}

-- Whole pages, each region at or behind the end of the one before.
abbrev pub IsMap : {Kind : Type 0} → ℕ → List (MemoryRegion Kind) → Type 0
IsMap low [] = Unit
IsMap low (r ∷ rs) =
    (low ≤ r.start) × (r.start ≤ r.end) × (r.start % 4096 ≡ 0) × (r.end % 4096 ≡ 0) × IsMap r.end rs

-- Frames one behind the other, none below `low`.
abbrev pub Ascending : ℕ → List ℕ → Type 0
Ascending low [] = Unit
Ascending low (f ∷ fs) = (low ≤ f) × Ascending (f + 4096) fs

Ascending-low : (low low' : ℕ) (fs : List ℕ) → low' ≤ low → Ascending low fs → Ascending low' fs
Ascending-low low low' [] h a = tt
Ascending-low low low' (f ∷ fs) h (p, a) = (omega arith, a)

Ascending-get : (fs : List ℕ) (low j f : ℕ) → Ascending low fs → get_elem? fs j ≡ some f → low ≤ f
Ascending-get [] low j f a e = absurd (cc)
Ascending-get (x ∷ fs) low zero f (p, a) e = ground arith
Ascending-get (x ∷ fs) low (suc j) f (p, a) e = omega (arith, Ascending-get fs (x + 4096) j f a e)

-- The frames at two places do not overlap.
pub Ascending-apart :
    (fs : List ℕ) (low i j f g : ℕ)
    → Ascending low fs
    → i < j
    → get_elem? fs i ≡ some f
    → get_elem? fs j ≡ some g
    → f + 4096 ≤ g
Ascending-apart [] low i j f g a h p q = absurd (cc)
Ascending-apart (x ∷ fs) low i zero f g a h p q = absurd (omega arith)
Ascending-apart (x ∷ fs) low zero (suc j) f g (b, a) h p q =
    let same : x ≡ f = some-injective p in rw (← same) (Ascending-get fs (x + 4096) j g a q)
Ascending-apart (x ∷ fs) low (suc i) (suc j) f g (b, a) h p q =
    Ascending-apart fs (x + 4096) i j f g a (omega arith) p q

-- The frames of one region, and behind them those of the others.
step_by-Ascending :
    (n start low : ℕ) (containing_address : ℕ → ℕ) (rest : List ℕ)
    → ((a : ℕ) → a % 4096 ≡ 0 → containing_address a ≡ a)
    → start % 4096 ≡ 0
    → low ≤ start
    → Ascending (start + n * 4096) rest
    → Ascending low (map containing_address (step_by start n) ++ rest)
unfolding step_by
step_by-Ascending zero start low c rest h aligned le a =
    Ascending-low (start + 0 * 4096) low rest (omega arith) a
step_by-Ascending (suc n) start low c rest h aligned le a =
    let e : c start ≡ start = h start aligned in
    rw e (
      le,
      step_by-Ascending n (start + 4096) (start + 4096) c rest h (omega arith) (omega arith)
          (subst (λ l. Ascending l rest) (omega arith) a),
    )

pub usable_frames-Ascending :
    {Kind : Type 0} (usable : Kind → Bool) (containing_address : ℕ → ℕ)
    (rs : List (MemoryRegion Kind)) (low : ℕ)
    → ((a : ℕ) → a % 4096 ≡ 0 → containing_address a ≡ a)
    → IsMap low rs
    → Ascending low (usable_frames usable containing_address rs)
unfolding usable_frames
usable_frames-Ascending usable c [] low h m = tt
usable_frames-Ascending usable c (r ∷ rs) low h (a, b, p, q, m) =
    elim (Bool-cases (usable r.kind)) [
      | inl yes_usable ↦ rw yes_usable (
          step_by-Ascending (steps r.start r.end) r.start low c _ h p a (
            subst (λ l. Ascending l (usable_frames usable c rs)) (omega arith)
              (usable_frames-Ascending usable c rs r.end h m)))
      | inr reserved ↦
          rw reserved (
            Ascending-low r.end low _ (omega arith) (usable_frames-Ascending usable c rs r.end h m))
    ]

-- A place in the frames of one region and the others is in the first part or behind it.
get_elem?-append {ℓ} :
    {A : Type ℓ} (xs ys : List A) (k : ℕ) (a : A)
    → get_elem? (xs ++ ys) k ≡ some a
    → ((get_elem? xs k ≡ some a) ⊎ (get_elem? ys (k - length xs) ≡ some a))
get_elem?-append [] ys k a e = inr (ap (get_elem? ys) (omega arith) ∙ e)
get_elem?-append (x ∷ xs) ys zero a e = inl e
get_elem?-append (x ∷ xs) ys (suc k) a e = elim (get_elem?-append xs ys k a e) [
  | inl here ↦ inl here
  | inr there ↦ inr (ap (get_elem? ys) (omega arith) ∙ there)
]

-- A frame of one region lies inside of it.
step_by-inside :
    (n start k f : ℕ) (containing_address : ℕ → ℕ)
    → ((a : ℕ) → a % 4096 ≡ 0 → containing_address a ≡ a)
    → start % 4096 ≡ 0
    → get_elem? (map containing_address (step_by start n)) k ≡ some f
    → (start ≤ f) × (f + 4096 ≤ start + n * 4096)
unfolding step_by
step_by-inside zero start k f c h aligned e = absurd (cc)
step_by-inside (suc n) start zero f c h aligned e =
    let same : start ≡ f = sym (h start aligned) ∙ some-injective e in (omega arith, omega arith)
step_by-inside (suc n) start (suc k) f c h aligned e =
    let rest = step_by-inside n (start + 4096) k f c h (omega arith) e in (omega arith, omega arith)

-- A usable region that holds the frame.
abbrev pub Holds : {Kind : Type 0} → (Kind → Bool) → List (MemoryRegion Kind) → ℕ → Type 0
Holds usable [] f = ⊥
Holds usable (r ∷ rs) f =
    ((usable r.kind ≡ true) × (r.start ≤ f) × (f + 4096 ≤ r.end)) ⊎ Holds usable rs f

usable_frames-free :
    {Kind : Type 0} (usable : Kind → Bool) (c : ℕ → ℕ) (r : MemoryRegion Kind)
    (rs : List (MemoryRegion Kind))
    → usable r.kind ≡ true
    → usable_frames usable c (r ∷ rs)
      ≡ map c (step_by r.start (steps r.start r.end)) ++ usable_frames usable c rs
unfolding usable_frames
usable_frames-free usable c r rs free = rw free refl

usable_frames-Holds :
    {Kind : Type 0} (usable : Kind → Bool) (containing_address : ℕ → ℕ)
    (rs : List (MemoryRegion Kind)) (low k f : ℕ)
    → ((a : ℕ) → a % 4096 ≡ 0 → containing_address a ≡ a)
    → IsMap low rs
    → get_elem? (usable_frames usable containing_address rs) k ≡ some f
    → Holds usable rs f
unfolding usable_frames
usable_frames-Holds usable c [] low k f h m e = absurd (cc)
usable_frames-Holds usable c (r ∷ rs) low k f h (a, b, p, q, m) e =
    elim (Bool-cases (usable r.kind)) [
      | inr reserved ↦
          let without : get_elem? (usable_frames usable c (r ∷ rs)) k
              ≡ get_elem? (usable_frames usable c rs) k =
            rw reserved refl in
          inr (usable_frames-Holds usable c rs r.end k f h m (sym without ∙ e))
      | inl free ↦
          let own : List ℕ = map c (step_by r.start (steps r.start r.end)) in
          let here : get_elem? (own ++ usable_frames usable c rs) k ≡ some f =
            ap (λ l. get_elem? l k) (sym (usable_frames-free usable c r rs free)) ∙ e in
          elim (get_elem?-append own (usable_frames usable c rs) k f here) [
            | inl mine ↦
                let inside = step_by-inside (steps r.start r.end) r.start k f c h p mine in
                inl (free, inside.0, omega arith)
            | inr other ↦ inr (usable_frames-Holds usable c rs r.end (k - length own) f h m other)
          ]
    ]

-- The allocator after `k` calls.
abbrev pub after_calls :
    {Kind : Type 0}
    → (Kind → Bool)
    → (ℕ → ℕ)
    → ℕ
    → BootInfoFrameAllocator Kind
    → BootInfoFrameAllocator Kind
after_calls usable c zero a = a
after_calls usable c (suc k) a = after_calls usable c k (allocate_frame usable c a).1

after_calls-eq :
    {Kind : Type 0} (usable : Kind → Bool) (c : ℕ → ℕ) (k : ℕ) (a : BootInfoFrameAllocator Kind)
    → after_calls usable c k a ≡ record a { next = a.next + k }
unfolding allocate_frame
after_calls-eq usable c zero a =
    ap (λ n. record a { next = n }) {x = a.next} {y = a.next + 0} (omega arith)
after_calls-eq usable c (suc k) a =
    after_calls-eq usable c k (allocate_frame usable c a).1
    ∙ ap (λ n. record a { next = n }) {x = a.next + 1 + k} {y = a.next + suc k} (omega arith)

allocation-nth :
    {Kind : Type 0} (usable : Kind → Bool) (c : ℕ → ℕ) (rs : List (MemoryRegion Kind)) (k : ℕ)
    → (allocate_frame usable c (after_calls usable c k (init rs))).0
      ≡ get_elem? (usable_frames usable c rs) k
unfolding allocate_frame init
allocation-nth usable c rs k =
    ap (λ a. (allocate_frame usable c a).0) (after_calls-eq usable c k (init rs))
    ∙ ap (get_elem? (usable_frames usable c rs)) (omega arith)

-- Over a memory map of whole pages, whose regions do not overlap, each frame that is handed out lies in
-- a usable region, and the frames of two calls do not overlap.
pub allocate_frame-distinct :
    {Kind : Type 0} (usable : Kind → Bool) (containing_address : ℕ → ℕ)
    (rs : List (MemoryRegion Kind)) (i j f g : ℕ)
    → ((a : ℕ) → a % 4096 ≡ 0 → containing_address a ≡ a)
    → IsMap 0 rs
    → i < j
    → (allocate_frame usable containing_address
        (after_calls usable containing_address i (init rs))).0
      ≡ some f
    → (allocate_frame usable containing_address
        (after_calls usable containing_address j (init rs))).0
      ≡ some g
    → (f + 4096 ≤ g) × Holds usable rs f × Holds usable rs g
allocate_frame-distinct usable c rs i j f g h m lt p q =
    let p' = sym (allocation-nth usable c rs i) ∙ p in
    let q' = sym (allocation-nth usable c rs j) ∙ q in
    (
      Ascending-apart (usable_frames usable c rs) 0 i j f g
          (usable_frames-Ascending usable c rs 0 h m) lt p' q',
      usable_frames-Holds usable c rs 0 i f h m p',
      usable_frames-Holds usable c rs 0 j g h m q',
    )
