-- ===== src/Vmz/Zeroed.antt =====
-- After zeroing nothing of what the region held is left.
use axiom_os.Base.{
  ◌==◌, ==_iff, nat-cases, length, get_elem?, take, drop, replicate, slice, overwrite, length-take,
  length-drop, length-replicate, slice-overwrite, ℕ, zero, suc, ◌+◌, ◌≤◌, ◌≡◌, refl, sym, ap, ap₂,
  ◌∙◌, ◌≢◌, ◌⊎◌, inl, inr, true, false, some, List, [], ◌∷◌, arith,
}
use axiom_os.Vmz.{zero_region, first_nonzero, verify_zeroed}

-- `first_nonzero` finds nothing exactly in a list of zeros, and otherwise names the first byte that is
-- not zero.
first_nonzero_lem :
    (i : ℕ) (bytes : List ℕ)
    → ((first_nonzero i bytes ≡ (true, 0, 0)) × (bytes ≡ replicate (length bytes) 0))
      ⊎ ((k : ℕ) × (b : ℕ) × (first_nonzero i bytes ≡ (false, i + k, b))
          × (take k bytes ≡ replicate k 0)
          × (get_elem? bytes k ≡ some b)
          × (b ≢ 0))
unfolding first_nonzero
first_nonzero_lem i [] = inl (refl, refl)
first_nonzero_lem i (b ∷ bytes) = elim (nat-cases b 0) [
  | inr bad ↦
      let p : (b == 0) ≡ false = ground arith in
      inr (0, b, rw p (ap (λ j. (false, j, b)) {y = i + 0} (omega arith)), refl, refl, bad)
  | inl zero_here ↦
      let p : (b == 0) ≡ true = (==_iff b 0).1 zero_here in
      elim (first_nonzero_lem (i + 1) bytes) [
        | inl clean ↦ inl (rw p clean.0, ap₂ ◌∷◌ zero_here clean.1)
        | inr found ↦ inr (
          suc found.0,
          found.1,
          rw p (found.2 ∙ ap (λ j. (false, j, found.1)) {y = i + suc found.0} (omega arith)),
          ap₂ ◌∷◌ zero_here found.3,
          found.4,
          found.5,
        )
      ]
]

-- `verify_zeroed` answers for every region: either it is all zeros and the answer is true, or the
-- answer is the offset and the value of its first byte that is not zero.
pub verify_zeroed_lem :
    (memory : List ℕ) (ptr len : ℕ)
    → ptr + len ≤ length memory
    → ((verify_zeroed memory ptr len ≡ (true, 0, 0)) × (slice memory ptr len ≡ replicate len 0))
      ⊎ ((k : ℕ) × (b : ℕ) × (verify_zeroed memory ptr len ≡ (false, k, b))
          × (take k (slice memory ptr len) ≡ replicate k 0)
          × (get_elem? (slice memory ptr len) k ≡ some b)
          × (b ≢ 0))
unfolding verify_zeroed
verify_zeroed_lem memory ptr len h =
    let sized : length (slice memory ptr len) ≡ len =
      length-take len (drop ptr memory) ∙ omega (arith, length-drop ptr memory) in
    elim (first_nonzero_lem 0 (slice memory ptr len)) [
      | inl clean ↦ inl (clean.0, clean.1 ∙ ap (λ n. replicate n 0) sized)
      | inr found ↦ inr (
        found.0,
        found.1,
        found.2 ∙ ap (λ j. (false, j, found.1)) {y = found.0} (omega arith),
        found.3,
        found.4,
        found.5,
      )
    ]

first_nonzero-zeros : (i len : ℕ) → first_nonzero i (replicate len 0) ≡ (true, 0, 0)
unfolding first_nonzero
first_nonzero-zeros i zero = refl
first_nonzero-zeros i (suc len) = first_nonzero-zeros (i + 1) len

-- A region that has been zeroed passes the verification, whatever the memory held.
pub verify-zero_region :
    (memory : List ℕ) (ptr len : ℕ)
    → ptr + len ≤ length memory
    → verify_zeroed (zero_region memory ptr len) ptr len ≡ (true, 0, 0)
unfolding verify_zeroed zero_region
verify-zero_region memory ptr len h =
    let sized : length (replicate {A = ℕ} len 0) ≡ len = length-replicate len 0 in
    ap (λ n. first_nonzero 0 (slice (overwrite memory ptr (replicate len 0)) ptr n)) (sym sized)
    ∙ ap (first_nonzero 0) (slice-overwrite memory ptr (replicate len 0) (omega arith))
    ∙ first_nonzero-zeros 0 len
