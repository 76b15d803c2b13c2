-- ===== src/Crypto/ConstTime.antt =====
-- The comparison loop of `ct_eq_32` in kernel/src/crypto.rs, which `MealLog::verify_entry`,
-- `aead_open` and `chacha20_poly1305_open` repeat: the XORs of the bytes are OR-ed together.
use axiom_os.Base.{
  ℕ, zero, suc, ◌+◌, ◌<◌, ◌≡◌, refl, ap, ap₂, ◌∙◌, ◌↔◌, arith, bit_or, bit_xor, Bool, true, List,
  [], ◌∷◌, ◌==◌, ==_iff, length, get_or, take, length-take, ◌≤◌,
}
use axiom_os.Base.Bits.{bit_or-eq-zero_iff, bit_xor-eq-zero_iff}

-- `for i in from..from + n { diff |= a[i] ^ b[i]; }`
unfoldable pub ct_diff : ℕ → ℕ → List ℕ → List ℕ → ℕ → ℕ
ct_diff zero from a b diff = diff
ct_diff (suc n) from a b diff =
    ct_diff n (from + 1) a b (bit_or diff (bit_xor (get_or a from 0) (get_or b from 0)))

unfoldable pub ct_eq_32 : List ℕ → List ℕ → Bool
unfolding ct_diff
ct_eq_32 a b = ct_diff 32 0 a b 0 == 0

-- The difference is zero exactly when it was before, and all the bytes compared agree.
ct_diff-zero :
    (n from : ℕ) (a b : List ℕ) (diff : ℕ)
    → ct_diff n from a b diff ≡ 0
    → (diff ≡ 0) × ((i : ℕ) → i < n → get_or a (from + i) 0 ≡ get_or b (from + i) 0)
unfolding ct_diff
ct_diff-zero zero from a b diff e = (e, λ i h. absurd (omega arith))
ct_diff-zero (suc n) from a b diff e =
    let x = get_or a from 0 in
    let y = get_or b from 0 in
    let ih = ct_diff-zero n (from + 1) a b (bit_or diff (bit_xor x y)) e in
    let both = (bit_or-eq-zero_iff diff (bit_xor x y)).0 ih.0 in
    (both.0, λ i h. agree ((bit_xor-eq-zero_iff x y).0 both.1) ih.1 i h)
  where
    agree :
        get_or a from 0 ≡ get_or b from 0
        → ((j : ℕ) → j < n → get_or a (from + 1 + j) 0 ≡ get_or b (from + 1 + j) 0)
        → (i : ℕ) → i < suc n
        → get_or a (from + i) 0 ≡ get_or b (from + i) 0
    agree p q zero h = let here : from + 0 ≡ from = omega arith in rw here p
    agree p q (suc j) h =
        let there : from + suc j ≡ from + 1 + j = omega arith in rw there (q j (omega arith))

ct_diff_self : (n from : ℕ) (a : List ℕ) → ct_diff n from a a 0 ≡ 0
unfolding ct_diff
ct_diff_self zero from a = refl
ct_diff_self (suc n) from a =
    ap (ct_diff n (from + 1) a a) (
      (bit_or-eq-zero_iff 0 (bit_xor (get_or a from 0) (get_or a from 0))).1
        (refl, (bit_xor-eq-zero_iff (get_or a from 0) (get_or a from 0)).1 refl))
    ∙ ct_diff_self n (from + 1) a

get_or_past : (l : List ℕ) (i : ℕ) → length l < suc i → get_or l i 0 ≡ 0
get_or_past [] i h = refl
get_or_past (x ∷ l) zero h = absurd (omega arith)
get_or_past (x ∷ l) (suc i) h = get_or_past l i (omega arith)

pub lists_agree :
    (a b : List ℕ)
    → length a ≡ length b
    → ((i : ℕ) → i < length a → get_or a i 0 ≡ get_or b i 0)
    → a ≡ b
lists_agree [] [] e h = refl
lists_agree [] (y ∷ b) e h = absurd (omega arith)
lists_agree (x ∷ a) [] e h = absurd (omega arith)
lists_agree (x ∷ a) (y ∷ b) e h =
    ap₂ ◌∷◌ (h 0 (omega arith)) (lists_agree a b (omega arith) (λ i p. h (suc i) (omega arith)))

-- The loop over arrays of `n` bytes ends with zero exactly when they are equal.
pub ct_diff_iff :
    (n : ℕ) (a b : List ℕ) → length a ≡ n → length b ≡ n → (ct_diff n 0 a b 0 ≡ 0) ↔ (a ≡ b)
ct_diff_iff n a b p q = (
  λ e.
      lists_agree a b (omega arith) (λ i h. from_zero i (ct_diff-zero n 0 a b 0 e).1 (omega arith)),
  λ e. rw (← e) (ct_diff_self n 0 a),
)
  where
    from_zero :
        (i : ℕ)
        → ((j : ℕ) → j < n → get_or a (0 + j) 0 ≡ get_or b (0 + j) 0)
        → i < n
        → get_or a i 0 ≡ get_or b i 0
    from_zero i h lt = let e : 0 + i ≡ i = omega arith in rw e at (h i lt)

-- `ct_eq_32` says true exactly when the two 32-byte arrays are equal.
pub ct_eq_32_iff : (a b : List ℕ) → length a ≡ 32 → length b ≡ 32 → (ct_eq_32 a b ≡ true) ↔ (a ≡ b)
unfolding ct_eq_32
ct_eq_32_iff a b p q = (
  λ e. (ct_diff_iff 32 a b p q).0 ((==_iff _ 0).0 e),
  λ e. (==_iff _ 0).1 ((ct_diff_iff 32 a b p q).1 e),
)

get_or-take : (n i : ℕ) (b : List ℕ) → i < n → get_or (take n b) i 0 ≡ get_or b i 0
get_or-take zero i b h = absurd (omega arith)
get_or-take (suc n) i [] h = refl
get_or-take (suc n) zero (x ∷ b) h = refl
get_or-take (suc n) (suc i) (x ∷ b) h = get_or-take n i b (omega arith)

-- The loop reads the first bytes only.
ct_diff-take :
    (n from m : ℕ) (a b : List ℕ) (diff : ℕ)
    → from + n ≤ m
    → ct_diff n from a (take m b) diff ≡ ct_diff n from a b diff
unfolding ct_diff
ct_diff-take zero from m a b diff h = refl
ct_diff-take (suc n) from m a b diff h =
    rw (get_or-take m from b (omega arith)) (ct_diff-take n (from + 1) m a b _ (omega arith))

-- Over an array that is longer, it compares with its first `n` bytes.
pub ct_diff-take_iff :
    (n : ℕ) (a b : List ℕ) → length a ≡ n → n ≤ length b → (ct_diff n 0 a b 0 ≡ 0) ↔ (a ≡ take n b)
ct_diff-take_iff n a b p q =
    rw (← ct_diff-take n 0 n a b 0 (omega arith))
      (ct_diff_iff n a (take n b) p (omega (arith, length-take n b)))
