-- ===== src/Base/Lists/Index.antt =====
-- Elements read and written at an index, and lists compared element by element.
use Prim.Native.Nat.{ℕ, zero, suc, ◌+◌, ◌≤◌, ◌<◌}
use mathlib.Core.Path.{◌≡◌, refl, ap, ap₂, ◌∙◌}
use mathlib.Core.Logic.{◌≢◌, ◌⊎◌, inl, inr}
use mathlib.Core.List.{List, [], ◌∷◌, ◌++◌}
use native.Mathlib.Omega.{arith}
use axiom_os.Base.Tests.{nat-cases}
use axiom_os.Base.Lists.Ops.{length, get_or, set, drop}

module _ {ℓ} {A : Type ℓ} where
  pub get_or-set_self :
      (xs : List A) (i : ℕ) (v d : A) → i < length xs → get_or (set xs i v) i d ≡ v
  get_or-set_self [] i v d h = absurd (omega arith)
  get_or-set_self (x ∷ xs) zero v d h = refl
  get_or-set_self (x ∷ xs) (suc i) v d h = get_or-set_self xs i v d (omega arith)

  pub get_or-set_ne :
      (xs : List A) (i j : ℕ) (v d : A) → i ≢ j → get_or (set xs i v) j d ≡ get_or xs j d
  get_or-set_ne [] i j v d h = refl
  get_or-set_ne (x ∷ xs) zero zero v d h = absurd (h refl)
  get_or-set_ne (x ∷ xs) zero (suc j) v d h = refl
  get_or-set_ne (x ∷ xs) (suc i) zero v d h = refl
  get_or-set_ne (x ∷ xs) (suc i) (suc j) v d h = get_or-set_ne xs i j v d (λ e. h (ap suc e))

  pub get_or_ext :
      (d : A) (xs ys : List A)
      → length xs ≡ length ys
      → ((i : ℕ) → get_or xs i d ≡ get_or ys i d)
      → xs ≡ ys
  get_or_ext d [] [] e h = refl
  get_or_ext d [] (y ∷ ys) e h = absurd (omega arith)
  get_or_ext d (x ∷ xs) [] e h = absurd (omega arith)
  get_or_ext d (x ∷ xs) (y ∷ ys) e h =
      ap₂ ◌∷◌ (h 0) (get_or_ext d xs ys (omega arith) (λ i. h (suc i)))

  pub get_or_past : (xs : List A) (i : ℕ) (d : A) → length xs ≤ i → get_or xs i d ≡ d
  get_or_past [] i d h = refl
  get_or_past (x ∷ xs) zero d h = absurd (omega arith)
  get_or_past (x ∷ xs) (suc i) d h = get_or_past xs i d (omega arith)

  -- The element behind a prefix of `i`.
  pub get_or-middle :
      (pre : List A) (x d : A) (post : List A) (i : ℕ)
      → length pre ≡ i
      → get_or (pre ++ (x ∷ post)) i d ≡ x
  get_or-middle [] x d post zero e = refl
  get_or-middle [] x d post (suc i) e = absurd (omega arith)
  get_or-middle (y ∷ pre) x d post zero e = absurd (omega arith)
  get_or-middle (y ∷ pre) x d post (suc i) e = get_or-middle pre x d post i (omega arith)

  pub set-middle :
      (pre : List A) (x v : A) (post : List A) (i : ℕ)
      → length pre ≡ i
      → set (pre ++ (x ∷ post)) i v ≡ pre ++ (v ∷ post)
  set-middle [] x v post zero e = refl
  set-middle [] x v post (suc i) e = absurd (omega arith)
  set-middle (y ∷ pre) x v post zero e = absurd (omega arith)
  set-middle (y ∷ pre) x v post (suc i) e =
      ap (λ l. y ∷ l) (set-middle pre x v post i (omega arith))

  pub snoc_append : (xs : List A) (x : A) (ys : List A) → (xs ++ (x ∷ [])) ++ ys ≡ xs ++ (x ∷ ys)
  snoc_append [] x ys = refl
  snoc_append (y ∷ xs) x ys = ap (λ l. y ∷ l) (snoc_append xs x ys)

  pub cons-injective : {x y : A} {xs ys : List A} → x ∷ xs ≡ y ∷ ys → (x ≡ y) × (xs ≡ ys)
  cons-injective e = (cc, cc)

  pub drop_step :
      (xs : List A) (i : ℕ) (d : A) → i < length xs → drop i xs ≡ get_or xs i d ∷ drop (i + 1) xs
  drop_step [] i d h = absurd (omega arith)
  drop_step (x ∷ xs) zero d h = refl
  drop_step (x ∷ xs) (suc i) d h =
      drop_step xs i d (omega arith)
      ∙ ap (λ k. get_or xs i d ∷ drop k (x ∷ xs)) {x = suc (i + 1)} (omega arith)

  -- The elements of a list of six.
  pub six : (xs : List A) → length xs ≡ 6 → (a b c d e f : A) × (xs ≡ a ∷ b ∷ c ∷ d ∷ e ∷ f ∷ [])
  six [] h = absurd (omega arith)
  six (a ∷ []) h = absurd (omega arith)
  six (a ∷ b ∷ []) h = absurd (omega arith)
  six (a ∷ b ∷ c ∷ []) h = absurd (omega arith)
  six (a ∷ b ∷ c ∷ d ∷ []) h = absurd (omega arith)
  six (a ∷ b ∷ c ∷ d ∷ e ∷ []) h = absurd (omega arith)
  six (a ∷ b ∷ c ∷ d ∷ e ∷ f ∷ []) h = (a, b, c, d, e, f, refl)
  six (a ∷ b ∷ c ∷ d ∷ e ∷ f ∷ g ∷ xs) h = absurd (omega arith)

pub numbers_or_not : (xs ys : List ℕ) → (xs ≡ ys) ⊎ (xs ≢ ys)
numbers_or_not [] [] = inl refl
numbers_or_not [] (y ∷ ys) = inr (λ e. absurd (ground (arith, ap length e)))
numbers_or_not (x ∷ xs) [] = inr (λ e. absurd (ground (arith, ap length e)))
numbers_or_not (x ∷ xs) (y ∷ ys) = elim (nat-cases x y) [
  | inr heads ↦ inr (λ e. heads (cons-injective e).0)
  | inl heads ↦ elim (numbers_or_not xs ys) [
    | inl tails ↦ inl (ap₂ ◌∷◌ heads tails)
    | inr tails ↦ inr (λ e. tails (cons-injective e).1)
  ]
]
