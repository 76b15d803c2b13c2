-- ===== src/Base/Lists/Overwrite.antt =====
-- Slices written into arrays: what a write leaves before and behind it, two writes in a row,
-- and writes into a constant array.
use Prim.Native.Nat.{ℕ, zero, suc, ◌+◌, ◌-◌, ◌≤◌}
use mathlib.Core.Path.{◌≡◌, refl, sym, ap, ◌∙◌}
use mathlib.Core.List.{List, [], ◌∷◌, ◌++◌}
use native.Mathlib.Omega.{arith}
use axiom_os.Base.Lists.Ops.{length, set, take, drop, replicate, slice, overwrite}
use axiom_os.Base.Lists.Split.{length-overwrite, take_all}

module _ {ℓ} {A : Type ℓ} where
  -- What a write of a slice leaves before it, and the slice itself.
  pub take-overwrite :
      (xs : List A) (i : ℕ) (ys : List A)
      → i + length ys ≤ length xs
      → take (i + length ys) (overwrite xs i ys) ≡ take i xs ++ ys
  take-overwrite [] zero [] h = refl
  take-overwrite [] zero (y ∷ ys) h = absurd (omega arith)
  take-overwrite [] (suc i) ys h = absurd (omega arith)
  take-overwrite (x ∷ xs) zero [] h = refl
  take-overwrite (x ∷ xs) zero (y ∷ ys) h =
      ap (λ k. take k (y ∷ overwrite xs zero ys)) {y = suc (zero + length ys)} (omega arith)
      ∙ ap (λ l. y ∷ l) (take-overwrite xs zero ys (omega arith) ∙ ap (λ l. l ++ ys) (take-zero xs))
    where
      take-zero : (l : List A) → take zero l ≡ []
      take-zero l = refl
  take-overwrite (x ∷ xs) (suc i) ys h =
      ap (λ k. take k (x ∷ overwrite xs i ys)) {y = suc (i + length ys)} (omega arith)
      ∙ ap (λ l. x ∷ l) (take-overwrite xs i ys (omega arith))

  -- A slice written up to the end.
  pub overwrite_to_end :
      (xs : List A) (i : ℕ) (ys : List A)
      → i + length ys ≡ length xs
      → overwrite xs i ys ≡ take i xs ++ ys
  overwrite_to_end xs i ys h =
      sym (take_all (i + length ys) (overwrite xs i ys) (omega (arith, length-overwrite xs i ys)))
      ∙ take-overwrite xs i ys (omega arith)

  pub overwrite-nil : (xs : List A) (i : ℕ) → overwrite xs i [] ≡ xs
  overwrite-nil [] i = refl
  overwrite-nil (x ∷ xs) zero = refl
  overwrite-nil (x ∷ xs) (suc i) = ap (λ l. x ∷ l) (overwrite-nil xs i)

  -- Two slices written one after the other are one slice.
  pub overwrite-overwrite :
      (xs : List A) (i j : ℕ) (ys zs : List A)
      → i + length ys ≡ j
      → overwrite (overwrite xs i ys) j zs ≡ overwrite xs i (ys ++ zs)
  overwrite-overwrite [] i j ys zs h = refl
  overwrite-overwrite (x ∷ xs) zero zero [] zs h = refl
  overwrite-overwrite (x ∷ xs) zero (suc j) [] zs h = absurd (omega arith)
  overwrite-overwrite (x ∷ xs) zero zero (y ∷ ys) zs h = absurd (omega arith)
  overwrite-overwrite (x ∷ xs) zero (suc j) (y ∷ ys) zs h =
      ap (λ l. y ∷ l) (overwrite-overwrite xs zero j ys zs (omega arith))
  overwrite-overwrite (x ∷ xs) (suc i) zero ys zs h = absurd (omega arith)
  overwrite-overwrite (x ∷ xs) (suc i) (suc j) ys zs h =
      ap (λ l. x ∷ l) (overwrite-overwrite xs i j ys zs (omega arith))

  pub set-eq-overwrite : (xs : List A) (i : ℕ) (v : A) → set xs i v ≡ overwrite xs i (v ∷ [])
  set-eq-overwrite [] i v = refl
  set-eq-overwrite (x ∷ xs) zero v = ap (λ l. v ∷ l) (sym (overwrite-nil xs zero))
  set-eq-overwrite (x ∷ xs) (suc i) v = ap (λ l. x ∷ l) (set-eq-overwrite xs i v)

  pub replicate-append : (n m : ℕ) (a : A) → replicate n a ++ replicate m a ≡ replicate (n + m) a
  replicate-append zero m a = ap (λ k. replicate k a) (omega arith)
  replicate-append (suc n) m a =
      ap (λ l. a ∷ l) (replicate-append n m a)
      ∙ ap (λ k. replicate k a) {x = suc (n + m)} (omega arith)

  -- Writing over the start of a constant array leaves the constant behind.
  pub overwrite-replicate :
      (n : ℕ) (a : A) (xs : List A)
      → length xs ≤ n
      → overwrite (replicate n a) 0 xs ≡ xs ++ replicate (n - length xs) a
  overwrite-replicate zero a [] h = refl
  overwrite-replicate zero a (x ∷ xs) h = absurd (omega arith)
  overwrite-replicate (suc n) a [] h =
      ap (λ k. replicate k a) {x = suc n} {y = suc n - 0} (omega arith)
  overwrite-replicate (suc n) a (x ∷ xs) h =
      ap (λ l. x ∷ l) (overwrite-replicate n a xs (omega arith))
      ∙ ap (λ k. x ∷ (xs ++ replicate k a)) {x = n - length xs} {y = suc n - suc (length xs)}
          (omega arith)

  -- A slice written into the constant part of an array, `p` places past its start.
  pub overwrite_gap :
      (pre : List A) (k p i : ℕ) (a : A) (ys : List A)
      → p + length ys ≤ k
      → length pre + p ≡ i
      → overwrite (pre ++ replicate k a) i ys
        ≡ (pre ++ (replicate p a ++ ys)) ++ replicate (k - (p + length ys)) a
  overwrite_gap [] k zero zero a ys h e =
      overwrite-replicate k a ys (omega arith)
      ∙ ap (λ n. ys ++ replicate n a) {x = k - length ys} (omega arith)
  overwrite_gap [] k zero (suc i) a ys h e = absurd (omega arith)
  overwrite_gap [] k (suc p) zero a ys h e = absurd (omega arith)
  overwrite_gap [] zero (suc p) (suc i) a ys h e = absurd (omega arith)
  overwrite_gap [] (suc k) (suc p) (suc i) a ys h e =
      ap (λ l. a ∷ l) (overwrite_gap [] k p i a ys (omega arith) (omega arith))
      ∙ ap (λ n. a ∷ ((replicate p a ++ ys) ++ replicate n a)) {x = k - (p + length ys)}
          {y = suc k - (suc p + length ys)} (omega arith)
  overwrite_gap (x ∷ pre) k p zero a ys h e = absurd (omega arith)
  overwrite_gap (x ∷ pre) k p (suc i) a ys h e =
      ap (λ l. x ∷ l) (overwrite_gap pre k p i a ys h (omega arith))

  -- Over a constant array, more of the constant can be written behind the slice.
  pub overwrite-replicate_more :
      (n p : ℕ) (a : A) (xs : List A)
      → overwrite (replicate n a) 0 xs ≡ overwrite (replicate n a) 0 (xs ++ replicate p a)
  overwrite-replicate_more zero p a xs = refl
  overwrite-replicate_more (suc n) zero a [] = refl
  overwrite-replicate_more (suc n) (suc p) a [] =
      ap (λ l. a ∷ l) (sym (overwrite-nil (replicate n a) 0) ∙ overwrite-replicate_more n p a [])
  overwrite-replicate_more (suc n) p a (x ∷ xs) =
      ap (λ l. x ∷ l) (overwrite-replicate_more n p a xs)

  -- A slice reads back what was written there.
  pub slice-overwrite :
      (xs : List A) (i : ℕ) (ys : List A)
      → i + length ys ≤ length xs
      → slice (overwrite xs i ys) i (length ys) ≡ ys
  slice-overwrite [] zero [] h = refl
  slice-overwrite [] zero (y ∷ ys) h = absurd (omega arith)
  slice-overwrite [] (suc i) ys h = absurd (omega arith)
  slice-overwrite (x ∷ xs) zero [] h = refl
  slice-overwrite (x ∷ xs) zero (y ∷ ys) h =
      ap (λ l. y ∷ l) (slice-overwrite xs zero ys (omega arith))
  slice-overwrite (x ∷ xs) (suc i) ys h = slice-overwrite xs i ys (omega arith)

  -- A slice written over the start.
  pub overwrite_start :
      (xs ys : List A) → length ys ≤ length xs → overwrite xs 0 ys ≡ ys ++ drop (length ys) xs
  overwrite_start [] [] h = refl
  overwrite_start [] (y ∷ ys) h = absurd (omega arith)
  overwrite_start (x ∷ xs) [] h = refl
  overwrite_start (x ∷ xs) (y ∷ ys) h = ap (λ l. y ∷ l) (overwrite_start xs ys (omega arith))
