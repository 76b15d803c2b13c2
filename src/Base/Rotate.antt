-- ===== src/Base/Rotate.antt =====
-- The elements of a circular buffer in the order a loop from index `head` meets them.
use Prim.Native.Nat.{ℕ, zero, suc, ◌+◌, ◌-◌, ◌%◌, ◌≤◌, ◌<◌}
use mathlib.Core.Path.{◌≡◌, refl, sym, ap, ap₂, ◌∙◌}
use mathlib.Core.Logic.{inl, inr}
use mathlib.Core.List.{List, [], ◌∷◌, ◌++◌, append-nil, append_assoc}
use native.Mathlib.Omega.{arith}
use native.Mathlib.Nat.{mod-eq_of_lt, mod-eq-sub-mod, mod_self}
use axiom_os.Base.Tests.{lt_or_le}
use axiom_os.Base.Lists.{
  length, get_or, set, take, drop, length-append, length-take, length-drop, take-append,
  drop-append, set-middle, snoc_append,
}

module _ {ℓ} {A : Type ℓ} where
  abbrev pub rotate : List A → ℕ → List A
  rotate xs head = drop head xs ++ take head xs

  pub length-rotate : (xs : List A) (head : ℕ) → length (rotate xs head) ≡ length xs
  length-rotate xs head =
      omega (
        arith,
        length-append (drop head xs) (take head xs),
        length-drop head xs,
        length-take head xs,
      )

  pub get_or-append_left :
      (xs ys : List A) (i : ℕ) (d : A) → i < length xs → get_or (xs ++ ys) i d ≡ get_or xs i d
  get_or-append_left [] ys i d h = absurd (omega arith)
  get_or-append_left (x ∷ xs) ys zero d h = refl
  get_or-append_left (x ∷ xs) ys (suc i) d h = get_or-append_left xs ys i d (omega arith)

  pub get_or-append_right :
      (xs ys : List A) (i : ℕ) (d : A) → get_or (xs ++ ys) (length xs + i) d ≡ get_or ys i d
  get_or-append_right [] ys i d = ap (λ k. get_or ys k d) (omega arith)
  get_or-append_right (x ∷ xs) ys i d =
      ap (λ k. get_or (x ∷ (xs ++ ys)) k d) {y = suc (length xs + i)} (omega arith)
      ∙ get_or-append_right xs ys i d

  pub get_or-drop :
      (n : ℕ) (xs : List A) (i : ℕ) (d : A) → get_or (drop n xs) i d ≡ get_or xs (n + i) d
  get_or-drop zero xs i d = ap (λ k. get_or xs k d) (omega arith)
  get_or-drop (suc n) [] i d = refl
  get_or-drop (suc n) (x ∷ xs) i d =
      get_or-drop n xs i d ∙ ap (λ k. get_or (x ∷ xs) k d) {x = suc (n + i)} (omega arith)

  pub get_or-take :
      (n : ℕ) (xs : List A) (i : ℕ) (d : A) → i < n → get_or (take n xs) i d ≡ get_or xs i d
  get_or-take zero xs i d h = absurd (omega arith)
  get_or-take (suc n) [] i d h = refl
  get_or-take (suc n) (x ∷ xs) zero d h = refl
  get_or-take (suc n) (x ∷ xs) (suc i) d h = get_or-take n xs i d (omega arith)

  -- The i-th element that the loop meets.
  pub get_or-rotate :
      (xs : List A) (n head i : ℕ) (d : A)
      → length xs ≡ n
      → head < n
      → i < n
      → get_or (rotate xs head) i d ≡ get_or xs ((head + i) % n) d
  get_or-rotate xs n head i d sized inside small = elim (lt_or_le i (n - head)) [
    | inl before ↦
        get_or-append_left (drop head xs) (take head xs) i d (omega (arith, length-drop head xs))
        ∙ get_or-drop head xs i d
        ∙ ap (λ k. get_or xs k d) {y = (head + i) % n} (sym (wrap_none (head + i) (omega arith)))
    | inr behind ↦
        ap (λ k. get_or (rotate xs head) k d) {y = length (drop head xs) + (i - (n - head))}
          (omega (arith, length-drop head xs))
        ∙ get_or-append_right (drop head xs) (take head xs) (i - (n - head)) d
        ∙ get_or-take head xs (i - (n - head)) d (omega arith)
        ∙ ap (λ k. get_or xs k d) {y = (head + i) % n}
            (sym (wrap_once (head + i) (omega arith) (omega arith) ∙ omega arith))
  ]
    where
      wrap_none : (a : ℕ) → a < n → a % n ≡ a
      wrap_none a h = mod-eq_of_lt h

      wrap_once : (a : ℕ) → n ≤ a → a < n + n → a % n ≡ a - n
      wrap_once a h k = mod-eq-sub-mod h ∙ mod-eq_of_lt {n = a - n} (omega arith)

  -- A list cut at an index inside it.
  pub cut :
      (xs : List A) (i : ℕ)
      → i < length xs
      → (pre : List A) × (x : A) × (post : List A) × (length pre ≡ i) × (xs ≡ pre ++ (x ∷ post))
  cut [] i h = absurd (omega arith)
  cut (x ∷ xs) zero h = ([], x, xs, refl, refl)
  cut (x ∷ xs) (suc i) h =
      let r = cut xs i (omega arith) in (x ∷ r.0, r.1, r.2, ap suc r.3, ap (λ l. x ∷ l) r.4)

  -- A write at the head, which then moves on: the first element that the loop meets is gone, and
  -- the new one is the last.
  pub rotate-set :
      (xs : List A) (n head : ℕ) (v : A)
      → length xs ≡ n
      → head < n
      → rotate (set xs head v) ((head + 1) % n) ≡ drop 1 (rotate xs head) ++ (v ∷ [])
  rotate-set xs n head v sized inside =
      let c = cut xs head (omega arith) in
      rw c.4 (go c.0 c.1 c.2 c.3 (omega (arith, ap length c.4, length-append c.0 (c.1 ∷ c.2))))
    where
      at : (ys zs us : List A) (i : ℕ) → ys ≡ us ++ zs → length us ≡ i → rotate ys i ≡ zs ++ us
      at ys zs us i e h = rw (e) (ap₂ ◌++◌ (drop-append i us zs h) (take-append i us zs h))

      go :
          (pre : List A) (x : A) (post : List A)
          → length pre ≡ head
          → length pre + suc (length post) ≡ n
          → rotate (set (pre ++ (x ∷ post)) head v) ((head + 1) % n)
            ≡ drop 1 (rotate (pre ++ (x ∷ post)) head) ++ (v ∷ [])
      go pre x [] e f =
          let wraps : (head + 1) % n ≡ 0 =
            ap (λ k. k % n) {x = head + 1} {y = n} (omega arith) ∙ mod_self n in
          rw (wraps, at (pre ++ (x ∷ [])) (x ∷ []) pre head refl e, set-middle pre x v [] head e)
            (append-nil (pre ++ (v ∷ [])))
      go pre x (y ∷ post) e f =
          let stays : (head + 1) % n ≡ head + 1 = mod-eq_of_lt {n = head + 1} (omega arith) in
          rw
            (
              stays,
              at (pre ++ (x ∷ (y ∷ post))) (x ∷ (y ∷ post)) pre head refl e,
              set-middle pre x v (y ∷ post) head e,
              at (pre ++ (v ∷ (y ∷ post))) (y ∷ post) (pre ++ (v ∷ [])) (head + 1)
                  (sym (snoc_append pre v (y ∷ post))) (omega (arith, length-append pre (v ∷ []))),
            )
            (sym (append_assoc (y ∷ post) pre (v ∷ [])))

  set-append_left :
      (xs ys : List A) (i : ℕ) (v : A) → i < length xs → set (xs ++ ys) i v ≡ set xs i v ++ ys
  set-append_left [] ys i v h = absurd (omega arith)
  set-append_left (x ∷ xs) ys zero v h = refl
  set-append_left (x ∷ xs) ys (suc i) v h =
      ap (λ l. x ∷ l) (set-append_left xs ys i v (omega arith))

  set-append_right :
      (xs ys : List A) (i : ℕ) (v : A) → set (xs ++ ys) (length xs + i) v ≡ xs ++ set ys i v
  set-append_right [] ys i v = ap (λ k. set ys k v) (omega arith)
  set-append_right (x ∷ xs) ys i v =
      ap (λ k. set (x ∷ (xs ++ ys)) k v) {y = suc (length xs + i)} (omega arith)
      ∙ ap (λ l. x ∷ l) (set-append_right xs ys i v)

  drop-set_behind :
      (n : ℕ) (xs : List A) (i : ℕ) (v : A) → drop n (set xs (n + i) v) ≡ set (drop n xs) i v
  drop-set_behind zero xs i v = ap (λ k. set xs k v) (omega arith)
  drop-set_behind (suc n) [] i v = refl
  drop-set_behind (suc n) (x ∷ xs) i v =
      ap (λ k. drop (suc n) (set (x ∷ xs) k v)) {y = suc (n + i)} (omega arith)
      ∙ drop-set_behind n xs i v

  take-set_behind : (n : ℕ) (xs : List A) (i : ℕ) (v : A) → n ≤ i → take n (set xs i v) ≡ take n xs
  take-set_behind zero xs i v h = refl
  take-set_behind (suc n) [] i v h = refl
  take-set_behind (suc n) (x ∷ xs) zero v h = absurd (omega arith)
  take-set_behind (suc n) (x ∷ xs) (suc i) v h =
      ap (λ l. x ∷ l) (take-set_behind n xs i v (omega arith))

  drop-set_before : (n : ℕ) (xs : List A) (i : ℕ) (v : A) → i < n → drop n (set xs i v) ≡ drop n xs
  drop-set_before zero xs i v h = absurd (omega arith)
  drop-set_before (suc n) [] i v h = refl
  drop-set_before (suc n) (x ∷ xs) zero v h = refl
  drop-set_before (suc n) (x ∷ xs) (suc i) v h = drop-set_before n xs i v (omega arith)

  take-set_before :
      (n : ℕ) (xs : List A) (i : ℕ) (v : A) → i < n → take n (set xs i v) ≡ set (take n xs) i v
  take-set_before zero xs i v h = absurd (omega arith)
  take-set_before (suc n) [] i v h = refl
  take-set_before (suc n) (x ∷ xs) zero v h = refl
  take-set_before (suc n) (x ∷ xs) (suc i) v h =
      ap (λ l. x ∷ l) (take-set_before n xs i v (omega arith))

  -- A write `i` places behind the head.
  pub rotate-set_at :
      (xs : List A) (n head i : ℕ) (v : A)
      → length xs ≡ n
      → head < n
      → i < n
      → rotate (set xs ((head + i) % n) v) head ≡ set (rotate xs head) i v
  rotate-set_at xs n head i v sized inside small = elim (lt_or_le i (n - head)) [
    | inl before ↦
        rw
          (
            mod-eq_of_lt {n = head + i} {m = n} (omega arith),
            drop-set_behind head xs i v,
            take-set_behind head xs (head + i) v (omega arith),
          )
          (sym (
            set-append_left (drop head xs) (take head xs) i v (omega (arith, length-drop head xs))))
    | inr behind ↦
        let k = head + i - n in
        let wrapped : (head + i) % n ≡ k =
          mod-eq-sub-mod {n = head + i} {m = n} (omega arith) ∙ mod-eq_of_lt (omega arith) in
        rw
          (
            wrapped,
            drop-set_before head xs k v (omega arith),
            take-set_before head xs k v (omega arith),
          )
          (sym (set-append_right (drop head xs) (take head xs) k v)
            ∙ ap (λ j. set (rotate xs head) j v) {x = length (drop head xs) + k} {y = i}
                (omega (arith, length-drop head xs)))
  ]
