-- ===== src/Base/Distinct.antt =====
-- Lists of which any two elements are in a relation, and those in which every number occurs once.
use axiom_os.Base.{All, ℕ, ◌≢◌, List, [], ◌∷◌, ◌++◌}

-- An earlier element is in the relation to every later one.
abbrev pub Pairwise {ℓ κ} : {A : Type ℓ} → (A → A → Type κ) → List A → Type κ
Pairwise R [] = Unit
Pairwise R (x ∷ xs) = All (R x) xs × Pairwise R xs

abbrev pub Distinct : List ℕ → Type 0
Distinct = Pairwise (λ x y. x ≢ y)

pub All-remove {ℓ κ} :
    {A : Type ℓ} (P : A → Type κ) (xs : List A) (y : A) (ys : List A)
    → All P (xs ++ (y ∷ ys))
    → All P (xs ++ ys)
All-remove P [] y ys h = h.1
All-remove P (x ∷ xs) y ys h = (h.0, All-remove P xs y ys h.1)

pub Pairwise-remove {ℓ κ} :
    {A : Type ℓ} (R : A → A → Type κ) (xs : List A) (y : A) (ys : List A)
    → Pairwise R (xs ++ (y ∷ ys))
    → Pairwise R (xs ++ ys)
Pairwise-remove R [] y ys h = h.1
Pairwise-remove R (x ∷ xs) y ys h = (All-remove (R x) xs y ys h.0, Pairwise-remove R xs y ys h.1)

pub All-snoc {ℓ κ} :
    {A : Type ℓ} (P : A → Type κ) (xs : List A) (x : A) → All P xs → P x → All P (xs ++ (x ∷ []))
All-snoc P [] x h p = (p, tt)
All-snoc P (y ∷ xs) x h p = (h.0, All-snoc P xs x h.1 p)

pub All-middle {ℓ κ} :
    {A : Type ℓ} (P : A → Type κ) (xs : List A) (y : A) (ys : List A) → All P (xs ++ (y ∷ ys)) → P y
All-middle P [] y ys h = h.0
All-middle P (x ∷ xs) y ys h = All-middle P xs y ys h.1

pub Distinct-snoc :
    (xs : List ℕ) (x : ℕ) → Distinct xs → All (λ y. y ≢ x) xs → Distinct (xs ++ (x ∷ []))
Distinct-snoc [] x h new = (tt, tt)
Distinct-snoc (y ∷ xs) x h new =
    (All-snoc (λ z. y ≢ z) xs x h.0 new.0, Distinct-snoc xs x h.1 new.1)
