-- ===== src/Base/Word.antt =====
-- Machine words as native numbers: wrap by `%`, shift by `/` and `*`.
use Prim.Native.Nat.{ℕ, ◌*◌, ◌/◌, ◌%◌, ◌^◌, ◌<◌, zero, suc}
use mathlib.Core.List.{List, [], ◌∷◌, ◌++◌}
use native.Mathlib.Omega.{arith}
use axiom_os.Base.Lists.{replicate, All, set, get_or, take, drop}

abbrev pub u8 : ℕ → ℕ
u8 n = n % 2 ^ 8

abbrev pub u16 : ℕ → ℕ
u16 n = n % 2 ^ 16

abbrev pub u32 : ℕ → ℕ
u32 n = n % 2 ^ 32

abbrev pub u64 : ℕ → ℕ
u64 n = n % 2 ^ 64

infixl 75 ◌<<<◌ ◌>>>◌
abbrev pub ◌<<<◌ : ℕ → ℕ → ℕ
x <<< k = x * 2 ^ k

abbrev pub ◌>>>◌ : ℕ → ℕ → ℕ
x >>> k = x / 2 ^ k

-- A byte array: every element below 256.
abbrev pub IsBytes : List ℕ → Type 0
IsBytes = All (λ x. x < 256)

abbrev pub u128 : ℕ → ℕ
u128 n = n % 2 ^ 128

pub IsBytes-set : (xs : List ℕ) (i v : ℕ) → IsBytes xs → v < 256 → IsBytes (set xs i v)
IsBytes-set [] i v h p = tt
IsBytes-set (x ∷ xs) zero v (hx, h) p = (p, h)
IsBytes-set (x ∷ xs) (suc i) v (hx, h) p = (hx, IsBytes-set xs i v h p)

pub IsBytes-take : (n : ℕ) (xs : List ℕ) → IsBytes xs → IsBytes (take n xs)
IsBytes-take zero xs h = tt
IsBytes-take (suc n) [] h = tt
IsBytes-take (suc n) (x ∷ xs) (hx, h) = (hx, IsBytes-take n xs h)

pub IsBytes-drop : (n : ℕ) (xs : List ℕ) → IsBytes xs → IsBytes (drop n xs)
IsBytes-drop zero xs h = h
IsBytes-drop (suc n) [] h = tt
IsBytes-drop (suc n) (x ∷ xs) (hx, h) = IsBytes-drop n xs h

pub IsBytes-append : (xs ys : List ℕ) → IsBytes xs → IsBytes ys → IsBytes (xs ++ ys)
IsBytes-append [] ys h k = k
IsBytes-append (x ∷ xs) ys (hx, h) k = (hx, IsBytes-append xs ys h k)

pub IsBytes-get_or : (xs : List ℕ) (i : ℕ) → IsBytes xs → get_or xs i 0 < 256
IsBytes-get_or [] i h = omega arith
IsBytes-get_or (x ∷ xs) zero (hx, h) = hx
IsBytes-get_or (x ∷ xs) (suc i) (hx, h) = IsBytes-get_or xs i h

pub IsBytes-replicate : (n v : ℕ) → v < 256 → IsBytes (replicate n v)
IsBytes-replicate zero v h = tt
IsBytes-replicate (suc n) v h = (h, IsBytes-replicate n v h)
