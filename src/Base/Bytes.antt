-- ===== src/Base/Bytes.antt =====
-- `to_le_bytes`, `to_be_bytes`, `from_le_bytes` and `from_be_bytes` of the machine words, for a
-- word of any number of bytes.
use Prim.Native.Nat.{ℕ, zero, suc, ◌+◌, ◌*◌, ◌/◌, ◌%◌, ◌^◌, ◌<◌}
use mathlib.Core.Path.{◌≡◌, refl, sym, ap, ap₂, ◌∙◌}
use mathlib.Core.Logic.{◌↔◌}
use mathlib.Core.Bool.{Bool, true, false, ◌&&◌}
use axiom_os.Base.Tests.{◌==◌, ==_iff, &&_iff}
use mathlib.Core.List.{List, [], ◌∷◌}
use native.Mathlib.Nat.{pow-suc}
use native.Mathlib.Omega.{arith}
use axiom_os.Base.Lists.{length, cons-injective}
use axiom_os.Base.Word.{IsBytes}

-- The `n` low bytes, lowest first.
unfoldable pub to_le : ℕ → ℕ → List ℕ
to_le zero x = []
to_le (suc n) x = x % 256 ∷ to_le n (x / 256)

unfoldable pub from_le : List ℕ → ℕ
from_le [] = 0
from_le (b ∷ bs) = b + 256 * from_le bs

-- The `n` low bytes, highest first.
unfoldable pub to_be : ℕ → ℕ → List ℕ
to_be zero x = []
to_be (suc n) x = x / 256 ^ n % 256 ∷ to_be n x

from_be_acc : ℕ → List ℕ → ℕ
from_be_acc acc [] = acc
from_be_acc acc (b ∷ bs) = from_be_acc (acc * 256 + b) bs

unfoldable pub from_be : List ℕ → ℕ
unfolding from_be_acc
from_be bs = from_be_acc 0 bs

pub length-to_le : (n x : ℕ) → length (to_le n x) ≡ n
unfolding to_le
length-to_le zero x = refl
length-to_le (suc n) x = ap suc (length-to_le n (x / 256))

pub to_le-IsBytes : (n x : ℕ) → IsBytes (to_le n x)
unfolding to_le
to_le-IsBytes zero x = tt
to_le-IsBytes (suc n) x = (omega arith, to_le-IsBytes n (x / 256))

pub length-to_be : (n x : ℕ) → length (to_be n x) ≡ n
unfolding to_be
length-to_be zero x = refl
length-to_be (suc n) x = ap suc (length-to_be n x)

pub to_be-IsBytes : (n x : ℕ) → IsBytes (to_be n x)
unfolding to_be
to_be-IsBytes zero x = tt
to_be-IsBytes (suc n) x = (omega arith, to_be-IsBytes n x)

pub pow_256-suc : (n : ℕ) → 256 ^ suc n ≡ 256 * 256 ^ n
pow_256-suc n = omega (arith, pow-suc 256 n)

-- A word that fits its bytes is read back from them.
pub from_le-to_le : (n x : ℕ) → x < 256 ^ n → from_le (to_le n x) ≡ x
unfolding to_le from_le
from_le-to_le zero x h = omega arith
from_le-to_le (suc n) x h = omega (arith, from_le-to_le n (x / 256) (omega (arith, pow_256-suc n)))

pub from_le-lt : (bs : List ℕ) → IsBytes bs → from_le bs < 256 ^ length bs
unfolding from_le
from_le-lt [] h = omega arith
from_le-lt (b ∷ bs) (hb, hs) = omega (arith, from_le-lt bs hs, pow_256-suc (length bs))

-- Bytes are the bytes of the word that they spell.
pub to_le-from_le : (bs : List ℕ) → IsBytes bs → to_le (length bs) (from_le bs) ≡ bs
unfolding to_le from_le
to_le-from_le [] h = refl
to_le-from_le (b ∷ bs) (hb, hs) =
    ap₂ ◌∷◌ (omega arith) (ap (to_le (length bs)) (omega arith) ∙ to_le-from_le bs hs)

pub to_le-injective : (n x y : ℕ) → x < 256 ^ n → y < 256 ^ n → to_le n x ≡ to_le n y → x ≡ y
to_le-injective n x y p q e = sym (from_le-to_le n x p) ∙ ap from_le e ∙ from_le-to_le n y q

-- Two big-endian bytes, as the network headers have them.
pub from_be-to_be_two : (x : ℕ) → x < 2 ^ 16 → from_be (to_be 2 x) ≡ x
unfolding from_be to_be
from_be-to_be_two x h = omega arith

pub to_be-from_be_two : (a b : ℕ) → a < 256 → b < 256 → to_be 2 (from_be (a ∷ b ∷ [])) ≡ a ∷ b ∷ []
unfolding from_be to_be
to_be-from_be_two a b p q = ap₂ ◌∷◌ (omega arith) (ap₂ ◌∷◌ (omega arith) refl)

-- The comparison of two arrays.
unfoldable pub same_bytes : List ℕ → List ℕ → Bool
same_bytes [] [] = true
same_bytes [] (y ∷ ys) = false
same_bytes (x ∷ xs) [] = false
same_bytes (x ∷ xs) (y ∷ ys) = (x == y) && same_bytes xs ys

pub same_bytes_iff : (xs ys : List ℕ) → (same_bytes xs ys ≡ true) ↔ (xs ≡ ys)
unfolding same_bytes
same_bytes_iff [] [] = (λ e. refl, λ e. refl)
same_bytes_iff [] (y ∷ ys) = (λ e. absurd (cc), λ e. absurd (cc))
same_bytes_iff (x ∷ xs) [] = (λ e. absurd (cc), λ e. absurd (cc))
same_bytes_iff (x ∷ xs) (y ∷ ys) = (
  λ e.
      let p = (&&_iff (x == y) (same_bytes xs ys)).0 e in
      ap₂ ◌∷◌ ((==_iff x y).0 p.0) ((same_bytes_iff xs ys).0 p.1),
  λ e.
      let p = cons-injective e in
      (&&_iff (x == y) (same_bytes xs ys)).1 ((==_iff x y).1 p.0, (same_bytes_iff xs ys).1 p.1),
)
