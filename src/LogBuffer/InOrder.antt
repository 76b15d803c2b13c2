-- ===== src/LogBuffer/InOrder.antt =====
-- What holds of the shared state of push and drain during the first lap, and how it follows the entries
-- pushed.
use axiom_os.Base.{
  lt_or_le, length, get_or, take, All, length-append, get_or_past, get_or-append_left, ℕ, zero, suc,
  ◌≤◌, ◌<◌, ◌≡◌, refl, sym, ap, ◌∙◌, ◌≢◌, ◌⊎◌, inl, inr, List, [], ◌∷◌, ◌++◌, arith,
}
use axiom_os.Base.Distinct.{Distinct}
use axiom_os.LogBuffer.{LogEntry, empty_entry}
use axiom_os.LogBuffer.Interleaved.{Place, Turn, idle, loaded, checked, holds, Shared}

-- The index is the place of the entry among those pushed.
abbrev pub Placed : List LogEntry → Place → Type 0
Placed rs p = (p.0 < length rs) × (get_or rs p.0 empty_entry ≡ p.1)

abbrev pub indices : List Place → List ℕ
indices [] = []
indices (p ∷ ps) = p.0 ∷ indices ps

-- What the drain knows in the middle of a turn: that the entry it is at has been pushed, and which.
abbrev pub Ready : ℕ → List LogEntry → Turn → Type 0
Ready read_head rs idle = Unit
Ready read_head rs (loaded r) = r ≡ read_head
Ready read_head rs (checked r) = (r ≡ read_head) × (r < length rs)
Ready read_head rs (holds e) = (read_head < length rs) × (get_or rs read_head empty_entry ≡ e)

-- A slot holds the entry of its place, or none yet.
abbrev pub Filled : List LogEntry → List LogEntry → ℕ → Type 0
Filled entries rs i =
    (get_or entries i empty_entry ≡ get_or rs i empty_entry)
    ⊎ (get_or entries i empty_entry ≡ empty_entry)

pub record InOrder (s : Shared) : Type 0 where
  pub sized : length s.ring.entries ≡ 64
  pub counted : s.ring.write_head ≡ length s.reserved
  pub slots : (i : ℕ) → Filled s.ring.entries s.reserved i
  pub places : All (Placed s.reserved) s.in_flight
  pub apart : Distinct (indices s.in_flight)
  pub behind : s.ring.read_head ≤ length s.reserved
  pub in_order : s.handed ≡ take s.ring.read_head s.reserved
  pub ready : Ready s.ring.read_head s.reserved s.turn

pub take-next :
    (n : ℕ) (xs : List LogEntry)
    → n < length xs
    → take n xs ++ (get_or xs n empty_entry ∷ []) ≡ take (suc n) xs
take-next n [] h = absurd (omega arith)
take-next zero (x ∷ xs) h = refl
take-next (suc n) (x ∷ xs) h = ap (λ l. x ∷ l) (take-next n xs (omega arith))

pub take-more :
    (n : ℕ) (xs : List LogEntry) (e : LogEntry)
    → n ≤ length xs
    → take n xs ≡ take n (xs ++ (e ∷ []))
take-more zero xs e h = refl
take-more (suc n) [] e h = absurd (omega arith)
take-more (suc n) (x ∷ xs) e h = ap (λ l. x ∷ l) (take-more n xs e (omega arith))

pub indices-append : (xs ys : List Place) → indices (xs ++ ys) ≡ indices xs ++ indices ys
indices-append [] ys = refl
indices-append (x ∷ xs) ys = ap (λ l. x.0 ∷ l) (indices-append xs ys)

pub Placed-more :
    (rs : List LogEntry) (e : LogEntry) (ps : List Place)
    → All (Placed rs) ps
    → All (Placed (rs ++ (e ∷ []))) ps
Placed-more rs e [] h = tt
Placed-more rs e (p ∷ ps) h = (
  (
    omega (arith, length-append rs (e ∷ []), h.0.0),
    get_or-append_left rs (e ∷ []) p.0 empty_entry h.0.0 ∙ h.0.1,
  ),
  Placed-more rs e ps h.1,
)

pub Placed-below :
    (rs : List LogEntry) (n : ℕ) (ps : List Place)
    → n ≡ length rs
    → All (Placed rs) ps
    → All (λ i. i ≢ n) (indices ps)
Placed-below rs n [] e h = tt
Placed-below rs n (p ∷ ps) e h =
    let below = h.0.0 in ((λ same. absurd (omega arith)), Placed-below rs n ps e h.1)

pub Filled-more :
    (entries rs : List LogEntry) (e : LogEntry) (i : ℕ)
    → Filled entries rs i
    → Filled entries (rs ++ (e ∷ [])) i
Filled-more entries rs e i (inr none_yet) = inr none_yet
Filled-more entries rs e i (inl here) = elim (lt_or_le i (length rs)) [
  | inl inside ↦ inl (here ∙ sym (get_or-append_left rs (e ∷ []) i empty_entry inside))
  | inr past ↦ inr (here ∙ get_or_past rs i empty_entry past)
]

pub Ready-more :
    (read_head : ℕ) (rs : List LogEntry) (e : LogEntry) (t : Turn)
    → Ready read_head rs t
    → Ready read_head (rs ++ (e ∷ [])) t
Ready-more n rs e idle h = tt
Ready-more n rs e (loaded r) h = h
Ready-more n rs e (checked r) h = (h.0, omega (arith, length-append rs (e ∷ []), h.1))
Ready-more n rs e (holds x) h = (
  omega (arith, length-append rs (e ∷ []), h.0),
  get_or-append_left rs (e ∷ []) n empty_entry h.0 ∙ h.1,
)
