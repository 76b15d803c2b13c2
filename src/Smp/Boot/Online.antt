-- ===== src/Smp/Boot/Online.antt =====
-- The per-core records: which cores are online, and their number.
use axiom_os.Base.{
  ◌==◌, if◌then◌else◌, ==_iff, nat-cases, length, get_or, set, length-set, get_or-set_self,
  get_or-set_ne, ℕ, zero, suc, ◌+◌, ◌≤◌, ◌<◌, ◌≡◌, refl, ap, ◌∙◌, inl, inr, Bool, true, false, ◌||◌,
  List, [], ◌∷◌, arith,
}
use axiom_os.Smp.Boot.{CoreLocals, new_core, core_at, set_online, core_locals}

abbrev pub online : List CoreLocals → ℕ → Bool
online cores i = (core_at cores i).is_online

pub count_online : List CoreLocals → ℕ
count_online [] = 0
count_online (c ∷ cs) = (if c.is_online then 1 else 0) + count_online cs

pub count_online-le : (cores : List CoreLocals) → count_online cores ≤ length cores
unfolding count_online
count_online-le [] = omega arith
count_online-le (c ∷ cs) = ground (arith, count_online-le cs)

count_online-set :
    (cores : List CoreLocals) (i : ℕ) (c other : CoreLocals)
    → i < length cores
    → c.is_online ≡ true
    → (get_or cores i other).is_online ≡ false
    → count_online (set cores i c) ≡ 1 + count_online cores
unfolding count_online
count_online-set [] i c other h up down = absurd (omega arith)
count_online-set (d ∷ cs) zero c other h up down = ground arith
count_online-set (d ∷ cs) (suc i) c other h up down =
    omega (arith, count_online-set cs i c other (omega arith) up down)

pub set_online-online :
    (cores : List CoreLocals) (i j : ℕ)
    → i < length cores
    → online (set_online cores i) j ≡ ((i == j) || online cores j)
unfolding set_online core_at
set_online-online cores i j h = elim (nat-cases i j) [
  | inl same ↦
      rw ((==_iff i j).1 same, ← same)
        (ap (λ (c : CoreLocals). c.is_online) (get_or-set_self cores i _ (new_core i) h))
  | inr apart ↦
      let differ : (i == j) ≡ false = ground arith in
      rw differ
        (ap (λ (c : CoreLocals). c.is_online) (get_or-set_ne cores i j _ (new_core j) apart))
]

pub length-set_online :
    (cores : List CoreLocals) (i : ℕ) → length (set_online cores i) ≡ length cores
unfolding set_online
length-set_online cores i = length-set cores i _

pub count_online-set_online :
    (cores : List CoreLocals) (i : ℕ)
    → i < length cores
    → online cores i ≡ false
    → count_online (set_online cores i) ≡ 1 + count_online cores
unfolding set_online core_at
count_online-set_online cores i h down = count_online-set cores i _ (new_core i) h refl down

pub core_locals-offline : (i : ℕ) → online core_locals i ≡ false
unfolding core_locals core_at
core_locals-offline zero = refl
core_locals-offline (suc zero) = refl
core_locals-offline (suc (suc zero)) = refl
core_locals-offline (suc (suc (suc zero))) = refl
core_locals-offline (suc (suc (suc (suc zero)))) = refl
core_locals-offline (suc (suc (suc (suc (suc zero))))) = refl
core_locals-offline (suc (suc (suc (suc (suc (suc zero)))))) = refl
core_locals-offline (suc (suc (suc (suc (suc (suc (suc zero))))))) = refl
core_locals-offline (suc (suc (suc (suc (suc (suc (suc (suc i)))))))) = refl

pub length-core_locals : length core_locals ≡ 8
unfolding core_locals
length-core_locals = refl

pub count-core_locals : count_online core_locals ≡ 0
unfolding core_locals count_online
count-core_locals = refl

-- The records when init has marked its own core.
pub self_online : (i : ℕ) → online (set_online core_locals 0) i ≡ (0 == i)
self_online i =
    set_online-online core_locals 0 i (omega (arith, length-core_locals))
    ∙ rw (core_locals-offline i) (ground arith)
