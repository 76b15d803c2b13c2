-- ===== src/Vmz/Tests.antt =====
-- Zeroing at a small memory.
use axiom_os.Base.{ℕ, List, [], ◌∷◌}

abbrev secret_a : List ℕ
secret_a = 1 ∷ 42 ∷ 43 ∷ 9 ∷ []

abbrev secret_b : List ℕ
secret_b = 1 ∷ 77 ∷ 0 ∷ 9 ∷ []
