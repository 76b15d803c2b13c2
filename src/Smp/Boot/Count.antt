-- ===== src/Smp/Boot/Count.antt =====
-- Which cores are online after bring-up, and that the reported number counts them.
use axiom_os.Base.{◌==◌, ℕ, Bool, false, not, ◌&&◌, ◌||◌, List, [], ◌∷◌}
use axiom_os.Base.Distinct.{Distinct}
use axiom_os.Smp.Boot.{Platform}
use axiom_os.Smp.Boot.Counted.{Counted}

-- Whether bring-up starts core `i` from a list of ids.
abbrev pub is_started : Platform → ℕ → List ℕ → ℕ → Bool
is_started p bsp_id [] i = false
is_started p bsp_id (id ∷ ids) i =
    ((id == i) && (not (id == bsp_id) && p.starts id)) || is_started p bsp_id ids i
