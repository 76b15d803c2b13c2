-- ===== src/ElfLoader/Mapped.antt =====
-- Which pages a segment is given.
use axiom_os.Base.{ℕ, ◌+◌, List, [], ◌∷◌}
use axiom_os.ElfLoader.{Mapping, Space, Segment, mapped_page}

-- The pages from `vpage` on, one for each frame.
abbrev pub pages_from : Segment → List ℕ → ℕ → List ℕ → List Mapping
pages_from p seg_data vpage [] = []
pages_from p seg_data vpage (frame ∷ frames) =
    mapped_page p seg_data vpage frame ∷ pages_from p seg_data (vpage + 4096) frames

abbrev space : List Mapping → List ℕ → Space
space ms frames = record { mappings = ms; frames = frames }
