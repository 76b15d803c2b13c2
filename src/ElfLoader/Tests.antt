-- ===== src/ElfLoader/Tests.antt =====
-- A page that a segment enters at its end.
use axiom_os.Base.{ℕ, Bool, true, List, [], ◌∷◌}
use axiom_os.ElfLoader.{Mapping, Space, Segment}

abbrev data_segment : Segment
data_segment = record { flags = 6; offset = 0; vaddr = 4096; filesz = 3; memsz = 5000 }

abbrev empty_space : Space
empty_space = record { mappings = []; frames = 5 ∷ 6 ∷ 7 ∷ [] }

any_frame : List Mapping → ℕ → ℕ → Bool
any_frame ms page frame = true
