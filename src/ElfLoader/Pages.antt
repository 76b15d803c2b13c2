-- ===== src/ElfLoader/Pages.antt =====
-- What a loaded page contains.
use axiom_os.Base.{ltb, leb, if◌then◌else◌, get_or, ℕ, ◌+◌, ◌-◌, ◌&&◌, List}

-- The byte of the process image at an address: the segment's data from `vaddr` on, and zero elsewhere.
abbrev pub image : List ℕ → ℕ → ℕ → ℕ → ℕ
image seg_data vaddr filesz addr =
    if leb vaddr addr && ltb addr (vaddr + filesz) then get_or seg_data (addr - vaddr) 0 else 0
