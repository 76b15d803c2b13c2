-- ===== src/User/Tests.antt =====
-- A small program image, and one that the loader refuses.
use axiom_os.Base.{replicate, ℕ, ◌-◌, ◌%◌, ◌≡◌, refl, Bool, true, false, some, List, [], ◌∷◌, ◌++◌}
use axiom_os.Base.Bytes.{to_le}
use axiom_os.ElfLoader.{Mapping, Space, load, Segment, mapped_page, check_header}
use axiom_os.User.{setup, load_program, map_page, code_page, stack_page, user_code_virt}
use axiom_os.Frames.{BootInfoFrameAllocator}

abbrev identification : List ℕ
identification = 0x7f ∷ 0x45 ∷ 0x4c ∷ 0x46 ∷ 2 ∷ 1 ∷ 1 ∷ replicate 9 0

abbrev header : List ℕ
header =
    identification
    ++ (to_le 2 2
        ++ (to_le 2 62
            ++ (to_le 4 1
                ++ (to_le 8 0x400000
                    ++ (to_le 8 64
                        ++ (to_le 8 0
                            ++ (to_le 4 0
                                ++ (to_le 2 64
                                    ++ (to_le 2 56 ++ (to_le 2 1 ++ replicate 6 0))))))))))

abbrev program_header : List ℕ
program_header =
    to_le 4 1
    ++ (to_le 4 5
        ++ (to_le 8 112
            ++ (to_le 8 0x400000 ++ (to_le 8 0 ++ (to_le 8 2 ++ (to_le 8 2 ++ to_le 8 4096))))))

abbrev hello : List ℕ
hello = header ++ program_header

abbrev empty_space : Space
empty_space = record { mappings = []; frames = 5 ∷ 6 ∷ 7 ∷ [] }

abbrev any_frame : List Mapping → ℕ → ℕ → Bool
any_frame ms page frame = true

abbrev fallback_space : Space
fallback_space = record { mappings = code_page 5 ∷ stack_page 6 ∷ []; frames = 7 ∷ [] }

falls_back : setup any_frame [] empty_space ≡ some (user_code_virt, fallback_space)
unfolding setup load load_program map_page check_header
falls_back = refl

abbrev text_segment : Segment
text_segment = record { flags = 5; offset = 112; vaddr = 0x400000; filesz = 2; memsz = 2 }

-- The first frame has been handed out.
abbrev frames_left : BootInfoFrameAllocator Bool
frames_left = record {
  memory_regions =
      record { start = 0x1000; end = 0x2000; kind = true }
      ∷ record { start = 0x2000; end = 0x3000; kind = false }
      ∷ record { start = 0x100000; end = 0x103000; kind = true }
      ∷ [];
  next = 1;
}

abbrev is_usable : Bool → Bool
is_usable b = b

abbrev page_start : ℕ → ℕ
page_start a = a - a % 4096

abbrev hello_space : Space
hello_space = record {
  mappings =
      mapped_page text_segment (0x00 ∷ 0x10 ∷ []) 0x400000 0x100000 ∷ stack_page 0x101000 ∷ [];
  frames = 0x102000 ∷ [];
}
