-- ===== src/User.antt =====
-- kernel/src/user.rs: setup, which loads the user's program and maps its stack, over the pages and frames of
-- ElfLoader. A panic, where a frame is missing or the mapper refuses, is `none`.
pub mod Isolated
pub mod Physical
mod Tests
use axiom_os.Base.{
  if◌then◌else◌, replicate, overwrite, ℕ, ◌-◌, inl, inr, Bool, true, false, Option, none, some,
  List, [], ◌∷◌, ◌++◌,
}
use axiom_os.ElfLoader.{Mapping, Space, load}

abbrev pub user_code_virt : ℕ
user_code_virt = 0x400000000000

abbrev pub user_stack_top : ℕ
user_stack_top = 0x500000000000

-- The hand-coded program, which makes the system calls 0, 9 and 11 and then spins.
abbrev pub user_program : List ℕ
user_program =
    0x48 ∷ 0x31 ∷ 0xc0 ∷ 0x0f ∷ 0x05 ∷ 0x48 ∷ 0xc7 ∷ 0xc0 ∷ 0x09 ∷ 0x00 ∷ 0x00 ∷ 0x00 ∷ 0x0f ∷ 0x05
    ∷ 0x48 ∷ 0xc7 ∷ 0xc0 ∷ 0x0b ∷ 0x00 ∷ 0x00 ∷ 0x00 ∷ 0x48 ∷ 0x31 ∷ 0xff ∷ 0x0f ∷ 0x05 ∷ 0xeb
    ∷ 0xfe ∷ []

infixl 5 ◌>>=◌
abbrev pub ◌>>=◌ {ℓ κ} : {A : Type ℓ} {B : Type κ} → Option A → (A → Option B) → Option B
none >>= f = none
some a >>= f = f a

-- The code page: breakpoints, and the program over them.
unfoldable pub code_page : ℕ → Mapping
code_page frame = record {
  page = user_code_virt;
  frame = frame;
  writable = true;
  no_execute = false;
  bytes = overwrite (replicate 4096 0xcc) 0 user_program;
}

unfoldable pub stack_page : ℕ → Mapping
stack_page frame = record {
  page = user_stack_top - 4096;
  frame = frame;
  writable = true;
  no_execute = true;
  bytes = replicate 4096 0;
}

-- `allocate_frame().expect(…)`, then `map_to(…).expect(…)` of the page, and the writes to its frame.
unfoldable pub map_page : (List Mapping → ℕ → ℕ → Bool) → (ℕ → Mapping) → Space → Option Space
map_page accepts new_page s = elim (s.frames) [
  | [] ↦ none
  | frame ∷ frames ↦
      if accepts s.mappings (new_page frame).page frame
      then some (record { mappings = s.mappings ++ (new_page frame ∷ []); frames = frames })
      else none
]

-- The match on the result of the loader: the entry point, and the space.
unfoldable pub load_program : (List Mapping → ℕ → ℕ → Bool) → List ℕ → Space → Option (ℕ × Space)
unfolding code_page map_page
load_program accepts elf_program s =
    let r = load accepts elf_program s in
    elim (r.0) [
      | inr entry ↦ some (entry, r.1)
      | inl error ↦ elim (map_page accepts code_page r.1) [
        | none ↦ none
        | some t ↦ some (user_code_virt, t)
      ]
    ]

unfoldable pub setup : (List Mapping → ℕ → ℕ → Bool) → List ℕ → Space → Option (ℕ × Space)
unfolding stack_page load_program
setup accepts elf_program s = do
  loaded ← load_program accepts elf_program s
  mapped ← map_page accepts stack_page loaded.1
  some (loaded.0, mapped)
