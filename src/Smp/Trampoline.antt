-- ===== src/Smp/Trampoline.antt =====
-- kernel/src/smp.rs: the code that another processor starts in, and install_trampoline, which puts it and
-- its control block into the page at 0x50000.
pub mod Control
use axiom_os.Base.{◌==◌, ℕ, ◌+◌, Bool, ◌&&◌, List, [], ◌∷◌}
use axiom_os.Smp.Memory.{Memory, write, write_u64}

unfoldable pub ap_trampoline : List ℕ
ap_trampoline =
    0xeb ∷ 0x3e ∷ 0x1f ∷ 0x00 ∷ 0x08 ∷ 0x00 ∷ 0x05 ∷ 0x00 ∷ 0x00 ∷ 0x00 ∷ 0x00 ∷ 0x00 ∷ 0x00 ∷ 0x00
    ∷ 0x00 ∷ 0x00 ∷ 0xff ∷ 0xff ∷ 0x00 ∷ 0x00 ∷ 0x00 ∷ 0x9a ∷ 0xcf ∷ 0x00 ∷ 0xff ∷ 0xff ∷ 0x00
    ∷ 0x00 ∷ 0x00 ∷ 0x92 ∷ 0xcf ∷ 0x00 ∷ 0xff ∷ 0xff ∷ 0x00 ∷ 0x00 ∷ 0x00 ∷ 0x9a ∷ 0xaf ∷ 0x00
    ∷ 0x90 ∷ 0x90 ∷ 0x90 ∷ 0x90 ∷ 0x90 ∷ 0x90 ∷ 0x90 ∷ 0x90 ∷ 0x90 ∷ 0x90 ∷ 0x90 ∷ 0x90 ∷ 0x90
    ∷ 0x90 ∷ 0x90 ∷ 0x90 ∷ 0x90 ∷ 0x90 ∷ 0x90 ∷ 0x90 ∷ 0x90 ∷ 0x90 ∷ 0x90 ∷ 0x90 ∷ 0x8c ∷ 0xc8
    ∷ 0x8e ∷ 0xd8 ∷ 0x0f ∷ 0x01 ∷ 0x16 ∷ 0x02 ∷ 0x00 ∷ 0x0f ∷ 0x20 ∷ 0xc0 ∷ 0x0c ∷ 0x01 ∷ 0x0f
    ∷ 0x22 ∷ 0xc0 ∷ 0x66 ∷ 0xea ∷ 0x80 ∷ 0x00 ∷ 0x05 ∷ 0x00 ∷ 0x08 ∷ 0x00 ∷ 0x90 ∷ 0x90 ∷ 0x90
    ∷ 0x90 ∷ 0x90 ∷ 0x90 ∷ 0x90 ∷ 0x90 ∷ 0x90 ∷ 0x90 ∷ 0x90 ∷ 0x90 ∷ 0x90 ∷ 0x90 ∷ 0x90 ∷ 0x90
    ∷ 0x90 ∷ 0x90 ∷ 0x90 ∷ 0x90 ∷ 0x90 ∷ 0x90 ∷ 0x90 ∷ 0x90 ∷ 0x90 ∷ 0x90 ∷ 0x90 ∷ 0x90 ∷ 0x90
    ∷ 0x90 ∷ 0x90 ∷ 0x90 ∷ 0x90 ∷ 0x90 ∷ 0x90 ∷ 0x90 ∷ 0x90 ∷ 0x90 ∷ 0x90 ∷ 0xb8 ∷ 0x10 ∷ 0x00
    ∷ 0x00 ∷ 0x00 ∷ 0x8e ∷ 0xd8 ∷ 0x8e ∷ 0xc0 ∷ 0x8e ∷ 0xd0 ∷ 0x0f ∷ 0x20 ∷ 0xe0 ∷ 0x0f ∷ 0xba
    ∷ 0xe8 ∷ 0x05 ∷ 0x0f ∷ 0x22 ∷ 0xe0 ∷ 0xa1 ∷ 0xe8 ∷ 0x0f ∷ 0x05 ∷ 0x00 ∷ 0x0f ∷ 0x22 ∷ 0xd8
    ∷ 0xb9 ∷ 0x80 ∷ 0x00 ∷ 0x00 ∷ 0xc0 ∷ 0x0f ∷ 0x32 ∷ 0x0f ∷ 0xba ∷ 0xe8 ∷ 0x08 ∷ 0x0f ∷ 0x30
    ∷ 0x0f ∷ 0x20 ∷ 0xc0 ∷ 0x0d ∷ 0x00 ∷ 0x00 ∷ 0x00 ∷ 0x80 ∷ 0x0f ∷ 0x22 ∷ 0xc0 ∷ 0xea ∷ 0xc0
    ∷ 0x00 ∷ 0x05 ∷ 0x00 ∷ 0x18 ∷ 0x00 ∷ 0x90 ∷ 0x90 ∷ 0x90 ∷ 0x90 ∷ 0x48 ∷ 0x8b ∷ 0x24 ∷ 0x25
    ∷ 0xf0 ∷ 0x0f ∷ 0x05 ∷ 0x00 ∷ 0x48 ∷ 0x8b ∷ 0x3c ∷ 0x25 ∷ 0xe0 ∷ 0x0f ∷ 0x05 ∷ 0x00 ∷ 0x48
    ∷ 0x8b ∷ 0x04 ∷ 0x25 ∷ 0xf8 ∷ 0x0f ∷ 0x05 ∷ 0x00 ∷ 0xff ∷ 0xd0 ∷ 0xf4 ∷ 0xeb ∷ 0xfd ∷ []

-- `b0 != 0xFA || b1 != 0x31 || b2 != 0xC0 || b3 != 0x8E`, negated: what the log calls verified.
unfoldable pub reads_back : Memory → ℕ → Bool
reads_back mem base =
    (mem base == 0xfa)
    && ((mem (base + 1) == 0x31) && ((mem (base + 2) == 0xc0) && (mem (base + 3) == 0x8e)))

-- The control block that the 64-bit part of the code reads.
unfoldable pub write_control : Memory → ℕ → ℕ → ℕ → ℕ → ℕ → Memory
unfolding write_u64
write_control mem base core_id cr3 stack_top ap_main =
    let m0 = write_u64 mem (base + 0xfe0) core_id in
    let m1 = write_u64 m0 (base + 0xfe8) cr3 in
    let m2 = write_u64 m1 (base + 0xff0) stack_top in write_u64 m2 (base + 0xff8) ap_main

-- Whether the read-back succeeds, and the memory afterwards; `ap_main` is the address of the entry
-- function.
unfoldable pub install_trampoline : Memory → ℕ → ℕ → ℕ → ℕ → ℕ → Bool × Memory
unfolding reads_back write_control
install_trampoline mem off cr3 core_id stack_top ap_main =
    let base = off + 0x50000 in
    let copied = write mem base ap_trampoline in
    (reads_back copied base, write_control copied base core_id cr3 stack_top ap_main)
