-- ===== src/Smp/Trampoline/Control.antt =====
-- What the code in the page finds in the control block behind it.
use axiom_os.Base.{length, get_or, ℕ, ◌+◌, ◌≤◌, ◌≡◌, refl, ap, ◌∙◌, ◌⊎◌, inl, false, arith}
use axiom_os.Smp.Memory.{
  Memory, read, write, write_u64, read-write_other, read-write_same, read-write_u64_other,
  write_inside,
}
use axiom_os.Smp.Trampoline.{ap_trampoline, reads_back, write_control, install_trampoline}

module _ (mem : Memory) (base core_id cr3 stack_top ap_main : ℕ) where
  abbrev controlled : Memory
  controlled = write_control mem base core_id cr3 stack_top ap_main

  abbrev with_id : Memory
  with_id = write_u64 mem (base + 0xfe0) core_id

  abbrev with_cr3 : Memory
  with_cr3 = write_u64 with_id (base + 0xfe8) cr3

  abbrev with_stack : Memory
  with_stack = write_u64 with_cr3 (base + 0xff0) stack_top

  read-write_control :
      (addr n : ℕ)
      → (addr + n ≤ base + 0xfe0) ⊎ (base + 0x1000 ≤ addr)
      → read controlled addr n ≡ read mem addr n
  unfolding write_control
  read-write_control addr n h =
      read-write_u64_other with_stack (base + 0xff8) ap_main addr n (grind arith)
      ∙ read-write_u64_other with_cr3 (base + 0xff0) stack_top addr n (grind arith)
      ∙ read-write_u64_other with_id (base + 0xfe8) cr3 addr n (grind arith)
      ∙ read-write_u64_other mem (base + 0xfe0) core_id addr n (grind arith)

length-ap_trampoline : length ap_trampoline ≡ 221
unfolding ap_trampoline
length-ap_trampoline = refl

module _ (mem : Memory) (off cr3 core_id stack_top ap_main : ℕ) where
  abbrev installed : Memory
  installed = (install_trampoline mem off cr3 core_id stack_top ap_main).1

first_byte : get_or ap_trampoline 0 0 ≡ 0xeb
unfolding ap_trampoline
first_byte = refl

-- On every memory the code is in place afterwards and nothing outside of the page has changed, and yet
-- the read-back is judged a failure: it compares with bytes that the code does not start with.
pub install_trampoline-read_back :
    (mem : Memory) (off cr3 core_id stack_top ap_main : ℕ)
    → (read (install_trampoline mem off cr3 core_id stack_top ap_main).1 (off + 0x50000) 221
        ≡ ap_trampoline)
      × ((addr n : ℕ)
          → (addr + n ≤ off + 0x50000) ⊎ (off + 0x51000 ≤ addr)
          → read (install_trampoline mem off cr3 core_id stack_top ap_main).1 addr n
            ≡ read mem addr n)
      × ((install_trampoline mem off cr3 core_id stack_top ap_main).0 ≡ false)
unfolding install_trampoline reads_back
install_trampoline-read_back mem off cr3 core_id stack_top ap_main =
    let copied : Memory = write mem (off + 0x50000) ap_trampoline in
    let start : write mem (off + 0x50000) ap_trampoline (off + 0x50000) ≡ 0xeb =
      ap copied {x = off + 0x50000} {y = off + 0x50000 + 0} (omega arith)
      ∙ write_inside mem (off + 0x50000) ap_trampoline 0 (omega (arith, length-ap_trampoline))
      ∙ first_byte in
    (
      read-write_control copied (off + 0x50000) core_id cr3 stack_top ap_main (off + 0x50000) 221
            (inl (omega arith))
          ∙ read-write_same mem (off + 0x50000) 221 ap_trampoline length-ap_trampoline,
      (λ addr n h.
          read-write_control copied (off + 0x50000) core_id cr3 stack_top ap_main addr n
            (grind arith)
          ∙ read-write_other mem (off + 0x50000) ap_trampoline addr n
              (grind (arith, length-ap_trampoline))),
      rw start refl,
    )
