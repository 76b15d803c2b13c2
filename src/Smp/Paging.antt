-- ===== src/Smp/Paging.antt =====
-- kernel/src/smp.rs: add_trampoline_identity_map, against the translation of addresses by page tables of
-- four levels.
pub mod Identity
use axiom_os.Base.{
  ◌==◌, if◌then◌else◌, ◌>>>◌, ℕ, ◌+◌, ◌-◌, ◌*◌, ◌/◌, ◌%◌, ◌^◌, Bool, not, Option, none, some,
}
use axiom_os.Smp.Memory.{Memory, read_word, write_u64}

-- Where the walk down the tables stops.
pub data Outcome : Type 0 where
  pml4_missing : Outcome
  pdpt_missing : Outcome
  covered_by_1g : Outcome
  pd_missing : Outcome
  covered_by_2m : Outcome
  mapped : ℕ → Outcome

-- `entry & !0xFFF`
unfoldable pub frame_of : ℕ → ℕ
frame_of entry = entry - entry % 4096

-- `entry & (1 << 7) != 0`
unfoldable pub is_huge : ℕ → Bool
is_huge entry = (entry >>> 7) % 2 == 1

-- `entry & 1 != 0`
unfoldable pub is_present : ℕ → Bool
is_present entry = entry % 2 == 1

-- The entry in the last table, at the index 0x50.
unfoldable pub map_in_table : Memory → ℕ → Outcome × Memory
unfolding read_word write_u64
map_in_table mem pt =
    (mapped (read_word mem (pt + 0x50 * 8) 8), write_u64 mem (pt + 0x50 * 8) 0x50003)

-- The tests on the entries, from the top.
unfoldable pub walk_tables : Memory → ℕ → ℕ → ℕ → ℕ → Outcome × Memory
unfolding frame_of is_huge is_present map_in_table
walk_tables mem off pml4e pdpte pde =
    if not (is_present pml4e)
    then (pml4_missing, mem)
    else if not (is_present pdpte)
    then (pdpt_missing, mem)
    else if is_huge pdpte
    then (covered_by_1g, mem)
    else if not (is_present pde)
    then (pd_missing, mem)
    else if is_huge pde
    then (covered_by_2m, mem)
    else map_in_table mem (off + frame_of pde)

unfoldable pub add_trampoline_identity_map : Memory → ℕ → ℕ → Outcome × Memory
unfolding walk_tables
add_trampoline_identity_map mem off cr3 =
    let pml4e = read_word mem (off + cr3) 8 in
    let pdpte = read_word mem (off + frame_of pml4e) 8 in
    let pde = read_word mem (off + frame_of pdpte) 8 in walk_tables mem off pml4e pdpte pde

-- The processor's translation: an entry's frame is in its bits 12 to 51.
unfoldable pub hardware_frame : ℕ → ℕ
hardware_frame entry = entry % 2 ^ 52 - entry % 4096

-- The entry of a table that a parent entry points to.
unfoldable pub entry_at : Memory → ℕ → ℕ → ℕ → ℕ
unfolding read_word hardware_frame
entry_at mem off parent index = read_word mem (off + hardware_frame parent + index * 8) 8

-- What the four entries of an address give.
unfoldable pub translate_entries : ℕ → ℕ → ℕ → ℕ → ℕ → Option ℕ
unfolding is_huge is_present hardware_frame
translate_entries virt pml4e pdpte pde pte =
    if not (is_present pml4e)
    then none
    else if not (is_present pdpte)
    then none
    else if is_huge pdpte
    then some (pdpte % 2 ^ 52 / 2 ^ 30 * 2 ^ 30 + virt % 2 ^ 30)
    else if not (is_present pde)
    then none
    else if is_huge pde
    then some (pde % 2 ^ 52 / 2 ^ 21 * 2 ^ 21 + virt % 2 ^ 21)
    else if not (is_present pte)
    then none
    else some (hardware_frame pte + virt % 4096)

unfoldable pub translate : Memory → ℕ → ℕ → ℕ → Option ℕ
translate mem off cr3 virt =
    let pml4e = entry_at mem off cr3 ((virt >>> 39) % 512) in
    let pdpte = entry_at mem off pml4e ((virt >>> 30) % 512) in
    let pde = entry_at mem off pdpte ((virt >>> 21) % 512) in
    let pte = entry_at mem off pde ((virt >>> 12) % 512) in
    translate_entries virt pml4e pdpte pde pte
