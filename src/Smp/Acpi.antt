-- ===== src/Smp/Acpi.antt =====
-- kernel/src/smp.rs: the search for the RSDP and the walk of the MADT, on a memory that may hold
-- anything. The addresses are virtual, `phys_offset` above the physical ones.
pub mod Rsdp
pub mod Madt
use axiom_os.Base.{
  ltb, ◌==◌, if◌then◌else◌, ◌<<<◌, ℕ, zero, suc, ◌+◌, ◌-◌, ◌*◌, ◌/◌, ◌%◌, min, Bool, ◌&&◌, Option,
  none, some, List, [], ◌∷◌, ◌++◌,
}
use axiom_os.Base.Bytes.{same_bytes}
use axiom_os.Smp.Memory.{Memory, read, read_word}

-- b"RSD PTR "
abbrev pub rsdp_signature : List ℕ
rsdp_signature = 0x52 ∷ 0x53 ∷ 0x44 ∷ 0x20 ∷ 0x50 ∷ 0x54 ∷ 0x52 ∷ 0x20 ∷ []

-- b"APIC"
abbrev pub madt_signature : List ℕ
madt_signature = 0x41 ∷ 0x50 ∷ 0x49 ∷ 0x43 ∷ []

-- `sig == b"RSD PTR "`
unfoldable pub is_rsdp : Memory → ℕ → ℕ → Bool
unfolding read same_bytes
is_rsdp mem off addr = same_bytes (read mem (off + addr) 8) rsdp_signature

-- `while addr < end`, on fuel.
unfoldable pub scan_region : ℕ → Memory → ℕ → ℕ → ℕ → Option ℕ
unfolding is_rsdp
scan_region zero mem off addr end = none
scan_region (suc fuel) mem off addr end =
    let rest = scan_region fuel mem off (addr + 16) end in
    if ltb addr end then (if is_rsdp mem off addr then some addr else rest) else none

-- `Option::or_else`
unfoldable pub or_else : Option ℕ → Option ℕ → Option ℕ
or_else (some a) other = some a
or_else none other = other

-- The extended BIOS data area, then the BIOS area.
unfoldable pub find_rsdp : Memory → ℕ → Option ℕ
unfolding or_else scan_region read_word
find_rsdp mem off =
    let ebda = read_word mem (off + 0x40e) 2 <<< 4 in
    or_else (scan_region 65 mem off ebda (ebda + 0x400)) (scan_region 8193 mem off 0xe0000 0x100000)

-- The loop over the pointers of the RSDT, from the `i`-th, `n` left.
unfoldable pub find_madt : Memory → ℕ → ℕ → ℕ → ℕ → Option ℕ
unfolding read_word read same_bytes
find_madt mem off rsdt_virt zero i = none
find_madt mem off rsdt_virt (suc n) i =
    let table = read_word mem (rsdt_virt + 36 + i * 4) 4 in
    let rest = find_madt mem off rsdt_virt n (i + 1) in
    if table == 0
    then rest
    else if same_bytes (read mem (off + table) 4) madt_signature
    then some table
    else rest

-- `if entry_type == 0 { … }`: the id of a local APIC whose lowest flag is set.
unfoldable pub collect : Memory → ℕ → List ℕ → List ℕ
unfolding read_word
collect mem entry ids =
    if (mem entry == 0) && (read_word mem (entry + 4) 4 % 2 == 1)
    then ids ++ (mem (entry + 3) ∷ [])
    else ids

-- The loop over the entries of the MADT; `none` when the fuel runs out.
unfoldable pub walk_entries : ℕ → Memory → ℕ → ℕ → ℕ → List ℕ → Option (List ℕ)
unfolding collect
walk_entries zero mem madt_virt madt_len offset ids = none
walk_entries (suc fuel) mem madt_virt madt_len offset ids =
    let entry = madt_virt + offset in
    let entry_len = mem (entry + 1) in
    let rest =
      walk_entries fuel mem madt_virt madt_len (offset + entry_len) (collect mem entry ids) in
    if ltb (offset + 2) madt_len then (if entry_len == 0 then some ids else rest) else some ids

-- The walk of the table that was found, from its first entry at 44.
unfoldable pub walk_madt : Memory → ℕ → Option ℕ → Option (List ℕ)
unfolding read_word walk_entries
walk_madt mem off none = some []
walk_madt mem off (some madt) =
    let madt_len = read_word mem (off + madt + 4) 4 in
    walk_entries (madt_len + 1) mem (off + madt) madt_len 44 []

-- From the root pointer that was found to its RSDT, of which at most 32 pointers are looked at.
unfoldable pub search_tables : Memory → ℕ → Option ℕ → Option (List ℕ)
unfolding read_word find_madt walk_madt
search_tables mem off none = some []
search_tables mem off (some rsdp) =
    let rsdt_virt = off + read_word mem (off + rsdp + 16) 4 in
    let n_entries = (read_word mem (rsdt_virt + 4) 4 - 36) / 4 in
    walk_madt mem off (find_madt mem off rsdt_virt (min n_entries 32) 0)

unfoldable pub parse_madt : Memory → ℕ → Option ℕ → Option (List ℕ)
unfolding or_else find_rsdp search_tables
parse_madt mem off rsdp_addr = search_tables mem off (or_else rsdp_addr (find_rsdp mem off))
