-- ===== src/Smp/Tests.antt =====
-- A small machine: tables that list two processors, page tables that lead to an empty entry, and the
-- theorems applied to it.
use axiom_os.Base.{ℕ, ◌+◌, ◌*◌, ◌≤◌, ◌≡◌, refl, ◌⊎◌, true, false, some, List, [], ◌∷◌, ◌++◌, arith}
use axiom_os.Base.Bytes.{to_le, from_le}
use axiom_os.Smp.Memory.{Memory, read, read_word, write, write_u64}
use axiom_os.Smp.Acpi.{find_madt, parse_madt}
use axiom_os.Smp.Acpi.Madt.{
  Entry, local_apic, other, encode_all, parse_madt-terminates, parse_madt-entries,
}
use axiom_os.Smp.Trampoline.{ap_trampoline, install_trampoline}
use axiom_os.Smp.Trampoline.Control.{install_trampoline-read_back}
use axiom_os.Smp.Ipi.{Lapic, send_sipi, protocol, send_sipi-protocol}
use axiom_os.Smp.Paging.{mapped, frame_of, add_trampoline_identity_map, translate}
use axiom_os.Smp.Paging.Identity.{identity_map-translate}
use axiom_os.Smp.Boot.{Machine, Platform, core_locals}

abbrev empty_memory : Memory
empty_memory a = 0

-- Three entries: two processors, one of them disabled, and an I/O APIC; then a third processor.
abbrev entries : List Entry
entries = local_apic 0 0 1 ∷ local_apic 1 5 0 ∷ other 1 (2 ∷ 0 ∷ []) ∷ local_apic 2 3 1 ∷ []

-- The root pointer at 0x100, the RSDT at 0x200, the MADT at 0x300.
abbrev tables : Memory
tables =
    write
      (write
        (write (write (write empty_memory 0x110 (to_le 4 0x200)) 0x204 (to_le 4 40)) 0x224
          (to_le 4 0x300))
        0x300 (0x41 ∷ 0x50 ∷ 0x49 ∷ 0x43 ∷ to_le 4 72))
      0x32c (encode_all entries)

parse_madt-terminates_example : (ids : List ℕ) × (parse_madt tables 0 (some 0x100) ≡ some ids)
parse_madt-terminates_example = parse_madt-terminates tables 0 (some 0x100)

madt_found : find_madt tables 0 0x200 1 0 ≡ some 0x300
unfolding find_madt write to_le from_le
madt_found = refl

root_read : read_word tables 0x110 4 ≡ 0x200
unfolding read_word write to_le from_le
root_read = refl

rsdt_length : read_word tables 0x204 4 ≡ 40
unfolding read_word write to_le from_le
rsdt_length = refl

madt_length : read_word tables 0x304 4 ≡ 72
unfolding read_word write to_le from_le
madt_length = refl

entries_read : read tables 0x32c 28 ≡ encode_all entries
unfolding read write to_le
entries_read = refl

parse_madt-entries_example : parse_madt tables 0 (some 0x100) ≡ some (0 ∷ 3 ∷ [])
unfolding to_le
parse_madt-entries_example =
    parse_madt-entries entries tables 0 0x100 0x200 0x300 1 root_read rsdt_length (omega arith)
      madt_found madt_length entries_read (omega arith, (omega arith, (cc, (omega arith, tt))))

install_trampoline-read_back_example :
    (read (install_trampoline empty_memory 0 0x2000 1 0x9000 0x7000).1 (0 + 0x50000) 221
      ≡ ap_trampoline)
    × ((addr n : ℕ)
        → (addr + n ≤ 0 + 0x50000) ⊎ (0 + 0x51000 ≤ addr)
        → read (install_trampoline empty_memory 0 0x2000 1 0x9000 0x7000).1 addr n
          ≡ read empty_memory addr n)
    × ((install_trampoline empty_memory 0 0x2000 1 0x9000 0x7000).0 ≡ false)
install_trampoline-read_back_example =
    install_trampoline-read_back empty_memory 0 0x2000 1 0x9000 0x7000

abbrev idle_lapic : Lapic
idle_lapic = record { writes = []; reads = 0 }

-- A register that always says that a command is pending.
abbrev stuck_register : ℕ → ℕ
stuck_register k = 4096

send_sipi-protocol_example :
    ((send_sipi stuck_register 3 0x50 idle_lapic).writes ≡ [] ++ protocol 3 0x50)
    × (0 + 4 ≤ (send_sipi stuck_register 3 0x50 idle_lapic).reads)
    × ((send_sipi stuck_register 3 0x50 idle_lapic).reads ≤ 0 + 4004)
send_sipi-protocol_example = send_sipi-protocol stuck_register 3 0x50 idle_lapic

-- Four tables in a row; the last is empty.
abbrev page_tables : Memory
page_tables =
    write_u64 (write_u64 (write_u64 empty_memory 0x1000 0x2003) 0x2000 0x3003) 0x3000 0x4003

top_entry : read_word page_tables (0 + 0x1000) 8 ≡ 0x2003
unfolding read_word write_u64 to_le from_le
top_entry = refl

second_entry : read_word page_tables (0 + frame_of 0x2003) 8 ≡ 0x3003
unfolding read_word write_u64 to_le from_le frame_of
second_entry = refl

third_entry : read_word page_tables (0 + frame_of 0x3003) 8 ≡ 0x4003
unfolding read_word write_u64 to_le from_le frame_of
third_entry = refl

was_empty : (add_trampoline_identity_map page_tables 0 0x1000).0 ≡ mapped 0
unfolding add_trampoline_identity_map read_word write_u64 to_le from_le frame_of
was_empty = refl

identity_map-translate_example :
    translate (add_trampoline_identity_map page_tables 0 0x1000).1 0 0x1000 (0x50000 + 0x80)
    ≡ some (0x50000 + 0x80)
identity_map-translate_example =
    identity_map-translate page_tables 0 0x1000 0x2003 0x3003 0x4003 0 refl (omega arith) top_entry
      second_entry third_entry (omega arith) (omega arith) (omega arith) was_empty 0x80
      (omega arith)

abbrev platform : Platform
platform = record {
  phys_offset = 0;
  cr3 = 0x1000;
  stacks = λ id. 0x100000 + id * 16384;
  ap_main_addr = 0x7000;
  answers = λ k. 0;
  starts = λ id. true;
}

abbrev cold_machine : Machine
cold_machine = record { mem = tables; lapic = idle_lapic; cores = core_locals; aps_online = 0 }
