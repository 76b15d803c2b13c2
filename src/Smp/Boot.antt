-- ===== src/Smp/Boot.antt =====
-- kernel/src/smp.rs: init, which starts the processors that the MADT lists one after the other, and
-- ap_main, in which they report. The physical memory, the local APIC and the per-core records are the
-- state; `starts id` says whether the processor gets to ap_main before init stops waiting for it.
pub mod Online
pub mod Counted
pub mod Count
use axiom_os.Base.{
  ltb, leb, ◌==◌, if◌then◌else◌, length, get_or, set, range_from, u8, u32, ◌>>>◌, ℕ, ◌+◌, Bool,
  true, false, Option, none, some, List, [], ◌∷◌, map,
}
use axiom_os.Smp.Memory.{Memory, write}
use axiom_os.Smp.Acpi.{parse_madt}
use axiom_os.Smp.Trampoline.{install_trampoline}
use axiom_os.Smp.Ipi.{Lapic, lapic_read, send_sipi}

abbrev pub max_cores : ℕ
max_cores = 8

pub record CoreLocals : Type 0 where
  pub core_id : ℕ
  pub scba_budget_max : ℕ
  pub scba_consumed : ℕ
  pub scba_fences : ℕ
  pub total_switches : ℕ
  pub is_online : Bool

unfoldable pub new_core : ℕ → CoreLocals
new_core id = record {
  core_id = id;
  scba_budget_max = 64;
  scba_consumed = 0;
  scba_fences = 0;
  total_switches = 0;
  is_online = false;
}

unfoldable pub core_locals : List CoreLocals
unfolding new_core
core_locals = map new_core (range_from 0 max_cores)

pub record Machine : Type 0 where
  pub mem : Memory
  pub lapic : Lapic
  pub cores : List CoreLocals
  pub aps_online : ℕ

unfoldable pub core_at : List CoreLocals → ℕ → CoreLocals
unfolding new_core
core_at cores i = get_or cores i (new_core i)

-- `CORE_LOCALS[id].is_online.store(true)`
unfoldable pub set_online : List CoreLocals → ℕ → List CoreLocals
unfolding core_at
set_online cores i = set cores i (record (core_at cores i) { is_online = true })

unfoldable pub ap_main : ℕ → Machine → Machine
unfolding set_online
ap_main id m =
    if ltb id max_cores
    then record m { cores = set_online m.cores id; aps_online = u32 (m.aps_online + 1) }
    else m

-- What init knows of the machine it runs on: the offset of physical memory, the page table, the
-- addresses of the stacks and of ap_main, and what the hardware answers.
pub record Platform : Type 0 where
  pub phys_offset : ℕ
  pub cr3 : ℕ
  pub stacks : ℕ → ℕ
  pub ap_main_addr : ℕ
  pub answers : ℕ → ℕ
  pub starts : ℕ → Bool

-- One turn of the loop over the ids, for a processor that is not the one init runs on.
unfoldable pub start_ap : Platform → ℕ → Machine → Machine
unfolding ap_main
start_ap p id m =
    let cleared =
      write (write m.mem (p.phys_offset + 0xffe) (0 ∷ [])) (p.phys_offset + 0x50ffe) (0 ∷ []) in
    let stack_top = p.stacks id + 16384 in
    let installed =
      (install_trampoline cleared p.phys_offset p.cr3 id stack_top p.ap_main_addr).1 in
    let signalled = record m { mem = installed; lapic = send_sipi p.answers id 0x50 m.lapic } in
    if leb max_cores id then m else (if p.starts id then ap_main id signalled else signalled)

unfoldable pub start_aps : Platform → ℕ → List ℕ → Machine → Machine
start_aps p bsp_id [] m = m
start_aps p bsp_id (id ∷ ids) m =
    start_aps p bsp_id ids (if id == bsp_id then m else start_ap p id m)

-- The ids that were found: with one at most, there is nothing to start.
unfoldable pub bring_up : Platform → List ℕ → Machine → ℕ × Machine
bring_up p ids m =
    let r = lapic_read p.answers m.lapic in
    let bsp_id = u8 (r.0 >>> 24) in
    let started = start_aps p bsp_id ids (record m { lapic = r.1 }) in
    if leb (length ids) 1 then (1, m) else (1 + started.aps_online, started)

-- The walk of the MADT always returns a list.
unfoldable pub bring_up_found : Platform → Option (List ℕ) → Machine → ℕ × Machine
bring_up_found p none m = (0, m)
bring_up_found p (some ids) m = bring_up p ids m

-- The number of cores that is reported, and the machine.
unfoldable pub init : Platform → Option ℕ → Machine → ℕ × Machine
unfolding bring_up_found
init p rsdp_addr m =
    bring_up_found p (parse_madt m.mem p.phys_offset rsdp_addr)
      (record m { cores = set_online m.cores 0 })
