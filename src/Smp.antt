-- ===== src/Smp.antt =====
-- kernel/src/smp.rs: finding the other processors and bringing them up.
pub mod Memory
pub mod Acpi
pub mod Trampoline
pub mod Ipi
pub mod Paging
pub mod Boot
mod Tests
