-- ===== src/Lib.antt =====
-- AXIOM OS: the kernel's cryptography, its capabilities, audit log, security lattice, message channel,
-- scheduler, driver confinement, system calls, memory set-up and the start of its processors.
--
-- The kernel authenticates capabilities and audit entries with HMAC-SHA-256, seals messages between
-- processes with ChaCha20-Poly1305 under keys from HKDF, checks accesses against a lattice of
-- labels, and charges each task a budget per timer tick.
--
-- Files, with the code they are about (paths below kernel/src):
--   Base          lists measured by native numbers, words, bits, bytes, circular buffers
--   Crypto        crypto.rs: Sha256 (the hasher; Blocks and Pad hold the reference), Hmac, ConstTime
--   Poly1305      poly1305.rs, the one-time MAC: Multiply, Block, Tag
--   Aead          crypto_aead.rs and poly1305.rs, the authenticated encryptions: ChaCha, Hkdf, Xor,
--                 EncryptHmac (aead_seal, aead_open), Sealed (chacha20_poly1305_seal and _open)
--   Capability    axiom/capability.rs: mint, verify, derive
--   Meal          meal.rs: append and verify_chain over the ring of entries
--   Lattice       lattice.rs: dominance, join, meet, verify, and the reconfiguration of run_demo
--   Eipc          eipc.rs: enqueue, dequeue, and the two endpoints
--   Scheduler     task.rs and scheduler.rs: tick, reset_epoch, prepare_switch
--   Ztdf          ztdf.rs: step, and the loop around it
--   Net           net.rs: the parsers, process_frame, transmit_eipc_udp
--   Vmz           vmz.rs: zero_region, verify_zeroed
--   LogBuffer     log_buffer.rs: push, drain; Interleaved has their accesses one by one
--   ElfLoader     elf_loader.rs: load
--   User          user.rs: setup; Physical puts it on the frames of Frames
--   Kernel        syscall.rs, the exit of user.rs and the handlers of interrupts.rs: what an entry into
--                 the kernel does to the log, the scheduler and the counters; a run is a list of entries
--   Frames        memory.rs: allocate_frame; Frames.Heap: allocator.rs, init_heap
--   Smp           smp.rs: Memory (physical memory as a function), Acpi (find_rsdp, parse_madt),
--                 Trampoline (install_trampoline), Ipi (send_sipi), Paging
--                 (add_trampoline_identity_map), Boot (init, ap_main)
--   Framebuffer   framebuffer.rs: fill_screen
--   DemoHash      axiom/demo_crypto.rs: keyed_hash, tags_equal
--
-- How the source is read. A struct is a record, an enum a data type, an array or a slice a list whose
-- length is a hypothesis where it matters. Integers are natural numbers; a sum that the source lets
-- wrap is reduced modulo its width (the addresses of ElfLoader are not), and a subtraction is written
-- where it cannot go below zero. A
-- method on `&mut self` returns the new state. A read past the end of an array, a panic in the
-- source, gives a default here, and no theorem rests on it. A loop is recursion on the number of turns
-- it makes; where that is not fixed, as in `update` and `block_loop`, on fuel: one more than the length
-- of the message, and each turn takes at least one byte. `find_ready` has as many turns as there are
-- tasks. The scan for the root pointer makes at most 64 and 8192 turns of 16 bytes, and has one more each;
-- the walk of the MADT has one more than the bytes of the table, as each entry takes at least one.
-- The clock, the locks, the addresses of the allocator, the answers of the local APIC and the processors
-- that start are arguments. The kinds of memory region and the page tables are those of the boot
-- loader's and the paging library: a parameter and the interface Mapper of Frames.Heap.
--
-- Not modelled: reorderings that the relaxed atomics of log_buffer.rs permit beyond the interleaving of
-- its accesses, console output, port and register access (model-specific registers, CR3, the
-- acknowledgement of interrupts, the serial port), the descriptor tables, the assembly routines, the
-- entry into user mode, the calls of main.rs that start the parts
-- one after the other, the demonstrations, which print, and the program that builds the disk image.
pub mod Base
pub mod Crypto
pub mod Poly1305
pub mod Aead
pub mod Capability
pub mod Meal
pub mod Lattice
pub mod Eipc
pub mod Scheduler
pub mod Ztdf
pub mod Net
pub mod Vmz
pub mod LogBuffer
pub mod ElfLoader
pub mod Smp
pub mod Kernel
pub mod Frames
pub mod DemoHash
pub mod Framebuffer
pub mod User
