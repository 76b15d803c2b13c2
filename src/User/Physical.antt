-- ===== src/User/Physical.antt =====
-- kernel/src/user.rs with the frames of kernel/src/memory.rs: where the user's pages lie in physical
-- memory.
use axiom_os.Base.{drop, ℕ, Bool, []}
use axiom_os.Frames.{BootInfoFrameAllocator, usable_frames}
use axiom_os.ElfLoader.{Space}

-- The address space before setup: no page, and the frames that the allocator has not handed out.
abbrev pub unused : {Kind : Type 0} → (Kind → Bool) → (ℕ → ℕ) → BootInfoFrameAllocator Kind → Space
unused usable containing_address a = record {
  mappings = [];
  frames = drop a.next (usable_frames usable containing_address a.memory_regions);
}
