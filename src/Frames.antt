-- ===== src/Frames.antt =====
-- kernel/src/memory.rs and kernel/src/allocator.rs: the frames that the boot loader's memory map leaves
-- free, handed out one by one, and the pages of the kernel heap. The kinds of region and the frame
-- that contains an address are those of the boot loader's and the paging library.
pub mod Distinct
pub mod Heap
mod Tests
use axiom_os.Base.{
  if◌then◌else◌, get_elem?, ℕ, zero, suc, ◌+◌, ◌-◌, ◌/◌, Bool, Option, List, [], ◌∷◌, ◌++◌, map,
}

pub record MemoryRegion (Kind : Type 0) : Type 0 where
  pub start : ℕ
  pub end : ℕ
  pub kind : Kind

-- `(start..end).step_by(4096)`, as a count of steps.
unfoldable pub step_by : ℕ → ℕ → List ℕ
step_by start zero = []
step_by start (suc n) = start ∷ step_by (start + 4096) n

abbrev pub steps : ℕ → ℕ → ℕ
steps start end = (end - start + 4095) / 4096

pub record BootInfoFrameAllocator (Kind : Type 0) : Type 0 where
  pub memory_regions : List (MemoryRegion Kind)
  pub next : ℕ

module _ {Kind : Type 0} (usable : Kind → Bool) (containing_address : ℕ → ℕ) where
  unfoldable pub usable_frames : List (MemoryRegion Kind) → List ℕ
  unfolding step_by
  usable_frames [] = []
  usable_frames (r ∷ rs) =
      if usable r.kind
      then map containing_address (step_by r.start (steps r.start r.end)) ++ usable_frames rs
      else usable_frames rs

  unfoldable pub allocate_frame :
      BootInfoFrameAllocator Kind → Option ℕ × BootInfoFrameAllocator Kind
  unfolding usable_frames
  allocate_frame a =
      (get_elem? (usable_frames a.memory_regions) a.next, record a { next = a.next + 1 })

unfoldable pub init : {Kind : Type 0} → List (MemoryRegion Kind) → BootInfoFrameAllocator Kind
init memory_regions = record { memory_regions = memory_regions; next = 0 }
