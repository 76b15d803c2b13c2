-- ===== src/Frames/Heap.antt =====
-- kernel/src/allocator.rs: init_heap maps the pages of the heap, one frame each.
pub mod Backed
use axiom_os.Base.{
  if◌then◌else◌, ℕ, zero, suc, ◌+◌, ◌-◌, ◌*◌, ◌/◌, ◌≤◌, ◌≡◌, ◌≢◌, Bool, true, false, Option, none,
  some,
}
use axiom_os.Frames.{BootInfoFrameAllocator, allocate_frame}

-- `MapToError`, of which only a missing frame is told apart.
pub data MapToError : Type 0 where
  frame_allocation_failed : MapToError
  map_failed : MapToError

abbrev pub heap_start : ℕ
heap_start = 0x444444440000

abbrev pub heap_size : ℕ
heap_size = 8 * 1024 * 1024

-- The page tables of the paging library: a page is known by its address, and `map_to` may take frames
-- from the allocator for its tables. When it succeeds, the page is mapped to the frame, and in any case
-- no other page changes; the frames it takes are taken in order.
pub record Mapper (Kind : Type 0) : Type 1 where
  pub Table : Type 0
  pub lookup : Table → ℕ → Option ℕ
  pub map_to :
      Table → ℕ → ℕ → BootInfoFrameAllocator Kind → Bool × Table × BootInfoFrameAllocator Kind
  pub map_to_mapped :
      (t : Table) (page frame : ℕ) (a : BootInfoFrameAllocator Kind)
      → (map_to t page frame a).0 ≡ true
      → lookup (map_to t page frame a).1 page ≡ some frame
  pub map_to_others :
      (t : Table) (page frame other : ℕ) (a : BootInfoFrameAllocator Kind)
      → page ≢ other
      → lookup (map_to t page frame a).1 other ≡ lookup t other
  pub map_to_frames :
      (t : Table) (page frame : ℕ) (a : BootInfoFrameAllocator Kind)
      → ((map_to t page frame a).2.memory_regions ≡ a.memory_regions)
        × (a.next ≤ (map_to t page frame a).2.next)

-- The `?` of a step: what failed is returned, and else the rest is.
abbrev pub or_return {ℓ} : {A : Type ℓ} → Option MapToError → A → A → A
or_return none failed rest = rest
or_return (some e) failed rest = failed

module _ {Kind : Type 0} (usable : Kind → Bool) (containing_address : ℕ → ℕ)
    (mapper : Mapper Kind) where
  open mapper use {Table, map_to}

  -- `ok_or(FrameAllocationFailed)?`, then `map_to(…)?` and the flush.
  unfoldable pub map_page :
      Option ℕ
      → ℕ
      → Table
      → BootInfoFrameAllocator Kind
      → Option MapToError × Table × BootInfoFrameAllocator Kind
  map_page none page t a = (some frame_allocation_failed, t, a)
  map_page (some frame) page t a =
      let m = map_to t page frame a in (if m.0 then none else some map_failed, m.1, m.2)

  -- The loop over the pages, `n` left.
  unfoldable pub map_heap :
      ℕ
      → ℕ
      → Table
      → BootInfoFrameAllocator Kind
      → Option MapToError × Table × BootInfoFrameAllocator Kind
  map_heap zero page t a = (none, t, a)
  map_heap (suc n) page t a =
      let r = allocate_frame usable containing_address a in
      let o = map_page r.0 page t r.1 in
      let rest = map_heap n (page + 4096) o.1 o.2 in or_return o.0 o rest

  -- The error, whether the allocator was given its memory, and the page tables.
  unfoldable pub init_heap :
      Table
      → BootInfoFrameAllocator Kind
      → Option MapToError × Bool × Table × BootInfoFrameAllocator Kind
  init_heap t a =
      let start_page = containing_address heap_start in
      let end_page = containing_address (heap_start + heap_size - 1) in
      let r = map_heap ((end_page - start_page) / 4096 + 1) start_page t a in
      (r.0, or_return r.0 false true, r.1, r.2)
