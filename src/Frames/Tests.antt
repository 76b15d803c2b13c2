-- ===== src/Frames/Tests.antt =====
-- A memory map of three regions, and a mapper that keeps a list.
use axiom_os.Base.{
  ◌==◌, if◌then◌else◌, ==_iff, ℕ, ◌+◌, ◌-◌, ◌*◌, ◌%◌, ◌≤◌, ◌≡◌, refl, ◌≢◌, Bool, true, false,
  Option, none, some, List, [], ◌∷◌, arith,
}
use axiom_os.Frames.{MemoryRegion, BootInfoFrameAllocator, allocate_frame, init}
use axiom_os.Frames.Distinct.{IsMap, Holds, after_calls, allocate_frame-distinct}
use axiom_os.Frames.Heap.{Mapper, heap_start, init_heap, map_heap, map_page}
use axiom_os.Frames.Heap.Backed.{init_heap-backed}

abbrev page_floor : ℕ → ℕ
page_floor a = a - a % 4096

-- One free page, a reserved one, and a large free region.
abbrev memory_map : List (MemoryRegion Bool)
memory_map =
    record { start = 0x1000; end = 0x2000; kind = true }
    ∷ record { start = 0x2000; end = 0x3000; kind = false }
    ∷ record { start = 0x100000; end = 0x2000000; kind = true }
    ∷ []

memory_map-IsMap : IsMap 0 memory_map
memory_map-IsMap = omega arith

second_frame :
    (allocate_frame (λ b. b) page_floor (after_calls (λ b. b) page_floor 1 (init memory_map))).0
    ≡ some 0x100000
unfolding allocate_frame init
second_frame = refl

first_frame :
    (allocate_frame (λ b. b) page_floor (after_calls (λ b. b) page_floor 0 (init memory_map))).0
    ≡ some 0x1000
unfolding allocate_frame init
first_frame = refl

allocate_frame-distinct_example :
    (0x1000 + 4096 ≤ 0x100000)
    × Holds (λ (b : Bool). b) memory_map 0x1000
    × Holds (λ (b : Bool). b) memory_map 0x100000
allocate_frame-distinct_example =
    allocate_frame-distinct (λ b. b) page_floor memory_map 0 1 0x1000 0x100000 (λ a h. omega arith)
      memory_map-IsMap (omega arith) first_frame second_frame

-- The page tables as a list of pages and frames, the latest first.
find_page : List (ℕ × ℕ) → ℕ → Option ℕ
find_page [] page = none
find_page ((p, f) ∷ rest) page = if p == page then some f else find_page rest page

list_map_to :
    List (ℕ × ℕ)
    → ℕ
    → ℕ
    → BootInfoFrameAllocator Bool
    → Bool × List (ℕ × ℕ) × BootInfoFrameAllocator Bool
list_map_to t page frame a = (true, (page, frame) ∷ t, a)

list_map_to-mapped :
    (t : List (ℕ × ℕ)) (page frame : ℕ) (a : BootInfoFrameAllocator Bool)
    → (list_map_to t page frame a).0 ≡ true
    → find_page (list_map_to t page frame a).1 page ≡ some frame
unfolding list_map_to find_page
list_map_to-mapped t page frame a e = rw ((==_iff page page).1 refl) refl

list_map_to-others :
    (t : List (ℕ × ℕ)) (page frame other : ℕ) (a : BootInfoFrameAllocator Bool)
    → page ≢ other
    → find_page (list_map_to t page frame a).1 other ≡ find_page t other
unfolding list_map_to find_page
list_map_to-others t page frame other a h = ground arith

list_map_to-frames :
    (t : List (ℕ × ℕ)) (page frame : ℕ) (a : BootInfoFrameAllocator Bool)
    → ((list_map_to t page frame a).2.memory_regions ≡ a.memory_regions)
      × (a.next ≤ (list_map_to t page frame a).2.next)
unfolding list_map_to
list_map_to-frames t page frame a = (refl, omega arith)

abbrev list_mapper : Mapper Bool
list_mapper = record {
  Table = List (ℕ × ℕ);
  lookup = find_page;
  map_to = list_map_to;
  map_to_mapped = list_map_to-mapped;
  map_to_others = list_map_to-others;
  map_to_frames = list_map_to-frames;
}

abbrev plenty : List (MemoryRegion Bool)
plenty = record { start = 0x100000; end = 0x900000; kind = true } ∷ []

heap_mapped : (init_heap (λ b. b) page_floor list_mapper [] (init plenty)).0 ≡ none
unfolding init_heap map_heap map_page allocate_frame init list_map_to
heap_mapped = refl

init_heap-backed_example :
    ((init_heap (λ b. b) page_floor list_mapper [] (init plenty)).1 ≡ true)
    × ((f g : ℕ) × (find_page
            (init_heap (λ b. b) page_floor list_mapper [] (init plenty)).2
            (heap_start + 3 * 4096)
          ≡ some f)
        × (find_page
              (init_heap (λ b. b) page_floor list_mapper [] (init plenty)).2
              (heap_start + 2047 * 4096)
            ≡ some g)
        × (f + 4096 ≤ g))
unfolding init
init_heap-backed_example =
    init_heap-backed (λ b. b) page_floor list_mapper [] (init plenty) 3 2047 (λ a. refl)
      (omega arith) heap_mapped (omega arith) (omega arith)
