-- ===== src/Frames/Heap/Backed.antt =====
-- The heap that init_heap leaves.
use axiom_os.Base.{
  Bool-cases, Option-cases, get_elem?, ℕ, zero, suc, ◌+◌, ◌-◌, ◌*◌, ◌/◌, ◌%◌, ◌≤◌, ◌<◌, ◌≡◌, refl,
  sym, ap, subst, ◌∙◌, inl, inr, Bool, true, false, Option, none, some, List, arith,
}
use axiom_os.Frames.{BootInfoFrameAllocator, allocate_frame, usable_frames}
use axiom_os.Frames.Distinct.{IsMap, Ascending, Ascending-apart, usable_frames-Ascending}
use axiom_os.Frames.Heap.{
  MapToError, Mapper, or_return, heap_start, heap_size, map_page, map_heap, init_heap,
}

module _ {Kind : Type 0} (usable : Kind → Bool) (containing_address : ℕ → ℕ)
    (mapper : Mapper Kind) where
  open mapper use {Table, lookup, map_to, map_to_mapped, map_to_others, map_to_frames}

  -- The `n` pages from `page` on are mapped to frames of the list, each further on in it than the one before.
  pub Backed : List ℕ → Table → ℕ → ℕ → ℕ → Type 0
  Backed fs t page low zero = Unit
  Backed fs t page low (suc n) =
      (k frame : ℕ) × (low ≤ k)
      × (get_elem? fs k ≡ some frame)
      × (lookup t page ≡ some frame)
      × Backed fs t (page + 4096) (suc k) n

  map_page-others :
      (frame : Option ℕ) (page : ℕ) (t : Table) (a : BootInfoFrameAllocator Kind) (other : ℕ)
      → other < page
      → lookup (map_page usable containing_address mapper frame page t a).1 other ≡ lookup t other
  unfolding map_page
  map_page-others none page t a other h = refl
  map_page-others (some frame) page t a other h =
      map_to_others t page frame other a (λ e. absurd (omega arith))

  -- What a page that was mapped says of the frame and the allocator.
  map_page-mapped :
      (frame : Option ℕ) (page : ℕ) (t : Table) (a : BootInfoFrameAllocator Kind)
      → (map_page usable containing_address mapper frame page t a).0 ≡ none
      → (f : ℕ) × (frame ≡ some f)
        × (lookup (map_page usable containing_address mapper frame page t a).1 page ≡ some f)
        × ((map_page usable containing_address mapper frame page t a).2.memory_regions
            ≡ a.memory_regions)
        × (a.next ≤ (map_page usable containing_address mapper frame page t a).2.next)
  unfolding map_page
  map_page-mapped none page t a e = absurd (cc)
  map_page-mapped (some f) page t a e = elim (Bool-cases (map_to t page f a).0) [
    | inl done ↦ (
      f,
      refl,
      map_to_mapped t page f a done,
      (map_to_frames t page f a).0,
      (map_to_frames t page f a).1,
    )
    | inr failed ↦ absurd (ground arith)
  ]

  map_heap-nil :
      (page : ℕ) (t : Table) (a : BootInfoFrameAllocator Kind) (other : ℕ)
      → lookup (map_heap usable containing_address mapper 0 page t a).1 other ≡ lookup t other
  unfolding map_heap
  map_heap-nil page t a other = refl

  -- One turn of the loop.
  abbrev turn :
      ℕ
      → Table
      → BootInfoFrameAllocator Kind
      → Option MapToError × Table × BootInfoFrameAllocator Kind
  turn page t a =
      let r = allocate_frame usable containing_address a in
      map_page usable containing_address mapper r.0 page t r.1

  -- The turns after it.
  abbrev later :
      ℕ
      → ℕ
      → Table
      → BootInfoFrameAllocator Kind
      → Option MapToError × Table × BootInfoFrameAllocator Kind
  later n page t a =
      map_heap usable containing_address mapper n (page + 4096) (turn page t a).1 (turn page t a).2

  map_heap-next :
      (n page : ℕ) (t : Table) (a : BootInfoFrameAllocator Kind)
      → (turn page t a).0 ≡ none
      → map_heap usable containing_address mapper (suc n) page t a ≡ later n page t a
  unfolding map_heap
  map_heap-next n page t a e = ap (λ o. or_return o (turn page t a) (later n page t a)) e

  map_heap-stop :
      (n page : ℕ) (t : Table) (a : BootInfoFrameAllocator Kind) (err : MapToError)
      → (turn page t a).0 ≡ some err
      → map_heap usable containing_address mapper (suc n) page t a ≡ turn page t a
  unfolding map_heap
  map_heap-stop n page t a err e = ap (λ o. or_return o (turn page t a) (later n page t a)) e

  map_heap-others :
      (n page : ℕ) (t : Table) (a : BootInfoFrameAllocator Kind) (other : ℕ)
      → other < page
      → lookup (map_heap usable containing_address mapper n page t a).1 other ≡ lookup t other
  map_heap-others zero page t a other h = map_heap-nil page t a other
  map_heap-others (suc n) page t a other h =
      let first =
        map_page-others (allocate_frame usable containing_address a).0 page t
          (allocate_frame usable containing_address a).1 other h in
      elim (Option-cases (turn page t a).0) [
        | inl done ↦
            ap (λ o. lookup o.1 other) (map_heap-next n page t a done)
            ∙ map_heap-others n (page + 4096) (turn page t a).1 (turn page t a).2 other
                (omega arith)
            ∙ first
        | inr (e, failed) ↦ ap (λ o. lookup o.1 other) (map_heap-stop n page t a e failed) ∙ first
      ]

  allocated :
      (a : BootInfoFrameAllocator Kind)
      → ((allocate_frame usable containing_address a).0
          ≡ get_elem? (usable_frames usable containing_address a.memory_regions) a.next)
        × ((allocate_frame usable containing_address a).1 ≡ record a { next = a.next + 1 })
  unfolding allocate_frame
  allocated a = (refl, refl)

  Backed-later :
      (fs : List ℕ) (t : Table) (page low low' n : ℕ)
      → low' ≤ low
      → Backed fs t page low n
      → Backed fs t page low' n
  unfolding Backed
  Backed-later fs t page low low' zero h b = tt
  Backed-later fs t page low low' (suc n) h (k, frame, p, q, r, b) =
      (k, frame, omega arith, q, r, b)

  map_heap-Backed :
      (n page : ℕ) (t : Table) (a : BootInfoFrameAllocator Kind) (fs : List ℕ)
      → fs ≡ usable_frames usable containing_address a.memory_regions
      → (map_heap usable containing_address mapper n page t a).0 ≡ none
      → Backed fs (map_heap usable containing_address mapper n page t a).1 page a.next n
  unfolding Backed
  map_heap-Backed zero page t a fs same e = tt
  map_heap-Backed (suc n) page t a fs same e = elim (Option-cases (turn page t a).0) [
    | inr (err, failed) ↦ absurd (cc (ap (λ o. o.0) (map_heap-stop n page t a err failed)))
    | inl done ↦
        let m =
          map_page-mapped (allocate_frame usable containing_address a).0 page t
            (allocate_frame usable containing_address a).1 done in
        let next = map_heap-next n page t a done in
        let regions : (turn page t a).2.memory_regions ≡ a.memory_regions =
          m.3 ∙ ap (λ (b : BootInfoFrameAllocator Kind). b.memory_regions) (allocated a).1 in
        let start : (allocate_frame usable containing_address a).1.next ≡ a.next + 1 =
          ap (λ (b : BootInfoFrameAllocator Kind). b.next) (allocated a).1 in
        (
          a.next,
          m.0,
          omega arith,
          rw same (sym (allocated a).0 ∙ m.1),
          ap (λ o. lookup o.1 page) next
              ∙ map_heap-others n (page + 4096) (turn page t a).1 (turn page t a).2 page
                  (omega arith)
              ∙ m.2,
          subst (λ o. Backed fs o.1 (page + 4096) (suc a.next) n) (sym next)
              (Backed-later fs (later n page t a).1 (page + 4096) (turn page t a).2.next
                (suc a.next) n (omega (arith, m.4, start))
                (map_heap-Backed n (page + 4096) (turn page t a).1 (turn page t a).2 fs
                  (same ∙ ap (usable_frames usable containing_address) (sym regions))
                  (sym (ap (λ o. o.0) next) ∙ e))),
        )
  ]

  -- The frame behind a page of the heap, and its place in the list.
  Backed-get :
      (fs : List ℕ) (t : Table) (n page low i : ℕ)
      → i < n
      → Backed fs t page low n
      → (k frame : ℕ) × (low ≤ k)
        × (get_elem? fs k ≡ some frame)
        × (lookup t (page + i * 4096) ≡ some frame)
  unfolding Backed
  Backed-get fs t zero page low i h b = absurd (omega arith)
  Backed-get fs t (suc n) page low zero h (k, frame, p, q, r, b) =
      (k, frame, p, q, ap (lookup t) (omega arith) ∙ r)
  Backed-get fs t (suc n) page low (suc i) h (k, frame, p, q, r, b) =
      let g = Backed-get fs t n (page + 4096) (suc k) i (omega arith) b in
      (g.0, g.1, omega arith, g.3, ap (lookup t) (omega arith) ∙ g.4)

  Backed-apart :
      (fs : List ℕ) (t : Table) (n page low i j : ℕ)
      → Ascending 0 fs
      → i < j
      → j < n
      → Backed fs t page low n
      → (f g : ℕ) × (lookup t (page + i * 4096) ≡ some f)
        × (lookup t (page + j * 4096) ≡ some g)
        × (f + 4096 ≤ g)
  unfolding Backed
  Backed-apart fs t zero page low i j asc h lt b = absurd (omega arith)
  Backed-apart fs t (suc n) page low i zero asc h lt b = absurd (omega arith)
  Backed-apart fs t (suc n) page low zero (suc j) asc h lt (k, frame, p, q, r, b) =
      let g = Backed-get fs t n (page + 4096) (suc k) j (omega arith) b in
      (
        frame,
        g.1,
        ap (lookup t) (omega arith) ∙ r,
        ap (lookup t) (omega arith) ∙ g.4,
        Ascending-apart fs 0 k g.0 frame g.1 asc (omega arith) q g.3,
      )
  Backed-apart fs t (suc n) page low (suc i) (suc j) asc h lt (k, frame, p, q, r, b) =
      let rest = Backed-apart fs t n (page + 4096) (suc k) i j asc (omega arith) (omega arith) b in
      (
        rest.0,
        rest.1,
        ap (lookup t) (omega arith) ∙ rest.2,
        ap (lookup t) (omega arith) ∙ rest.3,
        rest.4,
      )

-- When init_heap succeeds, over a memory map of whole pages, the allocator has its memory, and any two
-- of the 2048 pages of the heap are mapped to frames that do not overlap.
pub init_heap-backed :
    {Kind : Type 0} (usable : Kind → Bool) (containing_address : ℕ → ℕ) (mapper : Mapper Kind)
    (t : mapper.Table) (a : BootInfoFrameAllocator Kind) (i j : ℕ)
    → ((addr : ℕ) → containing_address addr ≡ addr - addr % 4096)
    → IsMap 0 a.memory_regions
    → (init_heap usable containing_address mapper t a).0 ≡ none
    → i < j
    → j < 2048
    → ((init_heap usable containing_address mapper t a).1 ≡ true)
      × ((f g : ℕ) × (mapper.lookup
              (init_heap usable containing_address mapper t a).2
              (heap_start + i * 4096)
            ≡ some f)
          × (mapper.lookup
                (init_heap usable containing_address mapper t a).2
                (heap_start + j * 4096)
              ≡ some g)
          × (f + 4096 ≤ g))
unfolding init_heap
init_heap-backed usable c mapper t a i j h m e lt below =
    let page : ℕ = c heap_start in
    let n : ℕ = (c (heap_start + heap_size - 1) - c heap_start) / 4096 + 1 in
    let start : c heap_start ≡ heap_start = h heap_start in
    let count : n ≡ 2048 = omega (arith, h heap_start, h (heap_start + heap_size - 1)) in
    let fs : List ℕ = usable_frames usable c a.memory_regions in
    let both =
      Backed-apart usable c mapper fs (map_heap usable c mapper n page t a).1 n page a.next i j
        (usable_frames-Ascending usable c a.memory_regions 0 (λ b aligned. h b ∙ omega arith) m) lt
        (omega arith) (map_heap-Backed usable c mapper n page t a fs refl e) in
    (
      ap (λ o. or_return o false true) e,
      (
        both.0,
        both.1,
        ap (λ b. mapper.lookup (map_heap usable c mapper n page t a).1 (b + i * 4096)) (sym start)
            ∙ both.2,
        ap (λ b. mapper.lookup (map_heap usable c mapper n page t a).1 (b + j * 4096)) (sym start)
            ∙ both.3,
        both.4,
      ),
    )
