-- ===== src/ElfLoader.antt =====
-- kernel/src/elf_loader.rs: the checks on a program image and the pages it is loaded into. The page tables
-- and the frame allocator are not part of the repository: `accepts` says whether the mapper takes a
-- page and a frame, and the frames to come are a list. The frames that the mapper itself takes for
-- its tables are not counted.
pub mod Pages
pub mod Mapped
pub mod Isolated
mod Tests
use axiom_os.Base.{
  ltb, ◌==◌, if◌then◌else◌, length, get_or, replicate, slice, overwrite, ℕ, zero, suc, ◌+◌, ◌-◌,
  ◌*◌, ◌/◌, ◌%◌, min, max, bit_and, ◌⊎◌, inl, inr, Bool, not, ◌&&◌, Option, none, some, List, [],
  ◌∷◌, ◌++◌,
}
use axiom_os.Base.Bytes.{from_le}

pub data ElfError : Type 0 where
  too_short : ElfError
  bad_magic : ElfError
  not_elf64 : ElfError
  not_little_endian : ElfError
  not_x86_64 : ElfError
  not_executable : ElfError
  bad_ph_offset : ElfError
  segment_out_of_bounds : ElfError
  page_map_failed : ElfError
  frame_alloc_failed : ElfError

-- `from_le_bytes(bytes[i..i + n])`
unfoldable pub le_at : List ℕ → ℕ → ℕ → ℕ
le_at bytes i n = from_le (slice bytes i n)

-- `&bytes[0..4] != ELFMAG`
unfoldable pub magic_matches : List ℕ → Bool
magic_matches bytes =
    (get_or bytes 0 0 == 0x7f)
    && ((get_or bytes 1 0 == 0x45) && ((get_or bytes 2 0 == 0x4c) && (get_or bytes 3 0 == 0x46)))

unfoldable pub check_header : List ℕ → Option ElfError
unfolding le_at magic_matches
check_header bytes =
    if ltb (length bytes) 64
    then some too_short
    else if not (magic_matches bytes)
    then some bad_magic
    else if not (get_or bytes 4 0 == 2)
    then some not_elf64
    else if not (get_or bytes 5 0 == 1)
    then some not_little_endian
    else if not (le_at bytes 18 2 == 62)
    then some not_x86_64
    else if not (le_at bytes 16 2 == 2)
    then some not_executable
    else none

-- A page as it is mapped, with the bytes of its frame; every page is present and accessible to the user.
pub record Mapping : Type 0 where
  pub page : ℕ
  pub frame : ℕ
  pub writable : Bool
  pub no_execute : Bool
  pub bytes : List ℕ

pub record Space : Type 0 where
  pub mappings : List Mapping
  pub frames : List ℕ

-- A program header of the type PT_LOAD.
pub record Segment : Type 0 where
  pub flags : ℕ
  pub offset : ℕ
  pub vaddr : ℕ
  pub filesz : ℕ
  pub memsz : ℕ

unfoldable pub read_segment : List ℕ → ℕ → Segment
unfolding le_at
read_segment bytes off = record {
  flags = le_at bytes (off + 4) 4;
  offset = le_at bytes (off + 8) 8;
  vaddr = le_at bytes (off + 16) 8;
  filesz = le_at bytes (off + 32) 8;
  memsz = le_at bytes (off + 40) 8;
}

-- The frame's bytes: zeroed, then the part of the segment's data that falls within the page.
unfoldable pub page_bytes : List ℕ → ℕ → ℕ → ℕ → List ℕ
page_bytes seg_data p_vaddr p_filesz vpage =
    let page_end = vpage + 4096 in
    let copy_start = max p_vaddr vpage in
    let copy_end = min (p_vaddr + p_filesz) page_end in
    let zeroed = replicate 4096 0 in
    if ltb copy_start copy_end
    then (let src_off = copy_start - p_vaddr in
        let dst_off = copy_start - vpage in
        let len = copy_end - copy_start in overwrite zeroed dst_off (slice seg_data src_off len))
    else zeroed

unfoldable pub mapped_page : Segment → List ℕ → ℕ → ℕ → Mapping
unfolding page_bytes
mapped_page p seg_data vpage frame = record {
  page = vpage;
  frame = frame;
  writable = not (bit_and p.flags 2 == 0);
  no_execute = bit_and p.flags 1 == 0;
  bytes = page_bytes seg_data p.vaddr p.filesz vpage;
}

-- `while vpage < end_page`, on fuel.
unfoldable pub map_pages :
    (List Mapping → ℕ → ℕ → Bool) → ℕ → Segment → List ℕ → ℕ → ℕ → Space → Option ElfError × Space
unfolding mapped_page
map_pages accepts zero p seg_data vpage end_page s = (none, s)
map_pages accepts (suc fuel) p seg_data vpage end_page s = elim (s.frames) [
  | [] ↦ if ltb vpage end_page then (some frame_alloc_failed, s) else (none, s)
  | frame ∷ frames ↦
      let t : Space = record {
        mappings = s.mappings ++ (mapped_page p seg_data vpage frame ∷ []);
        frames = frames;
      } in
      let rest = map_pages accepts fuel p seg_data (vpage + 4096) end_page t in
      if not (ltb vpage end_page)
      then (none, s)
      else if not (accepts s.mappings vpage frame)
      then (some page_map_failed, record s { frames = frames })
      else rest
]

-- `& !0xFFF`
unfoldable pub page_floor : ℕ → ℕ
page_floor a = a - a % 4096

-- One turn of the loop over the program headers.
unfoldable pub load_segment :
    (List Mapping → ℕ → ℕ → Bool) → List ℕ → ℕ → ℕ → Space → Option ElfError × Space
unfolding le_at read_segment page_floor map_pages
load_segment accepts bytes off e_phentsize s =
    let p = read_segment bytes off in
    let start_page = page_floor p.vaddr in
    let end_page = page_floor (p.vaddr + p.memsz + 0xfff) in
    let pages = (end_page - start_page) / 4096 in
    if ltb (length bytes) (off + e_phentsize)
    then (some bad_ph_offset, s)
    else if not (le_at bytes off 4 == 1)
    then (none, s)
    else if ltb (length bytes) (p.offset + p.filesz)
    then (some segment_out_of_bounds, s)
    else map_pages accepts (pages + 1) p (slice bytes p.offset p.filesz) start_page end_page s

unfoldable pub load_segments :
    (List Mapping → ℕ → ℕ → Bool) → ℕ → ℕ → List ℕ → ℕ → ℕ → Space → Option ElfError × Space
unfolding load_segment
load_segments accepts zero i bytes e_phoff e_phentsize s = (none, s)
load_segments accepts (suc n) i bytes e_phoff e_phentsize s =
    let r = load_segment accepts bytes (e_phoff + i * e_phentsize) e_phentsize s in
    let rest = load_segments accepts n (i + 1) bytes e_phoff e_phentsize r.1 in
    elim (r.0) [ none ↦ rest | some e ↦ r ]

-- `load`: an error or the entry point, and the address space it leaves.
unfoldable pub load : (List Mapping → ℕ → ℕ → Bool) → List ℕ → Space → (ElfError ⊎ ℕ) × Space
unfolding check_header load_segments le_at
load accepts bytes s =
    let r =
      load_segments accepts (le_at bytes 56 2) 0 bytes (le_at bytes 32 8) (le_at bytes 54 2) s in
    elim (check_header bytes) [
      | some e ↦ (inl e, s)
      | none ↦ elim (r.0) [ some e ↦ (inl e, r.1) | none ↦ (inr (le_at bytes 24 8), r.1) ]
    ]
