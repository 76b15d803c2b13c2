-- ===== src/ElfLoader/Isolated.antt =====
-- No two pages overlap in memory, nor a page and a frame that is still free, whichever way the
-- loading ends.
use axiom_os.Base.{
  ltb, ◌==◌, Bool-cases, Option-cases, length, slice, ℕ, zero, suc, ◌+◌, ◌-◌, ◌*◌, ◌/◌, ◌≤◌, ◌≡◌,
  refl, sym, ap, subst, ◌⊎◌, inl, inr, Bool, List, [], ◌∷◌, ◌++◌, map,
}
use axiom_os.Base.Distinct.{Pairwise, Pairwise-remove}
use axiom_os.ElfLoader.{
  Mapping, Space, Segment, mapped_page, map_pages, load_segment, load_segments, load, check_header,
  read_segment, page_floor, le_at,
}

abbrev pub frames_of : List Mapping → List ℕ
frames_of = map (λ (m : Mapping). m.frame)

-- Two frames, by their addresses, have no byte in common.
abbrev pub Apart : ℕ → ℕ → Type 0
Apart f g = (f + 4096 ≤ g) ⊎ (g + 4096 ≤ f)

-- A page mapped to the next free frame moves the frame from the one list to the other.
pub moved :
    (earlier : List ℕ) (ms : List Mapping) (m : Mapping) (fs : List ℕ)
    → (earlier ++ frames_of (ms ++ (m ∷ []))) ++ fs ≡ (earlier ++ frames_of ms) ++ (m.frame ∷ fs)
moved [] [] m fs = refl
moved [] (n ∷ ms) m fs = ap (λ l. n.frame ∷ l) (moved [] ms m fs)
moved (e ∷ earlier) ms m fs = ap (λ l. e ∷ l) (moved earlier ms m fs)

-- Besides the frames of the pages there are those that were handed out earlier.
module _ (earlier : List ℕ) where
  abbrev pub taken : List Mapping → List ℕ
  taken ms = earlier ++ frames_of ms

  -- No two of the frames handed out earlier, the pages' frames and the free ones overlap.
  abbrev pub IsIsolated : Space → Type 0
  IsIsolated s = Pairwise Apart (taken s.mappings ++ s.frames)

  map_pages-IsIsolated :
      (accepts : List Mapping → ℕ → ℕ → Bool) (fuel : ℕ) (p : Segment) (seg_data : List ℕ)
      (vpage end_page : ℕ) (ms : List Mapping) (fs : List ℕ)
      → Pairwise Apart (taken ms ++ fs)
      → IsIsolated
          (map_pages accepts fuel p seg_data vpage end_page
            (record { mappings = ms; frames = fs })).1
  unfolding map_pages
  map_pages-IsIsolated accepts zero p seg_data vpage end_page ms fs h = h
  map_pages-IsIsolated accepts (suc fuel) p seg_data vpage end_page ms [] h =
      elim (Bool-cases (ltb vpage end_page)) [ inl more ↦ rw more h | inr ended ↦ rw ended h ]
  map_pages-IsIsolated accepts (suc fuel) p seg_data vpage end_page ms (f ∷ fs) h =
      let m = mapped_page p seg_data vpage f in
      let rest : IsIsolated
          (map_pages accepts fuel p seg_data (vpage + 4096) end_page
            (record { mappings = ms ++ (m ∷ []); frames = fs })).1 =
        map_pages-IsIsolated accepts fuel p seg_data (vpage + 4096) end_page (ms ++ (m ∷ [])) fs
          (subst (Pairwise Apart) (sym (moved earlier ms m fs)) h) in
      elim (Bool-cases (ltb vpage end_page)) [
        | inr ended ↦ rw ended h
        | inl more ↦ elim (Bool-cases (accepts ms vpage f)) [
          | inr refused ↦ rw (more, refused) (Pairwise-remove Apart (taken ms) f fs h)
          | inl agreed ↦ rw (more, agreed) rest
        ]
      ]

  load_segment-IsIsolated :
      (accepts : List Mapping → ℕ → ℕ → Bool) (bytes : List ℕ) (off e_phentsize : ℕ) (s : Space)
      → IsIsolated s
      → IsIsolated (load_segment accepts bytes off e_phentsize s).1
  unfolding load_segment
  load_segment-IsIsolated accepts bytes off e_phentsize s h =
      let p = read_segment bytes off in
      let start_page = page_floor p.vaddr in
      let end_page = page_floor (p.vaddr + p.memsz + 0xfff) in
      let pages = (end_page - start_page) / 4096 in
      let loaded =
        map_pages-IsIsolated accepts (pages + 1) p (slice bytes p.offset p.filesz) start_page
          end_page s.mappings s.frames h in
      elim (Bool-cases (ltb (length bytes) (off + e_phentsize))) [
        | inl past ↦ rw past h
        | inr inside ↦ elim (Bool-cases (le_at bytes off 4 == 1)) [
          | inr skipped ↦ rw (inside, skipped) h
          | inl segment ↦ elim (Bool-cases (ltb (length bytes) (p.offset + p.filesz))) [
            | inl outside ↦ rw (inside, segment, outside) h
            | inr held ↦ rw (inside, segment, held) loaded
          ]
        ]
      ]

  load_segments-IsIsolated :
      (accepts : List Mapping → ℕ → ℕ → Bool) (n i : ℕ) (bytes : List ℕ) (e_phoff e_phentsize : ℕ)
      (s : Space)
      → IsIsolated s
      → IsIsolated (load_segments accepts n i bytes e_phoff e_phentsize s).1
  unfolding load_segments
  load_segments-IsIsolated accepts zero i bytes e_phoff e_phentsize s h = h
  load_segments-IsIsolated accepts (suc n) i bytes e_phoff e_phentsize s h =
      let one = load_segment-IsIsolated accepts bytes (e_phoff + i * e_phentsize) e_phentsize s h in
      let r = load_segment accepts bytes (e_phoff + i * e_phentsize) e_phentsize s in
      elim (Option-cases r.0) [
        | inl none_left ↦
            rw (load_segments, none_left)
              (load_segments-IsIsolated accepts n (i + 1) bytes e_phoff e_phentsize r.1 one)
        | inr failed ↦ rw (load_segments, failed.1) one
      ]

  pub load-IsIsolated :
      (accepts : List Mapping → ℕ → ℕ → Bool) (bytes : List ℕ) (s : Space)
      → IsIsolated s
      → IsIsolated (load accepts bytes s).1
  unfolding load
  load-IsIsolated accepts bytes s h =
      let loaded =
        load_segments-IsIsolated accepts (le_at bytes 56 2) 0 bytes (le_at bytes 32 8)
          (le_at bytes 54 2) s h in
      let r =
        load_segments accepts (le_at bytes 56 2) 0 bytes (le_at bytes 32 8) (le_at bytes 54 2) s in
      elim (Option-cases (check_header bytes)) [
        | inr bad ↦ rw (load, bad.1) h
        | inl good ↦ elim (Option-cases r.0) [
          | inl done ↦ rw (load, good, done) loaded
          | inr failed ↦ rw (load, good, failed.1) loaded
        ]
      ]
