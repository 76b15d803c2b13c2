-- ===== src/Smp/Paging/Identity.antt =====
-- The page at 0x50000 is mapped to itself when the walk gets to its entry.
use axiom_os.Base.{
  lt_or_le, ◌>>>◌, ℕ, ◌+◌, ◌*◌, ◌/◌, ◌%◌, ◌^◌, ◌≤◌, ◌<◌, ◌≡◌, refl, sym, ap, ◌∙◌, ◌⊎◌, inl, inr,
  true, false, some, arith,
}
use axiom_os.Base.Bytes.{from_le, from_le-to_le}
use axiom_os.Smp.Memory.{Memory, read_word, write_u64, read-write_u64_same, read-write_u64_other}
use axiom_os.Smp.Paging.{
  mapped, frame_of, is_huge, is_present, walk_tables, add_trampoline_identity_map, hardware_frame,
  entry_at, translate_entries, translate,
}

read_word-write_u64_same :
    (mem : Memory) (addr x : ℕ) → x < 2 ^ 64 → read_word (write_u64 mem addr x) addr 8 ≡ x
unfolding read_word
read_word-write_u64_same mem addr x h =
    ap from_le (read-write_u64_same mem addr x) ∙ from_le-to_le 8 x h

read_word-write_u64_other :
    (mem : Memory) (addr x at_ n : ℕ)
    → (at_ + n ≤ addr) ⊎ (addr + 8 ≤ at_)
    → read_word (write_u64 mem addr x) at_ n ≡ read_word mem at_ n
unfolding read_word
read_word-write_u64_other mem addr x at_ n h = ap from_le (read-write_u64_other mem addr x at_ n h)

-- An entry at the start of one frame and one further on in another never overlap.
apart :
    (off a b : ℕ)
    → (off + frame_of a + 8 ≤ off + frame_of b + 0x50 * 8)
      ⊎ (off + frame_of b + 0x50 * 8 + 8 ≤ off + frame_of a)
unfolding frame_of
apart off a b = elim (lt_or_le (a / 4096) (b / 4096 + 1)) [
  | inl below ↦ inl (omega arith)
  | inr above ↦ inr (omega arith)
]

hardware_frame_lem : (e : ℕ) → e < 2 ^ 52 → hardware_frame e ≡ frame_of e
unfolding hardware_frame frame_of
hardware_frame_lem e h = omega arith

-- The walk got to the last table.
record Walked (pml4e pdpte pde : ℕ) : Type 0 where
  top : is_present pml4e ≡ true
  second : is_present pdpte ≡ true
  second_small : is_huge pdpte ≡ false
  third : is_present pde ≡ true
  third_small : is_huge pde ≡ false

walk_tables-mapped :
    (mem : Memory) (off pml4e pdpte pde old : ℕ)
    → (walk_tables mem off pml4e pdpte pde).0 ≡ mapped old
    → Walked pml4e pdpte pde
      × ((walk_tables mem off pml4e pdpte pde).1
          ≡ write_u64 mem (off + frame_of pde + 0x50 * 8) 0x50003)
unfolding walk_tables
walk_tables-mapped mem off pml4e pdpte pde old done = (ground arith, ground arith)

translate_entries-new :
    (pml4e pdpte pde k : ℕ)
    → k < 4096
    → Walked pml4e pdpte pde
    → translate_entries (0x50000 + k) pml4e pdpte pde 0x50003 ≡ some (0x50000 + k)
unfolding translate_entries
translate_entries-new pml4e pdpte pde k h w =
    rw (w.top, w.second, w.second_small, w.third, w.third_small) (ap some (omega arith))

-- Entries of the first three levels that use no bit above 51.
module _ (mem : Memory) (off cr3 pml4e pdpte pde : ℕ) where
  abbrev patched : Memory
  patched = write_u64 mem (off + frame_of pde + 0x50 * 8) 0x50003

  -- The new entry is none of those that the walk reads before it.
  entry_at-patched :
      (parent i : ℕ)
      → parent < 2 ^ 52
      → i ≡ 0
      → entry_at patched off parent i ≡ read_word mem (off + frame_of parent) 8
  unfolding entry_at
  entry_at-patched parent i small first =
      ap (λ a. read_word patched a 8) (omega (arith, hardware_frame_lem parent small))
      ∙ read_word-write_u64_other mem (off + frame_of pde + 0x50 * 8) 0x50003
          (off + frame_of parent) 8 (apart off parent pde)

  entry_at-new : (i : ℕ) → pde < 2 ^ 52 → i ≡ 0x50 → entry_at patched off pde i ≡ 0x50003
  unfolding entry_at
  entry_at-new i small last =
      ap (λ a. read_word patched a 8) (omega (arith, hardware_frame_lem pde small))
      ∙ read_word-write_u64_same mem (off + frame_of pde + 0x50 * 8) 0x50003 (omega arith)

  translate-patched :
      (k : ℕ)
      → k < 4096
      → cr3 < 2 ^ 52
      → pml4e < 2 ^ 52
      → pdpte < 2 ^ 52
      → pde < 2 ^ 52
      → read_word mem (off + frame_of cr3) 8 ≡ pml4e
      → read_word mem (off + frame_of pml4e) 8 ≡ pdpte
      → read_word mem (off + frame_of pdpte) 8 ≡ pde
      → Walked pml4e pdpte pde
      → translate patched off cr3 (0x50000 + k) ≡ some (0x50000 + k)
  unfolding translate
  translate-patched k small p4 q4 q3 q2 e4 e3 e2 w =
      rw
        (
          entry_at-patched cr3 (((0x50000 + k) >>> 39) % 512) p4 (omega arith) ∙ e4,
          entry_at-patched pml4e (((0x50000 + k) >>> 30) % 512) q4 (omega arith) ∙ e3,
          entry_at-patched pdpte (((0x50000 + k) >>> 21) % 512) q3 (omega arith) ∙ e2,
          entry_at-new (((0x50000 + k) >>> 12) % 512) q2 (omega arith),
        )
        (translate_entries-new pml4e pdpte pde k small w)

frame_of_lem : (e : ℕ) → e % 4096 ≡ 0 → frame_of e ≡ e
unfolding frame_of
frame_of_lem e h = omega arith

identity_map-walk :
    (mem : Memory) (off cr3 pml4e pdpte pde : ℕ)
    → read_word mem (off + cr3) 8 ≡ pml4e
    → read_word mem (off + frame_of pml4e) 8 ≡ pdpte
    → read_word mem (off + frame_of pdpte) 8 ≡ pde
    → add_trampoline_identity_map mem off cr3 ≡ walk_tables mem off pml4e pdpte pde
unfolding add_trampoline_identity_map
identity_map-walk mem off cr3 pml4e pdpte pde e4 e3 e2 = rw (e4, e3, e2) refl

-- Where the walk reaches the last table and the entries on the way use no bit above
-- 51, every address of the page at 0x50000 is translated to itself afterwards.
pub identity_map-translate :
    (mem : Memory) (off cr3 pml4e pdpte pde old : ℕ)
    → cr3 % 4096 ≡ 0
    → cr3 < 2 ^ 52
    → read_word mem (off + cr3) 8 ≡ pml4e
    → read_word mem (off + frame_of pml4e) 8 ≡ pdpte
    → read_word mem (off + frame_of pdpte) 8 ≡ pde
    → pml4e < 2 ^ 52
    → pdpte < 2 ^ 52
    → pde < 2 ^ 52
    → (add_trampoline_identity_map mem off cr3).0 ≡ mapped old
    → (k : ℕ) → k < 4096
    → translate (add_trampoline_identity_map mem off cr3).1 off cr3 (0x50000 + k)
      ≡ some (0x50000 + k)
identity_map-translate mem off cr3 pml4e pdpte pde old aligned p4 e4 e3 e2 q4 q3 q2 done k small =
    let walk = identity_map-walk mem off cr3 pml4e pdpte pde e4 e3 e2 in
    let w = walk_tables-mapped mem off pml4e pdpte pde old (sym (ap (λ r. r.0) walk) ∙ done) in
    ap (λ m. translate m off cr3 (0x50000 + k)) (ap (λ r. r.1) walk ∙ w.1)
    ∙ translate-patched mem off cr3 pml4e pdpte pde k small p4 q4 q3 q2
        (ap (λ a. read_word mem a 8) (omega (arith, frame_of_lem cr3 aligned)) ∙ e4) e3 e2 w.0
