-- ===== src/Smp/Acpi/Rsdp.antt =====
-- What the search for the RSDP finds.
use axiom_os.Base.{
  if◌then◌else◌, lt→ltb, Bool-cases, ◌<<<◌, ℕ, zero, suc, ◌+◌, ◌*◌, ◌≡◌, refl, sym, ap₂, ◌∙◌, inl,
  inr, Bool, Option, none, some, List, [], ◌∷◌, ◌++◌, arith,
}
use axiom_os.Smp.Memory.{Memory, read_word}
use axiom_os.Smp.Acpi.{or_else, is_rsdp, scan_region, find_rsdp}

-- `n` addresses, 16 apart.
unfoldable pub grid : ℕ → ℕ → List ℕ
grid zero addr = []
grid (suc n) addr = addr ∷ grid n (addr + 16)

-- The first element that passes a test.
unfoldable pub first : (ℕ → Bool) → List ℕ → Option ℕ
first p [] = none
first p (a ∷ rest) = if p a then some a else first p rest

first-append :
    (p : ℕ → Bool) (xs ys : List ℕ) → first p (xs ++ ys) ≡ or_else (first p xs) (first p ys)
unfolding first or_else
first-append p [] ys = refl
first-append p (x ∷ xs) ys = elim (Bool-cases (p x)) [
  | inl hit ↦ rw hit refl
  | inr miss ↦ rw miss (first-append p xs ys)
]

scan_region-first :
    (n : ℕ) (mem : Memory) (off addr end : ℕ)
    → end ≡ addr + n * 16
    → scan_region (suc n) mem off addr end ≡ first (is_rsdp mem off) (grid n addr)
unfolding scan_region grid first
scan_region-first zero mem off addr end e = ground (arith)
scan_region-first (suc n) mem off addr end e =
    rw (lt→ltb addr end (omega arith), scan_region-first n mem off (addr + 16) end (omega arith))
      refl

-- The addresses at which a root pointer may stand: on 16-byte boundaries, in the first kilobyte of the
-- extended BIOS data area, then from 0xE0000 to 0xFFFFF.
unfoldable pub candidates : Memory → ℕ → List ℕ
candidates mem off = grid 64 (read_word mem (off + 0x40e) 2 <<< 4) ++ grid 8192 0xe0000

pub find_rsdp-first :
    (mem : Memory) (off : ℕ) → find_rsdp mem off ≡ first (is_rsdp mem off) (candidates mem off)
unfolding find_rsdp candidates
find_rsdp-first mem off =
    let ebda : ℕ = read_word mem (off + 0x40e) 2 <<< 4 in
    ap₂ or_else (scan_region-first 64 mem off ebda (ebda + 0x400) (omega arith))
      (scan_region-first 8192 mem off 0xe0000 0x100000 (omega arith))
    ∙ sym (first-append (is_rsdp mem off) (grid 64 ebda) (grid 8192 0xe0000))
