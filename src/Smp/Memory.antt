-- ===== src/Smp/Memory.antt =====
-- Physical memory as kernel/src/smp.rs sees it: bytes at addresses, read and written through raw
-- pointers.
use axiom_os.Base.{
  ltb, leb, if◌then◌else◌, lt→ltb, le→leb, lt_or_le, length, get_or, take, drop, slice, length-take,
  length-drop, get_or_ext, get_or_past, get_or-drop, get_or-take, ℕ, zero, suc, ◌+◌, ◌-◌, ◌≤◌, ◌<◌,
  ◌≡◌, refl, sym, ap, ap₂, ◌∙◌, ◌⊎◌, inl, inr, ◌&&◌, List, [], ◌∷◌, ◌++◌, arith,
}
use axiom_os.Base.Bytes.{from_le, to_le, length-to_le}

abbrev pub Memory : Type 0
Memory = ℕ → ℕ

-- `from_raw_parts(addr, n)`
unfoldable pub read : Memory → ℕ → ℕ → List ℕ
read mem addr zero = []
read mem addr (suc n) = mem addr ∷ read mem (addr + 1) n

-- `read_unaligned` of a word of `n` bytes.
unfoldable pub read_word : Memory → ℕ → ℕ → ℕ
unfolding read
read_word mem addr n = from_le (read mem addr n)

-- `copy_nonoverlapping(bytes, addr, n)`
unfoldable pub write : Memory → ℕ → List ℕ → Memory
write mem addr bytes a =
    if leb addr a && ltb a (addr + length bytes) then get_or bytes (a - addr) 0 else mem a

-- `*(addr as *mut u64) = x`
unfoldable pub write_u64 : Memory → ℕ → ℕ → Memory
unfolding write
write_u64 mem addr x = write mem addr (to_le 8 x)

pub length-read : (mem : Memory) (addr n : ℕ) → length (read mem addr n) ≡ n
unfolding read
length-read mem addr zero = refl
length-read mem addr (suc n) = ap suc (length-read mem (addr + 1) n)

pub read-append :
    (mem : Memory) (addr m n : ℕ) → read mem addr (m + n) ≡ read mem addr m ++ read mem (addr + m) n
unfolding read
read-append mem addr zero n = ap₂ (read mem) (omega arith) (omega arith)
read-append mem addr (suc m) n =
    ap (read mem addr) {y = suc (m + n)} (omega arith)
    ∙ ap (λ l. mem addr ∷ l)
        (read-append mem (addr + 1) m n
          ∙ ap (λ a. read mem (addr + 1) m ++ read mem a n) {y = addr + suc m} (omega arith))

-- The byte at an offset of what is read.
pub get_or-read :
    (mem : Memory) (addr n i : ℕ) → i < n → get_or (read mem addr n) i 0 ≡ mem (addr + i)
unfolding read
get_or-read mem addr zero i h = absurd (omega arith)
get_or-read mem addr (suc n) zero h = ap mem (omega arith)
get_or-read mem addr (suc n) (suc i) h =
    get_or-read mem (addr + 1) n i (omega arith) ∙ ap mem (omega arith)

-- Two memories that agree on a range are read alike there.
pub read_agree :
    (m w : Memory) (addr n : ℕ)
    → ((i : ℕ) → i < n → m (addr + i) ≡ w (addr + i))
    → read m addr n ≡ read w addr n
unfolding read
read_agree m w addr zero h = refl
read_agree m w addr (suc n) h =
    ap₂ ◌∷◌ (ap m (omega arith) ∙ h 0 (omega arith) ∙ ap w {x = addr + 0} (omega arith)) (
      read_agree m w (addr + 1) n (λ i lt.
        ap m {x = addr + 1 + i} {y = addr + suc i} (omega arith)
        ∙ h (suc i) (omega arith)
        ∙ ap w {x = addr + suc i} (omega arith)))

pub write_inside :
    (mem : Memory) (addr : ℕ) (bytes : List ℕ) (i : ℕ)
    → i < length bytes
    → write mem addr bytes (addr + i) ≡ get_or bytes i 0
unfolding write
write_inside mem addr bytes i h =
    rw (le→leb addr (addr + i) (omega arith), lt→ltb (addr + i) (addr + length bytes) (omega arith))
      (ap (λ k. get_or bytes k 0) (omega arith))

pub write_outside :
    (mem : Memory) (addr : ℕ) (bytes : List ℕ) (a : ℕ)
    → (a < addr) ⊎ (addr + length bytes ≤ a)
    → write mem addr bytes a ≡ mem a
unfolding write
write_outside mem addr bytes a h = ground arith

-- What was written is read back.
pub read-write_same :
    (mem : Memory) (addr n : ℕ) (bytes : List ℕ)
    → length bytes ≡ n
    → read (write mem addr bytes) addr n ≡ bytes
read-write_same mem addr n bytes e =
    get_or_ext 0 _ _ (length-read (write mem addr bytes) addr n ∙ sym e) (λ i. elim (lt_or_le i n) [
      | inl below ↦
          get_or-read (write mem addr bytes) addr n i below
          ∙ write_inside mem addr bytes i (omega arith)
      | inr above ↦
          get_or_past (read (write mem addr bytes) addr n) i 0
            (omega (arith, length-read (write mem addr bytes) addr n))
          ∙ sym (get_or_past bytes i 0 (omega arith))
    ])

-- A part of what was written.
pub read-write_part :
    (mem : Memory) (addr at_ n : ℕ) (bytes : List ℕ) (i : ℕ)
    → at_ ≡ addr + i
    → i + n ≤ length bytes
    → read (write mem addr bytes) at_ n ≡ slice bytes i n
read-write_part mem addr at_ n bytes i e h =
    get_or_ext 0 _ _
      (length-read (write mem addr bytes) at_ n
        ∙ sym (length-take n (drop i bytes) ∙ omega (arith, length-drop i bytes)))
      (λ k. elim (lt_or_le k n) [
        | inl below ↦
            get_or-read (write mem addr bytes) at_ n k below
            ∙ ap (write mem addr bytes) {y = addr + (i + k)} (omega arith)
            ∙ write_inside mem addr bytes (i + k) (omega arith)
            ∙ sym (get_or-take n (drop i bytes) k 0 below ∙ get_or-drop i bytes k 0)
        | inr above ↦
            get_or_past (read (write mem addr bytes) at_ n) k 0
              (omega (arith, length-read (write mem addr bytes) at_ n))
            ∙ sym (
                get_or_past (take n (drop i bytes)) k 0
                  (omega (arith, length-take n (drop i bytes))))
      ])

-- A write elsewhere is not seen.
pub read-write_other :
    (mem : Memory) (addr : ℕ) (bytes : List ℕ) (at_ n : ℕ)
    → (at_ + n ≤ addr) ⊎ (addr + length bytes ≤ at_)
    → read (write mem addr bytes) at_ n ≡ read mem at_ n
read-write_other mem addr bytes at_ n h =
    read_agree (write mem addr bytes) mem at_ n
      (λ i lt. write_outside mem addr bytes (at_ + i) (grind arith))

pub read-write_u64_same :
    (mem : Memory) (addr x : ℕ) → read (write_u64 mem addr x) addr 8 ≡ to_le 8 x
unfolding write_u64
read-write_u64_same mem addr x = read-write_same mem addr 8 (to_le 8 x) (length-to_le 8 x)

pub read-write_u64_other :
    (mem : Memory) (addr x at_ n : ℕ)
    → (at_ + n ≤ addr) ⊎ (addr + 8 ≤ at_)
    → read (write_u64 mem addr x) at_ n ≡ read mem at_ n
unfolding write_u64
read-write_u64_other mem addr x at_ n h =
    read-write_other mem addr (to_le 8 x) at_ n (ground (arith, length-to_le 8 x))
