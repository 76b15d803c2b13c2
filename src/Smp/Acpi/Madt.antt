-- ===== src/Smp/Acpi/Madt.antt =====
-- The walk of the MADT: it ends on every memory, and on a table that is written in entries it
-- collects the processors that are enabled.
use axiom_os.Base.{
  ltb, ◌==◌, if◌then◌else◌, ltb→lt, Bool-cases, lt_or_le, length, get_or, All, length-append,
  append-injective, ℕ, zero, suc, ◌+◌, ◌-◌, ◌*◌, ◌/◌, ◌%◌, ◌^◌, ◌≤◌, ◌<◌, min, ◌≡◌, refl, sym, ap,
  ◌∙◌, ◌≢◌, inl, inr, Option, none, some, List, [], ◌∷◌, ◌++◌, append-nil, append_assoc, arith,
}
use axiom_os.Base.Bytes.{to_le, from_le, from_le-to_le}
use axiom_os.Smp.Memory.{Memory, read, read_word, length-read, read-append, get_or-read}
use axiom_os.Smp.Acpi.{
  or_else, find_madt, collect, walk_entries, walk_madt, search_tables, parse_madt,
}

-- With a turn for each byte of the table that is left, the walk ends by its own test.
walk_entries-ends :
    (fuel : ℕ) (mem : Memory) (madt_virt madt_len offset : ℕ) (ids : List ℕ)
    → 0 < fuel
    → madt_len < fuel + offset
    → (found : List ℕ) × (walk_entries fuel mem madt_virt madt_len offset ids ≡ some found)
unfolding walk_entries
walk_entries-ends zero mem madt_virt madt_len offset ids p h = absurd (omega arith)
walk_entries-ends (suc fuel) mem madt_virt madt_len offset ids p h =
    elim (Bool-cases (ltb (offset + 2) madt_len)) [
      | inr done ↦ (ids, rw done refl)
      | inl more ↦ elim (Bool-cases (mem (madt_virt + offset + 1) == 0)) [
        | inl empty ↦ (ids, rw (more, empty) refl)
        | inr some_length ↦
            rw (more, some_length)
              (walk_entries-ends fuel mem madt_virt madt_len (offset + mem (madt_virt + offset + 1))
                _ (omega (arith, ltb→lt (offset + 2) madt_len more)) (ground arith))
      ]
    ]

walk_madt-ends :
    (mem : Memory) (off : ℕ) (madt : Option ℕ)
    → (ids : List ℕ) × (walk_madt mem off madt ≡ some ids)
unfolding walk_madt
walk_madt-ends mem off none = ([], refl)
walk_madt-ends mem off (some madt) =
    let madt_len : ℕ = read_word mem (off + madt + 4) 4 in
    walk_entries-ends (madt_len + 1) mem (off + madt) madt_len 44 [] (omega arith) (omega arith)

search_tables-ends :
    (mem : Memory) (off : ℕ) (rsdp : Option ℕ)
    → (ids : List ℕ) × (search_tables mem off rsdp ≡ some ids)
unfolding search_tables
search_tables-ends mem off none = ([], refl)
search_tables-ends mem off (some rsdp) = walk_madt-ends mem off _

-- parse_madt returns on every memory, whatever the tables hold.
pub parse_madt-terminates :
    (mem : Memory) (off : ℕ) (rsdp_addr : Option ℕ)
    → (ids : List ℕ) × (parse_madt mem off rsdp_addr ≡ some ids)
unfolding parse_madt
parse_madt-terminates mem off rsdp_addr = search_tables-ends mem off _

-- An entry of the table: a local APIC, or one of another type.
pub data Entry : Type 0 where
  local_apic : ℕ → ℕ → ℕ → Entry
  other : ℕ → List ℕ → Entry

-- The bytes of an entry: its type, its length, and what follows.
abbrev pub encode : Entry → List ℕ
encode (local_apic uid id flags) = 0 ∷ 8 ∷ uid ∷ id ∷ to_le 4 flags
encode (other kind body) = kind ∷ (2 + length body) ∷ body

abbrev pub encode_all : List Entry → List ℕ
encode_all [] = []
encode_all (e ∷ es) = encode e ++ encode_all es

abbrev pub IsEntry : Entry → Type 0
IsEntry (local_apic uid id flags) = flags < 256 ^ 4
IsEntry (other kind body) = kind ≢ 0

-- The ids of the local APICs whose lowest flag is set.
abbrev pub enabled : Entry → List ℕ
enabled (local_apic uid id flags) = if flags % 2 == 1 then id ∷ [] else []
enabled (other kind body) = []

abbrev pub enabled_ids : List Entry → List ℕ
enabled_ids [] = []
enabled_ids (e ∷ es) = enabled e ++ enabled_ids es

-- What is read is cut where the first part ends.
cut_read :
    (mem : Memory) (addr : ℕ) (bytes rest : List ℕ)
    → read mem addr (length (bytes ++ rest)) ≡ bytes ++ rest
    → (read mem addr (length bytes) ≡ bytes) × (read mem (addr + length bytes) (length rest) ≡ rest)
cut_read mem addr bytes rest e =
    append-injective (read mem addr (length bytes)) bytes _ rest
      (length-read mem addr (length bytes))
      (sym (read-append mem addr (length bytes) (length rest))
        ∙ ap (read mem addr) (sym (length-append bytes rest))
        ∙ e)

walk_stop :
    (fuel : ℕ) (mem : Memory) (madt_virt madt_len offset : ℕ) (ids : List ℕ)
    → madt_len ≤ offset + 2
    → walk_entries (suc fuel) mem madt_virt madt_len offset ids ≡ some ids
unfolding walk_entries
walk_stop fuel mem madt_virt madt_len offset ids h = ground arith

walk_step :
    (fuel : ℕ) (mem : Memory) (madt_virt madt_len offset : ℕ) (ids : List ℕ) (n : ℕ)
    → offset + 2 < madt_len
    → mem (madt_virt + offset + 1) ≡ n
    → 2 ≤ n
    → walk_entries (suc fuel) mem madt_virt madt_len offset ids
      ≡ walk_entries fuel mem madt_virt madt_len (offset + n) (collect mem (madt_virt + offset) ids)
unfolding walk_entries
walk_step fuel mem madt_virt madt_len offset ids n h e p = ground arith

enabled_short : (es : List Entry) → length (encode_all es) ≤ 2 → enabled_ids es ≡ []
enabled_short [] h = refl
enabled_short (local_apic uid id flags ∷ es) h = absurd (omega arith)
enabled_short (other kind body ∷ es) h =
    enabled_short es (omega (arith, length-append body (encode_all es)))

entry_bytes :
    (x : Entry) (mem : Memory) (a i : ℕ)
    → read mem a (length (encode x)) ≡ encode x
    → i < length (encode x)
    → mem (a + i) ≡ get_or (encode x) i 0
entry_bytes x mem a i e h =
    sym (get_or-read mem a (length (encode x)) i h) ∙ ap (λ l. get_or l i 0) e

collect_apic :
    (mem : Memory) (a id flags : ℕ) (ids : List ℕ)
    → mem a ≡ 0
    → mem (a + 3) ≡ id
    → read_word mem (a + 4) 4 ≡ flags
    → collect mem a ids ≡ ids ++ (if flags % 2 == 1 then id ∷ [] else [])
unfolding collect
collect_apic mem a id flags ids kind ident word = elim (Bool-cases (flags % 2 == 1)) [
  | inl set_bit ↦ rw (kind, word, ident) (rw set_bit refl)
  | inr clear ↦ rw (kind, word) (rw clear (sym (append-nil ids)))
]

collect_other :
    (mem : Memory) (a kind : ℕ) (ids : List ℕ)
    → mem a ≡ kind
    → kind ≢ 0
    → collect mem a ids ≡ ids ++ []
unfolding collect
collect_other mem a kind ids e h = ground (arith, append-nil ids)

collect_entry :
    (x : Entry) (mem : Memory) (a : ℕ) (ids : List ℕ)
    → IsEntry x
    → read mem a (length (encode x)) ≡ encode x
    → (collect mem a ids ≡ ids ++ enabled x)
      × (mem (a + 1) ≡ length (encode x))
      × (2 ≤ length (encode x))
unfolding to_le read_word
collect_entry (local_apic uid id flags) mem a ids fits e =
    let kind : mem a ≡ 0 =
      ap mem (omega arith) ∙ entry_bytes (local_apic uid id flags) mem a 0 e (omega arith) in
    let ident : mem (a + 3) ≡ id = entry_bytes (local_apic uid id flags) mem a 3 e (omega arith) in
    let tail : read mem (a + 4) 4 ≡ to_le 4 flags =
      (cut_read mem a (0 ∷ 8 ∷ uid ∷ id ∷ []) (to_le 4 flags) e).1 in
    let word : read_word mem (a + 4) 4 ≡ flags = ap from_le tail ∙ from_le-to_le 4 flags fits in
    (
      collect_apic mem a id flags ids kind ident word,
      entry_bytes (local_apic uid id flags) mem a 1 e (omega arith),
      omega arith,
    )
collect_entry (other kind body) mem a ids nonzero e =
    let kind_read : mem a ≡ kind =
      ap mem (omega arith) ∙ entry_bytes (other kind body) mem a 0 e (omega arith) in
    (
      collect_other mem a kind ids kind_read nonzero,
      entry_bytes (other kind body) mem a 1 e (omega arith) ∙ omega arith,
      omega arith,
    )

-- The walk over memory that holds entries collects what is enabled, in their order.
walk_entries-entries :
    (es : List Entry) (fuel : ℕ) (mem : Memory) (madt_virt madt_len offset : ℕ) (ids : List ℕ)
    → All IsEntry es
    → madt_len ≡ offset + length (encode_all es)
    → length (encode_all es) < fuel
    → read mem (madt_virt + offset) (length (encode_all es)) ≡ encode_all es
    → walk_entries fuel mem madt_virt madt_len offset ids ≡ some (ids ++ enabled_ids es)
walk_entries-entries es zero mem madt_virt madt_len offset ids ok len h e = absurd (omega arith)
walk_entries-entries [] (suc fuel) mem madt_virt madt_len offset ids ok len h e =
    walk_stop fuel mem madt_virt madt_len offset ids (omega arith) ∙ ap some (sym (append-nil ids))
walk_entries-entries (x ∷ es) (suc fuel) mem madt_virt madt_len offset ids (good, ok) len h e =
    elim (lt_or_le (offset + 2) madt_len) [
      | inr short ↦
          walk_stop fuel mem madt_virt madt_len offset ids short
          ∙ ap some
              (sym (ap (λ l. ids ++ l) (enabled_short (x ∷ es) (omega arith)) ∙ append-nil ids))
      | inl more ↦
          let parts = cut_read mem (madt_virt + offset) (encode x) (encode_all es) e in
          let facts = collect_entry x mem (madt_virt + offset) ids good parts.0 in
          walk_step fuel mem madt_virt madt_len offset ids (length (encode x)) more facts.1 facts.2
          ∙ ap (walk_entries fuel mem madt_virt madt_len (offset + length (encode x))) facts.0
          ∙ walk_entries-entries es fuel mem madt_virt madt_len (offset + length (encode x))
              (ids ++ enabled x) ok (omega (arith, length-append (encode x) (encode_all es)))
              (omega (arith, length-append (encode x) (encode_all es)))
              (ap (λ a. read mem a (length (encode_all es))) (omega arith) ∙ parts.1)
          ∙ ap some (append_assoc ids (enabled x) (enabled_ids es))
    ]

-- parse_madt on a memory where the RSDT leads to a MADT of entries: the ids of the enabled local APICs,
-- in the order of the table.
pub parse_madt-entries :
    (es : List Entry) (mem : Memory) (off rsdp rsdt madt n : ℕ)
    → read_word mem (off + rsdp + 16) 4 ≡ rsdt
    → read_word mem (off + rsdt + 4) 4 ≡ 36 + n * 4
    → n ≤ 32
    → find_madt mem off (off + rsdt) n 0 ≡ some madt
    → read_word mem (off + madt + 4) 4 ≡ 44 + length (encode_all es)
    → read mem (off + madt + 44) (length (encode_all es)) ≡ encode_all es
    → All IsEntry es
    → parse_madt mem off (some rsdp) ≡ some (enabled_ids es)
unfolding parse_madt search_tables walk_madt or_else
parse_madt-entries es mem off rsdp rsdt madt n root size few found len body ok =
    ap (walk_madt mem off) table ∙ walk
  where
    table :
        find_madt mem off
          (off + read_word mem (off + rsdp + 16) 4)
          (min ((read_word mem (off + read_word mem (off + rsdp + 16) 4 + 4) 4 - 36) / 4) 32)
          0
        ≡ some madt
    table = rw (root, size) (ap (λ k. find_madt mem off (off + rsdt) k 0) (omega arith) ∙ found)

    walk : walk_madt mem off (some madt) ≡ some (enabled_ids es)
    walk = rw len (
        walk_entries-entries es (44 + length (encode_all es) + 1) mem (off + madt)
          (44 + length (encode_all es)) 44 [] ok refl (omega arith) body)
