-- ===== src/LogBuffer/Complete.antt =====
-- While at most 64 entries have been pushed, none is lost: when no push is under way, a drain hands on
-- what the earlier ones have left.
use axiom_os.Base.{
  lt_or_le, nat-cases, length, get_or, set, take, drop, all, All, length-append, length-drop,
  take-append-drop, take_all, drop_all, get_or-set_self, get_or-set_ne, rotate, get_or-append_left,
  ℕ, zero, suc, ◌%◌, ◌≤◌, ◌<◌, ◌≡◌, refl, sym, ap, ap₂, subst, ◌∙◌, ◌⊎◌, inl, inr, List, [], ◌∷◌,
  ◌++◌, append_assoc, arith,
}
use axiom_os.Base.Distinct.{All-middle}
use axiom_os.LogBuffer.{LogEntry, empty_entry, log_capacity, drain}
use axiom_os.LogBuffer.Fifo.{Present, Waiting, drain-Waiting}
use axiom_os.LogBuffer.Interleaved.{
  Place, Shared, Move, reserve, write, load, stop, check, find_empty, fetch, hand_on, Reach, start,
  later,
}
use axiom_os.LogBuffer.FirstLap.{Reach-InOrder, Move-grows}
use axiom_os.LogBuffer.InOrder.{Placed, InOrder}

-- The index is that of a push under way.
abbrev pub UnderWay : ℕ → List Place → Type 0
UnderWay i [] = ⊥
UnderWay i (p ∷ ps) = (p.0 ≡ i) ⊎ UnderWay i ps

-- Every place taken has its entry, or its push is under way.
abbrev pub Written : List LogEntry → List LogEntry → List Place → Type 0
Written entries rs ps =
    (i : ℕ)
    → i < length rs
    → (get_or entries i empty_entry ≡ get_or rs i empty_entry) ⊎ UnderWay i ps

UnderWay-before : (i : ℕ) (ps qs : List Place) → UnderWay i ps → UnderWay i (ps ++ qs)
UnderWay-before i [] qs h = elim h [ ]
UnderWay-before i (p ∷ ps) qs (inl here) = inl here
UnderWay-before i (p ∷ ps) qs (inr further) = inr (UnderWay-before i ps qs further)

UnderWay-last : (i : ℕ) (ps : List Place) (p : Place) → p.0 ≡ i → UnderWay i (ps ++ (p ∷ []))
UnderWay-last i [] p same = inl same
UnderWay-last i (q ∷ ps) p same = inr (UnderWay-last i ps p same)

UnderWay-middle :
    (i : ℕ) (ps : List Place) (p : Place) (qs : List Place)
    → UnderWay i (ps ++ (p ∷ qs))
    → (p.0 ≡ i) ⊎ UnderWay i (ps ++ qs)
UnderWay-middle i [] p qs h = h
UnderWay-middle i (q ∷ ps) p qs (inl here) = inr (inl here)
UnderWay-middle i (q ∷ ps) p qs (inr further) = elim (UnderWay-middle i ps p qs further) [
  | inl same ↦ inl same
  | inr other ↦ inr (inr other)
]

reserve-Written :
    (s : Shared) (e : LogEntry)
    → length (s.reserved ++ (e ∷ [])) ≤ 64
    → InOrder s
    → Written s.ring.entries s.reserved s.in_flight
    → Written s.ring.entries
        (s.reserved ++ (e ∷ []))
        (s.in_flight ++ ((s.ring.write_head % log_capacity, e) ∷ []))
reserve-Written s e few c w i inside =
    let longer = length-append s.reserved (e ∷ []) in
    let counted = c.counted in
    elim (lt_or_le i (length s.reserved)) [
      | inr last ↦ inr (UnderWay-last i s.in_flight _ (omega arith))
      | inl before ↦ elim (w i before) [
        | inl here ↦ inl (here ∙ sym (get_or-append_left s.reserved (e ∷ []) i empty_entry before))
        | inr flies ↦ inr (UnderWay-before i s.in_flight _ flies)
      ]
    ]

write-Written :
    (s : Shared) (before after : List Place) (p : Place)
    → length s.reserved ≤ 64
    → s.in_flight ≡ before ++ (p ∷ after)
    → InOrder s
    → Written s.ring.entries s.reserved s.in_flight
    → Written (set s.ring.entries p.0 p.1) s.reserved (before ++ after)
write-Written s before after p few under_way c w i inside =
    let placed =
      All-middle (Placed s.reserved) before p after
        (subst (All (Placed s.reserved)) under_way c.places) in
    let sized = c.sized in
    elim (nat-cases p.0 i) [
      | inl same ↦ inl (
          ap (λ j. get_or (set s.ring.entries p.0 p.1) j empty_entry) (sym same)
          ∙ get_or-set_self s.ring.entries p.0 p.1 empty_entry (omega arith)
          ∙ sym placed.1
          ∙ ap (λ j. get_or s.reserved j empty_entry) same)
      | inr other ↦ elim (w i inside) [
        | inl here ↦ inl (get_or-set_ne s.ring.entries p.0 i p.1 empty_entry other ∙ here)
        | inr flies ↦ elim (UnderWay-middle i before p after (subst (UnderWay i) under_way flies)) [
          | inl same ↦ absurd (other same)
          | inr rest ↦ inr rest
        ]
      ]
    ]

Move-Written :
    (s t : Shared)
    → Move s t
    → length t.reserved ≤ 64
    → InOrder s
    → Written s.ring.entries s.reserved s.in_flight
    → Written t.ring.entries t.reserved t.in_flight
Move-Written s t (reserve e) few c w = reserve-Written s e few c w
Move-Written s t (write before after p under_way) few c w =
    write-Written s before after p few under_way c w
Move-Written s t (load at) few c w = w
Move-Written s t (stop r at past) few c w = w
Move-Written s t (check r at more) few c w = w
Move-Written s t (find_empty r at none_yet) few c w = w
Move-Written s t (fetch r at present) few c w = w
Move-Written s t (hand_on e at) few c w = w

Reach-Written :
    (s : Shared) → Reach s → length s.reserved ≤ 64 → Written s.ring.entries s.reserved s.in_flight
Reach-Written s start few = λ i inside. absurd (omega arith)
Reach-Written s (later {s = r} before move) few =
    let fewer : length r.reserved ≤ 64 = omega (arith, Move-grows r s move) in
    Move-Written r s move few (Reach-InOrder r before fewer) (Reach-Written r before fewer)

-- A list that begins like another.
prefix-drop :
    (rs entries : List LogEntry)
    → length rs ≤ length entries
    → ((i : ℕ) → i < length rs → get_or entries i empty_entry ≡ get_or rs i empty_entry)
    → entries ≡ rs ++ drop (length rs) entries
prefix-drop [] entries h same = refl
prefix-drop (r ∷ rs) [] h same = absurd (omega arith)
prefix-drop (r ∷ rs) (e ∷ entries) h same =
    ap₂ (λ x l. x ∷ l) (same 0 (omega arith))
      (prefix-drop rs entries (omega arith) (λ i inside. same (suc i) (omega arith)))

drop-within : (n : ℕ) (xs ys : List LogEntry) → n ≤ length xs → drop n (xs ++ ys) ≡ drop n xs ++ ys
drop-within zero xs ys h = refl
drop-within (suc n) [] ys h = absurd (omega arith)
drop-within (suc n) (x ∷ xs) ys h = drop-within n xs ys (omega arith)

All-drop : (n : ℕ) (xs : List LogEntry) → All Present xs → All Present (drop n xs)
All-drop zero xs h = h
All-drop (suc n) [] h = h
All-drop (suc n) (x ∷ xs) h = All-drop n xs h.1

-- The ring from the place of the next entry on, when every entry has been written.
contents-waiting :
    (entries rs : List LogEntry) (n : ℕ)
    → length entries ≡ 64
    → length rs ≤ 64
    → n ≤ length rs
    → entries ≡ rs ++ drop (length rs) entries
    → (old : List LogEntry) × (rotate entries (n % 64) ≡ drop n rs ++ old)
contents-waiting entries rs n sized few behind begins = elim (lt_or_le n 64) [
  | inl inside ↦ (
    drop (length rs) entries ++ take n entries,
    ap (rotate entries) {x = n % 64} {y = n} (omega arith)
        ∙ ap (λ l. l ++ take n entries)
            (ap (drop n) begins ∙ drop-within n rs (drop (length rs) entries) behind)
        ∙ append_assoc (drop n rs) (drop (length rs) entries) (take n entries),
  )
  | inr all ↦ (
    rotate entries (n % 64),
    ap (λ l. l ++ rotate entries (n % 64)) (sym (drop_all n rs (omega arith))),
  )
]

-- In whatever order the pushes and the drain have made their accesses: when at most 64 entries have been
-- pushed and no push is under way, what was handed on and what a whole drain then hands on is all that
-- was pushed, in the order of the places.
pub Reach-complete :
    (s : Shared) (max : ℕ)
    → Reach s
    → length s.reserved ≤ 64
    → s.in_flight ≡ []
    → All Present s.reserved
    → length s.reserved ≤ max
    → s.handed ++ (drain max s.ring).0 ≡ s.reserved
Reach-complete s max r few quiet present enough =
    let c = Reach-InOrder s r few in
    let w = Reach-Written s r few in
    let n = s.ring.read_head in
    let q = drop n s.reserved in
    let long = length-drop n s.reserved in
    let counted = c.counted in
    let sized = c.sized in
    let behind = c.behind in
    let whole = contents-waiting s.ring.entries s.reserved n sized few behind (
      prefix-drop s.reserved s.ring.entries (omega arith)
        (λ i inside. landed i (w i inside) quiet)) in
    let waiting : Waiting s.ring q = record {
      old = whole.0;
      sized = sized;
      counted = omega arith;
      contents = whole.1;
      present = All-drop n s.reserved present;
    } in
    ap₂ (λ l m. l ++ m) c.in_order
      ((drain-Waiting max s.ring q waiting (omega arith)).0 ∙ take_all max q (omega arith))
    ∙ take-append-drop n s.reserved
  where
    landed : {A : Type 0} (i : ℕ) → A ⊎ UnderWay i s.in_flight → s.in_flight ≡ [] → A
    landed i (inl a) none_flies = a
    landed i (inr flies) none_flies = elim (subst (UnderWay i) none_flies flies) [ ]
