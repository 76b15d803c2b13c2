-- ===== src/LogBuffer/FirstLap.antt =====
-- While at most 64 entries have been pushed, a drain hands them on in the order of their places, whatever
-- the interleaving.
use axiom_os.Base.{
  nat-cases, length, get_or, set, take, replicate, All, length-append, length-set, get_or-set_self,
  get_or-set_ne, get_or-middle, u64, ℕ, zero, suc, ◌+◌, ◌%◌, ◌^◌, ◌≤◌, ◌≡◌, refl, sym, ap, ap₂,
  subst, ◌∙◌, ◌≢◌, inl, inr, false, List, [], ◌∷◌, ◌++◌, arith,
}
use native.Mathlib.Nat.{mod-eq_of_lt}
use axiom_os.Base.Distinct.{
  Distinct, Pairwise-remove, Distinct-snoc, All-remove, All-snoc, All-middle,
}
use axiom_os.LogBuffer.{LogEntry, empty_entry, log_capacity, is_empty}
use axiom_os.LogBuffer.Interleaved.{
  Place, Turn, idle, checked, holds, Shared, begin, entry_at, Move, reserve, write, load, stop,
  check, find_empty, fetch, hand_on, Reach, start, later,
}
use axiom_os.LogBuffer.InOrder.{
  Placed, indices, Ready, Filled, InOrder, take-next, take-more, indices-append, Placed-more,
  Placed-below, Filled-more, Ready-more,
}

Filled-write :
    (entries rs : List LogEntry) (p : Place) (i : ℕ)
    → length entries ≡ 64
    → length rs ≤ 64
    → Placed rs p
    → Filled entries rs i
    → Filled (set entries p.0 p.1) rs i
Filled-write entries rs p i sized few placed h = elim (nat-cases p.0 i) [
  | inl same ↦
      let below = placed.0 in
      inl (
        ap (λ j. get_or (set entries p.0 p.1) j empty_entry) (sym same)
        ∙ get_or-set_self entries p.0 p.1 empty_entry (omega arith)
        ∙ sym placed.1
        ∙ ap (λ j. get_or rs j empty_entry) same)
  | inr other ↦
      let kept = get_or-set_ne entries p.0 i p.1 empty_entry other in
      elim h [ inl here ↦ inl (kept ∙ here) | inr none_yet ↦ inr (kept ∙ none_yet) ]
]

reserve-InOrder :
    (s : Shared) (e : LogEntry)
    → length (s.reserved ++ (e ∷ [])) ≤ 64
    → InOrder s
    → InOrder (record s {
      ring = record (s.ring) { write_head = u64 (s.ring.write_head + 1) };
      in_flight = s.in_flight ++ ((s.ring.write_head % log_capacity, e) ∷ []);
      reserved = s.reserved ++ (e ∷ []);
    })
reserve-InOrder s e few c =
    let longer = length-append s.reserved (e ∷ []) in
    let counted = c.counted in
    let place : s.ring.write_head % log_capacity ≡ length s.reserved = omega arith in
    let here : Placed (s.reserved ++ (e ∷ [])) (s.ring.write_head % log_capacity, e) = (
      omega arith,
      ap (λ i. get_or (s.reserved ++ (e ∷ [])) i empty_entry) place
          ∙ get_or-middle s.reserved e empty_entry [] (length s.reserved) refl,
    ) in
    record {
      sized = c.sized;
      counted = mod-eq_of_lt {n = s.ring.write_head + 1} {m = 2 ^ 64} (omega arith) ∙ omega arith;
      slots = λ i. Filled-more s.ring.entries s.reserved e i (c.slots i);
      places =
          All-snoc (Placed (s.reserved ++ (e ∷ []))) s.in_flight _
            (Placed-more s.reserved e s.in_flight c.places) here;
      apart =
          subst Distinct
            (sym (indices-append s.in_flight ((s.ring.write_head % log_capacity, e) ∷ [])))
            (Distinct-snoc (indices s.in_flight) _ c.apart
              (Placed-below s.reserved _ s.in_flight place c.places));
      behind = omega (arith, c.behind);
      in_order = c.in_order ∙ take-more s.ring.read_head s.reserved e c.behind;
      ready = Ready-more s.ring.read_head s.reserved e s.turn c.ready;
    }

write-InOrder :
    (s : Shared) (before after : List Place) (p : Place)
    → length s.reserved ≤ 64
    → s.in_flight ≡ before ++ (p ∷ after)
    → InOrder s
    → InOrder (record s {
      ring = record (s.ring) { entries = set s.ring.entries p.0 p.1 };
      in_flight = before ++ after;
    })
write-InOrder s before after p few under_way c =
    let all = subst (All (Placed s.reserved)) under_way c.places in
    let placed = All-middle (Placed s.reserved) before p after all in
    record {
      sized = length-set s.ring.entries p.0 p.1 ∙ c.sized;
      counted = c.counted;
      slots = λ i. Filled-write s.ring.entries s.reserved p i c.sized few placed (c.slots i);
      places = All-remove (Placed s.reserved) before p after all;
      apart = subst Distinct (sym (indices-append before after)) (
          Pairwise-remove (λ x y. x ≢ y) (indices before) p.0 (indices after)
            (subst Distinct (ap indices under_way ∙ indices-append before (p ∷ after)) c.apart));
      behind = c.behind;
      in_order = c.in_order;
      ready = c.ready;
    }

-- A step of the drain that only changes where its turn stands.
turn-InOrder :
    (s : Shared) (t : Turn)
    → Ready s.ring.read_head s.reserved t
    → InOrder s
    → InOrder (record s { turn = t })
turn-InOrder s t r c = record {
  sized = c.sized;
  counted = c.counted;
  slots = c.slots;
  places = c.places;
  apart = c.apart;
  behind = c.behind;
  in_order = c.in_order;
  ready = r;
}

none_left : is_empty empty_entry ≢ false
unfolding is_empty
none_left e = ground arith

fetch-InOrder :
    (s : Shared) (r : ℕ)
    → length s.reserved ≤ 64
    → s.turn ≡ checked r
    → is_empty (entry_at s.ring r) ≡ false
    → InOrder s
    → InOrder (record s { turn = holds (entry_at s.ring r) })
fetch-InOrder s r few at present c =
    let known = subst (Ready s.ring.read_head s.reserved) at c.ready in
    let below = known.1 in
    let place : r % log_capacity ≡ s.ring.read_head = omega (arith, known.0) in
    elim (c.slots (r % log_capacity)) [
      | inl here ↦
          turn-InOrder s _
            (
              omega (arith, known.0),
              ap (λ i. get_or s.reserved i empty_entry) (sym place) ∙ sym here,
            )
            c
      | inr none_yet ↦ absurd (none_left (ap is_empty (sym none_yet) ∙ present))
    ]

hand_on-InOrder :
    (s : Shared) (e : LogEntry)
    → length s.reserved ≤ 64
    → s.turn ≡ holds e
    → InOrder s
    → InOrder (record s {
      ring = record (s.ring) { read_head = u64 (s.ring.read_head + 1) };
      turn = idle;
      handed = s.handed ++ (e ∷ []);
    })
hand_on-InOrder s e few at c =
    let known = subst (Ready s.ring.read_head s.reserved) at c.ready in
    let below = known.0 in
    let next : u64 (s.ring.read_head + 1) ≡ suc s.ring.read_head =
      mod-eq_of_lt {n = s.ring.read_head + 1} {m = 2 ^ 64} (omega arith) ∙ omega arith in
    record {
      sized = c.sized;
      counted = c.counted;
      slots = c.slots;
      places = c.places;
      apart = c.apart;
      behind = rw next (omega arith);
      in_order =
          ap₂ (λ l x. l ++ (x ∷ [])) c.in_order (sym known.1)
          ∙ take-next s.ring.read_head s.reserved below
          ∙ ap (λ n. take n s.reserved) (sym next);
      ready = tt;
    }

begin-InOrder : InOrder begin
begin-InOrder = record {
  sized = refl;
  counted = refl;
  slots = λ i. inr (empty_slots 64 i);
  places = tt;
  apart = tt;
  behind = omega arith;
  in_order = refl;
  ready = tt;
}
  where
    empty_slots : (n i : ℕ) → get_or (replicate n empty_entry) i empty_entry ≡ empty_entry
    empty_slots zero i = refl
    empty_slots (suc n) zero = refl
    empty_slots (suc n) (suc i) = empty_slots n i

Move-InOrder : (s t : Shared) → Move s t → length t.reserved ≤ 64 → InOrder s → InOrder t
Move-InOrder s t (reserve e) few c = reserve-InOrder s e few c
Move-InOrder s t (write before after p under_way) few c =
    write-InOrder s before after p few under_way c
Move-InOrder s t (load at) few c = turn-InOrder s _ refl c
Move-InOrder s t (stop r at past) few c = turn-InOrder s idle tt c
Move-InOrder s t (check r at more) few c =
    turn-InOrder s (checked r)
      (subst (Ready s.ring.read_head s.reserved) at c.ready, omega (arith, c.counted, more)) c
Move-InOrder s t (find_empty r at none_yet) few c = turn-InOrder s idle tt c
Move-InOrder s t (fetch r at present) few c = fetch-InOrder s r few at present c
Move-InOrder s t (hand_on e at) few c = hand_on-InOrder s e few at c

-- The entries pushed are never fewer than before.
pub Move-grows : (s t : Shared) → Move s t → length s.reserved ≤ length t.reserved
Move-grows s t (reserve e) = omega (arith, length-append s.reserved (e ∷ []))
Move-grows s t (write before after p under_way) = omega arith
Move-grows s t (load at) = omega arith
Move-grows s t (stop r at past) = omega arith
Move-grows s t (check r at more) = omega arith
Move-grows s t (find_empty r at none_yet) = omega arith
Move-grows s t (fetch r at present) = omega arith
Move-grows s t (hand_on e at) = omega arith

pub Reach-InOrder : (s : Shared) → Reach s → length s.reserved ≤ 64 → InOrder s
Reach-InOrder s start few = begin-InOrder
Reach-InOrder s (later {s = r} before move) few =
    Move-InOrder r s move few (Reach-InOrder r before (omega (arith, Move-grows r s move)))

-- In whatever order the pushes and the drain make their accesses: while at most 64 entries have been
-- pushed, what the drain has handed on is the beginning of what was pushed, in the order of the places
-- the pushes took, each entry once; and no two pushes under way write to the same place.
pub Reach-in_order :
    (s : Shared)
    → Reach s
    → length s.reserved ≤ 64
    → (s.handed ≡ take s.ring.read_head s.reserved) × Distinct (indices s.in_flight)
Reach-in_order s r few = let c = Reach-InOrder s r few in (c.in_order, c.apart)
