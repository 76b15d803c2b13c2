-- ===== src/LogBuffer/Fifo.antt =====
-- While at most 64 entries wait, the buffer is a first-in, first-out queue.
use native.Mathlib.Nat.{mod-eq_of_lt}
use axiom_os.Base.{
  leb, length, get_or, set, take, drop, replicate, All, length-append, length-set, take_all,
  set-middle, snoc_append, u64, rotate, length-rotate, get_or-rotate, rotate-set, rotate-set_at, ℕ,
  zero, suc, ◌+◌, ◌%◌, ◌^◌, ◌≤◌, ◌<◌, max, ◌≡◌, refl, sym, ap, ap₂, subst, ◌∙◌, true, false, List,
  [], ◌∷◌, ◌++◌, append-nil, append_assoc, arith,
}
use axiom_os.LogBuffer.{LogEntry, empty_entry, LogState, start_state, push, is_empty, drain}

abbrev pub Present : LogEntry → Type 0
Present e = is_empty e ≡ false

-- The entries `q` wait in the buffer, oldest first; behind them in the ring stand entries already read.
pub record Waiting (s : LogState) (q : List LogEntry) : Type 0 where
  pub old : List LogEntry
  pub sized : length s.entries ≡ 64
  pub counted : s.read_head + length q ≡ s.write_head
  pub contents : rotate s.entries (s.read_head % 64) ≡ q ++ old
  pub present : All Present q

pub start-Waiting : Waiting start_state []
start-Waiting = record {
  old = replicate 64 empty_entry;
  sized = refl;
  counted = refl;
  contents = refl;
  present = tt;
}

all-snoc :
    (q : List LogEntry) (e : LogEntry) → All Present q → Present e → All Present (q ++ (e ∷ []))
all-snoc [] e a p = (p, tt)
all-snoc (x ∷ q) e a p = (a.0, all-snoc q e a.1 p)

-- An entry that is pushed while fewer than 64 wait stands behind the others.
pub push-Waiting :
    (s : LogState) (q : List LogEntry) (e : LogEntry)
    → Waiting s q
    → length q < 64
    → s.write_head + 1 < 2 ^ 64
    → Present e
    → Waiting (push s e) (q ++ (e ∷ []))
unfolding push
push-Waiting s q e w room small p =
    let counted = w.counted in
    let sized = w.sized in
    let written = mod-eq_of_lt {n = s.write_head + 1} {m = 2 ^ 64} small in
    let place : s.write_head % 64 ≡ (s.read_head % 64 + length q) % 64 = omega arith in
    let whole =
      sym (length-rotate s.entries (s.read_head % 64))
      ∙ ap length w.contents
      ∙ length-append q w.old in
    record {
      old = drop 1 w.old;
      sized = length-set s.entries (s.write_head % 64) e ∙ sized;
      counted = omega (arith, length-append q (e ∷ []));
      contents =
          ap (λ i. rotate (set s.entries i e) (s.read_head % 64)) place
          ∙ rotate-set_at s.entries 64 (s.read_head % 64) (length q) e sized (omega arith) room
          ∙ ap (λ l. set l (length q) e) w.contents
          ∙ over q w.old e (omega arith);
      present = all-snoc q e w.present p;
    }
  where
    over :
        (q old : List LogEntry) (e : LogEntry)
        → 0 < length old
        → set (q ++ old) (length q) e ≡ (q ++ (e ∷ [])) ++ drop 1 old
    over q [] e h = absurd (omega arith)
    over q (x ∷ old) e h = set-middle q x e old (length q) refl ∙ sym (snoc_append q e old)

set_same : (xs : List LogEntry) (i : ℕ) (d : LogEntry) → set xs i (get_or xs i d) ≡ xs
set_same [] i d = refl
set_same (x ∷ xs) zero d = refl
set_same (x ∷ xs) (suc i) d = ap (λ l. x ∷ l) (set_same xs i d)

rotate-next :
    (xs : List LogEntry) (head : ℕ) (d : LogEntry)
    → length xs ≡ 64
    → head < 64
    → rotate xs ((head + 1) % 64) ≡ drop 1 (rotate xs head) ++ (get_or xs head d ∷ [])
rotate-next xs head d sized inside =
    ap (λ l. rotate l ((head + 1) % 64)) (sym (set_same xs head d))
    ∙ rotate-set xs 64 head (get_or xs head d) sized inside

-- `drain` hands on the entries that wait, oldest first and each once, up to `max` of them, and leaves the
-- others waiting.
pub drain-Waiting :
    (max : ℕ) (s : LogState) (q : List LogEntry)
    → Waiting s q
    → s.write_head < 2 ^ 64
    → ((drain max s).0 ≡ take max q) × Waiting (drain max s).1 (drop max q)
unfolding drain
drain-Waiting zero s q w small = (refl, w)
drain-Waiting (suc max) s [] w small =
    let counted = w.counted in
    let p : leb s.write_head s.read_head ≡ true = ground arith in rw p (refl, w)
drain-Waiting (suc max) s (e ∷ q) w small =
    let counted = w.counted in
    let sized = w.sized in
    let head = s.read_head % 64 in
    let p : leb s.write_head s.read_head ≡ false = ground arith in
    let first : get_or s.entries head empty_entry ≡ e =
      ap (λ k. get_or s.entries k empty_entry) {x = head} {y = (head + 0) % 64} (omega arith)
      ∙ sym (get_or-rotate s.entries 64 head 0 empty_entry sized (omega arith) (omega arith))
      ∙ ap (λ l. get_or l 0 empty_entry) w.contents in
    let next = u64 (s.read_head + 1) in
    let exact : next ≡ s.read_head + 1 = mod-eq_of_lt (omega arith) in
    let t : LogState = record s { read_head = next } in
    let wt : Waiting t q = record {
      old = w.old ++ (e ∷ []);
      sized = sized;
      counted = omega arith;
      contents =
          ap (rotate s.entries) {x = next % 64} {y = (head + 1) % 64} (omega arith)
          ∙ rotate-next s.entries head empty_entry sized (omega arith)
          ∙ ap₂ (λ l x. drop 1 l ++ (x ∷ [])) w.contents first
          ∙ append_assoc q w.old (e ∷ []);
      present = w.present.1;
    } in
    let rest = drain-Waiting max t q wt small in
    rw (p, first, w.present.0) (ap (λ l. e ∷ l) rest.0, rest.1)

-- Pushed one after the other.
abbrev pub push_all : LogState → List LogEntry → LogState
push_all s [] = s
push_all s (e ∷ es) = push_all (push s e) es

push_all-Waiting :
    (s : LogState) (q es : List LogEntry)
    → Waiting s q
    → length q + length es ≤ 64
    → s.write_head + length es < 2 ^ 64
    → All Present es
    → Waiting (push_all s es) (q ++ es) × ((push_all s es).write_head ≡ s.write_head + length es)
unfolding push
push_all-Waiting s q [] w room small a = (rw (append-nil q) w, omega arith)
push_all-Waiting s q (e ∷ es) w room small a =
    let one = push-Waiting s q e w (omega arith) (omega arith) a.0 in
    let written = mod-eq_of_lt {n = s.write_head + 1} {m = 2 ^ 64} (omega arith) in
    let rest =
      push_all-Waiting (push s e) (q ++ (e ∷ [])) es one (omega (arith, length-append q (e ∷ [])))
        (omega arith) a.1 in
    let sum = rest.1 in
    (subst (Waiting (push_all (push s e) es)) (snoc_append q e es) rest.0, omega arith)

-- From any state in which nothing waits, up to 64 entries that are pushed are drained in order and
-- complete: nothing is lost, repeated or overwritten.
pub drain-push_all :
    (max : ℕ) (s : LogState) (es : List LogEntry)
    → Waiting s []
    → length es ≤ 64
    → s.write_head + 64 < 2 ^ 64
    → All Present es
    → length es ≤ max
    → (drain max (push_all s es)).0 ≡ es
drain-push_all max s es w few small a enough =
    let filled = push_all-Waiting s [] es w (omega arith) (omega arith) a in
    let sum = filled.1 in
    (drain-Waiting max (push_all s es) es filled.0 (omega arith)).0 ∙ take_all max es enough
