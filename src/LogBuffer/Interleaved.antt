-- ===== src/LogBuffer/Interleaved.antt =====
-- kernel/src/log_buffer.rs: `push` and `drain` taken apart into their accesses to the shared state, in any
-- order. Any number of pushes is under way, and one drain at a time.
use axiom_os.Base.{get_or, set, u64, ℕ, ◌+◌, ◌%◌, ◌≤◌, ◌<◌, ◌≡◌, true, false, List, [], ◌∷◌, ◌++◌}
use axiom_os.LogBuffer.{LogEntry, empty_entry, log_capacity, LogState, start_state, is_empty}

-- A push between its `fetch_add` and its write: the index and the entry.
abbrev pub Place : Type 0
Place = ℕ × LogEntry

-- Where a turn of the loop in `drain` stands: before it, after the load of READ_HEAD, after that of
-- WRITE_HEAD and the comparison, and after the entry has been read.
pub data Turn : Type 0 where
  idle : Turn
  loaded : ℕ → Turn
  checked : ℕ → Turn
  holds : LogEntry → Turn

-- The shared state, the pushes under way, the drain, what its callback got, and the entries pushed, in the
-- order of their `fetch_add`.
pub record Shared : Type 0 where
  pub ring : LogState
  pub in_flight : List Place
  pub turn : Turn
  pub handed : List LogEntry
  pub reserved : List LogEntry

abbrev pub begin : Shared
begin = record { ring = start_state; in_flight = []; turn = idle; handed = []; reserved = [] }

abbrev pub entry_at : LogState → ℕ → LogEntry
entry_at l r = get_or l.entries (r % log_capacity) empty_entry

pub data Move (s : Shared) : Shared → Type 0 where
  reserve :
      (e : LogEntry)
      → Move s (record s {
        ring = record (s.ring) { write_head = u64 (s.ring.write_head + 1) };
        in_flight = s.in_flight ++ ((s.ring.write_head % log_capacity, e) ∷ []);
        reserved = s.reserved ++ (e ∷ []);
      })
  write :
      (before after : List Place) (p : Place)
      → s.in_flight ≡ before ++ (p ∷ after)
      → Move s (record s {
        ring = record (s.ring) { entries = set s.ring.entries p.0 p.1 };
        in_flight = before ++ after;
      })
  load : s.turn ≡ idle → Move s (record s { turn = loaded s.ring.read_head })
  stop : (r : ℕ) → s.turn ≡ loaded r → s.ring.write_head ≤ r → Move s (record s { turn = idle })
  check :
      (r : ℕ) → s.turn ≡ loaded r → r < s.ring.write_head → Move s (record s { turn = checked r })
  find_empty :
      (r : ℕ)
      → s.turn ≡ checked r
      → is_empty (entry_at s.ring r) ≡ true
      → Move s (record s { turn = idle })
  fetch :
      (r : ℕ)
      → s.turn ≡ checked r
      → is_empty (entry_at s.ring r) ≡ false
      → Move s (record s { turn = holds (entry_at s.ring r) })
  hand_on :
      (e : LogEntry)
      → s.turn ≡ holds e
      → Move s (record s {
        ring = record (s.ring) { read_head = u64 (s.ring.read_head + 1) };
        turn = idle;
        handed = s.handed ++ (e ∷ []);
      })

pub data Reach : Shared → Type 0 where
  start : Reach begin
  later : {s t : Shared} → Reach s → Move s t → Reach t
