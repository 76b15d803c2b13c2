-- ===== src/LogBuffer.antt =====
-- kernel/src/log_buffer.rs: the ring of 64 entries between the interrupt handlers and the task that prints.
-- `push` and `drain` are whole steps here; Interleaved takes them apart into their accesses.
pub mod Fifo
pub mod Interleaved
pub mod InOrder
pub mod FirstLap
pub mod Complete
mod Tests
use axiom_os.Base.{
  leb, if◌then◌else◌, get_or, set, replicate, u64, ℕ, zero, suc, ◌+◌, ◌%◌, max, Bool, true, false,
  List, [], ◌∷◌,
}

pub data LogKind : Type 0 where
  empty : LogKind
  scba_status : LogKind

pub record LogEntry : Type 0 where
  pub kind : LogKind
  pub a : ℕ
  pub b : ℕ

abbrev pub log_capacity : ℕ
log_capacity = 64

abbrev pub empty_entry : LogEntry
empty_entry = record { kind = empty; a = 0; b = 0 }

-- `ENTRIES`, `WRITE_HEAD` and `READ_HEAD`
pub record LogState : Type 0 where
  pub entries : List LogEntry
  pub write_head : ℕ
  pub read_head : ℕ

abbrev pub start_state : LogState
start_state = record { entries = replicate log_capacity empty_entry; write_head = 0; read_head = 0 }

unfoldable pub push : LogState → LogEntry → LogState
push s entry =
    let idx = s.write_head % log_capacity in
    record s { write_head = u64 (s.write_head + 1); entries = set s.entries idx entry }

unfoldable pub is_empty : LogEntry → Bool
is_empty e = elim (e.kind) [ empty ↦ true | scba_status ↦ false ]

-- `drain`, with the entries that the callback gets, in order; the count is their number.
unfoldable pub drain : ℕ → LogState → List LogEntry × LogState
unfolding is_empty
drain zero s = ([], s)
drain (suc max) s =
    let entry = get_or s.entries (s.read_head % log_capacity) empty_entry in
    let rest = drain max (record s { read_head = u64 (s.read_head + 1) }) in
    if leb s.write_head s.read_head
    then ([], s)
    else if is_empty entry
    then ([], s)
    else (entry ∷ rest.0, rest.1)
