-- ===== src/LogBuffer/Tests.antt =====
-- The log buffer filled and drained, in whole steps and with two pushes and a drain in between each other.
use axiom_os.Base.{take, replicate, ℕ, ◌≡◌, refl, List, [], ◌∷◌, ◌++◌, arith}
use axiom_os.Base.Distinct.{Distinct}
use axiom_os.LogBuffer.{scba_status, LogEntry, empty_entry, is_empty, drain}
use axiom_os.LogBuffer.Interleaved.{
  idle, Shared, reserve, write, load, check, find_empty, fetch, hand_on, Reach, start, later,
}
use axiom_os.LogBuffer.FirstLap.{Reach-in_order}
use axiom_os.LogBuffer.InOrder.{indices}
use axiom_os.LogBuffer.Complete.{Reach-complete}

abbrev status : ℕ → LogEntry
status n = record { kind = scba_status; a = n; b = 0 }

abbrev two : List LogEntry
two = status 1 ∷ status 2 ∷ []

-- Two pushes take their places, the later one writes first, and the drain finds the first place empty
-- before it is written, and takes its entry after.
abbrev interleaved : Shared
interleaved = record {
  ring = record { entries = two ++ replicate 62 empty_entry; write_head = 2; read_head = 1 };
  in_flight = [];
  turn = idle;
  handed = status 1 ∷ [];
  reserved = two;
}

interleaved-Reach : Reach interleaved
unfolding is_empty
interleaved-Reach =
    later
      (later
        (later
          (later
            (later
              (later
                (later
                  (later
                    (later (later (later start (reserve (status 1))) (reserve (status 2)))
                      (write ((0, status 1) ∷ []) [] (1, status 2) refl))
                    (load refl))
                  (check 0 refl (omega arith)))
                (find_empty 0 refl refl))
              (write [] [] (0, status 1) refl))
            (load refl))
          (check 0 refl (omega arith)))
        (fetch 0 refl refl))
      (hand_on (status 1) refl)

Reach-in_order_example : (status 1 ∷ [] ≡ take 1 two) × Distinct (indices [])
Reach-in_order_example = Reach-in_order interleaved interleaved-Reach (omega arith)

Reach-complete_example : (status 1 ∷ []) ++ (drain 64 interleaved.ring).0 ≡ two
unfolding is_empty
Reach-complete_example =
    Reach-complete interleaved 64 interleaved-Reach (omega arith) refl (refl, (refl, tt))
      (omega arith)
