-- ===== src/Meal/Tests.antt =====
-- The audit log run on a few events, and the theorems applied to them.
use axiom_os.Base.{replicate, ◌≡◌, refl, ◌↔◌, true, none, some, List, [], ◌∷◌, arith}
use axiom_os.Crypto.Sha256.{sha256}
use axiom_os.Meal.{
  AuditEntry, MealLog, new, verify_chain, genesis_label, boot_complete, eipc_send, log_initialised,
}
use axiom_os.Meal.Encoding.{IsTyped}
use axiom_os.Meal.Verify.{slots, Chained, present, verify_chain_iff}
use axiom_os.Meal.History.{
  Input, append_all, history, last_entries, macs-empty, append-contents, append-verifies,
}

abbrev boot : List Input
boot =
    record { ticks = 0; event = log_initialised; actor = 0; value_a = 0; value_b = 0 }
    ∷ record { ticks = 7; event = boot_complete; actor = 0; value_a = 1; value_b = 2 }
    ∷ []

append-contents_example :
    slots (append_all (new (replicate 32 1)) boot)
    ≡ last_entries (history (replicate 32 1) 0 (sha256 genesis_label) boot)
append-contents_example = append-contents (replicate 32 1) boot

append-verifies_example : verify_chain (append_all (new (replicate 32 1)) boot) ≡ (2, true)
append-verifies_example = append-verifies (replicate 32 1) boot

abbrev first : AuditEntry
first = record {
  sequence = 0;
  timestamp = 3;
  event_type = eipc_send;
  actor = 5;
  value_a = 6;
  value_b = 7;
  prev_hash = replicate 32 9;
  mac = replicate 32 0;
}

first-IsTyped : IsTyped first
first-IsTyped = record {
  sequence_range = omega arith;
  timestamp_range = omega arith;
  actor_range = omega arith;
  a_range = omega arith;
  b_range = omega arith;
  hash_length = refl;
  mac_length = refl;
}

abbrev one_entry : MealLog
one_entry = record {
  entries = some first ∷ replicate 63 none;
  write_head = 1;
  total = 1;
  chain_tip = replicate 32 2;
  audit_key = replicate 32 1;
}

verify_chain_iff_example :
    (verify_chain one_entry ≡ (1, true))
    ↔ (Chained (replicate 32 1) (slots one_entry) none × (1 ≡ present (slots one_entry)))
verify_chain_iff_example =
    verify_chain_iff one_entry 1 refl (omega arith) (macs-empty 63 (some first ∷ []) (refl, tt))
