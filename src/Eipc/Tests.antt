-- ===== src/Eipc/Tests.antt =====
-- The channel's theorems applied to small inputs.
use axiom_os.Base.{replicate, ℕ, ◌≡◌, true, List, [], ◌∷◌, arith}
use axiom_os.Eipc.{EipcMessage, new}
use axiom_os.Eipc.Queue.{Use, send, receive, run, run_queue, run-refines}
use axiom_os.Eipc.Exchange.{deliver, drain, drain-deliver}

abbrev note : ℕ → EipcMessage
note n = record {
  sender_id = 1;
  seq = n;
  nonce = replicate 12 0;
  ct = replicate 64 0;
  ct_len = 3;
  tag = replicate 16 0;
}

abbrev uses : List Use
uses =
    send (note 1)
    ∷ send (note 2)
    ∷ receive
    ∷ send (note 3)
    ∷ send (note 4)
    ∷ send (note 5)
    ∷ send (note 6)
    ∷ receive
    ∷ receive
    ∷ []

run-refines_example : run new uses ≡ run_queue [] uses
run-refines_example = run-refines uses

drain-deliver_example :
    drain 3 (replicate 32 5) (deliver (replicate 32 5) 1 new ((0x48 ∷ []) ∷ (0x69 ∷ []) ∷ []))
    ≡ (true, 0x48 ∷ []) ∷ (true, 0x69 ∷ []) ∷ []
drain-deliver_example =
    drain-deliver 3 (replicate 32 5) ((0x48 ∷ []) ∷ (0x69 ∷ []) ∷ []) (omega arith)
      (omega arith, (omega arith, tt)) (omega arith)
