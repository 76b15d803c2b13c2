-- ===== src/DemoHash/Tests.antt =====
-- Two short inputs.
use axiom_os.Base.{◌≡◌, false, [], ◌∷◌, ◌++◌, arith}
use axiom_os.DemoHash.{keyed_hash, tags_equal}
use axiom_os.DemoHash.Sensitive.{keyed_hash-sensitive}

keyed_hash-sensitive_example :
    tags_equal (keyed_hash 7 ((1 ∷ []) ++ (2 ∷ 3 ∷ []))) (keyed_hash 7 ((1 ∷ []) ++ (9 ∷ 3 ∷ [])))
    ≡ false
keyed_hash-sensitive_example =
    keyed_hash-sensitive 7 (1 ∷ []) (3 ∷ []) 2 9 (omega arith) (omega arith) (omega arith)
      (omega arith) (cc)
