-- ===== src/Ztdf/Tests.antt =====
-- The UART and the malicious driver of `run_demo`.
use axiom_os.Base.{replicate, ◌≡◌, refl, none, some, List, [], ◌∷◌}
use axiom_os.Ztdf.{
  DriverSpec, fault_mmio, DriverOp, mmio_read, mmio_write, new, step, run, mmio_allowed,
  any_present, contains, done,
}

abbrev mal_spec : DriverSpec
mal_spec = record {
  driver_id = 2;
  name = replicate 16 0;
  mmio = some (record { start = 0x1000; len = 0x100 }) ∷ none ∷ none ∷ none ∷ [];
  allowed_irqs = some 5 ∷ none ∷ none ∷ none ∷ [];
  allowed_syscalls = some 0 ∷ replicate 7 none;
  op_budget = 0;
}

abbrev mal_ops : List DriverOp
mal_ops = mmio_read 0x1000 ∷ mmio_write 0xfee00000 ∷ []

mal_stopped :
    run (new mal_spec) mal_ops ≡ (fault_mmio 0xfee00000, record { spec = mal_spec; ops_done = 1 })
unfolding run new step mmio_allowed any_present contains done
mal_stopped = refl
