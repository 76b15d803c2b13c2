-- ===== src/Smp/Ipi.antt =====
-- kernel/src/smp.rs: send_sipi, as the writes it makes to the registers of the local APIC. What the
-- registers answer is arbitrary: the k-th read of all gives `answers k`.
use axiom_os.Base.{
  ◌==◌, if◌then◌else◌, u32, ◌<<<◌, ℕ, zero, suc, ◌+◌, ◌≤◌, ◌<◌, bit_and, bit_or, ◌≡◌, refl, ap, ◌∙◌,
  List, [], ◌∷◌, ◌++◌, append_assoc, arith,
}

pub record Lapic : Type 0 where
  pub writes : List (ℕ × ℕ)
  pub reads : ℕ

abbrev pub esr : ℕ
esr = 0x280

abbrev pub lapic_icr_lo : ℕ
lapic_icr_lo = 0x300

abbrev pub lapic_icr_hi : ℕ
lapic_icr_hi = 0x310

unfoldable pub lapic_write : Lapic → ℕ → ℕ → Lapic
lapic_write l reg val = record l { writes = l.writes ++ ((reg, val) ∷ []) }

unfoldable pub lapic_read : (ℕ → ℕ) → Lapic → ℕ × Lapic
lapic_read answers l = (answers l.reads, record l { reads = l.reads + 1 })

-- `while busy && timeout < 1000`, with the turns that are left; the register is read once more than
-- the body runs.
unfoldable pub wait_delivery : (ℕ → ℕ) → ℕ → Lapic → Lapic
unfolding lapic_read
wait_delivery answers zero l = (lapic_read answers l).1
wait_delivery answers (suc turns) l =
    let r = lapic_read answers l in
    let rest = wait_delivery answers turns r.1 in if bit_and r.0 (1 <<< 12) == 0 then r.1 else rest

-- The destination, the command, and the wait for its delivery.
unfoldable pub command : (ℕ → ℕ) → ℕ → ℕ → Lapic → Lapic
command answers apic_id value l =
    wait_delivery answers 1000
      (lapic_write (lapic_write l lapic_icr_hi (u32 (apic_id <<< 24))) lapic_icr_lo value)

-- The loop `for pass in 0..2`.
unfoldable pub send_passes : (ℕ → ℕ) → ℕ → ℕ → ℕ → Lapic → Lapic
send_passes answers zero apic_id sipi_vec l = l
send_passes answers (suc n) apic_id sipi_vec l =
    send_passes answers n apic_id sipi_vec
      (command answers apic_id (bit_or 0x4600 sipi_vec) (lapic_write l esr 0))

unfoldable pub send_sipi : (ℕ → ℕ) → ℕ → ℕ → Lapic → Lapic
unfolding send_passes
send_sipi answers apic_id sipi_vec l =
    let cleared = lapic_write l esr 0 in
    let asserted = command answers apic_id 0xc500 cleared in
    let deasserted = command answers apic_id 0x8500 asserted in
    send_passes answers 2 apic_id sipi_vec deasserted

-- A wait reads at least once and at most once more than it may turn, and writes nothing.
wait_delivery-bounded :
    (answers : ℕ → ℕ) (turns : ℕ) (l : Lapic)
    → ((wait_delivery answers turns l).writes ≡ l.writes)
      × (l.reads < (wait_delivery answers turns l).reads)
      × ((wait_delivery answers turns l).reads ≤ l.reads + turns + 1)
unfolding wait_delivery
wait_delivery-bounded answers zero l = (refl, omega arith, omega arith)
wait_delivery-bounded answers (suc turns) l =
    ground (arith, wait_delivery-bounded answers turns (record l { reads = l.reads + 1 }))

-- The two writes of a command to one processor.
abbrev pub sent : ℕ → ℕ → List (ℕ × ℕ)
sent apic_id value = (lapic_icr_hi, u32 (apic_id <<< 24)) ∷ (lapic_icr_lo, value) ∷ []

-- The writes `p` take the register log from `l` to `a`.
record Adds (l p a : List (ℕ × ℕ)) : Type 0 where
  added : a ≡ l ++ p

then-Adds : {l p a q b : List (ℕ × ℕ)} → Adds l p a → Adds a q b → Adds l (p ++ q) b
then-Adds {l} {p} {a} {q} e h = record {
  added = h.added ∙ ap (λ w. w ++ q) e.added ∙ append_assoc l p q;
}

write-Adds :
    (l : Lapic) (reg val : ℕ) → Adds l.writes ((reg, val) ∷ []) (lapic_write l reg val).writes
unfolding lapic_write
write-Adds l reg val = record { added = refl }

command-bounded :
    (answers : ℕ → ℕ) (apic_id value : ℕ) (l : Lapic)
    → Adds l.writes (sent apic_id value) (command answers apic_id value l).writes
      × (l.reads < (command answers apic_id value l).reads)
      × ((command answers apic_id value l).reads ≤ l.reads + 1001)
unfolding command lapic_write
command-bounded answers apic_id value l =
    let addressed = lapic_write l lapic_icr_hi (u32 (apic_id <<< 24)) in
    let both = lapic_write addressed lapic_icr_lo value in
    let w = wait_delivery-bounded answers 1000 both in
    (
      record {
        added =
            w.0
            ∙ (then-Adds (write-Adds l lapic_icr_hi (u32 (apic_id <<< 24)))
                (write-Adds addressed lapic_icr_lo value)).added;
      },
      w.1,
      omega (arith, w.2),
    )

-- INIT, its deassertion, and twice the start-up command, each behind a cleared error register where the
-- source clears it.
abbrev pub protocol : ℕ → ℕ → List (ℕ × ℕ)
protocol apic_id sipi_vec =
    (esr, 0)
    ∷ (sent apic_id 0xc500
        ++ (sent apic_id 0x8500
            ++ ((esr, 0)
                ∷ (sent apic_id (bit_or 0x4600 sipi_vec)
                    ++ ((esr, 0) ∷ sent apic_id (bit_or 0x4600 sipi_vec))))))

-- Whatever the registers answer, send_sipi makes these writes in this order, reads the status at most
-- 4004 times, and ends.
pub send_sipi-protocol :
    (answers : ℕ → ℕ) (apic_id sipi_vec : ℕ) (l : Lapic)
    → ((send_sipi answers apic_id sipi_vec l).writes ≡ l.writes ++ protocol apic_id sipi_vec)
      × (l.reads + 4 ≤ (send_sipi answers apic_id sipi_vec l).reads)
      × ((send_sipi answers apic_id sipi_vec l).reads ≤ l.reads + 4004)
unfolding send_sipi lapic_write
send_sipi-protocol answers apic_id sipi_vec l =
    let l0 = lapic_write l esr 0 in
    let c1 = command-bounded answers apic_id 0xc500 l0 in
    let l1 = command answers apic_id 0xc500 l0 in
    let c2 = command-bounded answers apic_id 0x8500 l1 in
    let l2 = command answers apic_id 0x8500 l1 in
    let l3 = lapic_write l2 esr 0 in
    let c3 = command-bounded answers apic_id (bit_or 0x4600 sipi_vec) l3 in
    let l4 = command answers apic_id (bit_or 0x4600 sipi_vec) l3 in
    let l5 = lapic_write l4 esr 0 in
    let c4 = command-bounded answers apic_id (bit_or 0x4600 sipi_vec) l5 in
    let s1 = then-Adds (write-Adds l esr 0) c1.0 in
    let s2 = then-Adds s1 c2.0 in
    let s3 = then-Adds (then-Adds s2 (write-Adds l2 esr 0)) c3.0 in
    let s4 = then-Adds (then-Adds s3 (write-Adds l4 esr 0)) c4.0 in
    (s4.added, omega (arith, c1.1, c2.1, c3.1, c4.1), omega (arith, c1.2, c2.2, c3.2, c4.2))
