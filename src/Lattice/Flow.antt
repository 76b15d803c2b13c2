-- ===== src/Lattice/Flow.antt =====
-- What the access checks allow: no flow of information downwards.
use axiom_os.Base.{ℕ, ◌≡◌, sym, ◌∙◌, true}
use axiom_os.Lattice.{SecurityLattice, dominates, may_read, may_write, verify, accepted}
use axiom_os.Lattice.Loops.{dominates-inside, dominates-IsLabel}
use axiom_os.Lattice.Axioms.{IsSized, verify-Ordered_iff}

-- In an accepted lattice a subject that may read one object and write another moves information
-- only upwards: the second object's label dominates the first's.
pub read-write-upward :
    (l : SecurityLattice) (subject from to : ℕ)
    → IsSized l
    → verify l ≡ (true, accepted)
    → may_read l subject from ≡ true
    → may_write l subject to ≡ true
    → dominates l to from ≡ true
unfolding may_read may_write
read-write-upward l s from to w e r h =
    let o = (verify-Ordered_iff l w).0 e in
    let p = dominates-IsLabel l s from r in
    let q = dominates-IsLabel l to s h in
    dominates-inside l to from q.0 p.1
    ∙ o.transitivity to s from q.0 p.0 p.1 (sym (dominates-inside l to s q.0 p.0) ∙ h)
        (sym (dominates-inside l s from p.0 p.1) ∙ r)

-- A subject that may both read and write an object has the object's label.
pub read-write-same :
    (l : SecurityLattice) (subject obj : ℕ)
    → IsSized l
    → verify l ≡ (true, accepted)
    → may_read l subject obj ≡ true
    → may_write l subject obj ≡ true
    → subject ≡ obj
unfolding may_read may_write
read-write-same l s x w e r h =
    let o = (verify-Ordered_iff l w).0 e in
    let p = dominates-IsLabel l s x r in
    o.antisymmetry s x p.0 p.1 (sym (dominates-inside l s x p.0 p.1) ∙ r)
      (sym (dominates-inside l x s p.1 p.0) ∙ h)
