-- ===== src/Vmz.antt =====
-- kernel/src/vmz.rs: memory is zeroed before it is handed on. The memory is a list of bytes, and a pointer
-- an index into it; `rep stosb` with AL = 0 writes `len` zeros from there.
pub mod Zeroed
mod Tests
use axiom_os.Base.{
  ◌==◌, if◌then◌else◌, replicate, slice, overwrite, ℕ, ◌+◌, Bool, true, false, not, List, [], ◌∷◌,
}

unfoldable pub zero_region : List ℕ → ℕ → ℕ → List ℕ
zero_region memory ptr len = overwrite memory ptr (replicate len 0)

-- The loop of `verify_zeroed` over the slice, from offset `i` on.
unfoldable pub first_nonzero : ℕ → List ℕ → Bool × ℕ × ℕ
first_nonzero i [] = (true, 0, 0)
first_nonzero i (b ∷ bytes) =
    let rest = first_nonzero (i + 1) bytes in if not (b == 0) then (false, i, b) else rest

unfoldable pub verify_zeroed : List ℕ → ℕ → ℕ → Bool × ℕ × ℕ
unfolding first_nonzero
verify_zeroed memory ptr len = first_nonzero 0 (slice memory ptr len)
