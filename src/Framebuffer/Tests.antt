-- ===== src/Framebuffer/Tests.antt =====
-- Two pixels of four bytes and two bytes left over.
use axiom_os.Base.{get_or, replicate, ℕ, ◌+◌, ◌*◌, ◌<◌, ◌≡◌, refl, List, [], ◌∷◌, arith}
use axiom_os.Framebuffer.{bgr, fill_screen}
use axiom_os.Framebuffer.Pixels.{pixel_byte, fill_screen-bytes}

abbrev buffer : List ℕ
buffer = replicate 10 9

fill_screen-bytes_example :
    ((i k : ℕ)
      → i < 2
      → k < 4
      → get_or (fill_screen bgr 4 26 22 71 buffer) (i * 4 + k) 0
        ≡ pixel_byte bgr 26 22 71 k (get_or buffer (i * 4 + k) 0))
    × ((j : ℕ) → get_or (fill_screen bgr 4 26 22 71 buffer) (8 + j) 0 ≡ get_or buffer (8 + j) 0)
fill_screen-bytes_example = fill_screen-bytes bgr 4 26 22 71 buffer (omega arith)

filled : fill_screen bgr 4 26 22 71 buffer ≡ 71 ∷ 22 ∷ 26 ∷ 9 ∷ 71 ∷ 22 ∷ 26 ∷ 9 ∷ 9 ∷ 9 ∷ []
unfolding fill_screen
filled = refl
