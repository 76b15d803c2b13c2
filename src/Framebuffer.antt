-- ===== src/Framebuffer.antt =====
-- kernel/src/framebuffer.rs: fill_screen on the bytes of the frame buffer. `other` stands for every format
-- of the boot loader's library that is neither RGB nor BGR.
pub mod Pixels
mod Tests
use axiom_os.Base.{length, set, take, drop, u8, u16, ℕ, zero, suc, ◌+◌, ◌/◌, List, ◌++◌, map}

pub data PixelFormat : Type 0 where
  rgb : PixelFormat
  bgr : PixelFormat
  other : PixelFormat

-- `((r as u16 + g as u16 + b as u16) / 3) as u8`
unfoldable pub intensity : ℕ → ℕ → ℕ → ℕ
intensity r g b = u8 (u16 (u16 (r + g) + b) / 3)

-- The body of the loop; the source panics where a pixel has fewer than three bytes to write.
unfoldable pub fill_chunk : PixelFormat → ℕ → ℕ → ℕ → List ℕ → List ℕ
unfolding intensity
fill_chunk rgb r g b chunk = set (set (set chunk 0 r) 1 g) 2 b
fill_chunk bgr r g b chunk = set (set (set chunk 0 b) 1 g) 2 r
fill_chunk other r g b chunk = map (λ byte. intensity r g b) chunk

-- `chunks_exact_mut`: `n` whole pixels, and what is left over.
unfoldable pub fill_chunks : ℕ → PixelFormat → ℕ → ℕ → ℕ → ℕ → List ℕ → List ℕ
unfolding fill_chunk
fill_chunks zero format bytes_per_pixel r g b buffer = buffer
fill_chunks (suc n) format bytes_per_pixel r g b buffer =
    fill_chunk format r g b (take bytes_per_pixel buffer)
    ++ fill_chunks n format bytes_per_pixel r g b (drop bytes_per_pixel buffer)

unfoldable pub fill_screen : PixelFormat → ℕ → ℕ → ℕ → ℕ → List ℕ → List ℕ
unfolding fill_chunks
fill_screen format bytes_per_pixel r g b buffer =
    fill_chunks (length buffer / bytes_per_pixel) format bytes_per_pixel r g b buffer
