-- ===== src/Framebuffer/Pixels.antt =====
-- Every byte of the buffer after fill_screen.
use axiom_os.Base.{
  ◌==◌, if◌then◌else◌, length, get_or, set, take, drop, length-set, length-take, length-drop,
  get_or-append_left, get_or-append_right, get_or-drop, get_or-take, ℕ, zero, suc, ◌+◌, ◌*◌, ◌/◌,
  ◌≤◌, ◌<◌, ◌≡◌, refl, sym, ap, ◌∙◌, List, [], ◌∷◌, ◌++◌, map, arith,
}
use native.Mathlib.Nat.{suc-mul}
use axiom_os.Framebuffer.{
  PixelFormat, rgb, bgr, other, intensity, fill_chunk, fill_chunks, fill_screen,
}

-- The byte `k` of a pixel of this colour, over what was there.
abbrev pub pixel_byte : PixelFormat → ℕ → ℕ → ℕ → ℕ → ℕ → ℕ
pixel_byte rgb r g b k old = if k == 0 then r else if k == 1 then g else if k == 2 then b else old
pixel_byte bgr r g b k old = if k == 0 then b else if k == 1 then g else if k == 2 then r else old
pixel_byte other r g b k old = intensity r g b

length-map {ℓ κ} :
    {A : Type ℓ} {B : Type κ} (f : A → B) (xs : List A) → length (map f xs) ≡ length xs
length-map f [] = refl
length-map f (x ∷ xs) = ap suc (length-map f xs)

length-fill_chunk :
    (f : PixelFormat) (r g b : ℕ) (chunk : List ℕ)
    → length (fill_chunk f r g b chunk) ≡ length chunk
unfolding fill_chunk
length-fill_chunk rgb r g b chunk = omega (
  arith,
  length-set chunk 0 r,
  length-set (set chunk 0 r) 1 g,
  length-set (set (set chunk 0 r) 1 g) 2 b,
)
length-fill_chunk bgr r g b chunk = omega (
  arith,
  length-set chunk 0 b,
  length-set (set chunk 0 b) 1 g,
  length-set (set (set chunk 0 b) 1 g) 2 r,
)
length-fill_chunk other r g b chunk = length-map (λ byte. intensity r g b) chunk

get_or-map : (c : ℕ) (xs : List ℕ) (k : ℕ) → k < length xs → get_or (map (λ x. c) xs) k 0 ≡ c
get_or-map c [] k h = absurd (omega arith)
get_or-map c (x ∷ xs) zero h = refl
get_or-map c (x ∷ xs) (suc k) h = get_or-map c xs k (omega arith)

-- Three bytes written over the start.
get_or-three :
    (x y z : ℕ) (chunk : List ℕ) (k : ℕ)
    → k < length chunk
    → get_or (set (set (set chunk 0 x) 1 y) 2 z) k 0
      ≡ (if k == 0 then x else if k == 1 then y else if k == 2 then z else get_or chunk k 0)
get_or-three x y z [] k h = absurd (omega arith)
get_or-three x y z (a ∷ chunk) zero h = refl
get_or-three x y z (a ∷ []) (suc k) h = absurd (omega arith)
get_or-three x y z (a ∷ b ∷ chunk) (suc zero) h = refl
get_or-three x y z (a ∷ b ∷ []) (suc (suc k)) h = absurd (omega arith)
get_or-three x y z (a ∷ b ∷ c ∷ chunk) (suc (suc zero)) h = refl
get_or-three x y z (a ∷ b ∷ c ∷ chunk) (suc (suc (suc k))) h = ground arith

fill_chunk-byte :
    (f : PixelFormat) (r g b : ℕ) (chunk : List ℕ) (k : ℕ)
    → k < length chunk
    → get_or (fill_chunk f r g b chunk) k 0 ≡ pixel_byte f r g b k (get_or chunk k 0)
unfolding fill_chunk
fill_chunk-byte rgb r g b chunk k h = get_or-three r g b chunk k h
fill_chunk-byte bgr r g b chunk k h = get_or-three b g r chunk k h
fill_chunk-byte other r g b chunk k h = get_or-map (intensity r g b) chunk k h

-- The first pixel, and what lies behind it.
module _ (n : ℕ) (f : PixelFormat) (bpp r g b : ℕ) (buffer : List ℕ)
    (fits : bpp ≤ length buffer) where
  length-first : length (fill_chunk f r g b (take bpp buffer)) ≡ bpp
  length-first = omega (arith, length-fill_chunk f r g b (take bpp buffer), length-take bpp buffer)

  first_pixel :
      (k : ℕ)
      → k < bpp
      → get_or (fill_chunks (suc n) f bpp r g b buffer) k 0
        ≡ pixel_byte f r g b k (get_or buffer k 0)
  unfolding fill_chunks
  first_pixel k h =
      get_or-append_left (fill_chunk f r g b (take bpp buffer)) _ k 0 (omega (arith, length-first))
      ∙ fill_chunk-byte f r g b (take bpp buffer) k (omega (arith, length-take bpp buffer))
      ∙ ap (pixel_byte f r g b k) (get_or-take bpp buffer k 0 h)

  later_pixels :
      (j : ℕ)
      → get_or (fill_chunks (suc n) f bpp r g b buffer) (bpp + j) 0
        ≡ get_or (fill_chunks n f bpp r g b (drop bpp buffer)) j 0
  unfolding fill_chunks
  later_pixels j =
      ap
        (λ l.
          get_or
            (fill_chunk f r g b (take bpp buffer) ++ fill_chunks n f bpp r g b (drop bpp buffer))
            (l + j) 0)
        (sym length-first)
      ∙ get_or-append_right (fill_chunk f r g b (take bpp buffer))
          (fill_chunks n f bpp r g b (drop bpp buffer)) j 0

fill_chunks-byte :
    (n : ℕ) (f : PixelFormat) (bpp r g b : ℕ) (buffer : List ℕ) (i k : ℕ)
    → n * bpp ≤ length buffer
    → i < n
    → k < bpp
    → get_or (fill_chunks n f bpp r g b buffer) (i * bpp + k) 0
      ≡ pixel_byte f r g b k (get_or buffer (i * bpp + k) 0)
fill_chunks-byte zero f bpp r g b buffer i k fits lt p = absurd (omega arith)
fill_chunks-byte (suc n) f bpp r g b buffer zero k fits lt p =
    let here : 0 * bpp + k ≡ k = omega arith in
    rw here (first_pixel n f bpp r g b buffer (omega (arith, suc-mul n bpp)) k p)
fill_chunks-byte (suc n) f bpp r g b buffer (suc i) k fits lt p =
    let on : suc i * bpp + k ≡ bpp + (i * bpp + k) = omega (arith, suc-mul i bpp) in
    rw on (
      later_pixels n f bpp r g b buffer (omega (arith, suc-mul n bpp)) (i * bpp + k)
      ∙ fill_chunks-byte n f bpp r g b (drop bpp buffer) i k
          (omega (arith, suc-mul n bpp, length-drop bpp buffer)) (omega arith) p
      ∙ ap (pixel_byte f r g b k) (get_or-drop bpp buffer (i * bpp + k) 0))

none_filled :
    (f : PixelFormat) (bpp r g b : ℕ) (buffer : List ℕ) (j : ℕ)
    → get_or (fill_chunks 0 f bpp r g b buffer) j 0 ≡ get_or buffer j 0
unfolding fill_chunks
none_filled f bpp r g b buffer j = refl

fill_chunks-tail :
    (n : ℕ) (f : PixelFormat) (bpp r g b : ℕ) (buffer : List ℕ) (j : ℕ)
    → n * bpp ≤ length buffer
    → get_or (fill_chunks n f bpp r g b buffer) (n * bpp + j) 0 ≡ get_or buffer (n * bpp + j) 0
fill_chunks-tail zero f bpp r g b buffer j fits = none_filled f bpp r g b buffer (0 * bpp + j)
fill_chunks-tail (suc n) f bpp r g b buffer j fits =
    let on : suc n * bpp + j ≡ bpp + (n * bpp + j) = omega (arith, suc-mul n bpp) in
    rw on (
      later_pixels n f bpp r g b buffer (omega (arith, suc-mul n bpp)) (n * bpp + j)
      ∙ fill_chunks-tail n f bpp r g b (drop bpp buffer) j
          (omega (arith, suc-mul n bpp, length-drop bpp buffer))
      ∙ get_or-drop bpp buffer (n * bpp + j) 0)

-- The pixels have the bytes that the format writes.
abbrev pub Drawable : PixelFormat → ℕ → Type 0
Drawable rgb bpp = 3 ≤ bpp
Drawable bgr bpp = 3 ≤ bpp
Drawable other bpp = 0 < bpp

-- After fill_screen, where a pixel has at least the bytes that the format writes: each byte of each
-- whole pixel is that of the colour in the buffer's format, or untouched where the format does not use
-- it, and the bytes behind the last whole pixel are untouched.
pub fill_screen-bytes :
    (f : PixelFormat) (bpp r g b : ℕ) (buffer : List ℕ)
    → Drawable f bpp
    → ((i k : ℕ)
        → i < length buffer / bpp
        → k < bpp
        → get_or (fill_screen f bpp r g b buffer) (i * bpp + k) 0
          ≡ pixel_byte f r g b k (get_or buffer (i * bpp + k) 0))
      × ((j : ℕ)
          → get_or (fill_screen f bpp r g b buffer) (length buffer / bpp * bpp + j) 0
            ≡ get_or buffer (length buffer / bpp * bpp + j) 0)
unfolding fill_screen
fill_screen-bytes f bpp r g b buffer h =
    let whole : length buffer / bpp * bpp ≤ length buffer = grind arith in
    (
      λ i k lt p. fill_chunks-byte (length buffer / bpp) f bpp r g b buffer i k whole lt p,
      λ j. fill_chunks-tail (length buffer / bpp) f bpp r g b buffer j whole,
    )
