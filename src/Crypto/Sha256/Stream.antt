-- ===== src/Crypto/Sha256/Stream.antt =====
-- What a hasher holds: the message fed so far, its whole blocks compressed and the rest buffered.
use axiom_os.Base.{
  ℕ, zero, suc, ◌+◌, ◌-◌, ◌*◌, ◌<◌, ◌≤◌, min, ◌≡◌, refl, ap, sym, ◌∙◌, arith, inl, inr, List, [],
  ◌∷◌, ◌++◌, ◌==◌, Bool-cases, ==_iff, u64, length, take, drop, overwrite, append_assoc, append-nil,
  length-append, length-overwrite, length-take, length-drop, take-append-drop, take-overwrite,
  take_all,
}
use axiom_os.Crypto.Sha256.{
  Hasher, new, initial_state, compress, absorb, chunk_len, update_loop, update,
}
use axiom_os.Crypto.Sha256.Blocks.{fold_blocks, fold_blocks-append, fold_blocks-one}

-- `s` has been fed `m`: `blocks` whole blocks `whole` are in the state, and `rest` is in the
-- buffer. The length is kept modulo 2 ^ 64.
pub record Fed (s : Hasher) (m : List ℕ) : Type 0 where
  pub blocks : ℕ
  pub whole : List ℕ
  pub rest : List ℕ
  pub split : m ≡ whole ++ rest
  pub length_whole : length whole ≡ blocks * 64
  pub length_rest : length rest ≡ s.buf_len
  pub short : s.buf_len < 64
  pub state_eq : s.state ≡ fold_blocks blocks initial_state whole
  pub length_buf : length s.buf ≡ 64
  pub buffered : take s.buf_len s.buf ≡ rest

pub new-Fed : Fed new []
unfolding new fold_blocks
new-Fed = record {
  blocks = 0;
  whole = [];
  rest = [];
  split = refl;
  length_whole = refl;
  length_rest = refl;
  short = omega arith;
  state_eq = refl;
  length_buf = refl;
  buffered = refl;
}

-- Bytes written behind those that the buffer holds.
module _ (s : Hasher) (m c : List ℕ) (fed : Fed s m) where
  abbrev filled : List ℕ
  filled = overwrite s.buf s.buf_len c

  regroup : m ++ c ≡ fed.whole ++ (fed.rest ++ c)
  regroup = ap (λ l. l ++ c) fed.split ∙ append_assoc fed.whole fed.rest c

  held : s.buf_len + length c ≤ 64 → take (s.buf_len + length c) filled ≡ fed.rest ++ c
  held h =
      take-overwrite s.buf s.buf_len c (omega (arith, fed.length_buf))
      ∙ ap (λ l. l ++ c) fed.buffered

  -- They stay in the buffer if it is not full,
  pub buffer-Fed :
      (k : ℕ)
      → s.buf_len + length c ≡ k
      → k < 64
      → Fed (record s { buf = filled; buf_len = k }) (m ++ c)
  buffer-Fed k e h = record {
    blocks = fed.blocks;
    whole = fed.whole;
    rest = fed.rest ++ c;
    split = regroup;
    length_whole = fed.length_whole;
    length_rest = omega (arith, length-append fed.rest c, fed.length_rest);
    short = h;
    state_eq = fed.state_eq;
    length_buf = length-overwrite s.buf s.buf_len c ∙ fed.length_buf;
    buffered = ap (λ j. take j filled) (sym e) ∙ held (omega arith);
  }

  -- and are compressed with it if it is.
  pub compress-Fed :
      s.buf_len + length c ≡ 64
      → Fed (record s { state = compress s.state filled; buf = filled; buf_len = 0 }) (m ++ c)
  compress-Fed h = record {
    blocks = fed.blocks + 1;
    whole = fed.whole ++ (fed.rest ++ c);
    rest = [];
    split = regroup ∙ sym (append-nil (fed.whole ++ (fed.rest ++ c)));
    length_whole = omega (
      arith,
      length-append fed.whole (fed.rest ++ c),
      length-append fed.rest c,
      fed.length_whole,
      fed.length_rest,
    );
    length_rest = refl;
    short = omega arith;
    state_eq =
        ap (compress s.state) full_block
        ∙ ap (λ l. compress l (fed.rest ++ c)) fed.state_eq
        ∙ sym (fold_blocks-one (fold_blocks fed.blocks initial_state fed.whole) (fed.rest ++ c) len)
        ∙ sym (
            fold_blocks-append fed.blocks 1 initial_state fed.whole (fed.rest ++ c)
              fed.length_whole);
    length_buf = length-overwrite s.buf s.buf_len c ∙ fed.length_buf;
    buffered = refl;
  }
    where
      len : length (fed.rest ++ c) ≡ 64
      len = omega (arith, length-append fed.rest c, fed.length_rest)

      full_block : filled ≡ fed.rest ++ c
      full_block =
          sym (
            take_all (s.buf_len + length c) filled
              (omega (arith, length-overwrite s.buf s.buf_len c, fed.length_buf)))
          ∙ held (omega arith)

-- A pass of the loop of `update` feeds the bytes that it takes.
pub absorb-Fed :
    (s : Hasher) (m xs : List ℕ) → Fed s m → Fed (absorb s xs) (m ++ take (chunk_len s xs) xs)
unfolding absorb
absorb-Fed s m xs fed = elim (Bool-cases (s.buf_len + chunk_len s xs == 64)) [
  | inl full ↦
      rw full
        (compress-Fed s m (take (chunk_len s xs) xs) fed (omega (arith, len, (==_iff _ _).0 full)))
  | inr part ↦ rw part (
      buffer-Fed s m (take (chunk_len s xs) xs) fed (s.buf_len + chunk_len s xs)
        (omega (arith, len)) (ground (arith, len, bound)))
]
  where
    bound : s.buf_len + chunk_len s xs ≤ 64
    bound = unfold chunk_len in omega (arith, fed.short)

    len : length (take (chunk_len s xs) xs) ≡ chunk_len s xs
    len = unfold chunk_len in omega (arith, length-take (min (64 - s.buf_len) (length xs)) xs)

chunk_len-pos : (s : Hasher) (x : ℕ) (xs : List ℕ) → s.buf_len < 64 → 0 < chunk_len s (x ∷ xs)
unfolding chunk_len
chunk_len-pos s x xs h = omega arith

-- With fuel for each byte the loop feeds the whole input.
pub update_loop-Fed :
    (fuel : ℕ) (s : Hasher) (m xs : List ℕ)
    → length xs ≤ fuel
    → Fed s m
    → Fed (update_loop fuel s xs) (m ++ xs)
unfolding update_loop
update_loop-Fed zero s m [] h fed = rw append-nil fed
update_loop-Fed zero s m (x ∷ xs) h fed = absurd (omega arith)
update_loop-Fed (suc fuel) s m [] h fed = rw append-nil fed
update_loop-Fed (suc fuel) s m (x ∷ xs) h fed =
    let n = chunk_len s (x ∷ xs) in
    let rest = drop n (x ∷ xs) in
    let fewer : length rest ≤ fuel =
      omega (arith, length-drop n (x ∷ xs), chunk_len-pos s x xs fed.short) in
    let all_in : (m ++ take n (x ∷ xs)) ++ rest ≡ m ++ (x ∷ xs) =
      append_assoc m (take n (x ∷ xs)) rest ∙ ap (λ l. m ++ l) (take-append-drop n (x ∷ xs)) in
    rw all_in at (
      update_loop-Fed fuel (absorb s (x ∷ xs)) (m ++ take n (x ∷ xs)) rest fewer
        (absorb-Fed s m (x ∷ xs) fed))

total-absorb : (s : Hasher) (xs : List ℕ) → (absorb s xs).total_len ≡ s.total_len
unfolding absorb
total-absorb s xs = ground arith

total-update_loop :
    (fuel : ℕ) (s : Hasher) (xs : List ℕ) → (update_loop fuel s xs).total_len ≡ s.total_len
unfolding update_loop
total-update_loop zero s xs = refl
total-update_loop (suc fuel) s [] = refl
total-update_loop (suc fuel) s (x ∷ xs) =
    total-update_loop fuel (absorb s (x ∷ xs)) (drop (chunk_len s (x ∷ xs)) (x ∷ xs))
    ∙ total-absorb s (x ∷ xs)

-- `s` has been fed exactly `m`, and has counted its bytes.
pub record Holds (s : Hasher) (m : List ℕ) : Type 0 where
  pub fed : Fed s m
  pub counted : s.total_len ≡ u64 (length m)

pub new-Holds : Holds new []
unfolding new
new-Holds = record { fed = new-Fed; counted = refl }

-- `update` feeds its input: however the calls cut a message, the hasher holds the message.
pub update-Holds : (s : Hasher) (m xs : List ℕ) → Holds s m → Holds (update s xs) (m ++ xs)
unfolding update
update-Holds s m xs h = record {
  fed =
      update_loop-Fed (length xs) (record s { total_len = u64 (s.total_len + length xs) }) m xs
        (omega arith) (retotal h.fed);
  counted =
      total-update_loop (length xs) (record s { total_len = u64 (s.total_len + length xs) }) xs
      ∙ omega (arith, h.counted, length-append m xs);
}
  where
    retotal : Fed s m → Fed (record s { total_len = u64 (s.total_len + length xs) }) m
    retotal f = record {
      blocks = f.blocks;
      whole = f.whole;
      rest = f.rest;
      split = f.split;
      length_whole = f.length_whole;
      length_rest = f.length_rest;
      short = f.short;
      state_eq = f.state_eq;
      length_buf = f.length_buf;
      buffered = f.buffered;
    }
