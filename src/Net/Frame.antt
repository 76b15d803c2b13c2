-- ===== src/Net/Frame.antt =====
-- Ethernet headers written and read back.
use axiom_os.Base.{
  ltb, length, drop, overwrite, length-append, overwrite-overwrite, overwrite_start, six, ℕ, ◌^◌,
  ◌≤◌, ◌<◌, ◌≡◌, refl, ap, ◌∙◌, false, some, List, [], ◌∷◌, ◌++◌, append_assoc, arith,
}
use axiom_os.Base.Bytes.{to_be, length-to_be, from_be-to_be_two}
use axiom_os.Net.{
  ethertype_from_u16, ethertype_to_u16, be16, EtherFrame, parse_ether, serialize_ether,
}

-- The number of an `Other` is none of the three that have a name.
pub record IsTyped (f : EtherFrame) : Type 0 where
  pub dst_length : length f.dst ≡ 6
  pub src_length : length f.src ≡ 6
  pub type_range : ethertype_to_u16 f.ethertype < 2 ^ 16
  pub type_named : ethertype_from_u16 (ethertype_to_u16 f.ethertype) ≡ f.ethertype

serialize_lem :
    (f : EtherFrame) (buf : List ℕ)
    → IsTyped f
    → 14 ≤ length buf
    → serialize_ether f buf
      ≡ (f.dst ++ (f.src ++ to_be 2 (ethertype_to_u16 f.ethertype))) ++ drop 14 buf
unfolding serialize_ether
serialize_lem f buf w h =
    let et = to_be 2 (ethertype_to_u16 f.ethertype) in
    let ld = w.dst_length in
    let ls = w.src_length in
    let l1 = length-append f.dst f.src in
    let l2 = length-append f.src et in
    let l3 = length-append f.dst (f.src ++ et) in
    let le = length-to_be 2 (ethertype_to_u16 f.ethertype) in
    ap (λ l. overwrite l 12 et) (overwrite-overwrite buf 0 6 f.dst f.src (omega arith))
    ∙ overwrite-overwrite buf 0 12 (f.dst ++ f.src) et (omega arith)
    ∙ ap (overwrite buf 0) (append_assoc f.dst f.src et)
    ∙ overwrite_start buf (f.dst ++ (f.src ++ et)) (omega arith)
    ∙ ap (λ n. (f.dst ++ (f.src ++ et)) ++ drop n buf) {y = 14} (omega arith)

pub long_enough : (xs : List ℕ) (n : ℕ) → n ≤ length xs → ltb (length xs) n ≡ false
long_enough xs n h = ground arith

parse_explicit :
    (a b c d e f a' b' c' d' e' f' v : ℕ) (rest : List ℕ)
    → v < 2 ^ 16
    → parse_ether (
        ((a ∷ b ∷ c ∷ d ∷ e ∷ f ∷ []) ++ ((a' ∷ b' ∷ c' ∷ d' ∷ e' ∷ f' ∷ []) ++ to_be 2 v)) ++ rest)
      ≡ some (
        record {
          dst = a ∷ b ∷ c ∷ d ∷ e ∷ f ∷ [];
          src = a' ∷ b' ∷ c' ∷ d' ∷ e' ∷ f' ∷ [];
          ethertype = ethertype_from_u16 v;
        },
        rest,
      )
unfolding parse_ether to_be be16
parse_explicit a b c d e f a' b' c' d' e' f' v rest h =
    rw
      (
        long_enough
            (((a ∷ b ∷ c ∷ d ∷ e ∷ f ∷ []) ++ ((a' ∷ b' ∷ c' ∷ d' ∷ e' ∷ f' ∷ []) ++ to_be 2 v))
              ++ rest)
            14 (omega arith),
        from_be-to_be_two v h,
      )
      refl

parse_lem :
    (dst src rest : List ℕ) (v : ℕ)
    → length dst ≡ 6
    → length src ≡ 6
    → v < 2 ^ 16
    → parse_ether ((dst ++ (src ++ to_be 2 v)) ++ rest)
      ≡ some (record { dst = dst; src = src; ethertype = ethertype_from_u16 v }, rest)
parse_lem dst src rest v p q r =
    let d = six dst p in
    let s = six src q in
    rw (d.6, s.6) (parse_explicit d.0 d.1 d.2 d.3 d.4 d.5 s.0 s.1 s.2 s.3 s.4 s.5 v rest r)

-- A header that is written over the first 14 bytes of a buffer is read back as it was, with the rest of
-- the buffer as the payload.
pub parse-serialize :
    (f : EtherFrame) (buf : List ℕ)
    → IsTyped f
    → 14 ≤ length buf
    → parse_ether (serialize_ether f buf) ≡ some (f, drop 14 buf)
parse-serialize f buf w h =
    ap parse_ether (serialize_lem f buf w h)
    ∙ parse_lem f.dst f.src (drop 14 buf) (ethertype_to_u16 f.ethertype) w.dst_length w.src_length
        w.type_range
    ∙ ap (λ t. some (record f { ethertype = t }, drop 14 buf)) w.type_named
