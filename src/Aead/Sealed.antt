-- ===== src/Aead/Sealed.antt =====
-- kernel/src/poly1305.rs, `chacha20_poly1305_seal` and `chacha20_poly1305_open`.
use axiom_os.Base.{
  ℕ, ◌+◌, ◌-◌, ◌%◌, ◌≡◌, ◌≢◌, ◌↔◌, refl, sym, ap, ◌∙◌, arith, inl, inr, Bool, true, false, List,
  ◌++◌, ◌==◌, ==_iff, if◌then◌else◌, Bool-cases, length, take, overwrite, replicate, length-append,
  length-replicate, overwrite-replicate, append_assoc, append-nil, overwrite_gap,
}
use axiom_os.Base.Bytes.{to_le, length-to_le}
use axiom_os.Crypto.ConstTime.{ct_diff, ct_diff_iff}
use axiom_os.Poly1305.{poly1305}
use axiom_os.Poly1305.Tag.{length-poly1305}
use axiom_os.Aead.ChaCha.{chacha20_block}
use axiom_os.Aead.Xor.{xor_blocks, xor_blocks_undo, length-xor_blocks}

abbrev pub pad16 : ℕ → ℕ
pad16 n = (16 - n % 16) % 16

-- The buffer under the tag: a vector of zeros, into which four slices are written.
unfoldable pub mac_input : List ℕ → List ℕ → List ℕ
mac_input aad ct =
    let off1 = length aad + pad16 (length aad) in
    let off2 = off1 + (length ct + pad16 (length ct)) in
    let m0 = replicate (off2 + 16) 0 in
    let m1 = overwrite m0 0 aad in
    let m2 = overwrite m1 off1 ct in
    let m3 = overwrite m2 off2 (to_le 8 (length aad)) in
    overwrite m3 (off2 + 8) (to_le 8 (length ct))

-- The tag under the one-time key, the first half of the block with counter 0.
unfoldable pub expected_tag : List ℕ → List ℕ → List ℕ → List ℕ → List ℕ
expected_tag key nonce aad ct = poly1305 (take 32 (chacha20_block key 0 nonce)) (mac_input aad ct)

-- Each gives its result with the output buffer: `out` is the buffer before the call.
unfoldable pub chacha20_poly1305_seal : List ℕ → List ℕ → List ℕ → List ℕ → List ℕ → List ℕ × List ℕ
chacha20_poly1305_seal key nonce aad plaintext out =
    let ct = xor_blocks (length plaintext) (λ c. chacha20_block key c nonce) 1 0 plaintext out in
    (ct, expected_tag key nonce aad ct)

unfoldable pub chacha20_poly1305_open :
    List ℕ → List ℕ → List ℕ → List ℕ → List ℕ → List ℕ → Bool × List ℕ
chacha20_poly1305_open key nonce aad ct tag out =
    let expected = expected_tag key nonce aad ct in
    let pt = xor_blocks (length ct) (λ c. chacha20_block key c nonce) 1 0 ct out in
    if ct_diff 16 0 expected tag 0 == 0 then (true, pt) else (false, out)

length-expected_tag : (key nonce aad ct : List ℕ) → length (expected_tag key nonce aad ct) ≡ 16
unfolding expected_tag
length-expected_tag key nonce aad ct = length-poly1305 _ (mac_input aad ct)

-- `chacha20_poly1305_open` accepts exactly the tag that it computes; it decrypts only then, and
-- otherwise leaves the output as it was.
pub open_lem :
    (key nonce aad ct tag out : List ℕ)
    → length tag ≡ 16
    → (tag ≡ expected_tag key nonce aad ct
        → chacha20_poly1305_open key nonce aad ct tag out
          ≡ (true, xor_blocks (length ct) (λ c. chacha20_block key c nonce) 1 0 ct out))
      × (tag ≢ expected_tag key nonce aad ct
          → chacha20_poly1305_open key nonce aad ct tag out ≡ (false, out))
unfolding chacha20_poly1305_open
open_lem key nonce aad ct tag out len =
    elim (Bool-cases (ct_diff 16 0 (expected_tag key nonce aad ct) tag 0 == 0)) [
      | inl same ↦ (λ h. rw same, λ h. absurd (h (sym (agree.0 ((==_iff _ 0).0 same)))))
      | inr differ ↦ (λ h. absurd (differs differ h), λ h. rw differ)
    ]
  where
    agree :
        (ct_diff 16 0 (expected_tag key nonce aad ct) tag 0 ≡ 0)
        ↔ (expected_tag key nonce aad ct ≡ tag)
    agree =
        ct_diff_iff 16 (expected_tag key nonce aad ct) tag (length-expected_tag key nonce aad ct)
          len

    differs :
        (ct_diff 16 0 (expected_tag key nonce aad ct) tag 0 == 0) ≡ false
        → ¬ (tag ≡ expected_tag key nonce aad ct)
    differs d h =
        let yes_same : (ct_diff 16 0 (expected_tag key nonce aad ct) tag 0 == 0) ≡ true =
          (==_iff _ 0).1 (agree.1 (sym h)) in
        let clash : true ≡ false = sym yes_same ∙ d in cc

pub length-seal :
    (key nonce aad plaintext out : List ℕ)
    → length (chacha20_poly1305_seal key nonce aad plaintext out).0 ≡ length out
unfolding chacha20_poly1305_seal
length-seal key nonce aad plaintext out =
    length-xor_blocks (length plaintext) (λ c. chacha20_block key c nonce) 1 0 plaintext out

-- What was sealed opens to the plaintext, for any key, nonce, associated bytes and plaintext, if
-- both output buffers have the plaintext's length.
pub open-seal :
    (key nonce aad plaintext out back : List ℕ)
    → length out ≡ length plaintext
    → length back ≡ length plaintext
    → let sealed = chacha20_poly1305_seal key nonce aad plaintext out in
      chacha20_poly1305_open key nonce aad sealed.0 sealed.1 back ≡ (true, plaintext)
unfolding chacha20_poly1305_seal
open-seal key nonce aad plaintext out back p q =
    (open_lem key nonce aad ct (expected_tag key nonce aad ct) back
        (length-expected_tag key nonce aad ct)).0
      refl
    ∙ ap (λ l. (true, l)) (xor_blocks_undo ks 1 plaintext out back (omega arith) p q)
  where
    ks : ℕ → List ℕ
    ks c = chacha20_block key c nonce

    ct : List ℕ
    ct = xor_blocks (length plaintext) ks 1 0 plaintext out

-- The bytes under the tag are those of RFC 8439, section 2.8: the associated bytes and the
-- ciphertext, each padded to 16 bytes, then the two lengths.
pub mac_input_lem :
    (aad ct : List ℕ)
    → mac_input aad ct
      ≡ aad
        ++ (replicate (pad16 (length aad)) 0
            ++ (ct
                ++ (replicate (pad16 (length ct)) 0
                    ++ (to_le 8 (length aad) ++ to_le 8 (length ct)))))
unfolding mac_input
mac_input_lem aad ct =
    ap (λ l. overwrite (overwrite (overwrite l off1 ct) off2 la) (off2 + 8) lc)
      (overwrite-replicate (off2 + 16) 0 aad (omega arith))
    ∙ ap (λ l. overwrite (overwrite l off2 la) (off2 + 8) lc)
        (overwrite_gap aad room1 (pad16 (length aad)) off1 0 ct (omega arith) refl)
    ∙ ap (λ l. overwrite l (off2 + 8) lc)
        (overwrite_gap pre2 room2 (pad16 (length ct)) off2 0 la
          (omega (arith, length-to_le 8 (length aad))) (omega (arith, len2)))
    ∙ overwrite_gap pre3 (room2 - (pad16 (length ct) + length la)) 0 (off2 + 8) 0 lc
        (omega (arith, length-to_le 8 (length aad), length-to_le 8 (length ct)))
        (omega (arith, len3))
    ∙ ap (λ n. (pre3 ++ lc) ++ replicate n 0)
        {x = room2 - (pad16 (length ct) + length la) - (0 + length lc)} {y = 0}
        (omega (arith, length-to_le 8 (length aad), length-to_le 8 (length ct)))
    ∙ simp (append_assoc, append-nil)
  where
    off1 : ℕ
    off1 = length aad + pad16 (length aad)

    off2 : ℕ
    off2 = off1 + (length ct + pad16 (length ct))

    la : List ℕ
    la = to_le 8 (length aad)

    lc : List ℕ
    lc = to_le 8 (length ct)

    room1 : ℕ
    room1 = off2 + 16 - length aad

    room2 : ℕ
    room2 = room1 - (pad16 (length aad) + length ct)

    pre2 : List ℕ
    pre2 = aad ++ (replicate (pad16 (length aad)) 0 ++ ct)

    pre3 : List ℕ
    pre3 = pre2 ++ (replicate (pad16 (length ct)) 0 ++ la)

    len2 : length pre2 ≡ off1 + length ct
    len2 = omega (
      arith,
      length-append aad (replicate (pad16 (length aad)) 0 ++ ct),
      length-append (replicate (pad16 (length aad)) 0) ct,
      length-replicate {A = ℕ} (pad16 (length aad)) 0,
    )

    len3 : length pre3 ≡ off2 + 8
    len3 = omega (
      arith,
      len2,
      length-append pre2 (replicate (pad16 (length ct)) 0 ++ la),
      length-append (replicate (pad16 (length ct)) 0) la,
      length-replicate {A = ℕ} (pad16 (length ct)) 0,
      length-to_le 8 (length aad),
    )
