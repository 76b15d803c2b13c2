-- ===== src/Aead/EncryptHmac.antt =====
-- kernel/src/crypto_aead.rs, `aead_seal` and `aead_open`: ChaCha20 with a truncated HMAC.
use axiom_os.Base.{
  ℕ, ◌+◌, ◌-◌, ◌≤◌, ◌≡◌, ◌≢◌, inl, inr, refl, sym, ap, ◌∙◌, le→leb, arith, Option, none, some, List,
  ◌++◌, leb, ◌==◌, ==_iff, Bool-cases, if◌then◌else◌, length, take, overwrite, replicate,
  length-take, length-replicate, length-append, take-append, overwrite-replicate, overwrite_gap,
}
use axiom_os.Crypto.Hmac.{hmac_sha256, length-hmac_sha256}
use axiom_os.Crypto.ConstTime.{ct_diff, ct_diff-take_iff}
use axiom_os.Aead.ChaCha.{chacha20_block}
use axiom_os.Aead.Xor.{chacha20_xor, xor_at_undo, length-xor_at}

abbrev pub max_pt : ℕ
max_pt = 48

abbrev pub tag_len : ℕ
tag_len = 16

-- `struct AeadCt`
pub record AeadCt : Type 0 where
  pub ct : List ℕ
  pub len : ℕ
  pub tag : List ℕ

-- HMAC(key, nonce || ct[..len]), over the filled part of a buffer of 12 + 48 bytes.
unfoldable pub auth_tag : List ℕ → List ℕ → List ℕ → ℕ → List ℕ
auth_tag key nonce ct len =
    let auth_in = overwrite (overwrite (replicate (12 + max_pt) 0) 0 nonce) 12 (take len ct) in
    hmac_sha256 key (take (12 + len) auth_in)

-- `none` is the panic of a plaintext that does not fit.
unfoldable pub aead_seal : List ℕ → List ℕ → List ℕ → Option AeadCt
aead_seal key nonce plaintext =
    let len = length plaintext in
    let ct =
      overwrite (replicate max_pt 0) 0 (chacha20_xor key nonce plaintext (replicate len 0)) in
    let h = auth_tag key nonce ct len in
    if leb len max_pt then some (record { ct = ct; len = len; tag = take tag_len h }) else none

unfoldable pub aead_open : List ℕ → List ℕ → AeadCt → Option (List ℕ × ℕ)
aead_open key nonce c =
    let h = auth_tag key nonce c.ct c.len in
    let pt =
      overwrite (replicate max_pt 0) 0
        (chacha20_xor key nonce (take c.len c.ct) (replicate c.len 0)) in
    if ct_diff tag_len 0 c.tag h 0 == 0 then some (pt, c.len) else none

long : (key nonce ct : List ℕ) (len : ℕ) → tag_len ≤ length (auth_tag key nonce ct len)
unfolding auth_tag
long key nonce ct len = omega (arith, length-hmac_sha256 key _)

-- The bytes under the tag are the nonce and then the ciphertext.
pub auth_tag_lem :
    (key nonce ct : List ℕ) (len : ℕ)
    → length nonce ≡ 12
    → len ≤ max_pt
    → len ≤ length ct
    → auth_tag key nonce ct len ≡ hmac_sha256 key (nonce ++ take len ct)
unfolding auth_tag
auth_tag_lem key nonce ct len e small fits =
    ap (λ l. hmac_sha256 key (take (12 + len) l))
      (ap (λ l. overwrite l 12 (take len ct)) (overwrite-replicate 60 0 nonce (omega arith))
        ∙ overwrite_gap nonce (60 - length nonce) 0 12 0 (take len ct)
            (omega (arith, length-take len ct)) (omega arith))
    ∙ ap (hmac_sha256 key) (
        take-append (12 + len) (nonce ++ take len ct) _
          (omega (arith, length-append nonce (take len ct), length-take len ct)))

-- What `aead_open` gives back when it accepts.
abbrev pub opened : List ℕ → List ℕ → AeadCt → List ℕ × ℕ
opened key nonce c = (
  overwrite (replicate max_pt 0) 0 (chacha20_xor key nonce (take c.len c.ct) (replicate c.len 0)),
  c.len,
)

open_accepts :
    (key nonce : List ℕ) (c : AeadCt)
    → length c.tag ≡ tag_len
    → c.tag ≡ take tag_len (auth_tag key nonce c.ct c.len)
    → aead_open key nonce c ≡ some (opened key nonce c)
unfolding aead_open
open_accepts key nonce c tagged e =
    rw ((==_iff _ 0).1 ((ct_diff-take_iff tag_len c.tag _ tagged (long key nonce c.ct c.len)).1 e))

-- `aead_open` accepts exactly the ciphertexts that carry the truncated HMAC of the nonce and the
-- ciphertext: for these it gives the decryption, and for all others nothing.
pub aead_open_lem :
    (key nonce : List ℕ) (c : AeadCt)
    → length nonce ≡ 12
    → c.len ≤ max_pt
    → length c.ct ≡ max_pt
    → length c.tag ≡ tag_len
    → let tag = take tag_len (hmac_sha256 key (nonce ++ take c.len c.ct)) in
      (c.tag ≡ tag → aead_open key nonce c ≡ some (opened key nonce c))
      × (c.tag ≢ tag → aead_open key nonce c ≡ none)
aead_open_lem key nonce c e small full tagged =
    (λ h. open_accepts key nonce c tagged (h ∙ sym tag_eq), λ h. refuses (λ k. h (k ∙ tag_eq)))
  where
    tag_eq :
        take tag_len (auth_tag key nonce c.ct c.len)
        ≡ take tag_len (hmac_sha256 key (nonce ++ take c.len c.ct))
    tag_eq = ap (take tag_len) (auth_tag_lem key nonce c.ct c.len e small (omega arith))

    refuses : c.tag ≢ take tag_len (auth_tag key nonce c.ct c.len) → aead_open key nonce c ≡ none
    refuses h =
        unfold aead_open in
        (elim (Bool-cases (ct_diff tag_len 0 c.tag (auth_tag key nonce c.ct c.len) 0 == 0)) [
          | inl same ↦ absurd (
              h (
                (ct_diff-take_iff tag_len c.tag _ tagged (long key nonce c.ct c.len)).0
                  ((==_iff _ 0).0 same)))
          | inr differ ↦ rw differ
        ])

-- A plaintext of at most 48 bytes is sealed, and opening the result gives the plaintext back,
-- padded with zeros, with its length.
pub aead_open-seal :
    (key nonce plaintext : List ℕ)
    → length plaintext ≤ max_pt
    → (c : AeadCt) × (aead_seal key nonce plaintext ≡ some c)
      × (aead_open key nonce c
          ≡ some (plaintext ++ replicate (max_pt - length plaintext) 0, length plaintext))
unfolding aead_seal
aead_open-seal key nonce plaintext fits = (sent, rw (le→leb len max_pt fits), round_trip)
  where
    len : ℕ
    len = length plaintext

    ct : List ℕ
    ct = chacha20_xor key nonce plaintext (replicate len 0)

    sent : AeadCt
    sent = record {
      ct = overwrite (replicate max_pt 0) 0 ct;
      len = len;
      tag = take tag_len (auth_tag key nonce (overwrite (replicate max_pt 0) 0 ct) len);
    }

    ct_len : length ct ≡ len
    ct_len =
        unfold chacha20_xor in
        (length-xor_at len 0 0 plaintext (chacha20_block key 1 nonce) (replicate len 0)
          ∙ length-replicate len 0)

    round_trip : aead_open key nonce sent ≡ some (plaintext ++ replicate (max_pt - len) 0, len)
    round_trip =
        open_accepts key nonce sent
          (omega (
            arith,
            length-take tag_len (auth_tag key nonce sent.ct len),
            long key nonce sent.ct len,
          ))
          refl
        ∙ ap (λ l. some (overwrite (replicate max_pt 0) 0 l, len)) decrypted
        ∙ ap (λ l. some (l, len)) (overwrite-replicate max_pt 0 plaintext fits)
      where
        stored : take len sent.ct ≡ ct
        stored =
            ap (take len) (overwrite-replicate max_pt 0 ct (omega (arith, ct_len)))
            ∙ take-append len ct (replicate (max_pt - length ct) 0) ct_len

        decrypted : chacha20_xor key nonce (take len sent.ct) (replicate len 0) ≡ plaintext
        decrypted =
            ap (λ l. chacha20_xor key nonce l (replicate len 0)) stored
            ∙ (unfold chacha20_xor in
                xor_at_undo plaintext (chacha20_block key 1 nonce) (replicate len 0)
                  (replicate len 0) (length-replicate len 0) (length-replicate len 0))
