-- ===== src/Eipc/Exchange.antt =====
-- What an endpoint seals, the other opens.
use axiom_os.Base.{
  leb, length, take, replicate, overwrite, All, length-append, length-take, take-append,
  overwrite_to_end, snoc_append, overwrite-replicate, append-injective, ℕ, zero, suc, ◌+◌, ◌-◌, ◌^◌,
  ◌≤◌, ◌<◌, ◌≡◌, refl, sym, ap, ap₂, subst, ◌∙◌, Bool, true, false, none, some, List, [], ◌∷◌, ◌++◌,
  map, append-nil, arith,
}
use axiom_os.Base.Bytes.{to_le, length-to_le, to_le-injective}
use axiom_os.Aead.Sealed.{chacha20_poly1305_seal, open-seal, length-seal}
use axiom_os.Eipc.{
  EipcMessage, EipcChannel, new, enqueue, dequeue, make_nonce, message_aad, sealed_message,
  opened_message,
}
use axiom_os.Eipc.Queue.{Holds, new-Holds, push, enqueue-push, dequeue-pop}

make_nonce_lem : (seq : ℕ) → make_nonce seq ≡ replicate 4 0 ++ to_le 8 seq
unfolding make_nonce
make_nonce_lem seq =
    overwrite_to_end (replicate 12 0) 4 (to_le 8 seq) (omega (arith, length-to_le 8 seq))

-- Different sequence numbers have different nonces.
pub make_nonce-injective : (s t : ℕ) → s < 2 ^ 32 → t < 2 ^ 32 → make_nonce s ≡ make_nonce t → s ≡ t
make_nonce-injective s t p q e =
    let whole = sym (make_nonce_lem s) ∙ e ∙ make_nonce_lem t in
    let parts =
      append-injective (replicate 4 0) (replicate 4 0) (to_le 8 s) (to_le 8 t) refl whole in
    to_le-injective 8 s t (omega arith) (omega arith) parts.1

-- A plaintext of at most 64 bytes that one endpoint seals under the session key comes out of the
-- message at the other endpoint, for every key and sequence number.
pub opened-sealed :
    (session_key : List ℕ) (seq : ℕ) (pt : List ℕ)
    → length pt ≤ 64
    → opened_message session_key (sealed_message session_key seq pt) ≡ (true, pt)
unfolding opened_message sealed_message
opened-sealed k seq pt small =
    let nonce = make_nonce seq in
    let out = take (length pt) (replicate 64 0) in
    let sized : length out ≡ length pt = length-take (length pt) (replicate 64 0) ∙ omega arith in
    let ct = (chacha20_poly1305_seal k nonce message_aad pt out).0 in
    let ct_sized : length ct ≡ length pt = length-seal k nonce message_aad pt out ∙ sized in
    let kept : take (length pt) (overwrite (replicate 64 0) 0 ct) ≡ ct =
      ap (take (length pt)) (overwrite-replicate 64 0 ct (omega arith))
      ∙ take-append (length pt) ct (replicate (64 - length ct) 0) ct_sized in
    rw kept (open-seal k nonce message_aad pt out out sized sized)

-- The sender's loop: the plaintexts, numbered from `seq` on.
abbrev pub deliver : List ℕ → ℕ → EipcChannel → List (List ℕ) → EipcChannel
deliver k seq c [] = c
deliver k seq c (pt ∷ pts) = deliver k (seq + 1) (enqueue c (sealed_message k seq pt)).1 pts

-- The receiver's loop, which stops at the first empty answer; at most `fuel` turns.
abbrev pub drain : ℕ → List ℕ → EipcChannel → List (Bool × List ℕ)
drain zero k c = []
drain (suc fuel) k c =
    let rest = drain fuel k (dequeue c).1 in
    elim ((dequeue c).0) [ none ↦ [] | some m ↦ opened_message k m ∷ rest ]

abbrev messages : List ℕ → ℕ → List (List ℕ) → List EipcMessage
messages k seq [] = []
messages k seq (pt ∷ pts) = sealed_message k seq pt ∷ messages k (seq + 1) pts

deliver-Holds :
    (k : List ℕ) (seq : ℕ) (c : EipcChannel) (q : List EipcMessage) (pts : List (List ℕ))
    → Holds c q
    → length q + length pts ≤ 4
    → Holds (deliver k seq c pts) (q ++ messages k seq pts)
deliver-Holds k seq c q [] h room = rw (append-nil q) h
deliver-Holds k seq c q (pt ∷ pts) h room =
    let m = sealed_message k seq pt in
    let r = enqueue-push c q m h in
    let p : leb 4 (length q) ≡ false = ground arith in
    let pushed : (push q m).1 ≡ q ++ (m ∷ []) = rw p refl in
    let next = subst (Holds (enqueue c m).1) pushed r.1 in
    subst (Holds (deliver k (seq + 1) (enqueue c m).1 pts))
      (snoc_append q m (messages k (seq + 1) pts))
      (deliver-Holds k (seq + 1) (enqueue c m).1 (q ++ (m ∷ [])) pts next
        (omega (arith, length-append q (m ∷ []))))

drain-Holds :
    (fuel : ℕ) (k : List ℕ) (seq : ℕ) (c : EipcChannel) (pts : List (List ℕ))
    → All (λ pt. length pt ≤ 64) pts
    → length pts < fuel
    → Holds c (messages k seq pts)
    → drain fuel k c ≡ map (λ pt. (true, pt)) pts
drain-Holds zero k seq c pts small enough h = absurd (omega arith)
drain-Holds (suc fuel) k seq c [] small enough h = rw (drain, (dequeue-pop c [] h).0) refl
drain-Holds (suc fuel) k seq c (pt ∷ pts) small enough h =
    let r = dequeue-pop c (messages k seq (pt ∷ pts)) h in
    rw (drain, r.0)
      (ap₂ ◌∷◌ (opened-sealed k seq pt small.0)
        (drain-Holds fuel k (seq + 1) (dequeue c).1 pts small.1 (omega arith) r.1))

-- Up to four plaintexts of at most 64 bytes that are sealed and queued in a new channel are drained
-- authentic, complete and in order, and the receiver's loop ends within one turn more.
pub drain-deliver :
    (fuel : ℕ) (k : List ℕ) (pts : List (List ℕ))
    → length pts ≤ 4
    → All (λ pt. length pt ≤ 64) pts
    → length pts < fuel
    → drain fuel k (deliver k 1 new pts) ≡ map (λ pt. (true, pt)) pts
drain-deliver fuel k pts few small enough =
    drain-Holds fuel k 1 (deliver k 1 new pts) pts small enough
      (deliver-Holds k 1 new [] pts new-Holds (omega arith))
