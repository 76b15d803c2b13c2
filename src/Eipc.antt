-- ===== src/Eipc.antt =====
-- kernel/src/eipc.rs: the kernel's channel of at most four encrypted messages, and what the two
-- endpoints do on each side of it.
pub mod Queue
pub mod Exchange
mod Tests
use axiom_os.Base.{
  leb, ◌==◌, if◌then◌else◌, length, get_or, set, take, replicate, overwrite, ℕ, ◌+◌, ◌-◌, ◌%◌, Bool,
  true, false, Option, none, some, List, [], ◌∷◌,
}
use axiom_os.Base.Bytes.{to_le}
use axiom_os.Aead.Sealed.{chacha20_poly1305_seal, chacha20_poly1305_open}

pub record EipcMessage : Type 0 where
  pub sender_id : ℕ
  pub seq : ℕ
  pub nonce : List ℕ
  pub ct : List ℕ
  pub ct_len : ℕ
  pub tag : List ℕ

abbrev pub cap : ℕ
cap = 4

pub record EipcChannel : Type 0 where
  pub slots : List (Option EipcMessage)
  pub head : ℕ
  pub tail : ℕ
  pub count : ℕ

unfoldable pub new : EipcChannel
new = record { slots = none ∷ none ∷ none ∷ none ∷ []; head = 0; tail = 0; count = 0 }

unfoldable pub enqueue : EipcChannel → EipcMessage → Bool × EipcChannel
enqueue c msg = if leb cap c.count then (false, c) else (
  true,
  record c {
    slots = set c.slots c.tail (some msg);
    tail = (c.tail + 1) % cap;
    count = c.count + 1;
  },
)

-- `take()` leaves `None` in the slot.
unfoldable pub dequeue : EipcChannel → Option EipcMessage × EipcChannel
dequeue c = if c.count == 0 then (none, c) else (
  get_or c.slots c.head none,
  record c { slots = set c.slots c.head none; head = (c.head + 1) % cap; count = c.count - 1 },
)

unfoldable pub make_nonce : ℕ → List ℕ
make_nonce seq = overwrite (replicate 12 0) 4 (to_le 8 seq)

-- b"AXIOM-EIPC-v1"
abbrev pub message_aad : List ℕ
message_aad =
    0x41 ∷ 0x58 ∷ 0x49 ∷ 0x4f ∷ 0x4d ∷ 0x2d ∷ 0x45 ∷ 0x49 ∷ 0x50 ∷ 0x43 ∷ 0x2d ∷ 0x76 ∷ 0x31 ∷ []

-- One turn of the sender's loop in `run_demo`: the message it builds from a plaintext.
unfoldable pub sealed_message : List ℕ → ℕ → List ℕ → EipcMessage
unfolding make_nonce
sealed_message session_key seq pt =
    let nonce = make_nonce seq in
    let ct_buf = replicate 64 0 in
    let sealed =
      chacha20_poly1305_seal session_key nonce message_aad pt (take (length pt) ct_buf) in
    record {
      sender_id = 1;
      seq = seq;
      nonce = nonce;
      ct = overwrite ct_buf 0 sealed.0;
      ct_len = length pt;
      tag = sealed.1;
    }

-- One turn of the receiver's loop: whether the message is authentic, and the plaintext buffer.
unfoldable pub opened_message : List ℕ → EipcMessage → Bool × List ℕ
opened_message session_key m =
    let pt_buf = replicate 64 0 in
    chacha20_poly1305_open session_key m.nonce message_aad (take m.ct_len m.ct) m.tag
      (take m.ct_len pt_buf)
