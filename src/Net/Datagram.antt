-- ===== src/Net/Datagram.antt =====
-- The frame that carries an encrypted message is the datagram a receiver takes apart.
use native.Mathlib.Nat.{mod-eq_of_lt}
use axiom_os.Base.{
  length, drop, replicate, overwrite, replicate-append, u16, ℕ, ◌+◌, ◌^◌, ◌<◌, ◌≡◌, refl, ap, ◌∙◌,
  some, List, [], ◌∷◌, ◌++◌, arith,
}
use axiom_os.Base.Bytes.{to_be, from_be-to_be_two}
use axiom_os.Net.Frame.{long_enough}
use axiom_os.Net.{
  ipv4, EtherFrame, parse_ether, be16, ethertype_from_u16, Ipv4Header, udp, proto_from_u8,
  parse_ipv4, UdpHeader, parse_udp, transmit_eipc_udp,
}

-- The 42 bytes of headers: Ethernet, IPv4 without options, UDP.
abbrev headers : ℕ → ℕ → ℕ → ℕ → ℕ → ℕ → ℕ → ℕ → ℕ → ℕ → ℕ → List ℕ
headers a b c d a' b' c' d' sport dport n =
    replicate 6 0xff
    ++ (0x52 ∷ 0x54 ∷ 0x00 ∷ 0x12 ∷ 0x34 ∷ 0x56 ∷ [])
    ++ to_be 2 0x0800
    ++ (0x45 ∷ 0x00 ∷ [])
    ++ to_be 2 (u16 (28 + n))
    ++ (0 ∷ 0 ∷ 0 ∷ 0 ∷ 64 ∷ 17 ∷ 0 ∷ 0 ∷ a ∷ b ∷ c ∷ d ∷ a' ∷ b' ∷ c' ∷ d' ∷ [])
    ++ to_be 2 sport
    ++ to_be 2 dport
    ++ to_be 2 (u16 (8 + n))
    ++ (0 ∷ 0 ∷ [])

fills : (xs : List ℕ) → overwrite (replicate (length xs) 0) 0 xs ≡ xs
fills [] = refl
fills (x ∷ xs) = ap (λ l. x ∷ l) (fills xs)

pub transmit_lem :
    (a b c d a' b' c' d' sport dport : ℕ) (payload : List ℕ)
    → transmit_eipc_udp (a ∷ b ∷ c ∷ d ∷ []) (a' ∷ b' ∷ c' ∷ d' ∷ []) sport dport payload
      ≡ headers a b c d a' b' c' d' sport dport (length payload) ++ payload
unfolding transmit_eipc_udp to_be
transmit_lem a b c d a' b' c' d' sport dport payload =
    rw (← replicate-append {A = ℕ} 42 (length payload) 0)
      (ap (λ l. headers a b c d a' b' c' d' sport dport (length payload) ++ l) (fills payload))

module _ (a b c d a' b' c' d' sport dport : ℕ) (payload : List ℕ) (p : sport < 2 ^ 16)
    (q : dport < 2 ^ 16) (r : length payload + 28 < 2 ^ 16) where
  whole : List ℕ
  whole = headers a b c d a' b' c' d' sport dport (length payload) ++ payload

  packet : List ℕ
  packet = drop 14 whole

  segment : List ℕ
  segment = drop 34 whole

  ether : EtherFrame
  ether = record {
    dst = replicate 6 0xff;
    src = 0x52 ∷ 0x54 ∷ 0x00 ∷ 0x12 ∷ 0x34 ∷ 0x56 ∷ [];
    ethertype = ipv4;
  }

  ip_header : Ipv4Header
  ip_header = record {
    version_ihl = 0x45;
    dscp_ecn = 0;
    total_len = 28 + length payload;
    id = 0;
    flags_frag = 0;
    ttl = 64;
    protocol = udp;
    checksum = 0;
    src = a ∷ b ∷ c ∷ d ∷ [];
    dst = a' ∷ b' ∷ c' ∷ d' ∷ [];
  }

  udp_header : UdpHeader
  udp_header = record { src_port = sport; dst_port = dport; len = 8 + length payload; checksum = 0 }

  ether_part : parse_ether whole ≡ some (ether, packet)
  unfolding parse_ether to_be be16 ethertype_from_u16 whole ether packet
  ether_part = rw (long_enough whole 14 (omega arith), from_be-to_be_two 0x0800 (omega arith)) refl

  ip_part : parse_ipv4 packet ≡ some (ip_header, segment)
  unfolding parse_ipv4 to_be be16 proto_from_u8 whole packet segment ip_header
  ip_part =
      rw
        (
          long_enough packet 20 (omega arith),
          from_be-to_be_two 0 (omega arith),
          from_be-to_be_two (u16 (28 + length payload)) (omega arith),
          mod-eq_of_lt {n = 28 + length payload} {m = 2 ^ 16} (omega arith),
        )
        refl

  udp_part : parse_udp segment ≡ some (udp_header, payload)
  unfolding parse_udp to_be be16 whole segment udp_header
  udp_part =
      rw
        (
          long_enough segment 8 (omega arith),
          from_be-to_be_two sport p,
          from_be-to_be_two dport q,
          from_be-to_be_two 0 (omega arith),
          from_be-to_be_two (u16 (8 + length payload)) (omega arith),
          mod-eq_of_lt {n = 8 + length payload} {m = 2 ^ 16} (omega arith),
        )
        refl

-- A receiver that takes the transmitted frame apart finds an IPv4 frame, a UDP packet between the given
-- addresses, and a datagram between the given ports whose payload is the ciphertext, with both
-- length fields right, for every payload that fits the 16-bit lengths.
pub transmit-parses :
    (a b c d a' b' c' d' sport dport : ℕ) (payload : List ℕ)
    → sport < 2 ^ 16
    → dport < 2 ^ 16
    → length payload + 28 < 2 ^ 16
    → (e : EtherFrame) × (packet : List ℕ) × (ip : Ipv4Header) × (segment : List ℕ) × (parse_ether
          (transmit_eipc_udp (a ∷ b ∷ c ∷ d ∷ []) (a' ∷ b' ∷ c' ∷ d' ∷ []) sport dport payload)
        ≡ some (e, packet))
      × (e.ethertype ≡ ipv4)
      × (parse_ipv4 packet ≡ some (ip, segment))
      × (ip.protocol ≡ udp)
      × (ip.src ≡ a ∷ b ∷ c ∷ d ∷ [])
      × (ip.dst ≡ a' ∷ b' ∷ c' ∷ d' ∷ [])
      × (ip.total_len ≡ length packet)
      × (parse_udp segment
          ≡ some (
            record { src_port = sport; dst_port = dport; len = length segment; checksum = 0 },
            payload,
          ))
unfolding whole packet segment ether ip_header udp_header to_be
transmit-parses a b c d a' b' c' d' sport dport payload p q r = (
  ether a b c d a' b' c' d' sport dport payload p q r,
  packet a b c d a' b' c' d' sport dport payload p q r,
  ip_header a b c d a' b' c' d' sport dport payload p q r,
  segment a b c d a' b' c' d' sport dport payload p q r,
  ap parse_ether (transmit_lem a b c d a' b' c' d' sport dport payload)
      ∙ ether_part a b c d a' b' c' d' sport dport payload p q r,
  refl,
  ip_part a b c d a' b' c' d' sport dport payload p q r,
  refl,
  refl,
  refl,
  omega arith,
  udp_part a b c d a' b' c' d' sport dport payload p q r
      ∙ ap
          (λ n.
            some (record { src_port = sport; dst_port = dport; len = n; checksum = 0 }, payload))
          {x = 8 + length payload} (omega arith),
)
