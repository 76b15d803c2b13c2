-- ===== src/Net.antt =====
-- kernel/src/net.rs: the headers of Ethernet, IPv4 and UDP, the classification of a received frame, and
-- the frame that carries an encrypted message.
pub mod Frame
pub mod Datagram
mod Tests
use axiom_os.Base.{
  ltb, ◌==◌, if◌then◌else◌, length, get_or, set, drop, replicate, slice, overwrite, u16, ℕ, ◌+◌,
  ◌*◌, bit_and, Option, none, some, List, [], ◌∷◌,
}
use axiom_os.Base.Bytes.{to_be, from_be}
use axiom_os.Ztdf.{DriverSpec, DriverOp, mmio_read, mmio_write, handle_irq, syscall}

pub data EtherType : Type 0 where
  ipv4 : EtherType
  arp : EtherType
  ipv6 : EtherType
  other : ℕ → EtherType

unfoldable pub ethertype_from_u16 : ℕ → EtherType
ethertype_from_u16 v =
    if v == 0x0800 then ipv4 else if v == 0x0806 then arp else if v == 0x86dd then ipv6 else other v

-- `u16::from_be_bytes([bytes[i], bytes[i + 1]])`
unfoldable pub be16 : List ℕ → ℕ → ℕ
be16 bytes i = from_be (get_or bytes i 0 ∷ get_or bytes (i + 1) 0 ∷ [])

pub record EtherFrame : Type 0 where
  pub dst : List ℕ
  pub src : List ℕ
  pub ethertype : EtherType

unfoldable pub parse_ether : List ℕ → Option (EtherFrame × List ℕ)
unfolding be16 ethertype_from_u16
parse_ether bytes =
    if ltb (length bytes) 14
    then none
    else some (
      record {
        dst = slice bytes 0 6;
        src = slice bytes 6 6;
        ethertype = ethertype_from_u16 (be16 bytes 12);
      },
      drop 14 bytes,
    )

unfoldable pub ethertype_to_u16 : EtherType → ℕ
ethertype_to_u16 ipv4 = 0x0800
ethertype_to_u16 arp = 0x0806
ethertype_to_u16 ipv6 = 0x86dd
ethertype_to_u16 (other v) = v

unfoldable pub serialize_ether : EtherFrame → List ℕ → List ℕ
unfolding ethertype_to_u16
serialize_ether f dst_buf =
    let b1 = overwrite dst_buf 0 f.dst in
    let b2 = overwrite b1 6 f.src in overwrite b2 12 (to_be 2 (ethertype_to_u16 f.ethertype))

pub data IpProto : Type 0 where
  icmp : IpProto
  tcp : IpProto
  udp : IpProto
  other_proto : ℕ → IpProto

unfoldable pub proto_from_u8 : ℕ → IpProto
proto_from_u8 v =
    if v == 1 then icmp else if v == 6 then tcp else if v == 17 then udp else other_proto v

pub record Ipv4Header : Type 0 where
  pub version_ihl : ℕ
  pub dscp_ecn : ℕ
  pub total_len : ℕ
  pub id : ℕ
  pub flags_frag : ℕ
  pub ttl : ℕ
  pub protocol : IpProto
  pub checksum : ℕ
  pub src : List ℕ
  pub dst : List ℕ

unfoldable pub parse_ipv4 : List ℕ → Option (Ipv4Header × List ℕ)
unfolding be16 proto_from_u8
parse_ipv4 bytes =
    let ihl = bit_and (get_or bytes 0 0) 0xf * 4 in
    if ltb (length bytes) 20
    then none
    else if ltb (length bytes) ihl
    then none
    else some (
      record {
        version_ihl = get_or bytes 0 0;
        dscp_ecn = get_or bytes 1 0;
        total_len = be16 bytes 2;
        id = be16 bytes 4;
        flags_frag = be16 bytes 6;
        ttl = get_or bytes 8 0;
        protocol = proto_from_u8 (get_or bytes 9 0);
        checksum = be16 bytes 10;
        src = slice bytes 12 4;
        dst = slice bytes 16 4;
      },
      drop ihl bytes,
    )

pub record UdpHeader : Type 0 where
  pub src_port : ℕ
  pub dst_port : ℕ
  pub len : ℕ
  pub checksum : ℕ

unfoldable pub parse_udp : List ℕ → Option (UdpHeader × List ℕ)
unfolding be16
parse_udp bytes =
    if ltb (length bytes) 8
    then none
    else some (
      record {
        src_port = be16 bytes 0;
        dst_port = be16 bytes 2;
        len = be16 bytes 4;
        checksum = be16 bytes 6;
      },
      drop 8 bytes,
    )

-- The descriptions that `process_frame` returns.
pub data Processed : Type 0 where
  invalid_frame : Processed
  arp_frame : Processed
  invalid_ipv4 : Processed
  invalid_udp : Processed
  udp_datagram : Processed
  icmp_packet : Processed
  tcp_not_supported : Processed
  unknown_ip_proto : Processed
  unknown_ethertype : Processed

unfoldable pub process_udp : List ℕ → Processed
process_udp bytes = elim (parse_udp bytes) [ none ↦ invalid_udp | some r ↦ udp_datagram ]

unfoldable pub process_ipv4 : List ℕ → Processed
unfolding process_udp
process_ipv4 bytes = elim (parse_ipv4 bytes) [
  | none ↦ invalid_ipv4
  | some r ↦ elim (r.0.protocol) [
    | udp ↦ process_udp r.1
    | icmp ↦ icmp_packet
    | tcp ↦ tcp_not_supported
    | other_proto v ↦ unknown_ip_proto
  ]
]

unfoldable pub process_frame : List ℕ → Processed
unfolding process_ipv4
process_frame bytes = elim (parse_ether bytes) [
  | none ↦ invalid_frame
  | some r ↦ elim (r.0.ethertype) [
    | arp ↦ arp_frame
    | ipv4 ↦ process_ipv4 r.1
    | _ ↦ unknown_ethertype
  ]
]

-- The frame that `transmit_eipc_udp` builds.
unfoldable pub transmit_eipc_udp : List ℕ → List ℕ → ℕ → ℕ → List ℕ → List ℕ
transmit_eipc_udp src_ip dst_ip src_port dst_port payload =
    let f0 = replicate (42 + length payload) 0 in
    let f1 = overwrite f0 0 (replicate 6 0xff) in
    let f2 = overwrite f1 6 (0x52 ∷ 0x54 ∷ 0x00 ∷ 0x12 ∷ 0x34 ∷ 0x56 ∷ []) in
    let f3 = overwrite f2 12 (to_be 2 0x0800) in
    let f4 = set f3 14 0x45 in
    let f5 = overwrite f4 16 (to_be 2 (u16 (28 + length payload))) in
    let f6 = set f5 22 64 in
    let f7 = set f6 23 17 in
    let f8 = overwrite f7 26 src_ip in
    let f9 = overwrite f8 30 dst_ip in
    let f10 = overwrite f9 34 (to_be 2 src_port) in
    let f11 = overwrite f10 36 (to_be 2 dst_port) in
    let f12 = overwrite f11 38 (to_be 2 (u16 (8 + length payload))) in overwrite f12 42 payload

-- `virtio_net_driver_spec`
unfoldable pub virtio_net_driver_spec : DriverSpec
virtio_net_driver_spec = record {
  driver_id = 10;
  name =
      overwrite (replicate 16 0) 0
        (0x76 ∷ 0x69 ∷ 0x72 ∷ 0x74 ∷ 0x69 ∷ 0x6f ∷ 0x2d ∷ 0x6e ∷ 0x65 ∷ 0x74 ∷ 0x30 ∷ []);
  mmio = some (record { start = 0xfebc0000; len = 0x1000 }) ∷ none ∷ none ∷ none ∷ [];
  allowed_irqs = some 11 ∷ none ∷ none ∷ none ∷ [];
  allowed_syscalls = some 1 ∷ some 2 ∷ some 12 ∷ some 13 ∷ replicate 4 none;
  op_budget = 0;
}

-- The operations of `register_nic_with_ztdf`.
abbrev pub init_ops : List DriverOp
init_ops =
    mmio_read 0xfebc0000
    ∷ mmio_read 0xfebc0004
    ∷ mmio_write 0xfebc0014
    ∷ handle_irq 11
    ∷ syscall 1
    ∷ []
