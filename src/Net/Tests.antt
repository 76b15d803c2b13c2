-- ===== src/Net/Tests.antt =====
-- The network card's initialisation, and the theorems at small frames.
use axiom_os.Base.{length, replicate, ℕ, ◌≡◌, refl, some, List, [], ◌∷◌, arith}
use axiom_os.Ztdf.{
  ok, new, run, step, done, mmio_allowed, irq_allowed, syscall_allowed, any_present, contains,
}
use axiom_os.Net.{
  ipv4, ethertype_from_u16, ethertype_to_u16, EtherFrame, parse_ether, Ipv4Header, udp, parse_ipv4,
  parse_udp, transmit_eipc_udp, virtio_net_driver_spec, init_ops,
}
use axiom_os.Net.Frame.{IsTyped}
use axiom_os.Net.Datagram.{transmit-parses}

-- Every operation of the card's initialisation is within its own specification.
init_accepted :
    run (new virtio_net_driver_spec) init_ops
    ≡ (ok, record { spec = virtio_net_driver_spec; ops_done = 5 })
unfolding run new step done mmio_allowed irq_allowed syscall_allowed any_present contains
    virtio_net_driver_spec
init_accepted = refl

abbrev broadcast : EtherFrame
broadcast = record {
  dst = replicate 6 0xff;
  src = 0x52 ∷ 0x54 ∷ 0 ∷ 0x12 ∷ 0x34 ∷ 0x56 ∷ [];
  ethertype = ipv4;
}

broadcast-IsTyped : IsTyped broadcast
unfolding ethertype_to_u16 ethertype_from_u16
broadcast-IsTyped = record {
  dst_length = refl;
  src_length = refl;
  type_range = omega arith;
  type_named = refl;
}

transmit-parses_example :
    (e : EtherFrame) × (packet : List ℕ) × (ip : Ipv4Header) × (segment : List ℕ) × (parse_ether (
        transmit_eipc_udp
          (10 ∷ 0 ∷ 2 ∷ 15 ∷ [])
          (10 ∷ 0 ∷ 2 ∷ 2 ∷ [])
          49152
          5000
          (0x48 ∷ 0x70 ∷ []))
      ≡ some (e, packet))
    × (e.ethertype ≡ ipv4)
    × (parse_ipv4 packet ≡ some (ip, segment))
    × (ip.protocol ≡ udp)
    × (ip.src ≡ 10 ∷ 0 ∷ 2 ∷ 15 ∷ [])
    × (ip.dst ≡ 10 ∷ 0 ∷ 2 ∷ 2 ∷ [])
    × (ip.total_len ≡ length packet)
    × (parse_udp segment
        ≡ some (
          record { src_port = 49152; dst_port = 5000; len = length segment; checksum = 0 },
          0x48 ∷ 0x70 ∷ [],
        ))
transmit-parses_example =
    transmit-parses 10 0 2 15 10 0 2 2 49152 5000 (0x48 ∷ 0x70 ∷ []) (omega arith) (omega arith)
      (omega arith)
