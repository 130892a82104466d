-- ===== src/Ethernet.antt =====
-- sparkgap/EthernetApplicationLayer.cpp: Ethernet frames between the TAP interface and the network.
pub mod Receive
pub mod Arp
pub mod Carried
use sparkle.Prelude.{
  ℕ, zero, suc, ◌+◌, ◌*◌, ◌/◌, ◌%◌, ◌^◌, Bool, true, false, not, ◌&&◌, List, [], ◌∷◌, ◌++◌, Option,
  none, some, length, take, drop, ◌==◌, ltb, if◌then◌else◌,
}
use sparkle.Prelude.Bytes.{Bytes, byte_at, bytes_eq, word16_at, word32_at, be16, be32, memory_from}
use sparkle.Address.{SparkleAddress, is_null}
use sparkle.World.{
  Ref, HostAddress, null_host, ipv4, to_ipv4, SparkleNode, World, Environment, M, done, pure, ◌>>=◌,
  ◌>>◌, skip, get, emit, deref, not_null, when, setup_interface, send_tap_packet,
}
use sparkle.Router
use sparkle.Link.Peers.{find_partial_route, send_data_packet}

-- EthernetApplicationLayer. `has_tap` says whether there is an interface.
pub record Ethernet : Type 0 where
  pub has_tap : Bool
  pub self_mac : SparkleAddress
  pub self_ipv4 : HostAddress

-- ApplicationLayer::Ethernet
abbrev pub encapsulation : ℕ
encapsulation = 1

-- 14.x.y.z, from the first three bytes of the address.
unfoldable pub make_ipv4_address : SparkleAddress → HostAddress
make_ipv4_address mac = ipv4 (word32_at (14 ∷ take 3 mac.bytes) 0)

unfoldable pub initialize : Ethernet → Ref → M Ethernet
initialize e r = do
  n ← deref r
  let e' : Ethernet = record e {
    self_mac = n.sparkle_mac;
    self_ipv4 = make_ipv4_address n.sparkle_mac;
  }
  when e'.has_tap (emit (setup_interface e'.self_mac e'.self_ipv4))
  pure e'

-- ethernet_header_t: six bytes at an offset.
abbrev pub six_at : Bytes → ℕ → Bytes
six_at xs i = take 6 (drop i xs)

-- ipv4_header_t::src and dest, behind a header of 14 bytes.
abbrev pub ip_source : Bytes → ℕ
ip_source frame = word32_at frame 26

abbrev pub ip_destination : Bytes → ℕ
ip_destination frame = word32_at frame 30

-- The tests of a frame from the network, in their order.
unfoldable pub is_acceptable : Ethernet → Bytes → SparkleAddress → Bool
is_acceptable e packet mac =
    ltb 34 (length packet)
    && (bytes_eq (six_at packet 6) mac.bytes
        && (bytes_eq (six_at packet 0) e.self_mac.bytes
            && ((word16_at packet 12 == 0x0800)
                && ((ip_source packet == to_ipv4 (make_ipv4_address mac))
                    && (ip_destination packet == to_ipv4 e.self_ipv4)))))

unfoldable pub handle_data_packet : Ethernet → Bytes → SparkleAddress → M (Unit {0})
handle_data_packet e packet mac = when (is_acceptable e packet mac) (emit (send_tap_packet packet))

-- A frame with an arp_packet_t, from the node with the address `mac` to this one.
unfoldable pub arp_reply : Ethernet → SparkleAddress → SparkleAddress → Bytes
arp_reply e self mac =
    self.bytes
    ++ (mac.bytes
        ++ (be16 0x0806
            ++ (be16 1
                ++ (be16 0x0800
                    ++ (6 ∷ 4 ∷ be16 2
                        ++ (mac.bytes
                            ++ (be32 (to_ipv4 (make_ipv4_address mac))
                                ++ (self.bytes ++ be32 (to_ipv4 e.self_ipv4)))))))))

unfoldable pub send_arp_reply : Ethernet → SparkleAddress → M (Unit {0})
send_arp_reply e mac = do
  w ← get
  s ← not_null w.router.self
  self ← deref s
  emit (send_tap_packet (arp_reply e self.sparkle_mac mac))

-- An Ethernet and IPv4 request of this host; the arp_packet_t stands at 14.
unfoldable pub is_arp_of : Ethernet → Bytes → Bool
is_arp_of e frame =
    (word16_at frame 14 == 1)
    && ((word16_at frame 16 == 0x0800)
        && ((byte_at frame 18 == 6)
            && ((byte_at frame 19 == 4)
                && ((word32_at frame 28 == to_ipv4 e.self_ipv4)
                    && bytes_eq (six_at frame 22) (six_at frame 6)))))

-- 255, six times
abbrev pub broadcast : Bytes
broadcast = 255 ∷ 255 ∷ 255 ∷ 255 ∷ 255 ∷ 255 ∷ []

module _ (env : Environment) where
  -- The answer to the host's question who has `tpa`.
  unfoldable pub handle_arp : Ethernet → Bytes → M (Unit {0})
  handle_arp e frame =
      if not (bytes_eq (six_at frame 0) broadcast)
      then skip
      else if not (is_arp_of e frame)
      then skip
      else if not (word16_at frame 20 == 1)
      then skip
      else (do
        route ← find_partial_route env (take 3 (drop 39 frame))
        if is_null route then skip else send_arp_reply e route)

  unfoldable pub handle_ipv4 : Ethernet → Bytes → Bytes → M (Unit {0})
  handle_ipv4 e packet frame = if not (ip_source frame == to_ipv4 e.self_ipv4) then skip else (do
    route ← find_partial_route env (take 3 (drop 31 frame))
    if is_null route then skip else send_data_packet env route encapsulation packet)

  -- The headers of a short packet are read on past its end, where `memory` stands.
  unfoldable pub have_tap_packet : Ethernet → Bytes → M (Unit {0})
  have_tap_packet e packet =
      let frame = packet ++ memory_from env.memory 0 42 in
      if not (bytes_eq (six_at frame 6) e.self_mac.bytes)
      then skip
      else if word16_at frame 12 == 0x0806
      then handle_arp e frame
      else if word16_at frame 12 == 0x0800
      then handle_ipv4 e packet frame
      else skip
