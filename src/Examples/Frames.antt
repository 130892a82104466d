-- ===== src/Examples/Frames.antt =====
-- EthernetApplicationLayer.cpp in the small network: the master's host asks for the first slave's, and
-- sends to it.
use sparkle.Prelude.{◌+◌, ◌*◌, ◌≡◌, ◌⊎◌, refl, true, [], ◌∷◌, arith}
use sparkle.Prelude.Bytes.{Bytes}
use sparkle.Address.{is_null}
use sparkle.Wire.RoundTrip.{mac}
use sparkle.World.{Ref, ipv4, done, send_tap_packet}
use sparkle.Link.Routes.{find_prefix}
use sparkle.Ethernet.{Ethernet, handle_arp, handle_data_packet, arp_reply, is_arp_of}
use sparkle.Ethernet.Arp.{Answers, handle_arp-Answers}
use sparkle.Ethernet.Receive.{IsHonest, handle_data_packet-IsHonest}
use sparkle.Examples.{environment, joined, self, mac_of, joined-Live}

abbrev layer_of : Ref → Ethernet
layer_of r = record { has_tap = true; self_mac = mac_of r; self_ipv4 = ipv4 (0x0e020000 + r * 256) }

-- Who has 14.2.2.0?
abbrev question : Bytes
question =
    255 ∷ 255 ∷ 255 ∷ 255 ∷ 255 ∷ 255 ∷ 2 ∷ 1 ∷ 0 ∷ 0 ∷ 0 ∷ 1 ∷ 8 ∷ 6 ∷ 0 ∷ 1 ∷ 8 ∷ 0 ∷ 6 ∷ 4 ∷ 0
    ∷ 1 ∷ 2 ∷ 1 ∷ 0 ∷ 0 ∷ 0 ∷ 1 ∷ 14 ∷ 2 ∷ 1 ∷ 0 ∷ 0 ∷ 0 ∷ 0 ∷ 0 ∷ 0 ∷ 0 ∷ 14 ∷ 2 ∷ 2 ∷ 0 ∷ []

handle_arp-Answers_example :
    (handle_arp environment (layer_of 1) question joined
      ≡ done tt (record joined {
        events = send_tap_packet (arp_reply (layer_of 1) (mac 2 1 0 0 0 1) (mac 2 2 0 0 0 2)) ∷ [];
      }))
    × Answers question
        (arp_reply (layer_of 1) (mac 2 1 0 0 0 1) (mac 2 2 0 0 0 2))
        (mac 2 1 0 0 0 1)
        (mac 2 2 0 0 0 2)
unfolding is_arp_of find_prefix is_null
handle_arp-Answers_example =
    handle_arp-Answers environment (layer_of 1) question joined 1 self 2 1 0 0 0 1 2 2 0 0 0 2
      (omega arith) joined-Live refl refl refl (omega arith) refl refl refl refl refl refl

-- A packet from 14.2.1.0 to 14.2.2.0.
abbrev datagram : Bytes
datagram =
    2 ∷ 2 ∷ 0 ∷ 0 ∷ 0 ∷ 2 ∷ 2 ∷ 1 ∷ 0 ∷ 0 ∷ 0 ∷ 1 ∷ 8 ∷ 0 ∷ 69 ∷ 0 ∷ 0 ∷ 21 ∷ 0 ∷ 0 ∷ 0 ∷ 0 ∷ 64
    ∷ 17 ∷ 0 ∷ 0 ∷ 14 ∷ 2 ∷ 1 ∷ 0 ∷ 14 ∷ 2 ∷ 2 ∷ 0 ∷ 7 ∷ []

handle_data_packet-IsHonest_example :
    (IsHonest (layer_of 2) datagram (mac_of 1)
      × (handle_data_packet (layer_of 2) datagram (mac_of 1) joined
          ≡ done tt (record joined { events = send_tap_packet datagram ∷ [] })))
    ⊎ ((IsHonest (layer_of 2) datagram (mac_of 1) → ⊥)
        × (handle_data_packet (layer_of 2) datagram (mac_of 1) joined ≡ done tt joined))
handle_data_packet-IsHonest_example =
    handle_data_packet-IsHonest (layer_of 2) datagram (mac_of 1) joined
