-- ===== src/Examples/Hosts.antt =====
-- A packet of IPv4 from the master's host to the first slave's, under Blowfish.
use sparkle.Prelude.{
  ◌+◌, ◌*◌, ◌^◌, ◌<◌, ◌≡◌, refl, inl, inr, [], ◌∷◌, ◌++◌, some, true, arith, length, ◌==◌,
  if◌then◌else◌,
}
use sparkle.Prelude.Bytes.{Bytes}
use sparkle.Address.{is_null}
use sparkle.Wire
use sparkle.Wire.{frame, encrypted_packet, data_packet_t}
use sparkle.World.{Ref, SparkleNode, World, ipv4, done, datagram, deliver, send_tap_packet}
use sparkle.Router
use sparkle.Node.{phantom_ip, phantom_port}
use sparkle.Link.Send.{wrap_node, spool_find, stands_for}
use sparkle.Link.Dispatch.{handle_packet}
use sparkle.Blowfish.Key.{encrypt, set_bytes}
use sparkle.Blowfish.Key.RoundTrip.{decrypt-encrypt}
use sparkle.Ethernet.{Ethernet, have_tap_packet, handle_data_packet, make_ipv4_address}
use sparkle.Ethernet.Carried.{IsBetween, Alone, have_tap_packet-carried}
use sparkle.Examples.{environment, joined, self, keyed, unkeyed, master, heap, mac_of, zeroes}

abbrev layer_of : Ref → Ethernet
layer_of r = record { has_tap = true; self_mac = mac_of r; self_ipv4 = ipv4 (0x0e020000 + r * 256) }

-- From 14.2.1.0 to 14.2.2.0.
abbrev greeting : Bytes
greeting =
    2 ∷ 2 ∷ 0 ∷ 0 ∷ 0 ∷ 2 ∷ 2 ∷ 1 ∷ 0 ∷ 0 ∷ 0 ∷ 1 ∷ 8 ∷ 0 ∷ 69 ∷ 0 ∷ 0 ∷ 21 ∷ 0 ∷ 0 ∷ 0 ∷ 0 ∷ 64
    ∷ 17 ∷ 0 ∷ 0 ∷ 14 ∷ 2 ∷ 1 ∷ 0 ∷ 14 ∷ 2 ∷ 2 ∷ 0 ∷ 7 ∷ []

greeting-IsBetween : IsBetween (mac_of 1) (mac_of 2) greeting
greeting-IsBetween = record {
  long = omega arith;
  receiver = refl;
  sender = refl;
  kind = refl;
  source = refl;
  destination = refl;
}

-- The network as the first slave sees it, with the Ethernet layer attached.
abbrev keyed_master : SparkleNode
keyed_master = record self { keys_negotiated = true }

abbrev other_side : World
other_side = record joined {
  heap = λ r. if r == 1 then some keyed_master else heap r;
  router = record joined.router { self = some 2 };
  link = record joined.link { node_spool = 1 ∷ 3 ∷ 4 ∷ []; app_layers = 1 ∷ [] };
}

known : wrap_node environment (ipv4 1) 1801 other_side ≡ done 1 other_side
unfolding wrap_node spool_find stands_for phantom_ip phantom_port
known = refl

found : Router.find_sparkle_node (mac_of 2) joined ≡ done (some 2) joined
unfolding Router.find_sparkle_node Router.find_first
found = refl

alone : Alone (mac_of 2) joined (1 ∷ 2 ∷ 3 ∷ 4 ∷ [])
alone = (
  (self, refl, inr refl),
  ((keyed, refl, inl refl), ((unkeyed, refl, inr refl), ((master, refl, inr refl), tt))),
)

abbrev packet : Bytes
packet = frame Wire.data_packet (data_packet_t 1 ++ greeting)

abbrev sealed : Bytes
sealed = encrypt zeroes (set_bytes (1 ∷ 7 ∷ [])) packet

sealed_short : length sealed + 4 < 2 ^ 16
unfolding frame
sealed_short = omega (
  arith,
  decrypt-encrypt zeroes zeroes (λ i. omega arith) (1 ∷ 7 ∷ []) packet (omega arith) (omega arith),
)

have_tap_packet-carried_example :
    let taken = record other_side { events = deliver 1 greeting (mac_of 1) ∷ [] } in
    (have_tap_packet environment (layer_of 1) greeting joined
      ≡ done tt (record joined {
        events =
            datagram (frame encrypted_packet sealed) (phantom_ip keyed) (phantom_port keyed) ∷ [];
      }))
    × (handle_packet environment (frame encrypted_packet sealed) (ipv4 1) 1801 other_side
        ≡ done tt taken)
    × (handle_data_packet (layer_of 2) greeting (mac_of 1) taken
        ≡ done tt (record taken { events = taken.events ++ send_tap_packet greeting ∷ [] }))
unfolding make_ipv4_address is_null
have_tap_packet-carried_example =
    have_tap_packet-carried environment environment (layer_of 1) (layer_of 2) joined other_side 2 1
      keyed keyed_master greeting (ipv4 1) 1801 greeting-IsBetween refl refl refl refl alone found
      refl refl refl refl known refl refl refl refl refl (omega arith) (omega arith) (omega arith)
      sealed_short
