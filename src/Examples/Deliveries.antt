-- ===== src/Examples/Deliveries.antt =====
-- LinkLayer.cpp: data from one node of the small network to another, under Blowfish.
use sparkle.Prelude.{◌+◌, ◌^◌, ◌<◌, ◌≡◌, refl, [], ◌∷◌, some, arith, length}
use sparkle.Prelude.Bytes.{Bytes, IsBytes}
use sparkle.Address.{is_null}
use sparkle.Wire
use sparkle.Wire.{frame, encrypted_packet, data_packet_t}
use sparkle.World.{ipv4, done, datagram, deliver, ◌>>=◌}
use sparkle.Router
use sparkle.Node.{phantom_ip, phantom_port}
use sparkle.Link.Send.{wrap_node, spool_find, stands_for}
use sparkle.Link.Peers.{send_data_packet}
use sparkle.Link.Dispatch.{handle_packet, handler}
use sparkle.Link.Dispatch.Delivery.{send_data_packet-delivered}
use sparkle.Link.Dispatch.Sealed.{handle_packet-encrypted}
use sparkle.Blowfish.Key.{encrypt, set_bytes}
use sparkle.Blowfish.Key.RoundTrip.{decrypt-encrypt}
use sparkle.Examples.{environment, joined, keyed, mac_of, zeroes}

abbrev key : Bytes
key = 1 ∷ 7 ∷ []

sealed_length :
    (xs : Bytes) → IsBytes xs → length (encrypt zeroes (set_bytes key) xs) < length xs + 8
sealed_length xs h =
    omega (arith, decrypt-encrypt zeroes zeroes (λ i. omega arith) key xs (omega arith) h)

abbrev packet : Bytes
packet = frame Wire.data_packet (0 ∷ 6 ∷ 42 ∷ 43 ∷ [])

known : wrap_node environment (ipv4 2) 1801 joined ≡ done 2 joined
unfolding wrap_node spool_find stands_for phantom_ip phantom_port
known = refl

found : Router.find_sparkle_node (mac_of 2) joined ≡ done (some 2) joined
unfolding Router.find_sparkle_node Router.find_first
found = refl

short : length (encrypt zeroes (set_bytes key) packet) + 4 < 2 ^ 16
unfolding frame
short = omega (arith, sealed_length packet (omega arith))

handle_packet-encrypted_example :
    handle_packet environment
      (frame encrypted_packet (encrypt zeroes (set_bytes key) packet))
      (ipv4 2)
      1801
      joined
    ≡ (wrap_node environment (ipv4 2) 1801
          >>= handler environment Wire.data_packet (0 ∷ 6 ∷ 42 ∷ 43 ∷ []))
        joined
handle_packet-encrypted_example =
    handle_packet-encrypted environment Wire.data_packet (0 ∷ 6 ∷ 42 ∷ 43 ∷ []) (ipv4 2) 1801 joined
      joined 2 keyed known refl refl (omega arith) (omega arith) (omega arith) short refl

send_data_packet-delivered_example :
    (send_data_packet environment (mac_of 2) 6 (42 ∷ 43 ∷ []) joined
      ≡ done tt (record joined {
        events =
            datagram
              (frame encrypted_packet (encrypt zeroes (set_bytes key) packet))
              (phantom_ip keyed)
              (phantom_port keyed)
            ∷ [];
      }))
    × (handle_packet environment
          (frame encrypted_packet (encrypt zeroes (set_bytes key) packet))
          (ipv4 2)
          1801
          joined
        ≡ done tt (record joined { events = deliver 6 (42 ∷ 43 ∷ []) (mac_of 2) ∷ [] }))
unfolding is_null
send_data_packet-delivered_example =
    send_data_packet-delivered environment environment joined joined 2 2 keyed keyed (mac_of 2) 6
      (42 ∷ 43 ∷ []) (ipv4 2) 1801 refl found refl refl refl refl known refl refl refl (omega arith)
      (omega arith) (omega arith) (omega arith) (omega arith) short
