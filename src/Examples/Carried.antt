-- ===== src/Examples/Carried.antt =====
-- A control packet from a host of the small network to another, under Blowfish.
use sparkle.Prelude.{◌+◌, ◌^◌, ◌<◌, ◌≡◌, refl, [], ◌∷◌, ◌++◌, some, arith, length}
use sparkle.Prelude.Bytes.{Bytes}
use sparkle.Address.{is_null}
use sparkle.DataStream.Qt.{qt_stream, qt_stream-IsDataStream, put_units, put_string, put_date_time}
use sparkle.Wire
use sparkle.Wire.{frame, encrypted_packet, data_packet_t}
use sparkle.World.{World, ipv4, done, datagram, deliver}
use sparkle.Router
use sparkle.Node.{phantom_ip, phantom_port}
use sparkle.Link.Send.{wrap_node, spool_find, stands_for}
use sparkle.Link.Dispatch.{handle_packet}
use sparkle.Blowfish.Key.{encrypt, set_bytes}
use sparkle.Blowfish.Key.RoundTrip.{decrypt-encrypt}
use sparkle.Messaging.Control.{
  ControlPacket, message, IsControl, marshall, marshall_header, marshall_content,
}
use sparkle.Messaging.Layer.{new_messenger, little, control_packet, message_packet_of}
use sparkle.Messaging.Layer.Queue.{send_control_packet}
use sparkle.Messaging.Delivery.Packets.{accepted}
use sparkle.Messaging.Carried.{messaging, perform, take_delivery, send_control_packet-carried}
use sparkle.Examples.{environment, joined, keyed, mac_of, zeroes}

abbrev key : Bytes
key = 1 ∷ 7 ∷ []

-- "Hi"
abbrev greeting : ControlPacket
greeting = record {
  id = 77;
  peer = mac_of 2;
  content = message (record { date = 2455200; time = 43200000; spec = 1 }) (some (72 ∷ 105 ∷ []));
}

abbrev message_bytes : Bytes
message_bytes = message_packet_of little control_packet (marshall qt_stream greeting)

-- The same packet, written out.
abbrev written : Bytes
written =
    3 ∷ 0 ∷ 0 ∷ 0 ∷ 0 ∷ 2 ∷ 0 ∷ 0 ∷ 0 ∷ 77 ∷ 0 ∷ 37 ∷ 118 ∷ 160 ∷ 2 ∷ 147 ∷ 46 ∷ 0 ∷ 1 ∷ 0 ∷ 0 ∷ 0
    ∷ 4 ∷ 0 ∷ 72 ∷ 0 ∷ 105 ∷ []

message_bytes-written : message_bytes ≡ written
unfolding message_packet_of marshall marshall_header marshall_content qt_stream put_units put_string
    put_date_time
message_bytes-written = refl

abbrev attached : World
attached = record joined { link = record joined.link { app_layers = messaging ∷ [] } }

known : wrap_node environment (ipv4 2) 1801 attached ≡ done 2 attached
unfolding wrap_node spool_find stands_for phantom_ip phantom_port
known = refl

found : Router.find_sparkle_node (mac_of 2) joined ≡ done (some 2) joined
unfolding Router.find_sparkle_node Router.find_first
found = refl

written_packet : Bytes
written_packet = frame Wire.data_packet (data_packet_t messaging ++ written)

written_packet_short : length (encrypt zeroes (set_bytes key) written_packet) + 4 < 2 ^ 16
unfolding written_packet frame
written_packet_short = omega (
  arith,
  decrypt-encrypt zeroes zeroes (λ i. omega arith) key written_packet (omega arith) (omega arith),
)

abbrev sealed : Bytes
sealed =
    encrypt zeroes (set_bytes key)
      (frame Wire.data_packet (data_packet_t messaging ++ message_bytes))

sealed_short : length sealed + 4 < 2 ^ 16
unfolding written_packet
sealed_short = rw (message_bytes-written) written_packet_short

greeting-IsControl : IsControl greeting
greeting-IsControl = (omega arith, (omega arith, omega arith))

send_control_packet-carried_example :
    let delivery = deliver messaging message_bytes (mac_of 2) in
    let idle = new_messenger [] in
    (perform environment (send_control_packet qt_stream little greeting idle).1 joined
      ≡ done tt (record joined {
        events =
            datagram (frame encrypted_packet sealed) (phantom_ip keyed) (phantom_port keyed) ∷ [];
      }))
    × (handle_packet environment (frame encrypted_packet sealed) (ipv4 2) 1801 attached
        ≡ done tt (record attached { events = delivery ∷ [] }))
    × (take_delivery qt_stream little delivery idle
        ≡ some (accepted qt_stream little qt_stream-IsDataStream greeting (mac_of 2) idle))
unfolding is_null
send_control_packet-carried_example =
    send_control_packet-carried qt_stream little qt_stream-IsDataStream environment environment
      joined attached 2 2 keyed keyed greeting (new_messenger []) (new_messenger []) (ipv4 2) 1801
      greeting-IsControl refl found refl refl refl refl known refl refl refl (omega arith) refl
      (rw (message_bytes-written) (omega arith)) sealed_short
