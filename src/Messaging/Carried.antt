-- ===== src/Messaging/Carried.antt =====
-- The messenger on top of the link layer: its packets are carried by LinkLayer::sendDataPacket under the
-- encapsulation Messaging, and what the link layer delivers under it is given to handleDataPacket.
use sparkle.Prelude.{
  ℕ, ◌+◌, ◌^◌, ◌<◌, ◌≡◌, refl, ◌∙◌, true, false, List, [], ◌∷◌, ◌++◌, Option, some, length,
  All-append, arith, ◌==◌, if◌then◌else◌,
}
use sparkle.Prelude.Bytes.{Bytes, IsByte, IsBytes}
use sparkle.Address.{is_null}
use sparkle.DataStream.{DataStream, IsDataStream}
use sparkle.Wire
use sparkle.Wire.{frame, encrypted_packet, data_packet_t}
use sparkle.World.{
  Ref, HostAddress, SparkleNode, World, Environment, Event, M, datagram, deliver, done, skip, ◌>>◌,
}
use sparkle.Router
use sparkle.Router.{is_self}
use sparkle.Node.{phantom_ip, phantom_port}
use sparkle.Link.Send.{wrap_node}
use sparkle.Link.Peers.{send_data_packet, has_encapsulation}
use sparkle.Link.Dispatch.{handle_packet}
use sparkle.Link.Dispatch.Delivery.{send_data_packet-delivered}
use sparkle.Messaging.Control.{
  ControlPacket, Content, authorization, message, IsControl, IsContent, content_type, control_code,
  marshall, marshall_header, marshall_content,
}
use sparkle.Messaging.Layer.{
  Output, data_packet_sent, Messenger, Reaction, ByteOrder, little, big, host16, message_code,
  MessageType, control_packet, message_packet_of, send_packet,
}
use sparkle.Messaging.Layer.Queue.{send_control, send_control_packet}
use sparkle.Messaging.Layer.Receive.{handle_data_packet}
use sparkle.Messaging.Delivery.Packets.{accepted, control_arrives}

-- ApplicationLayer::Messaging
abbrev pub messaging : ℕ
messaging = 2

-- The calls of sendDataPacket that a reaction makes.
unfoldable pub perform : Environment → List Output → M (Unit {0})
perform env [] = skip
perform env (data_packet_sent to packet ∷ outs) = do
  send_data_packet env to messaging packet
  perform env outs
perform env (_ ∷ outs) = perform env outs

-- What the link layer delivers to the messenger.
unfoldable pub take_delivery : DataStream → ByteOrder → Event → Messenger → Option Reaction
take_delivery s order (deliver encap xs a) m =
    if encap == messaging then handle_data_packet s order xs a m else some (m, [])
take_delivery s order _ m = some (m, [])

message_packet_of_nonempty :
    (order : ByteOrder) (t : MessageType) (xs : Bytes) → 0 < length (message_packet_of order t xs)
unfolding message_packet_of
message_packet_of_nonempty little t xs = omega arith
message_packet_of_nonempty big t xs = omega arith

host16-IsBytes : (order : ByteOrder) (n : ℕ) → IsBytes (host16 order n)
host16-IsBytes little n = omega arith
host16-IsBytes big n = omega arith

message_packet_of-IsBytes :
    (order : ByteOrder) (t : MessageType) (xs : Bytes)
    → IsBytes xs
    → IsBytes (message_packet_of order t xs)
unfolding message_packet_of
message_packet_of-IsBytes order t xs h =
    All-append IsByte (host16 order (message_code t)) (host16 order 0 ++ xs)
      (host16-IsBytes order _) (All-append IsByte (host16 order 0) xs (host16-IsBytes order 0) h)

marshall_content-IsBytes :
    (s : DataStream) → IsDataStream s → (c : Content) → IsContent c → IsBytes (marshall_content s c)
unfolding marshall_content
marshall_content-IsBytes s laws (authorization nick reason) h =
    All-append IsByte (s.put_text nick) (s.put_text reason) (laws.text_bytes nick h.0)
      (laws.text_bytes reason h.1)
marshall_content-IsBytes s laws (message timestamp text) h =
    All-append IsByte (s.put_time timestamp) (s.put_text text) (laws.time_bytes timestamp h.0)
      (laws.text_bytes text h.1)

marshall-IsBytes :
    (s : DataStream) → IsDataStream s → (p : ControlPacket) → IsControl p → IsBytes (marshall s p)
unfolding marshall marshall_header
marshall-IsBytes s laws p h =
    let type = s.put_u16 (control_code (content_type p.content)) in
    All-append IsByte (type ++ s.put_u32 p.id) (marshall_content s p.content)
      (All-append IsByte type (s.put_u32 p.id) (laws.u16_bytes _) (laws.u32_bytes p.id))
      (marshall_content-IsBytes s laws p.content h.1)

module _ (s : DataStream) (order : ByteOrder) (laws : IsDataStream s) (env env' : Environment)
    (w v : World) (r q : Ref) (n m : SparkleNode) (p : ControlPacket) where
  -- A control packet for a peer whose node is known, and has the session key, goes out in one
  -- datagram; the link layer of a host that knows the sender by that key takes it, and has its
  -- messenger put the packet into its input queue, as it was sent and from the sender's address, and
  -- bounce it.
  pub send_control_packet-carried :
      (here there : Messenger) (host : HostAddress) (port : ℕ)
      → let xs = message_packet_of order control_packet (marshall s p) in
        let sealed =
          env.cipher.encrypt n.my_session_key
            (frame Wire.data_packet (data_packet_t messaging ++ xs)) in
        let packet = frame encrypted_packet sealed in
        let delivery = deliver messaging xs m.sparkle_mac in
        IsControl p
        → is_null p.peer ≡ false
        → Router.find_sparkle_node p.peer w ≡ done (some r) w
        → w.heap r ≡ some n
        → n.keys_negotiated ≡ true
        → is_self w.router.self r ≡ false
        → env'.cipher ≡ env.cipher
        → wrap_node env' host port v ≡ done q v
        → v.heap q ≡ some m
        → m.keys_negotiated ≡ true
        → m.his_session_key ≡ n.my_session_key
        → IsBytes n.my_session_key
        → has_encapsulation messaging v.link.app_layers ≡ true
        → length xs + 6 < 2 ^ 16
        → length sealed + 4 < 2 ^ 16
        → (perform env (send_control_packet s order p here).1 w
            ≡ done tt (record w {
              events = w.events ++ datagram packet (phantom_ip n) (phantom_port n) ∷ [];
            }))
          × (handle_packet env' packet host port v
              ≡ done tt (record v { events = v.events ++ delivery ∷ [] }))
          × (take_delivery s order delivery there
              ≡ some (accepted s order laws p m.sparkle_mac there))
  unfolding perform take_delivery send_control_packet send_control send_packet
  send_control_packet-carried here there host port ok known found e k self same hw hm km keys ik
        attached hl ls =
      let xs = message_packet_of order control_packet (marshall s p) in
      let carried =
        send_data_packet-delivered env env' w v r q n m p.peer messaging xs host port known found e
          k self same hw hm km keys ik
          (message_packet_of-IsBytes order control_packet (marshall s p)
            (marshall-IsBytes s laws p ok))
          (omega arith) (message_packet_of_nonempty order control_packet (marshall s p)) hl ls in
      (
        rw (carried.0) refl,
        carried.1 ∙ rw (attached) refl,
        control_arrives s order laws p m.sparkle_mac there ok,
      )
