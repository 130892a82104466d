-- ===== src/Messaging/Layer/Queue.antt =====
-- sippy/MessagingApplicationLayer.cpp: control packets wait in a queue, and are sent again by a
-- timer, until their peer has sent a bounce with their id.
pub mod Bounced
use sparkle.Prelude.{
  ℕ, Bool, true, false, List, [], ◌∷◌, ◌++◌, Option, none, some, ◌==◌, if◌then◌else◌, not,
}
use sparkle.Prelude.Bytes.{Bytes}
use sparkle.Address.{SparkleAddress, address_eq}
use sparkle.DataStream.{DataStream}
use sparkle.Messaging.Control.{
  ControlType, authorization_packet, message_packet, ControlPacket, content_type, marshall,
  demarshall,
}
use sparkle.Messaging.Layer.{
  Output, Messenger, Reaction, ByteOrder, control_packet, control_bounce, send_packet,
  authorization_available, message_available, control_timed_out,
}

-- The signal for a control packet that has arrived.
unfoldable pub announce : ControlType → SparkleAddress → Output
announce authorization_packet a = authorization_available
announce message_packet a = message_available a

abbrev pub same_type : ControlType → ControlType → Bool
same_type authorization_packet authorization_packet = true
same_type message_packet message_packet = true
same_type _ _ = false

-- The loop of getControlPacket: the first packet of the type, and the others.
unfoldable pub take_first :
    ControlType → List ControlPacket → Option ControlPacket × List ControlPacket
take_first type [] = (none, [])
take_first type (p ∷ ps) =
    let (found, others) = take_first type ps in
    if same_type (content_type p.content) type then (some p, ps) else (found, p ∷ others)

-- getControlPacket
unfoldable pub get_control_packet : ControlType → Messenger → Option ControlPacket × Messenger
get_control_packet type m =
    let (found, others) = take_first type m.control_input_queue in
    (found, record m { control_input_queue = others })

-- The loop of handleControlBounce, which ends at a packet of the id that went to another peer.
unfoldable pub remove_bounced : ℕ → SparkleAddress → List ControlPacket → List ControlPacket
remove_bounced id a [] = []
remove_bounced id a (p ∷ ps) =
    let others = remove_bounced id a ps in
    if p.id == id then if not (address_eq p.peer a) then p ∷ ps else others else p ∷ others

module _ (s : DataStream) (order : ByteOrder) where
  -- A control packet as it is sent, again and again.
  unfoldable pub send_control : ControlPacket → Output
  send_control p = send_packet order control_packet (marshall s p) p.peer

  -- sendControlPacket
  unfoldable pub send_control_packet : ControlPacket → Messenger → Reaction
  send_control_packet p m =
      (record m { control_output_queue = m.control_output_queue ++ p ∷ [] }, send_control p ∷ [])

  -- sendControlBounce
  unfoldable pub send_control_bounce : SparkleAddress → ℕ → Output
  send_control_bounce a id = send_packet order control_bounce (s.put_u32 id) a

  -- handleControlPacket: `none` is the null pointer that demarshall returns, followed.
  unfoldable pub accept : Option ControlPacket → SparkleAddress → Messenger → Option Reaction
  accept none a m = none
  accept (some p) a m = some (
    record m { control_input_queue = m.control_input_queue ++ p ∷ [] },
    send_control_bounce p.peer p.id ∷ announce (content_type p.content) a ∷ [],
  )

  unfoldable pub handle_control_packet : Bytes → SparkleAddress → Messenger → Option Reaction
  handle_control_packet payload a m = accept (demarshall s payload a) a m

  -- resendControlPackets, which a timer calls each five seconds.
  unfoldable pub resend_each : List ControlPacket → List Output
  resend_each [] = []
  resend_each (p ∷ ps) = control_timed_out p.id ∷ send_control p ∷ resend_each ps

  unfoldable pub resend_control_packets : Messenger → Reaction
  resend_control_packets m = (m, resend_each m.control_output_queue)

  -- handleControlBounce
  unfoldable pub handle_control_bounce : Bytes → SparkleAddress → Messenger → Reaction
  handle_control_bounce payload a m =
      let (id, rest) = s.get_u32 payload in
      (record m { control_output_queue = remove_bounced id a m.control_output_queue }, [])
