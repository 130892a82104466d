-- ===== src/Messaging/Delivery/Packets.antt =====
-- What a messenger does with each packet that another one may have sent.
use sparkle.Prelude.{ℕ, ◌≡◌, refl, ◌∙◌, ◌++◌, ◌<◌, ◌^◌, [], ◌∷◌, Option, none, some, All, arith}
use mathlib.Core.List.{append-nil}
use sparkle.Prelude.Bytes.{Bytes}
use sparkle.Address.{SparkleAddress}
use sparkle.DataStream.{Text, DataStream, IsDataStream}
use sparkle.Messaging.Control.{ControlPacket, IsControl, marshall, content_type}
use sparkle.Messaging.Control.RoundTrip.{as_received, demarshall-marshall}
use sparkle.Messaging.Contacts.{Contact, has_address, find_by_address}
use sparkle.Messaging.Layer.{
  contact_event, MessageType, message_code, presence_request, presence_notify, control_packet,
  control_bounce, Messenger, Reaction, ByteOrder, little, big, message_packet_of,
}
use sparkle.Messaging.Layer.Presence.{
  handle_presence_request, handle_presence_notify, show_presence,
}
use sparkle.Messaging.Layer.Queue.{
  announce, send_control_bounce, accept, handle_control_packet, handle_control_bounce,
  remove_bounced,
}
use sparkle.Messaging.Layer.Receive.{handle_data_packet, handle_payload}
use sparkle.Messaging.Delivery.Reactions.{All-map, All-if, IsUsual, notify-IsUsual}

-- A packet of version 0 is handled by its type, on a host of the same byte order.
pub handle_data_packet-message_packet_of :
    (s : DataStream) (order : ByteOrder) (t : MessageType) (xs : Bytes) (a : SparkleAddress)
    (m : Messenger)
    → handle_data_packet s order (message_packet_of order t xs) a m
      ≡ handle_payload s order (message_code t) xs a m
unfolding handle_data_packet message_packet_of
handle_data_packet-message_packet_of s little t xs a m = ground (arith)
handle_data_packet-message_packet_of s big t xs a m = ground (arith)

module _ (s : DataStream) (order : ByteOrder) where
  -- A reaction that leaves both queues of control packets as they are.
  pub record IsQuiet (m : Messenger) (r : Reaction) : Type 0 where
    pub same_output : r.0.control_output_queue ≡ m.control_output_queue
    pub same_input : r.0.control_input_queue ≡ m.control_input_queue
    pub usual : All (IsUsual s order m.control_output_queue) r.1

  -- A request is answered at most by the presence.
  pub request_arrives :
      (xs : Bytes) (a : SparkleAddress) (m : Messenger)
      → (r : Reaction) × (handle_data_packet s order
            (message_packet_of order presence_request xs)
            a
            m
          ≡ some r)
        × IsQuiet m r
  unfolding handle_payload handle_presence_request
  request_arrives xs a m = (
    handle_presence_request s order a m,
    handle_data_packet-message_packet_of s order presence_request xs a m,
    record {
      same_output = refl;
      same_input = refl;
      usual =
          All-if (IsUsual s order m.control_output_queue) (has_address m.contacts a) _
            (notify-IsUsual s order m.control_output_queue m a, tt);
    },
  )

  show_presence-IsQuiet :
      (o : Option Contact) (status : ℕ) (text : Text) (m : Messenger)
      → IsQuiet m (show_presence s order o status text m)
  unfolding show_presence
  show_presence-IsQuiet none status text m = record {
    same_output = refl;
    same_input = refl;
    usual = tt;
  }
  show_presence-IsQuiet (some c) status text m = record {
    same_output = refl;
    same_input = refl;
    usual = All-map (IsUsual s order m.control_output_queue) contact_event (λ e. tt) _;
  }

  -- A notification changes contacts and the set of authorized peers only.
  pub notify_arrives :
      (xs : Bytes) (a : SparkleAddress) (m : Messenger)
      → (r : Reaction) × (handle_data_packet s order
            (message_packet_of order presence_notify xs)
            a
            m
          ≡ some r)
        × IsQuiet m r
  unfolding handle_payload handle_presence_notify
  notify_arrives xs a m =
      let q = show_presence-IsQuiet (find_by_address m.contacts a) _ _ _ in
      (
        handle_presence_notify s order xs a m,
        handle_data_packet-message_packet_of s order presence_notify xs a m,
        record { same_output = q.same_output; same_input = q.same_input; usual = q.usual },
      )

  module _ (laws : IsDataStream s) where
    -- What the arrival of a control packet does: it is queued for the user, and bounced.
    abbrev pub accepted : ControlPacket → SparkleAddress → Messenger → Reaction
    accepted p a m = (
      record m { control_input_queue = m.control_input_queue ++ as_received a p ∷ [] },
      send_control_bounce s order a p.id ∷ announce (content_type p.content) a ∷ [],
    )

    pub control_arrives :
        (p : ControlPacket) (a : SparkleAddress) (m : Messenger)
        → IsControl p
        → handle_data_packet s order (message_packet_of order control_packet (marshall s p)) a m
          ≡ some (accepted p a m)
    unfolding handle_payload handle_control_packet accept
    control_arrives p a m h =
        handle_data_packet-message_packet_of s order control_packet (marshall s p) a m
        ∙ rw (demarshall-marshall s laws p a h) refl

    get_u32_last : (n : ℕ) → n < 2 ^ 32 → s.get_u32 (s.put_u32 n) ≡ (n, [])
    get_u32_last n h = rw append-nil at (laws.u32_reads n [] h)

    -- What the arrival of a bounce does.
    abbrev pub bounced : ℕ → SparkleAddress → Messenger → Reaction
    bounced id a m =
        (record m { control_output_queue = remove_bounced id a m.control_output_queue }, [])

    pub bounce_arrives :
        (id : ℕ) (a : SparkleAddress) (m : Messenger)
        → id < 2 ^ 32
        → handle_data_packet s order (message_packet_of order control_bounce (s.put_u32 id)) a m
          ≡ some (bounced id a m)
    unfolding handle_payload handle_control_bounce
    bounce_arrives id a m h =
        handle_data_packet-message_packet_of s order control_bounce (s.put_u32 id) a m
        ∙ rw (get_u32_last id h) refl
