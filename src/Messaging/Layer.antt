-- ===== src/Messaging/Layer.antt =====
-- sippy/MessagingApplicationLayer.h and .cpp: the state of the messenger and its packets. Below it:
-- Presence the states of peers, Queue the control packets and their bounces, Receive the handler of
-- data packets and the calls that a user makes.
pub mod Presence
pub mod Queue
pub mod Receive
use sparkle.Prelude.{ℕ, suc, ◌+◌, ◌*◌, ◌/◌, ◌%◌, Bool, List, [], ◌∷◌, ◌++◌, none}
use sparkle.Prelude.Bytes.{Bytes, be16, byte_at, word16_at}
use sparkle.Address.{SparkleAddress}
use sparkle.DataStream.{Text}
use sparkle.Messaging.Control.{ControlPacket}
use sparkle.Messaging.Contacts.{Contact, ListEvent}

-- What the layer does to the outside, in its order: the calls of LinkLayer::sendDataPacket, with the
-- encapsulation Messaging, and the signals.
pub data Output : Type 0 where
  data_packet_sent : SparkleAddress → Bytes → Output
  peer_state_changed : SparkleAddress → Output
  status_changed : ℕ → Output
  status_text_changed nick_changed : Text → Output
  authorization_available : Output
  message_available : SparkleAddress → Output
  control_timed_out : ℕ → Output
  contact_event : ListEvent → Output

-- The state, with the contact list that it holds a reference to. The sets of peers are lists, and
-- the status is the number that the enumeration Status stands for.
pub record Messenger : Type 0 where
  pub contacts : List Contact
  pub absent_peers : List SparkleAddress
  pub authorized_peers : List SparkleAddress
  pub control_output_queue : List ControlPacket
  pub control_input_queue : List ControlPacket
  pub status : ℕ
  pub status_text : Text
  pub nick : Text

-- The constructor.
abbrev pub new_messenger : List Contact → Messenger
new_messenger contacts = record {
  contacts = contacts;
  absent_peers = [];
  authorized_peers = [];
  control_output_queue = [];
  control_input_queue = [];
  status = 0;
  status_text = none;
  nick = none;
}

abbrev pub Reaction : Type 0
Reaction = Messenger × List Output

-- What LinkLayer::isJoined and Router::hasRouteTo answer.
pub record Network : Type 0 where
  pub is_joined : Bool
  pub has_route : SparkleAddress → Bool

-- packet_type_t
pub data MessageType : Type 0 where
  presence_request presence_notify control_packet control_bounce : MessageType

abbrev pub message_code : MessageType → ℕ
message_code presence_request = 1
message_code presence_notify = 2
message_code control_packet = 3
message_code control_bounce = 4

-- packet_header_t is copied as it lies in memory, so its words have the order of the host.
pub data ByteOrder : Type 0 where
  little big : ByteOrder

abbrev pub host16 : ByteOrder → ℕ → Bytes
host16 little n = (n % 256) ∷ (n / 256 % 256) ∷ []
host16 big n = be16 n

abbrev pub host_word16_at : ByteOrder → Bytes → ℕ → ℕ
host_word16_at little xs i = byte_at xs i + byte_at xs (suc i) * 256
host_word16_at big xs i = word16_at xs i

-- packet_header_t and the data behind it, in version 0.
unfoldable pub message_packet_of : ByteOrder → MessageType → Bytes → Bytes
message_packet_of order type xs = host16 order (message_code type) ++ (host16 order 0 ++ xs)

-- sendPacket
unfoldable pub send_packet : ByteOrder → MessageType → Bytes → SparkleAddress → Output
send_packet order type xs a = data_packet_sent a (message_packet_of order type xs)
