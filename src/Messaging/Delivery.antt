-- ===== src/Messaging/Delivery.antt =====
-- Messengers that talk over a network: any number of hosts with the application layer of
-- sippy/MessagingApplicationLayer.cpp, and datagrams that are lost, repeated and overtaken. Packets
-- says what may be on its way, Reactions what a handler or a call does, Invariant what holds in
-- every state that is reached, and Progress how a packet is delivered.
pub mod Packets
pub mod Reactions
pub mod Invariant
pub mod Reached
pub mod Drain
pub mod Progress
use sparkle.Prelude.{
  ℕ, ◌≡◌, Bool, List, [], ◌∷◌, ◌++◌, length, drop, map, Option, some, if◌then◌else◌,
}
use mathlib.Core.List.{Memᴰ}
use sparkle.Prelude.Bytes.{Bytes}
use sparkle.Address.{SparkleAddress, address_eq}
use sparkle.DataStream.{DataStream}
use sparkle.Messaging.Control.{ControlPacket, IsControl}
use sparkle.Messaging.Layer.{Output, data_packet_sent, Messenger, Reaction, Network, ByteOrder}
use sparkle.Messaging.Layer.Receive.{
  Call, call_send_control_packet, call_resend, handle_data_packet, run_call,
}
use sparkle.Messaging.Layer.Queue.{resend_control_packets}

pub record Datagram : Type 0 where
  pub from : SparkleAddress
  pub to : SparkleAddress
  pub packet : Bytes

-- A control packet, and the host that sent it or got it.
pub record Parcel : Type 0 where
  pub owner : SparkleAddress
  pub packet : ControlPacket

-- The messenger of each host, the datagrams that have been sent so far, the control packets that
-- have been given to sendControlPacket, and those that have been put into an input queue.
pub record System : Type 0 where
  pub host : SparkleAddress → Messenger
  pub traffic : List Datagram
  pub sent : List Parcel
  pub received : List Parcel

unfoldable pub at :
    SparkleAddress → Messenger → (SparkleAddress → Messenger) → SparkleAddress → Messenger
at a m hosts b = if address_eq b a then m else hosts b

unfoldable pub datagram_of : SparkleAddress → Output → List Datagram
datagram_of a (data_packet_sent to packet) = record { from = a; to = to; packet = packet } ∷ []
datagram_of a _ = []

unfoldable pub datagrams : SparkleAddress → List Output → List Datagram
datagrams a [] = []
datagrams a (out ∷ outs) = datagram_of a out ++ datagrams a outs

abbrev pub parcel : SparkleAddress → ControlPacket → Parcel
parcel a p = record { owner = a; packet = p }

-- The control packet that a call hands over.
abbrev pub handed_over : Call → List ControlPacket
handed_over (call_send_control_packet p) = p ∷ []
handed_over _ = []

-- The control packets that were appended to an input queue.
abbrev pub appended : Messenger → Messenger → List ControlPacket
appended before after = drop (length before.control_input_queue) after.control_input_queue

unfoldable pub after_call : SparkleAddress → Call → Reaction → System → System
after_call a c (m, outs) w = record {
  host = at a m w.host;
  traffic = datagrams a outs ++ w.traffic;
  sent = map (parcel a) (handed_over c) ++ w.sent;
  received = w.received;
}

unfoldable pub after_arrival : Datagram → Reaction → System → System
after_arrival d (m, outs) w = record {
  host = at d.to m w.host;
  traffic = datagrams d.to outs ++ w.traffic;
  sent = w.sent;
  received = map (parcel d.to) (appended (w.host d.to) m) ++ w.received;
}

-- A control packet that is handed over has an id of 32 bits, and content that can be written.
abbrev pub IsCall : Call → Type 0
IsCall (call_send_control_packet p) = IsControl p
IsCall _ = Unit

module _ (s : DataStream) (order : ByteOrder) where
  -- A call at a host, with any answers of its link layer, or the arrival of a datagram that was
  -- sent at some time: never, once or more than once.
  pub data Step (w : System) : System → Type 0 where
    calls :
        (net : Network) (a : SparkleAddress) (c : Call)
        → IsCall c
        → Step w (after_call a c (run_call s order net c (w.host a)) w)
    arrives :
        (d : Datagram) (r : Reaction)
        → Memᴰ d w.traffic
        → handle_data_packet s order d.packet d.from (w.host d.to) ≡ some r
        → Step w (after_arrival d r w)

  pub data Reach (w : System) : System → Type 0 where
    here : Reach w w
    next : {t u : System} → Reach w t → Step t u → Reach w u

module _ (s : DataStream) (order : ByteOrder) where
  -- The steps by which a messenger makes up for losses: its resend timer, and the arrival of a given
  -- datagram.
  pub data TimesOut (a : SparkleAddress) (w : System) : System → Type 0 where
    times_out :
        TimesOut a w (after_call a call_resend (resend_control_packets s order (w.host a)) w)

  pub data Lands (d : Datagram) (w : System) : System → Type 0 where
    lands :
        (r : Reaction)
        → Memᴰ d w.traffic
        → handle_data_packet s order d.packet d.from (w.host d.to) ≡ some r
        → Lands d w (after_arrival d r w)

  -- A time in which nobody calls a messenger, and only the timer of one host goes off.
  pub data Recovery (a : SparkleAddress) (w : System) : System → Type 0 where
    still : Recovery a w w
    timer : {t u : System} → Recovery a w t → TimesOut a t u → Recovery a w u
    arrival : {t u : System} → (d : Datagram) → Recovery a w t → Lands d t u → Recovery a w u

-- All datagrams that are on their way are lost.
abbrev pub lost : System → System
lost w = record w { traffic = [] }

-- Nothing has been sent yet, and no queue has anything in it.
pub record IsFresh (w : System) : Type 0 where
  pub no_traffic : w.traffic ≡ []
  pub none_sent : w.sent ≡ []
  pub none_received : w.received ≡ []
  pub none_queued : (a : SparkleAddress) → (w.host a).control_output_queue ≡ []
