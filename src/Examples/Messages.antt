-- ===== src/Examples/Messages.antt =====
-- Two messengers, of which one sends a control packet to the other.
use sparkle.Prelude.{
  ℕ, not, none, false, ◌≡◌, ◌≢◌, refl, ap, sym, ◌∙◌, ◌⊎◌, true, ◌&&◌, [], ◌∷◌, some, All,
  if◌then◌else◌, arith,
}
use mathlib.Core.List.{Memᴰ}
use mathlib.Core.List.Memᴰ
use sparkle.Address.{SparkleAddress, address_eq}
use sparkle.DataStream.Qt.{qt_stream, qt_stream-IsDataStream}
use sparkle.Messaging.Control.{ControlPacket, message, marshall, demarshall, IsControl}
use sparkle.Messaging.Control.RoundTrip.{as_received, demarshall-marshall}
use sparkle.Messaging.Contacts.{Contact, contains_contact, add_contact, remove_contact}
use sparkle.Messaging.Chat.{
  Window, has_window, on_message_available, print, line_of, named, to_html,
}
use sparkle.Messaging.Chat.Attribution.{on_message_available-misattributed}
use sparkle.Messaging.Contacts.Roster.{Once, change-Once}
use sparkle.Messaging.Html.{IsPlain, shown, filter_html, shown-filter_html}
use sparkle.Messaging.Layer.{Messenger, new_messenger, Reaction, Network, little, send_packet}
use sparkle.Messaging.Layer.Presence.{
  present, unauthorized, not_present, internal_error, unavailable, peer_absent, cleanup, peer_state,
  handle_presence_notify,
}
use sparkle.Messaging.Layer.Presence.States.{peer_state-changes}
use sparkle.Messaging.Layer.Queue.{send_control, send_control_packet}
use sparkle.Messaging.Layer.Receive.{call_send_control_packet, handle_data_packet, run_call}
use sparkle.Messaging.Delivery.{
  System, Parcel, parcel, TimesOut, Lands, Recovery, lost, Reach, here, next, calls, IsFresh,
  after_call, at, datagrams, datagram_of,
}
use sparkle.Messaging.Delivery.Drain.{Agree, queue-drains}
use sparkle.Messaging.Delivery.Progress.{carrier, answer, resend_control_packets-delivers}
use sparkle.Messaging.Delivery.Reached.{sent-delivered, traffic-handled}

abbrev alice : SparkleAddress
alice = record { bytes = 2 ∷ 1 ∷ 1 ∷ 1 ∷ 1 ∷ 1 ∷ [] }

abbrev bob : SparkleAddress
bob = record { bytes = 2 ∷ 2 ∷ 2 ∷ 2 ∷ 2 ∷ 2 ∷ [] }

abbrev carol : SparkleAddress
carol = record { bytes = 2 ∷ 3 ∷ 3 ∷ 3 ∷ 3 ∷ 3 ∷ [] }

abbrev idle : Messenger
idle = new_messenger []

abbrev network : Network
network = record { is_joined = true; has_route = λ a. address_eq a bob }

-- "Hi", to Bob.
abbrev greeting : ControlPacket
greeting = record {
  id = 77;
  peer = bob;
  content = message (record { date = 2455200; time = 43200000; spec = 1 }) (some (72 ∷ 105 ∷ []));
}

greeting-IsControl : IsControl greeting
greeting-IsControl = (omega arith, (omega arith, omega arith))

demarshall-marshall_example :
    demarshall qt_stream (marshall qt_stream greeting) alice ≡ some (as_received alice greeting)
demarshall-marshall_example =
    demarshall-marshall qt_stream qt_stream-IsDataStream greeting alice greeting-IsControl

-- "<&>"
shown-filter_html_example :
    All IsPlain (filter_html (60 ∷ 38 ∷ 62 ∷ []))
    × (shown 0 (filter_html (60 ∷ 38 ∷ 62 ∷ [])) ≡ 60 ∷ 38 ∷ 62 ∷ [])
shown-filter_html_example = shown-filter_html (60 ∷ 38 ∷ 62 ∷ [])

peer_state-changes_example :
    let answer = λ (m : Messenger). (peer_state qt_stream little network bob m).0 in
    (answer (handle_presence_notify qt_stream little [] bob idle).0
      ≡ (if network.has_route bob && address_eq bob bob then present else answer idle))
    × (answer (peer_absent bob idle).0
        ≡ (if not (network.has_route bob) && address_eq bob bob then not_present else answer idle))
    × (answer (cleanup idle).0 ≡ (
        if network.has_route bob
        then unauthorized
        else if network.is_joined
        then internal_error
        else unavailable))
peer_state-changes_example = peer_state-changes qt_stream little network idle [] bob bob

abbrev quiet : System
quiet = record { host = λ a. idle; traffic = []; sent = []; received = [] }

quiet-IsFresh : IsFresh quiet
quiet-IsFresh = record {
  no_traffic = refl;
  none_sent = refl;
  none_received = refl;
  none_queued = λ a. refl;
}

-- Alice has sent it, and nothing has arrived.
abbrev under_way : System
under_way =
    after_call alice (call_send_control_packet greeting)
      (run_call qt_stream little network (call_send_control_packet greeting) idle) quiet

under_way-Reach : Reach qt_stream little quiet under_way
under_way-Reach =
    next here (calls network alice (call_send_control_packet greeting) greeting-IsControl)

greeting_sent : Memᴰ (parcel alice greeting) under_way.sent
unfolding after_call
greeting_sent = Memᴰ.head refl

greeting_only :
    (q : ControlPacket) → Memᴰ (parcel alice q) under_way.sent → q.id ≡ greeting.id → q ≡ greeting
unfolding after_call
greeting_only q h e = ap (λ (x : Parcel). x.packet) (Memᴰ.eq_of_singleton h)

greeting_waits : Memᴰ greeting (under_way.host alice).control_output_queue
unfolding after_call at run_call send_control_packet
greeting_waits = Memᴰ.head refl

greeting_alone :
    (q : ControlPacket)
    → Memᴰ q (under_way.host alice).control_output_queue
    → q.id ≡ greeting.id
    → q.peer ≡ greeting.peer
unfolding after_call at run_call send_control_packet
greeting_alone q h e = ap (λ (x : ControlPacket). x.peer) (Memᴰ.eq_of_singleton h)

greeting_travels : Memᴰ (carrier qt_stream little alice greeting) under_way.traffic
unfolding after_call run_call send_control_packet send_control send_packet datagrams datagram_of
greeting_travels = Memᴰ.head refl

sent-delivered_example :
    Memᴰ greeting (under_way.host alice).control_output_queue
    ⊎ Memᴰ (parcel bob (as_received alice greeting)) under_way.received
sent-delivered_example =
    sent-delivered qt_stream little qt_stream-IsDataStream quiet under_way alice greeting
      quiet-IsFresh under_way-Reach greeting_sent greeting_only

traffic-handled_example :
    let d = carrier qt_stream little alice greeting in
    (r : Reaction) × (handle_data_packet qt_stream little d.packet alice (under_way.host bob)
      ≡ some r)
traffic-handled_example =
    traffic-handled qt_stream little qt_stream-IsDataStream quiet under_way
      (carrier qt_stream little alice greeting) quiet-IsFresh under_way-Reach greeting_travels

resend_control_packets-delivers_example :
    (t u v : System) × TimesOut qt_stream little alice under_way t
    × Lands qt_stream little (carrier qt_stream little alice greeting) t u
    × Memᴰ (parcel bob (as_received alice greeting)) u.received
    × Lands qt_stream little (answer qt_stream little alice greeting) u v
    × All (λ (q : ControlPacket). q.id ≢ 77) (v.host alice).control_output_queue
resend_control_packets-delivers_example =
    resend_control_packets-delivers qt_stream little qt_stream-IsDataStream under_way alice greeting
      greeting-IsControl greeting_waits greeting_alone

greeting_agrees : Agree (under_way.host alice).control_output_queue
unfolding after_call at run_call send_control_packet
greeting_agrees p q m n e =
    ap (λ (x : ControlPacket). x.peer) (Memᴰ.eq_of_singleton n ∙ sym (Memᴰ.eq_of_singleton m))

queue-drains_example :
    (u : System) × Recovery qt_stream little alice (lost under_way) u
    × ((u.host alice).control_output_queue ≡ [])
queue-drains_example =
    queue-drains qt_stream little qt_stream-IsDataStream alice quiet under_way quiet-IsFresh
      under_way-Reach greeting_agrees

abbrev contact : ℕ → Contact
contact i = record { ident = i; address = bob; display_name = none; status = 0; status_text = none }

change-Once_example :
    let cs = contact 1 ∷ contact 2 ∷ [] in
    let (added, longer, _) = add_contact cs (contact 2) in
    let (removed, shorter, _) = remove_contact cs (contact 2) in
    (added ≡ not (contains_contact cs (contact 2)))
    × Once longer
    × (contains_contact longer (contact 3) ≡ false)
    × (removed ≡ contains_contact cs (contact 2))
    × Once shorter
    × (contains_contact shorter (contact 3) ≡ false)
unfolding contains_contact
change-Once_example =
    change-Once (contact 1 ∷ contact 2 ∷ []) (contact 2) (contact 3) (refl, (refl, tt))

-- "B"
abbrev bob_contact : Contact
bob_contact = record (contact 1) { display_name = some (66 ∷ []) }

abbrev window_of_bob : Window
window_of_bob = record { peer = bob; contact = some bob_contact; log = [] }

abbrev window_of_carol : Window
window_of_carol = record { peer = carol; contact = none; log = [] }

-- Carol says "Hi".
abbrev from_carol : ControlPacket
from_carol = record greeting { peer = carol }

abbrev received : Messenger
received = record idle { control_input_queue = from_carol ∷ [] }

on_message_available-misattributed_example :
    on_message_available carol
      (record { windows = window_of_bob ∷ window_of_carol ∷ []; messenger = received })
    ≡ record {
      windows =
          print
            (line_of
              (record { date = 2455200; time = 43200000; spec = 1 })
              (some (72 ∷ 105 ∷ []))
              (named (to_html (66 ∷ []))))
            window_of_bob
          ∷ window_of_carol
          ∷ [];
      messenger = record received { control_input_queue = [] };
    }
unfolding has_window
on_message_available-misattributed_example =
    on_message_available-misattributed received window_of_bob (window_of_carol ∷ []) from_carol
      bob_contact (record { date = 2455200; time = 43200000; spec = 1 }) (some (72 ∷ 105 ∷ [])) refl
      refl refl refl refl refl
