-- ===== src/Messaging/Layer/Receive.antt =====
-- sippy/MessagingApplicationLayer.cpp: handleDataPacket, and the calls from the user interface, the
-- timer, the contact list and the link layer's signals.
use sparkle.Prelude.{ℕ, List, [], ◌∷◌, ◌++◌, length, drop, Option, some, ◌==◌, ltb, if◌then◌else◌}
use sparkle.Prelude.Bytes.{Bytes}
use sparkle.Address.{SparkleAddress}
use sparkle.DataStream.{Text, DataStream}
use sparkle.Messaging.Control.{ControlType, ControlPacket}
use sparkle.Messaging.Contacts.{
  Contact, ListEvent, contact_added, add_contact, remove_contact, load,
}
use sparkle.Messaging.Layer.{
  Output, contact_event, peer_state_changed, Messenger, Reaction, Network, ByteOrder,
  host_word16_at,
}
use sparkle.Messaging.Layer.Presence.{
  set_nick, peer_absent, cleanup, fetch_contact, fetch_all_contacts, set_status, set_status_text,
  peer_state, handle_presence_request, handle_presence_notify,
}
use sparkle.Messaging.Layer.Queue.{
  get_control_packet, send_control_packet, handle_control_packet, resend_control_packets,
  handle_control_bounce,
}

-- `call_peer_changed` stands for the router's peerAdded and peerRemoved.
pub data Call : Type 0 where
  call_set_status : ℕ → Call
  call_set_status_text call_set_nick : Text → Call
  call_peer_state call_peer_absent call_peer_changed : SparkleAddress → Call
  call_fetch_all_contacts call_cleanup call_resend : Call
  call_add_contact call_remove_contact : Contact → Call
  call_load : List Contact → Call
  call_send_control_packet : ControlPacket → Call
  call_get_control_packet : ControlType → Call

module _ (s : DataStream) (order : ByteOrder) where
  -- The switch of handleDataPacket; a packet of another type is dropped.
  unfoldable pub handle_payload : ℕ → Bytes → SparkleAddress → Messenger → Option Reaction
  handle_payload type payload a m =
      if type == 1
      then some (handle_presence_request s order a m)
      else if type == 2
      then some (handle_presence_notify s order payload a m)
      else if type == 3
      then handle_control_packet s order payload a m
      else if type == 4
      then some (handle_control_bounce s order payload a m)
      else some (m, [])

  -- handleDataPacket, which drops what is too short for a header or of a later version.
  unfoldable pub handle_data_packet : Bytes → SparkleAddress → Messenger → Option Reaction
  handle_data_packet packet a m =
      if ltb (length packet) 4
      then some (m, [])
      else if ltb 0 (host_word16_at order packet 2)
      then some (m, [])
      else handle_payload (host_word16_at order packet 0) (drop 4 packet) a m

  -- The signals of the contact list, of which contactAdded is connected to fetchContact.
  unfoldable pub on_list_events : Network → Messenger → List ListEvent → List Output
  on_list_events net m [] = []
  on_list_events net m (contact_added c ∷ es) =
      contact_event (contact_added c) ∷ fetch_contact s order net m c ++ on_list_events net m es
  on_list_events net m (e ∷ es) = contact_event e ∷ on_list_events net m es

  unfoldable pub change_contacts : Network → List Contact × List ListEvent → Messenger → Reaction
  change_contacts net (contacts, events) m =
      let changed = record m { contacts = contacts } in (changed, on_list_events net changed events)

  unfoldable pub run_call : Network → Call → Messenger → Reaction
  run_call net (call_set_status n) m = set_status s order net n m
  run_call net (call_set_status_text t) m = set_status_text s order net t m
  run_call net (call_set_nick t) m = set_nick t m
  run_call net (call_peer_state a) m = (m, (peer_state s order net a m).1)
  run_call net (call_peer_absent a) m = peer_absent a m
  run_call net call_fetch_all_contacts m = fetch_all_contacts s order net m
  run_call net call_cleanup m = cleanup m
  run_call net call_resend m = resend_control_packets s order m
  run_call net (call_add_contact c) m =
      (let (added, contacts, events) = add_contact m.contacts c in
        change_contacts net (contacts, events) m)
  run_call net (call_remove_contact c) m =
      (let (removed, contacts, events) = remove_contact m.contacts c in
        change_contacts net (contacts, events) m)
  run_call net (call_load stored) m = change_contacts net (load stored m.contacts) m
  run_call net (call_peer_changed a) m = (m, peer_state_changed a ∷ [])
  run_call net (call_send_control_packet p) m = send_control_packet s order p m
  run_call net (call_get_control_packet t) m = ((get_control_packet t m).1, [])
