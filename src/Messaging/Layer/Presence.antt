-- ===== src/Messaging/Layer/Presence.antt =====
-- sippy/MessagingApplicationLayer.cpp: the presence of contacts, and the states of peers.
pub mod States
use sparkle.Prelude.{
  ℕ, ◌%◌, ◌^◌, Bool, true, false, List, [], ◌∷◌, ◌++◌, map, Option, none, some, if◌then◌else◌, not,
}
use sparkle.Prelude.Bytes.{Bytes}
use sparkle.Address.{SparkleAddress, address_eq}
use sparkle.DataStream.{Text, DataStream}
use sparkle.Messaging.Contacts.{
  Contact, ListEvent, find_by_address, has_address, set_contact_status, set_contact_status_text,
}
use sparkle.Messaging.Layer.{
  Output, Messenger, Reaction, Network, ByteOrder, presence_request, presence_notify, send_packet,
  peer_state_changed, status_changed, status_text_changed, nick_changed, contact_event,
}

-- PeerState of Messaging.h
pub data PeerState : Type 0 where
  present unauthorized not_present internal_error unavailable : PeerState

-- QSet::contains and QSet::insert.
unfoldable pub contains_address : List SparkleAddress → SparkleAddress → Bool
contains_address [] a = false
contains_address (b ∷ bs) a = if address_eq b a then true else contains_address bs a

unfoldable pub insert_address : List SparkleAddress → SparkleAddress → List SparkleAddress
insert_address set a = if contains_address set a then set else a ∷ set

-- setNick
unfoldable pub set_nick : Text → Messenger → Reaction
set_nick nick m = (record m { nick = nick }, nick_changed nick ∷ [])

-- peerAbsent
unfoldable pub peer_absent : SparkleAddress → Messenger → Reaction
peer_absent a m =
    (record m { absent_peers = insert_address m.absent_peers a }, peer_state_changed a ∷ [])

-- cleanup
unfoldable pub cleanup : Messenger → Reaction
cleanup m = (
  record m { absent_peers = []; authorized_peers = [] },
  map (λ (c : Contact). peer_state_changed c.address) m.contacts,
)

module _ (s : DataStream) (order : ByteOrder) where
  -- sendPresenceRequest
  unfoldable pub send_presence_request : SparkleAddress → Output
  send_presence_request a = send_packet order presence_request [] a

  -- sendPresenceNotify
  unfoldable pub send_presence_notify : Messenger → SparkleAddress → Output
  send_presence_notify m a =
      send_packet order presence_notify (s.put_u16 (m.status % 2 ^ 16) ++ s.put_text m.status_text)
        a

  -- fetchContact
  unfoldable pub fetch_contact : Network → Messenger → Contact → List Output
  fetch_contact net m c =
      if net.is_joined
      then send_presence_request c.address ∷ send_presence_notify m c.address ∷ []
      else []

  -- fetchAllContacts
  unfoldable pub fetch_each : Network → Messenger → List Contact → List Output
  fetch_each net m [] = []
  fetch_each net m (c ∷ cs) = fetch_contact net m c ++ fetch_each net m cs

  unfoldable pub fetch_all_contacts : Network → Messenger → Reaction
  fetch_all_contacts net m = (m, fetch_each net m m.contacts)

  -- sendPresence
  unfoldable pub send_presence : Network → Messenger → List Output
  send_presence net m =
      if net.is_joined
      then map (λ (c : Contact). send_presence_notify m c.address) m.contacts
      else []

  -- setStatus and setStatusText, whose signals are connected to sendPresence.
  unfoldable pub set_status : Network → ℕ → Messenger → Reaction
  set_status net status m =
      let changed = record m { status = status } in
      (changed, status_changed status ∷ send_presence net changed)

  unfoldable pub set_status_text : Network → Text → Messenger → Reaction
  set_status_text net text m =
      let changed = record m { status_text = text } in
      (changed, status_text_changed text ∷ send_presence net changed)

  -- peerState: what it returns, and what it sends.
  unfoldable pub peer_state : Network → SparkleAddress → Messenger → PeerState × List Output
  peer_state net a m =
      if net.has_route a
      then (if contains_address m.authorized_peers a then present else unauthorized, [])
      else if contains_address m.absent_peers a
      then (not_present, [])
      else if not net.is_joined
      then (unavailable, [])
      else (internal_error, send_presence_request a ∷ [])

  -- handlePresenceRequest
  unfoldable pub handle_presence_request : SparkleAddress → Messenger → Reaction
  handle_presence_request a m =
      (m, if has_address m.contacts a then send_presence_notify m a ∷ [] else [])

  -- handlePresenceNotify: the contact of the sender, if it has one, gets the status and the text.
  unfoldable pub show_presence : Option Contact → ℕ → Text → Messenger → Reaction
  show_presence none status text m = (m, [])
  show_presence (some c) status text m =
      let (changed, contacts, events) = set_contact_status m.contacts c status in
      let (_, contacts', events') = set_contact_status_text contacts changed text in
      (record m { contacts = contacts' }, map contact_event (events ++ events'))

  unfoldable pub handle_presence_notify : Bytes → SparkleAddress → Messenger → Reaction
  handle_presence_notify payload a m =
      let (status, rest) = s.get_u16 payload in
      show_presence (find_by_address m.contacts a) status (s.get_text rest).0
        (record m { authorized_peers = insert_address m.authorized_peers a })
