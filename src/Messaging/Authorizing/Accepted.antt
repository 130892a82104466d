-- ===== src/Messaging/Authorizing/Accepted.antt =====
-- A request for an authorization from the dialog of one user to the contact list of another.
use sparkle.Prelude.{
  ℕ, ◌≡◌, refl, ap, Bool, true, false, inl, inr, Bool-cases, List, [], ◌∷◌, ◌++◌, Option, some,
  none, All,
}
use sparkle.Prelude.Bytes.{bytes_eq_refl}
use sparkle.Address.{SparkleAddress, address_eq}
use sparkle.DataStream.{Text, DataStream, IsDataStream}
use sparkle.Messaging.Control.{
  ControlPacket, IsControl, authorization_packet, message_packet, content_type, marshall,
}
use sparkle.Messaging.Control.RoundTrip.{as_received}
use sparkle.Messaging.Contacts.{
  Contact, contains_contact, add_contact, find_by_address, has_address,
}
use sparkle.Messaging.Layer.{
  Messenger, Reaction, Network, ByteOrder, authorization_available, message_packet_of,
  control_packet, data_packet_sent, send_packet,
}
use sparkle.Messaging.Layer.Queue.{
  take_first, get_control_packet, send_control, send_control_packet, send_control_bounce, announce,
}
use sparkle.Messaging.Layer.Receive.{
  handle_data_packet, run_call, change_contacts, call_add_contact,
}
use sparkle.Messaging.Delivery.Packets.{accepted, control_arrives}
use sparkle.Messaging.Authorizing.{
  new_contact, authorization_request, request_authorization, on_answer, offer_taken,
  offer_authorization,
}

-- What getControlPacket skips on its way to an authorization.
abbrev pub IsMessage : ControlPacket → Type 0
IsMessage p = content_type p.content ≡ message_packet

take_first-later :
    (ps : List ControlPacket) (p : ControlPacket)
    → All IsMessage ps
    → content_type p.content ≡ authorization_packet
    → take_first authorization_packet (ps ++ p ∷ []) ≡ (some p, ps)
unfolding take_first
take_first-later [] p h e = rw (e) refl
take_first-later (q ∷ ps) p h e = rw (h.0, take_first-later ps p h.1 e) refl

find_by_address-snoc :
    (cs : List Contact) (c : Contact)
    → (d : Contact) × (find_by_address (cs ++ c ∷ []) c.address ≡ some d)
unfolding find_by_address
find_by_address-snoc [] c = (c, rw (bytes_eq_refl c.address.bytes) refl)
find_by_address-snoc (d ∷ cs) c = elim (Bool-cases (address_eq d.address c.address)) [
  | inl e ↦ (d, rw (e) refl)
  | inr e ↦ let (found, same) = find_by_address-snoc cs c in (found, rw (e) same)
]

-- A contact that is added at the end has its address on the list from then on.
has_address-snoc : (cs : List Contact) (c : Contact) → has_address (cs ++ c ∷ []) c.address ≡ true
unfolding has_address
has_address-snoc cs c =
    ap (λ (o : Option Contact). elim o [ some c ↦ true | none ↦ false ])
      (find_by_address-snoc cs c).1

module _ (s : DataStream) (order : ByteOrder) (laws : IsDataStream s) where
  -- The contact is new as an object.
  run_call-add :
      (net : Network) (c : Contact) (m : Messenger)
      → contains_contact m.contacts c ≡ false
      → (run_call s order net (call_add_contact c) m).0
        ≡ record m { contacts = m.contacts ++ c ∷ [] }
  unfolding run_call add_contact change_contacts
  run_call-add net c m h = rw (h) refl

  offer_authorization-takes :
      (net : Network) (ident memory : ℕ) (answer : Bool) (p : ControlPacket) (m : Messenger)
      (ps : List ControlPacket)
      → m.control_input_queue ≡ ps ++ p ∷ []
      → All IsMessage ps
      → content_type p.content ≡ authorization_packet
      → offer_authorization s order net ident memory answer m
        ≡ some (
            on_answer s order net ident memory answer p.content p.peer
              (record m { control_input_queue = ps }))
  unfolding offer_authorization get_control_packet offer_taken
  offer_authorization-takes net ident memory answer p m ps queue h e =
      rw (queue, take_first-later ps p h e) refl

  -- A user asks the peer of a contact for an authorization, with texts that fit into a packet. At the
  -- peer only messages wait. Then the datagram that is sent can be handled there, and is bounced and
  -- announced; if that user agrees, a contact with the address and the nick of the one who asked, a new
  -- object, stands at the end of the contact list, also if the list has had the address before, and the
  -- queues are as they were. If the user does not agree, nothing changes.
  pub request_authorization-accepted :
      (net : Network) (ident memory id : ℕ) (reason : Text) (c : Contact) (from : SparkleAddress)
      (asking asked : Messenger)
      → IsControl (authorization_request id reason c asking)
      → All IsMessage asked.control_input_queue
      → contains_contact asked.contacts (new_contact ident memory from asking.nick) ≡ false
      → let added = new_contact ident memory from asking.nick in
        let packet =
          message_packet_of order control_packet
            (marshall s (authorization_request id reason c asking)) in
        (told agreed refused : Reaction) × ((request_authorization s order
            (some reason)
            id
            c
            asking).1
          ≡ data_packet_sent c.address packet ∷ [])
        × (handle_data_packet s order packet from asked ≡ some told)
        × (told.1 ≡ send_control_bounce s order from id ∷ authorization_available ∷ [])
        × (offer_authorization s order net ident memory true told.0 ≡ some agreed)
        × (agreed.0 ≡ record asked { contacts = asked.contacts ++ added ∷ [] })
        × (has_address agreed.0.contacts from ≡ true)
        × (offer_authorization s order net ident memory false told.0 ≡ some refused)
        × (refused ≡ (asked, []))
  unfolding request_authorization send_control_packet send_control send_packet announce on_answer
      authorization_request new_contact
  request_authorization-accepted net ident memory id reason c from asking asked fits others new =
      let p = authorization_request id reason c asking in
      let added = new_contact ident memory from asking.nick in
      let told = accepted s order laws p from asked in
      let taken = record told.0 { control_input_queue = asked.control_input_queue } in
      let offered = λ (answer : Bool).
        offer_authorization-takes net ident memory answer (as_received from p) told.0
          asked.control_input_queue refl others refl in
      (
        told,
        run_call s order net (call_add_contact added) taken,
        (asked, []),
        refl,
        control_arrives s order laws p from asked fits,
        refl,
        offered true,
        run_call-add net added taken new,
        rw (run_call-add net added taken new) (has_address-snoc asked.contacts added),
        offered false,
        refl,
      )
