-- ===== src/Examples/Rosters.antt =====
-- The contact lists of two users: a request for an authorization, and a restart.
use sparkle.Prelude.{
  ℕ, Bool, true, false, ◌≡◌, ◌≢◌, refl, [], ◌∷◌, some, none, ◌==◌, ==_refl, if◌then◌else◌, map,
  arith,
}
use sparkle.Address.{SparkleAddress}
use sparkle.DataStream.{Text}
use sparkle.DataStream.Qt.{qt_stream, qt_stream-IsDataStream}
use sparkle.Messaging.Control.{marshall}
use sparkle.Messaging.Contacts.{Contact, contains_contact, has_address}
use sparkle.Messaging.Layer.{
  Messenger, Reaction, new_messenger, Network, little, control_packet, message_packet_of,
  data_packet_sent, authorization_available,
}
use sparkle.Messaging.Layer.Queue.{send_control_bounce}
use sparkle.Messaging.Layer.Receive.{handle_data_packet}
use sparkle.Messaging.Authorizing.{
  new_contact, authorization_request, request_authorization, offer_authorization,
}
use sparkle.Messaging.Authorizing.Accepted.{request_authorization-accepted}
use sparkle.Messaging.AddressText.Digits.{hex_codec, hex_codec-IsHexCodec}
use sparkle.Messaging.Storage.{Key, mac, display, Settings, IsSettings, set_contacts, contacts}
use sparkle.Messaging.Storage.Kept.{stored, contacts-set_contacts}

abbrev alice : SparkleAddress
alice = record { bytes = 2 ∷ 1 ∷ 1 ∷ 1 ∷ 1 ∷ 1 ∷ [] }

abbrev bob : SparkleAddress
bob = record { bytes = 2 ∷ 171 ∷ 205 ∷ 2 ∷ 2 ∷ 2 ∷ [] }

abbrev contact_of_bob : Contact
contact_of_bob = record {
  ident = 1;
  address = bob;
  display_name = some (66 ∷ []);
  status = 0;
  status_text = none;
}

abbrev contact_of_alice : Contact
contact_of_alice = record {
  ident = 2;
  address = alice;
  display_name = none;
  status = 1;
  status_text = none;
}

-- Alice has Bob on her list and calls herself "A"; Bob's list is empty.
abbrev asking : Messenger
asking = record (new_messenger (contact_of_bob ∷ [])) { nick = some (65 ∷ []) }

abbrev asked : Messenger
asked = new_messenger []

abbrev net : Network
net = record { is_joined = true; has_route = λ a. true }

request_authorization-accepted_example :
    let added = new_contact 7 0 alice (some (65 ∷ [])) in
    let packet = message_packet_of little control_packet (
      marshall qt_stream (authorization_request 77 (some (72 ∷ 105 ∷ [])) contact_of_bob asking)) in
    (told agreed refused : Reaction) × ((request_authorization qt_stream little
        (some (some (72 ∷ 105 ∷ [])))
        77
        contact_of_bob
        asking).1
      ≡ data_packet_sent bob packet ∷ [])
    × (handle_data_packet qt_stream little packet alice asked ≡ some told)
    × (told.1 ≡ send_control_bounce qt_stream little alice 77 ∷ authorization_available ∷ [])
    × (offer_authorization qt_stream little net 7 0 true told.0 ≡ some agreed)
    × (agreed.0 ≡ record asked { contacts = added ∷ [] })
    × (has_address agreed.0.contacts alice ≡ true)
    × (offer_authorization qt_stream little net 7 0 false told.0 ≡ some refused)
    × (refused ≡ (asked, []))
unfolding authorization_request contains_contact
request_authorization-accepted_example =
    request_authorization-accepted qt_stream little qt_stream-IsDataStream net 7 0 77
      (some (72 ∷ 105 ∷ [])) contact_of_bob alice asking asked
      (omega arith, (omega arith, omega arith)) tt refl

-- Settings that are kept in memory.
abbrev is_key : Key → Key → Bool
is_key mac mac = true
is_key display display = true
is_key _ _ = false

abbrev settings : Settings
settings = record {
  Store = ℕ × (ℕ → Key → Text);
  remove = λ s. (0, λ i k. none);
  set_value =
      λ i k t s. (s.0, λ j l. if i == j then (if is_key k l then t else s.1 j l) else s.1 j l);
  end_array = λ n s. (n, s.1);
  size = λ s. s.0;
  value = λ i k s. s.1 i k;
}

is_key_sound : (k l : Key) → k ≢ l → is_key k l ≡ false
is_key_sound mac mac h = absurd (h refl)
is_key_sound mac display h = refl
is_key_sound display mac h = refl
is_key_sound display display h = absurd (h refl)

is_key_refl : (k : Key) → is_key k k ≡ true
is_key_refl mac = refl
is_key_refl display = refl

other_index : (i j : ℕ) → i ≢ j → (i == j) ≡ false
other_index i j h = ground arith

settings-IsSettings : IsSettings settings
settings-IsSettings = record {
  value_set = λ i k t s. rw (==_refl i, is_key_refl k) refl;
  value_key = λ i k l t s h. rw (==_refl i, is_key_sound k l h) refl;
  value_index = λ i j k l t s h. rw (other_index i j h) refl;
  value_end = λ i n k s. refl;
  size_end = λ n s. refl;
}

contacts-set_contacts_example :
    map stored (
      contacts settings hex_codec [] 0 5
        (set_contacts settings hex_codec (contact_of_bob ∷ contact_of_alice ∷ []) (3, λ i k. none)))
    ≡ map stored (contact_of_bob ∷ contact_of_alice ∷ [])
contacts-set_contacts_example =
    contacts-set_contacts settings hex_codec settings-IsSettings hex_codec-IsHexCodec [] 0 5
      (contact_of_bob ∷ contact_of_alice ∷ []) (3, λ i k. none)
      (
        (
          refl,
          (
            omega arith,
            (omega arith, (omega arith, (omega arith, (omega arith, (omega arith, tt))))),
          ),
        ),
        (
          (
            refl,
            (
              omega arith,
              (omega arith, (omega arith, (omega arith, (omega arith, (omega arith, tt))))),
            ),
          ),
          tt,
        ),
      )
