-- ===== src/Messaging/Authorizing.antt =====
-- sippy/Roster.cpp: requestAuthorization and offerAuthorization, by which peers get on each other's
-- contact lists. What the user answers in the dialogs is an argument; nothing arrives while the
-- second one is open.
pub mod Accepted
use sparkle.Prelude.{ℕ, Bool, true, false, Option, none, some, []}
use sparkle.Address.{SparkleAddress}
use sparkle.DataStream.{Text, DataStream}
use sparkle.Messaging.Control.{ControlPacket, Content, authorization, message, authorization_packet}
use sparkle.Messaging.Contacts.{Contact}
use sparkle.Messaging.Layer.{Messenger, Reaction, Network, ByteOrder}
use sparkle.Messaging.Layer.Queue.{get_control_packet, send_control_packet}
use sparkle.Messaging.Layer.Receive.{call_add_contact, run_call}

-- Contact(SparkleAddress) and setDisplayName: `memory` is what the status holds before it is set.
unfoldable pub new_contact : ℕ → ℕ → SparkleAddress → Text → Contact
new_contact ident memory a name = record {
  ident = ident;
  address = a;
  display_name = name;
  status = memory;
  status_text = none;
}

-- The request that is sent, with the id that is drawn for it.
unfoldable pub authorization_request : ℕ → Text → Contact → Messenger → ControlPacket
authorization_request id reason c m = record {
  id = id;
  peer = c.address;
  content = authorization m.nick reason;
}

module _ (s : DataStream) (order : ByteOrder) where
  -- requestAuthorization for the contact that is selected; no reason is a dialog that was cancelled.
  unfoldable pub request_authorization : Option Text → ℕ → Contact → Messenger → Reaction
  request_authorization none id c m = (m, [])
  request_authorization (some reason) id c m =
      send_control_packet s order (authorization_request id reason c m) m

  module _ (net : Network) (ident memory : ℕ) where
    -- The answer to the question; the packet is an authorization, as its type was asked for.
    unfoldable pub on_answer : Bool → Content → SparkleAddress → Messenger → Reaction
    on_answer false content a m = (m, [])
    on_answer true (authorization nick reason) a m =
        run_call s order net (call_add_contact (new_contact ident memory a nick)) m
    on_answer true (message timestamp text) a m = (m, [])

    -- The packet that was taken, where `none` is the null pointer, followed.
    unfoldable pub offer_taken : Bool → Option ControlPacket → Messenger → Option Reaction
    offer_taken answer none m = none
    offer_taken answer (some p) m = some (on_answer answer p.content p.peer m)

    -- offerAuthorization, the slot of authorizationAvailable.
    unfoldable pub offer_authorization : Bool → Messenger → Option Reaction
    offer_authorization answer m =
        let (taken, left) = get_control_packet authorization_packet m in
        offer_taken answer taken left
