-- ===== src/Messaging/Chat/Attribution.antt =====
-- Under whose name a message is shown.
use sparkle.Prelude.{◌≡◌, refl, ap, sym, ◌∙◌, true, false, List, [], ◌∷◌, Option, some}
use sparkle.Address.{SparkleAddress, address_eq}
use sparkle.DataStream.{Text, units, DateTime}
use sparkle.Messaging.Control.{ControlPacket, message, message_packet}
use sparkle.Messaging.Contacts.{Contact}
use sparkle.Messaging.Layer.{Messenger}
use sparkle.Messaging.Layer.Queue.{get_control_packet, take_first}
use sparkle.Messaging.Chat.{
  Window, is_empty, to_html, named, show_content, show_taken, line_of, handle_message, has_window,
  each_window, on_message_available, nick_for, print, display_name_or,
}

-- Windows that find no message stay as they are.
handle_message-idle :
    (m : Messenger) (w : Window) → m.control_input_queue ≡ [] → handle_message m w ≡ (m, w)
unfolding handle_message get_control_packet take_first show_taken
handle_message-idle m w e =
    ap
      (λ q. (
        record m { control_input_queue = (take_first message_packet q).1 },
        show_taken (take_first message_packet q).0 w,
      ))
      e
    ∙ ap (λ q. (record m { control_input_queue = q }, w)) (sym e)

-- The nick of a window whose contact has a display name.
nick_for-named :
    (o : Option Contact) (c : Contact) (sender : SparkleAddress)
    → o ≡ some c
    → is_empty (units c.display_name) ≡ false
    → nick_for o sender ≡ named (to_html (units c.display_name))
unfolding nick_for display_name_or
nick_for-named o c sender contact nonempty = rw (contact, nonempty) refl

-- The only message of the queue is shown, whoever sent it.
handle_message-only :
    (m : Messenger) (w : Window) (p : ControlPacket) (c : Contact) (timestamp : DateTime)
    (text : Text)
    → w.contact ≡ some c
    → is_empty (units c.display_name) ≡ false
    → p.content ≡ message timestamp text
    → m.control_input_queue ≡ p ∷ []
    → handle_message m w ≡ (
      record m { control_input_queue = [] },
      print (line_of timestamp text (named (to_html (units c.display_name)))) w,
    )
unfolding handle_message get_control_packet take_first show_taken show_content
handle_message-only m w p c timestamp text contact nonempty content queue =
    rw (queue, content, nick_for-named w.contact c p.peer contact nonempty) refl

each_window-idle :
    (m : Messenger) (ws : List Window) → m.control_input_queue ≡ [] → each_window m ws ≡ (m, ws)
unfolding each_window
each_window-idle m [] e = refl
each_window-idle m (w ∷ ws) e = rw (handle_message-idle m w e, each_window-idle m ws e) refl

-- If the window that was opened first has a contact with a display name, a message of another peer,
-- whose own window is open too, is shown in that first window under that contact's name, where it is
-- the only packet that waits; the other windows show nothing.
pub on_message_available-misattributed :
    (m : Messenger) (w : Window) (ws : List Window) (p : ControlPacket) (c : Contact)
    (timestamp : DateTime) (text : Text)
    → address_eq w.peer p.peer ≡ false
    → has_window p.peer ws ≡ true
    → w.contact ≡ some c
    → is_empty (units c.display_name) ≡ false
    → p.content ≡ message timestamp text
    → m.control_input_queue ≡ p ∷ []
    → on_message_available p.peer (record { windows = w ∷ ws; messenger = m }) ≡ record {
      windows = print (line_of timestamp text (named (to_html (units c.display_name)))) w ∷ ws;
      messenger = record m { control_input_queue = [] };
    }
unfolding on_message_available has_window each_window
on_message_available-misattributed m w ws p c timestamp text other opened contact nonempty content
      queue =
    rw
      (
        other,
        opened,
        handle_message-only m w p c timestamp text contact nonempty content queue,
        each_window-idle (record m { control_input_queue = [] }) ws refl,
      )
      refl
