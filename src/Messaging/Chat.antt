-- ===== src/Messaging/Chat.antt =====
-- sippy/ChatWindow.cpp, and the slots of sippy/Roster.cpp that open its windows: which message is shown in
-- which window, and under which name. The widgets are left out.
pub mod Attribution
use sparkle.Prelude.{
  ℕ, ◌≡◌, Bool, true, false, not, ◌&&◌, List, [], ◌∷◌, ◌++◌, take, Option, none, some, ◌==◌,
  if◌then◌else◌,
}
use sparkle.Prelude.Bytes.{bytes_eq}
use sparkle.Address.{SparkleAddress, address_eq}
use sparkle.DataStream.{Text, units, DateTime, DataStream}
use sparkle.Messaging.Control.{ControlPacket, Content, authorization, message, message_packet}
use sparkle.Messaging.Html.{replace, filter_html}
use sparkle.Messaging.Contacts.{Contact, find_by_address}
use sparkle.Messaging.Layer.{Output, Messenger, ByteOrder}
use sparkle.Messaging.Layer.Queue.{get_control_packet, send_control_packet}

-- The name in front of a line: an address as it is printed, a display name, or the word for oneself.
pub data Name : Type 0 where
  address_name : SparkleAddress → Name
  named : List ℕ → Name
  me : Name

-- What print appends: a line in HTML, as an action ("/me ...") or as said.
pub record Line : Type 0 where
  pub timestamp : DateTime
  pub action : Bool
  pub nick : Name
  pub text : List ℕ

pub record Window : Type 0 where
  pub peer : SparkleAddress
  pub contact : Option Contact
  pub log : List Line

-- Roster's windows in the order in which they were made, and the application layer.
pub record Chats : Type 0 where
  pub windows : List Window
  pub messenger : Messenger

abbrev pub is_empty : List ℕ → Bool
is_empty [] = true
is_empty (u ∷ us) = false

-- filterHTML, and "<br>" for each line break.
unfoldable pub to_html : List ℕ → List ℕ
to_html us = replace 10 (60 ∷ 98 ∷ 114 ∷ 62 ∷ []) (filter_html us)

unfoldable pub display_name_or : Name → List ℕ → Name
display_name_or other name = if is_empty name then other else named (to_html name)

-- The name of the window's contact, if it has one, and else the sender's address.
unfoldable pub nick_for : Option Contact → SparkleAddress → Name
nick_for (some c) sender = display_name_or (address_name sender) (units c.display_name)
nick_for none sender = address_name sender

-- "/me "
abbrev pub me_prefix : List ℕ
me_prefix = 47 ∷ 109 ∷ 101 ∷ 32 ∷ []

unfoldable pub print : Line → Window → Window
print line w = record w { log = w.log ++ line ∷ [] }

-- The line for a message.
abbrev pub line_of : DateTime → Text → Name → Line
line_of timestamp text nick = record {
  timestamp = timestamp;
  action = bytes_eq (take 4 (units text)) me_prefix;
  nick = nick;
  text = to_html (units text);
}

unfoldable pub show_content : Content → SparkleAddress → Window → Window
show_content (authorization _ _) sender w = w
show_content (message timestamp text) sender w =
    print (line_of timestamp text (nick_for w.contact sender)) w

unfoldable pub show_taken : Option ControlPacket → Window → Window
show_taken none w = w
show_taken (some p) w = show_content p.content p.peer w

-- ChatWindow::handleMessage
unfoldable pub handle_message : Messenger → Window → Messenger × Window
handle_message m w =
    let (taken, left) = get_control_packet message_packet m in (left, show_taken taken w)

-- ChatWindow::ChatWindow, which ends with a call of handleMessage.
unfoldable pub new_window : SparkleAddress → Messenger → Messenger × Window
new_window peer m =
    handle_message m (record { peer = peer; contact = find_by_address m.contacts peer; log = [] })

-- Roster::chatFor
unfoldable pub has_window : SparkleAddress → List Window → Bool
has_window peer [] = false
has_window peer (w ∷ ws) = if address_eq w.peer peer then true else has_window peer ws

-- The slots of the windows, each of which the signal calls.
unfoldable pub each_window : Messenger → List Window → Messenger × List Window
each_window m [] = (m, [])
each_window m (w ∷ ws) =
    let (m1, w') = handle_message m w in let (m2, ws') = each_window m1 ws in (m2, w' ∷ ws')

-- messageAvailable: first Roster::handleMessage, then the windows that were there.
unfoldable pub on_message_available : SparkleAddress → Chats → Chats
on_message_available peer c =
    if has_window peer c.windows
    then (let (m, ws) = each_window c.messenger c.windows in record { windows = ws; messenger = m })
    else (let (m, w) = new_window peer c.messenger in
        let (m', ws) = each_window m c.windows in record { windows = ws ++ w ∷ []; messenger = m' })

module _ (s : DataStream) (order : ByteOrder) where
  -- ChatWindow::sendMessage, with what the editor holds, the id that is drawn and the time.
  unfoldable pub send_message :
      List ℕ → ℕ → DateTime → Messenger → Window → Messenger × List Output × Window
  send_message [] id now m w = (m, [], w)
  send_message (u ∷ us) id now m w =
      let p : ControlPacket = record {
        id = id;
        peer = w.peer;
        content = message now (some (u ∷ us));
      } in
      let (m', outs) = send_control_packet s order p m in
      (
        m',
        outs,
        print
            (record {
              timestamp = now;
              action = false;
              nick = display_name_or me (units m.nick);
              text = to_html (u ∷ us);
            })
            w,
      )
