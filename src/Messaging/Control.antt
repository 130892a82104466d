-- ===== src/Messaging/Control.antt =====
-- sippy/Messaging.cpp: the packets that ask for an authorization or carry a message, written to a
-- data stream and read from it.
pub mod RoundTrip
use sparkle.Prelude.{ℕ, ◌^◌, ◌<◌, ◌++◌, Option, none, some, ◌==◌, if◌then◌else◌}
use sparkle.Prelude.Bytes.{Bytes}
use sparkle.Address.{SparkleAddress}
use sparkle.DataStream.{Text, IsText, DateTime, IsDateTime, Reader, DataStream}

-- PacketType of Messaging.h
pub data ControlType : Type 0 where
  authorization_packet message_packet : ControlType

abbrev pub control_code : ControlType → ℕ
control_code authorization_packet = 1
control_code message_packet = 2

-- What Authorization and Message add to a ControlPacket.
pub data Content : Type 0 where
  authorization : Text → Text → Content
  message : DateTime → Text → Content

pub record ControlPacket : Type 0 where
  pub id : ℕ
  pub peer : SparkleAddress
  pub content : Content

-- type()
abbrev pub content_type : Content → ControlType
content_type (authorization nick reason) = authorization_packet
content_type (message timestamp text) = message_packet

-- The values that the C++ types can hold.
abbrev pub IsContent : Content → Type 0
IsContent (authorization nick reason) = IsText nick × IsText reason
IsContent (message timestamp text) = IsDateTime timestamp × IsText text

abbrev pub IsControl : ControlPacket → Type 0
IsControl p = (p.id < 2 ^ 32) × IsContent p.content

module _ (s : DataStream) where
  -- ControlPacket::marshall
  unfoldable pub marshall_header : ControlPacket → Bytes
  marshall_header p = s.put_u16 (control_code (content_type p.content)) ++ s.put_u32 p.id

  -- Authorization::marshall and Message::marshall: what they append.
  unfoldable pub marshall_content : Content → Bytes
  marshall_content (authorization nick reason) = s.put_text nick ++ s.put_text reason
  marshall_content (message timestamp text) = s.put_time timestamp ++ s.put_text text

  unfoldable pub marshall : ControlPacket → Bytes
  marshall p = marshall_header p ++ marshall_content p.content

  -- ControlPacket(QDataStream &, ...)
  unfoldable pub read_control_packet : Reader Content → SparkleAddress → Bytes → ControlPacket
  read_control_packet read peer xs =
      let (id, rest) = s.get_u32 xs in record { id = id; peer = peer; content = (read rest).0 }

  -- Authorization(QDataStream &, ...)
  unfoldable pub read_authorization : Reader Content
  read_authorization xs =
      let (nick, rest) = s.get_text xs in
      let (reason, left) = s.get_text rest in (authorization nick reason, left)

  -- Message(QDataStream &, ...)
  unfoldable pub read_message : Reader Content
  read_message xs =
      let (timestamp, rest) = s.get_time xs in
      let (text, left) = s.get_text rest in (message timestamp text, left)

  unfoldable pub demarshall_type : ℕ → Bytes → SparkleAddress → Option ControlPacket
  demarshall_type type xs peer =
      if type == 1
      then some (read_control_packet read_authorization peer xs)
      else if type == 2
      then some (read_control_packet read_message peer xs)
      else none

  -- ControlPacket::demarshall, which returns NULL for another type.
  unfoldable pub demarshall : Bytes → SparkleAddress → Option ControlPacket
  demarshall xs peer = let (type, rest) = s.get_u16 xs in demarshall_type type rest peer
