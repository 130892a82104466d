-- ===== src/Messaging/Control/RoundTrip.antt =====
-- What a control packet becomes on its way to its peer.
use sparkle.Prelude.{[], ℕ, ◌^◌, ◌<◌, ◌≡◌, refl, ◌++◌, some, arith}
use sparkle.Address.{SparkleAddress}
use sparkle.DataStream.{Text, IsText, DataStream, IsDataStream}
use sparkle.Messaging.Control.{
  ControlPacket, Content, authorization, message, IsContent, IsControl, ControlType, content_type,
  control_code, marshall, marshall_header, marshall_content, demarshall, demarshall_type,
  read_control_packet, read_authorization, read_message,
}
use mathlib.Core.List.{append-nil, append_assoc}

control_code-lt : (t : ControlType) → control_code t < 2 ^ 16
control_code-lt t = ground arith

-- As its receiver has it: from the peer that sent it.
abbrev pub as_received : SparkleAddress → ControlPacket → ControlPacket
as_received from p = record p { peer = from }

module _ (s : DataStream) (laws : IsDataStream s) where
  get_text_last : (t : Text) → IsText t → s.get_text (s.put_text t) ≡ (t, [])
  get_text_last t h = rw append-nil at (laws.text_reads t [] h)

  read_content :
      (c : Content) (id : ℕ) (from : SparkleAddress)
      → IsContent c
      → id < 2 ^ 32
      → demarshall_type s
          (control_code (content_type c))
          (s.put_u32 id ++ marshall_content s c)
          from
        ≡ some (record { id = id; peer = from; content = c })
  unfolding demarshall_type read_control_packet read_authorization read_message marshall_content
  read_content (authorization nick reason) id from h k =
      rw
        (
          laws.u32_reads id (s.put_text nick ++ s.put_text reason) k,
          laws.text_reads nick (s.put_text reason) h.0,
          get_text_last reason h.1,
        )
        refl
  read_content (message t text) id from h k =
      rw
        (
          laws.u32_reads id (s.put_time t ++ s.put_text text) k,
          laws.time_reads t (s.put_text text) h.0,
          get_text_last text h.1,
        )
        refl

  -- A control packet that was marshalled is read back by its receiver with the same id and
  -- content, and with the address it came from as its peer.
  pub demarshall-marshall :
      (p : ControlPacket) (from : SparkleAddress)
      → IsControl p
      → demarshall s (marshall s p) from ≡ some (as_received from p)
  unfolding demarshall marshall marshall_header
  demarshall-marshall p from h =
      let code = control_code (content_type p.content) in
      rw
        (
          append_assoc (s.put_u16 code) (s.put_u32 p.id) (marshall_content s p.content),
          laws.u16_reads code _ (control_code-lt (content_type p.content)),
        )
        (read_content p.content p.id from h.1 h.0)
