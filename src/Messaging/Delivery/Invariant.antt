-- ===== src/Messaging/Delivery/Invariant.antt =====
-- What holds in every state that messengers reach from a fresh one.
pub mod Calls
pub mod Arrivals
use sparkle.Prelude.{
  ℕ, ◌≡◌, ◌≢◌, refl, sym, ap, subst, ◌⊎◌, inl, inr, ◌<◌, ◌^◌, List, [], ◌∷◌, ◌++◌, All, Bool-cases,
}
use mathlib.Core.List.{Memᴰ}
use mathlib.Core.List.Memᴰ
use sparkle.Prelude.Bytes.{Bytes, bytes_eq_refl}
use sparkle.Address.{SparkleAddress, address_eq, address_eq_sound}
use sparkle.DataStream.{DataStream, IsDataStream}
use sparkle.Messaging.Control.{ControlPacket, IsControl, marshall}
use sparkle.Messaging.Layer.{
  Output, data_packet_sent, peer_state_changed, status_changed, status_text_changed, nick_changed,
  authorization_available, message_available, control_timed_out, contact_event, Messenger,
  ByteOrder, presence_request, presence_notify, control_packet, control_bounce, message_packet_of,
}
use sparkle.Messaging.Delivery.{Datagram, Parcel, parcel, System, at, datagram_of, datagrams}
use sparkle.Messaging.Delivery.Reactions.{IsUsual}

-- The peer of a control packet has queued a packet of the same id from its sender.
pub record IsReceived (received : List Parcel) (a : SparkleAddress) (p : ControlPacket)
    : Type 0 where
  pub got : ControlPacket
  pub enqueued : Memᴰ (parcel p.peer got) received
  pub same_id : got.id ≡ p.id
  pub same_sender : got.peer ≡ a

-- What was received, as its sender sent it.
abbrev pub as_sent : Parcel → Parcel
as_sent e = parcel e.packet.peer (record e.packet { peer = e.owner })

module _ (s : DataStream) (order : ByteOrder) where
  -- Why a datagram was sent.
  pub data Explained (sent received : List Parcel) (d : Datagram) : Type 0 where
    requests : d.packet ≡ message_packet_of order presence_request [] → Explained sent received d
    notifies :
        (xs : Bytes)
        → d.packet ≡ message_packet_of order presence_notify xs
        → Explained sent received d
    carries :
        (p : ControlPacket)
        → Memᴰ (parcel d.from p) sent
        → p.peer ≡ d.to
        → d.packet ≡ message_packet_of order control_packet (marshall s p)
        → Explained sent received d
    bounces :
        (p : ControlPacket)
        → Memᴰ (parcel d.from p) received
        → p.peer ≡ d.to
        → p.id < 2 ^ 32
        → d.packet ≡ message_packet_of order control_bounce (s.put_u32 p.id)
        → Explained sent received d

  pub record IsSound (w : System) : Type 0 where
    pub explained : (d : Datagram) → Memᴰ d w.traffic → Explained w.sent w.received d
    pub writable : (e : Parcel) → Memᴰ e w.sent → IsControl e.packet
    pub genuine : (e : Parcel) → Memᴰ e w.received → Memᴰ (as_sent e) w.sent
    pub enqueued :
        (a : SparkleAddress) (p : ControlPacket)
        → Memᴰ p (w.host a).control_output_queue
        → Memᴰ (parcel a p) w.sent
    pub kept :
        (a : SparkleAddress) (p : ControlPacket)
        → Memᴰ (parcel a p) w.sent
        → Memᴰ p (w.host a).control_output_queue ⊎ IsReceived w.received a p

  -- More that was sent or received explains no less.
  pub Explained-later :
      (xs ys sent received : List Parcel) (d : Datagram)
      → Explained sent received d
      → Explained (xs ++ sent) (ys ++ received) d
  Explained-later xs ys sent received d (requests e) = requests e
  Explained-later xs ys sent received d (notifies zs e) = notifies zs e
  Explained-later xs ys sent received d (carries p h k e) = carries p (Memᴰ.append_right xs h) k e
  Explained-later xs ys sent received d (bounces p h k l e) =
      bounces p (Memᴰ.append_right ys h) k l e

  -- Usual output is explained by the queue.
  module _ (sent received : List Parcel) (queue : List ControlPacket) (a : SparkleAddress)
      (f : (p : ControlPacket) → Memᴰ p queue → Memᴰ (parcel a p) sent) where
    usual_packet :
        (to : SparkleAddress) (packet : Bytes)
        → IsUsual s order queue (data_packet_sent to packet)
        → Explained sent received (record { from = a; to = to; packet = packet })
    usual_packet to packet (inl e) = requests e
    usual_packet to packet (inr (inl (xs, e))) = notifies xs e
    usual_packet to packet (inr (inr (p, h, k, e))) = carries p (f p h) k e

    one-Explained :
        (out : Output)
        → IsUsual s order queue out
        → (d : Datagram) → Memᴰ d (datagram_of a out)
        → Explained sent received d
    unfolding datagram_of
    one-Explained (data_packet_sent to packet) h d k =
        subst (Explained sent received) (sym (Memᴰ.eq_of_singleton k)) (usual_packet to packet h)
    one-Explained _ h d k = elim k [ ]

    pub usual-Explained :
        (outs : List Output)
        → All (IsUsual s order queue) outs
        → (d : Datagram) → Memᴰ d (datagrams a outs)
        → Explained sent received d
    unfolding datagrams
    usual-Explained [] h d k = elim k [ ]
    usual-Explained (out ∷ outs) h d k = elim (Memᴰ.append_cases (datagram_of a out) k) [
      | inl now ↦ one-Explained out h.0 d now
      | inr later ↦ usual-Explained outs h.1 d later
    ]

-- More that was received counts no less.
pub IsReceived-later :
    (ys received : List Parcel) (a : SparkleAddress) (p : ControlPacket)
    → IsReceived received a p
    → IsReceived (ys ++ received) a p
IsReceived-later ys received a p r = record {
  got = r.got;
  enqueued = Memᴰ.append_right ys r.enqueued;
  same_id = r.same_id;
  same_sender = r.same_sender;
}

-- What holds of the host that changes, and of all others, holds of all.
pub at_elim :
    (P : SparkleAddress → Messenger → Type 0) (a : SparkleAddress) (m : Messenger)
    (hosts : SparkleAddress → Messenger)
    → P a m
    → ((b : SparkleAddress) → b ≢ a → P b (hosts b))
    → (b : SparkleAddress) → P b (at a m hosts b)
unfolding at
at_elim P a m hosts h k b = elim (Bool-cases (address_eq b a)) [
  | inl e ↦ rw (e) (subst (λ (x : SparkleAddress). P x m) (sym (address_eq_sound b a e)) h)
  | inr e ↦ rw (e) (k b λ same. absurd (cc (same, e, bytes_eq_refl a.bytes)))
]
