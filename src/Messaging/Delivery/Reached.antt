-- ===== src/Messaging/Delivery/Reached.antt =====
-- The states that messengers reach from a fresh one: what is delivered, and that nobody crashes.
use sparkle.Prelude.{◌≡◌, sym, ap, subst, ◌∙◌, ◌⊎◌, inl, inr, some}
use mathlib.Core.List.{Memᴰ}
use sparkle.Address.{SparkleAddress}
use sparkle.DataStream.{DataStream, IsDataStream}
use sparkle.Messaging.Control.{ControlPacket}
use sparkle.Messaging.Control.RoundTrip.{as_received}
use sparkle.Messaging.Layer.{Reaction, ByteOrder}
use sparkle.Messaging.Layer.Receive.{handle_data_packet}
use sparkle.Messaging.Delivery.{
  Datagram, Parcel, parcel, System, Step, calls, arrives, Reach, here, next, IsFresh, after_arrival,
}
use sparkle.Messaging.Delivery.Invariant.{IsReceived, IsSound, as_sent}
use sparkle.Messaging.Delivery.Invariant.Calls.{after_call-IsSound}
use sparkle.Messaging.Delivery.Invariant.Arrivals.{explained-IsHandled}
use mathlib.Core.Option.{some-injective}

-- What was received of an id that the sender gave once is what it sent.
received_copy :
    (t : System) (a : SparkleAddress) (p : ControlPacket)
    → ((e : Parcel) → Memᴰ e t.received → Memᴰ (as_sent e) t.sent)
    → ((q : ControlPacket) → Memᴰ (parcel a q) t.sent → q.id ≡ p.id → q ≡ p)
    → IsReceived t.received a p
    → Memᴰ (parcel p.peer (as_received a p)) t.received
received_copy t a p genuine unique r =
    let g = r.got in
    let original : ControlPacket = record g { peer = p.peer } in
    let from_a =
      subst (λ (b : SparkleAddress). Memᴰ (parcel b original) t.sent) r.same_sender
        (genuine (parcel p.peer g) r.enqueued) in
    let same : g ≡ as_received a p =
      ap (λ (b : SparkleAddress). as_received b g) r.same_sender
      ∙ ap (as_received a) (unique original from_a r.same_id) in
    subst (λ (q : ControlPacket). Memᴰ (parcel p.peer q) t.received) same r.enqueued

module _ (s : DataStream) (order : ByteOrder) (laws : IsDataStream s) where
  pub fresh-IsSound : (w : System) → IsFresh w → IsSound s order w
  fresh-IsSound w f = record {
    explained = λ d k. elim (subst (Memᴰ d) f.no_traffic k) [ ];
    writable = λ e k. elim (subst (Memᴰ e) f.none_sent k) [ ];
    genuine = λ e k. elim (subst (Memᴰ e) f.none_received k) [ ];
    enqueued = λ a p k. elim (subst (Memᴰ p) (f.none_queued a) k) [ ];
    kept = λ a p k. elim (subst (Memᴰ (parcel a p)) f.none_sent k) [ ];
  }

  Step-IsSound : (t u : System) → Step s order t u → IsSound s order t → IsSound s order u
  Step-IsSound t _ (calls net a c ok) sound = after_call-IsSound s order net a c t sound ok
  Step-IsSound t _ (arrives d r sent e) sound =
      let h = explained-IsHandled s order t sound laws d (sound.explained d sent) in
      subst (λ (x : Reaction). IsSound s order (after_arrival d x t))
        (some-injective h.reaction r (sym h.handled ∙ e)) h.still_sound

  pub Reach-IsSound : (w t : System) → IsSound s order w → Reach s order w t → IsSound s order t
  Reach-IsSound w _ sound here = sound
  Reach-IsSound w u sound (next {t} r st) = Step-IsSound t u st (Reach-IsSound w t sound r)

  -- Among messengers that start with empty queues, over a network that loses, repeats and
  -- reorders datagrams, a control packet that a host has sent still waits in its output queue, or
  -- has been put into the input queue of its peer, with its id, its content and the address of
  -- its sender; provided that the host gives no other packet the same id.
  pub sent-delivered :
      (w t : System) (a : SparkleAddress) (p : ControlPacket)
      → IsFresh w
      → Reach s order w t
      → Memᴰ (parcel a p) t.sent
      → ((q : ControlPacket) → Memᴰ (parcel a q) t.sent → q.id ≡ p.id → q ≡ p)
      → Memᴰ p (t.host a).control_output_queue ⊎ Memᴰ (parcel p.peer (as_received a p)) t.received
  sent-delivered w t a p fresh reach sent unique =
      let sound = Reach-IsSound w t (fresh-IsSound w fresh) reach in
      elim (sound.kept a p sent) [
        | inl waits ↦ inl waits
        | inr r ↦ inr (received_copy t a p sound.genuine unique r)
      ]

  -- Among messengers that start with empty queues, every datagram that one of them has sent can be
  -- handled by the host that it is sent to, at any later time, without following a null pointer.
  pub traffic-handled :
      (w t : System) (d : Datagram)
      → IsFresh w
      → Reach s order w t
      → Memᴰ d t.traffic
      → (r : Reaction) × (handle_data_packet s order d.packet d.from (t.host d.to) ≡ some r)
  traffic-handled w t d fresh reach sent =
      let sound = Reach-IsSound w t (fresh-IsSound w fresh) reach in
      let h = explained-IsHandled s order t sound laws d (sound.explained d sent) in
      (h.reaction, h.handled)
