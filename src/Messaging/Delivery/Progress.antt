-- ===== src/Messaging/Delivery/Progress.antt =====
-- How a control packet that waits is delivered: the timer sends it again, it arrives, and its bounce
-- arrives.
use sparkle.Prelude.{
  ◌≡◌, ◌≢◌, inl, inr, refl, sym, ap, subst, ◌∙◌, List, [], ◌∷◌, All, map, drop-length-append,
}
use mathlib.Core.List.{Memᴰ}
use mathlib.Core.List.Memᴰ
use sparkle.Prelude.Bytes.{bytes_eq_refl}
use sparkle.Address.{SparkleAddress}
use sparkle.DataStream.{DataStream, IsDataStream}
use sparkle.Messaging.Control.{ControlPacket, IsControl, marshall}
use sparkle.Messaging.Control.RoundTrip.{as_received}
use sparkle.Messaging.Layer.{
  Messenger, ByteOrder, control_packet, control_bounce, send_packet, message_packet_of,
}
use sparkle.Messaging.Layer.Queue.{
  remove_bounced, send_control, send_control_bounce, resend_each, resend_control_packets,
}
use sparkle.Messaging.Layer.Queue.Bounced.{remove_bounced-none}
use sparkle.Messaging.Layer.Receive.{call_resend}
use sparkle.Messaging.Delivery.{
  Datagram, parcel, System, at, datagram_of, datagrams, TimesOut, times_out, Lands, lands,
  after_call, after_arrival,
}
use sparkle.Messaging.Delivery.Packets.{accepted, control_arrives, bounced, bounce_arrives}
use sparkle.Messaging.Delivery.Invariant.{at_elim}

All-of_mem {ℓ κ} :
    {A : Type ℓ} (P : A → Type κ) (xs : List A) → ((x : A) → Memᴰ x xs → P x) → All P xs
All-of_mem P [] h = tt
All-of_mem P (x ∷ xs) h = (h x (Memᴰ.head refl), All-of_mem P xs (λ y m. h y (Memᴰ.tail m)))

same_queue :
    (b : SparkleAddress) (m : Messenger) (hosts : SparkleAddress → Messenger)
    → m.control_output_queue ≡ (hosts b).control_output_queue
    → (c : SparkleAddress) → (at b m hosts c).control_output_queue ≡ (hosts c).control_output_queue
same_queue b m hosts e =
    at_elim (λ c x. x.control_output_queue ≡ (hosts c).control_output_queue) b m hosts e
      (λ c other. refl)

at_self :
    (a : SparkleAddress) (m : Messenger) (hosts : SparkleAddress → Messenger) → at a m hosts a ≡ m
unfolding at
at_self a m hosts = rw (bytes_eq_refl a.bytes) refl

module _ (s : DataStream) (order : ByteOrder) where
  -- A control packet on its way, and its bounce.
  abbrev pub carrier : SparkleAddress → ControlPacket → Datagram
  carrier a p = record {
    from = a;
    to = p.peer;
    packet = message_packet_of order control_packet (marshall s p);
  }

  abbrev pub answer : SparkleAddress → ControlPacket → Datagram
  answer a p = record {
    from = p.peer;
    to = a;
    packet = message_packet_of order control_bounce (s.put_u32 p.id);
  }

module _ (s : DataStream) (order : ByteOrder) (laws : IsDataStream s) where
  resend_each-carrier :
      (a : SparkleAddress) (p : ControlPacket) (ps : List ControlPacket)
      → Memᴰ p ps
      → Memᴰ (carrier s order a p) (datagrams a (resend_each s order ps))
  unfolding datagrams datagram_of resend_each send_control send_packet
  resend_each-carrier a p [] h = elim h [ ]
  resend_each-carrier a p (q ∷ ps) h = elim (Memᴰ.cases_cons h) [
    | inl e ↦ Memᴰ.head (ap (carrier s order a) e)
    | inr k ↦ Memᴰ.tail (resend_each-carrier a p ps k)
  ]

  module _ (w : System) (a : SparkleAddress) (p : ControlPacket) where
    -- The timer.
    abbrev pub resent : System
    resent = after_call a call_resend (resend_control_packets s order (w.host a)) w

    -- The arrival at the peer.
    abbrev pub arrived : System
    arrived =
        after_arrival (carrier s order a p) (accepted s order laws p a (resent.host p.peer)) resent

    -- The arrival of the bounce.
    abbrev pub settled : System
    settled =
        after_arrival (answer s order a p) (bounced s order laws p.id p.peer (arrived.host a))
          arrived

    module _ (waits : Memᴰ p (w.host a).control_output_queue) where
      resent-carrier : Memᴰ (carrier s order a p) resent.traffic
      unfolding after_call resend_control_packets
      resent-carrier =
          Memᴰ.append_left w.traffic (resend_each-carrier a p (w.host a).control_output_queue waits)

      arrived-answer : Memᴰ (answer s order a p) arrived.traffic
      unfolding after_arrival datagrams datagram_of send_control_bounce send_packet
      arrived-answer = Memᴰ.head refl

      arrived-received : Memᴰ (parcel p.peer (as_received a p)) arrived.received
      unfolding after_arrival after_call
      arrived-received =
          let same =
            ap (map (parcel p.peer)) (
              drop-length-append (resent.host p.peer).control_input_queue (as_received a p ∷ [])) in
          Memᴰ.append_left w.received
            (subst (Memᴰ (parcel p.peer (as_received a p))) (sym same) (Memᴰ.head refl))

      arrived-queue : (arrived.host a).control_output_queue ≡ (w.host a).control_output_queue
      unfolding after_arrival after_call resend_control_packets
      arrived-queue = same_queue p.peer _ resent.host refl a ∙ same_queue a (w.host a) w.host refl a

      pub settled-queue :
          (settled.host a).control_output_queue
          ≡ remove_bounced p.id p.peer (w.host a).control_output_queue
      unfolding after_arrival
      settled-queue =
          ap (λ (m : Messenger). m.control_output_queue) (at_self a _ arrived.host)
          ∙ ap (remove_bounced p.id p.peer) arrived-queue

      pub resent-TimesOut : TimesOut s order a w resent
      resent-TimesOut = times_out

      pub arrived-Lands : IsControl p → Lands s order (carrier s order a p) resent arrived
      arrived-Lands ok =
          lands _ resent-carrier (control_arrives s order laws p a (resent.host p.peer) ok)

      pub settled-Lands : IsControl p → Lands s order (answer s order a p) arrived settled
      settled-Lands ok =
          lands _ arrived-answer (bounce_arrives s order laws p.id p.peer (arrived.host a) ok.0)

  -- In any state of a network of messengers, whatever has been lost, a control packet that waits in
  -- a host's queue is delivered by the resend timer alone: when it has gone off, the packet can
  -- arrive at its peer, which then has it in its input queue, and after that its bounce can arrive
  -- at the host, which then has nothing of its id in its queue any more, provided that no packet for
  -- another peer waits there under the same id.
  pub resend_control_packets-delivers :
      (w : System) (a : SparkleAddress) (p : ControlPacket)
      → IsControl p
      → Memᴰ p (w.host a).control_output_queue
      → ((q : ControlPacket)
          → Memᴰ q (w.host a).control_output_queue
          → q.id ≡ p.id
          → q.peer ≡ p.peer)
      → (t u v : System) × TimesOut s order a w t
        × Lands s order (carrier s order a p) t u
        × Memᴰ (parcel p.peer (as_received a p)) u.received
        × Lands s order (answer s order a p) u v
        × All (λ (q : ControlPacket). q.id ≢ p.id) (v.host a).control_output_queue
  resend_control_packets-delivers w a p ok waits alone = (
    resent w a p,
    arrived w a p,
    settled w a p,
    resent-TimesOut w a p waits,
    arrived-Lands w a p waits ok,
    arrived-received w a p waits,
    settled-Lands w a p waits ok,
    All-of_mem (λ (q : ControlPacket). q.id ≢ p.id) _
        (λ q h.
          remove_bounced-none p.id p.peer (w.host a).control_output_queue alone q
            (subst (Memᴰ q) (settled-queue w a p waits) h)),
  )
