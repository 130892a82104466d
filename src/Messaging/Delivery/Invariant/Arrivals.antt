-- ===== src/Messaging/Delivery/Invariant/Arrivals.antt =====
-- The arrival of a datagram keeps the invariant, and there is always one: no packet that a
-- messenger sends makes another one follow a null pointer.
use sparkle.Prelude.{
  ℕ, ◌≡◌, refl, sym, ap, subst, ◌⊎◌, inl, inr, List, [], ◌∷◌, ◌++◌, map, some, drop-length,
  drop-length-append,
}
use mathlib.Core.List.{Memᴰ}
use mathlib.Core.List.Memᴰ
use sparkle.Address.{SparkleAddress}
use sparkle.DataStream.{DataStream, IsDataStream}
use sparkle.Messaging.Control.{ControlType, authorization_packet, message_packet, ControlPacket}
use sparkle.Messaging.Control.RoundTrip.{as_received}
use sparkle.Messaging.Layer.{
  Messenger, Reaction, ByteOrder, send_packet, message_packet_of, control_bounce,
}
use sparkle.Messaging.Layer.Queue.{send_control_bounce, announce}
use sparkle.Messaging.Layer.Queue.Bounced.{remove_bounced-cases, remove_bounced-fewer}
use sparkle.Messaging.Layer.Receive.{handle_data_packet}
use sparkle.Messaging.Delivery.{
  Datagram, Parcel, parcel, System, datagram_of, datagrams, appended, after_arrival,
}
use sparkle.Messaging.Delivery.Packets.{
  IsQuiet, request_arrives, notify_arrives, accepted, control_arrives, bounced, bounce_arrives,
}
use sparkle.Messaging.Delivery.Invariant.{
  IsReceived, Explained, requests, notifies, carries, bounces, IsSound, Explained-later,
  usual-Explained, at_elim, as_sent, IsReceived-later,
}

module _ (s : DataStream) (order : ByteOrder) (w : System) (sound : IsSound s order w)
    (laws : IsDataStream s) where
  -- The part that all arrivals share.
  module _ (d : Datagram) (r : Reaction) where
    abbrev before : Messenger
    before = w.host d.to

    abbrev news : List Parcel
    news = map (parcel d.to) (appended before r.0)

    abbrev received : List Parcel
    received = news ++ w.received

    arrival-IsSound :
        ((x : Datagram) → Memᴰ x (datagrams d.to r.1) → Explained s order w.sent received x)
        → ((e : Parcel) → Memᴰ e news → Memᴰ (as_sent e) w.sent)
        → ((p : ControlPacket)
            → Memᴰ p r.0.control_output_queue
            → Memᴰ p before.control_output_queue)
        → ((p : ControlPacket)
            → Memᴰ p before.control_output_queue
            → Memᴰ p r.0.control_output_queue ⊎ IsReceived received d.to p)
        → IsSound s order (after_arrival d r w)
    unfolding after_arrival
    arrival-IsSound new_explained new_genuine fewer same = record {
      explained = λ x k. elim (Memᴰ.append_cases (datagrams d.to r.1) k) [
        | inl new ↦ new_explained x new
        | inr old ↦ Explained-later s order [] news w.sent w.received x (sound.explained x old)
      ];
      writable = sound.writable;
      genuine = λ e k. elim (Memᴰ.append_cases news k) [
        | inl new ↦ new_genuine e new
        | inr old ↦ sound.genuine e old
      ];
      enqueued =
          at_elim
            (λ b m. (p : ControlPacket) → Memᴰ p m.control_output_queue → Memᴰ (parcel b p) w.sent)
            d.to r.0 w.host (λ p h. sound.enqueued d.to p (fewer p h))
            (λ b other. sound.enqueued b);
      kept =
          at_elim
            (λ b m.
              (p : ControlPacket)
              → Memᴰ (parcel b p) w.sent
              → Memᴰ p m.control_output_queue ⊎ IsReceived received b p)
            d.to r.0 w.host
            (λ p h. elim (sound.kept d.to p h) [
              | inl waits ↦ same p waits
              | inr got ↦ inr (IsReceived-later news w.received d.to p got)
            ])
            (λ b other p h. elim (sound.kept b p h) [
              | inl waits ↦ inl waits
              | inr got ↦ inr (IsReceived-later news w.received b p got)
            ]);
    }

    quiet-IsSound : IsQuiet s order before r → IsSound s order (after_arrival d r w)
    quiet-IsSound q =
        arrival-IsSound
          (usual-Explained s order w.sent received before.control_output_queue d.to
            (sound.enqueued d.to) r.1 q.usual)
          (λ e k. elim (rw (nothing_new q) at k) [ ]) (λ p h. subst (Memᴰ p) q.same_output h)
          (λ p h. inl (subst (Memᴰ p) (sym q.same_output) h))
      where
        nothing_new : IsQuiet s order before r → news ≡ []
        nothing_new h = rw (h.same_input, drop-length before.control_input_queue) refl

  bounce_traffic :
      (a b c : SparkleAddress) (id : ℕ) (t : ControlType)
      → datagrams a (send_control_bounce s order b id ∷ announce t c ∷ [])
        ≡ record {
          from = a;
          to = b;
          packet = message_packet_of order control_bounce (s.put_u32 id);
        }
          ∷ []
  unfolding datagrams datagram_of send_control_bounce send_packet announce
  bounce_traffic a b c id authorization_packet = refl
  bounce_traffic a b c id message_packet = refl

  module _ (d : Datagram) where
    -- A control packet that arrives is received as its sender sent it, and its bounce is explained.
    module _ (p : ControlPacket) (h : Memᴰ (parcel d.from p) w.sent) (k : p.peer ≡ d.to) where
      abbrev taken : Reaction
      taken = accepted s order laws p d.from (w.host d.to)

      abbrev newest : Parcel
      newest = parcel d.to (as_received d.from p)

      control_news : news d taken ≡ newest ∷ []
      control_news = ap (map (parcel d.to)) (drop-length-append (w.host d.to).control_input_queue _)

      newest_genuine : Memᴰ (as_sent newest) w.sent
      newest_genuine =
          subst (λ (b : SparkleAddress). Memᴰ (parcel d.from (record p { peer = b })) w.sent) k h

      newest_queued : Memᴰ newest (received d taken)
      newest_queued =
          Memᴰ.append_left w.received (subst (Memᴰ newest) (sym control_news) (Memᴰ.head refl))

      control-Explained :
          (x : Datagram)
          → Memᴰ x (datagrams d.to taken.1)
          → Explained s order w.sent (received d taken) x
      control-Explained x m =
          let e = Memᴰ.eq_of_singleton (rw (bounce_traffic d.to d.from d.from p.id _) at m) in
          subst (Explained s order w.sent (received d taken)) (sym e) (
            bounces (as_received d.from p) newest_queued refl (sound.writable (parcel d.from p) h).0
              refl)

      control-IsSound : IsSound s order (after_arrival d taken w)
      control-IsSound =
          arrival-IsSound d taken control-Explained
            (λ e m.
              subst (λ (x : Parcel). Memᴰ (as_sent x) w.sent)
                (sym (Memᴰ.eq_of_singleton (rw (control_news) at m))) newest_genuine)
            (λ q m. m) (λ q m. inl m)

    -- A bounce takes out of the queue what has been received.
    module _ (p : ControlPacket) (h : Memᴰ (parcel d.from p) w.received) (k : p.peer ≡ d.to) where
      abbrev cleared : Reaction
      cleared = bounced s order laws p.id d.from (w.host d.to)

      cleared_kept :
          (q : ControlPacket)
          → Memᴰ q (w.host d.to).control_output_queue
          → Memᴰ q cleared.0.control_output_queue ⊎ IsReceived (received d cleared) d.to q
      cleared_kept q m =
          elim (remove_bounced-cases p.id d.from (w.host d.to).control_output_queue q m) [
            | inl waits ↦ inl waits
            | inr (i, f) ↦ inr (record {
              got = p;
              enqueued =
                  Memᴰ.append_right (news d cleared)
                    (subst (λ (b : SparkleAddress). Memᴰ (parcel b p) w.received) (sym f) h);
              same_id = sym i;
              same_sender = k;
            })
          ]

      bounce-IsSound : IsSound s order (after_arrival d cleared w)
      unfolding datagrams
      bounce-IsSound =
          arrival-IsSound d cleared (λ x m. elim m [ ])
            (λ e m. elim (rw (drop-length (w.host d.to).control_input_queue) at m) [ ])
            (remove_bounced-fewer p.id d.from (w.host d.to).control_output_queue) cleared_kept

    -- What the host makes of a datagram that was explained.
    pub record IsHandled : Type 0 where
      pub reaction : Reaction
      pub handled : handle_data_packet s order d.packet d.from (w.host d.to) ≡ some reaction
      pub still_sound : IsSound s order (after_arrival d reaction w)

    pub explained-IsHandled : Explained s order w.sent w.received d → IsHandled
    explained-IsHandled (requests e) =
        let (r, h, q) = request_arrives s order [] d.from (w.host d.to) in
        record { reaction = r; handled = rw (e) h; still_sound = quiet-IsSound d r q }
    explained-IsHandled (notifies xs e) =
        let (r, h, q) = notify_arrives s order xs d.from (w.host d.to) in
        record { reaction = r; handled = rw (e) h; still_sound = quiet-IsSound d r q }
    explained-IsHandled (carries p h k e) = record {
      reaction = taken p h k;
      handled = rw (e) (
          control_arrives s order laws p d.from (w.host d.to) (sound.writable (parcel d.from p) h));
      still_sound = control-IsSound p h k;
    }
    explained-IsHandled (bounces p h k l e) = record {
      reaction = cleared p h k;
      handled = rw (e) (bounce_arrives s order laws p.id d.from (w.host d.to) l);
      still_sound = bounce-IsSound p h k;
    }
