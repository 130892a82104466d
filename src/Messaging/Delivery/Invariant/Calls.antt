-- ===== src/Messaging/Delivery/Invariant/Calls.antt =====
-- A call at one host keeps the invariant.
use sparkle.Prelude.{◌≡◌, ◌≢◌, sym, ap, subst, ◌⊎◌, inl, inr, List, [], ◌++◌, map}
use mathlib.Core.List.{Memᴰ}
use mathlib.Core.List.Memᴰ
use sparkle.Address.{SparkleAddress}
use sparkle.DataStream.{DataStream}
use sparkle.Messaging.Control.{ControlPacket, IsControl}
use sparkle.Messaging.Layer.{Reaction, Network, ByteOrder}
use sparkle.Messaging.Layer.Receive.{Call, call_send_control_packet, run_call}
use sparkle.Messaging.Delivery.{Parcel, parcel, System, datagrams, handed_over, IsCall, after_call}
use sparkle.Messaging.Delivery.Reactions.{run_call-queue, run_call-IsUsual}
use sparkle.Messaging.Delivery.Invariant.{
  IsReceived, IsSound, Explained-later, usual-Explained, at_elim,
}

-- A packet that is handed over is one that can be written.
handed_over-IsControl :
    (c : Call) → IsCall c → (p : ControlPacket) → Memᴰ p (handed_over c) → IsControl p
handed_over-IsControl (call_send_control_packet q) h p k =
    subst IsControl (sym (Memᴰ.eq_of_singleton k)) h
handed_over-IsControl _ h p k = elim k [ ]

parcel_packet : (a b : SparkleAddress) (p q : ControlPacket) → parcel a p ≡ parcel b q → p ≡ q
parcel_packet a b p q e = ap (λ (x : Parcel). x.packet) e

parcel_owner : (a b : SparkleAddress) (p q : ControlPacket) → parcel a p ≡ parcel b q → a ≡ b
parcel_owner a b p q e = ap (λ (x : Parcel). x.owner) e

module _ (s : DataStream) (order : ByteOrder) (net : Network) (a : SparkleAddress) (c : Call)
    (w : System) where
  abbrev r : Reaction
  r = run_call s order net c (w.host a)

  abbrev sent : List Parcel
  sent = map (parcel a) (handed_over c) ++ w.sent

  module _ (sound : IsSound s order w) where
    call_queued : (p : ControlPacket) → Memᴰ p r.0.control_output_queue → Memᴰ (parcel a p) sent
    call_queued p h =
        let k = subst (Memᴰ p) (run_call-queue s order net c (w.host a)) h in
        elim (Memᴰ.append_cases (w.host a).control_output_queue k) [
          | inl old ↦ Memᴰ.append_right _ (sound.enqueued a p old)
          | inr new ↦ Memᴰ.append_left w.sent (Memᴰ.map (parcel a) new)
        ]

    still_queued :
        (p : ControlPacket)
        → Memᴰ p ((w.host a).control_output_queue ++ handed_over c)
        → Memᴰ p r.0.control_output_queue
    still_queued p h = subst (Memᴰ p) (sym (run_call-queue s order net c (w.host a))) h

    call_kept :
        (p : ControlPacket)
        → Memᴰ (parcel a p) sent
        → Memᴰ p r.0.control_output_queue ⊎ IsReceived w.received a p
    call_kept p h = elim (Memᴰ.append_cases (map (parcel a) (handed_over c)) h) [
      | inl new ↦
          let (q, m, e) = Memᴰ.of_map (parcel a) (handed_over c) new in
          let here = Memᴰ.cast (sym (parcel_packet a a q p e)) m in
          inl (still_queued p (Memᴰ.append_right (w.host a).control_output_queue here))
      | inr old ↦ elim (sound.kept a p old) [
        | inl waits ↦ inl (still_queued p (Memᴰ.append_left (handed_over c) waits))
        | inr got ↦ inr got
      ]
    ]

    call_writable : IsCall c → (e : Parcel) → Memᴰ e sent → IsControl e.packet
    call_writable ok e h = elim (Memᴰ.append_cases (map (parcel a) (handed_over c)) h) [
      | inl new ↦
          let (q, m, same) = Memᴰ.of_map (parcel a) (handed_over c) new in
          subst (λ (x : Parcel). IsControl x.packet) same (handed_over-IsControl c ok q m)
      | inr old ↦ sound.writable e old
    ]

    call_kept_other :
        (b : SparkleAddress)
        → b ≢ a
        → (p : ControlPacket) → Memᴰ (parcel b p) sent
        → Memᴰ p (w.host b).control_output_queue ⊎ IsReceived w.received b p
    call_kept_other b other p h = elim (Memᴰ.append_cases (map (parcel a) (handed_over c)) h) [
      | inl new ↦
          let (q, m, e) = Memᴰ.of_map (parcel a) (handed_over c) new in
          absurd (other (sym (parcel_owner a b q p e)))
      | inr old ↦ sound.kept b p old
    ]

    pub after_call-IsSound : IsCall c → IsSound s order (after_call a c r w)
    unfolding after_call
    after_call-IsSound ok = record {
      explained = λ d k. elim (Memᴰ.append_cases (datagrams a r.1) k) [
        | inl new ↦
            usual-Explained s order sent w.received r.0.control_output_queue a call_queued r.1
              (run_call-IsUsual s order net c (w.host a)) d new
        | inr old ↦
            Explained-later s order (map (parcel a) (handed_over c)) [] w.sent w.received d
              (sound.explained d old)
      ];
      writable = call_writable ok;
      genuine = λ e k. Memᴰ.append_right _ (sound.genuine e k);
      enqueued =
          at_elim
            (λ b m. (p : ControlPacket) → Memᴰ p m.control_output_queue → Memᴰ (parcel b p) sent) a
            r.0 w.host call_queued (λ b other p h. Memᴰ.append_right _ (sound.enqueued b p h));
      kept =
          at_elim
            (λ b m.
              (p : ControlPacket)
              → Memᴰ (parcel b p) sent
              → Memᴰ p m.control_output_queue ⊎ IsReceived w.received b p)
            a r.0 w.host call_kept call_kept_other;
    }
