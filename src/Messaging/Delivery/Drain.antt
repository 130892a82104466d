-- ===== src/Messaging/Delivery/Drain.antt =====
-- A host's queue of control packets can be emptied.
use sparkle.Prelude.{
  ℕ, zero, suc, ◌≡◌, refl, sym, ap, subst, ◌∙◌, ◌≤◌, List, [], ◌∷◌, length, arith,
}
use mathlib.Core.List.{Memᴰ}
use sparkle.Address.{SparkleAddress}
use sparkle.DataStream.{DataStream, IsDataStream}
use sparkle.Messaging.Control.{ControlPacket, IsControl}
use sparkle.Messaging.Layer.{ByteOrder}
use sparkle.Messaging.Layer.Queue.{remove_bounced}
use sparkle.Messaging.Layer.Queue.Bounced.{remove_bounced-fewer, length-remove_bounced_head}
use sparkle.Messaging.Delivery.{
  System, parcel, Reach, Recovery, still, timer, arrival, lost, IsFresh,
}
use sparkle.Messaging.Delivery.Reached.{fresh-IsSound, Reach-IsSound}
use sparkle.Messaging.Delivery.Progress.{
  carrier, answer, settled, resent-TimesOut, arrived-Lands, settled-Lands, settled-queue,
}

-- Packets of one id wait for one peer.
abbrev pub Agree : List ControlPacket → Type 0
Agree queue = (p q : ControlPacket) → Memᴰ p queue → Memᴰ q queue → q.id ≡ p.id → q.peer ≡ p.peer

module _ (s : DataStream) (order : ByteOrder) where
  module _ (laws : IsDataStream s) (a : SparkleAddress) where
    -- A packet that waits is delivered and bounced.
    settles :
        (w t : System) (p : ControlPacket)
        → Recovery s order a w t
        → Memᴰ p (t.host a).control_output_queue
        → IsControl p
        → Recovery s order a w (settled s order laws t a p)
    settles w t p r waits ok =
        arrival (answer s order a p)
          (arrival (carrier s order a p) (timer r (resent-TimesOut s order laws t a p waits))
            (arrived-Lands s order laws t a p waits ok))
          (settled-Lands s order laws t a p waits ok)

    drain :
        (fuel : ℕ) (w t : System) (queue : List ControlPacket)
        → Recovery s order a w t
        → (t.host a).control_output_queue ≡ queue
        → length queue ≤ fuel
        → ((p : ControlPacket) → Memᴰ p queue → IsControl p)
        → Agree queue
        → (u : System) × Recovery s order a w u × ((u.host a).control_output_queue ≡ [])
    drain fuel w t [] r e l ok agree = (t, r, e)
    drain zero w t (p ∷ ps) r e l ok agree = absurd (omega arith)
    drain (suc fuel) w t (p ∷ ps) r e l ok agree =
        let waits : Memᴰ p (t.host a).control_output_queue =
          subst (Memᴰ p) (sym e) (Memᴰ.head refl) in
        let old = remove_bounced-fewer p.id p.peer (p ∷ ps) in
        drain fuel w (settled s order laws t a p) (remove_bounced p.id p.peer (p ∷ ps))
          (settles w t p r waits (ok p (Memᴰ.head refl)))
          (settled-queue s order laws t a p waits ∙ ap (remove_bounced p.id p.peer) e)
          (omega (arith, length-remove_bounced_head p ps)) (λ q m. ok q (old q m))
          (λ q x m n. agree q x (old q m) (old x n))

    -- When everything that is under way in a state that messengers with empty queues reach is lost,
    -- and nobody calls them any more, a host's resend timer and the arrival of what is sent from then
    -- on can empty its queue of control packets, provided that the packets that wait under one id wait for one
    -- peer.
    pub queue-drains :
        (w t : System)
        → IsFresh w
        → Reach s order w t
        → Agree (t.host a).control_output_queue
        → (u : System) × Recovery s order a (lost t) u × ((u.host a).control_output_queue ≡ [])
    queue-drains w t fresh reach agree =
        let sound = Reach-IsSound s order laws w t (fresh-IsSound s order laws w fresh) reach in
        drain (length (t.host a).control_output_queue) (lost t) (lost t)
          (t.host a).control_output_queue still refl (omega arith)
          (λ p m. sound.writable (parcel a p) (sound.enqueued a p m)) agree
