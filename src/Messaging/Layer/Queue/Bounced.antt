-- ===== src/Messaging/Layer/Queue/Bounced.antt =====
-- What the loop of handleControlBounce takes out of the queue.
use sparkle.Prelude.{
  ℕ, ◌≡◌, ◌≢◌, refl, sym, ap, ◌∙◌, ◌⊎◌, inl, inr, List, [], ◌∷◌, true, false, Bool-cases, ◌==◌,
  ==_iff, ==_refl, length, ◌≤◌, arith,
}
use mathlib.Core.List.{Memᴰ}
use mathlib.Core.List.Memᴰ
use sparkle.Address.{SparkleAddress, address_eq, address_eq_sound}
use sparkle.Prelude.Bytes.{bytes_eq_refl}
use sparkle.Messaging.Control.{ControlPacket}
use sparkle.Messaging.Layer.Queue.{remove_bounced}

module _ (id : ℕ) (a : SparkleAddress) where
  remove_bounced-other :
      (q : ControlPacket) (ps : List ControlPacket)
      → (q.id == id) ≡ false
      → remove_bounced id a (q ∷ ps) ≡ q ∷ remove_bounced id a ps
  unfolding remove_bounced
  remove_bounced-other q ps e = rw (e) refl

  remove_bounced-stop :
      (q : ControlPacket) (ps : List ControlPacket)
      → (q.id == id) ≡ true
      → address_eq q.peer a ≡ false
      → remove_bounced id a (q ∷ ps) ≡ q ∷ ps
  unfolding remove_bounced
  remove_bounced-stop q ps e f = rw (e, f) refl

  remove_bounced-same :
      (q : ControlPacket) (ps : List ControlPacket)
      → (q.id == id) ≡ true
      → address_eq q.peer a ≡ true
      → remove_bounced id a (q ∷ ps) ≡ remove_bounced id a ps
  unfolding remove_bounced
  remove_bounced-same q ps e f = rw (e, f) refl

  -- What it takes out has the id, and went to the host that sent the bounce.
  pub remove_bounced-cases :
      (ps : List ControlPacket) (p : ControlPacket)
      → Memᴰ p ps
      → Memᴰ p (remove_bounced id a ps) ⊎ ((p.id ≡ id) × (p.peer ≡ a))
  remove_bounced-cases [] p h = elim h [ ]
  remove_bounced-cases (q ∷ ps) p h = elim (Bool-cases (q.id == id)) [
    | inr e ↦ rw (remove_bounced-other q ps e) (elim (Memᴰ.cases_cons h) [
      | inl same ↦ inl (Memᴰ.head same)
      | inr k ↦ elim (remove_bounced-cases ps p k) [
        | inl waits ↦ inl (Memᴰ.tail waits)
        | inr taken ↦ inr taken
      ]
    ])
    | inl e ↦ elim (Bool-cases (address_eq q.peer a)) [
      | inr f ↦ rw (remove_bounced-stop q ps e f) (inl h)
      | inl f ↦ rw (remove_bounced-same q ps e f) (elim (Memᴰ.cases_cons h) [
        | inl same ↦ inr (
          ap (λ (x : ControlPacket). x.id) same ∙ (==_iff q.id id).0 e,
          ap (λ (x : ControlPacket). x.peer) same ∙ address_eq_sound q.peer a f,
        )
        | inr k ↦ remove_bounced-cases ps p k
      ])
    ]
  ]

  -- It adds nothing.
  pub remove_bounced-fewer :
      (ps : List ControlPacket) (p : ControlPacket) → Memᴰ p (remove_bounced id a ps) → Memᴰ p ps
  unfolding remove_bounced
  remove_bounced-fewer [] p h = h
  remove_bounced-fewer (q ∷ ps) p h = elim (Bool-cases (q.id == id)) [
    | inr e ↦ elim (Memᴰ.cases_cons (rw (remove_bounced-other q ps e) at h)) [
      | inl same ↦ Memᴰ.head same
      | inr k ↦ Memᴰ.tail (remove_bounced-fewer ps p k)
    ]
    | inl e ↦ elim (Bool-cases (address_eq q.peer a)) [
      | inr f ↦ rw (remove_bounced-stop q ps e f) at h
      | inl f ↦ Memᴰ.tail (remove_bounced-fewer ps p (rw (remove_bounced-same q ps e f) at h))
    ]
  ]

  -- If all packets of the id went to that host, none of them is left.
  pub remove_bounced-none :
      (ps : List ControlPacket)
      → ((p : ControlPacket) → Memᴰ p ps → p.id ≡ id → p.peer ≡ a)
      → (p : ControlPacket) → Memᴰ p (remove_bounced id a ps)
      → p.id ≢ id
  remove_bounced-none [] f p h = elim (remove_bounced-fewer [] p h) [ ]
  remove_bounced-none (q ∷ ps) f p h = elim (Bool-cases (q.id == id)) [
    | inr e ↦ elim (Memᴰ.cases_cons (rw (remove_bounced-other q ps e) at h)) [
      | inl same ↦
          λ k. absurd (cc (e, (==_iff q.id id).1 (sym (ap (λ (x : ControlPacket). x.id) same) ∙ k)))
      | inr k ↦ remove_bounced-none ps (λ x m. f x (Memᴰ.tail m)) p k
    ]
    | inl e ↦
        let same_peer : address_eq q.peer a ≡ true =
          rw (f q (Memᴰ.head refl) ((==_iff q.id id).0 e)) (bytes_eq_refl a.bytes) in
        remove_bounced-none ps (λ x m. f x (Memᴰ.tail m)) p
          (rw (remove_bounced-same q ps e same_peer) at h)
  ]

  length-remove_bounced : (ps : List ControlPacket) → length (remove_bounced id a ps) ≤ length ps
  unfolding remove_bounced
  length-remove_bounced [] = omega arith
  length-remove_bounced (q ∷ ps) = elim (Bool-cases (q.id == id)) [
    | inr e ↦ rw (remove_bounced-other q ps e) (omega (arith, length-remove_bounced ps))
    | inl e ↦ elim (Bool-cases (address_eq q.peer a)) [
      | inr f ↦ rw (remove_bounced-stop q ps e f) (omega arith)
      | inl f ↦ rw (remove_bounced-same q ps e f) (omega (arith, length-remove_bounced ps))
    ]
  ]

-- The bounce of the first packet in the queue takes it out.
pub length-remove_bounced_head :
    (p : ControlPacket) (ps : List ControlPacket)
    → length (remove_bounced p.id p.peer (p ∷ ps)) ≤ length ps
length-remove_bounced_head p ps =
    rw (remove_bounced-same p.id p.peer p ps (==_refl p.id) (bytes_eq_refl p.peer.bytes))
      (length-remove_bounced p.id p.peer ps)
