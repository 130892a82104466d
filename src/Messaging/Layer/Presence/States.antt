-- ===== src/Messaging/Layer/Presence/States.antt =====
-- How notifications, missing routes and a cleanup change what peerState answers.
use sparkle.Prelude.{
  ◌≡◌, refl, ◌∙◌, Bool, true, false, not, ◌&&◌, ◌||◌, subst, ℕ, inl, inr, Bool-cases, List, Option,
  none, some, if◌then◌else◌,
}
use sparkle.Prelude.Bytes.{Bytes}
use sparkle.Address.{SparkleAddress, address_eq, address_eq_sound}
use sparkle.DataStream.{Text, DataStream}
use sparkle.Messaging.Contacts.{Contact, find_by_address}
use sparkle.Messaging.Layer.{Messenger, Network, ByteOrder}
use sparkle.Messaging.Layer.Presence.{
  PeerState, present, unauthorized, not_present, internal_error, unavailable, contains_address,
  insert_address, peer_absent, cleanup, peer_state, show_presence, handle_presence_notify,
}

-- A set has what was inserted, and what it had.
contains_address-insert_address :
    (set : List SparkleAddress) (a b : SparkleAddress)
    → contains_address (insert_address set a) b ≡ (address_eq a b || contains_address set b)
unfolding contains_address insert_address
contains_address-insert_address set a b = elim (Bool-cases (contains_address set a)) [
  | inr e ↦ rw (e) (if_true_or (address_eq a b) (contains_address set b))
  | inl e ↦ elim (Bool-cases (address_eq a b)) [
    | inr f ↦ rw (e, f) refl
    | inl f ↦
        rw (e, f)
          (subst (λ (c : SparkleAddress). contains_address set c ≡ true) (address_eq_sound a b f) e)
  ]
]
  where
    if_true_or : (x y : Bool) → (if x then true else y) ≡ (x || y)
    if_true_or true y = refl
    if_true_or false y = refl

-- What peerState answers, by the route, the two sets and the link layer.
answer_by : Bool → Bool → Bool → Bool → PeerState
answer_by routed authorized absent joined =
    if routed
    then if authorized then present else unauthorized
    else if absent
    then not_present
    else if joined
    then internal_error
    else unavailable

-- One more authorized peer.
answer_by-authorized :
    (routed same authorized absent joined : Bool)
    → answer_by routed (same || authorized) absent joined
      ≡ (if routed && same then present else answer_by routed authorized absent joined)
unfolding answer_by
answer_by-authorized true true authorized absent joined = refl
answer_by-authorized true false authorized absent joined = refl
answer_by-authorized false same authorized absent joined = refl

-- One more absent peer.
answer_by-absent :
    (routed same authorized absent joined : Bool)
    → answer_by routed authorized (same || absent) joined
      ≡ (if not routed && same then not_present else answer_by routed authorized absent joined)
unfolding answer_by
answer_by-absent true same authorized absent joined = refl
answer_by-absent false true authorized absent joined = refl
answer_by-absent false false authorized absent joined = refl

module _ (s : DataStream) (order : ByteOrder) where
  peer_state-answer_by :
      (net : Network) (b : SparkleAddress) (m : Messenger)
      → (peer_state s order net b m).0
        ≡ answer_by
            (net.has_route b)
            (contains_address m.authorized_peers b)
            (contains_address m.absent_peers b)
            net.is_joined
  unfolding peer_state answer_by
  peer_state-answer_by net b m = elim (Bool-cases (net.has_route b)) [
    | inl e ↦ rw (e) refl
    | inr e ↦ elim (Bool-cases (contains_address m.absent_peers b)) [
      | inl f ↦ rw (e, f) refl
      | inr f ↦ elim (Bool-cases net.is_joined) [
        | inl g ↦ rw (e, f, g) refl
        | inr g ↦ rw (e, f, g) refl
      ]
    ]
  ]

  show_presence-sets :
      (o : Option Contact) (status : ℕ) (text : Text) (m : Messenger)
      → ((show_presence s order o status text m).0.authorized_peers ≡ m.authorized_peers)
        × ((show_presence s order o status text m).0.absent_peers ≡ m.absent_peers)
  unfolding show_presence
  show_presence-sets none status text m = (refl, refl)
  show_presence-sets (some c) status text m = (refl, refl)

  notify-peer_state :
      (net : Network) (m : Messenger) (payload : Bytes) (a b : SparkleAddress)
      → (peer_state s order net b (handle_presence_notify s order payload a m).0).0
        ≡ (if net.has_route b && address_eq a b then present else (peer_state s order net b m).0)
  unfolding handle_presence_notify
  notify-peer_state net m payload a b =
      let shown =
        show_presence-sets (find_by_address m.contacts a) (s.get_u16 payload).0
          (s.get_text (s.get_u16 payload).1).0
          (record m { authorized_peers = insert_address m.authorized_peers a }) in
      peer_state-answer_by net b (handle_presence_notify s order payload a m).0
      ∙ rw
          (
            shown.0,
            shown.1,
            contains_address-insert_address m.authorized_peers a b,
            peer_state-answer_by net b m,
          )
          (answer_by-authorized (net.has_route b) (address_eq a b)
            (contains_address m.authorized_peers b) (contains_address m.absent_peers b)
            net.is_joined)

  absent-peer_state :
      (net : Network) (m : Messenger) (a b : SparkleAddress)
      → (peer_state s order net b (peer_absent a m).0).0 ≡ (
          if not (net.has_route b) && address_eq a b
          then not_present
          else (peer_state s order net b m).0)
  unfolding peer_absent
  absent-peer_state net m a b =
      peer_state-answer_by net b (peer_absent a m).0
      ∙ rw (contains_address-insert_address m.absent_peers a b, peer_state-answer_by net b m)
          (answer_by-absent (net.has_route b) (address_eq a b)
            (contains_address m.authorized_peers b) (contains_address m.absent_peers b)
            net.is_joined)

  cleanup-peer_state :
      (net : Network) (m : Messenger) (b : SparkleAddress)
      → (peer_state s order net b (cleanup m).0).0 ≡ (
          if net.has_route b
          then unauthorized
          else if net.is_joined
          then internal_error
          else unavailable)
  unfolding cleanup answer_by contains_address
  cleanup-peer_state net m b = peer_state-answer_by net b (cleanup m).0

  -- A presence notification of any content makes peerState answer Present for its sender, if there
  -- is a route to it, and changes the answer for no one else. A peer that is found absent is
  -- NotPresent if there is no route to it, and the answer for anyone else stays. After a cleanup a peer with a route is Unauthorized, and
  -- one without is Unavailable if the link layer has left the network, and else an InternalError
  -- until it answers.
  pub peer_state-changes :
      (net : Network) (m : Messenger) (payload : Bytes) (a b : SparkleAddress)
      → let answer = λ (m' : Messenger). (peer_state s order net b m').0 in
        (answer (handle_presence_notify s order payload a m).0
          ≡ (if net.has_route b && address_eq a b then present else answer m))
        × (answer (peer_absent a m).0
            ≡ (if not (net.has_route b) && address_eq a b then not_present else answer m))
        × (answer (cleanup m).0 ≡ (
            if net.has_route b
            then unauthorized
            else if net.is_joined
            then internal_error
            else unavailable))
  peer_state-changes net m payload a b =
      (notify-peer_state net m payload a b, absent-peer_state net m a b, cleanup-peer_state net m b)
