-- ===== src/Messaging/Delivery/Reactions.antt =====
-- What the calls of a messenger send, and what they do to its queue of control packets.
use sparkle.Prelude.{
  ◌≡◌, refl, sym, ◌⊎◌, inl, inr, Bool-cases, Bool, true, false, List, [], ◌∷◌, ◌++◌, map, All,
  All-append, if◌then◌else◌,
}
use mathlib.Core.List.{Memᴰ, append-nil}
use mathlib.Core.List.Memᴰ
use sparkle.Prelude.Bytes.{Bytes}
use sparkle.Address.{SparkleAddress}
use sparkle.DataStream.{DataStream}
use sparkle.Messaging.Control.{ControlPacket, marshall}
use sparkle.Messaging.Contacts.{
  Contact, ListEvent, contact_added, contact_removed, contact_updated, saved,
}
use sparkle.Messaging.Layer.{
  Output, peer_state_changed, data_packet_sent, Messenger, Network, ByteOrder, presence_request,
  presence_notify, control_packet, message_packet_of, send_packet,
}
use sparkle.Messaging.Layer.Presence.{
  set_nick, peer_absent, cleanup, send_presence_request, send_presence_notify, fetch_contact,
  fetch_each, fetch_all_contacts, send_presence, set_status, set_status_text, peer_state,
  contains_address,
}
use sparkle.Messaging.Layer.Queue.{
  send_control, send_control_packet, resend_each, resend_control_packets, get_control_packet,
}
use sparkle.Messaging.Layer.Receive.{
  Call, call_set_status, call_set_status_text, call_set_nick, call_peer_state, call_peer_absent,
  call_peer_changed, call_fetch_all_contacts, call_cleanup, call_resend, call_add_contact,
  call_remove_contact, call_load, call_send_control_packet, call_get_control_packet, on_list_events,
  change_contacts, run_call,
}
use sparkle.Messaging.Delivery.{handed_over}

pub All-map {ℓ κ μ} :
    {A : Type ℓ} {B : Type κ} (P : B → Type μ) (f : A → B)
    → ((a : A) → P (f a))
    → (xs : List A) → All P (map f xs)
All-map P f h [] = tt
All-map P f h (x ∷ xs) = (h x, All-map P f h xs)

pub All-if {ℓ κ} :
    {A : Type ℓ} (P : A → Type κ) (b : Bool) (xs : List A) → All P xs → All P (if b then xs else [])
All-if P true xs h = h
All-if P false xs h = tt

module _ (s : DataStream) (order : ByteOrder) where
  -- A presence packet, or a control packet that waits in the queue, to its peer.
  abbrev pub IsUsual : List ControlPacket → Output → Type 0
  IsUsual queue (data_packet_sent to packet) =
      (packet ≡ message_packet_of order presence_request [])
      ⊎ ((xs : Bytes) × (packet ≡ message_packet_of order presence_notify xs))
      ⊎ ((p : ControlPacket) × Memᴰ p queue
          × (p.peer ≡ to)
          × (packet ≡ message_packet_of order control_packet (marshall s p)))
  IsUsual queue _ = Unit

  module _ (queue : List ControlPacket) where
    request-IsUsual : (a : SparkleAddress) → IsUsual queue (send_presence_request s order a)
    unfolding send_presence_request send_packet
    request-IsUsual a = inl refl

    pub notify-IsUsual :
        (m : Messenger) (a : SparkleAddress) → IsUsual queue (send_presence_notify s order m a)
    unfolding send_presence_notify send_packet
    notify-IsUsual m a = inr (inl (_, refl))

    control-IsUsual : (p : ControlPacket) → Memᴰ p queue → IsUsual queue (send_control s order p)
    unfolding send_control send_packet
    control-IsUsual p h = inr (inr (p, h, refl, refl))

    fetch_contact-IsUsual :
        (net : Network) (m : Messenger) (c : Contact)
        → All (IsUsual queue) (fetch_contact s order net m c)
    unfolding fetch_contact
    fetch_contact-IsUsual net m c =
        All-if (IsUsual queue) net.is_joined _
          (request-IsUsual c.address, (notify-IsUsual m c.address, tt))

    fetch_each-IsUsual :
        (net : Network) (m : Messenger) (cs : List Contact)
        → All (IsUsual queue) (fetch_each s order net m cs)
    unfolding fetch_each
    fetch_each-IsUsual net m [] = tt
    fetch_each-IsUsual net m (c ∷ cs) =
        All-append (IsUsual queue) (fetch_contact s order net m c) (fetch_each s order net m cs)
          (fetch_contact-IsUsual net m c) (fetch_each-IsUsual net m cs)

    send_presence-IsUsual :
        (net : Network) (m : Messenger) → All (IsUsual queue) (send_presence s order net m)
    unfolding send_presence
    send_presence-IsUsual net m = All-if (IsUsual queue) net.is_joined _ (
        All-map (IsUsual queue) (λ (c : Contact). send_presence_notify s order m c.address)
          (λ c. notify-IsUsual m c.address) m.contacts)

    resend_each-IsUsual :
        (ps : List ControlPacket)
        → ((p : ControlPacket) → Memᴰ p ps → Memᴰ p queue)
        → All (IsUsual queue) (resend_each s order ps)
    unfolding resend_each
    resend_each-IsUsual [] h = tt
    resend_each-IsUsual (p ∷ ps) h = (
      tt,
      (control-IsUsual p (h p (Memᴰ.head refl)), resend_each-IsUsual ps (λ q k. h q (Memᴰ.tail k))),
    )

    on_list_events-IsUsual :
        (net : Network) (m : Messenger) (es : List ListEvent)
        → All (IsUsual queue) (on_list_events s order net m es)
    unfolding on_list_events
    on_list_events-IsUsual net m [] = tt
    on_list_events-IsUsual net m (contact_added c ∷ es) = (
      tt,
      All-append (IsUsual queue) (fetch_contact s order net m c) (on_list_events s order net m es)
          (fetch_contact-IsUsual net m c) (on_list_events-IsUsual net m es),
    )
    on_list_events-IsUsual net m (contact_removed c ∷ es) = (tt, on_list_events-IsUsual net m es)
    on_list_events-IsUsual net m (contact_updated c ∷ es) = (tt, on_list_events-IsUsual net m es)
    on_list_events-IsUsual net m (saved cs ∷ es) = (tt, on_list_events-IsUsual net m es)

    peer_state-IsUsual :
        (net : Network) (a : SparkleAddress) (m : Messenger)
        → All (IsUsual queue) (peer_state s order net a m).1
    unfolding peer_state
    peer_state-IsUsual net a m = elim (Bool-cases (net.has_route a)) [
      | inl e ↦ rw (e) tt
      | inr e ↦ elim (Bool-cases (contains_address m.absent_peers a)) [
        | inl f ↦ rw (e, f) tt
        | inr f ↦ elim (Bool-cases net.is_joined) [
          | inl g ↦ rw (e, f, g) (request-IsUsual a, tt)
          | inr g ↦ rw (e, f, g) tt
        ]
      ]
    ]

  -- A call appends to the queue what it is given to send, and leaves the rest of it.
  pub run_call-queue :
      (net : Network) (c : Call) (m : Messenger)
      → (run_call s order net c m).0.control_output_queue ≡ m.control_output_queue ++ handed_over c
  unfolding run_call set_status set_status_text set_nick peer_absent fetch_all_contacts cleanup
      resend_control_packets change_contacts send_control_packet get_control_packet
  run_call-queue net (call_set_status n) m = sym (append-nil _)
  run_call-queue net (call_set_status_text t) m = sym (append-nil _)
  run_call-queue net (call_set_nick t) m = sym (append-nil _)
  run_call-queue net (call_peer_state a) m = sym (append-nil _)
  run_call-queue net (call_peer_absent a) m = sym (append-nil _)
  run_call-queue net (call_peer_changed a) m = sym (append-nil _)
  run_call-queue net call_fetch_all_contacts m = sym (append-nil _)
  run_call-queue net call_cleanup m = sym (append-nil _)
  run_call-queue net call_resend m = sym (append-nil _)
  run_call-queue net (call_add_contact c) m = sym (append-nil _)
  run_call-queue net (call_remove_contact c) m = sym (append-nil _)
  run_call-queue net (call_load stored) m = sym (append-nil _)
  run_call-queue net (call_send_control_packet p) m = refl
  run_call-queue net (call_get_control_packet t) m = sym (append-nil _)

  pub run_call-IsUsual :
      (net : Network) (c : Call) (m : Messenger)
      → let r = run_call s order net c m in All (IsUsual r.0.control_output_queue) r.1
  unfolding run_call set_status set_status_text set_nick peer_absent fetch_all_contacts cleanup
      resend_control_packets change_contacts send_control_packet get_control_packet
  run_call-IsUsual net (call_set_status n) m = (tt, send_presence-IsUsual _ net _)
  run_call-IsUsual net (call_set_status_text t) m = (tt, send_presence-IsUsual _ net _)
  run_call-IsUsual net (call_set_nick t) m = (tt, tt)
  run_call-IsUsual net (call_peer_state a) m = peer_state-IsUsual _ net a m
  run_call-IsUsual net (call_peer_absent a) m = (tt, tt)
  run_call-IsUsual net (call_peer_changed a) m = (tt, tt)
  run_call-IsUsual net call_fetch_all_contacts m = fetch_each-IsUsual _ net m m.contacts
  run_call-IsUsual net call_cleanup m =
      All-map (IsUsual _) (λ (c : Contact). peer_state_changed c.address) (λ c. tt) m.contacts
  run_call-IsUsual net call_resend m = resend_each-IsUsual _ m.control_output_queue (λ p h. h)
  run_call-IsUsual net (call_add_contact c) m = on_list_events-IsUsual _ net _ _
  run_call-IsUsual net (call_remove_contact c) m = on_list_events-IsUsual _ net _ _
  run_call-IsUsual net (call_load stored) m = on_list_events-IsUsual _ net _ _
  run_call-IsUsual net (call_send_control_packet p) m =
      (control-IsUsual _ p (Memᴰ.append_right m.control_output_queue (Memᴰ.head refl)), tt)
  run_call-IsUsual net (call_get_control_packet t) m = tt
