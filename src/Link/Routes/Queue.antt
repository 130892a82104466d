-- ===== src/Link/Routes/Queue.antt =====
-- LinkLayer.cpp: the data that waits for a route, from sendDataPacket to the arrival of the route.
use mathlib.Core.List.{append-nil, append_assoc}
use sparkle.Prelude.{
  ◌≡◌, refl, sym, ap, ◌∙◌, true, false, List, [], ◌∷◌, ◌++◌, map, some, arith, length, ◌==◌,
  if◌then◌else◌, inl, inr, Bool-cases,
}
use sparkle.Prelude.Bytes.{Bytes, bytes_eq_refl}
use sparkle.Address.{SparkleAddress, address_eq, address_eq_sound}
use sparkle.Wire
use sparkle.World.{Ref, SparkleNode, World, Environment, Event, datagram, done, for_each}
use sparkle.World.Refs.{Returns}
use sparkle.Router.{is_self}
use sparkle.Node.{phantom_ip, phantom_port}
use sparkle.Link.Send
use sparkle.Link.Send.Direct.{sealed_packet, send_encrypted-direct}
use sparkle.Link.Routes.{Queues, queued, enqueue, remove_queue, release_queue}

-- Equal addresses are equal to the same addresses.
address_eq-left : (b c a : SparkleAddress) → address_eq c b ≡ true → address_eq c a ≡ address_eq b a
address_eq-left b c a h = ap (λ d. address_eq d a) (address_eq_sound c b h)

both :
    (a b c : SparkleAddress)
    → address_eq c b ≡ false
    → address_eq b a ≡ true
    → address_eq c a ≡ false
both a b c h k = ap (λ d. address_eq c d) (sym (address_eq_sound b a k)) ∙ h

pub queued-enqueue :
    (a b : SparkleAddress) (x : Bytes) (qs : Queues)
    → queued a (enqueue b x qs) ≡ (if address_eq b a then queued a qs ++ x ∷ [] else queued a qs)
unfolding queued enqueue
queued-enqueue a b x [] = elim (Bool-cases (address_eq b a)) [
  | inl e ↦ rw e refl
  | inr e ↦ rw e refl
]
queued-enqueue a b x ((c, q) ∷ qs) = elim (Bool-cases (address_eq c b)) [
  | inl same ↦ elim (Bool-cases (address_eq b a)) [
    | inl e ↦ rw (same, address_eq-left b c a same, e) refl
    | inr e ↦ rw (same, address_eq-left b c a same, e) refl
  ]
  | inr other ↦ elim (Bool-cases (address_eq b a)) [
    | inl e ↦ rw (other, both a b c other e, queued-enqueue a b x qs, e) refl
    | inr e ↦ rw (other, queued-enqueue a b x qs, e) refl
  ]
]

queued-remove_queue :
    (a b : SparkleAddress) (qs : Queues)
    → queued a (remove_queue b qs) ≡ (if address_eq b a then [] else queued a qs)
unfolding queued remove_queue
queued-remove_queue a b [] = elim (Bool-cases (address_eq b a)) [
  | inl e ↦ rw e refl
  | inr e ↦ rw e refl
]
queued-remove_queue a b ((c, q) ∷ qs) = elim (Bool-cases (address_eq c b)) [
  | inl same ↦ elim (Bool-cases (address_eq b a)) [
    | inl e ↦ rw (same, queued-remove_queue a b qs, e) refl
    | inr e ↦ rw (same, queued-remove_queue a b qs, address_eq-left b c a same, e) refl
  ]
  | inr other ↦ elim (Bool-cases (address_eq b a)) [
    | inl e ↦ rw (other, both a b c other e, queued-remove_queue a b qs, e) refl
    | inr e ↦ rw (other, queued-remove_queue a b qs, e) refl
  ]
]

empty_list : (xs : List Bytes) → (length xs == 0) ≡ true → xs ≡ []
empty_list [] h = refl
empty_list (x ∷ xs) h = absurd (ground arith)

-- The datagrams of packets for one node.
abbrev pub data_events : Environment → SparkleNode → List Bytes → List Event
data_events env n =
    map (λ x. datagram (sealed_packet env n Wire.data_packet x) (phantom_ip n) (phantom_port n))

module _ (env : Environment) (r : Ref) (n : SparkleNode) where
  for_each-data :
      (xs : List Bytes) (w : World)
      → w.heap r ≡ some n
      → n.keys_negotiated ≡ true
      → is_self w.router.self r ≡ false
      → for_each xs (λ x. Send.send_encrypted env Wire.data_packet x r) w
        ≡ done tt (record w { events = w.events ++ data_events env n xs })
  unfolding for_each
  for_each-data [] w e k s = rw (append-nil w.events) refl
  for_each-data (x ∷ xs) w e k s =
      let first =
        datagram (sealed_packet env n Wire.data_packet x) (phantom_ip n) (phantom_port n) in
      rw
        (
          send_encrypted-direct env w r n Wire.data_packet x e k s,
          ← append_assoc w.events (first ∷ []) (data_events env n xs),
        )
        (for_each-data xs (record w { events = w.events ++ first ∷ [] }) e k s)

-- What has become of the waiting data once the node at `r` is the target of the route to `a`.
pub record Released (env : Environment) (w : World) (a : SparkleAddress) (n : SparkleNode)
    (v : World) : Type 0 where
  events : v.events ≡ w.events ++ data_events env n (queued a w.link.queued_data)
  empty : queued a v.link.queued_data ≡ []
  others :
      (b : SparkleAddress)
      → address_eq a b ≡ false
      → queued b v.link.queued_data ≡ queued b w.link.queued_data
  heap : v.heap ≡ w.heap
  router : v.router ≡ w.router

module _ (env : Environment) (w : World) (a : SparkleAddress) (r : Ref) (n : SparkleNode) where
  -- When the route to an address is there and its node has a session key, what waited for the route leaves
  -- in its order, each packet in one datagram; nothing waits for it any more, and the other
  -- addresses' packets wait on.
  pub release_queue-Released :
      w.heap r ≡ some n
      → n.keys_negotiated ≡ true
      → is_self w.router.self r ≡ false
      → Returns (λ _ v. Released env w a n v) (release_queue env a r w)
  unfolding release_queue
  release_queue-Released e k s =
      let packets = queued a w.link.queued_data in
      elim (Bool-cases (length packets == 0)) [
        | inl idle ↦
            let nothing = empty_list packets idle in
            rw idle (record {
              events = rw nothing (sym (append-nil w.events));
              empty = nothing;
              others = λ b h. refl;
              heap = refl;
              router = refl;
            })
        | inr waiting ↦
            rw (waiting, for_each-data env r n packets w e k s)
              (record {
                events = refl;
                empty =
                    queued-remove_queue a a w.link.queued_data ∙ rw (bytes_eq_refl a.bytes) refl;
                others = λ b h. queued-remove_queue b a w.link.queued_data ∙ rw h refl;
                heap = refl;
                router = refl;
              })
      ]
