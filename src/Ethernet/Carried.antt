-- ===== src/Ethernet/Carried.antt =====
-- EthernetApplicationLayer.cpp over LinkLayer.cpp: an IPv4 packet from the host of one node to that of
-- another.
use sparkle.Prelude.{
  ℕ, zero, suc, ◌+◌, ◌^◌, ◌<◌, ◌≡◌, ◌⊎◌, inl, inr, refl, sym, ap, ◌∙◌, true, false, List, [], ◌∷◌,
  ◌++◌, some, arith, length, take, drop, length-take, get_or-take, get_or-drop, Bool-cases,
}
use sparkle.Prelude.Bytes.{Bytes, IsBytes, byte_at, word16_at, word32_at, bytes_eq, bytes_eq_refl}
use sparkle.Address.{SparkleAddress, is_null, address_eq, address_eq_sound}
use sparkle.Wire
use sparkle.Wire.{frame, encrypted_packet, data_packet_t}
use sparkle.World.{
  Ref, HostAddress, SparkleNode, World, Environment, done, to_ipv4, datagram, deliver,
  send_tap_packet,
}
use sparkle.Router
use sparkle.Router.{find_first, is_self}
use sparkle.Node.{phantom_ip, phantom_port}
use sparkle.Link.Send.{wrap_node}
use sparkle.Link.Routes.{find_prefix}
use sparkle.Link.Peers.{find_partial_route, has_encapsulation}
use sparkle.Link.Dispatch.{handle_packet}
use sparkle.Link.Dispatch.Delivery.{send_data_packet-delivered}
use sparkle.Ethernet.{
  Ethernet, have_tap_packet, handle_data_packet, make_ipv4_address, encapsulation,
}
use sparkle.Ethernet.Receive.{IsHonest, have_tap_packet-handle_data_packet}

-- An Ethernet frame with a packet of IPv4 from one node's host to another's: at most its payload and
-- the other fields of its header are left open.
pub record IsBetween (from to : SparkleAddress) (packet : Bytes) : Type 0 where
  pub long : 34 < length packet
  pub receiver : take 6 packet ≡ to.bytes
  pub sender : take 6 (drop 6 packet) ≡ from.bytes
  pub kind : take 2 (drop 12 packet) ≡ 8 ∷ 0 ∷ []
  pub source : take 4 (drop 26 packet) ≡ 14 ∷ take 3 from.bytes
  pub destination : take 4 (drop 30 packet) ≡ 14 ∷ take 3 to.bytes

-- The nodes exist, and none but those with the address have its first three bytes.
abbrev pub Alone : SparkleAddress → World → List Ref → Type 0
Alone mac w [] = Unit {0}
Alone mac w (r ∷ rs) =
    ((n : SparkleNode) × (w.heap r ≡ some n)
      × ((n.sparkle_mac ≡ mac)
          ⊎ (bytes_eq (take 3 n.sparkle_mac.bytes) (take 3 mac.bytes) ≡ false)))
    × Alone mac w rs

-- What stands at an offset, from the bytes that were cut out there.
byte_at-cut :
    (xs ys : Bytes) (n i j k : ℕ)
    → k ≡ i + j
    → take n (drop i xs) ≡ ys
    → j < n
    → byte_at xs k ≡ byte_at ys j
byte_at-cut xs ys n i j k e h l =
    ap (byte_at xs) e
    ∙ sym (get_or-drop i xs j 0)
    ∙ sym (get_or-take n (drop i xs) j 0 l)
    ∙ ap (λ zs. byte_at zs j) h

word32_at-cut : (xs ys : Bytes) (i : ℕ) → take 4 (drop i xs) ≡ ys → word32_at xs i ≡ word32_at ys 0
word32_at-cut xs ys i h =
    rw
      (
        byte_at-cut xs ys 4 i 0 i (omega arith) h (omega arith),
        byte_at-cut xs ys 4 i 1 (suc i) (omega arith) h (omega arith),
        byte_at-cut xs ys 4 i 2 (suc (suc i)) (omega arith) h (omega arith),
        byte_at-cut xs ys 4 i 3 (suc (suc (suc i))) (omega arith) h (omega arith),
      )
      refl

word16_at-cut : (xs ys : Bytes) (i : ℕ) → take 2 (drop i xs) ≡ ys → word16_at xs i ≡ word16_at ys 0
word16_at-cut xs ys i h =
    rw
      (
        byte_at-cut xs ys 2 i 0 i (omega arith) h (omega arith),
        byte_at-cut xs ys 2 i 1 (suc i) (omega arith) h (omega arith),
      )
      refl

take-drop-suc : (i : ℕ) (xs : Bytes) → take 3 (drop (suc i) xs) ≡ drop 1 (take 4 (drop i xs))
take-drop-suc zero [] = refl
take-drop-suc zero (x ∷ xs) = refl
take-drop-suc (suc i) [] = refl
take-drop-suc (suc i) (x ∷ xs) = take-drop-suc i xs

module _ (mac : SparkleAddress) (w : World) (six : length mac.bytes ≡ 6) where
  find_prefix-Alone :
      (rs : List Ref) (r : Ref)
      → find_first (λ n. address_eq n.sparkle_mac mac) rs w ≡ done (some r) w
      → Alone mac w rs
      → find_prefix (take 3 mac.bytes) rs w ≡ done (some mac) w
  unfolding find_first find_prefix
  find_prefix-Alone [] r h alone = cc
  find_prefix-Alone (q ∷ rs) r h ((n, e, o), alone) = elim o [
    | inl same ↦
        let begins : bytes_eq (take (length (take 3 mac.bytes)) n.sparkle_mac.bytes)
              (take 3 mac.bytes)
            ≡ true =
          rw (length-take 3 mac.bytes (omega arith), same) (bytes_eq_refl (take 3 mac.bytes)) in
        rw (e, begins, same) refl
    | inr other ↦
        let differs : bytes_eq (take (length (take 3 mac.bytes)) n.sparkle_mac.bytes)
              (take 3 mac.bytes)
            ≡ false =
          rw (length-take 3 mac.bytes (omega arith)) other in
        elim (Bool-cases (address_eq n.sparkle_mac mac)) [
          | inl same ↦
              let mac_same = address_eq_sound n.sparkle_mac mac same in
              absurd (cc (rw (mac_same) at other, bytes_eq_refl (take 3 mac.bytes)))
          | inr not_it ↦ rw (e, differs) (find_prefix-Alone rs r (rw (e, not_it) at h) alone)
        ]
  ]

-- The route to a node that is alone with its first three bytes.
find_partial_route-Alone :
    (env : Environment) (mac : SparkleAddress) (w : World) (r : Ref)
    → length mac.bytes ≡ 6
    → Router.find_sparkle_node mac w ≡ done (some r) w
    → Alone mac w w.router.nodes
    → find_partial_route env (take 3 mac.bytes) w ≡ done mac w
unfolding find_partial_route Router.find_sparkle_node
find_partial_route-Alone env mac w r six found alone =
    rw (find_prefix-Alone mac w six w.router.nodes r found alone) refl

module _ (e e' : Ethernet) (packet : Bytes)
    (between : IsBetween e.self_mac e'.self_mac packet) where
  -- What a packet between the hosts of two layers is to the second one.
  between-IsHonest : e'.self_ipv4 ≡ make_ipv4_address e'.self_mac → IsHonest e' packet e.self_mac
  unfolding make_ipv4_address
  between-IsHonest own = record {
    long = ground (arith, between.long);
    source = between.sender;
    destination = between.receiver;
    kind = word16_at-cut packet (8 ∷ 0 ∷ []) 12 between.kind;
    source_ip = word32_at-cut packet (14 ∷ take 3 e.self_mac.bytes) 26 between.source;
    destination_ip =
        word32_at-cut packet (14 ∷ take 3 e'.self_mac.bytes) 30 between.destination
        ∙ sym (ap to_ipv4 own);
  }

  between-prefix : take 3 (drop 31 packet) ≡ take 3 e'.self_mac.bytes
  between-prefix = take-drop-suc 30 packet ∙ ap (drop 1) between.destination

module _ (env env' : Environment) (e e' : Ethernet) (w v : World) (r q : Ref) (n m : SparkleNode)
    (packet : Bytes) where
  -- A packet of IPv4 from the host of one node to that of another, whose node the router has, with the
  -- session key, and alone with its first three bytes, leaves in one encrypted datagram to that node. The other
  -- node, if it knows the sender by that key and address, takes it from the datagram and hands it to its
  -- Ethernet layer, which gives it to the TAP interface, unchanged; nothing else happens.
  pub have_tap_packet-carried :
      (host : HostAddress) (port : ℕ)
      → let sealed =
          env.cipher.encrypt n.my_session_key
            (frame Wire.data_packet (data_packet_t encapsulation ++ packet)) in
        let carrier = frame encrypted_packet sealed in
        let taken = record v {
          events = v.events ++ deliver encapsulation packet e.self_mac ∷ [];
        } in
        IsBetween e.self_mac e'.self_mac packet
        → e.self_ipv4 ≡ make_ipv4_address e.self_mac
        → e'.self_ipv4 ≡ make_ipv4_address e'.self_mac
        → length e'.self_mac.bytes ≡ 6
        → is_null e'.self_mac ≡ false
        → Alone e'.self_mac w w.router.nodes
        → Router.find_sparkle_node e'.self_mac w ≡ done (some r) w
        → w.heap r ≡ some n
        → n.keys_negotiated ≡ true
        → is_self w.router.self r ≡ false
        → env'.cipher ≡ env.cipher
        → wrap_node env' host port v ≡ done q v
        → v.heap q ≡ some m
        → m.sparkle_mac ≡ e.self_mac
        → m.keys_negotiated ≡ true
        → m.his_session_key ≡ n.my_session_key
        → has_encapsulation encapsulation v.link.app_layers ≡ true
        → IsBytes n.my_session_key
        → IsBytes packet
        → length packet + 6 < 2 ^ 16
        → length sealed + 4 < 2 ^ 16
        → (have_tap_packet env e packet w
            ≡ done tt (record w {
              events = w.events ++ datagram carrier (phantom_ip n) (phantom_port n) ∷ [];
            }))
          × (handle_packet env' carrier host port v ≡ done tt taken)
          × (handle_data_packet e' packet e.self_mac taken
              ≡ done tt (record taken { events = taken.events ++ send_tap_packet packet ∷ [] }))
  have_tap_packet-carried host port between own own' six known alone found hr negotiated self cipher
        hw hm sender hk keys attached ik ix short sealed_short =
      let taken = record v { events = v.events ++ deliver encapsulation packet e.self_mac ∷ [] } in
      let route =
        ap (λ xs. find_partial_route env xs w) (between-prefix e e' packet between)
        ∙ find_partial_route-Alone env e'.self_mac w r six found alone in
      let layers =
        have_tap_packet-handle_data_packet env e e' packet e'.self_mac w taken
          (between-IsHonest e e' packet between own') own route known in
      let carried =
        send_data_packet-delivered env env' w v r q n m e'.self_mac encapsulation packet host port
          known found hr negotiated self cipher hw hm hk keys ik ix (omega arith)
          (omega (arith, between.long)) short sealed_short in
      (layers.0 ∙ carried.0, carried.1 ∙ rw (attached, sender) refl, layers.1)
