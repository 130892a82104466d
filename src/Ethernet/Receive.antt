-- ===== src/Ethernet/Receive.antt =====
-- EthernetApplicationLayer.cpp: what reaches the TAP interface from the network.
use sparkle.Prelude.{
  ℕ, suc, ◌+◌, ◌<◌, ◌≤◌, ◌≡◌, ◌⊎◌, inl, inr, refl, sym, ap, ◌∙◌, Bool, true, false, ◌&&◌, [], ◌∷◌,
  ◌++◌, arith, length, take, drop, take-append, drop-append, get_or-append, length-drop, ◌==◌,
  ==_refl, ltb, Bool-cases,
}
use sparkle.Prelude.Bytes.{
  Bytes, byte_at, word16_at, word32_at, bytes_eq, bytes_eq_sound, bytes_eq_refl, memory_from,
}
use sparkle.Address.{SparkleAddress, is_null}
use sparkle.World.{World, Environment, to_ipv4, done, send_tap_packet}
use sparkle.Link.Peers.{find_partial_route, send_data_packet}
use sparkle.Ethernet.{
  Ethernet, is_acceptable, handle_data_packet, handle_ipv4, have_tap_packet, make_ipv4_address,
  six_at, ip_source, ip_destination, encapsulation,
}

-- A frame of IPv4, with something behind its headers, whose addresses are those of its sender and its receiver.
pub record IsHonest (e : Ethernet) (packet : Bytes) (mac : SparkleAddress) : Type 0 where
  pub long : ltb 34 (length packet) ≡ true
  pub source : six_at packet 6 ≡ mac.bytes
  pub destination : six_at packet 0 ≡ e.self_mac.bytes
  pub kind : word16_at packet 12 ≡ 0x0800
  pub source_ip : ip_source packet ≡ to_ipv4 (make_ipv4_address mac)
  pub destination_ip : ip_destination packet ≡ to_ipv4 e.self_ipv4

and_left : (a b : Bool) → (a && b) ≡ true → a ≡ true
and_left a b h = ground arith

and_right : (a b : Bool) → (a && b) ≡ true → b ≡ true
and_right a b h = ground arith

equal : (m n : ℕ) → (m == n) ≡ true → m ≡ n
equal m n h = ground arith

module _ (e : Ethernet) (packet : Bytes) (mac : SparkleAddress) where
  acceptable-IsHonest : is_acceptable e packet mac ≡ true → IsHonest e packet mac
  unfolding is_acceptable
  acceptable-IsHonest h0 =
      let h1 = and_right (ltb 34 (length packet)) _ h0 in
      let h2 = and_right (bytes_eq (six_at packet 6) mac.bytes) _ h1 in
      let h3 = and_right (bytes_eq (six_at packet 0) e.self_mac.bytes) _ h2 in
      let h4 = and_right (word16_at packet 12 == 0x0800) _ h3 in
      record {
        long = and_left (ltb 34 (length packet)) _ h0;
        source = bytes_eq_sound (six_at packet 6) mac.bytes (and_left _ _ h1);
        destination = bytes_eq_sound (six_at packet 0) e.self_mac.bytes (and_left _ _ h2);
        kind = equal (word16_at packet 12) 0x0800 (and_left _ _ h3);
        source_ip = equal (ip_source packet) (to_ipv4 (make_ipv4_address mac)) (and_left _ _ h4);
        destination_ip = equal (ip_destination packet) (to_ipv4 e.self_ipv4) (and_right _ _ h4);
      }

  IsHonest-acceptable : IsHonest e packet mac → is_acceptable e packet mac ≡ true
  unfolding is_acceptable
  IsHonest-acceptable h =
      rw
        (
          h.long,
          h.source,
          h.destination,
          h.kind,
          h.source_ip,
          h.destination_ip,
          bytes_eq_refl mac.bytes,
          bytes_eq_refl e.self_mac.bytes,
          ==_refl (to_ipv4 (make_ipv4_address mac)),
          ==_refl (to_ipv4 e.self_ipv4),
        )
        refl

  -- A packet from the network is handed to the TAP interface, as it is, exactly if it is longer than the
  -- 34 bytes of its headers, has the type of IPv4, and its Ethernet and IPv4 addresses are those of
  -- the node it came from and of this node; any other changes nothing.
  pub handle_data_packet-IsHonest :
      (w : World)
      → (IsHonest e packet mac
          × (handle_data_packet e packet mac w
              ≡ done tt (record w { events = w.events ++ send_tap_packet packet ∷ [] })))
        ⊎ ((IsHonest e packet mac → ⊥) × (handle_data_packet e packet mac w ≡ done tt w))
  unfolding handle_data_packet
  handle_data_packet-IsHonest w = elim (Bool-cases (is_acceptable e packet mac)) [
    | inl good ↦ inl (acceptable-IsHonest good, rw good refl)
    | inr bad ↦ inr (λ h. cc (IsHonest-acceptable h), rw bad refl)
  ]

-- Reads of a packet do not reach what stands behind it.
module _ (packet rest : Bytes) (long : 34 ≤ length packet) where
  byte_at-append : (i : ℕ) → i < 34 → byte_at (packet ++ rest) i ≡ byte_at packet i
  byte_at-append i h = get_or-append packet rest i 0 (omega arith)

  six_at-append : (i : ℕ) → i + 6 < 34 → six_at (packet ++ rest) i ≡ six_at packet i
  six_at-append i h =
      ap (take 6) (drop-append i packet rest (omega arith))
      ∙ take-append 6 (drop i packet) rest (omega (arith, length-drop i packet))

  word16_at-append : (i : ℕ) → i < 33 → word16_at (packet ++ rest) i ≡ word16_at packet i
  word16_at-append i h =
      rw (byte_at-append i (omega arith), byte_at-append (suc i) (omega arith)) refl

  word32_at-append : (i : ℕ) → i < 31 → word32_at (packet ++ rest) i ≡ word32_at packet i
  word32_at-append i h =
      rw
        (
          byte_at-append i (omega arith),
          byte_at-append (suc i) (omega arith),
          byte_at-append (suc (suc i)) (omega arith),
          byte_at-append (suc (suc (suc i))) (omega arith),
        )
        refl

  prefix-append : take 3 (drop 31 (packet ++ rest)) ≡ take 3 (drop 31 packet)
  prefix-append =
      ap (take 3) (drop-append 31 packet rest (omega arith))
      ∙ take-append 3 (drop 31 packet) rest (omega (arith, length-drop 31 packet))

forward :
    (env : Environment) (e : Ethernet) (packet rest : Bytes) (mac : SparkleAddress) (w : World)
    → 34 ≤ length packet
    → ip_source packet ≡ to_ipv4 e.self_ipv4
    → find_partial_route env (take 3 (drop 31 packet)) w ≡ done mac w
    → is_null mac ≡ false
    → handle_ipv4 env e packet (packet ++ rest) w ≡ send_data_packet env mac encapsulation packet w
unfolding handle_ipv4
forward env e packet rest mac w long source route known =
    let same : (ip_source (packet ++ rest) == to_ipv4 e.self_ipv4) ≡ true =
      ap (λ n. n == to_ipv4 e.self_ipv4)
        (word32_at-append packet rest long 26 (omega arith) ∙ source)
      ∙ ==_refl (to_ipv4 e.self_ipv4) in
    rw (same, prefix-append packet rest long, route, known) refl

module _ (env : Environment) (e e' : Ethernet) (packet : Bytes) (mac : SparkleAddress)
    (w v : World) where
  -- What is sent where to, if the look-up gives an address, and what another layer does with it.
  pub have_tap_packet-handle_data_packet :
      IsHonest e' packet e.self_mac
      → e.self_ipv4 ≡ make_ipv4_address e.self_mac
      → find_partial_route env (take 3 (drop 31 packet)) w ≡ done mac w
      → is_null mac ≡ false
      → (have_tap_packet env e packet w ≡ send_data_packet env mac encapsulation packet w)
        × (handle_data_packet e' packet e.self_mac v
            ≡ done tt (record v { events = v.events ++ send_tap_packet packet ∷ [] }))
  unfolding have_tap_packet handle_data_packet
  have_tap_packet-handle_data_packet h ip route known =
      let rest = memory_from env.memory 0 42 in
      let long : 34 ≤ length packet = ground (arith, h.long) in
      (
        rw
            (
              six_at-append packet rest long 6 (omega arith),
              h.source,
              bytes_eq_refl e.self_mac.bytes,
              word16_at-append packet rest long 12 (omega arith),
              h.kind,
            )
            (forward env e packet rest mac w long (h.source_ip ∙ ap to_ipv4 (sym ip)) route known),
        rw (IsHonest-acceptable e' packet e.self_mac h) refl,
      )
