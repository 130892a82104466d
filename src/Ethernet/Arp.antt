-- ===== src/Ethernet/Arp.antt =====
-- EthernetApplicationLayer.cpp: the answers to ARP requests of the host.
use sparkle.Prelude.{
  ◌≤◌, ℕ, ◌+◌, ◌*◌, ◌^◌, ◌<◌, ◌≡◌, refl, sym, ap, ◌∙◌, true, false, List, [], ◌∷◌, ◌++◌, some,
  arith, length, take, drop, length-drop, get_or-take, get_or-drop, length-take, length-drop, inl,
  inr, Bool-cases,
}
use sparkle.Prelude.Bytes.{Bytes, IsBytes, byte_at, word16_at, word32_at, bytes_eq, bytes_eq_sound}
use sparkle.Address.{SparkleAddress, is_null}
use sparkle.Wire.RoundTrip.{mac}
use sparkle.World.{Ref, SparkleNode, World, Environment, done, send_tap_packet}
use sparkle.World.Refs.{Live}
use sparkle.Link.Routes.{find_prefix}
use sparkle.Link.Peers.{find_partial_route}
use sparkle.Ethernet.{
  Ethernet, handle_arp, send_arp_reply, arp_reply, is_arp_of, make_ipv4_address, six_at, broadcast,
}

-- The address that the look-up by a prefix returns begins with it.
find_prefix-prefix :
    (w : World) (xs : Bytes) (rs : List Ref) (a : SparkleAddress)
    → Live w rs
    → find_prefix xs rs w ≡ done (some a) w
    → take (length xs) a.bytes ≡ xs
unfolding find_prefix
find_prefix-prefix w xs [] a l h = cc
find_prefix-prefix w xs (r ∷ rs) a ((n, e), l) h =
    elim (Bool-cases (bytes_eq (take (length xs) n.sparkle_mac.bytes) xs)) [
      | inl same ↦
          let found : n.sparkle_mac ≡ a = cc (rw (e, same) at h) in
          ap (λ (b : SparkleAddress). take (length xs) b.bytes) (sym found)
          ∙ bytes_eq_sound (take (length xs) n.sparkle_mac.bytes) xs same
      | inr other ↦ find_prefix-prefix w xs rs a l (rw (e, other) at h)
    ]

-- The asked address as its last three bytes.
asked :
    (frame : Bytes) (x y z : ℕ)
    → take 3 (drop 39 frame) ≡ x ∷ y ∷ z ∷ []
    → word32_at frame 38 ≡ byte_at frame 38 * 2 ^ 24 + x * 2 ^ 16 + y * 256 + z
asked frame x y z h =
    let at : (i : ℕ) → i < 3 → byte_at (x ∷ y ∷ z ∷ []) i ≡ byte_at frame (39 + i) = λ i k.
      ap (λ ys. byte_at ys i) (sym h)
      ∙ get_or-take 3 (drop 39 frame) i 0 k
      ∙ get_or-drop 39 frame i 0 in
    omega (arith, at 0 (omega arith), at 1 (omega arith), at 2 (omega arith))

-- A reply from the node with the address `mac` to this host, about the address that was asked for.
pub record Answers (frame reply : Bytes) (self mac : SparkleAddress) : Type 0 where
  receiver : six_at reply 0 ≡ self.bytes
  sender : six_at reply 6 ≡ mac.bytes
  operation : word16_at reply 20 ≡ 2
  hardware : six_at reply 22 ≡ mac.bytes
  protocol : word32_at reply 28 ≡ word32_at frame 38
  target : six_at reply 32 ≡ self.bytes

arp_reply-Answers :
    (e : Ethernet) (frame : Bytes) (s0 s1 s2 s3 s4 s5 x y z d f g : ℕ)
    → x < 256
    → y < 256
    → z < 256
    → byte_at frame 38 ≡ 14
    → take 3 (drop 39 frame) ≡ x ∷ y ∷ z ∷ []
    → Answers frame
        (arp_reply e (mac s0 s1 s2 s3 s4 s5) (mac x y z d f g))
        (mac s0 s1 s2 s3 s4 s5)
        (mac x y z d f g)
unfolding arp_reply make_ipv4_address
arp_reply-Answers e frame s0 s1 s2 s3 s4 s5 x y z d f g hx hy hz net ask = record {
  receiver = refl;
  sender = refl;
  operation = refl;
  hardware = refl;
  protocol = omega (arith, asked frame x y z ask);
  target = refl;
}

module _ (env : Environment) (e : Ethernet) (frame : Bytes) (w : World) where
  -- An ARP request of the host for an address in 14.0.0.0/8, where the router knows a node whose
  -- address begins with the last three bytes, is answered by one frame to this host, in that node's name and
  -- with its hardware address, for exactly the address that was asked for.
  pub handle_arp-Answers :
      (s : Ref) (n : SparkleNode) (s0 s1 s2 s3 s4 s5 x y z d f g : ℕ)
      → let self = mac s0 s1 s2 s3 s4 s5 in
        let found = mac x y z d f g in
        IsBytes (x ∷ y ∷ z ∷ [])
        → Live w w.router.nodes
        → w.router.self ≡ some s
        → w.heap s ≡ some n
        → n.sparkle_mac ≡ self
        → 42 ≤ length frame
        → six_at frame 0 ≡ broadcast
        → is_arp_of e frame ≡ true
        → word16_at frame 20 ≡ 1
        → byte_at frame 38 ≡ 14
        → find_prefix (take 3 (drop 39 frame)) w.router.nodes w ≡ done (some found) w
        → is_null found ≡ false
        → (handle_arp env e frame w
            ≡ done tt
                (record w { events = w.events ++ send_tap_packet (arp_reply e self found) ∷ [] }))
          × Answers frame (arp_reply e self found) self found
  unfolding handle_arp find_partial_route send_arp_reply
  handle_arp-Answers s n s0 s1 s2 s3 s4 s5 x y z d f g (hx, (hy, (hz, _))) live hs hn own long cast
        arp op net look known =
      let three : length (take 3 (drop 39 frame)) ≡ 3 =
        length-take 3 (drop 39 frame) (omega (arith, length-drop 39 frame)) in
      let ask : take 3 (drop 39 frame) ≡ x ∷ y ∷ z ∷ [] =
        sym
          (find_prefix-prefix w (take 3 (drop 39 frame)) w.router.nodes (mac x y z d f g) live look)
        ∙ ap (λ k. take k (x ∷ y ∷ z ∷ d ∷ f ∷ g ∷ [])) three in
      (
        rw (cast, arp, op, look, known, hs, hn, own) refl,
        arp_reply-Answers e frame s0 s1 s2 s3 s4 s5 x y z d f g hx hy hz net ask,
      )
