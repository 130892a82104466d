-- ===== src/Link/Dispatch/Sealed.antt =====
-- LinkLayer.cpp: handlePacket on encrypted packets, against the laws of the session cipher.
use sparkle.Prelude.{
  ◌∙◌, sym, ap, fun_ext, ℕ, ◌+◌, ◌^◌, ◌<◌, ◌≤◌, ◌≡◌, refl, true, false, ◌&&◌, ◌||◌, [], ◌∷◌, ◌++◌,
  some, arith, length, length-append, drop, take-append-drop, append-short, take-length-append,
  ◌==◌, ltb,
}
use sparkle.Prelude.Bytes.{Bytes, IsBytes}
use sparkle.Wire.{PacketType, code, frame, header_length, encrypted_packet}
use sparkle.Wire.RoundTrip.{frame-fields}
use sparkle.World.{Ref, HostAddress, SparkleNode, World, Environment, done, ◌>>=◌}
use sparkle.Link.Send.{wrap_node}
use sparkle.Link.Dispatch.{
  packet_handlers, find_entry, dispatch, handler, trim, handle_packet, handle_encrypted,
  handle_inner,
}
use sparkle.Link.Dispatch.Table.{under_key, find_entry-code}
use sparkle.Link.Dispatch.Clear.{frame-is_well_formed}

header-append :
    (t : PacketType) (xs rest : Bytes)
    → length xs + 4 < 2 ^ 16
    → header_length (frame t xs ++ rest) ≡ length (frame t xs)
unfolding frame
header-append t xs rest h = omega arith

not_longer : (n m : ℕ) → n ≡ m → ltb n m ≡ false
not_longer n m e = ground arith

both_true : (n m k : ℕ) → n ≡ m → m < k → k < m + 8 → (ltb n k && ltb k (n + 8)) ≡ true
both_true n m k e p q = ground arith

under_key_ne : (t : PacketType) → under_key t ≡ true → (code t == code encrypted_packet) ≡ false
under_key_ne t h = ground arith

-- A frame with fewer than eight bytes behind it is cut back to the frame.
trim-frame :
    (t : PacketType) (xs rest : Bytes)
    → length xs + 4 < 2 ^ 16
    → length rest < 8
    → trim (frame t xs ++ rest) ≡ frame t xs
unfolding trim
trim-frame t xs [] h k =
    rw (append-short (frame t xs) [] refl, not_longer _ _ (frame-fields t xs h).1)
trim-frame t xs (y ∷ ys) h k =
    let hl = header-append t xs (y ∷ ys) h in
    let len = length-append (frame t xs) (y ∷ ys) in
    rw
      (
        both_true _ (length (frame t xs)) (length (frame t xs ++ y ∷ ys)) hl (omega (arith, len))
            (omega (arith, len)),
        hl,
      )
      (take-length-append (frame t xs) (y ∷ ys))

frame-IsBytes : (t : PacketType) (xs : Bytes) → IsBytes xs → IsBytes (frame t xs)
unfolding frame
frame-IsBytes t xs h = (omega arith, (omega arith, (omega arith, (omega arith, h))))

length-frame : (t : PacketType) (xs : Bytes) → 4 ≤ length (frame t xs)
unfolding frame
length-frame t xs = omega arith

-- Decrypted data that begins with a frame passes the tests of its header.
passes :
    (t : PacketType) (xs rest : Bytes)
    → length xs + 4 < 2 ^ 16
    → let d = frame t xs ++ rest in
      (ltb (length d) 4 || (ltb (header_length d) 4 || ltb (length d) (header_length d))) ≡ false
passes t xs rest h =
    rw (header-append t xs rest h, length-append (frame t xs) rest)
      (ground (arith, length-frame t xs))

module _ (env : Environment) where
  dispatch-under_key :
      (t : PacketType) (xs : Bytes) (r : Ref)
      → under_key t ≡ true
      → dispatch env (code t) true xs r ≡ handler env t xs r
  unfolding dispatch
  dispatch-under_key t xs r h =
      let found : find_entry packet_handlers (code t) true ≡ some t =
        find_entry-code t true ∙ rw h in
      rw (found, dispatch)

  handle_inner-frame :
      (t : PacketType) (xs : Bytes) (host : HostAddress) (port : ℕ) (w : World)
      → length xs + 4 < 2 ^ 16
      → under_key t ≡ true
      → handle_inner env (frame t xs) host port w ≡ (wrap_node env host port >>= handler env t xs) w
  unfolding handle_inner
  handle_inner-frame t xs host port w h k =
      let fields = frame-fields t xs h in
      rw (frame-is_well_formed t xs h, fields.0, under_key_ne t k)
        (ap (λ k. (wrap_node env host port >>= k) w)
          (fun_ext λ r.
            dispatch-under_key t (drop 4 (frame t xs)) r k
            ∙ ap (λ ys. handler env t ys r) fields.2))

  decrypted :
      (key f : Bytes)
      → IsBytes key
      → IsBytes f
      → (rest : Bytes) × (env.cipher.decrypt key (env.cipher.encrypt key f) ≡ f ++ rest)
        × (length rest < 8)
  decrypted key f ik iff =
      let d = env.cipher.decrypt key (env.cipher.encrypt key f) in
      let rest = drop (length f) d in
      let eq : d ≡ f ++ rest =
        sym (take-append-drop (length f) d)
        ∙ ap (λ ys. ys ++ rest) (env.cipher.take-decrypt-encrypt key f ik iff) in
      (
        rest,
        eq,
        omega (
          arith,
          env.cipher.length-decrypt-encrypt key f ik iff,
          ap length eq,
          length-append f rest,
        ),
      )

  handle_encrypted-encrypt :
      (t : PacketType) (xs : Bytes) (host : HostAddress) (port : ℕ) (w : World) (r : Ref)
      (n : SparkleNode)
      → w.heap r ≡ some n
      → n.keys_negotiated ≡ true
      → IsBytes n.his_session_key
      → IsBytes xs
      → length xs + 4 < 2 ^ 16
      → handle_encrypted env (env.cipher.encrypt n.his_session_key (frame t xs)) host port r w
        ≡ handle_inner env (frame t xs) host port w
  unfolding handle_encrypted
  handle_encrypted-encrypt t xs host port w r n hr hk ik ix lx =
      let (rest, eq, short) = decrypted n.his_session_key (frame t xs) ik (frame-IsBytes t xs ix) in
      rw (hr, hk, eq, passes t xs rest lx, trim-frame t xs rest lx short)

  -- What a peer encrypts under the session key that this node has of it reaches the packet's handler
  -- unchanged, at the node that stands for the sender's endpoint.
  pub handle_packet-encrypted :
      (t : PacketType) (xs : Bytes) (host : HostAddress) (port : ℕ) (w w' : World) (r : Ref)
      (n : SparkleNode)
      → let sealed = env.cipher.encrypt n.his_session_key (frame t xs) in
        wrap_node env host port w ≡ done r w'
        → w'.heap r ≡ some n
        → n.keys_negotiated ≡ true
        → IsBytes n.his_session_key
        → IsBytes xs
        → length xs + 4 < 2 ^ 16
        → length sealed + 4 < 2 ^ 16
        → under_key t ≡ true
        → handle_packet env (frame encrypted_packet sealed) host port w
          ≡ (wrap_node env host port >>= handler env t xs) w'
  unfolding handle_packet
  handle_packet-encrypted t xs host port w w' r n hw hr hk ik ix lx ls u =
      let sealed = env.cipher.encrypt n.his_session_key (frame t xs) in
      let fields = frame-fields encrypted_packet sealed ls in
      rw (frame-is_well_formed encrypted_packet sealed ls, hw, fields.0, fields.2)
        (handle_encrypted-encrypt t xs host port w' r n hr hk ik ix lx
          ∙ handle_inner-frame t xs host port w' lx u)
