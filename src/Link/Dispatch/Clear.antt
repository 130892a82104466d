-- ===== src/Link/Dispatch/Clear.antt =====
-- LinkLayer.cpp: handlePacket on datagrams in clear.
use sparkle.Prelude.{
  ◌∙◌, ap, fun_ext, ℕ, ◌+◌, ◌^◌, ◌<◌, ◌≡◌, ◌≢◌, ◌⊎◌, true, false, none, arith, length, drop, ◌==◌,
}
use sparkle.Prelude.Bytes.{Bytes}
use sparkle.Wire.{PacketType, code, frame, header_length, encrypted_packet}
use sparkle.Wire.RoundTrip.{frame-fields}
use sparkle.World.{Ref, HostAddress, World, Environment, done, ◌>>=◌, skip}
use sparkle.Link.Send.{wrap_node}
use sparkle.Link.Dispatch.{packet_handlers, find_entry, dispatch, is_well_formed, handle_packet}
use sparkle.Link.Dispatch.Table.{in_clear, find_entry-code}

pub frame-is_well_formed :
    (t : PacketType) (xs : Bytes) → length xs + 4 < 2 ^ 16 → is_well_formed (frame t xs) ≡ true
unfolding is_well_formed
frame-is_well_formed t xs h = ground (arith, frame-fields t xs h)

malformed :
    (xs : Bytes) → (length xs < 4) ⊎ (header_length xs ≢ length xs) → is_well_formed xs ≡ false
unfolding is_well_formed
malformed xs h = ground arith

code_ne : (t : PacketType) → t ≢ encrypted_packet → (code t == code encrypted_packet) ≡ false
code_ne t h = ground arith

dispatch-clear :
    (env : Environment) (t : PacketType) (xs : Bytes) (r : Ref)
    → in_clear t ≡ false
    → dispatch env (code t) false xs r ≡ skip
unfolding dispatch
dispatch-clear env t xs r h =
    let missing : find_entry packet_handlers (code t) false ≡ none =
      find_entry-code t false ∙ rw h in
    rw (missing, dispatch)

module _ (env : Environment) (host : HostAddress) (port : ℕ) where
  -- A datagram shorter than a header, or whose length field is not its size, changes nothing.
  pub handle_packet_malformed :
      (xs : Bytes) (w : World)
      → (length xs < 4) ⊎ (header_length xs ≢ length xs)
      → handle_packet env xs host port w ≡ done tt w
  unfolding handle_packet
  handle_packet_malformed xs w h = rw (malformed xs h)

  -- In clear, a packet of a type that is for session keys only does nothing but enter its sender in
  -- the node spool.
  pub handle_packet-clear :
      (t : PacketType) (xs : Bytes) (w : World)
      → length xs + 4 < 2 ^ 16
      → in_clear t ≡ false
      → t ≢ encrypted_packet
      → handle_packet env (frame t xs) host port w ≡ (wrap_node env host port >>= λ r. skip) w
  unfolding handle_packet
  handle_packet-clear t xs w h priv ne =
      let fields = frame-fields t xs h in
      rw (frame-is_well_formed t xs h, fields.0, code_ne t ne)
        (ap (λ k. (wrap_node env host port >>= k) w)
          (fun_ext λ r. dispatch-clear env t (drop 4 (frame t xs)) r priv))
