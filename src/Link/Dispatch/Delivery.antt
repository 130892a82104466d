-- ===== src/Link/Dispatch/Delivery.antt =====
-- LinkLayer.cpp: a data packet from sendDataPacket at one node to the application layer of another.
use mathlib.Core.List.{append-nil}
use sparkle.Prelude.{
  ℕ, ◌+◌, ◌^◌, ◌<◌, ◌≡◌, refl, sym, ◌∙◌, ap₂, true, false, List, [], ◌∷◌, ◌++◌, some, arith, length,
  ltb, if◌then◌else◌, Bool-cases, inl, inr,
}
use sparkle.Prelude.Bytes.{Bytes, IsBytes, word16_at}
use sparkle.Address.{SparkleAddress, is_null}
use sparkle.Cipher.{SessionCipher}
use sparkle.Wire
use sparkle.Wire.{frame, encrypted_packet, data_packet_t}
use sparkle.World.{
  Ref, HostAddress, SparkleNode, World, Environment, Event, datagram, deliver, done,
}
use sparkle.Router
use sparkle.Router.{is_self}
use sparkle.Node.{phantom_ip, phantom_port}
use sparkle.Link.Send.{wrap_node}
use sparkle.Link.Send.Direct.{send_encrypted-direct}
use sparkle.Link.Keys.{exceeds}
use sparkle.Link.Peers.{send_data_packet, handle_data_packet, has_encapsulation}
use sparkle.Link.Dispatch.{handler, handle_packet}
use sparkle.Link.Dispatch.Sealed.{handle_packet-encrypted}

-- What reaches the application layers: the data, if one of them is attached for it.
abbrev pub delivered : World → ℕ → Bytes → SparkleNode → List Event
delivered v encap xs m =
    if has_encapsulation encap v.link.app_layers then deliver encap xs m.sparkle_mac ∷ [] else []

handle_data_packet-delivered :
    (env : Environment) (v : World) (q : Ref) (m : SparkleNode) (encap : ℕ) (xs : Bytes)
    → v.heap q ≡ some m
    → encap < 2 ^ 16
    → 0 < length xs
    → handle_data_packet env (data_packet_t encap ++ xs) q v
      ≡ done tt (record v { events = v.events ++ delivered v encap xs m })
unfolding handle_data_packet exceeds
handle_data_packet-delivered env v q m encap xs e h k =
    let word : word16_at (data_packet_t encap ++ xs) 0 ≡ encap = omega arith in
    let long : ltb 2 (length (data_packet_t encap ++ xs)) ≡ true = ground arith in
    elim (Bool-cases (has_encapsulation encap v.link.app_layers)) [
      | inl attached ↦ rw (long, e, word, attached) refl
      | inr absent ↦ rw (long, e, word, absent, append-nil v.events) refl
    ]

receive :
    (env : Environment) (v : World) (q : Ref) (m : SparkleNode) (encap : ℕ) (xs : Bytes)
    (host : HostAddress) (port : ℕ)
    → let sealed =
        env.cipher.encrypt m.his_session_key (frame Wire.data_packet (data_packet_t encap ++ xs)) in
      wrap_node env host port v ≡ done q v
      → v.heap q ≡ some m
      → m.keys_negotiated ≡ true
      → IsBytes m.his_session_key
      → IsBytes xs
      → encap < 2 ^ 16
      → 0 < length xs
      → length xs + 6 < 2 ^ 16
      → length sealed + 4 < 2 ^ 16
      → handle_packet env (frame encrypted_packet sealed) host port v
        ≡ done tt (record v { events = v.events ++ delivered v encap xs m })
unfolding handler
receive env v q m encap xs host port hw hm km ik ix he hp hl ls =
    handle_packet-encrypted env Wire.data_packet (data_packet_t encap ++ xs) host port v v q m hw hm
      km ik (omega arith, (omega arith, ix)) (omega arith) ls refl
    ∙ rw hw (handle_data_packet-delivered env v q m encap xs hm he hp)

module _ (env env' : Environment) (w v : World) (r q : Ref) (n m : SparkleNode)
    (address : SparkleAddress) where
  -- A data packet for an address whose node is known, and has the session key, leaves in one datagram.
  -- The node that knows the sender by that key hands the data over, unchanged, to its application layer
  -- under the sender's address, if one is attached, and nothing else happens.
  pub send_data_packet-delivered :
      (encap : ℕ) (xs : Bytes) (host : HostAddress) (port : ℕ)
      → let sealed =
          env.cipher.encrypt n.my_session_key
            (frame Wire.data_packet (data_packet_t encap ++ xs)) in
        let packet = frame encrypted_packet sealed in
        is_null address ≡ false
        → Router.find_sparkle_node address w ≡ done (some r) w
        → w.heap r ≡ some n
        → n.keys_negotiated ≡ true
        → is_self w.router.self r ≡ false
        → env'.cipher ≡ env.cipher
        → wrap_node env' host port v ≡ done q v
        → v.heap q ≡ some m
        → m.keys_negotiated ≡ true
        → m.his_session_key ≡ n.my_session_key
        → IsBytes n.my_session_key
        → IsBytes xs
        → encap < 2 ^ 16
        → 0 < length xs
        → length xs + 6 < 2 ^ 16
        → length sealed + 4 < 2 ^ 16
        → (send_data_packet env address encap xs w
            ≡ done tt (record w {
              events = w.events ++ datagram packet (phantom_ip n) (phantom_port n) ∷ [];
            }))
          × (handle_packet env' packet host port v
              ≡ done tt (record v { events = v.events ++ delivered v encap xs m }))
  unfolding send_data_packet handler
  send_data_packet-delivered encap xs host port known found e k s same hw hm km keys ik ix he hp hl
        ls =
      let f = frame Wire.data_packet (data_packet_t encap ++ xs) in
      (
        rw (known, found) (send_encrypted-direct env w r n Wire.data_packet _ e k s),
        ap₂
              (λ (c : SessionCipher) key.
                handle_packet env' (frame encrypted_packet (c.encrypt key f)) host port v)
              (sym same) (sym keys)
            ∙ receive env' v q m encap xs host port hw hm km (rw keys ik) ix he hp hl
                (rw (same, keys) ls),
      )
