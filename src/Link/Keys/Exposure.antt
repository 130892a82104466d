-- ===== src/Link/Keys/Exposure.antt =====
-- LinkLayer.cpp: sendSessionKeyExchange sends the session key as it is.
use sparkle.Prelude.{◌≡◌, refl, Bool, false, ◌++◌, [], ◌∷◌, some, length, take, drop}
use sparkle.Prelude.Bytes.{Bytes, IsBytes, of_bool}
use sparkle.Wire.{PacketType, session_key_exchange, frame}
use sparkle.World.{Ref, SparkleNode, World, Environment, datagram, done}
use sparkle.Router.{is_self}
use sparkle.Node.{phantom_ip, phantom_port}
use sparkle.Link.Send.{send_packet, send_session_key_exchange}
use sparkle.Link.Send.Direct.{sealed_packet}

module _ (env : Environment) where
  abbrev key_packet : SparkleNode → Bool → Bytes
  key_packet n need = frame session_key_exchange (
      of_bool need
      ∷ env.memory 1
      ∷ env.memory 2
      ∷ env.memory 3
      ∷ env.memory 4
      ∷ env.memory 5
      ∷ env.memory 6
      ∷ env.memory 7
      ∷ n.my_session_key)

  -- Whoever sees the datagram by which a host gives its session key for a node to that node has the
  -- key, behind the twelfth byte, and so reads every packet that the host seals for the node.
  pub send_session_key_exchange-exposes :
      (w : World) (r : Ref) (n : SparkleNode) (need : Bool) (t : PacketType) (xs : Bytes)
      → w.heap r ≡ some n
      → is_self w.router.self r ≡ false
      → IsBytes n.my_session_key
      → IsBytes (frame t xs)
      → (seen : Bytes) × (send_session_key_exchange env r need w
          ≡ done tt (record w {
            events = w.events ++ datagram seen (phantom_ip n) (phantom_port n) ∷ [];
          }))
        × (take
              (length (frame t xs))
              (env.cipher.decrypt (drop 12 seen) (drop 4 (sealed_packet env n t xs)))
            ≡ frame t xs)
  unfolding send_session_key_exchange send_packet frame
  send_session_key_exchange-exposes w r n need t xs e h k l = (
    key_packet n need,
    rw (e, h, e) refl,
    env.cipher.take-decrypt-encrypt n.my_session_key (frame t xs) k l,
  )
