-- ===== src/Link/Send/Direct.antt =====
-- LinkLayer.cpp: sendEncryptedPacket to a node whose keys are negotiated.
use sparkle.Prelude.{◌≡◌, refl, true, false, [], ◌∷◌, ◌++◌, some}
use sparkle.Prelude.Bytes.{Bytes}
use sparkle.Wire.{PacketType, frame, encrypted_packet}
use sparkle.World.{Ref, SparkleNode, World, Environment, datagram, done}
use sparkle.Router.{is_self}
use sparkle.Node.{phantom_ip, phantom_port}
use sparkle.Link.Send.{
  send_packet, encrypt_and_send, send_encrypted, send_encrypted_packet, send_encrypted_fuel,
}

-- The packet as it travels to a node.
abbrev pub sealed_packet : Environment → SparkleNode → PacketType → Bytes → Bytes
sealed_packet env n t xs = frame encrypted_packet (env.cipher.encrypt n.my_session_key (frame t xs))

-- It is sent at once, in one datagram, and nothing else happens.
pub send_encrypted-direct :
    (env : Environment) (w : World) (r : Ref) (n : SparkleNode) (t : PacketType) (xs : Bytes)
    → w.heap r ≡ some n
    → n.keys_negotiated ≡ true
    → is_self w.router.self r ≡ false
    → send_encrypted env t xs r w
      ≡ done tt (record w {
        events =
            w.events ++ datagram (sealed_packet env n t xs) (phantom_ip n) (phantom_port n) ∷ [];
      })
unfolding send_encrypted send_encrypted_packet send_encrypted_fuel encrypt_and_send send_packet
    phantom_ip phantom_port
send_encrypted-direct env w r n t xs e k s = rw (e, k, e, s, e) refl
