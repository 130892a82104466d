-- ===== src/Link/Peers/Missing.antt =====
-- LinkLayer.cpp: sendRouteMissing against handleRouteMissing.
use sparkle.Prelude.{
  ◌≡◌, refl, true, false, [], ◌∷◌, ◌++◌, some, arith, length, length-append, ◌==◌,
}
use sparkle.Address.{SparkleAddress}
use sparkle.Wire
use sparkle.World.{Ref, SparkleNode, World, Environment, datagram, done}
use sparkle.Router.{is_self}
use sparkle.Node.{phantom_ip, phantom_port}
use sparkle.Link.Send.Direct.{sealed_packet, send_encrypted-direct}
use sparkle.Link.Keys.{has_size}
use sparkle.Link.Peers.{send_route_missing, handle_route_missing}

-- What sendRouteMissing puts into its packet is never accepted by handleRouteMissing, which drops it
-- and changes nothing: the packet is one byte longer than the handler wants.
pub send_route_missing-rejected :
    (env env' : Environment) (w v : World) (r q : Ref) (n : SparkleNode) (mac : SparkleAddress)
    → w.heap r ≡ some n
    → n.keys_negotiated ≡ true
    → is_self w.router.self r ≡ false
    → length mac.bytes ≡ 6
    → let xs = mac.bytes ++ env.memory 6 ∷ [] in
      (send_route_missing env r mac w
        ≡ done tt (record w {
          events =
              w.events
              ++ datagram
                  (sealed_packet env n Wire.route_missing xs)
                  (phantom_ip n)
                  (phantom_port n)
                ∷ [];
        }))
      × (handle_route_missing env' xs q v ≡ done tt v)
unfolding send_route_missing handle_route_missing has_size
send_route_missing-rejected env env' w v r q n mac e k s h =
    let seven : (length (mac.bytes ++ env.memory 6 ∷ []) == 6) ≡ false =
      ground (arith, length-append mac.bytes (env.memory 6 ∷ [])) in
    (send_encrypted-direct env w r n Wire.route_missing _ e k s, rw seven refl)
