-- ===== src/Link/Peers/Waiting.antt =====
-- LinkLayer.cpp: sendDataPacket for an address whose node is not known.
use sparkle.Prelude.{
  ℕ, suc, ◌≡◌, refl, sym, ap, ◌∙◌, Bool, false, List, [], ◌∷◌, ◌++◌, some, ◌≢◌, if◌then◌else◌, inl,
  inr, Bool-cases,
}
use sparkle.Prelude.Bytes.{Bytes}
use sparkle.Address.{SparkleAddress, address_eq, is_null}
use sparkle.Wire
use sparkle.Wire.{data_packet_t}
use sparkle.World.{Ref, null_host, SparkleNode, World, Environment, done}
use sparkle.World.Refs.{Live, Returns, weaken}
use sparkle.Router
use sparkle.Router.{masters}
use sparkle.Router.Selection.{select-mem, selected, keep}
use sparkle.Router.Lookup.{Unknown, find_sparkle_node-Unknown}
use sparkle.Link.Send.{send_encrypted}
use sparkle.Link.Send.Quiet.{IsSound, Step, Step-random, IsSound-Step}
use sparkle.Link.Send.Steps.{send_encrypted_packet-Step}
use sparkle.Link.Routes.{Queues, queued, enqueue, same_ref, send_route_request}
use sparkle.Link.Routes.Queue.{queued-enqueue}
use sparkle.Link.Peers.{send_data_packet}

module _ (env : Environment) (w : World) (i : IsSound w) (address : SparkleAddress) where
  send_route_request-queued :
      Router.has_route_to address w ≡ done false w
      → selected masters null_host w ≢ []
      → Returns (λ _ v. v.link.queued_data ≡ w.link.queued_data) (send_route_request env address w)
  unfolding send_route_request send_encrypted
  send_route_request-queued missing master =
      elim (select-mem env masters null_host w i.live i.distinct) [
        | inl (nobody, s) ↦ absurd (master nobody)
        | inr (m, (_, (n, e, _)), s) ↦
            let v = record w { random_calls = suc w.random_calls } in
            let drawn = Step-random {env = env} w (suc w.random_calls) in
            elim (Bool-cases (same_ref (some m) w.router.self)) [
              | inl own ↦ rw (missing, s, own) refl
              | inr other ↦
                  rw (missing, s, other)
                    (weaken (λ _ u. Step env v u) _ _
                      (send_encrypted_packet-Step env v (IsSound-Step drawn i) m n e
                        Wire.route_request _ false)
                      (λ _ u t. t.queued_data))
            ]
      ]

-- The world with other waiting data.
abbrev pub wait : World → Queues → World
wait w qs = record w { link = record w.link { queued_data = qs } }

module _ (w : World) (qs : Queues) where
  Live-wait : (rs : List Ref) → Live w rs → Live (wait w qs) rs
  Live-wait [] l = tt
  Live-wait (r ∷ rs) (h, l) = (h, Live-wait rs l)

  Unknown-wait : (a : SparkleAddress) (rs : List Ref) → Unknown a w rs → Unknown a (wait w qs) rs
  Unknown-wait a [] u = tt
  Unknown-wait a (r ∷ rs) (h, u) = (h, Unknown-wait a rs u)

  keep-wait :
      (out : Ref → SparkleNode → Bool) (rs : List Ref) → keep (wait w qs) out rs ≡ keep w out rs
  unfolding keep
  keep-wait out [] = refl
  keep-wait out (r ∷ rs) = rw (keep-wait out rs) refl

  IsSound-wait : IsSound w → IsSound (wait w qs)
  IsSound-wait i = record {
    live = Live-wait w.router.nodes i.live;
    distinct = i.distinct;
    self = i.self;
  }

module _ (env : Environment) (w : World) (address : SparkleAddress) (encap : ℕ) (xs : Bytes) where
  -- sendDataPacket for an address that no node has is sendRouteRequest for it in the world in which the
  -- data waits behind what waits for the same address already, and does nothing else. As long as there is
  -- a master to ask, it ends, and then the data still waits there, whatever became of the request; what
  -- waits for other addresses is left as it is.
  pub send_data_packet-queued :
      IsSound w
      → selected masters null_host w ≢ []
      → is_null address ≡ false
      → Unknown address w w.router.nodes
      → (send_data_packet env address encap xs w
          ≡ send_route_request env address
              (wait w (enqueue address (data_packet_t encap ++ xs) w.link.queued_data)))
        × Returns
            (λ _ v.
              (b : SparkleAddress)
              → queued b v.link.queued_data ≡ (
                  if address_eq address b
                  then queued b w.link.queued_data ++ (data_packet_t encap ++ xs) ∷ []
                  else queued b w.link.queued_data))
            (send_data_packet env address encap xs w)
  unfolding send_data_packet
  send_data_packet-queued i master known unknown =
      let qs = enqueue address (data_packet_t encap ++ xs) w.link.queued_data in
      let u = Unknown-wait w qs address w.router.nodes unknown in
      rw (known, (find_sparkle_node-Unknown address w unknown).0)
        (
          refl,
          weaken (λ _ v. v.link.queued_data ≡ qs) _ _
              (send_route_request-queued env (wait w qs) (IsSound-wait w qs i) address
                (find_sparkle_node-Unknown address (wait w qs) u).1
                (λ e. master (sym (keep-wait w qs _ w.router.nodes) ∙ e)))
              (λ _ v e b.
                ap (queued b) e
                ∙ queued-enqueue b address (data_packet_t encap ++ xs) w.link.queued_data),
        )
