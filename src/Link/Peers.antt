-- ===== src/Link/Peers.antt =====
-- LinkLayer.cpp: requests for routes, their withdrawal, tunnels, roles, exits, and data packets.
pub mod Missing
pub mod Waiting
use sparkle.Prelude.{
  ℕ, zero, suc, ◌+◌, ◌*◌, ◌-◌, ◌%◌, ◌^◌, Bool, true, false, not, ◌&&◌, ◌||◌, List, [], ◌∷◌, ◌++◌,
  Option, none, some, length, take, drop, ◌==◌, if◌then◌else◌, ltb,
}
use sparkle.Prelude.Bytes.{Bytes, byte_at, word16_at}
use sparkle.Address.{SparkleAddress, null_address, address_at, is_null}
use sparkle.Wire
use sparkle.Wire.{endpoint_t, read_endpoint, flag_t, read_flag, data_packet_t}
use sparkle.World.{
  Ref, HostAddress, null_host, ipv4, SparkleNode, LinkLayer, World, Environment, M, done, pure,
  ◌>>=◌, ◌>>◌, skip, get, emit, modify_link, when, deref, not_null, contains, for_each, deliver,
}
use sparkle.World
use sparkle.Router
use sparkle.Router.{Query, no_query, masters, others}
use sparkle.Node
use sparkle.Link.Send
use sparkle.Link.Keys.{has_size, exceeds, remove_from_spool}
use sparkle.Link.Join.{endpoint_of}
use sparkle.Link.Routes.{
  self_is_master, send_route, send_route_request, find_prefix, find_endpoint, queued, enqueue,
  clear_queue, below_share,
}

abbrev white_slaves : Query
white_slaves = record no_query { slave = true; white = true }

abbrev pub has_encapsulation : ℕ → List ℕ → Bool
has_encapsulation e [] = false
has_encapsulation e (x ∷ xs) = if x == e then true else has_encapsulation e xs

module _ (env : Environment) where
  open env use {memory}

  -- The rest of the six bytes is not set. A master asks nobody.
  unfoldable pub find_partial_route : Bytes → M SparkleAddress
  find_partial_route mac = do
    w ← get
    found ← find_prefix mac w.router.nodes
    elim found [
      | some a ↦ pure a
      | none ↦ do
        knows_all ← self_is_master
        if knows_all then pure null_address else (do
          m ← Router.select env masters null_host
          elim m [
            | none ↦ skip
            | some r ↦
                Send.send_encrypted env Wire.route_request
                  (mac
                    ++ drop (length mac)
                        (memory 0 ∷ memory 1 ∷ memory 2 ∷ memory 3 ∷ memory 4 ∷ memory 5 ∷ [])
                    ++ length mac ∷ [])
                  r
          ]
          pure null_address)
    ]

  -- sizeof(route_request_t) bytes of a route_missing_t: one more than it has.
  unfoldable pub send_route_missing : Ref → SparkleAddress → M (Unit {0})
  send_route_missing r mac =
      Send.send_encrypted env Wire.route_missing (mac.bytes ++ memory 6 ∷ []) r

  -- The answer to a request with all six bytes.
  unfoldable pub answer_full : SparkleAddress → Ref → M (Unit {0})
  answer_full mac r = do
    found ← Router.find_sparkle_node mac
    elim found [ some target ↦ send_route env r target false | none ↦ send_route_missing r mac ]

  unfoldable pub answer_partial : Bytes → Ref → M (Unit {0})
  answer_partial mac r = do
    full ← find_partial_route mac
    if is_null full then skip else (do
      found ← Router.find_sparkle_node full
      target ← not_null found
      send_route env r target false)

  unfoldable pub handle_route_request : Bytes → Ref → M (Unit {0})
  handle_route_request payload r = do
    accepting ← self_is_master
    if not accepting
        then (deref r >> skip)
        else if not (has_size payload 7)
        then skip
        else if ltb 6 (byte_at payload 6)
        then (deref r >> skip)
        else if ltb (byte_at payload 6) 6
        then answer_partial (take (byte_at payload 6) payload) r
        else answer_full (address_at payload 0) r

  unfoldable pub handle_route_missing : Bytes → Ref → M (Unit {0})
  handle_route_missing payload r = if not (has_size payload 6) then skip else (do
    modify_link (λ l. record l { queued_data = clear_queue (address_at payload 0) l.queued_data })
    emit (World.route_missing (address_at payload 0)))

  unfoldable pub send_route_invalidate : Ref → Ref → M (Unit {0})
  send_route_invalidate r target = do
    t ← deref target
    Send.send_encrypted env Wire.route_invalidate (endpoint_t memory (endpoint_of t)) r

  unfoldable pub handle_route_invalidate : Bytes → Ref → M (Unit {0})
  handle_route_invalidate payload r = if not (has_size payload 8) then skip else (do
    list ← Router.find others null_host
    found ← find_endpoint (read_endpoint payload) list
    elim found [
      | none ↦ deref r >> skip
      | some target ↦ do
        _ ← deref target
        _ ← deref r
        Router.remove_node target
        remove_from_spool target
    ])

  unfoldable pub handle_backlink_redirect : Bytes → Ref → M (Unit {0})
  handle_backlink_redirect payload r = if not (has_size payload 8) then skip else (do
    accepting ← self_is_master
    n ← deref r
    if not accepting || n.master then skip else (do
      target ← Send.wrap_node env (ipv4 (read_endpoint payload).addr) (read_endpoint payload).port
      w ← get
      t ← deref target
      if not (contains w.router.nodes target) || not t.keys_negotiated
          then skip
          else send_route env target r true))

  unfoldable pub send_role_update : Ref → Bool → M (Unit {0})
  send_role_update r is_master_now =
      Send.send_encrypted env Wire.role_update (flag_t is_master_now) r

  unfoldable pub handle_role_update : Bytes → Ref → M (Unit {0})
  handle_role_update payload r = if not (has_size payload 1) then skip else (do
    n ← deref r
    if not n.master
        then skip
        else (do w ← get; s ← not_null w.router.self; Node.set_master s (read_flag payload)))

  -- Nothing, whatever the size.
  unfoldable pub handle_keepalive : Bytes → Ref → M (Unit {0})
  handle_keepalive payload r = skip

  unfoldable pub send_exit_notification : Ref → M (Unit {0})
  send_exit_notification r = Send.send_encrypted env Wire.exit_notification [] r

  -- A slave that is not behind a NAT becomes a master, and the slaves learn of it.
  unfoldable pub reincarnate_someone : M (Unit {0})
  reincarnate_someone = do
    chosen ← Router.select env white_slaves null_host
    elim chosen [
      | none ↦ skip
      | some target ↦ do
        Node.set_master target true
        Router.update_node target
        list ← Router.find others null_host
        for_each list (λ r. do
          n ← deref r
          when (not n.master && not (r == target))
              (do send_route env r target false; send_route env target r false))
        send_role_update target true
    ]

  -- The node is removed first, and named to the others after that.
  unfoldable pub handle_exit_notification : Bytes → Ref → M (Unit {0})
  handle_exit_notification payload r = if not (has_size payload 0) then skip else (do
    accepting ← self_is_master
    if not accepting then (deref r >> skip) else (do
      Router.remove_node r
      list ← Router.find others null_host
      for_each list (λ target. send_route_invalidate target r)
      remove_from_spool r
      n ← Router.count masters null_host
      w ← get
      when (below_share n (length w.router.nodes) w.link.network_divisor || (n == 1))
          reincarnate_someone))

  unfoldable pub send_data_packet : SparkleAddress → ℕ → Bytes → M (Unit {0})
  send_data_packet address encap payload = if is_null address then skip else (do
    found ← Router.find_sparkle_node address
    elim found [
      | some r ↦ Send.send_encrypted env Wire.data_packet (data_packet_t encap ++ payload) r
      | none ↦ do
        modify_link (λ l. record l {
          queued_data = enqueue address (data_packet_t encap ++ payload) l.queued_data;
        })
        send_route_request env address
    ])

  unfoldable pub handle_data_packet : Bytes → Ref → M (Unit {0})
  handle_data_packet packet r = if not (exceeds packet 2) then skip else (do
    w ← get
    n ← deref r
    when (has_encapsulation (word16_at packet 0) w.link.app_layers)
        (emit (deliver (word16_at packet 0) (drop 2 packet) n.sparkle_mac)))
