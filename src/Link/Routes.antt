-- ===== src/Link/Routes.antt =====
-- LinkLayer.cpp: registration of nodes by a master, routes, roles, and the data that waits for routes.
pub mod Queue
use sparkle.Prelude.{
  ℕ, zero, suc, ◌+◌, ◌*◌, ◌-◌, ◌%◌, ◌^◌, Bool, true, false, not, ◌&&◌, ◌||◌, List, [], ◌∷◌, ◌++◌,
  Option, none, some, length, take, drop, ◌==◌, if◌then◌else◌, ltb,
}
use sparkle.Prelude.Bytes.{Bytes, byte_at, bytes_eq, word16_at}
use sparkle.Address.{SparkleAddress, null_address, address_at, address_eq, is_null}
use sparkle.Wire
use sparkle.Wire.{
  Endpoint, endpoint_t, read_endpoint, flag_t, read_flag, Route, route_t, read_route, data_packet_t,
}
use sparkle.World.{
  Ref, HostAddress, null_host, ipv4, host_eq, to_ipv4, SparkleNode, LinkLayer, World, Environment,
  M, done, pure, ◌>>=◌, ◌>>◌, skip, get, emit, modify_link, when, deref, not_null, contains,
  for_each, deliver,
}
use sparkle.World
use sparkle.Router
use sparkle.Router.{Query, no_query, masters, others, is_some, is_self}
use sparkle.Node
use sparkle.Link.Send
use sparkle.Link.Keys.{has_size, exceeds, remove_from_spool}
use sparkle.Link.Join.{endpoint_of, send_register_reply}

abbrev pub Queues : Type 0
Queues = List (SparkleAddress × List Bytes)

-- QHash<SparkleAddress, QList<QByteArray> >: an absent key has no packets.
unfoldable pub queued : SparkleAddress → Queues → List Bytes
queued a [] = []
queued a ((b, q) ∷ qs) = if address_eq b a then q else queued a qs

-- queuedData[a].append(x)
unfoldable pub enqueue : SparkleAddress → Bytes → Queues → Queues
enqueue a x [] = (a, x ∷ []) ∷ []
enqueue a x ((b, q) ∷ qs) =
    if address_eq b a then (b, q ++ x ∷ []) ∷ qs else (b, q) ∷ enqueue a x qs

-- queuedData.remove(a)
unfoldable pub remove_queue : SparkleAddress → Queues → Queues
remove_queue a [] = []
remove_queue a ((b, q) ∷ qs) =
    if address_eq b a then remove_queue a qs else (b, q) ∷ remove_queue a qs

-- queuedData[a].clear(), for a key that is there
unfoldable pub clear_queue : SparkleAddress → Queues → Queues
clear_queue a [] = []
clear_queue a ((b, q) ∷ qs) = if address_eq b a then (b, []) ∷ qs else (b, q) ∷ clear_queue a qs

-- `masters / total < 1 / divisor`, as the code computes it in doubles: a zero total gives NaN, and a
-- zero divisor infinity. The quotients of such small numbers are equal or far apart.
unfoldable pub below_share : ℕ → ℕ → ℕ → Bool
below_share n total divisor =
    if total == 0 then false else ((divisor == 0) || ltb (n * divisor) total)

abbrev pub self_is_master : M Bool
self_is_master = do w ← get; s ← not_null w.router.self; self ← deref s; pure self.master

-- The last node that has the address of the route and another endpoint.
unfoldable pub find_obsolete : Route → List Ref → Option Ref → M (Option Ref)
find_obsolete route [] target = pure target
find_obsolete route (r ∷ rs) target = do
  n ← deref r
  find_obsolete route rs (
      if address_eq n.sparkle_mac route.sparkle_mac
        && not (host_eq n.real_ip (ipv4 route.real.addr) && (n.real_port == route.real.port))
      then some r
      else target)

-- The first node whose address begins with the bytes of `mac`.
unfoldable pub find_prefix : Bytes → List Ref → M (Option SparkleAddress)
find_prefix mac [] = pure none
find_prefix mac (r ∷ rs) =
    let rest = find_prefix mac rs in
    do
      n ← deref r
      if bytes_eq (take (length mac) n.sparkle_mac.bytes) mac
          then pure (some n.sparkle_mac)
          else rest

-- The first node at this real endpoint.
unfoldable pub find_endpoint : Endpoint → List Ref → M (Option Ref)
find_endpoint e [] = pure none
find_endpoint e (r ∷ rs) =
    let rest = find_endpoint e rs in
    do
      n ← deref r
      if host_eq n.real_ip (ipv4 e.addr) && (n.real_port == e.port) then pure (some r) else rest

abbrev pub same_ref : Option Ref → Option Ref → Bool
same_ref none none = true
same_ref none (some b) = false
same_ref (some a) none = false
same_ref (some a) (some b) = a == b

module _ (env : Environment) where
  open env use {memory}

  -- The route to `target`, for `r`.
  unfoldable pub send_route : Ref → Ref → Bool → M (Unit {0})
  send_route r target tunnel_request = do
    t ← deref target
    Send.send_encrypted env Wire.route
        (route_t memory (record {
          sparkle_mac = t.sparkle_mac;
          real = endpoint_of t;
          is_master = t.master;
          is_behind_nat = t.behind_nat;
          tunnel_request = tunnel_request;
        }))
        r

  -- Whether a node that is not behind a NAT becomes a master: the second one does, and after that
  -- the masters are kept above one node in `networkDivisor`.
  unfoldable pub choose_role : M Bool
  choose_role = do
    n ← Router.count masters null_host
    w ← get
    pure (if n == 1 then true else below_share n (length w.router.nodes + 1) w.link.network_divisor)

  unfoldable pub handle_register_request : Bytes → Ref → M (Unit {0})
  handle_register_request payload r = if not (has_size payload 1) then skip else (do
    accepting ← self_is_master
    if not accepting then skip else (do
      Node.configure env r
      Node.set_behind_nat r (read_flag payload)
      role ← if read_flag payload then pure false else choose_role
      Node.set_master r role
      updates ← Router.find (if role then others else record others { master = true }) null_host
      for_each updates (λ u. do send_route r u false; send_route u r false)
      w ← get
      s ← not_null w.router.self
      send_route r s false
      Router.update_node r
      send_register_reply env r))

  -- The packets that waited for the route go out.
  unfoldable pub release_queue : SparkleAddress → Ref → M (Unit {0})
  release_queue a r = do
    w ← get
    let packets = queued a w.link.queued_data
    when (not (length packets == 0)) (do
      for_each packets (λ x. Send.send_encrypted env Wire.data_packet x r)
      modify_link (λ l. record l { queued_data = remove_queue a l.queued_data }))

  -- The two ends of a tunnel are both behind a NAT.
  unfoldable pub open_tunnel : Ref → Bool → M (Unit {0})
  open_tunnel target tunnel_request = do
    w ← get
    when w.link.joined (do
      s ← not_null w.router.self
      self ← deref s
      t ← deref target
      when (self.behind_nat && (t.behind_nat && tunnel_request))
          (Send.send_keepalive env target true))

  unfoldable pub route_target : Route → M Ref
  route_target route = do
    w ← get
    found ← find_obsolete route w.router.nodes none
    elim found [
      | some r ↦ pure r
      | none ↦ do
        r ← Send.wrap_node env (ipv4 route.real.addr) route.real.port
        Node.set_sparkle_mac r route.sparkle_mac
        pure r
    ]

  unfoldable pub handle_route : Bytes → Ref → M (Unit {0})
  handle_route payload r =
      if not (has_size payload 20)
      then skip
      else (let route = read_route payload in
          do
            n ← deref r
            w ← get
            if not n.master && is_some w.router.self then skip else (do
              target ← route_target route
              Node.set_real_ip target (ipv4 route.real.addr)
              Node.set_real_port target route.real.port
              Node.set_master target route.is_master
              Node.set_behind_nat target route.is_behind_nat
              Router.update_node target
              t ← deref target
              open_tunnel target route.tunnel_request
              release_queue t.sparkle_mac target))

  -- The length byte of the request is not set.
  unfoldable pub send_route_request : SparkleAddress → M (Unit {0})
  send_route_request mac = do
    known ← Router.has_route_to mac
    if known then skip else (do
      m ← Router.select env masters null_host
      w ← get
      if same_ref m w.router.self then emit (World.route_missing mac) else (do
        r ← not_null m
        Send.send_encrypted env Wire.route_request (mac.bytes ++ memory 6 ∷ []) r))
