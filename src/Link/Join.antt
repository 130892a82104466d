-- ===== src/Link/Join.antt =====
-- LinkLayer.cpp: how a node joins a network: versions, the choice of a master, pings, registration.
pub mod Version
pub mod Pings
use sparkle.Prelude.{
  ℕ, zero, suc, ◌+◌, ◌*◌, ◌%◌, ◌^◌, Bool, true, false, not, ◌&&◌, ◌||◌, List, [], ◌∷◌, ◌++◌, Option,
  none, some, length, ◌==◌, if◌then◌else◌, ltb,
}
use sparkle.Prelude.Bytes.{Bytes, word32_at}
use sparkle.Wire.{
  protocol_version_request, protocol_version_reply, master_node_request, master_node_reply, ping,
  ping_request, ping_initiate, register_request, register_reply, protocol_version_reply_t, Endpoint,
  endpoint_t, read_endpoint, PingRequest, ping_request_t, read_ping_request, flag_t, RegisterReply,
  register_reply_t, read_register_reply,
}
use sparkle.World.{
  Ref, HostAddress, null_host, ipv4, to_ipv4, SparkleNode, JoinStep, join_version_request,
  join_master_node_request, join_awaiting_pings, join_registration, join_finished, LinkLayer, World,
  Environment, M, done, fatal, pure, ◌>>=◌, ◌>>◌, skip, get, emit, modify_link, when, deref,
  not_null, join_failed, joined_network,
}
use sparkle.Router
use sparkle.Router.{Query, no_query}
use sparkle.Node
use sparkle.Node.{same_endpoint}
use sparkle.Link.Send
use sparkle.Link.Keys.{has_size}

abbrev pub protocol_version : ℕ
protocol_version = 15

abbrev pub step_eq : JoinStep → JoinStep → Bool
step_eq join_version_request join_version_request = true
step_eq join_master_node_request join_master_node_request = true
step_eq join_awaiting_pings join_awaiting_pings = true
step_eq join_registration join_registration = true
step_eq join_finished join_finished = true
step_eq _ _ = false

-- checkPacketExpection, before the rest of a handler.
unfoldable pub expecting : JoinStep → M (Unit {0}) → M (Unit {0})
expecting s rest = do w ← get; if step_eq w.link.join_step s then rest else skip

abbrev pub set_step : JoinStep → M (Unit {0})
set_step s = modify_link (λ l. record l { join_step = s })

abbrev pub start_join_timer : M (Unit {0})
start_join_timer = modify_link (λ l. record l { join_timer = true })

abbrev pub endpoint_of : SparkleNode → Endpoint
endpoint_of n = record { addr = to_ipv4 n.real_ip; port = n.real_port }

-- cleanup(); emit joinFailed()
unfoldable pub fail_join : M (Unit {0})
fail_join = Send.cleanup >> emit join_failed

abbrev other_masters : Query
other_masters = record no_query { master = true; exclude_self = true }

-- n calls in a row
unfoldable pub repeat : ℕ → M (Unit {0}) → M (Unit {0})
repeat zero m = skip
repeat (suc n) m = let rest = repeat n m in m >> rest

module _ (env : Environment) where
  open env use {memory}

  abbrev wrap : Endpoint → M Ref
  wrap e = Send.wrap_node env (ipv4 e.addr) e.port

  unfoldable pub send_protocol_version_request : Ref → M (Unit {0})
  send_protocol_version_request r = Send.send_packet env protocol_version_request [] r

  unfoldable pub handle_protocol_version_request : Bytes → Ref → M (Unit {0})
  handle_protocol_version_request payload r =
      if not (has_size payload 0)
      then skip
      else Send.send_packet env protocol_version_reply (protocol_version_reply_t protocol_version) r

  unfoldable pub send_master_node_request : Ref → M (Unit {0})
  send_master_node_request r = Send.send_encrypted env master_node_request [] r

  -- After a mismatch the handler goes on.
  unfoldable pub handle_protocol_version_reply : Bytes → Ref → M (Unit {0})
  handle_protocol_version_reply payload r =
      if not (has_size payload 4)
      then skip
      else expecting join_version_request (do
        when (not (word32_at payload 0 == protocol_version)) fail_join
        set_step join_master_node_request
        send_master_node_request r
        start_join_timer)

  unfoldable pub send_master_node_reply : Ref → Ref → M (Unit {0})
  send_master_node_reply r m = do
    n ← deref m
    Send.send_encrypted env master_node_reply (endpoint_t memory (endpoint_of n)) r

  unfoldable pub handle_master_node_request : Bytes → Ref → M (Unit {0})
  handle_master_node_request payload r = if not (has_size payload 0) then skip else (do
    n ← deref r
    found ← Router.select env other_masters n.real_ip
    w ← get
    elim found [
      | some m ↦ send_master_node_reply r m
      | none ↦ elim w.router.self [ none ↦ λ _. fatal | some s ↦ send_master_node_reply r s ]
    ])

  unfoldable pub send_ping_request : Ref → Ref → ℕ → M (Unit {0})
  send_ping_request r target n = do
    t ← deref target
    Send.send_encrypted env ping_request
        (ping_request_t memory (record { target = endpoint_of t; count = n })) r

  unfoldable pub send_register_request : Ref → Bool → M (Unit {0})
  send_register_request r is_behind_nat =
      Send.send_encrypted env register_request (flag_t is_behind_nat) r

  unfoldable pub handle_master_node_reply : Bytes → Ref → M (Unit {0})
  handle_master_node_reply payload r =
      if not (has_size payload 8)
      then skip
      else expecting join_master_node_request (do
        m ← wrap (read_endpoint payload)
        modify_link (λ l. record l { join_master = some m })
        w ← get
        if not w.link.force_behind_nat
            then (do
              modify_link (λ l. record l {
                join_step = join_awaiting_pings;
                join_ping = record { addr = 0; port = l.join_ping.port };
                join_pings_emitted = 4;
                join_pings_arrived = 0;
                ping_timer = true;
              })
              send_ping_request r m 4)
            else (do set_step join_registration; send_register_request m true)
        start_join_timer)

  unfoldable pub send_ping : Ref → M (Unit {0})
  send_ping r = do n ← deref r; Send.send_packet env ping (endpoint_t memory (endpoint_of n)) r

  -- A request for more than sixteen pings is dropped.
  unfoldable pub do_ping : Ref → ℕ → M (Unit {0})
  do_ping r n = if ltb 16 n then (deref r >> skip) else repeat n (send_ping r)

  unfoldable pub send_ping_initiate : Ref → Ref → ℕ → M (Unit {0})
  send_ping_initiate r target n = do
    t ← deref target
    Send.send_encrypted env ping_initiate
        (ping_request_t memory (record { target = endpoint_of t; count = n })) r

  unfoldable pub handle_ping_request : Bytes → Ref → M (Unit {0})
  handle_ping_request payload r =
      if not (has_size payload 8)
      then skip
      else (let req = read_ping_request payload in
          do
            target ← wrap req.target
            w ← get
            s ← not_null w.router.self
            self ← deref s
            t ← deref target
            if same_endpoint self t
                then do_ping r req.count
                else send_ping_initiate target r req.count)

  unfoldable pub handle_ping_initiate : Bytes → Ref → M (Unit {0})
  handle_ping_initiate payload r =
      if not (has_size payload 8)
      then skip
      else (let req = read_ping_request payload in
          do target ← wrap req.target; do_ping target req.count)

  unfoldable pub join_got_pinged : M (Unit {0})
  join_got_pinged = do
    modify_link (λ l. record l { ping_timer = false; join_step = join_registration })
    w ← get
    m ← not_null w.link.join_master
    send_register_request m false
    start_join_timer

  -- A ping that names another endpoint fails the join, and the handler goes on.
  unfoldable pub accept_ping : Endpoint → M (Unit {0})
  accept_ping p = do
    modify_link (λ l. record l { join_pings_arrived = (l.join_pings_arrived + 1) % 2 ^ 32 })
    w ← get
    if w.link.join_ping.addr == 0
        then modify_link (λ l. record l { join_ping = p })
        else when (not ((w.link.join_ping.addr == p.addr) && (w.link.join_ping.port == p.port)))
            fail_join
    w' ← get
    when (w'.link.join_pings_arrived == w'.link.join_pings_emitted) join_got_pinged

  abbrev is_ref : Option Ref → Ref → Bool
  is_ref none r = false
  is_ref (some m) r = r == m

  unfoldable pub handle_ping : Bytes → Ref → M (Unit {0})
  handle_ping payload r =
      if not (has_size payload 8)
      then skip
      else expecting join_awaiting_pings (do
        w ← get
        if is_ref w.link.join_master r
            then accept_ping (read_endpoint payload)
            else (deref r >> skip))

  -- The single-shot ping timer, which stops when it fires.
  unfoldable pub ping_timeout : M (Unit {0})
  ping_timeout = do
    modify_link (λ l. record l { ping_timer = false })
    w ← get
    if w.link.join_pings_arrived == 0
        then (do
          set_step join_registration
          m ← not_null w.link.join_master
          send_register_request m true)
        else join_got_pinged

  unfoldable pub send_register_reply : Ref → M (Unit {0})
  send_register_reply r = do
    n ← deref r
    w ← get
    Send.send_encrypted env register_reply
        (register_reply_t memory (record {
          network_divisor = w.link.network_divisor;
          is_master = n.master;
          sparkle_mac = n.sparkle_mac;
          real = if n.behind_nat then endpoint_of n else record { addr = 0; port = 0 };
        }))
        r

  -- The node that the reply makes of this host: its endpoint comes from the reply behind a NAT, and
  -- from the pings otherwise.
  unfoldable pub adopt_endpoint : RegisterReply → M Ref
  adopt_endpoint reply =
      if reply.real.addr == 0
      then (do w ← get; s ← wrap w.link.join_ping; Node.set_behind_nat s false; pure s)
      else (do
        s ← wrap reply.real
        Node.set_behind_nat s true
        modify_link (λ l. record l { nat_keepalive_timer = true })
        pure s)

  unfoldable pub handle_register_reply : Bytes → Ref → M (Unit {0})
  handle_register_reply payload r =
      if not (has_size payload 16)
      then skip
      else expecting join_registration (
          let reply = read_register_reply payload in
          do
            self ← adopt_endpoint reply
            Node.set_sparkle_mac self reply.sparkle_mac
            _ ← Node.set_auth_key env self env.host_key
            Node.set_master self reply.is_master
            Router.set_self_node self
            modify_link (λ l. record l {
              network_divisor = reply.network_divisor;
              join_timer = false;
              joined = true;
              join_step = join_finished;
            })
            emit (joined_network self))
