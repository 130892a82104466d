-- ===== src/Link/Life.antt =====
-- LinkLayer.cpp: to create, join and leave a network, and the timers.
use sparkle.Prelude.{ℕ, Bool, true, false, not, ◌&&◌, ◌∷◌, length, ◌==◌, ltb, if◌then◌else◌}
use sparkle.World.{
  HostAddress, null_host, Environment, M, pure, ◌>>=◌, ◌>>◌, get, emit, modify_link, deref,
  not_null, for_each, joined_network, join_version_request, join_finished,
}
use sparkle.Router
use sparkle.Router.{Query, masters, others}
use sparkle.Node
use sparkle.Link.Send
use sparkle.Link.Join.{step_eq, fail_join, start_join_timer, send_protocol_version_request}
use sparkle.Link.Peers.{reincarnate_someone, send_exit_notification}

abbrev other_masters : Query
other_masters = record masters { exclude_self = true }

module _ (env : Environment) where
  open env use {host_key, transport_port, begins_receiving}

  unfoldable pub attach_application_layer : ℕ → M (Unit {0})
  attach_application_layer encap = modify_link (λ l. record l { app_layers = encap ∷ l.app_layers })

  unfoldable pub join_network : HostAddress → ℕ → Bool → M Bool
  join_network remote_ip remote_port behind_nat = if not begins_receiving then pure false else (do
    modify_link (λ l. record l { force_behind_nat = behind_nat; join_step = join_version_request })
    r ← Send.wrap_node env remote_ip remote_port
    send_protocol_version_request env r
    start_join_timer
    pure true)

  unfoldable pub join_timeout : M (Unit {0})
  join_timeout = do modify_link (λ l. record l { join_timer = false }); fail_join

  unfoldable pub create_network : HostAddress → ℕ → M Bool
  create_network local_ip divisor = do
    self ← Node.new_node env local_ip transport_port
    Node.set_master self true
    _ ← Node.set_auth_key env self host_key
    Node.configure env self
    Router.set_self_node self
    if not begins_receiving then (do Send.cleanup; pure false) else (do
      modify_link
          (λ l. record l { network_divisor = divisor; join_step = join_finished; joined = true })
      emit (joined_network self)
      pure true)

  -- The last master hands over its role; any other node takes leave of a master.
  unfoldable pub announce_exit : M (Unit {0})
  announce_exit = do
    w ← get
    s ← not_null w.router.self
    self ← deref s
    n ← if self.master then Router.count masters null_host else pure 0
    if self.master && (n == 1) then reincarnate_someone env else (do
      m ← Router.select env other_masters null_host
      r ← not_null m
      send_exit_notification env r)

  unfoldable pub exit_network : M (Unit {0})
  exit_network = do
    w ← get
    if not (step_eq w.link.join_step join_finished) then Send.leave else (do
      announce_exit
      w' ← get
      if ltb 0 (length w'.link.awaiting_negotiation)
          then modify_link (λ l. record l { preparing_for_shutdown = true })
          else Send.leave)

  unfoldable pub keep_nat_alive : M (Unit {0})
  keep_nat_alive = do
    list ← Router.find others null_host
    for_each list (λ r. Send.send_keepalive env r false)
