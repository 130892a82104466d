-- ===== src/Link/Send.antt =====
-- LinkLayer.cpp: the node spool, sendPacket and sendEncryptedPacket, and the packets that they need.
pub mod Quiet
pub mod Steps
pub mod Wrap
pub mod Direct
pub mod Cleanup
use sparkle.Prelude.{
  ℕ, zero, suc, ◌+◌, Bool, true, false, not, ◌&&◌, ◌||◌, List, [], ◌∷◌, ◌++◌, Option, none, some,
  length, ◌==◌, if◌then◌else◌,
}
use sparkle.Prelude.Bytes.{Bytes, be16, be32, of_bool}
use sparkle.Address.{SparkleAddress}
use sparkle.Cipher.{SessionCipher}
use sparkle.Wire.{
  PacketType, public_key_exchange, session_key_exchange, encrypted_packet, local_rewrite_packet,
  keepalive_packet, backlink_redirect, frame, KeyExchange, key_exchange_t, Endpoint, endpoint_t,
}
use sparkle.World.{
  Ref, HostAddress, null_host, ipv4, host_eq, to_ipv4, SparkleNode, LinkLayer, World, Environment,
  M, done, out_of_fuel, pure, ◌>>=◌, ◌>>◌, skip, get, emit, modify_link, when, deref, not_null,
  delete, for_each, contains, remove_one, datagram, left_network,
}
use sparkle.Router
use sparkle.Router.{masters, is_self}
use sparkle.Node
use sparkle.Node.{phantom_ip, phantom_port}

-- QHash<quint32, SparkleNode*>
unfoldable pub insert_cookie : ℕ → Ref → List (ℕ × Ref) → List (ℕ × Ref)
insert_cookie k r [] = (k, r) ∷ []
insert_cookie k r ((j, q) ∷ cs) = if j == k then (k, r) ∷ cs else (j, q) ∷ insert_cookie k r cs

unfoldable pub lookup_cookie : ℕ → List (ℕ × Ref) → Option Ref
lookup_cookie k [] = none
lookup_cookie k ((j, q) ∷ cs) = if j == k then some q else lookup_cookie k cs

unfoldable pub remove_cookie : ℕ → List (ℕ × Ref) → List (ℕ × Ref)
remove_cookie k [] = []
remove_cookie k ((j, q) ∷ cs) = if j == k then remove_cookie k cs else (j, q) ∷ remove_cookie k cs

-- Whether wrapNode takes a node of the spool for this endpoint.
unfoldable pub stands_for : HostAddress → ℕ → SparkleNode → Bool
unfolding phantom_ip phantom_port
stands_for host port n =
    (host_eq (phantom_ip n) host && (phantom_port n == port))
    || (host_eq n.real_ip host && (n.real_port == port))

-- The nodes of the spool one by one, up to the first that stands for the endpoint.
unfoldable pub spool_find : HostAddress → ℕ → List Ref → M (Option Ref)
spool_find host port [] = pure none
spool_find host port (r ∷ rs) =
    let rest = spool_find host port rs in
    do n ← deref r; if stands_for host port n then pure (some r) else rest

-- isJoined() && !self->isMaster() && !node->isMaster() && !skipTunnel; the null `self` is followed
-- only if the network is joined.
unfoldable pub wants_tunnel : SparkleNode → Bool → M Bool
wants_tunnel n skip_tunnel = do
  w ← get
  if not w.link.joined then pure false else (do
    s ← not_null w.router.self
    self ← deref s
    pure (not self.master && (not n.master && not skip_tunnel)))

unfoldable pub cleanup : M (Unit {0})
cleanup = do
  modify_link (λ l. record l { joined = false })
  w ← get
  for_each w.link.node_spool delete
  Router.clear
  modify_link (λ l. record l {
    node_spool = [];
    awaiting_negotiation = [];
    cookies = [];
    join_timer = false;
    ping_timer = false;
    nat_keepalive_timer = false;
  })

-- cleanup(); emit leavedNetwork()
unfoldable pub leave : M (Unit {0})
leave = cleanup >> emit left_network

-- What follows a negotiation that has ended: the shutdown that waited for it.
unfoldable pub finish_shutdown : M (Unit {0})
finish_shutdown = do
  w ← get
  when ((length w.link.awaiting_negotiation == 0) && w.link.preparing_for_shutdown) leave

module _ (env : Environment) where
  open env use {cipher, memory, host_key}

  unfoldable pub wrap_node : HostAddress → ℕ → M Ref
  wrap_node host port = do
    w ← get
    found ← spool_find host port w.link.node_spool
    elim found [
      | some r ↦ pure r
      | none ↦ do
        r ← Node.new_node env host port
        modify_link (λ l. record l { node_spool = l.node_spool ++ r ∷ [] })
        pure r
    ]

  unfoldable pub send_packet : PacketType → Bytes → Ref → M (Unit {0})
  send_packet t xs r = do
    w ← get
    if is_self w.router.self r
        then skip
        else (do n ← deref r; emit (datagram (frame t xs) (phantom_ip n) (phantom_port n)))

  -- encryptAndSend. It is only called for a node whose keys are negotiated.
  unfoldable pub encrypt_and_send : Bytes → Ref → M (Unit {0})
  encrypt_and_send xs r = do
    n ← deref r
    send_packet encrypted_packet (cipher.encrypt n.my_session_key xs) r

  unfoldable pub send_plain_keepalive : Ref → M (Unit {0})
  send_plain_keepalive r = send_packet keepalive_packet [] r

  -- `key` is the host's own key in every call.
  unfoldable pub send_public_key_exchange : Ref → Bool → ℕ → M (Unit {0})
  send_public_key_exchange r true cookie = do
    c ← Router.random env
    modify_link (λ l. record l { cookies = insert_cookie c r l.cookies })
    send_packet public_key_exchange
        (key_exchange_t memory (record { need_others_key = true; cookie = c }) ++ host_key) r
  send_public_key_exchange r false cookie =
      send_packet public_key_exchange
        (key_exchange_t memory (record { need_others_key = false; cookie = cookie }) ++ host_key) r

  -- The cookie of this structure is not set.
  unfoldable pub send_session_key_exchange : Ref → Bool → M (Unit {0})
  send_session_key_exchange r need = do
    n ← deref r
    send_packet session_key_exchange
        (of_bool need
          ∷ memory 1
          ∷ memory 2
          ∷ memory 3
          ∷ memory 4
          ∷ memory 5
          ∷ memory 6
          ∷ memory 7
          ∷ n.my_session_key)
        r

  -- sendBacklinkRedirect, given the sendEncryptedPacket that it calls.
  unfoldable pub redirect_via :
      (PacketType → Bytes → Ref → Bool → M (Unit {0})) → Ref → M (Unit {0})
  redirect_via send r = do
    n ← deref r
    target ← Router.select env masters null_host
    elim target [
      | none ↦ skip
      | some m ↦
          send backlink_redirect
            (endpoint_t memory (record { addr = to_ipv4 n.real_ip; port = n.real_port })) m false
    ]

  -- How a negotiation begins, for a node whose fields were read as `n`: over a master, if this node
  -- and the other are both slaves.
  unfoldable pub exchange_keys :
      (PacketType → Bytes → Ref → Bool → M (Unit {0})) → SparkleNode → Ref → Bool → M (Unit {0})
  exchange_keys send n r skip_tunnel = do
    tunnel ← wants_tunnel n skip_tunnel
    if tunnel
        then (do send_plain_keepalive r; redirect_via send r)
        else send_public_key_exchange r true 0

  -- A negotiation is begun unless one is under way.
  unfoldable pub negotiate :
      (PacketType → Bytes → Ref → Bool → M (Unit {0})) → SparkleNode → Ref → Bool → M (Unit {0})
  negotiate send n r skip_tunnel = do
    w ← get
    if contains w.link.awaiting_negotiation r then skip else (do
      Node.negotiation_start r
      modify_link (λ l. record l { awaiting_negotiation = l.awaiting_negotiation ++ r ∷ [] })
      exchange_keys send n r skip_tunnel)

  -- sendEncryptedPacket: for want of keys the packet is queued, and a negotiation begun. The call
  -- chain through sendBacklinkRedirect comes back here, with a master as the target.
  unfoldable pub send_encrypted_fuel : ℕ → PacketType → Bytes → Ref → Bool → M (Unit {0})
  send_encrypted_fuel zero t xs r skip_tunnel = λ _. out_of_fuel
  send_encrypted_fuel (suc fuel) t xs r skip_tunnel =
      let again = send_encrypted_fuel fuel in
      do
        n ← deref r
        if n.keys_negotiated
            then encrypt_and_send (frame t xs) r
            else (do Node.push_queue r (frame t xs); negotiate again n r skip_tunnel)

  unfoldable pub send_encrypted_packet : PacketType → Bytes → Ref → Bool → M (Unit {0})
  send_encrypted_packet = send_encrypted_fuel 2

  unfoldable pub send_backlink_redirect : Ref → M (Unit {0})
  send_backlink_redirect = redirect_via send_encrypted_packet

  -- sendEncryptedPacket with its default for `skipTunnel`.
  unfoldable pub send_encrypted : PacketType → Bytes → Ref → M (Unit {0})
  send_encrypted t xs r = send_encrypted_packet t xs r false

  unfoldable pub send_keepalive : Ref → Bool → M (Unit {0})
  send_keepalive r skip_tunnel = send_encrypted_packet keepalive_packet [] r skip_tunnel

  unfoldable pub send_local_rewrite_packet : Ref → M (Unit {0})
  send_local_rewrite_packet r = send_encrypted local_rewrite_packet [] r
