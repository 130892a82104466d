-- ===== src/Node.antt =====
-- SparkleNode.cpp: one node of the network, with its two addresses, its keys and its queue.
pub mod OwnAddress
use sparkle.Prelude.{
  ℕ, suc, ◌+◌, ◌*◌, ◌/◌, Bool, true, false, not, ◌&&◌, List, [], ◌∷◌, ◌++◌, Option, none, some,
  take, drop, set, ◌==◌, if◌then◌else◌,
}
use sparkle.Prelude.Bytes.{Bytes, byte_at, bytes_eq}
use sparkle.Address.{SparkleAddress, null_address, of_bytes}
use sparkle.World.{
  Ref, HostAddress, null_host, host_eq, SparkleNode, World, Environment, M, done, pure, ◌>>=◌, ◌>>◌,
  skip, get, emit, deref, modify_node, write,
}
use sparkle.Router.{notify_node_updated}

-- phantomIP(), phantomPort()
unfoldable pub phantom_ip : SparkleNode → HostAddress
phantom_ip n = if host_eq n.phantom_ip null_host then n.real_ip else n.phantom_ip

unfoldable pub phantom_port : SparkleNode → ℕ
phantom_port n = if n.phantom_port == 0 then n.real_port else n.phantom_port

-- operator==: the same real endpoint.
abbrev pub same_endpoint : SparkleNode → SparkleNode → Bool
same_endpoint a b = host_eq b.real_ip a.real_ip && (b.real_port == a.real_port)

unfoldable pub set_sparkle_mac : Ref → SparkleAddress → M (Unit {0})
set_sparkle_mac r mac = modify_node r (λ n. record n { sparkle_mac = mac }) >> notify_node_updated r

unfoldable pub set_real_ip : Ref → HostAddress → M (Unit {0})
set_real_ip r ip = modify_node r (λ n. record n { real_ip = ip }) >> notify_node_updated r

unfoldable pub set_real_port : Ref → ℕ → M (Unit {0})
set_real_port r port = modify_node r (λ n. record n { real_port = port }) >> notify_node_updated r

unfoldable pub set_phantom_ip : Ref → HostAddress → M (Unit {0})
set_phantom_ip r ip = modify_node r (λ n. record n { phantom_ip = ip })

unfoldable pub set_phantom_port : Ref → ℕ → M (Unit {0})
set_phantom_port r port = modify_node r (λ n. record n { phantom_port = port })

unfoldable pub set_behind_nat : Ref → Bool → M (Unit {0})
set_behind_nat r b = modify_node r (λ n. record n { behind_nat = b }) >> notify_node_updated r

unfoldable pub set_his_session_key : Ref → Bytes → M (Unit {0})
set_his_session_key r key =
    modify_node r (λ n. record n { his_session_key = key; keys_negotiated = true })
    >> notify_node_updated r

unfoldable pub set_master : Ref → Bool → M (Unit {0})
set_master r b = modify_node r (λ n. record n { master = b }) >> notify_node_updated r

unfoldable pub push_queue : Ref → Bytes → M (Unit {0})
push_queue r xs = modify_node r (λ n. record n { queue = n.queue ++ xs ∷ [] })

-- takeFirst of popQueue, whose value the caller has read.
unfoldable pub pop_queue : Ref → M (Unit {0})
pop_queue r = modify_node r (λ n. record n { queue = drop 1 n.queue })

unfoldable pub flush_queue : Ref → M (Unit {0})
flush_queue r = modify_node r (λ n. record n { queue = [] })

unfoldable pub negotiation_start : Ref → M (Unit {0})
negotiation_start r = modify_node r (λ n. record n { negotiation_timer = true })

unfoldable pub negotiation_finished : Ref → M (Unit {0})
negotiation_finished r = modify_node r (λ n. record n { negotiation_timer = false })

-- The first byte made local and unicast: (b & ~0x03) | 0x02.
unfoldable pub local_unicast : Bytes → Bytes
local_unicast [] = []
local_unicast (b ∷ bs) = (b / 4 * 4 + 2) ∷ bs

unfoldable pub store_auth_key : Ref → Bytes → M Bool
store_auth_key r key = do
  modify_node r (λ n. record n { auth_key = key; auth_key_present = true })
  notify_node_updated r
  pure true

module _ (env : Environment) where
  -- The fields that the constructor sets.
  abbrev pub unknown_node : HostAddress → ℕ → Ref → SparkleNode
  unknown_node ip port r = record {
    real_ip = ip;
    phantom_ip = null_host;
    real_port = port;
    phantom_port = 0;
    sparkle_mac = null_address;
    master = false;
    behind_nat = false;
    auth_key = env.empty_key;
    auth_key_present = false;
    his_session_key = [];
    my_session_key = env.session_key r;
    keys_negotiated = false;
    queue = [];
    negotiation_timer = false;
  }

  -- SparkleNode(router, realIP, realPort)
  unfoldable pub new_node : HostAddress → ℕ → M Ref
  new_node ip port w = done w.next_ref (record w {
    heap = write w.heap w.next_ref (some (unknown_node ip port w.next_ref));
    next_ref = suc w.next_ref;
  })

  -- setAuthKey(QByteArray): whether the key was accepted.
  unfoldable pub set_auth_key : Ref → Bytes → M Bool
  set_auth_key r key = do
    n ← deref r
    if n.auth_key_present && bytes_eq n.auth_key key
        then pure true
        else elim (env.read_key key) [ none ↦ pure false | some key' ↦ store_auth_key r key' ]

  unfoldable pub clone_keys : Ref → Ref → M (Unit {0})
  unfolding set_auth_key set_his_session_key
  clone_keys r source = do
    n ← deref source
    _ ← set_auth_key r n.auth_key
    modify_node r (λ m. record m { my_session_key = n.my_session_key })
    if n.keys_negotiated then set_his_session_key r n.his_session_key else skip

  unfoldable pub address_from_key : Bytes → SparkleAddress
  unfolding local_unicast of_bytes
  address_from_key key = of_bytes [] (local_unicast (take 6 (env.sha1 key)))

  unfoldable pub configure : Ref → M (Unit {0})
  unfolding address_from_key
  configure r = modify_node r (λ n. record n { sparkle_mac = address_from_key n.auth_key })
