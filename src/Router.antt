-- ===== src/Router.antt =====
-- Router.cpp: the nodes of the network that this node knows, and itself among them.
pub mod Invariant
pub mod Selection
pub mod Lookup
use sparkle.Prelude.{
  ℕ, zero, suc, ◌+◌, ◌%◌, Bool, true, false, not, ◌&&◌, ◌||◌, List, [], ◌∷◌, ◌++◌, Option, none,
  some, length, get_or, ◌==◌, if◌then◌else◌,
}
use sparkle.Address.{SparkleAddress, address_eq}
use sparkle.World.{
  Ref, HostAddress, null_host, host_eq, SparkleNode, Router, World, Environment, M, done, fatal,
  pure, ◌>>=◌, ◌>>◌, skip, get, emit, modify_router, when, deref, not_null, for_each, contains,
  remove_one, node_added, node_removed, node_updated, peer_added, peer_removed,
}

-- NodeQueryFlags
pub record Query : Type 0 where
  pub white : Bool
  pub behind_nat : Bool
  pub master : Bool
  pub slave : Bool
  pub exclude_self : Bool

abbrev pub no_query : Query
no_query = record {
  white = false;
  behind_nat = false;
  master = false;
  slave = false;
  exclude_self = false;
}

abbrev pub masters : Query
masters = record no_query { master = true }

abbrev pub others : Query
others = record no_query { exclude_self = true }

abbrev pub is_self : Option Ref → Ref → Bool
is_self none r = false
is_self (some s) r = r == s

pub get_self_node : M (Option Ref)
get_self_node w = done w.router.self w

unfoldable pub update_node : Ref → M (Unit {0})
update_node r = do
  w ← get
  when (not (contains w.router.nodes r))
      (modify_router (λ d. record d { nodes = d.nodes ++ r ∷ [] }))
  n ← deref r
  emit (node_added r)
  emit (peer_added n.sparkle_mac)

-- Q_ASSERT(d->self == NULL) is not compiled into a release.
unfoldable pub set_self_node : Ref → M (Unit {0})
unfolding update_node
set_self_node r = do n ← deref r; modify_router (λ d. record d { self = some r }); update_node r

-- The last node of the network has to be a master.
pub last_one : M (Unit {0})
last_one = do
  w ← get
  when (length w.router.nodes == 1)
      (do s ← not_null w.router.self; self ← deref s; if self.master then skip else λ _. fatal)

pub remove_node : Ref → M (Unit {0})
remove_node r = do
  w ← get
  if is_self w.router.self r
      then skip
      else if contains w.router.nodes r
      then (do
        modify_router (λ d. record d { nodes = remove_one d.nodes r })
        n ← deref r
        emit (node_removed r)
        emit (peer_removed n.sparkle_mac)
        last_one)
      else (deref r >> skip)

-- The first node of the list that passes a test.
unfoldable pub find_first : (SparkleNode → Bool) → List Ref → M (Option Ref)
find_first test [] = pure none
find_first test (r ∷ rs) =
    let rest = find_first test rs in do n ← deref r; if test n then pure (some r) else rest

unfoldable pub find_sparkle_node : SparkleAddress → M (Option Ref)
unfolding find_first
find_sparkle_node mac = do w ← get; find_first (λ n. address_eq n.sparkle_mac mac) w.router.nodes

abbrev pub is_some : {A : Type 0} → Option A → Bool
is_some none = false
is_some (some _) = true

unfoldable pub has_route_to : SparkleAddress → M Bool
unfolding find_sparkle_node
has_route_to mac = do r ← find_sparkle_node mac; pure (is_some r)

pub find_node : HostAddress → ℕ → M (Option Ref)
unfolding find_first
find_node real_ip real_port = do
  w ← get
  find_first (λ n. host_eq n.real_ip real_ip && (n.real_port == real_port)) w.router.nodes

-- Whether `find` takes a node off its list.
unfoldable pub excluded : Query → HostAddress → Option Ref → Ref → SparkleNode → Bool
excluded q exclude_ip self r n =
    (q.white && n.behind_nat)
    || ((q.behind_nat && not n.behind_nat)
        || ((q.master && not n.master)
            || ((q.slave && n.master)
                || ((q.exclude_self && is_self self r) || host_eq n.real_ip exclude_ip))))

unfoldable pub find_loop : (Ref → SparkleNode → Bool) → List Ref → List Ref → M (List Ref)
find_loop out [] list = pure list
find_loop out (r ∷ rs) list = do
  n ← deref r
  find_loop out rs (if out r n then remove_one list r else list)

unfoldable pub find : Query → HostAddress → M (List Ref)
unfolding find_loop excluded
find q exclude_ip = do
  w ← get
  find_loop (excluded q exclude_ip w.router.self) w.router.nodes w.router.nodes

unfoldable pub count : Query → HostAddress → M ℕ
unfolding find
count q exclude_ip = do list ← find q exclude_ip; pure (length list)

pub nodes : M (List Ref)
nodes w = done w.router.nodes w

unfoldable pub notify_node_updated : Ref → M (Unit {0})
notify_node_updated target = do
  w ← get
  for_each w.router.nodes (λ r. when (r == target) (emit (node_updated target)))

unfoldable pub clear : M (Unit {0})
clear = do
  w ← get
  for_each w.router.nodes (λ r. do
    modify_router (λ d. record d { nodes = remove_one d.nodes r })
    n ← deref r
    emit (peer_removed n.sparkle_mac)
    emit (node_removed r))
  modify_router (λ d. record d { self = none })

module _ (env : Environment) where
  -- qrand
  unfoldable pub random : M ℕ
  random w = done (env.random w.random_calls) (record w { random_calls = suc w.random_calls })

  unfoldable pub select : Query → HostAddress → M (Option Ref)
  unfolding find random
  select q exclude_ip = do
    list ← find q exclude_ip
    if length list == 0
        then pure none
        else (do i ← random; pure (some (get_or list (i % length list) 0)))
