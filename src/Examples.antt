-- ===== src/Examples.antt =====
-- A small network that the examples share: a master with a slave whose keys it has, a slave whose keys it
-- has not, and a second master.
mod Links
mod Deliveries
mod Routers
mod Frames
mod Hosts
mod Joining
mod Ciphers
mod Messages
mod Carried
mod Options
mod RsaKeys
mod Rosters
use sparkle.Prelude.{
  ℕ, ◌%◌, Bool, true, false, List, [], ◌∷◌, Option, none, some, ◌==◌, if◌then◌else◌, arith,
  replicate, refl, ◌≡◌,
}
use sparkle.Prelude.Bytes.{Bytes}
use sparkle.Address.{SparkleAddress, null_address}
use sparkle.Cipher.{SessionCipher}
use sparkle.Blowfish.Key.Session.{session_cipher}
use sparkle.World.{
  Ref, HostAddress, null_host, ipv4, SparkleNode, Router, LinkLayer, join_finished,
  join_version_request, JoinStep, World, Environment,
}
use sparkle.World.Refs.{Live, Distinct}
use sparkle.Router.Invariant.{IsRouter}
use sparkle.Link.Send.Quiet.{IsSound}

abbrev pub zeroes : ℕ → ℕ
zeroes i = 0

abbrev pub session_key_of : Ref → Bytes
session_key_of r = 1 ∷ (r % 256) ∷ []

abbrev pub hash : Bytes
hash = replicate 20 77

abbrev pub environment : Environment
environment = record {
  cipher = session_cipher zeroes zeroes (λ i. omega arith);
  read_key = λ xs. some xs;
  empty_key = [];
  host_key = 9 ∷ 9 ∷ [];
  sha1 = λ xs. hash;
  random = λ i. i;
  session_key = session_key_of;
  memory = zeroes;
  transport_port = 1801;
  begins_receiving = true;
}

abbrev pub mac_of : Ref → SparkleAddress
mac_of r = record { bytes = 2 ∷ r ∷ 0 ∷ 0 ∷ 0 ∷ r ∷ [] }

-- A node by its number, its role and its keys.
abbrev pub node : Ref → Bool → Bool → List Bytes → SparkleNode
node r master negotiated queue = record {
  real_ip = ipv4 r;
  phantom_ip = null_host;
  real_port = 1801;
  phantom_port = 0;
  sparkle_mac = mac_of r;
  master = master;
  behind_nat = false;
  auth_key = [];
  auth_key_present = false;
  his_session_key = 1 ∷ 7 ∷ [];
  my_session_key = 1 ∷ 7 ∷ [];
  keys_negotiated = negotiated;
  queue = queue;
  negotiation_timer = false;
}

abbrev pub self : SparkleNode
self = node 1 true false []

abbrev pub keyed : SparkleNode
keyed = node 2 false true []

abbrev pub unkeyed : SparkleNode
unkeyed = node 3 false false ((5 ∷ []) ∷ (6 ∷ []) ∷ [])

abbrev pub master : SparkleNode
master = node 4 true true []

abbrev pub heap : Ref → Option SparkleNode
heap r =
    if r == 1
    then some self
    else if r == 2
    then some keyed
    else if r == 3
    then some unkeyed
    else if r == 4
    then some master
    else none

abbrev pub link_layer : JoinStep → List Ref → List (SparkleAddress × List Bytes) → LinkLayer
link_layer step spool waiting = record {
  node_spool = spool;
  awaiting_negotiation = [];
  queued_data = waiting;
  cookies = (11, 3) ∷ [];
  app_layers = 6 ∷ [];
  network_divisor = 10;
  joined = true;
  join_step = step;
  ping_timer = false;
  join_timer = false;
  nat_keepalive_timer = false;
  join_master = none;
  join_pings_emitted = 0;
  join_pings_arrived = 0;
  join_ping = record { addr = 0; port = 0 };
  force_behind_nat = false;
  preparing_for_shutdown = false;
}

abbrev pub world_of : Router → LinkLayer → World
world_of router link = record {
  heap = heap;
  next_ref = 5;
  router = router;
  link = link;
  random_calls = 0;
  events = [];
}

abbrev pub routes : Router
routes = record { self = some 1; nodes = 1 ∷ 2 ∷ 3 ∷ 4 ∷ [] }

-- In the network, with data that waits for a route to the first slave.
abbrev pub joined : World
joined =
    world_of routes
      (link_layer join_finished (2 ∷ 3 ∷ 4 ∷ []) ((mac_of 2, (1 ∷ []) ∷ (2 ∷ []) ∷ []) ∷ []))

-- On the way into it.
abbrev pub joining : World
joining =
    world_of (record { self = none; nodes = [] }) (link_layer join_version_request (4 ∷ 3 ∷ []) [])

pub joined-Live : Live joined (1 ∷ 2 ∷ 3 ∷ 4 ∷ [])
joined-Live = ((self, refl), ((keyed, refl), ((unkeyed, refl), ((master, refl), tt))))

pub joined-Distinct : Distinct (1 ∷ 2 ∷ 3 ∷ 4 ∷ [])
joined-Distinct = (refl, (refl, (refl, (refl, tt))))

pub joined-IsRouter : IsRouter joined.router
joined-IsRouter = record { distinct = joined-Distinct; has_self = refl }

pub joined-IsSound : IsSound joined
joined-IsSound = record {
  live = joined-Live;
  distinct = joined-Distinct;
  self = λ j. (1, refl, (self, refl));
}
