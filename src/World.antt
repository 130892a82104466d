-- ===== src/World.antt =====
-- The objects of libsparkle at run time: nodes on a heap, the router's and the link layer's fields,
-- and what the program has sent or signalled, with commands that read and change them.
pub mod Refs
use sparkle.Prelude.{
  ℕ, suc, ◌+◌, ◌%◌, Bool, true, false, List, [], ◌∷◌, ◌++◌, Option, none, some, ◌==◌, if◌then◌else◌,
}
use sparkle.Prelude.Bytes.{Bytes}
use sparkle.Address.{SparkleAddress}
use sparkle.Cipher.{SessionCipher}
use sparkle.Wire.{PacketType, Endpoint}

-- A `SparkleNode*`; the null pointer is `none` where a pointer may be null.
abbrev pub Ref : Type 0
Ref = ℕ

-- QHostAddress: null, or an IPv4 address.
pub data HostAddress : Type 0 where
  null_host : HostAddress
  ipv4 : ℕ → HostAddress

-- operator==
abbrev pub host_eq : HostAddress → HostAddress → Bool
host_eq null_host null_host = true
host_eq null_host (ipv4 b) = false
host_eq (ipv4 a) null_host = false
host_eq (ipv4 a) (ipv4 b) = a == b

-- toIPv4Address
abbrev pub to_ipv4 : HostAddress → ℕ
to_ipv4 null_host = 0
to_ipv4 (ipv4 a) = a

-- SparkleNodePrivate. An RSAKeyPair stands for itself by its `publicKey()`, and a BlowfishKey by
-- its `bytes()`; `negotiation_timer` says whether the timer runs.
pub record SparkleNode : Type 0 where
  pub real_ip : HostAddress
  pub phantom_ip : HostAddress
  pub real_port : ℕ
  pub phantom_port : ℕ
  pub sparkle_mac : SparkleAddress
  pub master : Bool
  pub behind_nat : Bool
  pub auth_key : Bytes
  pub auth_key_present : Bool
  pub his_session_key : Bytes
  pub my_session_key : Bytes
  pub keys_negotiated : Bool
  pub queue : List Bytes
  pub negotiation_timer : Bool

-- RouterPrivate
pub record Router : Type 0 where
  pub self : Option Ref
  pub nodes : List Ref

pub data JoinStep : Type 0 where
  join_version_request join_master_node_request join_awaiting_pings : JoinStep
  join_registration join_finished : JoinStep

-- The fields of LinkLayer. A timer is whether it runs.
pub record LinkLayer : Type 0 where
  pub node_spool : List Ref
  pub awaiting_negotiation : List Ref
  pub queued_data : List (SparkleAddress × List Bytes)
  pub cookies : List (ℕ × Ref)
  pub app_layers : List ℕ
  pub network_divisor : ℕ
  pub joined : Bool
  pub join_step : JoinStep
  pub ping_timer : Bool
  pub join_timer : Bool
  pub nat_keepalive_timer : Bool
  pub join_master : Option Ref
  pub join_pings_emitted : ℕ
  pub join_pings_arrived : ℕ
  pub join_ping : Endpoint
  pub force_behind_nat : Bool
  pub preparing_for_shutdown : Bool

-- What leaves the modelled code: datagrams, signals, data for an application layer, and what the
-- Ethernet layer hands to the TAP interface.
pub data Event : Type 0 where
  datagram : Bytes → HostAddress → ℕ → Event
  node_added node_removed node_updated joined_network : Ref → Event
  peer_added peer_removed route_missing : SparkleAddress → Event
  join_failed left_network : Event
  deliver : ℕ → Bytes → SparkleAddress → Event
  setup_interface : SparkleAddress → HostAddress → Event
  send_tap_packet : Bytes → Event

pub record World : Type 0 where
  pub heap : Ref → Option SparkleNode
  pub next_ref : Ref
  pub router : Router
  pub link : LinkLayer
  pub random_calls : ℕ
  pub events : List Event

-- What the code takes from elsewhere: the session cipher, RSAKeyPair (`read_key` is the public key
-- that `setPublicKey` leaves, if it accepts the bytes), SHA-1, `qrand`, the keys of SparkleRandom,
-- what uninitialised bytes hold, and the UDP socket.
pub record Environment : Type 0 where
  pub cipher : SessionCipher
  pub read_key : Bytes → Option Bytes
  pub empty_key : Bytes
  pub host_key : Bytes
  pub sha1 : Bytes → Bytes
  pub random : ℕ → ℕ
  pub session_key : Ref → Bytes
  pub memory : ℕ → ℕ
  pub transport_port : ℕ
  pub begins_receiving : Bool

-- `fault` is undefined behaviour: a null or dangling pointer was followed. `fatal` is Log::fatal,
-- which exits. `out_of_fuel` is a call chain that was cut off.
pub data Run (A : Type 0) : Type 0 where
  done : A → World → Run A
  fault : Run A
  fatal : Run A
  out_of_fuel : Run A

abbrev pub M : Type 0 → Type 0
M A = World → Run A

abbrev pub pure : {A : Type 0} → A → M A
pure = done

module _ {A B : Type 0} where
  abbrev pub and_then : Run A → (A → M B) → Run B
  and_then (done a w) k = k a w
  and_then fault k = fault
  and_then fatal k = fatal
  and_then out_of_fuel k = out_of_fuel

  infixl 5 ◌>>=◌ ◌>>◌
  abbrev pub ◌>>=◌ : M A → (A → M B) → M B
  m >>= k = λ w. and_then (m w) k

  abbrev pub ◌>>◌ : M A → M B → M B
  m >> k = m >>= λ _. k

abbrev pub skip : M (Unit {0})
skip = done tt

abbrev pub get : M World
get w = done w w

abbrev pub emit : Event → M (Unit {0})
emit e w = done tt (record w { events = w.events ++ e ∷ [] })

abbrev pub modify_link : (LinkLayer → LinkLayer) → M (Unit {0})
modify_link f w = done tt (record w { link = f w.link })

abbrev pub modify_router : (Router → Router) → M (Unit {0})
modify_router f w = done tt (record w { router = f w.router })

abbrev pub when : Bool → M (Unit {0}) → M (Unit {0})
when b m = if b then m else skip

-- What is done with the object at an address; there may be none.
abbrev pub at_node : {A : Type 0} → Option SparkleNode → (SparkleNode → Run A) → Run A
at_node none k = fault
at_node (some n) k = k n

-- `*r`
abbrev pub deref : Ref → M SparkleNode
deref r w = at_node (w.heap r) (λ n. done n w)

-- A pointer that is used without a test.
abbrev pub not_null : Option Ref → M Ref
not_null none = λ _. fault
not_null (some r) = done r

abbrev pub write : (Ref → Option SparkleNode) → Ref → Option SparkleNode → Ref → Option SparkleNode
write h r c q = if q == r then c else h q

-- A change of one node's fields.
abbrev pub modify_node : Ref → (SparkleNode → SparkleNode) → M (Unit {0})
modify_node r f w =
    at_node (w.heap r) (λ n. done tt (record w { heap = write w.heap r (some (f n)) }))

-- `delete r`
abbrev pub delete : Ref → M (Unit {0})
delete r w = at_node (w.heap r) (λ _. done tt (record w { heap = write w.heap r none }))

-- foreach, over a copy of the list
unfoldable pub for_each : {A : Type 0} → List A → (A → M (Unit {0})) → M (Unit {0})
for_each [] body = skip
for_each (x ∷ xs) body = let rest = for_each xs body in body x >> rest

-- QList<SparkleNode*>
abbrev pub contains : List Ref → Ref → Bool
contains [] r = false
contains (x ∷ xs) r = if x == r then true else contains xs r

abbrev pub remove_one : List Ref → Ref → List Ref
remove_one [] r = []
remove_one (x ∷ xs) r = if x == r then xs else x ∷ remove_one xs r
