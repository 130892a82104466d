-- ===== src/Link/Send/Quiet.antt =====
-- LinkLayer.cpp: what the sending half may do to the world.
use mathlib.Core.List.{append-nil, append_assoc}
use mathlib.Core.Option.{some-injective}
use sparkle.Prelude.{
  ℕ, ◌≡◌, refl, sym, ap, ◌∙◌, subst, true, List, [], ◌∷◌, ◌++◌, some, All, All-append, ◌==◌, inl,
  inr, Bool-cases, ==_iff,
}
use sparkle.Prelude.Bytes.{Bytes}
use sparkle.Wire.{frame, key_exchange_t, public_key_exchange, keepalive_packet, encrypted_packet}
use sparkle.World.{
  Ref, Router, HostAddress, SparkleNode, LinkLayer, World, Environment, Event, datagram, write,
}
use sparkle.World.Refs.{Live, Distinct}

-- The datagrams that sendEncryptedPacket may send: the request for a key, a keepalive without contents,
-- and what the session cipher has encrypted.
pub data IsQuiet (env : Environment) : Event → Type 0 where
  key_request :
      (cookie : ℕ) (host : HostAddress) (port : ℕ)
      → IsQuiet env (
          datagram
            (frame public_key_exchange (
              key_exchange_t env.memory (record { need_others_key = true; cookie = cookie })
              ++ env.host_key))
            host
            port)
  empty_keepalive :
      (host : HostAddress) (port : ℕ) → IsQuiet env (datagram (frame keepalive_packet []) host port)
  encrypted :
      (key xs : Bytes) (host : HostAddress) (port : ℕ)
      → IsQuiet env (datagram (frame encrypted_packet (env.cipher.encrypt key xs)) host port)

-- The router's nodes exist, each once, and so does the node itself once the network is joined.
pub record IsSound (w : World) : Type 0 where
  pub live : Live w w.router.nodes
  pub distinct : Distinct w.router.nodes
  pub self :
      w.link.joined ≡ true
      → (s : Ref) × (w.router.self ≡ some s) × ((n : SparkleNode) × (w.heap s ≡ some n))

-- What stays as it was at a node.
pub record Same (n n' : SparkleNode) : Type 0 where
  pub master : n'.master ≡ n.master
  pub keys_negotiated : n'.keys_negotiated ≡ n.keys_negotiated

-- Every node is still there, the router is untouched, only quiet datagrams have been sent, and the data
-- that waits for routes waits on.
pub record Step (env : Environment) (w w' : World) : Type 0 where
  pub sent : List Event
  pub events : w'.events ≡ w.events ++ sent
  pub all_quiet : All (IsQuiet env) sent
  pub nodes :
      (r : Ref) (n : SparkleNode)
      → w.heap r ≡ some n
      → (n' : SparkleNode) × (w'.heap r ≡ some n') × Same n n'
  pub router : w'.router ≡ w.router
  pub joined : w'.link.joined ≡ w.link.joined
  pub queued_data : w'.link.queued_data ≡ w.link.queued_data

abbrev same_refl : (n : SparkleNode) → Same n n
same_refl n = record { master = refl; keys_negotiated = refl }

pub Step-refl : {env : Environment} (w : World) → Step env w w
Step-refl w = record {
  sent = [];
  events = sym (append-nil w.events);
  all_quiet = tt;
  nodes = λ r n e. (n, e, same_refl n);
  router = refl;
  joined = refl;
  queued_data = refl;
}

pub Step-trans : {env : Environment} {u v w : World} → Step env u v → Step env v w → Step env u w
Step-trans {env} {u} {v} {w} a b = record {
  sent = a.sent ++ b.sent;
  events = b.events ∙ ap (λ es. es ++ b.sent) a.events ∙ append_assoc u.events a.sent b.sent;
  all_quiet = All-append (IsQuiet env) a.sent b.sent a.all_quiet b.all_quiet;
  nodes = λ r n e.
      let (n', e', s) = a.nodes r n e in
      let (n'', e'', s') = b.nodes r n' e' in
      (
        n'',
        e'',
        record {
          master = s'.master ∙ s.master;
          keys_negotiated = s'.keys_negotiated ∙ s.keys_negotiated;
        },
      );
  router = b.router ∙ a.router;
  joined = b.joined ∙ a.joined;
  queued_data = b.queued_data ∙ a.queued_data;
}

Live-Step : {env : Environment} (u v : World) (rs : List Ref) → Step env u v → Live u rs → Live v rs
Live-Step u v [] s l = tt
Live-Step u v (r ∷ rs) s ((n, e), l) =
    let (n', e', same) = s.nodes r n e in ((n', e'), Live-Step u v rs s l)

pub IsSound-Step : {env : Environment} {u v : World} → Step env u v → IsSound u → IsSound v
IsSound-Step {env} {u} {v} s i = record {
  live = rw s.router (Live-Step u v u.router.nodes s i.live);
  distinct = rw s.router i.distinct;
  self = λ j.
      let (r, e, (n, h)) = i.self (sym s.joined ∙ j) in
      let (n', h', same) = s.nodes r n h in (r, ap (λ (d : Router). d.self) s.router ∙ e, (n', h'));
}

-- A change of the link layer's fields other than `joined` and the waiting data.
pub Step-link :
    {env : Environment} (w : World) (l : LinkLayer)
    → l.joined ≡ w.link.joined
    → l.queued_data ≡ w.link.queued_data
    → Step env w (record w { link = l })
Step-link w l e q = record {
  sent = [];
  events = sym (append-nil w.events);
  all_quiet = tt;
  nodes = λ r n h. (n, h, same_refl n);
  router = refl;
  joined = e;
  queued_data = q;
}

-- One quiet datagram.
pub Step-send :
    {env : Environment} (w : World) (e : Event)
    → IsQuiet env e
    → Step env w (record w { events = w.events ++ e ∷ [] })
Step-send w e q = record {
  sent = e ∷ [];
  events = refl;
  all_quiet = (q, tt);
  nodes = λ r n h. (n, h, same_refl n);
  router = refl;
  joined = refl;
  queued_data = refl;
}

pub Step-random :
    {env : Environment} (w : World) (k : ℕ) → Step env w (record w { random_calls = k })
Step-random w k = record {
  sent = [];
  events = sym (append-nil w.events);
  all_quiet = tt;
  nodes = λ r n h. (n, h, same_refl n);
  router = refl;
  joined = refl;
  queued_data = refl;
}

-- A change of one node that leaves its role and its keys alone.
pub Step-node :
    {env : Environment} (w : World) (r : Ref) (n n' : SparkleNode)
    → w.heap r ≡ some n
    → Same n n'
    → Step env w (record w { heap = write w.heap r (some n') })
Step-node w r n n' h s = record {
  sent = [];
  events = sym (append-nil w.events);
  all_quiet = tt;
  nodes = λ q m e. at q m e;
  router = refl;
  joined = refl;
  queued_data = refl;
}
  where
    at :
        (q : Ref) (m : SparkleNode)
        → w.heap q ≡ some m
        → (m' : SparkleNode) × (write w.heap r (some n') q ≡ some m') × Same m m'
    at q m e = elim (Bool-cases (q == r)) [
      | inl same ↦ (
        n',
        rw same refl,
        subst (λ k. Same k n')
            (some-injective n m (sym h ∙ sym (ap w.heap ((==_iff q r).0 same)) ∙ e)) s,
      )
      | inr other ↦ (m, rw other e, same_refl m)
    ]
