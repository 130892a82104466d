-- ===== src/Link/Send/Wrap.antt =====
-- LinkLayer.cpp: wrapNode, and the node spool.
use sparkle.Prelude.{
  ℕ, suc, ◌≡◌, refl, ap, true, false, List, [], ◌∷◌, ◌++◌, Option, none, some, arith, ◌==◌, inl,
  inr, ==_refl, ==_iff, Bool-cases, ◌⊎◌,
}
use sparkle.World.{Ref, HostAddress, SparkleNode, World, Environment, write, contains, done}
use sparkle.World.Refs.{host_eq_refl, contains-snoc, Live, Returns}
use sparkle.Node.{new_node, unknown_node, phantom_ip, phantom_port}
use sparkle.Link.Send.{stands_for, spool_find, wrap_node}

-- A node that exists and stands for the endpoint.
abbrev pub Standing : HostAddress → ℕ → World → Ref → Type 0
Standing host port w r = (n : SparkleNode) × (w.heap r ≡ some n) × (stands_for host port n ≡ true)

module _ (host : HostAddress) (port : ℕ) where
  -- No node of the list stands for the endpoint.
  abbrev Missing : World → List Ref → Type 0
  Missing w [] = Unit {0}
  Missing w (r ∷ rs) =
      ((n : SparkleNode) × (w.heap r ≡ some n) × (stands_for host port n ≡ false)) × Missing w rs

  spool_find-cases :
      (w : World) (rs : List Ref)
      → Live w rs
      → ((spool_find host port rs w ≡ done none w) × Missing w rs)
        ⊎ ((r : Ref) × (spool_find host port rs w ≡ done (some r) w)
            × (contains rs r ≡ true)
            × Standing host port w r)
  unfolding spool_find
  spool_find-cases w [] l = inl (refl, tt)
  spool_find-cases w (r ∷ rs) ((n, e), l) = elim (Bool-cases (stands_for host port n)) [
    | inl here ↦ inr (r, rw (e, here) refl, rw (==_refl r) refl, (n, e, here))
    | inr other ↦ elim (spool_find-cases w rs l) [
      | inl (f, m) ↦ inl (rw (e, other) f, ((n, e, other), m))
      | inr (q, f, c, s) ↦ inr (q, rw (e, other) f, ground (arith, c), s)
    ]
  ]

  spool_find-snoc :
      (w : World) (rs : List Ref) (r : Ref)
      → Missing w rs
      → Standing host port w r
      → spool_find host port (rs ++ r ∷ []) w ≡ done (some r) w
  unfolding spool_find
  spool_find-snoc w [] r m (n, e, s) = rw (e, s) refl
  spool_find-snoc w (q ∷ qs) r ((k, f, o), m) s = rw (f, o) (spool_find-snoc w qs r m s)

  Missing-write :
      (w v : World) (rs : List Ref)
      → ((q : Ref) (n : SparkleNode) → w.heap q ≡ some n → v.heap q ≡ some n)
      → Missing w rs
      → Missing v rs
  Missing-write w v [] k m = tt
  Missing-write w v (r ∷ rs) k ((n, e, o), m) = ((n, k r n e, o), Missing-write w v rs k m)

-- What wrapNode leaves.
pub record Wrapped (env : Environment) (host : HostAddress) (port : ℕ) (w : World) (r : Ref)
    (v : World) : Type 0 where
  standing : Standing host port v r
  in_spool : contains v.link.node_spool r ≡ true
  again : wrap_node env host port v ≡ done r v
  kept : (q : Ref) (n : SparkleNode) → w.heap q ≡ some n → v.heap q ≡ some n
  router : v.router ≡ w.router
  events : v.events ≡ w.events

fresh-kept :
    (w : World) (c : Option SparkleNode) (q : Ref) (n : SparkleNode)
    → w.heap w.next_ref ≡ none
    → w.heap q ≡ some n
    → write w.heap w.next_ref c q ≡ some n
fresh-kept w c q n f e = elim (Bool-cases (q == w.next_ref)) [
  | inl same ↦ cc (ap w.heap ((==_iff q w.next_ref).0 same))
  | inr other ↦ rw other e
]

module _ (env : Environment) (host : HostAddress) (port : ℕ) (w : World)
    (spool : Live w w.link.node_spool) (fresh : w.heap w.next_ref ≡ none) where
  -- wrapNode returns a node of the spool that stands for the endpoint, and makes one if there is none:
  -- it keeps every node there was, sends nothing, and a second call for the endpoint returns the same node
  -- and changes nothing.
  pub wrap_node-Wrapped : Returns (λ r v. Wrapped env host port w r v) (wrap_node env host port w)
  unfolding wrap_node new_node stands_for phantom_ip phantom_port
  wrap_node-Wrapped = elim (spool_find-cases host port w w.link.node_spool spool) [
    | inl (f, m) ↦ rw f (added m)
    | inr (r, f, c, s) ↦ rw f (record {
      standing = s;
      in_spool = c;
      again = rw f refl;
      kept = λ q n e. e;
      router = refl;
      events = refl;
    })
  ]
    where
      new : SparkleNode
      new = unknown_node env host port w.next_ref

      v : World
      v = record w {
        heap = write w.heap w.next_ref (some new);
        next_ref = suc w.next_ref;
        link = record w.link { node_spool = w.link.node_spool ++ w.next_ref ∷ [] };
      }

      standing : Standing host port v w.next_ref
      standing = (new, rw (==_refl w.next_ref) refl, rw (host_eq_refl host, ==_refl port) refl)

      added : Missing host port w w.link.node_spool → Wrapped env host port w w.next_ref v
      added m = record {
        standing = standing;
        in_spool = contains-snoc w.link.node_spool w.next_ref;
        again =
            rw
              (spool_find-snoc host port v w.link.node_spool w.next_ref
                (Missing-write host port w v w.link.node_spool
                  (λ q n e. fresh-kept w (some new) q n fresh e) m)
                standing)
              refl;
        kept = λ q n e. fresh-kept w (some new) q n fresh e;
        router = refl;
        events = refl;
      }
