-- ===== src/Link/Send/Cleanup.antt =====
-- LinkLayer.cpp: cleanup, and what becomes of the nodes of the spool.
use sparkle.Prelude.{
  ◌≡◌, refl, ap, ◌∙◌, true, false, List, [], ◌∷◌, Option, none, arith, ◌==◌, inl, inr, Bool-cases,
}
use sparkle.World.{
  M, ◌>>=◌, ◌>>◌, modify_router, remove_one, deref, emit, peer_removed, node_removed, Ref, Router,
  SparkleNode, LinkLayer, World, Run, fault, fatal, out_of_fuel, done, write, delete, for_each,
  contains, and_then,
}
use sparkle.World.Refs.{Live, Distinct, Returns, bind, weaken}
use sparkle.Router.{clear}
use sparkle.Link.Send.{cleanup}

Live-write :
    (w : World) (rs : List Ref) (r : Ref) (c : Option SparkleNode)
    → Live w rs
    → contains rs r ≡ false
    → Live (record w { heap = write w.heap r c }) rs
Live-write w [] r c l h = tt
Live-write w (q ∷ qs) r c ((n, e), l) h =
    let other : (q == r) ≡ false = ground arith in
    ((n, rw other e), Live-write w qs r c l (ground arith))

-- The nodes of the list are freed, and nothing else has changed.
record Freed (rs : List Ref) (w v : World) : Type 0 where
  gone : (r : Ref) → contains rs r ≡ true → v.heap r ≡ none
  kept : (r : Ref) → contains rs r ≡ false → v.heap r ≡ w.heap r
  link : v.link ≡ w.link
  router : v.router ≡ w.router
  events : v.events ≡ w.events

for_each-delete :
    (rs : List Ref) (w : World)
    → Live w rs
    → Distinct rs
    → Returns (λ _ v. Freed rs w v) (for_each rs delete w)
unfolding for_each
for_each-delete [] w l d = record {
  gone = λ r h. cc;
  kept = λ r h. refl;
  link = refl;
  router = refl;
  events = refl;
}
for_each-delete (q ∷ qs) w ((n, e), l) (new, d) =
    let u = record w { heap = write w.heap q none } in
    rw e (
      weaken (λ _ v. Freed qs u v) _ _ (for_each-delete qs u (Live-write w qs q none l new) d)
        (λ _ v f. record {
          gone = λ r h. gone v f r h;
          kept = λ r h. kept v f r h;
          link = f.link;
          router = f.router;
          events = f.events;
        }))
  where
    gone :
        (v : World)
        → Freed qs (record w { heap = write w.heap q none }) v
        → (r : Ref) → contains (q ∷ qs) r ≡ true
        → v.heap r ≡ none
    gone v f r h = elim (Bool-cases (contains qs r)) [
      | inl inside ↦ f.gone r inside
      | inr outside ↦ let same : (r == q) ≡ true = ground arith in f.kept r outside ∙ rw same refl
    ]

    kept :
        (v : World)
        → Freed qs (record w { heap = write w.heap q none }) v
        → (r : Ref) → contains (q ∷ qs) r ≡ false
        → v.heap r ≡ w.heap r
    kept v f r h =
        let outside : contains qs r ≡ false = ground arith in
        let other : (r == q) ≡ false = ground arith in f.kept r outside ∙ rw other refl

-- What cleanup leaves of a link layer.
pub record Cleaned (w v : World) : Type 0 where
  pub freed : (r : Ref) → contains w.link.node_spool r ≡ true → v.heap r ≡ none
  pub kept : (r : Ref) → contains w.link.node_spool r ≡ false → v.heap r ≡ w.heap r
  pub link : v.link ≡ record w.link {
    node_spool = [];
    awaiting_negotiation = [];
    cookies = [];
    joined = false;
    join_timer = false;
    ping_timer = false;
    nat_keepalive_timer = false;
  }
  pub events : v.events ≡ w.events

abbrev emptied : LinkLayer → LinkLayer
emptied l = record l {
  node_spool = [];
  awaiting_negotiation = [];
  cookies = [];
  join_timer = false;
  ping_timer = false;
  nat_keepalive_timer = false;
}

abbrev drop_routes : World → List Ref → Run (Unit {0})
drop_routes v rs =
    for_each rs
      (λ r. do
        modify_router (λ d. record d { nodes = remove_one d.nodes r })
        n ← deref r
        emit (peer_removed n.sparkle_mac)
        emit (node_removed r))
      v

clear-empty :
    (v : World)
    → v.router.nodes ≡ []
    → clear v ≡ done tt (record v { router = record v.router { self = none } })
unfolding clear for_each
clear-empty v e =
    ap (λ rs. and_then (drop_routes v rs) (λ _. modify_router (λ d. record d { self = none }))) e

clear_dangling :
    (v : World) (r : Ref) (rest : List Ref)
    → v.router.nodes ≡ r ∷ rest
    → v.heap r ≡ none
    → clear v ≡ fault
unfolding clear for_each
clear_dangling v r rest e h =
    ap (λ rs. and_then (drop_routes v rs) (λ _. modify_router (λ d. record d { self = none }))) e
    ∙ rw h refl

pub then_fault :
    {A B : Type 0} (P : World → Type 0) (m : Run A) (k : A → M B)
    → Returns (λ _ v. P v) m
    → ((v : World) → P v → (a : A) → k a v ≡ fault)
    → and_then m k ≡ fault
then_fault P (done a v) k p h = h v p a
then_fault P fault k p h = refl
then_fault P fatal k p h = absurd p
then_fault P out_of_fuel k p h = absurd p

module _ (w : World) (live : Live w w.link.node_spool) (distinct : Distinct w.link.node_spool) where
  abbrev left : World
  left = record w { link = record w.link { joined = false } }

  -- Without routes, cleanup frees every node of the spool once, and no other, empties the tables and
  -- stops the timers. What waits for routes stays.
  pub cleanup-Cleaned : w.router.nodes ≡ [] → Returns (λ _ v. Cleaned w v) (cleanup w)
  unfolding cleanup
  cleanup-Cleaned none_known =
      bind (λ _ v. Freed w.link.node_spool left v) (λ _ v. Cleaned w v)
        (for_each w.link.node_spool delete left) _
        (for_each-delete w.link.node_spool left live distinct)
        (λ _ v f.
          rw (clear-empty v (ap (λ (d : Router). d.nodes) f.router ∙ none_known))
            (record { freed = f.gone; kept = f.kept; link = ap emptied f.link; events = f.events }))

  -- A router whose first node is in the spool is cleared after that node was freed: cleanup follows a
  -- dangling pointer.
  pub cleanup_fault :
      (r : Ref) (rest : List Ref)
      → w.router.nodes ≡ r ∷ rest
      → contains w.link.node_spool r ≡ true
      → cleanup w ≡ fault
  unfolding cleanup
  cleanup_fault r rest known inside =
      then_fault (λ v. Freed w.link.node_spool left v) (for_each w.link.node_spool delete left) _
        (for_each-delete w.link.node_spool left live distinct)
        (λ v f _.
          rw
            (clear_dangling v r rest (ap (λ (d : Router). d.nodes) f.router ∙ known)
              (f.gone r inside))
            refl)
