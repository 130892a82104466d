-- ===== src/Link/Keys/Timeout.antt =====
-- LinkLayer.cpp: negotiationTimeout.
use sparkle.Prelude.{◌≡◌, refl, false, [], some, ==_refl}
use sparkle.World.{Ref, SparkleNode, World, Environment, write, contains, remove_one}
use sparkle.World.Refs.{Returns, Distinct, contains-remove_one_self}
use sparkle.Node
use sparkle.Link.Keys.{negotiation_timeout}
use sparkle.Link.Keys.Flush.{no_shutdown}

-- What the timeout leaves: the node without its queue, and out of the list of negotiations.
pub record TimedOut (w : World) (r : Ref) (n : SparkleNode) (v : World) : Type 0 where
  node : v.heap r ≡ some (record n { queue = []; negotiation_timer = false })
  again : contains v.link.awaiting_negotiation r ≡ false
  link : v.link ≡ record w.link { awaiting_negotiation = remove_one w.link.awaiting_negotiation r }
  router : v.router ≡ w.router
  events : v.events ≡ w.events

module _ (env : Environment) (w : World) (r : Ref) (n : SparkleNode)
    (live : w.heap r ≡ some n) where
  -- A negotiation that has not come to its end in time is given up: what waited for it is dropped,
  -- nothing is sent, and the next packet for the node begins a new one.
  pub negotiation_timeout-TimedOut :
      Distinct w.link.awaiting_negotiation
      → w.link.preparing_for_shutdown ≡ false
      → Returns (λ _ v. TimedOut w r n v) (negotiation_timeout env r w)
  unfolding negotiation_timeout Node.negotiation_finished Node.flush_queue
  negotiation_timeout-TimedOut d s =
      let idle = record n { negotiation_timer = false; queue = [] } in
      let u = record w {
        heap = write (write w.heap r (some (record n { negotiation_timer = false }))) r (some idle);
        link = record w.link { awaiting_negotiation = remove_one w.link.awaiting_negotiation r };
      } in
      rw (live, ==_refl r, no_shutdown u s)
        (record {
          node = rw (==_refl r) refl;
          again = contains-remove_one_self w.link.awaiting_negotiation r d;
          link = refl;
          router = refl;
          events = refl;
        })
