-- ===== src/Examples/Routers.antt =====
-- Router.cpp and SparkleNode.cpp in the small network.
use sparkle.Prelude.{◌≡◌, ◌⊎◌, refl, false, [], ◌∷◌, none, some, arith, ◌==◌}
use sparkle.World.{Ref, null_host, done, contains}
use sparkle.World.Refs.{Returns}
use sparkle.Router
use sparkle.Router.{masters, others, excluded}
use sparkle.Router.Invariant.{IsRouter, remove_node-IsRouter}
use sparkle.Router.Selection.{selected, Kept, find-keep, select-mem}
use sparkle.Node.{address_from_key}
use sparkle.Node.OwnAddress.{IsOwnAddress, address_from_key-IsOwnAddress}
use sparkle.Examples.{
  environment, joined, self, keyed, hash, joined-Live, joined-Distinct, joined-IsRouter,
}

remove_node-IsRouter_example :
    Returns
      (λ _ w'.
        IsRouter w'.router
        × (w'.router.self ≡ some 1)
        × (contains w'.router.nodes 2 ≡ false)
        × ((q : Ref)
            → (q == 2) ≡ false
            → contains w'.router.nodes q ≡ contains joined.router.nodes q)
        × (w'.heap ≡ joined.heap))
      (Router.remove_node 2 joined)
remove_node-IsRouter_example =
    remove_node-IsRouter joined 2 keyed refl 1 self refl refl refl joined-IsRouter

find-keep_example :
    Router.find others null_host joined ≡ done (selected others null_host joined) joined
find-keep_example = find-keep others null_host joined joined-Live joined-Distinct

select-mem_example :
    ((selected masters null_host joined ≡ [])
      × (Router.select environment masters null_host joined ≡ done none joined))
    ⊎ ((r : Ref) × Kept joined (excluded masters null_host (some 1)) (1 ∷ 2 ∷ 3 ∷ 4 ∷ []) r
        × (Router.select environment masters null_host joined
            ≡ done (some r) (record joined { random_calls = 1 })))
select-mem_example = select-mem environment masters null_host joined joined-Live joined-Distinct

address_from_key-IsOwnAddress_example : IsOwnAddress hash (address_from_key environment (3 ∷ []))
address_from_key-IsOwnAddress_example =
    address_from_key-IsOwnAddress environment (3 ∷ []) (omega arith) (omega arith)
