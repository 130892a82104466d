-- ===== src/Router/Lookup.antt =====
-- Router.cpp: the look-up of a node by its address.
use sparkle.Prelude.{
  ◌≡◌, refl, true, false, List, [], ◌∷◌, none, some, arith, ==_refl, inl, inr, ◌⊎◌, Bool-cases,
}
use sparkle.Address.{SparkleAddress, address_eq, address_eq_sound}
use sparkle.World.{Ref, SparkleNode, World, done, contains}
use sparkle.World.Refs.{Live}
use sparkle.Router.{find_first, find_sparkle_node, has_route_to}

-- No node of the list has the address.
abbrev pub Unknown : SparkleAddress → World → List Ref → Type 0
Unknown mac w [] = Unit {0}
Unknown mac w (r ∷ rs) =
    ((n : SparkleNode) × (w.heap r ≡ some n) × (address_eq n.sparkle_mac mac ≡ false))
    × Unknown mac w rs

-- One of them has it, at `r`.
abbrev pub Known : SparkleAddress → World → List Ref → Ref → Type 0
Known mac w rs r =
    (contains rs r ≡ true) × ((n : SparkleNode) × (w.heap r ≡ some n) × (n.sparkle_mac ≡ mac))

module _ (mac : SparkleAddress) (w : World) where
  find_first-cases :
      (rs : List Ref)
      → Live w rs
      → let result = find_first (λ n. address_eq n.sparkle_mac mac) rs w in
        ((result ≡ done none w) × Unknown mac w rs)
        ⊎ ((r : Ref) × (result ≡ done (some r) w) × Known mac w rs r)
  unfolding find_first
  find_first-cases [] l = inl (refl, tt)
  find_first-cases (r ∷ rs) ((n, e), l) = elim (Bool-cases (address_eq n.sparkle_mac mac)) [
    | inl here ↦ inr (
      r,
      rw (e, here) refl,
      (rw (==_refl r) refl, (n, e, address_eq_sound n.sparkle_mac mac here)),
    )
    | inr other ↦ elim (find_first-cases rs l) [
      | inl (f, u) ↦ inl (rw (e, other) f, ((n, e, other), u))
      | inr (q, f, (c, k)) ↦ inr (q, rw (e, other) f, (ground (arith, c), k))
    ]
  ]

  -- The look-up returns a node of the router that has the address, or null, and then no node of the
  -- router has it; `hasRouteTo` tells which. Neither changes anything.
  pub find_sparkle_node-lookup :
      Live w w.router.nodes
      → ((find_sparkle_node mac w ≡ done none w)
          × (has_route_to mac w ≡ done false w)
          × Unknown mac w w.router.nodes)
        ⊎ ((r : Ref) × (find_sparkle_node mac w ≡ done (some r) w)
            × (has_route_to mac w ≡ done true w)
            × Known mac w w.router.nodes r)
  unfolding find_sparkle_node has_route_to
  find_sparkle_node-lookup l = elim (find_first-cases w.router.nodes l) [
    | inl (f, u) ↦ inl (f, rw f refl, u)
    | inr (r, f, k) ↦ inr (r, f, rw f refl, k)
  ]

  Unknown-find_first :
      (rs : List Ref)
      → Unknown mac w rs
      → find_first (λ n. address_eq n.sparkle_mac mac) rs w ≡ done none w
  unfolding find_first
  Unknown-find_first [] u = refl
  Unknown-find_first (r ∷ rs) ((n, e, other), u) = rw (e, other) (Unknown-find_first rs u)

  pub find_sparkle_node-Unknown :
      Unknown mac w w.router.nodes
      → (find_sparkle_node mac w ≡ done none w) × (has_route_to mac w ≡ done false w)
  unfolding find_sparkle_node has_route_to
  find_sparkle_node-Unknown u = let f = Unknown-find_first w.router.nodes u in (f, rw f refl)
