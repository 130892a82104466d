-- ===== src/Router/Invariant.antt =====
-- Router.cpp: the router's list has no node twice, and holds the node's own.
use sparkle.Prelude.{
  ◌∙◌, ap, subst, ◌≡◌, refl, true, false, List, [], ◌∷◌, ◌++◌, Option, none, some, arith, length,
  ◌==◌, inl, inr, Bool-cases, ==_iff,
}
use sparkle.World.{Router, Ref, SparkleNode, World, contains, remove_one}
use sparkle.World.Refs.{
  contains-snoc, Returns, Distinct, contains-append, Distinct-snoc, Distinct-remove_one,
  contains-remove_one_ne, contains-remove_one_self,
}
use sparkle.Router.{update_node, remove_node, last_one}

abbrev pub HasSelf : Option Ref → List Ref → Type 0
HasSelf none rs = Unit {0}
HasSelf (some s) rs = contains rs s ≡ true

pub record IsRouter (d : Router) : Type 0 where
  pub distinct : Distinct d.nodes
  pub has_self : HasSelf d.self d.nodes

HasSelf-append :
    (s : Option Ref) (rs : List Ref) (r : Ref) → HasSelf s rs → HasSelf s (rs ++ r ∷ [])
HasSelf-append none rs r h = tt
HasSelf-append (some s) rs r h = rw (contains-append rs (r ∷ []) s, h)

HasSelf-remove_one :
    (s r : Ref) (rs : List Ref)
    → (s == r) ≡ false
    → contains rs s ≡ true
    → contains (remove_one rs r) s ≡ true
HasSelf-remove_one s r rs e h = contains-remove_one_ne rs r s e ∙ h

-- What an operation that knows `r` leaves: `r` is in the list, and the others as they were.
pub record Updated (w : World) (r : Ref) (w' : World) : Type 0 where
  valid : IsRouter w'.router
  known : contains w'.router.nodes r ≡ true
  others : (q : Ref) → (q == r) ≡ false → contains w'.router.nodes q ≡ contains w.router.nodes q
  heap : w'.heap ≡ w.heap
  link : w'.link ≡ w.link

module _ (w : World) (r : Ref) (n : SparkleNode) (live : w.heap r ≡ some n) where
  -- updateNode enters a node once, and keeps the rest.
  pub update_node-IsRouter : IsRouter w.router → Returns (λ _ w'. Updated w r w') (update_node r w)
  unfolding update_node
  update_node-IsRouter v = elim (Bool-cases (contains w.router.nodes r)) [
    | inl old ↦
        rw (old, live)
          (record { valid = v; known = old; others = λ q e. refl; heap = refl; link = refl })
    | inr new ↦
        rw (new, live)
          (record {
            valid = record {
              distinct = Distinct-snoc w.router.nodes r v.distinct new;
              has_self = HasSelf-append w.router.self w.router.nodes r v.has_self;
            };
            known = contains-snoc w.router.nodes r;
            others = λ q e. ground (arith, contains-append w.router.nodes (r ∷ []) q);
            heap = refl;
            link = refl;
          })
  ]

  -- removeNode takes out any node but the node itself, for good; the node itself must be a master if
  -- it is left alone.
  pub remove_node-IsRouter :
      (s : Ref) (m : SparkleNode)
      → w.router.self ≡ some s
      → w.heap s ≡ some m
      → m.master ≡ true
      → IsRouter w.router
      → Returns
          (λ _ w'.
            IsRouter w'.router
            × (w'.router.self ≡ some s)
            × (contains w'.router.nodes r ≡ (r == s))
            × ((q : Ref)
                → (q == r) ≡ false
                → contains w'.router.nodes q ≡ contains w.router.nodes q)
            × (w'.heap ≡ w.heap))
          (remove_node r w)
  unfolding remove_node last_one
  remove_node-IsRouter s m self hs master v =
      let ns = w.router.nodes in
      let inside : contains ns s ≡ true = subst (λ x. HasSelf x ns) self v.has_self in
      elim (Bool-cases (r == s)) [
        | inl e ↦
            rw (self, e)
              (
                record { distinct = v.distinct; has_self = inside },
                refl,
                ap (contains ns) ((==_iff r s).0 e) ∙ inside,
                λ q d. refl,
                refl,
              )
        | inr e ↦ elim (Bool-cases (contains ns r)) [
          | inr new ↦
              rw (self, e, new, live)
                (record { distinct = v.distinct; has_self = inside }, refl, new, λ q d. refl, refl)
          | inl old ↦
              let v' : IsRouter (record { self = some s; nodes = remove_one ns r }) = record {
                distinct = Distinct-remove_one ns r v.distinct;
                has_self = HasSelf-remove_one s r ns (ground arith) inside;
              } in
              let gone = contains-remove_one_self ns r v.distinct in
              elim (Bool-cases (length (remove_one ns r) == 1)) [
                | inl one ↦
                    rw (self, e, old, live, one, hs, master)
                      (v', refl, gone, λ q d. contains-remove_one_ne ns r q d, refl)
                | inr more ↦
                    rw (self, e, old, live, more)
                      (v', refl, gone, λ q d. contains-remove_one_ne ns r q d, refl)
              ]
        ]
      ]
