-- ===== src/Router/Selection.antt =====
-- Router.cpp: `find` by its loop of removals against a plain filter, `select` and `count` after it,
-- and the look-ups by address.
use sparkle.Prelude.{
  ℕ, suc, ◌%◌, ◌<◌, ◌≡◌, refl, subst, Bool, true, false, not, List, [], ◌∷◌, ◌++◌, Option, none,
  some, arith, length, get_or, ◌==◌, if◌then◌else◌, inl, inr, ◌⊎◌, Bool-cases, Option-cases, ==_iff,
  ==_refl, zero,
}
use mathlib.Core.List.{append_assoc}
use sparkle.World.{HostAddress, Environment, Ref, SparkleNode, World, done, contains, remove_one}
use sparkle.World.Refs.{Live, Distinct, contains-append}
use sparkle.Router.{Query, find, find_loop, excluded, select, random}

-- Whether the node at `r` stays on the list.
abbrev stays : (Ref → SparkleNode → Bool) → Ref → Option SparkleNode → Bool
stays out r none = false
stays out r (some n) = not (out r n)

-- The nodes that no exclusion takes off, in their order.
unfoldable pub keep : World → (Ref → SparkleNode → Bool) → List Ref → List Ref
keep w out [] = []
keep w out (r ∷ rs) = if stays out r (w.heap r) then r ∷ keep w out rs else keep w out rs

abbrev pub selected : Query → HostAddress → World → List Ref
selected q ip w = keep w (excluded q ip w.router.self) w.router.nodes

-- No node of the second list stands in the first.
abbrev Apart : List Ref → List Ref → Type 0
Apart pre [] = Unit {0}
Apart pre (r ∷ rs) = (contains pre r ≡ false) × Apart pre rs

Apart-snoc :
    (pre rs : List Ref) (r : Ref) → Apart pre rs → contains rs r ≡ false → Apart (pre ++ r ∷ []) rs
Apart-snoc pre [] r a h = tt
Apart-snoc pre (x ∷ xs) r a h =
    (ground (arith, contains-append pre (r ∷ []) x), Apart-snoc pre xs r a.1 (ground arith))

remove_one-append :
    (pre rs : List Ref) (r : Ref)
    → contains pre r ≡ false
    → remove_one (pre ++ r ∷ rs) r ≡ pre ++ rs
remove_one-append [] rs r h = ground arith
remove_one-append (x ∷ xs) rs r h = ground (arith, remove_one-append xs rs r)

find_loop-keep :
    (w : World) (out : Ref → SparkleNode → Bool) (pre rs : List Ref)
    → Live w rs
    → Distinct rs
    → Apart pre rs
    → find_loop out rs (pre ++ rs) w ≡ done (pre ++ keep w out rs) w
unfolding find_loop keep
find_loop-keep w out pre [] l d a = refl
find_loop-keep w out pre (r ∷ rs) ((n, e), l) d a = elim (Bool-cases (out r n)) [
  | inl gone ↦ rw (e, gone, remove_one-append pre rs r a.0) (find_loop-keep w out pre rs l d.1 a.1)
  | inr kept ↦
      rw (e, kept, ← append_assoc pre (r ∷ []) rs, ← append_assoc pre (r ∷ []) (keep w out rs))
        (find_loop-keep w out (pre ++ r ∷ []) rs l d.1 (Apart-snoc pre rs r a.1 d.0))
]

module _ (q : Query) (ip : HostAddress) (w : World) (l : Live w w.router.nodes)
    (d : Distinct w.router.nodes) where
  -- `find` returns exactly the nodes that its flags and the address do not exclude, in order.
  pub find-keep : find q ip w ≡ done (selected q ip w) w
  unfolding find
  find-keep = find_loop-keep w _ [] w.router.nodes l d (apart w.router.nodes)
    where
      apart : (rs : List Ref) → Apart [] rs
      apart [] = tt
      apart (r ∷ rs) = (refl, apart rs)

get_or-contains : (rs : List Ref) (i : ℕ) → i < length rs → contains rs (get_or rs i 0) ≡ true
get_or-contains [] i h = absurd (omega arith)
get_or-contains (x ∷ xs) zero h = ground arith
get_or-contains (x ∷ xs) (suc i) h = ground (arith, get_or-contains xs i)

-- A node that is kept is on the list, exists, and is not excluded.
abbrev pub Kept : World → (Ref → SparkleNode → Bool) → List Ref → Ref → Type 0
Kept w out rs r =
    (contains rs r ≡ true) × ((n : SparkleNode) × (w.heap r ≡ some n) × (out r n ≡ false))

Kept-cons :
    (w : World) (out : Ref → SparkleNode → Bool) (x : Ref) (rs : List Ref) (r : Ref)
    → Kept w out rs r
    → Kept w out (x ∷ rs) r
Kept-cons w out x rs r k = (ground arith, k.1)

contains-keep :
    (w : World) (out : Ref → SparkleNode → Bool) (rs : List Ref) (r : Ref)
    → contains (keep w out rs) r ≡ true
    → Kept w out rs r
unfolding keep
contains-keep w out [] r h = cc
contains-keep w out (x ∷ xs) r h = elim (Option-cases (w.heap x)) [
  | inl e ↦ Kept-cons w out x xs r (contains-keep w out xs r (rw e at h))
  | inr (n, e) ↦ elim (Bool-cases (out x n)) [
    | inl gone ↦ Kept-cons w out x xs r (contains-keep w out xs r (rw (e, gone) at h))
    | inr kept ↦ elim (Bool-cases (x == r)) [
      | inl same ↦
          subst (λ y. Kept w out (x ∷ xs) y) ((==_iff x r).0 same)
            (rw (==_refl x) (refl, (n, e, kept)))
      | inr other ↦ Kept-cons w out x xs r (contains-keep w out xs r (rw (e, kept, other) at h))
    ]
  ]
]

nonempty : (x : Ref) (xs : List Ref) → (length (x ∷ xs) == 0) ≡ false
nonempty x xs = ground arith

module _ (env : Environment) (q : Query) (ip : HostAddress) (w : World) (l : Live w w.router.nodes)
    (d : Distinct w.router.nodes) where
  -- `select` returns null exactly if nothing is selected. Otherwise it draws one random number, changes
  -- nothing else, and returns a node of the router that exists and that its flags and the address do
  -- not exclude.
  pub select-mem :
      ((selected q ip w ≡ []) × (select env q ip w ≡ done none w))
      ⊎ ((r : Ref) × Kept w (excluded q ip w.router.self) w.router.nodes r
          × (select env q ip w ≡ done (some r) (record w { random_calls = suc w.random_calls })))
  unfolding select random
  select-mem = go (selected q ip w) refl
    where
      go :
          (rs : List Ref)
          → selected q ip w ≡ rs
          → ((selected q ip w ≡ []) × (select env q ip w ≡ done none w))
            ⊎ ((r : Ref) × Kept w (excluded q ip w.router.self) w.router.nodes r
                × (select env q ip w
                    ≡ done (some r) (record w { random_calls = suc w.random_calls })))
      go [] e = inl (e, rw (find-keep q ip w l d, e))
      go (x ∷ xs) e =
          let i = env.random w.random_calls % length (x ∷ xs) in
          inr (
            get_or (x ∷ xs) i 0,
            contains-keep w (excluded q ip w.router.self) w.router.nodes (get_or (x ∷ xs) i 0)
                (rw e (get_or-contains (x ∷ xs) i (omega arith))),
            rw (find-keep q ip w l d, e, nonempty x xs),
          )
