-- ===== src/World/Refs.antt =====
-- Runs that end, and lists of node pointers.
use sparkle.Prelude.{
  ==_refl, ap, sym, ◌∙◌, ==_iff, ◌≡◌, refl, ◌||◌, arith, Bool-cases, inl, inr, ◌++◌, ◌==◌, true,
  false, List, [], ◌∷◌, some,
}
use sparkle.World.{
  HostAddress, null_host, ipv4, host_eq, M, and_then, Ref, SparkleNode, World, Run, done, fault,
  fatal, out_of_fuel, contains, remove_one,
}

-- Total correctness: the run ends with a value and a world, and they satisfy the predicate.
abbrev pub Returns : {A : Type 0} → (A → World → Type 0) → Run A → Type 0
Returns P (done a w) = P a w
Returns P fault = ⊥
Returns P fatal = ⊥
Returns P out_of_fuel = ⊥

-- The nodes of a list exist.
abbrev pub Live : World → List Ref → Type 0
Live w [] = Unit {0}
Live w (r ∷ rs) = ((n : SparkleNode) × (w.heap r ≡ some n)) × Live w rs

-- No node stands in the list twice.
abbrev pub Distinct : List Ref → Type 0
Distinct [] = Unit {0}
Distinct (r ∷ rs) = (contains rs r ≡ false) × Distinct rs

pub contains-append :
    (xs ys : List Ref) (r : Ref) → contains (xs ++ ys) r ≡ (contains xs r || contains ys r)
contains-append [] ys r = refl
contains-append (x ∷ xs) ys r = ground (arith, contains-append xs ys r)

pub contains-snoc : (rs : List Ref) (r : Ref) → contains (rs ++ r ∷ []) r ≡ true
contains-snoc rs r = ground (arith, contains-append rs (r ∷ []) r)

pub Distinct-snoc :
    (xs : List Ref) (r : Ref) → Distinct xs → contains xs r ≡ false → Distinct (xs ++ r ∷ [])
Distinct-snoc [] r d h = (refl, tt)
Distinct-snoc (x ∷ xs) r d h =
    (ground (arith, contains-append xs (r ∷ []) x), Distinct-snoc xs r d.1 (ground arith))

pub contains-remove_one_ne :
    (xs : List Ref) (r q : Ref) → (q == r) ≡ false → contains (remove_one xs r) q ≡ contains xs q
contains-remove_one_ne [] r q h = refl
contains-remove_one_ne (x ∷ xs) r q h = ground (arith, contains-remove_one_ne xs r q h)

pub contains-remove_one :
    (xs : List Ref) (r q : Ref) → contains xs q ≡ false → contains (remove_one xs r) q ≡ false
contains-remove_one [] r q h = refl
contains-remove_one (x ∷ xs) r q h = ground (arith, contains-remove_one xs r q)

pub contains-remove_one_self :
    (xs : List Ref) (r : Ref) → Distinct xs → contains (remove_one xs r) r ≡ false
contains-remove_one_self [] r d = refl
contains-remove_one_self (x ∷ xs) r d = ground (arith, contains-remove_one_self xs r d.1)

pub Distinct-remove_one : (xs : List Ref) (r : Ref) → Distinct xs → Distinct (remove_one xs r)
Distinct-remove_one [] r d = tt
Distinct-remove_one (x ∷ xs) r d =
    ground (arith, Distinct-remove_one xs r d.1, contains-remove_one xs r x d.0)

pub Live-contains :
    (w : World) (rs : List Ref) (r : Ref)
    → Live w rs
    → contains rs r ≡ true
    → (n : SparkleNode) × (w.heap r ≡ some n)
Live-contains w [] r l h = cc
Live-contains w (x ∷ xs) r l h = elim (Bool-cases (x == r)) [
  | inl e ↦ (l.0.0, ap w.heap (sym ((==_iff x r).0 e)) ∙ l.0.1)
  | inr e ↦ Live-contains w xs r l.1 (ground arith)
]

module _ {A B : Type 0} where
  pub bind :
      (P : A → World → Type 0) (Q : B → World → Type 0) (m : Run A) (k : A → M B)
      → Returns P m
      → ((a : A) (w : World) → P a w → Returns Q (k a w))
      → Returns Q (and_then m k)
  bind P Q (done a w) k p next = next a w p
  bind P Q fault k p next = p
  bind P Q fatal k p next = p
  bind P Q out_of_fuel k p next = p

-- A weaker predicate.
pub weaken :
    {A : Type 0} (P : A → World → Type 0) (Q : A → World → Type 0) (m : Run A)
    → Returns P m
    → ((a : A) (w : World) → P a w → Q a w)
    → Returns Q m
weaken P Q (done a w) p next = next a w p
weaken P Q fault p next = absurd p
weaken P Q fatal p next = absurd p
weaken P Q out_of_fuel p next = absurd p

pub host_eq_refl : (h : HostAddress) → host_eq h h ≡ true
host_eq_refl null_host = refl
host_eq_refl (ipv4 a) = ==_refl a
