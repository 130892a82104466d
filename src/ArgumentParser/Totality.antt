-- ===== src/ArgumentParser/Totality.antt =====
-- Any command line: parse ends, and does something only for options that are registered.
use sparkle.Prelude.{
  ℕ, zero, suc, ◌<◌, ◌≤◌, ◌≡◌, refl, sym, ◌⊎◌, Bool, true, false, not, inl, inr, Bool-cases, List,
  [], ◌∷◌, ◌++◌, length, drop, Option, none, some, ◌==◌, if◌then◌else◌, arith, All, All-append,
}
use mathlib.Core.List.{Memᴰ}
use sparkle.Prelude.Bytes.{bytes_eq, bytes_eq_sound}
use sparkle.ArgumentParser.{
  ArgumentReq, no_argument, optional_argument, required_argument, OptionT, Effect, State, Result,
  dash, dashes, set_text, char_at, matching, find_long, find_short, apply_option, take_argument,
  on_option, finish, parse_loop, initial, parse,
}

-- What stands behind an option is what stood behind it, or is it less one word.
data Shorter (rest : List (List ℕ)) : List (List ℕ) → Type 0 where
  unchanged : Shorter rest rest
  less : (word : List ℕ) {words : List (List ℕ)} → rest ≡ word ∷ words → Shorter rest words

take_argument-Shorter :
    (r : ArgumentReq) (o : OptionT) (rest : List (List ℕ)) (st : State)
    → Shorter rest (take_argument r o rest st).0
unfolding take_argument
take_argument-Shorter no_argument o rest st = unchanged
take_argument-Shorter optional_argument o [] st = unchanged
take_argument-Shorter required_argument o [] st = unchanged
take_argument-Shorter optional_argument o (word ∷ words) st =
    elim (Bool-cases (char_at word 0 == dash)) [
      | inl e ↦ rw (e) unchanged
      | inr e ↦ rw (e) (less word refl)
    ]
take_argument-Shorter required_argument o (word ∷ words) st =
    elim (Bool-cases (char_at word 0 == dash)) [
      | inl e ↦ rw (e) unchanged
      | inr e ↦ rw (e) (less word refl)
    ]

on_option-Shorter :
    (m : Option OptionT) (rest : List (List ℕ)) (st : State) → Shorter rest (on_option m rest st).0
unfolding on_option
on_option-Shorter none rest st = unchanged
on_option-Shorter (some o) rest st = take_argument-Shorter o.arg o rest st

Shorter-length : (rest words : List (List ℕ)) → Shorter rest words → length words ≤ length rest
Shorter-length rest _ unchanged = omega arith
Shorter-length rest words (less word e) = rw (e) (omega arith)

Shorter-mem :
    (rest words : List (List ℕ)) (x : List ℕ) → Shorter rest words → Memᴰ x words → Memᴰ x rest
Shorter-mem rest _ x unchanged h = h
Shorter-mem rest words x (less word e) h = rw (e) (Memᴰ.tail h)

-- An option that was found is one of the list.
abbrev Found : List OptionT → Option OptionT → Type 0
Found os none = Unit
Found os (some o) = Memᴰ o os

Found-cons : (q : OptionT) (os : List OptionT) (m : Option OptionT) → Found os m → Found (q ∷ os) m
Found-cons q os none h = tt
Found-cons q os (some o) h = Memᴰ.tail h

find_long-Found : (name : List ℕ) (os : List OptionT) → Found os (find_long name os)
unfolding find_long
find_long-Found name [] = tt
find_long-Found name (q ∷ os) = elim (Bool-cases (bytes_eq q.long_opt name)) [
  | inl e ↦ rw (e) (Memᴰ.head refl)
  | inr e ↦ rw (e) (Found-cons q os (find_long name os) (find_long-Found name os))
]

find_short-Found : (name : ℕ) (os : List OptionT) → Found os (find_short name os)
unfolding find_short
find_short-Found name [] = tt
find_short-Found name (q ∷ os) = elim (Bool-cases (q.short_opt == name)) [
  | inl e ↦ rw (e) (Memᴰ.head refl)
  | inr e ↦ rw (e) (Found-cons q os (find_short name os) (find_short-Found name os))
]

module _ (options : List OptionT) where
  matching-Found : (opt : List ℕ) → Found options (matching options opt)
  unfolding matching
  matching-Found opt = elim (Bool-cases (char_at opt 0 == dash)) [
    | inr e ↦ rw (e) tt
    | inl e ↦ elim (Bool-cases (char_at opt 1 == dash)) [
      | inl f ↦ rw (e, f) (find_long-Found (drop 2 opt) options)
      | inr f ↦ elim (Bool-cases (length opt == 2)) [
        | inl g ↦ rw (e, f, g) (find_short-Found (char_at opt 1) options)
        | inr g ↦ rw (e, f, g) tt
      ]
    ]
  ]

  abbrev pub IsRegistered : Effect → Type 0
  IsRegistered e = Memᴰ e.option options

  abbrev AllRegistered : State → Type 0
  AllRegistered st = All IsRegistered st.effects

  apply_option-AllRegistered :
      (o : OptionT) (v : List ℕ) (st : State)
      → Memᴰ o options
      → AllRegistered st
      → AllRegistered (apply_option o v st)
  unfolding apply_option
  apply_option-AllRegistered o v st m h = if_case st.invalid _ _ h (registered m)
    where
      if_case :
          (b : Bool) (x y : State)
          → AllRegistered x
          → AllRegistered y
          → AllRegistered (if b then x else y)
      if_case true x y hx hy = hx
      if_case false x y hx hy = hy

      registered :
          Memᴰ o options → All IsRegistered (st.effects ++ record { option = o; value = v } ∷ [])
      registered k =
          All-append IsRegistered st.effects (record { option = o; value = v } ∷ []) h (k, tt)

  take_argument-AllRegistered :
      (r : ArgumentReq) (o : OptionT) (rest : List (List ℕ)) (st : State)
      → Memᴰ o options
      → AllRegistered st
      → AllRegistered (take_argument r o rest st).1
  unfolding take_argument
  take_argument-AllRegistered no_argument o rest st m h = apply_option-AllRegistered o _ st m h
  take_argument-AllRegistered optional_argument o [] st m h = apply_option-AllRegistered o _ st m h
  take_argument-AllRegistered required_argument o [] st m h = h
  take_argument-AllRegistered optional_argument o (word ∷ words) st m h =
      elim (Bool-cases (char_at word 0 == dash)) [
        | inl e ↦ rw (e) (apply_option-AllRegistered o set_text st m h)
        | inr e ↦ rw (e) (apply_option-AllRegistered o word st m h)
      ]
  take_argument-AllRegistered required_argument o (word ∷ words) st m h =
      elim (Bool-cases (char_at word 0 == dash)) [
        | inl e ↦ rw (e) h
        | inr e ↦ rw (e) (apply_option-AllRegistered o word st m h)
      ]

  on_option-AllRegistered :
      (q : Option OptionT) (rest : List (List ℕ)) (st : State)
      → Found options q
      → AllRegistered st
      → AllRegistered (on_option q rest st).1
  unfolding on_option
  on_option-AllRegistered none rest st m h = h
  on_option-AllRegistered (some o) rest st m h = take_argument-AllRegistered o.arg o rest st m h

  -- How a run ends.
  record Ends (args : List (List ℕ)) (out : Option Result) : Type 0 where
    result : Result
    ends : out ≡ some result
    told : (result.value ≡ not result.state.callback_called) ⊎ Memᴰ dashes args
    registered : AllRegistered result.state

  parse_loop-Ends :
      (fuel : ℕ) (args : List (List ℕ)) (st : State)
      → length args < fuel
      → AllRegistered st
      → Ends args (parse_loop options fuel args st)
  unfolding parse_loop finish
  parse_loop-Ends zero args st l h = absurd (omega arith)
  parse_loop-Ends (suc fuel) [] st l h = record {
    result = finish st;
    ends = refl;
    told = inl refl;
    registered = h;
  }
  parse_loop-Ends (suc fuel) (opt ∷ rest) st l h = elim (Bool-cases (bytes_eq opt dashes)) [
    | inl e ↦ record {
      result = record { value = true; state = st };
      ends = rw (e) refl;
      told = inr (Memᴰ.head (sym (bytes_eq_sound opt dashes e)));
      registered = h;
    }
    | inr e ↦
        let m = matching options opt in
        let shorter = on_option-Shorter m rest st in
        let (rest', st') = on_option m rest st in
        let later =
          parse_loop-Ends fuel rest' st' (omega (arith, l, Shorter-length rest rest' shorter))
            (on_option-AllRegistered m rest st (matching-Found opt) h) in
        record {
          result = later.result;
          ends = rw (e) later.ends;
          told = elim later.told [
            | inl k ↦ inl k
            | inr k ↦ inr (Memᴰ.tail (Shorter-mem rest rest' dashes shorter k))
          ];
          registered = later.registered;
        }
  ]

  -- On any command line parse ends: the value it returns says whether the help was not printed,
  -- unless the line has a word "--"; and every variable that it has set and every callback that
  -- it has called is of a registered option.
  pub parse-ends :
      (args : List (List ℕ))
      → (r : Result) × (parse options args ≡ some r)
        × ((r.value ≡ not r.state.callback_called) ⊎ Memᴰ dashes args)
        × All IsRegistered r.state.effects
  unfolding parse
  parse-ends args =
      let e = parse_loop-Ends (suc (length args)) args initial (omega arith) tt in
      (e.result, e.ends, e.told, e.registered)
