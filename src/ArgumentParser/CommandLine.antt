-- ===== src/ArgumentParser/CommandLine.antt =====
-- A command line of known options, written out and parsed.
use sparkle.Prelude.{
  ℕ, zero, suc, ◌<◌, ◌≡◌, refl, sym, ap, ◌∙◌, Bool, true, false, not, ◌||◌, List, [], ◌∷◌, ◌++◌,
  length, length-append, map, Option, none, some, ◌==◌, if◌then◌else◌, All, arith,
}
use mathlib.Core.List.{append-nil, append_assoc}
use sparkle.Prelude.Bytes.{bytes_eq}
use sparkle.ArgumentParser.{
  ArgumentReq, no_argument, optional_argument, required_argument, OptionT, Effect, State, dash,
  dashes, set_text, is_help, char_at, matching, apply_option, take_argument, on_option, finish,
  parse_loop, initial, parse,
}

-- An option as it is named on the line, and the argument behind it, if there is one.
pub record Item : Type 0 where
  pub name : List ℕ
  pub option : OptionT
  pub value : Option (List ℕ)

-- An argument is there if the option wants one, may be there if it allows one, and does not begin
-- with a dash.
pub data Fits : ArgumentReq → Option (List ℕ) → Type 0 where
  flag : Fits no_argument none
  bare : Fits optional_argument none
  optional : (v : List ℕ) → (char_at v 0 == dash) ≡ false → Fits optional_argument (some v)
  required : (v : List ℕ) → (char_at v 0 == dash) ≡ false → Fits required_argument (some v)

-- The name is one of the option's, and the option is the first one with that name.
pub record IsItem (options : List OptionT) (i : Item) : Type 0 where
  pub known : matching options i.name ≡ some i.option
  pub not_dashes : bytes_eq i.name dashes ≡ false
  pub fits : Fits i.option.arg i.value

abbrev value_words : Option (List ℕ) → List (List ℕ)
value_words none = []
value_words (some v) = v ∷ []

pub render : List Item → List (List ℕ)
render [] = []
render (i ∷ is) = i.name ∷ value_words i.value ++ render is

abbrev value_of : Option (List ℕ) → List ℕ
value_of none = set_text
value_of (some v) = v

abbrev pub effect_of : Item → Effect
effect_of i = record { option = i.option; value = value_of i.value }

pub asks_help : List Item → Bool
asks_help [] = false
asks_help (i ∷ is) = is_help i.option.callback || asks_help is

-- A line of options has nothing at its front, or a word that begins with a dash.
name_dash :
    (options : List OptionT) (name : List ℕ) (o : OptionT)
    → matching options name ≡ some o
    → (char_at name 0 == dash) ≡ true
unfolding matching
name_dash options name o h = ground arith

abbrev FrontDash : List (List ℕ) → Type 0
FrontDash [] = Unit
FrontDash (word ∷ words) = (char_at word 0 == dash) ≡ true

render-FrontDash :
    (options : List OptionT) (is : List Item) → All (IsItem options) is → FrontDash (render is)
unfolding render
render-FrontDash options [] h = tt
render-FrontDash options (i ∷ is) h = name_dash options i.name i.option h.0.known

take_argument-Fits :
    (r : ArgumentReq) (v : Option (List ℕ)) (o : OptionT) (rest : List (List ℕ)) (st : State)
    → Fits r v
    → FrontDash rest
    → take_argument r o (value_words v ++ rest) st ≡ (rest, apply_option o (value_of v) st)
unfolding take_argument
take_argument-Fits _ _ o rest st flag h = refl
take_argument-Fits _ _ o [] st bare h = refl
take_argument-Fits _ _ o (word ∷ words) st bare h = rw (h) refl
take_argument-Fits _ _ o rest st (optional v e) h = rw (e) refl
take_argument-Fits _ _ o rest st (required v e) h = rw (e) refl

or_false : (b : Bool) → (b || false) ≡ b
or_false true = refl
or_false false = refl

or_assoc : (a b c : Bool) → ((a || b) || c) ≡ (a || (b || c))
or_assoc true b c = refl
or_assoc false b c = refl

if_false {ℓ} : {A : Type ℓ} (b : Bool) (x y : A) → b ≡ false → (if b then x else y) ≡ y
if_false b x y h = rw (h) refl

apply_option-valid :
    (o : OptionT) (v : List ℕ) (st : State)
    → st.invalid ≡ false
    → apply_option o v st ≡ record st {
      callback_called = st.callback_called || is_help o.callback;
      effects = st.effects ++ record { option = o; value = v } ∷ [];
    }
unfolding apply_option
apply_option-valid o v st h = if_false st.invalid _ _ h

length-render-cons : (i : Item) (is : List Item) → length (render is) < length (render (i ∷ is))
unfolding render
length-render-cons i is = omega (arith, length-append (value_words i.value) (render is))

-- What the items do to the state.
abbrev performed : List Item → State → State
performed is st = record st {
  callback_called = st.callback_called || asks_help is;
  effects = st.effects ++ map effect_of is;
}

performed-nil : (st : State) → performed [] st ≡ st
unfolding asks_help
performed-nil st = rw (or_false st.callback_called, append-nil st.effects) refl

performed-cons :
    (i : Item) (is : List Item) (st : State)
    → st.invalid ≡ false
    → performed is (apply_option i.option (value_of i.value) st) ≡ performed (i ∷ is) st
unfolding asks_help
performed-cons i is st v =
    ap (performed is) (apply_option-valid i.option (value_of i.value) st v)
    ∙ rw
        (
          or_assoc st.callback_called (is_help i.option.callback) (asks_help is),
          append_assoc st.effects (effect_of i ∷ []) (map effect_of is),
        )
        refl

apply_option-invalid :
    (o : OptionT) (v : List ℕ) (st : State)
    → st.invalid ≡ false
    → (apply_option o v st).invalid ≡ false
apply_option-invalid o v st h = ap (λ (x : State). x.invalid) (apply_option-valid o v st h) ∙ h

module _ (options : List OptionT) where
  parse_loop-render :
      (is : List Item) (fuel : ℕ) (st : State)
      → All (IsItem options) is
      → length (render is) < fuel
      → st.invalid ≡ false
      → parse_loop options fuel (render is) st ≡ some (finish (performed is st))
  unfolding parse_loop render on_option
  parse_loop-render is zero st h l v = absurd (omega arith)
  parse_loop-render [] (suc fuel) st h l v =
      ap (λ (x : State). some (finish x)) (sym (performed-nil st))
  parse_loop-render (i ∷ is) (suc fuel) st (h, hs) l v =
      let st' = apply_option i.option (value_of i.value) st in
      rw
        (
          h.not_dashes,
          h.known,
          take_argument-Fits i.option.arg i.value i.option (render is) st h.fits
              (render-FrontDash options is hs),
          parse_loop-render is fuel st' hs (omega (arith, l, length-render-cons i is))
              (apply_option-invalid i.option (value_of i.value) st v),
          performed-cons i is st v,
        )
        refl

  -- A line of known options, each with an argument that fits it, is parsed with no complaint: for
  -- each option in its order its variable is set and its callback called, with its argument or
  -- "set", and parse returns true unless the help was asked for.
  pub parse-render :
      (is : List Item)
      → All (IsItem options) is
      → parse options (render is)
        ≡ some (record {
          value = not (asks_help is);
          state = record {
            invalid = false;
            callback_called = asks_help is;
            effects = map effect_of is;
          };
        })
  unfolding parse finish
  parse-render is h =
      parse_loop-render is (suc (length (render is))) initial h (omega arith) refl
      ∙ rw (or_false (asks_help is)) refl
