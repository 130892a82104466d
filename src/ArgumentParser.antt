-- ===== src/ArgumentParser.antt =====
-- sparkgap/ArgumentParser.cpp: the options of the command line. A text is the list of its UTF-16 units,
-- and the null text is the empty one. What the help callback prints is left out.
pub mod CommandLine
pub mod Totality
use sparkle.Prelude.{
  ℕ, zero, suc, ◌+◌, Bool, true, false, not, ◌||◌, ◌&&◌, List, [], ◌∷◌, ◌++◌, length, get_or, drop,
  Option, none, some, ◌==◌, if◌then◌else◌,
}
use sparkle.Prelude.Bytes.{bytes_eq}

pub data ArgumentReq : Type 0 where
  no_argument optional_argument required_argument : ArgumentReq

-- A callback: none, helpCallback, or one of the program's own.
pub data Callback : Type 0 where
  no_callback help_callback : Callback
  callback_of : ℕ → Callback

-- option_t, with the variable that `argument` points to, and without the texts of the help.
pub record OptionT : Type 0 where
  pub short_opt : ℕ
  pub long_opt : List ℕ
  pub arg : ArgumentReq
  pub argument : Option ℕ
  pub callback : Callback

-- What is done for an option: its variable is set, and its callback is called, with this argument.
pub record Effect : Type 0 where
  pub option : OptionT
  pub value : List ℕ

-- The locals of parse and hinfo.callbackCalled.
pub record State : Type 0 where
  pub invalid : Bool
  pub callback_called : Bool
  pub effects : List Effect

-- The value that parse returns, and the state it leaves.
pub record Result : Type 0 where
  pub value : Bool
  pub state : State

-- '-', "--", "help" and "set"
abbrev pub dash : ℕ
dash = 45

abbrev pub dashes : List ℕ
dashes = dash ∷ dash ∷ []

abbrev help_text : List ℕ
help_text = 104 ∷ 101 ∷ 108 ∷ 112 ∷ []

abbrev pub set_text : List ℕ
set_text = 115 ∷ 101 ∷ 116 ∷ []

-- registerOption
unfoldable pub register_option : OptionT → List OptionT → List OptionT
register_option option options = options ++ option ∷ []

-- ArgumentParser(QStringList, QObject *): the option that is always there.
abbrev pub help_option : OptionT
help_option = record {
  short_opt = 0;
  long_opt = help_text;
  arg = no_argument;
  argument = none;
  callback = help_callback;
}

unfoldable pub argument_parser : List OptionT
argument_parser = register_option help_option []

-- The two searches: the first option with the long or the short name.
unfoldable pub find_long : List ℕ → List OptionT → Option OptionT
find_long name [] = none
find_long name (o ∷ os) = if bytes_eq o.long_opt name then some o else find_long name os

unfoldable pub find_short : ℕ → List OptionT → Option OptionT
find_short name [] = none
find_short name (o ∷ os) = if o.short_opt == name then some o else find_short name os

-- QCharRef: past the end of a text stands 0.
abbrev pub char_at : List ℕ → ℕ → ℕ
char_at text i = get_or text i 0

unfoldable pub matching : List OptionT → List ℕ → Option OptionT
matching options opt =
    if char_at opt 0 == dash
    then if char_at opt 1 == dash
      then find_long (drop 2 opt) options
      else if length opt == 2
      then find_short (char_at opt 1) options
      else none
    else none

-- `*matching->argument = arg` and the callback, unless something was invalid before.
abbrev is_help : Callback → Bool
is_help help_callback = true
is_help _ = false

unfoldable pub apply_option : OptionT → List ℕ → State → State
apply_option o value st = if st.invalid then st else record st {
  callback_called = st.callback_called || is_help o.callback;
  effects = st.effects ++ record { option = o; value = value } ∷ [];
}

abbrev invalidated : State → State
invalidated st = record st { invalid = true }

-- What stands behind an option, and the state: the argument is taken if there is one that does not
-- begin with a dash.
unfoldable pub take_argument : ArgumentReq → OptionT → List (List ℕ) → State → List (List ℕ) × State
take_argument no_argument o rest st = (rest, apply_option o set_text st)
take_argument optional_argument o [] st = ([], apply_option o set_text st)
take_argument optional_argument o (next ∷ rest) st =
    if char_at next 0 == dash
    then (next ∷ rest, apply_option o set_text st)
    else (rest, apply_option o next st)
take_argument required_argument o [] st = ([], invalidated st)
take_argument required_argument o (next ∷ rest) st =
    if char_at next 0 == dash then (next ∷ rest, invalidated st) else (rest, apply_option o next st)

unfoldable pub on_option : Option OptionT → List (List ℕ) → State → List (List ℕ) × State
on_option none rest st = (rest, invalidated st)
on_option (some o) rest st = take_argument o.arg o rest st

-- After the loop: an invalid line prints the help.
unfoldable pub finish : State → Result
finish st =
    let called = st.callback_called || st.invalid in
    record { value = not called; state = record st { callback_called = called } }

-- The loop of parse over what stands behind the iterator; `none` is the end of the fuel.
unfoldable pub parse_loop : List OptionT → ℕ → List (List ℕ) → State → Option Result
parse_loop options zero args st = none
parse_loop options (suc fuel) [] st = some (finish st)
parse_loop options (suc fuel) (opt ∷ rest) st =
    let (rest', st') = on_option (matching options opt) rest st in
    let later = parse_loop options fuel rest' st' in
    if bytes_eq opt dashes then some (record { value = true; state = st }) else later

abbrev pub initial : State
initial = record { invalid = false; callback_called = false; effects = [] }

-- parse, of the arguments behind the program's name.
unfoldable pub parse : List OptionT → List (List ℕ) → Option Result
parse options args = parse_loop options (suc (length args)) args initial
