-- ===== src/Examples/Options.antt =====
-- The command line of a program with three options.
use sparkle.Prelude.{◌≡◌, refl, ◌⊎◌, false, not, List, [], ◌∷◌, none, some, All, map}
use mathlib.Core.List.{Memᴰ}
use sparkle.ArgumentParser.{
  no_argument, optional_argument, required_argument, callback_of, no_callback, OptionT, Result,
  dashes, argument_parser, register_option, matching, find_long, find_short, parse,
}
use sparkle.ArgumentParser.CommandLine.{
  Item, IsItem, flag, bare, required, render, effect_of, asks_help, parse-render,
}
use sparkle.ArgumentParser.Totality.{IsRegistered, parse-ends}

-- -c, --port and -p, each with an argument of another kind.
abbrev create : OptionT
create = record {
  short_opt = 99;
  long_opt = [];
  arg = no_argument;
  argument = none;
  callback = callback_of 1;
}

abbrev port : OptionT
port = record {
  short_opt = 0;
  long_opt = 112 ∷ 111 ∷ 114 ∷ 116 ∷ [];
  arg = required_argument;
  argument = some 1;
  callback = no_callback;
}

abbrev profile : OptionT
profile = record {
  short_opt = 112;
  long_opt = [];
  arg = optional_argument;
  argument = some 2;
  callback = no_callback;
}

abbrev options : List OptionT
unfolding argument_parser register_option
options = register_option profile (register_option port (register_option create argument_parser))

-- -c --port 18 -p
abbrev items : List Item
items =
    record { name = 45 ∷ 99 ∷ []; option = create; value = none }
    ∷ record {
      name = 45 ∷ 45 ∷ 112 ∷ 111 ∷ 114 ∷ 116 ∷ [];
      option = port;
      value = some (49 ∷ 56 ∷ []);
    }
    ∷ record { name = 45 ∷ 112 ∷ []; option = profile; value = none }
    ∷ []

items-IsItem : All (IsItem options) items
unfolding matching find_long find_short argument_parser register_option
items-IsItem = (
  record { known = refl; not_dashes = refl; fits = flag },
  (
    record { known = refl; not_dashes = refl; fits = required (49 ∷ 56 ∷ []) refl },
    (record { known = refl; not_dashes = refl; fits = bare }, tt),
  ),
)

parse-render_example :
    parse options (render items)
    ≡ some (record {
      value = not (asks_help items);
      state = record {
        invalid = false;
        callback_called = asks_help items;
        effects = map effect_of items;
      };
    })
parse-render_example = parse-render options items items-IsItem

parse-ends_example :
    (r : Result) × (parse options ((45 ∷ 120 ∷ []) ∷ (45 ∷ 45 ∷ []) ∷ []) ≡ some r)
    × ((r.value ≡ not r.state.callback_called)
        ⊎ Memᴰ dashes ((45 ∷ 120 ∷ []) ∷ (45 ∷ 45 ∷ []) ∷ []))
    × All (IsRegistered options) r.state.effects
parse-ends_example = parse-ends options ((45 ∷ 120 ∷ []) ∷ (45 ∷ 45 ∷ []) ∷ [])
