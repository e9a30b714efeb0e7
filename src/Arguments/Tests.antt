-- ===== src/Arguments/Tests.antt =====
-- flowapi/arguments.go on concrete declarations: tapHold(onHold: Action, delay: Duration = 250ms) and
-- char(sym: string).
use Prim.Native.String.{String}
use neio_agent.Prelude.{ℕ, ◌≡◌, ◌↔◌, refl, none, some, List, [], ◌∷◌}
use neio_agent.Arguments.{
  no_value, Argument, Parameter, Arguments, ok, error, panic, should_be, missing_argument, too_many,
  unsupported_type, new_arguments, check_arguments, duration, argument, argument_or_nil,
}
use neio_agent.Arguments.Accepted.{Fits, stored, new_arguments-Fits}
use neio_agent.Arguments.Named.{Answers, new_arguments-Answers}

-- The expressions are their texts.
abbrev Arg : Type 0
Arg = Argument String

abbrev on_hold : Parameter
on_hold = record { name = "onHold"; type = "Action"; default = none }

abbrev delay : Parameter
delay = record {
  name = "delay";
  type = "Duration";
  default = some (record { duration = some 250000000; value = none });
}

abbrev tap_hold : List Parameter
tap_hold = on_hold ∷ delay ∷ []

abbrev symbol : List Parameter
symbol = record { name = "sym"; type = "string"; default = none } ∷ []

abbrev expression : String → Arg
expression e = record { usage = none; expr = some e; duration = none; value = none }

abbrev a_time : ℕ → Arg
a_time d = record { usage = none; expr = none; duration = some d; value = none }

abbrev text : String → Arg
text s = record {
  usage = none;
  expr = none;
  duration = none;
  value = some (record no_value { string = some s });
}

abbrev held : List Arg
held = expression "none()" ∷ []

abbrev held_arguments : Arguments String
held_arguments = stored tap_hold held

held_accepted : new_arguments tap_hold held ≡ ok held_arguments
unfolding new_arguments check_arguments
held_accepted = refl

-- The default delay.
held_delay : duration held_arguments "delay" ≡ some 250000000
unfolding duration argument argument_or_nil
held_delay = refl

text_accepted : new_arguments symbol (text "x" ∷ []) ≡ ok (stored symbol (text "x" ∷ []))
unfolding new_arguments check_arguments
text_accepted = refl

-- A duration where a string is due.
duration_panics : new_arguments symbol (a_time 5 ∷ []) ≡ panic
unfolding new_arguments check_arguments
duration_panics = refl

refusals :
    (new_arguments tap_hold (a_time 5 ∷ []) ≡ error (should_be 0 "Action"))
    × (new_arguments symbol (text "x" ∷ text "y" ∷ []) ≡ error (too_many 2 1))
    × (new_arguments (delay ∷ symbol) (a_time 5 ∷ []) ≡ error (missing_argument "sym"))
    × (new_arguments (record delay { type = "duration" } ∷ []) (a_time 5 ∷ [])
        ≡ error (unsupported_type "duration" "delay"))
unfolding new_arguments check_arguments
refusals = (refl, refl, refl, refl)

new_arguments-Fits_example :
    ((r : Arguments String) × (new_arguments tap_hold held ≡ ok r)) ↔ Fits tap_hold held
new_arguments-Fits_example = new_arguments-Fits tap_hold held

held-Fits : Fits tap_hold held
held-Fits = new_arguments-Fits_example.0 (held_arguments, held_accepted)

new_arguments-Answers_example : Answers tap_hold held held_arguments
new_arguments-Answers_example = new_arguments-Answers tap_hold held held_arguments held_accepted
