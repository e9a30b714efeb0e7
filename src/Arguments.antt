-- ===== src/Arguments.antt =====
-- flowapi/arguments.go: the arguments of an action or a signal, checked against the parameters of its
-- declaration, and read by name. The data are those of flowapi/flowdsl/parser.go. An expression among
-- the arguments is only passed on, so its type `E` is a parameter.
pub mod Accepted
pub mod Named
mod Tests
use Prim.Native.String.{String}
use text.Mathlib.Text.{◌==◌}
use neio_agent.Prelude.{
  is_some, ℕ, suc, ◌≡◌, Bool, false, true, ◌||◌, Option, none, some, List, [], ◌∷◌, if◌then◌else◌,
  ltb, length, get_elem?,
}
use mathlib.Core.Option

abbrev pub some_or {ℓ} : {A : Type ℓ} → Option A → A → A
some_or none d = d
some_or (some a) d = a

-- A number is the text of its literal. A null is a value that has nothing else.
pub record Value : Type 0 where
  pub string : Option String
  pub number : Option String
  pub boolean : Option Bool

abbrev pub no_value : Value
no_value = record { string = none; number = none; boolean = none }

abbrev pub is_null : Value → Bool
is_null v = if is_some v.string || is_some v.number || is_some v.boolean then false else true

-- The value is the bit pattern of an int32.
pub record UsageStatement : Type 0 where
  pub usage : String
  pub value : ℕ
  pub usages : List String

-- A duration is a number of nanoseconds; the grammar has no sign.
pub record Argument {ℓ} (E : Type ℓ) : Type ℓ where
  pub usage : Option UsageStatement
  pub expr : Option E
  pub duration : Option ℕ
  pub value : Option Value

pub record ParameterValue : Type 0 where
  pub duration : Option ℕ
  pub value : Option Value

pub record Parameter : Type 0 where
  pub name : String
  pub type : String
  pub default : Option ParameterValue

-- The errors with the values in their messages.
pub data ArgumentsError : Type 0 where
  not_enough too_many : ℕ → ℕ → ArgumentsError
  missing_argument : String → ArgumentsError
  should_be : ℕ → String → ArgumentsError
  unsupported_type : String → String → ArgumentsError

-- A result, an error, or a run-time panic.
pub data Result {ℓ} (A : Type ℓ) : Type ℓ where
  ok : A → Result A
  error : ArgumentsError → Result A
  panic : Result A

pub record Arguments {ℓ} (E : Type ℓ) : Type ℓ where
  pub parameters : List Parameter
  pub arguments : List (Argument E)
  pub name_map : String → Option ℕ

-- The loop that fills `nameMap` from the place `i` on. A later parameter of the same name wins.
abbrev pub name_places : ℕ → List Parameter → (String → Option ℕ) → String → Option ℕ
name_places i [] m = m
name_places i (p ∷ ps) m = name_places (suc i) ps (λ n. if n == p.name then some i else m n)

abbrev pub required_params : List Parameter → ℕ
required_params [] = 0
required_params (p ∷ ps) =
    if is_some p.default then required_params ps else suc (required_params ps)

-- `arg.Value` is read without a test for nil.
abbrev pub check_value : Option Value → (Value → Bool) → ArgumentsError → Result (Unit {0})
check_value none test e = panic
check_value (some v) test e = if test v then ok tt else error e

abbrev pub check_field : Bool → ArgumentsError → Result (Unit {0})
check_field present e = if present then ok tt else error e

abbrev pub value_is_null : Option Value → Bool
value_is_null none = false
value_is_null (some v) = is_null v

-- The switch on the type of a parameter.
abbrev pub check_type {ℓ} : {E : Type ℓ} → ℕ → String → String → Argument E → Result (Unit {0})
check_type i n t a =
    if t == "string"
    then check_value a.value (λ v. is_some v.string) (should_be i t)
    else if t == "number"
    then check_value a.value (λ v. is_some v.number) (should_be i t)
    else if t == "boolean"
    then check_value a.value (λ v. is_some v.boolean) (should_be i t)
    else if t == "Duration"
    then check_field (is_some a.duration) (should_be i t)
    else if t == "Action"
    then check_field (is_some a.expr || is_some a.usage || value_is_null a.value) (should_be i t)
    else if t == "Signal"
    then check_field (is_some a.expr || value_is_null a.value) (should_be i t)
    else if t == "Usage"
    then check_field (is_some a.usage) (should_be i t)
    else if t == "any"
    then ok tt
    else error (unsupported_type t n)

abbrev pub and_then {ℓ κ} : {A : Type ℓ} {B : Type κ} → Result A → Result B → Result B
and_then (ok a) r = r
and_then (error e) r = error e
and_then panic r = panic

-- The loop over the parameters, from the place `i` on.
module _ {ℓ} {E : Type ℓ} where
  unfoldable pub check_arguments : ℕ → List Parameter → List (Argument E) → Result (Unit {0})
  check_arguments i [] args = ok tt
  check_arguments i (p ∷ ps) [] =
      if is_some p.default then check_arguments (suc i) ps [] else error (missing_argument p.name)
  check_arguments i (p ∷ ps) (a ∷ args) =
      and_then (check_type i p.name p.type a) (check_arguments (suc i) ps args)

unfoldable pub new_arguments {ℓ} :
    {E : Type ℓ} → List Parameter → List (Argument E) → Result (Arguments E)
unfolding check_arguments
new_arguments ps args =
    if ltb (length args) (required_params ps)
    then error (not_enough (length args) (required_params ps))
    else if ltb (length ps) (length args)
    then error (too_many (length args) (length ps))
    else and_then (check_arguments 0 ps args)
        (ok (record { parameters = ps; arguments = args; name_map = name_places 0 ps (λ n. none) }))

abbrev pub default_argument {ℓ} : {E : Type ℓ} → ParameterValue → Argument E
default_argument d = record { usage = none; expr = none; duration = d.duration; value = d.value }

-- The outer `none` is the panic of an index out of range, the inner one is nil.
abbrev pub argument_at {ℓ} : {E : Type ℓ} → Arguments E → ℕ → Option (Option (Argument E))
argument_at a i =
    if ltb i (length a.arguments)
    then Option.map some (get_elem? a.arguments i)
    else Option.map (λ p. Option.map default_argument p.default) (get_elem? a.parameters i)

abbrev pub at_place {ℓ} : {E : Type ℓ} → Arguments E → Option ℕ → Option (Option (Argument E))
at_place a none = some none
at_place a (some i) = argument_at a i

unfoldable pub argument_or_nil {ℓ} :
    {E : Type ℓ} → Arguments E → String → Option (Option (Argument E))
argument_or_nil a n = at_place a (a.name_map n)

abbrev pub empty_argument {ℓ} : {E : Type ℓ} → Argument E
empty_argument = record { usage = none; expr = none; duration = none; value = some no_value }

unfoldable pub argument {ℓ} : {E : Type ℓ} → Arguments E → String → Option (Argument E)
unfolding argument_or_nil
argument a n = Option.map (λ o. some_or o empty_argument) (argument_or_nil a n)

-- `String`, `Number`, `Duration` and `Boolean`, on the argument that they look up.
abbrev pub read_string {ℓ} : {E : Type ℓ} → Argument E → String
read_string a = elim a.value [ none ↦ "" | some v ↦ some_or v.string "" ]

abbrev pub read_number {ℓ} : {E : Type ℓ} → Argument E → String
read_number a = elim a.value [ none ↦ "0" | some v ↦ some_or v.number "0" ]

abbrev pub read_duration {ℓ} : {E : Type ℓ} → Argument E → ℕ
read_duration a = some_or a.duration 0

abbrev pub read_boolean {ℓ} : {E : Type ℓ} → Argument E → Bool
read_boolean a = elim a.value [ none ↦ false | some v ↦ some_or v.boolean false ]

unfoldable pub string {ℓ} : {E : Type ℓ} → Arguments E → String → Option String
unfolding argument
string a n = Option.map read_string (argument a n)

unfoldable pub number {ℓ} : {E : Type ℓ} → Arguments E → String → Option String
unfolding argument
number a n = Option.map read_number (argument a n)

unfoldable pub duration {ℓ} : {E : Type ℓ} → Arguments E → String → Option ℕ
unfolding argument
duration a n = Option.map read_duration (argument a n)

unfoldable pub boolean {ℓ} : {E : Type ℓ} → Arguments E → String → Option Bool
unfolding argument
boolean a n = Option.map read_boolean (argument a n)

pub record Statement {ℓ} (E : Type ℓ) : Type ℓ where
  pub expr : Option E
  pub usage : Option UsageStatement

-- The two places where it returns nil, and the statement.
abbrev pub statement_of {ℓ} : {E : Type ℓ} → Option (Argument E) → Option (Statement E)
statement_of none = none
statement_of (some a) =
    if is_some a.expr || is_some a.usage
    then some (record { expr = a.expr; usage = a.usage })
    else none

unfoldable pub statement_or_nil {ℓ} :
    {E : Type ℓ} → Arguments E → String → Option (Option (Statement E))
unfolding argument_or_nil
statement_or_nil a n = Option.map statement_of (argument_or_nil a n)
