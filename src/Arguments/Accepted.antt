-- ===== src/Arguments/Accepted.antt =====
-- flowapi/arguments.go: which arguments a declaration accepts.
use Prim.Native.String.{String}
use text.Mathlib.Text.{◌==◌}
use text.Mathlib.TextEquality.{eq_iff}
use neio_agent.Prelude.{
  is_some, ℕ, suc, ◌≡◌, ◌≤◌, ◌↔◌, inl, inr, refl, ap, sym, ◌∙◌, Bool, false, true, ◌||◌, Option,
  none, some, List, [], ◌∷◌, ltb, length, arith, Bool-cases,
}
use neio_agent.Arguments.{
  Value, Argument, Parameter, Arguments, Result, ok, error, panic, is_null, value_is_null,
  ArgumentsError, should_be, check_value, check_field, check_type, and_then, check_arguments,
  required_params, new_arguments, name_places,
}

-- The argument can stand for a parameter of the type that is named. A null stands for no action and
-- for no signal.
pub data HasType {ℓ} {E : Type ℓ} (a : Argument E) : String → Type ℓ where
  a_string : (v : Value) (s : String) → a.value ≡ some v → v.string ≡ some s → HasType a "string"
  a_number : (v : Value) (n : String) → a.value ≡ some v → v.number ≡ some n → HasType a "number"
  a_boolean : (v : Value) (b : Bool) → a.value ≡ some v → v.boolean ≡ some b → HasType a "boolean"
  a_duration : (d : ℕ) → a.duration ≡ some d → HasType a "Duration"
  an_action : (is_some a.expr || is_some a.usage) ≡ true → HasType a "Action"
  no_action : (v : Value) → a.value ≡ some v → is_null v ≡ true → HasType a "Action"
  a_signal : is_some a.expr ≡ true → HasType a "Signal"
  no_signal : (v : Value) → a.value ≡ some v → is_null v ≡ true → HasType a "Signal"
  a_usage : is_some a.usage ≡ true → HasType a "Usage"
  anything : HasType a "any"

pub is_some-some {ℓ} : {A : Type ℓ} (o : Option A) → is_some o ≡ true → (x : A) × (o ≡ some x)
is_some-some none h = ground arith
is_some-some (some x) h = (x, refl)

check_type-ok {ℓ} :
    {E : Type ℓ} (i : ℕ) (n t : String) (a : Argument E) → HasType a t → check_type i n t a ≡ ok tt
check_type-ok i n t a (a_string v s h g) = rw h (rw g refl)
check_type-ok i n t a (a_number v s h g) = rw h (rw g refl)
check_type-ok i n t a (a_boolean v s h g) = rw h (rw g refl)
check_type-ok i n t a (a_duration d h) = rw h refl
check_type-ok i n t a (an_action h) = ground (arith, h)
check_type-ok i n t a (no_action v h g) = ground (arith, h, g)
check_type-ok i n t a (a_signal h) = ground (arith, h)
check_type-ok i n t a (no_signal v h g) = ground (arith, h, g)
check_type-ok i n t a (a_usage h) = rw h refl
check_type-ok i n t a anything = refl

check_value-ok :
    (o : Option Value) (test : Value → Bool) (e : ArgumentsError)
    → check_value o test e ≡ ok tt
    → (v : Value) × (o ≡ some v) × (test v ≡ true)
check_value-ok none test e h = ground arith
check_value-ok (some v) test e h = (v, refl, ground arith)

check_field-ok : (b : Bool) (e : ArgumentsError) → check_field b e ≡ ok tt → b ≡ true
check_field-ok b e h = ground arith

null_value :
    (o : Option Value) → value_is_null o ≡ true → (v : Value) × (o ≡ some v) × (is_null v ≡ true)
null_value none h = ground arith
null_value (some v) h = (v, refl, h)

module _ {ℓ} {E : Type ℓ} (i : ℕ) (n : String) (a : Argument E) where
  abbrev Passes : String → Type 0
  Passes t = check_type i n t a ≡ ok tt

  string-HasType : Passes "string" → HasType a "string"
  string-HasType h =
      let (v, there, has) =
        check_value-ok a.value (λ v. is_some v.string) (should_be i "string") h in
      let (s, is) = is_some-some v.string has in a_string v s there is

  number-HasType : Passes "number" → HasType a "number"
  number-HasType h =
      let (v, there, has) =
        check_value-ok a.value (λ v. is_some v.number) (should_be i "number") h in
      let (s, is) = is_some-some v.number has in a_number v s there is

  boolean-HasType : Passes "boolean" → HasType a "boolean"
  boolean-HasType h =
      let (v, there, has) =
        check_value-ok a.value (λ v. is_some v.boolean) (should_be i "boolean") h in
      let (b, is) = is_some-some v.boolean has in a_boolean v b there is

  duration-HasType : Passes "Duration" → HasType a "Duration"
  duration-HasType h =
      let (d, is) = is_some-some a.duration (check_field-ok _ (should_be i "Duration") h) in
      a_duration d is

  action-HasType : Passes "Action" → HasType a "Action"
  action-HasType h = elim (Bool-cases (is_some a.expr || is_some a.usage)) [
    | inl e ↦ an_action e
    | inr e ↦
        let (v, there, null) =
          null_value a.value (ground (arith, check_field-ok _ (should_be i "Action") h)) in
        no_action v there null
  ]

  signal-HasType : Passes "Signal" → HasType a "Signal"
  signal-HasType h = elim (Bool-cases (is_some a.expr)) [
    | inl e ↦ a_signal e
    | inr e ↦
        let (v, there, null) =
          null_value a.value (ground (arith, check_field-ok _ (should_be i "Signal") h)) in
        no_signal v there null
  ]

  or_name :
      (t s : String)
      → (Passes s → HasType a s)
      → ((t == s) ≡ false → Passes t → HasType a t)
      → Passes t
      → HasType a t
  or_name t s f g h = elim (Bool-cases (t == s)) [
    | inl same ↦
        let is : t ≡ s = (eq_iff t s).0 same in
        rw is (f (sym (ap (λ t. check_type i n t a) is) ∙ h))
    | inr other ↦ g other h
  ]

  check_type-HasType : (t : String) → Passes t → HasType a t
  check_type-HasType t = or_name t "string" string-HasType (λ e1.
      or_name t "number" number-HasType (λ e2. or_name t "boolean" boolean-HasType (λ e3.
        or_name t "Duration" duration-HasType (λ e4. or_name t "Action" action-HasType (λ e5.
          or_name t "Signal" signal-HasType (λ e6.
            or_name t "Usage" (λ q. a_usage (check_field-ok _ (should_be i "Usage") q))
              (λ e7.
                or_name t "any" (λ q. anything)
                  (λ e8 h. absurd (ground (arith, h, e1, e2, e3, e4, e5, e6, e7, e8))))))))))

-- Each argument has the type of its parameter, there is a parameter for each, and the parameters
-- without one have a default.
pub data Fits {ℓ} {E : Type ℓ} : List Parameter → List (Argument E) → Type ℓ where
  none_left : Fits [] []
  by_default :
      (p : Parameter) (ps : List Parameter)
      → is_some p.default ≡ true
      → Fits ps []
      → Fits (p ∷ ps) []
  given :
      (p : Parameter) (ps : List Parameter) (a : Argument E) (args : List (Argument E))
      → HasType a p.type
      → Fits ps args
      → Fits (p ∷ ps) (a ∷ args)

and_then-ok {ℓ} :
    {B : Type ℓ} (r : Result (Unit {0})) (s : Result B) (b : B)
    → and_then r s ≡ ok b
    → (r ≡ ok tt) × (s ≡ ok b)
and_then-ok (ok u) s b h = (refl, h)
and_then-ok (error e) s b h = ground arith
and_then-ok panic s b h = ground arith

no_more : (m n : ℕ) → ltb m n ≡ false → n ≤ m
no_more m n h = ground (arith, h)

ok_inj {ℓ} : {A : Type ℓ} {a b : A} → ok a ≡ ok b → a ≡ b
ok_inj {a = a} h = ap (λ r. elim r [ ok x ↦ x | _ ↦ a ]) h

module _ {ℓ} {E : Type ℓ} where
  check_arguments_ok-Fits :
      (i : ℕ) (ps : List Parameter) (args : List (Argument E))
      → check_arguments i ps args ≡ ok tt
      → length args ≤ length ps
      → Fits ps args
  unfolding check_arguments
  check_arguments_ok-Fits i [] [] h le = none_left
  check_arguments_ok-Fits i [] (a ∷ args) h le = absurd (omega arith)
  check_arguments_ok-Fits i (p ∷ ps) [] h le = elim (Bool-cases (is_some p.default)) [
    | inl e ↦
        by_default p ps e
          (check_arguments_ok-Fits (suc i) ps [] (ground (arith, h, e)) (omega arith))
    | inr e ↦ absurd (ground (arith, h, e))
  ]
  check_arguments_ok-Fits i (p ∷ ps) (a ∷ args) h le =
      let (first, rest) = and_then-ok (check_type i p.name p.type a) _ tt h in
      given p ps a args (check_type-HasType i p.name a p.type first)
        (check_arguments_ok-Fits (suc i) ps args rest (omega arith))

  check_arguments-Fits :
      (i : ℕ) (ps : List Parameter) (args : List (Argument E))
      → Fits ps args
      → (check_arguments i ps args ≡ ok tt)
        × (length args ≤ length ps)
        × (required_params ps ≤ length args)
  unfolding check_arguments
  check_arguments-Fits i [] [] none_left = (refl, omega arith, omega arith)
  check_arguments-Fits i [] (a ∷ args) f = elim f [ ]
  check_arguments-Fits i (p ∷ ps) [] (by_default _ _ d f) =
      let (run, le, req) = check_arguments-Fits (suc i) ps [] f in (rw d run, omega arith, rw d req)
  check_arguments-Fits i (p ∷ ps) (a ∷ args) (given _ _ _ _ t f) =
      let (run, le, req) = check_arguments-Fits (suc i) ps args f in
      (rw (check_type-ok i p.name p.type a t) run, omega arith, ground arith)

  -- The arguments as they are stored.
  abbrev pub stored : List Parameter → List (Argument E) → Arguments E
  stored ps args = record {
    parameters = ps;
    arguments = args;
    name_map = name_places 0 ps (λ n. none);
  }

  counted :
      (ps : List Parameter) (args : List (Argument E))
      → ltb (length args) (required_params ps) ≡ false
      → ltb (length ps) (length args) ≡ false
      → new_arguments ps args ≡ and_then (check_arguments 0 ps args) (ok (stored ps args))
  unfolding new_arguments
  counted ps args e e' = rw e (rw e' refl)

  pub new_arguments-ok :
      (ps : List Parameter) (args : List (Argument E)) (r : Arguments E)
      → new_arguments ps args ≡ ok r
      → (r ≡ stored ps args) × Fits ps args
  unfolding new_arguments
  new_arguments-ok ps args r h = elim (Bool-cases (ltb (length args) (required_params ps))) [
    | inl few ↦ absurd (ground (arith, h, few))
    | inr e ↦ elim (Bool-cases (ltb (length ps) (length args))) [
      | inl many ↦ absurd (ground (arith, h, e, many))
      | inr e' ↦
          let (run, same) =
            and_then-ok (check_arguments 0 ps args) _ r (sym (counted ps args e e') ∙ h) in
          (
            sym (ok_inj same),
            check_arguments_ok-Fits 0 ps args run (no_more (length ps) (length args) e'),
          )
    ]
  ]

  -- NewArguments accepts the arguments exactly when there is a parameter for each, each has the type
  -- of its parameter, and each parameter without an argument has a default.
  pub new_arguments-Fits :
      (ps : List Parameter) (args : List (Argument E))
      → ((r : Arguments E) × (new_arguments ps args ≡ ok r)) ↔ Fits ps args
  unfolding new_arguments
  new_arguments-Fits ps args = (
    λ (r, h). (new_arguments-ok ps args r h).1,
    λ f.
        let (run, le, req) = check_arguments-Fits 0 ps args f in
        (stored ps args, counted ps args (ground (arith, req)) (ground (arith, le)) ∙ rw run refl),
  )
