-- ===== src/Arguments/Named.antt =====
-- flowapi/arguments.go: what the accepted arguments give for a name.
use Prim.Native.String.{String}
use text.Mathlib.Text.{◌==◌}
use text.Mathlib.TextEquality.{eq_iff}
use mathlib.Core.Option
use neio_agent.Prelude.{
  is_some, ℕ, zero, suc, ◌+◌, ◌≡◌, ◌≢◌, ◌≤◌, ◌<◌, inl, inr, refl, ap, sym, ◌∙◌, Bool, false, true,
  ◌||◌, Option, none, some, List, [], ◌∷◌, if◌then◌else◌, ltb, length, get_elem?, arith, Bool-cases,
  lt→ltb, get_elem?-bound,
}
use neio_agent.Arguments.{
  Value, Argument, Parameter, ParameterValue, Arguments, ok, name_places, new_arguments,
  argument_at, at_place, argument_or_nil, default_argument, argument, string, number, duration,
  boolean, statement_or_nil,
}
use neio_agent.Arguments.Accepted.{
  HasType, is_some-some, Fits, by_default, given, stored, new_arguments-ok,
}

-- No parameter behind the place has the name.
abbrev pub IsLast : List Parameter → ℕ → String → Type 0
IsLast ps i n = (j : ℕ) (q : Parameter) → i < j → get_elem? ps j ≡ some q → q.name ≢ n

abbrev pub IsUnknown : List Parameter → String → Type 0
IsUnknown ps n = (j : ℕ) (q : Parameter) → get_elem? ps j ≡ some q → q.name ≢ n

other_name : (s t : String) → t ≢ s → (s == t) ≡ false
other_name s t ne = elim (Bool-cases (s == t)) [
  | inl e ↦ absurd (ne (sym ((eq_iff s t).0 e)))
  | inr e ↦ e
]

name_places-unknown :
    (k : ℕ) (ps : List Parameter) (m : String → Option ℕ) (n : String)
    → IsUnknown ps n
    → name_places k ps m n ≡ m n
name_places-unknown k [] m n h = refl
name_places-unknown k (p ∷ ps) m n h =
    name_places-unknown (suc k) ps _ n (λ j q at. h (suc j) q at)
    ∙ rw (other_name n p.name (h 0 p refl)) refl

name_places-last :
    (k i : ℕ) (ps : List Parameter) (m : String → Option ℕ) (p : Parameter)
    → get_elem? ps i ≡ some p
    → IsLast ps i p.name
    → name_places k ps m p.name ≡ some (k + i)
name_places-last k i [] m p at h = ground arith
name_places-last k zero (q ∷ ps) m p at h =
    let is : q ≡ p = Option.some_inj.0 at in
    name_places-unknown (suc k) ps _ p.name (λ j q at. h (suc j) q (omega arith) at)
    ∙ rw is (rw ((eq_iff p.name p.name).1 refl) (ap some (omega arith)))
name_places-last k (suc i) (q ∷ ps) m p at h =
    name_places-last (suc k) i ps _ p at (λ j q lt at. h (suc j) q (omega arith) at)
    ∙ ap some (omega arith)

not_below : (i n : ℕ) → n ≤ i → ltb i n ≡ false
not_below i n h = ground (arith, h)

module _ {ℓ} {E : Type ℓ} where
  Fits-given :
      (ps : List Parameter) (args : List (Argument E)) (i : ℕ) (p : Parameter) (a : Argument E)
      → Fits ps args
      → get_elem? ps i ≡ some p
      → get_elem? args i ≡ some a
      → HasType a p.type
  Fits-given [] args i p a f at there = ground arith
  Fits-given (q ∷ ps) [] i p a f at there = ground arith
  Fits-given (q ∷ ps) (b ∷ args) zero p a (given _ _ _ _ t f) at there =
      let is : q ≡ p = Option.some_inj.0 at in
      let is' : b ≡ a = Option.some_inj.0 there in rw (← is') (rw (← is) t)
  Fits-given (q ∷ ps) (b ∷ args) (suc i) p a (given _ _ _ _ t f) at there =
      Fits-given ps args i p a f at there

  Fits-default :
      (ps : List Parameter) (args : List (Argument E)) (i : ℕ) (p : Parameter)
      → Fits ps args
      → get_elem? ps i ≡ some p
      → length args ≤ i
      → is_some p.default ≡ true
  Fits-default [] args i p f at le = ground arith
  Fits-default (q ∷ ps) [] zero p (by_default _ _ d f) at le =
      let is : q ≡ p = Option.some_inj.0 at in sym (ap (λ c. is_some c.default) is) ∙ d
  Fits-default (q ∷ ps) [] (suc i) p (by_default _ _ d f) at le =
      Fits-default ps [] i p f at (omega arith)
  Fits-default (q ∷ ps) (b ∷ args) zero p f at le = absurd (omega (arith, le))
  Fits-default (q ∷ ps) (b ∷ args) (suc i) p (given _ _ _ _ t f) at le =
      Fits-default ps args i p f at (omega (arith, le))

  -- What the name stands for, and what the readers return for it.
  pub record Reads (r : Arguments E) (n : String) (a : Argument E) : Type ℓ where
    pub looked_up : argument_or_nil r n ≡ some (some a)
    pub string :
        (v : Value) (s : String) → a.value ≡ some v → v.string ≡ some s → string r n ≡ some s
    pub number :
        (v : Value) (s : String) → a.value ≡ some v → v.number ≡ some s → number r n ≡ some s
    pub boolean :
        (v : Value) (b : Bool) → a.value ≡ some v → v.boolean ≡ some b → boolean r n ≡ some b
    pub duration : (d : ℕ) → a.duration ≡ some d → duration r n ≡ some d
    pub statement :
        statement_or_nil r n
        ≡ some (
            if is_some a.expr || is_some a.usage
            then some (record { expr = a.expr; usage = a.usage })
            else none)

  looked_up-Reads :
      (r : Arguments E) (n : String) (a : Argument E)
      → argument_or_nil r n ≡ some (some a)
      → Reads r n a
  unfolding argument string number boolean duration statement_or_nil
  looked_up-Reads r n a h = record {
    looked_up = h;
    string = λ v s there is. rw h (ap some (rw there (rw is refl)));
    number = λ v s there is. rw h (ap some (rw there (rw is refl)));
    boolean = λ v b there is. rw h (ap some (rw there (rw is refl)));
    duration = λ d is. rw h (ap some (rw is refl));
    statement = rw h refl;
  }

  -- The answers for the names of the parameters, the last one of each name, and for other names.
  pub record Answers (ps : List Parameter) (args : List (Argument E)) (r : Arguments E)
      : Type ℓ where
    pub given :
        (i : ℕ) (p : Parameter) (a : Argument E)
        → get_elem? ps i ≡ some p
        → IsLast ps i p.name
        → get_elem? args i ≡ some a
        → HasType a p.type × Reads r p.name a
    pub defaulted :
        (i : ℕ) (p : Parameter)
        → get_elem? ps i ≡ some p
        → IsLast ps i p.name
        → length args ≤ i
        → (d : ParameterValue) × (p.default ≡ some d) × Reads r p.name (default_argument d)
    pub unknown : (n : String) → IsUnknown ps n → argument_or_nil r n ≡ some none

  named :
      (r : Arguments E) (n : String) (i : ℕ)
      → r.name_map n ≡ some i
      → argument_or_nil r n ≡ argument_at r i
  unfolding argument_or_nil
  named r n i h = ap (at_place r) h

  unnamed : (r : Arguments E) (n : String) → r.name_map n ≡ none → argument_or_nil r n ≡ some none
  unfolding argument_or_nil
  unnamed r n h = ap (at_place r) h

  argument_at-given :
      (r : Arguments E) (i : ℕ) (a : Argument E)
      → get_elem? r.arguments i ≡ some a
      → argument_at r i ≡ some (some a)
  argument_at-given r i a h =
      rw (lt→ltb i (length r.arguments) (get_elem?-bound r.arguments i a h)) (rw h refl)

  argument_at-default :
      (r : Arguments E) (i : ℕ) (p : Parameter) (d : ParameterValue)
      → length r.arguments ≤ i
      → get_elem? r.parameters i ≡ some p
      → p.default ≡ some d
      → argument_at r i ≡ some (some (default_argument d))
  argument_at-default r i p d le at is =
      rw (not_below i (length r.arguments) le) (rw at (rw is refl))

  stored-Answers :
      (ps : List Parameter) (args : List (Argument E))
      → Fits ps args
      → Answers ps args (stored ps args)
  stored-Answers ps args f = record {
    given = λ i p a at last there. (
      Fits-given ps args i p a f at there,
      looked_up-Reads (stored ps args) p.name a
          (place i p at last ∙ argument_at-given (stored ps args) i a there),
    );
    defaulted = λ i p at last le.
        let (d, is) = is_some-some p.default (Fits-default ps args i p f at le) in
        (
          d,
          is,
          looked_up-Reads (stored ps args) p.name (default_argument d)
              (place i p at last ∙ argument_at-default (stored ps args) i p d le at is),
        );
    unknown = λ n h. unnamed (stored ps args) n (name_places-unknown 0 ps (λ n. none) n h);
  }
    where
      place :
          (i : ℕ) (p : Parameter)
          → get_elem? ps i ≡ some p
          → IsLast ps i p.name
          → argument_or_nil (stored ps args) p.name ≡ argument_at (stored ps args) i
      place i p at last =
          named (stored ps args) p.name i
            (name_places-last 0 i ps (λ n. none) p at last ∙ ap some (omega arith))

  -- Where NewArguments accepts the arguments, the name of a parameter gives the argument at its place,
  -- which has its type, or its default where no argument is left. The readers return the text, the
  -- number, the Boolean, the duration or the statement that it has. Of several parameters with one
  -- name the last counts, and another name gives nil.
  pub new_arguments-Answers :
      (ps : List Parameter) (args : List (Argument E)) (r : Arguments E)
      → new_arguments ps args ≡ ok r
      → Answers ps args r
  new_arguments-Answers ps args r h =
      let (is, f) = new_arguments-ok ps args r h in rw is (stored-Answers ps args f)
