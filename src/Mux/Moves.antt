-- ===== src/Mux/Moves.antt =====
-- What the loop over an event's usages does to one usage: each usage moves by its own event only.
use Prim.Native.String.{String}
use text.Mathlib.Text.{◌==◌}
use neio_agent.Prelude
use neio_agent.Prelude.{
  ℕ, zero, suc, ◌≡◌, ◌≢◌, refl, sym, ap, ◌∙◌, Bool, true, false, not, ◌&&◌, ◌||◌, Option, none,
  some, List, [], ◌∷◌, ◌++◌, if◌then◌else◌, Map, insert, delete, arith, Bool-cases, Option-cases,
  inl, inr, ==_iff, ==_of_eq, get_elem?,
}
use mathlib.Core.Path.{subst}
use neio_agent.Event.{UsageEvent}
use neio_agent.Prelude.{member}
use neio_agent.Event.Activations.{activation_in, activation_in_absent, Distinct}
use neio_agent.Mux.Events.{
  Handled, other_route, deactivate_on, suppress_on, handle_activation, handle_usages,
}

-- What the activation of a usage does to the map's entry for it.
abbrev pub new_route : String → Option String → Option Bool → Option String
new_route current prev none = prev
new_route current prev (some true) = some current
new_route current prev (some false) = none

abbrev pub is_route : String → Option String → Bool
is_route r none = false
is_route r (some prev) = r == prev

abbrev pub any_route : Option String → Bool
any_route none = false
any_route (some prev) = true

abbrev pub is_any : Option Bool → Bool
is_any none = false
is_any (some b) = true

abbrev pub is_off : Option Bool → Bool
is_off none = false
is_off (some b) = not b

-- From `h` to `h'` a usage with the activation `a` is handled.
pub record Moves (current : String) (u : ℕ) (a : Option Bool) (h h' : Handled) : Type 0 where
  pub route : h'.activated_usages u ≡ new_route current (h.activated_usages u) a
  pub deactivated :
      (r : String)
      → member u (h'.deactivated r) ≡ (
          member u (h.deactivated r)
          || (is_any a && is_route r (other_route current (h.activated_usages u))))
  pub suppressed : member u h'.suppressed ≡ (
      member u h.suppressed || (is_off a && any_route (other_route current (h.activated_usages u))))

member-append :
    (u v : ℕ) (xs : List ℕ) → member u (xs ++ (v ∷ [])) ≡ (member u xs || Prelude.◌==◌ u v)
member-append u v [] = ground arith
member-append u v (x ∷ xs) = ground (arith, member-append u v xs)

or_false : (b : Bool) → b ≡ (b || false)
or_false true = refl
or_false false = refl

member-deactivate_on :
    (o : Option String) (u v : ℕ) (f : String → List ℕ) (r : String)
    → member u (deactivate_on o v f r) ≡ (member u (f r) || (is_route r o && Prelude.◌==◌ u v))
member-deactivate_on none u v f r = or_false _
member-deactivate_on (some p) u v f r = elim (Bool-cases (r == p)) [
  | inl e ↦ rw e (member-append u v (f r))
  | inr e ↦ rw e (or_false _)
]

member-suppress_on :
    (o : Option String) (u v : ℕ) (us : List ℕ)
    → member u (suppress_on o v us) ≡ (member u us || (any_route o && Prelude.◌==◌ u v))
member-suppress_on none u v us = or_false _
member-suppress_on (some p) u v us = member-append u v us

and_same : (b c : Bool) (u : ℕ) → (b || (c && Prelude.◌==◌ u u)) ≡ (b || c)
and_same b c u = ground arith

and_other :
    (b c : Bool) (u v : ℕ)
    → Prelude.◌==◌ u v ≡ false
    → (b || (c && Prelude.◌==◌ u v)) ≡ (b || false)
and_other b c u v h = ground (arith, h)

-- One usage event: what it does to its own usage, and to another.
handled_same :
    (current : String) (a : Option Bool) (u : ℕ) (h : Handled)
    → Moves current u a h (handle_activation current a u h)
handled_same current none u h = record {
  route = refl;
  deactivated = λ r. or_false _;
  suppressed = or_false _;
}
handled_same current (some true) u h =
    let o = other_route current (h.activated_usages u) in
    record {
      route = ground arith;
      deactivated = λ r.
          member-deactivate_on o u u h.deactivated r
          ∙ and_same (member u (h.deactivated r)) (is_route r o) u;
      suppressed = or_false _;
    }
handled_same current (some false) u h =
    let o = other_route current (h.activated_usages u) in
    record {
      route = ground arith;
      deactivated = λ r.
          member-deactivate_on o u u h.deactivated r
          ∙ and_same (member u (h.deactivated r)) (is_route r o) u;
      suppressed =
          member-suppress_on o u u h.suppressed ∙ and_same (member u h.suppressed) (any_route o) u;
    }

handled_other :
    (current : String) (a : Option Bool) (u v : ℕ) (h : Handled)
    → Prelude.◌==◌ u v ≡ false
    → Moves current u none h (handle_activation current a v h)
handled_other current none u v h ne = record {
  route = refl;
  deactivated = λ r. or_false _;
  suppressed = or_false _;
}
handled_other current (some true) u v h ne =
    let o = other_route current (h.activated_usages v) in
    record {
      route = rw ne refl;
      deactivated = λ r.
          member-deactivate_on o u v h.deactivated r
          ∙ and_other (member u (h.deactivated r)) (is_route r o) u v ne;
      suppressed = or_false _;
    }
handled_other current (some false) u v h ne =
    let o = other_route current (h.activated_usages v) in
    record {
      route = rw ne refl;
      deactivated = λ r.
          member-deactivate_on o u v h.deactivated r
          ∙ and_other (member u (h.deactivated r)) (is_route r o) u v ne;
      suppressed =
          member-suppress_on o u v h.suppressed
          ∙ and_other (member u h.suppressed) (any_route o) u v ne;
    }

after_none :
    (current : String) (u : ℕ) (a : Option Bool) (h h' h'' : Handled)
    → Moves current u a h h'
    → Moves current u none h' h''
    → Moves current u a h h''
after_none current u a h h' h'' m n = record {
  route = n.route ∙ m.route;
  deactivated = λ r. n.deactivated r ∙ sym (or_false _) ∙ m.deactivated r;
  suppressed = n.suppressed ∙ sym (or_false _) ∙ m.suppressed;
}

before_none :
    (current : String) (u : ℕ) (a : Option Bool) (h h' h'' : Handled)
    → Moves current u none h h'
    → Moves current u a h' h''
    → Moves current u a h h''
before_none current u a h h' h'' m n = record {
  route = n.route ∙ ap (λ p. new_route current p a) m.route;
  deactivated = λ r.
      n.deactivated r
      ∙ ap (λ p. member u (h'.deactivated r) || (is_any a && is_route r (other_route current p)))
          m.route
      ∙ ap (λ b. b || (is_any a && is_route r (other_route current (h.activated_usages u))))
          (m.deactivated r ∙ sym (or_false _));
  suppressed =
      n.suppressed
      ∙ ap (λ p. member u h'.suppressed || (is_off a && any_route (other_route current p))) m.route
      ∙ ap (λ b. b || (is_off a && any_route (other_route current (h.activated_usages u))))
          (m.suppressed ∙ sym (or_false _));
}

pub handle_usages-Moves :
    (current : String) (ds : List UsageEvent) (u : ℕ) (h : Handled)
    → Distinct ds
    → Moves current u (activation_in u ds) h (handle_usages current h ds)
unfolding handle_usages
handle_usages-Moves current [] u h w = record {
  route = refl;
  deactivated = λ r. or_false _;
  suppressed = or_false _;
}
handle_usages-Moves current (d ∷ ds) u h (once, w) =
    let h' = handle_activation current d.activate d.usage h in
    let h'' = handle_usages current h' ds in
    let rest = handle_usages-Moves current ds u h' w in
    elim (Bool-cases (Prelude.◌==◌ d.usage u)) [
      | inl eq ↦
          let p : d.usage ≡ u = (==_iff _ _).0 eq in
          let absent : activation_in u ds ≡ none =
            ap (λ v. activation_in v ds) (sym p) ∙ activation_in_absent d.usage ds once in
          let first : Moves current u d.activate h h' =
            subst (λ v. Moves current u d.activate h (handle_activation current d.activate v h))
              (sym p) (handled_same current d.activate u h) in
          rw eq (
            after_none current u d.activate h h' h'' first
              (subst (λ a. Moves current u a h' h'') absent rest))
      | inr ne ↦
          let ne' : Prelude.◌==◌ u d.usage ≡ false = ground (arith, ne) in
          rw ne (
            before_none current u (activation_in u ds) h h' h''
              (handled_other current d.activate u d.usage h ne') rest)
    ]
