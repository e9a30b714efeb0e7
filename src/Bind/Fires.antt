-- ===== src/Bind/Fires.antt =====
-- components/nodes/bind.go: what one mapping does with an event, and which finalizers stay open.
use mathlib.Core.Option
use neio_agent.Prelude.{
  ℕ, ◌≡◌, ◌≢◌, refl, sym, ap, ◌∙◌, Bool, true, false, some, List, [], ◌∷◌, if◌then◌else◌, ◌==◌,
  arith, Bool-cases, inl, inr, ==_refl,
}
use neio_agent.Event.{Event}
use neio_agent.Event.Index.{IsIndexed}
use neio_agent.Bind.{
  Checked, BindItem, Call, handler_called, finalizer_called, Actions, Triggered, fire,
  trigger_mapping,
}
use neio_agent.Bind.Triggers.{IsTrigger, is_held, Checks, check-Checks}

-- The latest call for a mapping returned a finalizer that has not been called.
abbrev pub is_open : ℕ → List Call → Bool
is_open i [] = false
is_open i (handler_called j fin ∷ calls) = if i == j then fin else is_open i calls
is_open i (finalizer_called j ∷ calls) = if i == j then false else is_open i calls

-- No handler is called while a finalizer of its mapping is open, and no finalizer that is not.
abbrev pub IsBalanced : List Call → Type 0
IsBalanced [] = Unit
IsBalanced (handler_called i fin ∷ calls) = (is_open i calls ≡ false) × IsBalanced calls
IsBalanced (finalizer_called i ∷ calls) = (is_open i calls ≡ true) × IsBalanced calls

-- The state of the mapping at a place, against the calls so far.
pub record IsBoundItem (i : ℕ) (m : BindItem) (calls : List Call) : Type 0 where
  pub trigger : IsTrigger m.trigger
  pub state : m.triggered ≡ is_held m.trigger
  pub open_same : m.finalizer ≡ is_open i calls
  pub only_triggered : m.triggered ≡ false → m.finalizer ≡ false

-- The actions keep an event well-formed and do not panic.
pub record IsSafe (acts : Actions) : Type 0 where
  pub handler_safe :
      (calls : List Call) (i : ℕ) (e : Event)
      → IsIndexed e
      → (e' : Event) × (fin : Bool) × (acts.handler calls i e ≡ some (e', fin)) × IsIndexed e'
  pub finalize_safe :
      (calls : List Call) (i : ℕ) (e : Event)
      → IsIndexed e
      → (e' : Event) × (acts.finalize calls i e ≡ some e') × IsIndexed e'

-- What becomes of the checked event. The handler is called where the trigger becomes active, and the
-- finalizer, if there is one, where it stops being so.
pub data Outcome (acts : Actions) (i : ℕ) (m : BindItem) (calls : List Call) (c : Checked)
    (t : Triggered) : Type 0 where
  kept : c.active ≡ m.triggered → t.event ≡ c.event → t.calls ≡ calls → Outcome acts i m calls c t
  started :
      (fin : Bool)
      → c.active ≡ true
      → m.triggered ≡ false
      → acts.handler calls i c.event ≡ some (t.event, fin)
      → t.calls ≡ handler_called i fin ∷ calls
      → Outcome acts i m calls c t
  ended :
      c.active ≡ false
      → m.triggered ≡ true
      → m.finalizer ≡ true
      → acts.finalize calls i c.event ≡ some t.event
      → t.calls ≡ finalizer_called i ∷ calls
      → Outcome acts i m calls c t
  ended_alone :
      c.active ≡ false
      → m.triggered ≡ true
      → m.finalizer ≡ false
      → t.event ≡ c.event
      → t.calls ≡ calls
      → Outcome acts i m calls c t

-- What one mapping does: its trigger counts the activations of the event, and the event goes on.
pub record Fires (acts : Actions) (i : ℕ) (m : BindItem) (calls : List Call) (e : Event)
    (t : Triggered) : Type 0 where
  pub checked : Checked
  pub checks : Checks m.trigger e checked
  pub trigger_same : t.item.trigger ≡ checked.trigger
  pub outcome : Outcome acts i m calls checked t
  pub bound : IsBoundItem i t.item t.calls
  pub balanced : IsBalanced t.calls
  pub indexed : IsIndexed t.event
  pub others : (j : ℕ) → j ≢ i → is_open j t.calls ≡ is_open j calls

module _ (acts : Actions) (safe : IsSafe acts) (i : ℕ) (m : BindItem) (calls : List Call)
    (bound : IsBoundItem i m calls) (balanced : IsBalanced calls) where
  -- The mapping fires, and what that leaves.
  abbrev FiresOn : Event → Checked → Type 0
  FiresOn e c = (t : Triggered) × (fire acts i m calls c ≡ some t) × Fires acts i m calls e t

  -- The trigger is as it was before.
  fire_kept :
      (e : Event) (c : Checked) → Checks m.trigger e c → c.active ≡ m.triggered → FiresOn e c
  fire_kept e c k same = (
    record { item = record m { trigger = c.trigger }; event = c.event; calls = calls },
    elim (Bool-cases m.triggered) [
      | inl was ↦ rw (same, was) refl
      | inr idle ↦ rw (same, idle) refl
    ],
    record {
      checked = c;
      checks = k;
      trigger_same = refl;
      outcome = kept same refl refl;
      bound = record {
        trigger = k.trigger;
        state = sym same ∙ k.active;
        open_same = bound.open_same;
        only_triggered = bound.only_triggered;
      };
      balanced = balanced;
      indexed = k.indexed;
      others = λ j ne. refl;
    },
  )

  fire_started :
      (e : Event) (c : Checked)
      → Checks m.trigger e c
      → c.active ≡ true
      → m.triggered ≡ false
      → FiresOn e c
  fire_started e c k on idle =
      let (e', fin, ran, w) = safe.handler_safe calls i c.event k.indexed in
      (
        record {
          item = record { trigger = c.trigger; triggered = true; finalizer = fin };
          event = e';
          calls = handler_called i fin ∷ calls;
        },
        rw (on, idle) (ap (Option.map _) ran),
        record {
          checked = c;
          checks = k;
          trigger_same = refl;
          outcome = started fin on idle ran refl;
          bound = record {
            trigger = k.trigger;
            state = sym on ∙ k.active;
            open_same = rw (==_refl i) refl;
            only_triggered = λ q. absurd (ground arith);
          };
          balanced = (sym bound.open_same ∙ bound.only_triggered idle, balanced);
          indexed = w;
          others = λ j ne. ground arith;
        },
      )

  fire_ended :
      (e : Event) (c : Checked)
      → Checks m.trigger e c
      → c.active ≡ false
      → m.triggered ≡ true
      → m.finalizer ≡ true
      → FiresOn e c
  fire_ended e c k off was fin =
      let (e', ran, w) = safe.finalize_safe calls i c.event k.indexed in
      (
        record {
          item = record { trigger = c.trigger; triggered = false; finalizer = false };
          event = e';
          calls = finalizer_called i ∷ calls;
        },
        rw (off, was, fin) (ap (Option.map _) ran),
        record {
          checked = c;
          checks = k;
          trigger_same = refl;
          outcome = ended off was fin ran refl;
          bound = record {
            trigger = k.trigger;
            state = sym off ∙ k.active;
            open_same = rw (==_refl i) refl;
            only_triggered = λ q. refl;
          };
          balanced = (sym bound.open_same ∙ fin, balanced);
          indexed = w;
          others = λ j ne. ground arith;
        },
      )

  -- There is no finalizer to call.
  fire_ended_alone :
      (e : Event) (c : Checked)
      → Checks m.trigger e c
      → c.active ≡ false
      → m.triggered ≡ true
      → m.finalizer ≡ false
      → FiresOn e c
  fire_ended_alone e c k off was nofin = (
    record {
      item = record { trigger = c.trigger; triggered = false; finalizer = false };
      event = c.event;
      calls = calls;
    },
    rw (off, was, nofin) refl,
    record {
      checked = c;
      checks = k;
      trigger_same = refl;
      outcome = ended_alone off was nofin refl refl;
      bound = record {
        trigger = k.trigger;
        state = sym off ∙ k.active;
        open_same = sym nofin ∙ bound.open_same;
        only_triggered = λ q. refl;
      };
      balanced = balanced;
      indexed = k.indexed;
      others = λ j ne. refl;
    },
  )

  fire-Fires : (e : Event) (c : Checked) → Checks m.trigger e c → FiresOn e c
  fire-Fires e c k = elim (Bool-cases c.active) [
    | inl on ↦ elim (Bool-cases m.triggered) [
      | inl was ↦ fire_kept e c k (on ∙ sym was)
      | inr idle ↦ fire_started e c k on idle
    ]
    | inr off ↦ elim (Bool-cases m.triggered) [
      | inr idle ↦ fire_kept e c k (off ∙ sym idle)
      | inl was ↦ elim (Bool-cases m.finalizer) [
        | inl fin ↦ fire_ended e c k off was fin
        | inr nofin ↦ fire_ended_alone e c k off was nofin
      ]
    ]
  ]

  pub trigger_mapping-Fires :
      (e : Event)
      → IsIndexed e
      → (t : Triggered) × (trigger_mapping acts i m calls e ≡ some t) × Fires acts i m calls e t
  unfolding trigger_mapping Option.bind
  trigger_mapping-Fires e w =
      let (c, ran, k) = check-Checks m.trigger e bound.trigger w in
      let (t, fired, f) = fire-Fires e c k in (t, rw ran fired, f)
