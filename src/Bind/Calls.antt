-- ===== src/Bind/Calls.antt =====
-- components/nodes/bind.go: every finalizer that an action returns is called once, when the usages of
-- its trigger are no longer all pressed.
use mathlib.Core.Option
use mathlib.Core.Path.{subst}
use neio_agent.Prelude.{
  IsDistinct, length, get_elem?, zero, ◌+◌, ℕ, suc, ◌<◌, ◌≤◌, ◌≡◌, ◌≢◌, refl, sym, ap, ◌∙◌, false,
  some, List, [], ◌∷◌, arith, Bool-cases, inl, inr, All, map,
}
use neio_agent.Event.{Event, is_empty}
use neio_agent.Event.Index.{IsIndexed}
use neio_agent.Bind.{
  BindItem, Call, Actions, count_of, Bound, trigger_mappings, Ran, send, run, new_bind_item,
}
use neio_agent.Bind.Counters.{all_held}
use neio_agent.Bind.Trace.{
  Passes, through, next, Trace, quiet, handled, seen, seen_first, count_events, all_pressed,
  Trace-Counted, all_held_pressed, send-items,
}
use neio_agent.Bind.Fires.{is_open, IsBalanced, IsBoundItem, IsSafe, trigger_mapping-Fires}

abbrev pub IsBound : ℕ → List BindItem → List Call → Type 0
IsBound i [] calls = Unit
IsBound i (m ∷ ms) calls = IsBoundItem i m calls × IsBound (suc i) ms calls

-- The state of a mapping, and of those from a place on, depends on the calls for them only.
IsBoundItem-calls :
    (i : ℕ) (m : BindItem) (calls later : List Call)
    → is_open i later ≡ is_open i calls
    → IsBoundItem i m calls
    → IsBoundItem i m later
IsBoundItem-calls i m calls later same b = record {
  trigger = b.trigger;
  state = b.state;
  open_same = b.open_same ∙ sym same;
  only_triggered = b.only_triggered;
}

IsBound-calls :
    (i : ℕ) (ms : List BindItem) (calls later : List Call)
    → ((j : ℕ) → i ≤ j → is_open j later ≡ is_open j calls)
    → IsBound i ms calls
    → IsBound i ms later
IsBound-calls i [] calls later same b = tt
IsBound-calls i (m ∷ ms) calls later same (here, b) = (
  IsBoundItem-calls i m calls later (same i (omega arith)) here,
  IsBound-calls (suc i) ms calls later (λ j h. same j (omega arith)) b,
)

record Bounds (acts : Actions) (i : ℕ) (ms : List BindItem) (calls : List Call) (e : Event)
    (b : Bound) : Type 0 where
  passes : Passes acts i ms calls e b
  bound : IsBound i b.items b.calls
  balanced : IsBalanced b.calls
  indexed : IsIndexed b.event
  before : (j : ℕ) → j < i → is_open j b.calls ≡ is_open j calls

trigger_mappings-Bounds :
    (acts : Actions) (ms : List BindItem) (i : ℕ) (calls : List Call) (e : Event)
    → IsSafe acts
    → IsBound i ms calls
    → IsBalanced calls
    → IsIndexed e
    → (b : Bound) × (trigger_mappings acts i ms calls e ≡ some b) × Bounds acts i ms calls e b
unfolding trigger_mappings Option.bind
trigger_mappings-Bounds acts [] i calls e safe bound balanced w = (
  record { items = []; event = e; calls = calls },
  refl,
  record {
    passes = through i calls e;
    bound = tt;
    balanced = balanced;
    indexed = w;
    before = λ j h. refl;
  },
)
trigger_mappings-Bounds acts (m ∷ ms) i calls e safe (here, bound) balanced w =
    let (t, ran, f) = trigger_mapping-Fires acts safe i m calls here balanced e w in
    let later =
      IsBound-calls (suc i) ms calls t.calls (λ j h. f.others j (λ q. omega arith)) bound in
    let (b, runs, k) =
      trigger_mappings-Bounds acts ms (suc i) t.calls t.event safe later f.balanced f.indexed in
    (
      record b { items = t.item ∷ b.items },
      rw (ran, runs) refl,
      record {
        passes = next i m ms calls e t b f k.passes;
        bound = (
          IsBoundItem-calls i t.item t.calls b.calls (k.before i (omega arith)) f.bound,
          k.bound,
        );
        balanced = k.balanced;
        indexed = k.indexed;
        before = λ j h. k.before j (omega arith) ∙ f.others j (λ q. omega arith);
      },
    )

-- The mapping at a place, behind the events: its finalizer, and whether it is triggered, follow from the
-- events that it saw.
pub record Follows (m : BindItem) (saw : List Event) (k : ℕ) (r : Ran) : Type 0 where
  pub item : BindItem
  pub there : get_elem? r.items k ≡ some item
  pub usages_same : item.trigger.usages ≡ m.trigger.usages
  pub triggered :
      item.triggered
      ≡ all_pressed m.trigger.usages (λ u. count_events u saw (count_of m.trigger.counters u))
  pub open_same : item.finalizer ≡ is_open k r.calls
  pub closed : item.triggered ≡ false → is_open k r.calls ≡ false

-- A run of the node, step by step, and what it leaves true.
pub record Runs (acts : Actions) (items : List BindItem) (calls : List Call) (es : List Event)
    : Type 0 where
  pub after : Ran
  pub returns : run acts items calls es ≡ some after
  pub trace : Trace acts items calls es after
  pub first : 0 < length items → seen trace 0 ≡ es
  pub follows :
      (k : ℕ) (m : BindItem) → get_elem? items k ≡ some m → Follows m (seen trace k) k after
  pub bound : IsBound 0 after.items after.calls
  pub balanced : IsBalanced after.calls
  pub sent : All (λ e. IsIndexed e × (is_empty e ≡ false)) after.sent

IsBound-item :
    (i k : ℕ) (ms : List BindItem) (calls : List Call) (m : BindItem)
    → IsBound i ms calls
    → get_elem? ms k ≡ some m
    → IsBoundItem (i + k) m calls
IsBound-item i k [] calls m b at = absurd (ground (arith, at))
IsBound-item i zero (x ∷ ms) calls m (here, b) at =
    let is : x ≡ m = Option.some_inj.0 at in
    subst (λ j. IsBoundItem j m calls) (omega arith) (subst (λ x. IsBoundItem i x calls) is here)
IsBound-item i (suc k) (x ∷ ms) calls m (here, b) at =
    subst (λ j. IsBoundItem j m calls) (omega arith) (IsBound-item (suc i) k ms calls m b at)

Trace-Follows :
    {acts : Actions} {items : List BindItem} {calls : List Call} {es : List Event} {r : Ran}
    (t : Trace acts items calls es r)
    → IsBound 0 r.items r.calls
    → (k : ℕ) (m : BindItem) → get_elem? items k ≡ some m
    → Follows m (seen t k) k r
Trace-Follows {r = r} t bound k m at =
    let (m', there, c) = Trace-Counted t k m at in
    let b =
      subst (λ j. IsBoundItem j m' r.calls) (omega arith)
        (IsBound-item 0 k r.items r.calls m' bound there) in
    record {
      item = m';
      there = there;
      usages_same = c.usages_same;
      triggered =
          b.state
          ∙ ap (λ us. all_held us m'.trigger.counters) c.usages_same
          ∙ all_held_pressed m.trigger.usages m'.trigger.counters _ c.counts;
      open_same = b.open_same;
      closed = λ q. sym b.open_same ∙ b.only_triggered q;
    }

send-All :
    (e : Event) (r : Ran)
    → IsIndexed e
    → All (λ e. IsIndexed e × (is_empty e ≡ false)) r.sent
    → All (λ e. IsIndexed e × (is_empty e ≡ false)) (send e r).sent
send-All e r w all = elim (Bool-cases (is_empty e)) [
  | inl empty ↦ rw empty all
  | inr full ↦ rw full ((w, full), all)
]

-- With actions that keep events well-formed and do not panic, the node handles any well-formed events
-- without a panic, from any state in which this holds: the usages of each trigger are distinct, and its
-- counters hold positive counts of them, one for each at most; each mapping is triggered just where all of
-- these usages have a count; its finalizer is kept just while it is open, and only while the mapping is
-- triggered; and in the calls so far no handler was called while a finalizer of its mapping was open, and
-- no finalizer that was not. Afterwards the same holds, and each mapping is triggered just where all usages
-- of its trigger have a count by the counts before and the activations and deactivations in the events that
-- the mapping saw, a count not falling below 0. The first mapping sees the events as they come in, each
-- later one as the mappings before it leave them: without the usages of the triggers that are active or
-- were so before the event, and as their handlers and finalizers change them. A handler is called where its
-- trigger becomes active, and the finalizer that it returned, if any, where the trigger stops being so. So
-- a finalizer is called before the handler is called again and once at most, and none is open where the
-- mapping is not triggered. The events that are sent are well-formed and not empty.
pub run-Runs :
    (acts : Actions) (es : List Event) (items : List BindItem) (calls : List Call)
    → IsSafe acts
    → IsBound 0 items calls
    → IsBalanced calls
    → All IsIndexed es
    → Runs acts items calls es
unfolding run Option.bind
run-Runs acts [] items calls safe bound balanced ws = record {
  trace = quiet items calls;
  first = λ h. refl;
  follows = Trace-Follows {acts = acts} (quiet items calls) bound;
  after = record { items = items; calls = calls; sent = [] };
  returns = refl;
  bound = bound;
  balanced = balanced;
  sent = tt;
}
run-Runs acts (e ∷ es) items calls safe bound balanced (w, ws) =
    let (b, ran, k) = trigger_mappings-Bounds acts items 0 calls e safe bound balanced w in
    let rest = run-Runs acts es b.items b.calls safe k.bound k.balanced ws in
    let (items_same, calls_same) = send-items b.event rest.after in
    let trace = handled items calls e es b rest.after k.passes rest.trace in
    let bound : IsBound 0 (send b.event rest.after).items (send b.event rest.after).calls =
      rw (items_same, calls_same) rest.bound in
    record {
      after = send b.event rest.after;
      returns = rw ran (ap (Option.map (send b.event)) rest.returns);
      trace = trace;
      first = seen_first trace;
      follows = Trace-Follows trace bound;
      bound = bound;
      balanced = rw calls_same rest.balanced;
      sent = send-All b.event rest.after k.indexed rest.sent;
    }

-- The mappings of a configuration, whose usages are distinct, begin so.
pub new_bind_items-IsBound :
    (i : ℕ) (triggers : List (List ℕ))
    → All (λ us. IsDistinct us × (us ≢ [])) triggers
    → IsBound i (map new_bind_item triggers) []
new_bind_items-IsBound i [] h = tt
new_bind_items-IsBound i ([] ∷ ts) h = absurd (h.0.1 refl)
new_bind_items-IsBound i ((u ∷ us) ∷ ts) h = (
  record {
    trigger = record { distinct = h.0.0; tidy = tt };
    state = refl;
    open_same = refl;
    only_triggered = λ q. refl;
  },
  new_bind_items-IsBound (suc i) ts h.1,
)
