-- ===== src/Bind/Trace.antt =====
-- components/nodes/bind.go: a run of the node as a sequence of steps, the events that each mapping saw,
-- and what its trigger has counted by then.
use mathlib.Core.Option
use mathlib.Core.Path.{subst}
use neio_agent.Prelude.{
  length, ℕ, zero, suc, ◌<◌, ◌≡◌, refl, sym, ap, ◌∙◌, Bool, true, ◌&&◌, some, List, [], ◌∷◌, ◌++◌,
  ltb, arith, Bool-cases, inl, inr, get_elem?, member, ==_refl,
}
use neio_agent.Event.{Event, is_empty}
use neio_agent.Event.Activations.{count_event, event_activation}
use neio_agent.Bind.{
  Counts, count_of, BindItem, Call, Actions, Triggered, Bound, bound_cons, Ran, send,
}
use neio_agent.Bind.Counters.{all_held}
use neio_agent.Bind.Fires.{Fires}

-- An event that passes the mappings from the place `i` on, one after the other.
pub data Passes (acts : Actions) : ℕ → List BindItem → List Call → Event → Bound → Type 0 where
  through :
      (i : ℕ) (calls : List Call) (e : Event)
      → Passes acts i [] calls e (record { items = []; event = e; calls = calls })
  next :
      (i : ℕ) (m : BindItem) (ms : List BindItem) (calls : List Call) (e : Event) (t : Triggered)
      (b : Bound)
      → Fires acts i m calls e t
      → Passes acts (suc i) ms t.calls t.event b
      → Passes acts i (m ∷ ms) calls e (bound_cons t.item b)

-- The events that come in, one after the other.
pub data Trace (acts : Actions) : List BindItem → List Call → List Event → Ran → Type 0 where
  quiet :
      (items : List BindItem) (calls : List Call)
      → Trace acts items calls [] (record { items = items; calls = calls; sent = [] })
  handled :
      (items : List BindItem) (calls : List Call) (e : Event) (es : List Event) (b : Bound)
      (r : Ran)
      → Passes acts 0 items calls e b
      → Trace acts b.items b.calls es r
      → Trace acts items calls (e ∷ es) (send b.event r)

-- The event as the mapping at a place meets it: as the mappings before it have left it.
abbrev pub seen_in :
    {acts : Actions} {i : ℕ} {ms : List BindItem} {calls : List Call} {e : Event} {b : Bound}
    → Passes acts i ms calls e b
    → ℕ
    → List Event
seen_in (through i calls e) k = []
seen_in (next i m ms calls e t b f p) zero = e ∷ []
seen_in (next i m ms calls e t b f p) (suc k) = seen_in p k

abbrev pub seen :
    {acts : Actions} {items : List BindItem} {calls : List Call} {es : List Event} {r : Ran}
    → Trace acts items calls es r
    → ℕ
    → List Event
seen (quiet items calls) k = []
seen (handled items calls e es b r p rest) k = seen_in p k ++ seen rest k

pub send-items : (e : Event) (r : Ran) → ((send e r).items ≡ r.items) × ((send e r).calls ≡ r.calls)
send-items e r = elim (Bool-cases (is_empty e)) [
  | inl empty ↦ rw empty (refl, refl)
  | inr full ↦ rw full (refl, refl)
]

-- The first mapping meets the events as they come in.
pub seen_first :
    {acts : Actions} {items : List BindItem} {calls : List Call} {es : List Event} {r : Ran}
    (t : Trace acts items calls es r)
    → 0 < length items
    → seen t 0 ≡ es
seen_first (quiet items calls) h = refl
seen_first (handled items calls e es b r (through i calls' e') rest) h = absurd (omega (arith, h))
seen_first (handled items calls e es b r (next i m ms calls' e' t b' f p) rest) h =
    ap (λ l. e ∷ l) (seen_first rest (omega arith))

-- A count after the activations of a usage in the events.
abbrev pub count_events : ℕ → List Event → ℕ → ℕ
count_events u [] n = n
count_events u (e ∷ es) n = count_events u es (count_event (event_activation e u) n)

count_events-append :
    (u : ℕ) (xs ys : List Event) (n : ℕ)
    → count_events u (xs ++ ys) n ≡ count_events u ys (count_events u xs n)
count_events-append u [] ys n = refl
count_events-append u (x ∷ xs) ys n =
    count_events-append u xs ys (count_event (event_activation x u) n)

-- All of the usages have a count.
abbrev pub all_pressed : List ℕ → (ℕ → ℕ) → Bool
all_pressed [] counts = true
all_pressed (u ∷ us) counts = ltb 0 (counts u) && all_pressed us counts

-- The mapping `m` has become `m'` over the events that it saw.
pub record Counted (saw : List Event) (m m' : BindItem) : Type 0 where
  pub usages_same : m'.trigger.usages ≡ m.trigger.usages
  pub counts :
      (u : ℕ)
      → member u m.trigger.usages ≡ true
      → count_of m'.trigger.counters u ≡ count_events u saw (count_of m.trigger.counters u)

Passes-Counted :
    {acts : Actions} {i : ℕ} {ms : List BindItem} {calls : List Call} {e : Event} {b : Bound}
    (p : Passes acts i ms calls e b) (k : ℕ) (m : BindItem)
    → get_elem? ms k ≡ some m
    → (m' : BindItem) × (get_elem? b.items k ≡ some m') × Counted (seen_in p k) m m'
Passes-Counted (through i calls e) k m at = ground (arith, at)
Passes-Counted (next i m ms calls e t b f p) zero m0 at =
    let is : m ≡ m0 = Option.some_inj.0 at in
    (
      t.item,
      refl,
      subst (λ m. Counted (e ∷ []) m t.item) is
          (record {
            usages_same = ap (λ t. t.usages) f.trigger_same ∙ f.checks.usages_same;
            counts = λ u q. ap (λ t. count_of t.counters u) f.trigger_same ∙ f.checks.counts u q;
          }),
    )
Passes-Counted (next i m ms calls e t b f p) (suc k) m0 at = Passes-Counted p k m0 at

pub Trace-Counted :
    {acts : Actions} {items : List BindItem} {calls : List Call} {es : List Event} {r : Ran}
    (t : Trace acts items calls es r) (k : ℕ) (m : BindItem)
    → get_elem? items k ≡ some m
    → (m' : BindItem) × (get_elem? r.items k ≡ some m') × Counted (seen t k) m m'
Trace-Counted (quiet items calls) k m at =
    (m, at, record { usages_same = refl; counts = λ u q. refl })
Trace-Counted (handled items calls e es b r p rest) k m at =
    let (m1, at1, c1) = Passes-Counted p k m at in
    let (m2, at2, c2) = Trace-Counted rest k m1 at1 in
    (
      m2,
      ap (λ l. get_elem? l k) (send-items b.event r).0 ∙ at2,
      record {
        usages_same = c2.usages_same ∙ c1.usages_same;
        counts = λ u q.
            c2.counts u (ap (member u) c1.usages_same ∙ q)
            ∙ ap (count_events u (seen rest k)) (c1.counts u q)
            ∙ sym
                (count_events-append u (seen_in p k) (seen rest k) (count_of m.trigger.counters u));
      },
    )

-- Whether all usages of the trigger are pressed, by its own counts and by the events.
pub all_held_pressed :
    (us : List ℕ) (c : Counts) (counts : ℕ → ℕ)
    → ((u : ℕ) → member u us ≡ true → count_of c u ≡ counts u)
    → all_held us c ≡ all_pressed us counts
all_held_pressed [] c counts h = refl
all_held_pressed (u ∷ us) c counts h =
    let rest = all_held_pressed us c counts (λ v q. h v (ground (arith, q))) in
    ground (arith, rest, h u (ground (arith, ==_refl u)))
