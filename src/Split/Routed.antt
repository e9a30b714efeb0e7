-- ===== src/Split/Routed.antt =====
-- components/nodes/split.go: which usages the events that are sent have.
use Prim.Native.String.{String}
use text.Mathlib.TextEquality.{eq_iff}
use mathlib.Core.Option
use mathlib.Core.Path.{subst}
use neio_agent.Prelude.{
  ℕ, ◌≡◌, refl, ap, ◌∙◌, Bool, false, ◌||◌, ◌&&◌, Option, none, some, List, [], ◌∷◌, ◌==◌,
  if◌then◌else◌, arith, Bool-cases, inl, inr, is_some, ==_iff,
}
use neio_agent.Event.{Event, UsageEvent, new_event, usage_event}
use neio_agent.Event.Index.{IsIndexed}
use neio_agent.Event.Update.{add_usage_lem}
use neio_agent.Event.Batch.{new_event-IsIndexed}
use neio_agent.Event.Latest.{last_in, last_in_event}
use neio_agent.Usages.{page, id}
use neio_agent.Split.{
  MatchItem, same_node, Outbox, empty_outbox, event_or_new, add_to, match_usage, after_match,
  split_usage, split_usages, split,
}

-- The node of the first matcher that takes the usage.
abbrev pub route : List MatchItem → ℕ → Option String
route [] u = none
route (it ∷ items) u = if it.matcher (page u) (id u) then some it.node_id else route items u

abbrev pub goes : Option String → String → Bool
goes none n = false
goes (some k) n = same_node n k

-- What the event for the node has for the usage.
abbrev pub sent_event : Outbox → String → ℕ → Option (Option UsageEvent)
sent_event m n u = usage_event (event_or_new (m n)) u

abbrev pub AllIndexed : Outbox → Type 0
AllIndexed m = (n : String) → IsIndexed (event_or_new (m n))

-- One usage event more for the node `n`.
pub record Adds (m m' : Outbox) (goes_to : String → Bool) (d : UsageEvent) : Type 0 where
  pub indexed : AllIndexed m'
  pub events :
      (k : String) (u : ℕ)
      → sent_event m' k u ≡ (if goes_to k && u == d.usage then some (some d) else sent_event m k u)
  pub sent : (k : String) → is_some (m' k) ≡ (goes_to k || is_some (m k))

add_to-Adds :
    (m : Outbox) (n : String) (d : UsageEvent)
    → AllIndexed m
    → (m' : Outbox) × (add_to m n d ≡ some m') × Adds m m' (λ k. same_node k n) d
unfolding add_to
add_to-Adds m n d w =
    let (e, run, up) = add_usage_lem (event_or_new (m n)) d (w n) in
    (
      λ k. if same_node k n then some e else m k,
      rw run refl,
      record {
        indexed = λ k. elim (Bool-cases (same_node k n)) [
          | inl same ↦ rw same up.indexed
          | inr other ↦ rw other (w k)
        ];
        events = λ k u. elim (Bool-cases (same_node k n)) [
          | inl same ↦ let is : k ≡ n = (eq_iff k n).0 same in rw same (rw is (up.lookup u))
          | inr other ↦ rw other refl
        ];
        sent = λ k. ground arith;
      },
    )

-- The matchers without the state.
abbrev matched : Option String → Outbox → UsageEvent → Option (Outbox × String)
matched none m d = some (m, "")
matched (some n) m d = Option.map (λ m'. (m', n)) (add_to m n d)

match_usage-matched :
    (items : List MatchItem) (m : Outbox) (d : UsageEvent)
    → match_usage items m d ≡ matched (route items d.usage) m d
unfolding match_usage
match_usage-matched [] m d = refl
match_usage-matched (it ∷ items) m d = elim (Bool-cases (it.matcher (page d.usage) (id d.usage))) [
  | inl e ↦ rw e refl
  | inr e ↦ rw e (match_usage-matched items m d)
]

after_match-Adds :
    (r : Option String) (m : Outbox) (d : UsageEvent)
    → AllIndexed m
    → (m' : Outbox) × (Option.bind (matched r m d) (after_match d) ≡ some m') × Adds m m' (goes r) d
unfolding Option.bind
after_match-Adds none m d w =
    (m, refl, record { indexed = w; events = λ k u. refl; sent = λ k. refl })
after_match-Adds (some n) m d w =
    let (m1, run1, a1) = add_to-Adds m n d w in
    elim (Bool-cases (same_node n "")) [
      | inl e ↦ (m1, rw run1 (rw e refl), a1)
      | inr e ↦
          let (m2, run2, a2) = add_to-Adds m1 n d a1.indexed in
          (
            m2,
            rw run1 (rw e run2),
            record {
              indexed = a2.indexed;
              events = λ k u. ground (arith, a2.events k u, a1.events k u);
              sent = λ k. ground (arith, a2.sent k, a1.sent k);
            },
          )
    ]

split_usage-Adds :
    (items : List MatchItem) (m : Outbox) (d : UsageEvent)
    → AllIndexed m
    → (m' : Outbox) × (split_usage items m d ≡ some m') × Adds m m' (goes (route items d.usage)) d
unfolding split_usage
split_usage-Adds items m d w =
    let (m', run, adds) = after_match-Adds (route items d.usage) m d w in
    (m', ap (λ o. Option.bind o (after_match d)) (match_usage-matched items m d) ∙ run, adds)

-- A usage of the list goes to the node.
abbrev pub any_goes : List MatchItem → String → List UsageEvent → Bool
any_goes items n [] = false
any_goes items n (d ∷ ds) = goes (route items d.usage) n || any_goes items n ds

-- What the outbox has behind the list of usage events.
pub record Gathers (items : List MatchItem) (m m' : Outbox) (ds : List UsageEvent) : Type 0 where
  pub indexed : AllIndexed m'
  pub events :
      (k : String) (u : ℕ) (o : Option UsageEvent)
      → sent_event m k u ≡ some o
      → sent_event m' k u ≡ some (if goes (route items u) k then last_in o u ds else o)
  pub sent : (k : String) → is_some (m' k) ≡ (any_goes items k ds || is_some (m k))

Adds-one :
    (items : List MatchItem) (m m' : Outbox) (d : UsageEvent) (k : String) (u : ℕ)
    (o : Option UsageEvent)
    → Adds m m' (goes (route items d.usage)) d
    → sent_event m k u ≡ some o
    → sent_event m' k u ≡ some (if goes (route items u) k && u == d.usage then some d else o)
Adds-one items m m' d k u o a h = elim (Bool-cases (u == d.usage)) [
  | inl same ↦
      let there : goes (route items u) k ≡ goes (route items d.usage) k =
        ap (λ v. goes (route items v) k) ((==_iff u d.usage).0 same) in
      a.events k u ∙ rw (same, h, there) (ground arith)
  | inr other ↦ a.events k u ∙ rw (other, h) (ground arith)
]

split_usages-Gathers :
    (items : List MatchItem) (ds : List UsageEvent) (m : Outbox)
    → AllIndexed m
    → (m' : Outbox) × (split_usages items m ds ≡ some m') × Gathers items m m' ds
unfolding split_usages Option.bind
split_usages-Gathers items [] m w =
    (m, refl, record { indexed = w; events = λ k u o h. ground (arith, h); sent = λ k. refl })
split_usages-Gathers items (d ∷ ds) m w =
    let (m1, run1, a) = split_usage-Adds items m d w in
    let (m2, run2, g) = split_usages-Gathers items ds m1 a.indexed in
    (
      m2,
      rw run1 run2,
      record {
        indexed = g.indexed;
        events = λ k u o h. g.events k u _ (Adds-one items m m1 d k u o a h) ∙ ground arith;
        sent = λ k. ground (arith, g.sent k, a.sent k);
      },
    )

nothing : (u : ℕ) → usage_event new_event u ≡ some none
unfolding usage_event
nothing u = refl

-- What `Run` publishes for the event `e`.
pub record Splits (items : List MatchItem) (e : Event) (m : Outbox) : Type 0 where
  pub indexed : (n : String) (sent : Event) → m n ≡ some sent → IsIndexed sent
  pub sent : (n : String) → is_some (m n) ≡ any_goes items n e.usages
  pub events :
      (n : String) (u : ℕ)
      → sent_event m n u ≡ (if goes (route items u) n then usage_event e u else some none)

-- An event is split without a panic. A node gets an event just where a usage of the event is for it,
-- the first matcher that takes the usage deciding. The event that it gets is well-formed, and has for
-- each usage that is for the node what the whole event has, and nothing for any other usage.
pub split-Splits :
    (items : List MatchItem) (e : Event)
    → IsIndexed e
    → (m : Outbox) × (split items e ≡ some m) × Splits items e m
unfolding split
split-Splits items e w =
    let (m, run, g) = split_usages-Gathers items e.usages empty_outbox (λ n. new_event-IsIndexed) in
    (
      m,
      run,
      record {
        indexed = λ n sent h. subst IsIndexed (ap event_or_new h) (g.indexed n);
        sent = λ n. g.sent n ∙ ground arith;
        events = λ n u. g.events n u none (nothing u) ∙ rw (last_in_event e u w) (ground arith);
      },
    )
