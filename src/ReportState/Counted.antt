-- ===== src/ReportState/Counted.antt =====
-- hidapi/state.go, `ApplyEvent` on whole events: the counts of the activations, and the usages that
-- stand in the fields.
use mathlib.Core.Option
use neio_agent.Prelude.{
  ℕ, ◌+◌, ◌≡◌, refl, sym, ap, ◌∙◌, Bool, true, ◌⊎◌, Option, none, some, List, [], ◌∷◌, ◌++◌,
  if◌then◌else◌, ◌==◌, arith, Bool-cases, Option-cases, inl, inr, IsU32, member, All, u32,
}
use neio_agent.Bits.{Bits}
use neio_agent.Event.{UsageEvent, Event}
use neio_agent.Report.{Report}
use neio_agent.Event.Activations.{count_event}
use neio_agent.ReportState.{ItemAddress, Layout, ReportState, field_at}
use neio_agent.ReportState.Events.{set_address, apply_usage, apply_usages, touch, apply_event}
use neio_agent.ReportState.Changes.{field_at-eq-some}
use neio_agent.ReportState.Finish.{finish_reports-IsCounted}
use neio_agent.ReportState.Ready.{IsReady, IsAbsolute, IsCounted}
use neio_agent.ReportState.Usages.{After, skip-After, value-After, activation-After}

-- The reports that the loop has taken hold of are there.
abbrev pub Holds : ReportState → List ℕ → Type 0
Holds r ids = (i : ℕ) → member i ids ≡ true → (rep : Report) × (r.reports i ≡ some rep)

member-touch :
    (i j : ℕ) (ids : List ℕ) → member i (touch ids j) ≡ true → (member i ids ≡ true) ⊎ (i ≡ j)
member-touch i j ids h = elim (Bool-cases (member j ids)) [
  | inl there ↦ inl (rw there at h)
  | inr absent ↦ last ids (rw absent at h)
]
  where
    last : (ids : List ℕ) → member i (ids ++ (j ∷ [])) ≡ true → (member i ids ≡ true) ⊎ (i ≡ j)
    last [] h = inr (ground arith)
    last (k ∷ ids) h = elim (Bool-cases (i == k)) [
      | inl e ↦ inl (rw e refl)
      | inr e ↦ rw e (last ids (rw e at h))
    ]

-- The result of one usage event, or of a list of them.
record Step (l : Layout) (r : ReportState) (w : ℕ) (act : Option Bool)
    (o : Option (ReportState × List ℕ)) (ids : List ℕ) : Type 0 where
  after : ReportState
  held : List ℕ
  returns : o ≡ some (after, held)
  result : After l r w act after
  holds : Holds r ids → Holds after held

module _ (l : Layout) (r : ReportState) (ids : List ℕ) (ready : IsReady l r)
    (counted : IsCounted l r) where
  skip-Step :
      (w : ℕ) (act : Option Bool) (o : Option (ReportState × List ℕ))
      → o ≡ some (r, ids)
      → ((v : ℕ) (a' : ItemAddress)
          → set_address l v ≡ some a'
          → (w ≡ v)
          → (n : ℕ) → count_event act n ≡ n)
      → Step l r w act o ids
  skip-Step w act o run still = record {
    after = r;
    held = ids;
    returns = run;
    result = skip-After l r ready counted w act still;
    holds = λ h. h;
  }

  -- A usage event that is applied at an address.
  applied-Step :
      (w : ℕ) (act : Option Bool) (a : ItemAddress) (b : Bits) (r' : ReportState)
      (o : Option (ReportState × List ℕ))
      → o ≡ some (r', touch ids a.report_id)
      → field_at r a ≡ some b
      → After l r w act r'
      → Step l r w act o ids
  applied-Step w act a b r' o run there done = record {
    after = r';
    held = touch ids a.report_id;
    returns = run;
    result = done;
    holds = λ holds i m. elim (member-touch i a.report_id ids m) [
      | inl old ↦ let (rep, h) = holds i old in done.kept i rep h
      | inr e ↦
          let (rep, h, _) = field_at-eq-some r a b there in done.kept i rep (ap r.reports e ∙ h)
    ];
  }

  usage-Step :
      (w : ℕ) (act : Option Bool) (value delta : Option ℕ)
      → IsU32 w
      → Step l r w act
          (apply_usage l
            (r, ids)
            (record { usage = w; activate = act; value = value; delta = delta }))
          ids
  unfolding apply_usage Option.bind
  usage-Step w (some on) value delta hw = elim (Option-cases (set_address l w)) [
    | inl missing ↦
        skip-Step w (some on) _ (rw missing refl)
          (λ v a' there e n. absurd (clash v a' there (ap (set_address l) (sym e) ∙ missing)))
    | inr (a, addressed) ↦
        let p = ready.sets w a hw addressed in
        let (r', run, done) = activation-After l r ready counted a w on hw addressed p in
        applied-Step w (some on) a p.field r' _ (rw (addressed, p.item_there, run) refl)
          p.field_there done
  ]
    where
      clash : (v : ℕ) (a' : ItemAddress) → set_address l v ≡ some a' → set_address l v ≡ none → ⊥
      clash v a' h k = cc (h, k)
  usage-Step w none value (some x) hw = elim (Option-cases (l.usage_values_index w)) [
    | inl missing ↦ skip-Step w none _ (rw missing refl) (λ v a' there e n. refl)
    | inr (a, addressed) ↦
        let p = ready.values w a addressed in
        let (r', run, done) =
          value-After l r ready counted a w (λ old. u32 (old + x)) p addressed in
        applied-Step w none a p.field r' _ (rw (addressed, p.item_there, run) refl) p.field_there
          done
  ]
  usage-Step w none (some x) none hw = elim (Option-cases (l.usage_values_index w)) [
    | inl missing ↦ skip-Step w none _ (rw missing refl) (λ v a' there e n. refl)
    | inr (a, addressed) ↦
        let p = ready.values w a addressed in
        let (r', run, done) = value-After l r ready counted a w (λ old. x) p addressed in
        applied-Step w none a p.field r' _ (rw (addressed, p.item_there, run) refl) p.field_there
          done
  ]
  usage-Step w none none none hw = skip-Step w none _ refl (λ v a' there e n. refl)

-- The count that a list of usage events leaves for a usage.
abbrev pub count_events : ℕ → List UsageEvent → ℕ → ℕ
count_events u [] n = n
count_events u (d ∷ ds) n = count_events u ds (if d.usage == u then count_event d.activate n else n)

-- What the loop over the usage events leaves true.
record Run (l : Layout) (r : ReportState) (ds : List UsageEvent) (o : Option (ReportState × List ℕ))
    : Type 0 where
  after : ReportState
  held : List ℕ
  returns : o ≡ some (after, held)
  ready : IsReady l after
  counted : IsCounted l after
  counts :
      (u : ℕ) (a : ItemAddress)
      → IsU32 u
      → set_address l u ≡ some a
      → IsAbsolute l a
      → after.usage_activations a.report_id u
        ≡ count_events u ds (r.usage_activations a.report_id u)
  holds : Holds after held

apply_usages-Run :
    (l : Layout) (ds : List UsageEvent) (r : ReportState) (ids : List ℕ)
    → IsReady l r
    → IsCounted l r
    → All (λ d. IsU32 d.usage) ds
    → Holds r ids
    → Run l r ds (apply_usages l (r, ids) ds)
unfolding apply_usages Option.bind
apply_usages-Run l [] r ids ready counted hs holds = record {
  after = r;
  held = ids;
  returns = refl;
  ready = ready;
  counted = counted;
  counts = λ u a hu there absolute. refl;
  holds = holds;
}
apply_usages-Run l (d ∷ ds) r ids ready counted (hd, hs) holds =
    let one = usage-Step l r ids ready counted d.usage d.activate d.value d.delta hd in
    let rest =
      apply_usages-Run l ds one.after one.held one.result.ready one.result.counted hs
        (one.holds holds) in
    record {
      after = rest.after;
      held = rest.held;
      returns = rw one.returns rest.returns;
      ready = rest.ready;
      counted = rest.counted;
      counts = λ u a hu there absolute.
          rest.counts u a hu there absolute
          ∙ ap (count_events u ds) (one.result.counts u a hu there absolute);
      holds = rest.holds;
    }

-- What `ApplyEvent` leaves true on a state that is ready and counted.
pub record Applied (l : Layout) (r : ReportState) (e : Event) : Type 0 where
  pub after : ReportState
  pub reports : List (List ℕ)
  pub returns : apply_event l r e ≡ some (after, reports)
  pub ready : IsReady l after
  pub counted : IsCounted l after
  pub counts :
      (u : ℕ) (a : ItemAddress)
      → IsU32 u
      → set_address l u ≡ some a
      → IsAbsolute l a
      → after.usage_activations a.report_id u
        ≡ count_events u e.usages (r.usage_activations a.report_id u)

-- In a state whose usages of sets have a bit of their own in a field, and whose usages with a value
-- have a slot in another, an event with any usages does not panic. For each usage of an item that is
-- not relative, each activation adds one to its count and each deactivation takes one away, down to
-- 0; and after the event, as before it, the usage is set in its field just where its count is
-- positive. The new state fulfils the same conditions.
pub apply_event-Applied :
    (l : Layout) (r : ReportState) (e : Event)
    → IsReady l r
    → IsCounted l r
    → All (λ d. IsU32 d.usage) e.usages
    → Applied l r e
unfolding apply_event Option.bind
apply_event-Applied l r e ready counted hs =
    let run = apply_usages-Run l e.usages r [] ready counted hs (λ i m. absurd (ground arith)) in
    let (r', (out, ends), ready', counted', same) =
      finish_reports-IsCounted l run.held run.after run.ready run.counted run.holds in
    record {
      after = r';
      reports = out;
      returns = rw (run.returns, ends) refl;
      ready = ready';
      counted = counted';
      counts = λ u a hu there absolute.
          ap (λ (k : ℕ → ℕ → ℕ). k a.report_id u) same ∙ run.counts u a hu there absolute;
    }
