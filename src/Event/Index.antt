-- ===== src/Event/Index.antt =====
-- The index of an event agrees with its slice, and every operation keeps it so.
use neio_agent.Prelude.{
  ℕ, suc, ◌<◌, ◌≡◌, ◌≢◌, refl, Option, none, some, List, [], ◌∷◌, ◌++◌, arith, if◌then◌else◌, ◌==◌,
  ltb, length, get_elem?, take, set, insert, delete, get_elem?-set, get_elem?-append_one,
  get_elem?-take, get_elem?-bound, Option-cases, inl, inr,
}
use mathlib.Core.Option
use neio_agent.Event.{Event, UsageEvent}

-- The usage at a place of the slice.
abbrev pub usage_at : List UsageEvent → ℕ → Option ℕ
usage_at us i = Option.map (λ d. d.usage) (get_elem? us i)

pub record IsIndexed (e : Event) : Type 0 where
  pub sound : (u i : ℕ) → e.usage_map u ≡ some i → usage_at e.usages i ≡ some u
  pub complete : (u i : ℕ) → usage_at e.usages i ≡ some u → e.usage_map u ≡ some i

pub usage_at-bound : (us : List UsageEvent) (i u : ℕ) → usage_at us i ≡ some u → i < length us
usage_at-bound us i u h = elim (Option-cases (get_elem? us i)) [
  | inl e ↦ ground (arith, e)
  | inr (d, e) ↦ get_elem?-bound us i d e
]

usage_at-append :
    (us : List UsageEvent) (d : UsageEvent) (i : ℕ)
    → usage_at (us ++ (d ∷ [])) i ≡ (if i == length us then some d.usage else usage_at us i)
usage_at-append us d i = rw (get_elem?-append_one us d i) (ground arith)

usage_at-set :
    (us : List UsageEvent) (i : ℕ) (d : UsageEvent) (j : ℕ)
    → i < length us
    → usage_at (set us i d) j ≡ (if j == i then some d.usage else usage_at us j)
usage_at-set us i d j h = rw (get_elem?-set us i j d h) (ground arith)

usage_at-take :
    (n : ℕ) (us : List UsageEvent) (j : ℕ)
    → usage_at (take n us) j ≡ (if ltb j n then usage_at us j else none)
usage_at-take n us j = rw (get_elem?-take n us j) (ground arith)

-- Adding a usage that the event has.
pub replaced :
    (e : Event) (d : UsageEvent) (i : ℕ)
    → IsIndexed e
    → e.usage_map d.usage ≡ some i
    → IsIndexed (record e { usages = set e.usages i d })
replaced e d i v h =
    let n = usage_at-bound e.usages i d.usage (v.sound d.usage i h) in
    record {
      sound = λ u j p.
          ground (arith, usage_at-set e.usages i d j n, v.sound u j p, v.sound d.usage i h);
      complete = λ u j p. ground (arith, usage_at-set e.usages i d j n, v.complete u j, h);
    }

-- Adding a new usage.
pub appended :
    (e : Event) (d : UsageEvent)
    → IsIndexed e
    → e.usage_map d.usage ≡ none
    → IsIndexed (record e {
      usages = e.usages ++ (d ∷ []);
      usage_map = insert e.usage_map d.usage (length e.usages);
    })
appended e d v h = record {
  sound = λ u j p.
      ground (arith, usage_at-append e.usages d j, v.sound u j, usage_at-bound e.usages j u);
  complete = λ u j p. ground (arith, usage_at-append e.usages d j, v.complete u j, h);
}

-- Removing the last usage.
pub popped :
    (e : Event) (u i : ℕ)
    → IsIndexed e
    → e.usage_map u ≡ some i
    → suc i ≡ length e.usages
    → IsIndexed (record { usages = take i e.usages; usage_map = delete e.usage_map u })
popped e u i v h n =
    let here = v.sound u i h in
    record {
      sound = λ x j p.
          ground
            (arith, usage_at-take i e.usages j, v.sound x j, usage_at-bound e.usages j x, here);
      complete = λ x j p. ground (arith, usage_at-take i e.usages j, v.complete x j, h);
    }

-- Removing another: the last one takes its place.
pub moved_in :
    (e : Event) (u i last : ℕ) (moved : UsageEvent)
    → IsIndexed e
    → e.usage_map u ≡ some i
    → suc last ≡ length e.usages
    → i ≢ last
    → get_elem? e.usages last ≡ some moved
    → IsIndexed (record {
      usages = take last (set e.usages i moved);
      usage_map = delete (insert e.usage_map moved.usage i) u;
    })
moved_in e u i last moved v h n ne m =
    let here = v.sound u i h in
    let in_range = usage_at-bound e.usages i u here in
    let there : usage_at e.usages last ≡ some moved.usage = rw m refl in
    let index_last = v.complete moved.usage last there in
    let at : (j : ℕ)
        → usage_at (take last (set e.usages i moved)) j
          ≡ (if ltb j last then usage_at (set e.usages i moved) j else none) =
      usage_at-take last (set e.usages i moved) in
    let at' : (j : ℕ)
        → usage_at (set e.usages i moved) j
          ≡ (if j == i then some moved.usage else usage_at e.usages j) =
      λ j. usage_at-set e.usages i moved j in_range in
    record {
      sound = λ x j p.
          ground
            (arith, at j, at' j, v.sound x j, usage_at-bound e.usages j x, here, there, index_last);
      complete = λ x j p. ground (arith, at j, at' j, v.complete x j, h, index_last);
    }
