-- ===== src/Event/Update.antt =====
-- An event is a finite map from usages to usage events: what adding and removing do to it.
use neio_agent.Prelude.{
  ℕ, suc, ◌-◌, ◌<◌, ◌≡◌, ◌≢◌, refl, sym, ap, ◌∙◌, true, false, Option, none, some, List, [], ◌∷◌,
  ◌++◌, arith, if◌then◌else◌, ◌==◌, ltb, length, get_elem?, take, set, insert, delete,
  get_elem?-set, get_elem?-append_one, get_elem?-take, get_elem?-inside, Option-cases, Bool-cases,
  inl, inr, ==_iff, lt→ltb, ==_of_ne,
}
use neio_agent.Event.{
  Event, UsageEvent, add_usage, remove_usage, usage_event, found, add_at, remove_at, move_last,
}
use neio_agent.Event.Index.{
  IsIndexed, usage_at, usage_at-bound, replaced, appended, popped, moved_in,
}

-- `e'` is well-formed, has `o` for the usage `u`, and what `e` has for the others.
pub record Updates (e e' : Event) (u : ℕ) (o : Option UsageEvent) : Type 0 where
  pub indexed : IsIndexed e'
  pub lookup : (v : ℕ) → usage_event e' v ≡ (if v == u then some o else usage_event e v)

found-append :
    (us : List UsageEvent) (d : UsageEvent) (i : ℕ)
    → i < length us
    → found (some i) (us ++ (d ∷ [])) ≡ found (some i) us
found-append us d i h =
    rw (get_elem?-append_one us d i, ==_of_ne {a = i} {b = length us} (omega arith)) refl

append_lookup :
    (e : Event) (d : UsageEvent) (v : ℕ)
    → IsIndexed e
    → found (insert e.usage_map d.usage (length e.usages) v) (e.usages ++ (d ∷ []))
      ≡ (if v == d.usage then some (some d) else found (e.usage_map v) e.usages)
append_lookup e d v w = elim (Bool-cases (v == d.usage)) [
  | inl same ↦ rw same (rw (get_elem?-append_one e.usages d (length e.usages)) (ground arith))
  | inr other ↦ elim (Option-cases (e.usage_map v)) [
    | inl h ↦ rw (other, h) refl
    | inr (i, h) ↦
        rw (other, h) (found-append e.usages d i (usage_at-bound e.usages i v (w.sound v i h)))
  ]
]

set_lookup :
    (e : Event) (d : UsageEvent) (i v : ℕ)
    → IsIndexed e
    → e.usage_map d.usage ≡ some i
    → found (e.usage_map v) (set e.usages i d)
      ≡ (if v == d.usage then some (some d) else found (e.usage_map v) e.usages)
set_lookup e d i v w here =
    let n = usage_at-bound e.usages i d.usage (w.sound d.usage i here) in
    elim (Option-cases (e.usage_map v)) [
      | inl h ↦ rw h (ground (arith, here, h))
      | inr (j, h) ↦ rw h (
          rw (get_elem?-set e.usages i j d n)
            (ground (arith, here, h, w.sound v j h, w.sound d.usage i here)))
    ]

-- Adding a usage event to a well-formed event does not panic, gives a well-formed event that has it
-- for its usage, and leaves what the event has for every other usage.
pub add_usage_lem :
    (e : Event) (d : UsageEvent)
    → IsIndexed e
    → (e' : Event) × (add_usage e d ≡ some e') × Updates e e' d.usage (some d)
unfolding add_usage usage_event
add_usage_lem e d v = elim (Option-cases (e.usage_map d.usage)) [
  | inl h ↦ (
    record {
      usages = e.usages ++ (d ∷ []);
      usage_map = insert e.usage_map d.usage (length e.usages);
    },
    ap (λ o. add_at o e d) h,
    record { indexed = appended e d v h; lookup = λ u. append_lookup e d u v },
  )
  | inr (i, h) ↦
      let n = usage_at-bound e.usages i d.usage (v.sound d.usage i h) in
      (
        record e { usages = set e.usages i d },
        ap (λ o. add_at o e d) h ∙ rw (lt→ltb i (length e.usages) n) refl,
        record { indexed = replaced e d i v h; lookup = λ u. set_lookup e d i u v h },
      )
]

pop_lookup :
    (e : Event) (u i v : ℕ)
    → IsIndexed e
    → e.usage_map u ≡ some i
    → suc i ≡ length e.usages
    → found (delete e.usage_map u v) (take i e.usages)
      ≡ (if v == u then some none else found (e.usage_map v) e.usages)
pop_lookup e u i v w here n = elim (Bool-cases (v == u)) [
  | inl same ↦ rw same refl
  | inr other ↦ elim (Option-cases (e.usage_map v)) [
    | inl h ↦ rw (other, h) refl
    | inr (j, h) ↦
        let p = w.sound v j h in
        let below : ltb j i ≡ true =
          ground (arith, usage_at-bound e.usages j v p, w.sound u i here, p) in
        rw (other, h) (rw (get_elem?-take i e.usages j, below) refl)
  ]
]

move_lookup :
    (e : Event) (u i last v : ℕ) (moved : UsageEvent)
    → IsIndexed e
    → e.usage_map u ≡ some i
    → suc last ≡ length e.usages
    → i ≢ last
    → get_elem? e.usages last ≡ some moved
    → found (delete (insert e.usage_map moved.usage i) u v) (take last (set e.usages i moved))
      ≡ (if v == u then some none else found (e.usage_map v) e.usages)
move_lookup e u i last v moved w here n ne m =
    let at_i = w.sound u i here in
    let in_range = usage_at-bound e.usages i u at_i in
    let there : usage_at e.usages last ≡ some moved.usage = rw m refl in
    let index_last = w.complete moved.usage last there in
    elim (Bool-cases (v == u)) [
      | inl same ↦ rw same refl
      | inr other ↦ elim (Bool-cases (v == moved.usage)) [
        | inl is_moved ↦
            let e2 : v ≡ moved.usage = (==_iff _ _).0 is_moved in
            let il : e.usage_map v ≡ some last = rw e2 index_last in
            rw (other, is_moved, il)
              (rw
                (
                  get_elem?-take last (set e.usages i moved) i,
                  get_elem?-set e.usages i i moved in_range,
                  m,
                )
                (ground arith))
        | inr not_moved ↦ elim (Option-cases (e.usage_map v)) [
          | inl h ↦ rw (other, not_moved, h) refl
          | inr (j, h) ↦
              let p = w.sound v j h in
              let below : ltb j last ≡ true =
                ground (arith, usage_at-bound e.usages j v p, p, there) in
              let apart : (j == i) ≡ false = ground (arith, p, at_i) in
              rw (other, not_moved, h)
                (rw
                  (
                    get_elem?-take last (set e.usages i moved) j,
                    below,
                    get_elem?-set e.usages i j moved in_range,
                    apart,
                  )
                  refl)
        ]
      ]
    ]

absent_lookup :
    (e : Event) (u v : ℕ)
    → e.usage_map u ≡ none
    → found (e.usage_map v) e.usages
      ≡ (if v == u then some none else found (e.usage_map v) e.usages)
absent_lookup e u v h = elim (Bool-cases (v == u)) [
  | inl same ↦ let p : v ≡ u = (==_iff _ _).0 same in rw same (rw (p, h) refl)
  | inr other ↦ rw other refl
]

-- Removing a usage from a well-formed event does not panic, gives a well-formed event without that
-- usage, and leaves what the event has for every other usage.
pub remove_usage_lem :
    (e : Event) (u : ℕ)
    → IsIndexed e
    → (e' : Event) × (remove_usage e u ≡ some e') × Updates e e' u none
unfolding remove_usage usage_event
remove_usage_lem e u w = elim (Option-cases (e.usage_map u)) [
  | inl h ↦
      (e, ap (λ o. remove_at o e u) h, record { indexed = w; lookup = λ v. absent_lookup e u v h })
  | inr (i, h) ↦
      let n = usage_at-bound e.usages i u (w.sound u i h) in
      let last = length e.usages - 1 in
      let (moved, m) = get_elem?-inside e.usages last (omega arith) in
      let start : remove_usage e u ≡ move_last (some moved) i last e u =
        ap (λ o. remove_at o e u) h ∙ ap (λ o. move_last o i last e u) m in
      elim (Bool-cases (i == last)) [
        | inl is_last ↦
            let same : i ≡ last = (==_iff _ _).0 is_last in
            (
              record { usages = take i e.usages; usage_map = delete e.usage_map u },
              start
                  ∙ rw is_last (
                      ap
                        (λ k.
                          some
                            (record { usages = take k e.usages; usage_map = delete e.usage_map u }))
                        (sym same)),
              record {
                indexed = popped e u i w h (omega arith);
                lookup = λ v. pop_lookup e u i v w h (omega arith);
              },
            )
        | inr inner ↦ (
          record {
            usages = take last (set e.usages i moved);
            usage_map = delete (insert e.usage_map moved.usage i) u;
          },
          start ∙ rw (inner, lt→ltb i (length e.usages) n) refl,
          record {
            indexed = moved_in e u i last moved w h (omega arith) (ground arith) m;
            lookup = λ v. move_lookup e u i last v moved w h (omega arith) (ground arith) m;
          },
        )
      ]
]
