-- ===== src/Output/Kept.antt =====
-- internal/hidsvc/node_output.go: devices whose report ids differ keep them.
use neio_agent.Prelude.{
  IsDistinct, ℕ, suc, ◌≡◌, ◌≢◌, refl, ap, ◌∙◌, true, false, Option, none, some, List, [], ◌∷◌, ◌++◌,
  if◌then◌else◌, Map, empty_map, insert, arith, member, member-append, All, All-append_inv, ==_iff,
  ==_refl,
}
use mathlib.Core.Option
use neio_agent.HidDesc.{
  DataItem, Collection, collection, Items, nil, cons, MainItem, item, nested, ReportDescriptor,
}
use neio_agent.HidDesc.Payload.{ok}
use neio_agent.HidDesc.Decoder.{decode}
use neio_agent.Report.DataItems.{flat, flat_items, flat_item, flat_all}
use neio_agent.Report.Listed.{ids, All-ids}
use neio_agent.Output.{
  free_id, assign_id, assign_ids, id_or_zero, renumber, renumber_items, renumber_item, renumber_all,
  add_input, Built, built, join_found, join_decoded, join_added, add_collections, none_if_empty,
  join_inputs, build_descriptor,
}

IsDistinct-append :
    (xs ys : List ℕ)
    → IsDistinct (xs ++ ys)
    → IsDistinct xs × IsDistinct ys × ((u : ℕ) → member u xs ≡ true → member u ys ≡ false)
IsDistinct-append [] ys d = (tt, d, λ u h. ground (arith, h))
IsDistinct-append (x ∷ xs) ys d =
    let (left, right, apart) = IsDistinct-append xs ys d.1 in
    (
      (ground (arith, d.0, member-append x xs ys), left),
      right,
      λ u h. ground (arith, h, apart u, d.0, member-append x xs ys, ==_iff u x),
    )

-- The map sends each of the report ids to itself.
abbrev Keeps : Map ℕ → List DataItem → Type 0
Keeps m ds = All (λ d. m d.report_id ≡ some d.report_id) ds

mutual
  unfolding renumber renumber_items renumber_item flat flat_items flat_item

  renumber-Keeps : (m : Map ℕ) (c : Collection) → Keeps m (flat c) → renumber m c ≡ c
  renumber-Keeps m (collection t p u items) h =
      ap (collection t p u) (renumber_items-Keeps m items h)

  renumber_items-Keeps :
      (m : Map ℕ) (xs : Items) → Keeps m (flat_items xs) → renumber_items m xs ≡ xs
  renumber_items-Keeps m nil h = refl
  renumber_items-Keeps m (cons x xs) h =
      let (first, rest) =
        All-append_inv (λ d. m d.report_id ≡ some d.report_id) (flat_item x) (flat_items xs) h in
      rw (renumber_item-Keeps m x first, renumber_items-Keeps m xs rest) refl

  renumber_item-Keeps : (m : Map ℕ) (x : MainItem) → Keeps m (flat_item x) → renumber_item m x ≡ x
  renumber_item-Keeps m (item t d) h = ap (λ o. item t (record d { report_id = id_or_zero o })) h.0
  renumber_item-Keeps m (nested c) h = ap nested (renumber-Keeps m c h)

renumber_all-Keeps :
    (m : Map ℕ) (cs : List Collection) → Keeps m (flat_all cs) → renumber_all m cs ≡ cs
unfolding renumber_all
renumber_all-Keeps m [] h = refl
renumber_all-Keeps m (c ∷ cs) h =
    let (first, rest) =
      All-append_inv (λ d. m d.report_id ≡ some d.report_id) (flat c) (flat_all cs) h in
    rw (renumber-Keeps m c first, renumber_all-Keeps m cs rest) refl

All-map {ℓ κ} :
    {A : Type ℓ} (P Q : A → Type κ) (xs : List A) → ((a : A) → P a → Q a) → All P xs → All Q xs
All-map P Q [] f h = tt
All-map P Q (x ∷ xs) f h = (f x h.0, All-map P Q xs f h.1)

-- The ids are bytes that are no keys of the map.
abbrev AreNew : Map ℕ → List ℕ → Type 0
AreNew m us = (u : ℕ) → member u us ≡ true → m u ≡ none

free_id-new : (fuel : ℕ) (m : Map ℕ) (id : ℕ) → m id ≡ none → free_id (suc fuel) m id ≡ some id
unfolding free_id
free_id-new fuel m id h = rw h refl

assign_ids-AreNew :
    (us : List ℕ) (m : Map ℕ)
    → AreNew m us
    → IsDistinct us
    → (m' : Map ℕ) × (assign_ids m us ≡ some m')
      × ((u : ℕ) → m' u ≡ (if member u us then some u else m u))
unfolding assign_ids assign_id Option.bind
assign_ids-AreNew [] m new d = (m, refl, λ u. refl)
assign_ids-AreNew (id ∷ us) m new d =
    let one : free_id 256 m id ≡ some id =
      free_id-new 255 m id (new id (ground (arith, ==_refl id))) in
    let (m', run, look) =
      assign_ids-AreNew us (insert m id id) (λ u q. ground (arith, q, d.0, ==_iff u id, new u))
        d.1 in
    (m', rw one run, λ u. look u ∙ ground (arith, ==_iff u id))

add_input-AreNew :
    (m : Map ℕ) (desc : ReportDescriptor)
    → AreNew m (ids desc)
    → IsDistinct (ids desc)
    → (m' : Map ℕ) × (add_input m desc ≡ some (m', desc))
      × ((u : ℕ) → m' u ≡ (if member u (ids desc) then some u else m u))
unfolding add_input
add_input-AreNew m desc new d =
    let (m', run, look) = assign_ids-AreNew (ids desc) m new d in
    let same : renumber_all m' desc ≡ desc =
      renumber_all-Keeps m' desc
        (All-map _ _ (flat_all desc) (λ d q. look d.report_id ∙ rw q refl) (All-ids desc)) in
    (m', rw run (ap (λ cs. some (m', cs)) same), look)

-- The collections, and the report ids, of several descriptors.
abbrev pub collections_of : List ReportDescriptor → List Collection
collections_of [] = []
collections_of (desc ∷ descs) = desc ++ collections_of descs

abbrev pub ids_of : List ReportDescriptor → List ℕ
ids_of [] = []
ids_of (desc ∷ descs) = ids desc ++ ids_of descs

module _ {ℓ} {A : Type ℓ} (get_report_descriptor : A → Option (List (List ℕ))) where
  -- The service has a descriptor for each address, and it is decoded.
  pub data Delivers : List A → List ReportDescriptor → Type ℓ where
    none_asked : Delivers [] []
    one_more :
        (addr : A) (addrs : List A) (chunks : List (List ℕ)) (desc : ReportDescriptor)
        (descs : List ReportDescriptor)
        → get_report_descriptor addr ≡ some chunks
        → decode chunks ≡ ok desc
        → Delivers addrs descs
        → Delivers (addr ∷ addrs) (desc ∷ descs)

  join_inputs-Delivers :
      (addrs : List A) (descs : List ReportDescriptor) (m : Map ℕ)
      → Delivers addrs descs
      → AreNew m (ids_of descs)
      → IsDistinct (ids_of descs)
      → join_inputs get_report_descriptor m addrs ≡ built (collections_of descs)
  unfolding join_inputs
  join_inputs-Delivers addrs descs m none_asked new d = refl
  join_inputs-Delivers addrs descs m (one_more addr addrs' chunks desc descs' got decoded rest) new
        d =
      let (left, right, apart) = IsDistinct-append (ids desc) (ids_of descs') d in
      let (m', run, look) =
        add_input-AreNew m desc
          (λ u q. new u (ground (arith, q, member-append u (ids desc) (ids_of descs')))) left in
      let unused : AreNew m' (ids_of descs') = λ u q.
        look u ∙ ground (arith, q, apart u, new u, member-append u (ids desc) (ids_of descs')) in
      ap (λ o. join_found m addr o next) got
      ∙ ap (λ r. join_decoded m r next) decoded
      ∙ ap (λ o. join_added o next) run
      ∙ ap (add_collections desc) (join_inputs-Delivers addrs' descs' m' rest unused right)
    where
      next : Map ℕ → Built A
      next m' = join_inputs get_report_descriptor m' addrs'

  some_built : (cs : List Collection) → cs ≢ [] → none_if_empty {A = A} (built cs) ≡ built cs
  some_built [] ne = absurd (ne refl)
  some_built (c ∷ cs) ne = refl

  -- Where the service has a descriptor for every input device, each is decoded, their report ids are all
  -- different and there is a collection among them, the descriptor of the output device is these
  -- descriptors one after the other, each with its own report ids.
  pub build_descriptor-Delivers :
      (addrs : List A) (descs : List ReportDescriptor)
      → Delivers addrs descs
      → IsDistinct (ids_of descs)
      → collections_of descs ≢ []
      → build_descriptor get_report_descriptor addrs ≡ built (collections_of descs)
  unfolding build_descriptor
  build_descriptor-Delivers [] [] none_asked d ne = absurd (ne refl)
  build_descriptor-Delivers [] (desc ∷ descs) given d ne = elim given [ ]
  build_descriptor-Delivers (addr ∷ addrs) descs given d ne =
      ap none_if_empty (join_inputs-Delivers (addr ∷ addrs) descs empty_map given (λ u q. refl) d)
      ∙ some_built (collections_of descs) ne
