-- ===== src/Output.antt =====
-- internal/hidsvc/node_output.go: the report descriptor of an output device, joined from those of its
-- input devices, with new report ids where the ids of two devices meet.
pub mod Ids
pub mod Kept
mod Tests
use neio_agent.Prelude.{
  ℕ, zero, suc, ◌+◌, ◌%◌, Option, none, some, List, [], ◌∷◌, ◌++◌, if◌then◌else◌, is_some, Map,
  empty_map, insert,
}
use mathlib.Core.Option
use neio_agent.HidDesc.{
  DataItem, Collection, collection, Items, nil, cons, MainItem, item, nested, ReportDescriptor,
}
use neio_agent.HidDesc.Payload.{Result, ok, err, panic}
use neio_agent.HidDesc.Decoder.{decode}
use neio_agent.Report.DataItems.{new_data_item_set}

-- `id++` of a uint8.
abbrev pub next_id : ℕ → ℕ
next_id id = (id + 1) % 256

-- The inner loop: the first id from `id` on that is no key of the map. It has tried every id after
-- 256 rounds, so that `none` is a loop that does not end.
unfoldable pub free_id : ℕ → Map ℕ → ℕ → Option ℕ
free_id zero m id = none
free_id (suc fuel) m id =
    let rest = free_id fuel m (next_id id) in if is_some (m id) then rest else some id

unfoldable pub assign_id : Map ℕ → ℕ → Option (Map ℕ)
unfolding free_id
assign_id m id = Option.map (λ new. insert m id new) (free_id 256 m id)

-- The loop over the reports of a device.
unfoldable pub assign_ids : Map ℕ → List ℕ → Option (Map ℕ)
unfolding assign_id
assign_ids m [] = some m
assign_ids m (id ∷ ids) = Option.bind (assign_id m id) (λ m'. assign_ids m' ids)

-- A missing key reads as 0.
abbrev pub id_or_zero : Option ℕ → ℕ
id_or_zero none = 0
id_or_zero (some id) = id

-- `Walk` with the function that sets the report id of each data item.
unfoldable mutual
  pub renumber : Map ℕ → Collection → Collection
  renumber m (collection t p u items) = collection t p u (renumber_items m items)

  pub renumber_items : Map ℕ → Items → Items
  renumber_items m nil = nil
  renumber_items m (cons x xs) = cons (renumber_item m x) (renumber_items m xs)

  pub renumber_item : Map ℕ → MainItem → MainItem
  renumber_item m (item t d) = item t (record d { report_id = id_or_zero (m d.report_id) })
  renumber_item m (nested c) = nested (renumber m c)

unfoldable pub renumber_all : Map ℕ → List Collection → List Collection
unfolding renumber
renumber_all m [] = []
renumber_all m (c ∷ cs) = renumber m c ∷ renumber_all m cs

-- One device: the map with its ids, and its collections with the new ids.
unfoldable pub add_input : Map ℕ → ReportDescriptor → Option (Map ℕ × List Collection)
unfolding assign_ids renumber_all
add_input m desc =
    Option.map (λ m'. (m', renumber_all m' desc)) (assign_ids m (new_data_item_set desc).report_ids)

-- The results of `buildDescriptor`, with the address that an error names.
pub data Built {ℓ} (A : Type ℓ) : Type ℓ where
  built : List Collection → Built A
  no_inputs none_connected : Built A
  no_descriptor : A → Built A
  panics hangs : Built A

abbrev pub add_collections {ℓ} : {A : Type ℓ} → List Collection → Built A → Built A
add_collections cs (built rest) = built (cs ++ rest)
add_collections cs r = r

abbrev pub none_if_empty {ℓ} : {A : Type ℓ} → Built A → Built A
none_if_empty (built []) = none_connected
none_if_empty r = r

-- What follows the ids of a device, the decoding of its descriptor, and the look for it.
abbrev pub join_added {ℓ} :
    {A : Type ℓ} → Option (Map ℕ × List Collection) → (Map ℕ → Built A) → Built A
join_added none next = hangs
join_added (some (m, cs)) next = add_collections cs (next m)

abbrev pub join_decoded {ℓ} :
    {A : Type ℓ} → Map ℕ → Result ReportDescriptor → (Map ℕ → Built A) → Built A
join_decoded m (err e) next = next m
join_decoded m panic next = panics
join_decoded m (ok desc) next = join_added (add_input m desc) next

abbrev pub join_found {ℓ} :
    {A : Type ℓ} → Map ℕ → A → Option (List (List ℕ)) → (Map ℕ → Built A) → Built A
join_found m addr none next = no_descriptor addr
join_found m addr (some chunks) next = join_decoded m (decode chunks) next

-- The descriptor that the service has for an address, as the chunks that the decoder reads, is a
-- parameter: it comes from a database. A descriptor that is not decoded is left out.
module _ {ℓ} {A : Type ℓ} (get_report_descriptor : A → Option (List (List ℕ))) where
  unfoldable pub join_inputs : Map ℕ → List A → Built A
  join_inputs m [] = built []
  join_inputs m (addr ∷ addrs) =
      join_found m addr (get_report_descriptor addr) (λ m'. join_inputs m' addrs)

  unfoldable pub build_descriptor : List A → Built A
  unfolding join_inputs
  build_descriptor [] = no_inputs
  build_descriptor (addr ∷ addrs) = none_if_empty (join_inputs empty_map (addr ∷ addrs))
