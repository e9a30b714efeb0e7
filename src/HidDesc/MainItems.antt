-- ===== src/HidDesc/MainItems.antt =====
-- What the decoder does on a main item and on a collection's first and last bytes.
use neio_agent.Prelude.{
  ℕ, ◌≡◌, ◌<◌, refl, sym, ap, ◌∙◌, Option, some, none, List, [], ◌∷◌, ◌++◌, drop, arith, IsU16,
}
use mathlib.Core.Path.{subst}
use neio_agent.HidDesc.{
  MainItemType, input, output, feature, DataItem, Collection, collection, Items, nil, cons,
  MainItem, item, snoc, append_items, add_item,
}
use neio_agent.HidDesc.Tags.{tag_collection, tag_end_collection}
use neio_agent.HidDesc.Payload.{ok, err, no_open_collection}
use neio_agent.HidDesc.State.{State, no_local}
use neio_agent.HidDesc.Commands.{
  main, open_collection, end_collection, exec, command_of, cmd_main, cmd_collection,
  cmd_end_collection, push_collection, close_collection,
}
use neio_agent.HidDesc.Encoder
use neio_agent.HidDesc.Encoder.{
  Encoder, encode_tag, encode_tag8, encode_tag32, encode_data_item, encode_collection, encode_items,
  encode_main_item, encode_collections, encode, main_tag, set_local, encode_usage_id,
  encode_usage_page,
}
use neio_agent.HidDesc.Feed.{idle}
use neio_agent.HidDesc.Segments.{IsTag, parse_tag, parse_tag8, parse_tag32}
use neio_agent.HidDesc.Tracking.{Runs, Runs-trans, segment}
use neio_agent.HidDesc.Globals.{encode_usage_page-Step}
use neio_agent.HidDesc.Locals.{encode_usage_id-Step}
use neio_agent.HidDesc.Writable.{IsWritable}
use neio_agent.HidDesc.Parts.{
  item_global, item_local, IsFresh, IsFresh-Tracks, item_parts, item_parts-Step,
  encode_usage_page-local,
}

pub append_items-nil : (xs : Items) → append_items xs nil ≡ xs
append_items-nil nil = refl
append_items-nil (cons x xs) = ap (cons x) (append_items-nil xs)

pub snoc-append_items :
    (xs : Items) (y : MainItem) (ys : Items)
    → append_items (snoc xs y) ys ≡ append_items xs (cons y ys)
snoc-append_items nil y ys = refl
snoc-append_items (cons x xs) y ys = ap (cons x) (snoc-append_items xs y ys)

-- The decoder behind a main item: the encoder's global state, and the new collections.
abbrev pub settle : Encoder → State → Option Collection → List Collection → State
settle e s c cs = record s { global = e.global; local = no_local; collection = c; collections = cs }

abbrev pub Advances : Encoder → State → Encoder → Option Collection → List Collection → Type 0
Advances e s e' c cs = Runs e s e' (settle e' s c cs) × (e'.local ≡ no_local)

main_tag-IsTag : (t : MainItemType) → IsTag (main t) (main_tag t)
unfolding command_of
main_tag-IsTag input = (refl, omega arith, refl)
main_tag-IsTag output = (refl, omega arith, refl)
main_tag-IsTag feature = (refl, omega arith, refl)

tag32_payload : (t v : ℕ) → v < 256 → drop 1 (encode_tag32 t v) ≡ v ∷ []
unfolding encode_tag32 encode_tag8
tag32_payload t v h = ground arith

pub encode_data_item-Advances :
    (t : MainItemType) (d : DataItem) (c : Collection) (e : Encoder) (s : State)
    → IsWritable d
    → IsFresh e s
    → s.collection ≡ some c
    → Advances e s (encode_data_item t d e) (some (add_item c (item t d))) s.collections
unfolding encode_data_item exec cmd_main
encode_data_item-Advances t d c e s w f h =
    let e' = item_parts d e in
    let s' : State = record s { global = item_global d; local = item_local d } in
    let e'' = encode_data_item t d e in
    let (run, u) = item_parts-Step d w e s f in
    let bs = encode_tag32 (main_tag t) d.flags in
    let s'' : State = record s {
      global = item_global d;
      local = no_local;
      collection = some (add_item c (item t d));
    } in
    let last : Runs e' s' e'' s'' =
      segment (main t) (main_tag t) (main_tag-IsTag t) e' s' e'' s'' bs refl
        (parse_tag32 (main t) (main_tag t) (main_tag-IsTag t) s' d.flags)
        (rw (tag32_payload (main_tag t) d.flags w.flags, h) refl) in
    (
      subst (λ g. Runs e s e'' (record s'' { global = g })) (sym u.global)
          (Runs-trans e s e' s' e'' s'' run last),
      refl,
    )

-- The decoder inside a collection that was just opened.
abbrev pub opened : ℕ → ℕ → ℕ → Encoder → State → State
opened t p u e s = record s {
  global = e.global;
  local = no_local;
  collection = some (collection t p u nil);
  collection_stack = push_collection s.collection s.collection_stack;
}

open_collection-Runs :
    (t p u : ℕ) (e : Encoder) (s : State)
    → IsU16 p
    → 0 < u
    → IsU16 u
    → IsFresh e s
    → Runs e s (Encoder.open_collection t p u e) (opened t p u (Encoder.open_collection t p u e) s)
unfolding Encoder.open_collection exec cmd_collection encode_tag8 command_of
open_collection-Runs t p u e s hp pos hu f =
    let e1 = encode_usage_page p e in
    let s1 : State = record s { global = record s.global { usage_page = p } } in
    let e2 = encode_usage_id u e1 in
    let s2 : State = record s1 { local = record s1.local { usage = s1.local.usage ++ (u ∷ []) } } in
    let e3 = Encoder.open_collection t p u e in
    let s3 : State = record s {
      global = s1.global;
      local = no_local;
      collection = some (collection t p u nil);
      collection_stack = push_collection s.collection s.collection_stack;
    } in
    let tag : IsTag open_collection tag_collection = (refl, omega arith, refl) in
    let none_yet : e1.local.usage ≡ [] =
      ap (λ l. l.usage) (encode_usage_page-local p e ∙ f.encoder) in
    let (run1, t1) = encode_usage_page-Step p e s (IsFresh-Tracks e s f) hp in
    let ((run2, t2), _) = encode_usage_id-Step u 0 e1 s1 t1 none_yet pos hu (ground arith) in
    let last : Runs e2 s2 e3 s3 =
      segment open_collection tag_collection tag e2 s2 e3 s3 (encode_tag8 tag_collection t) refl
        (parse_tag8 open_collection tag_collection tag s2 t) (rw (f.decoder) refl) in
    subst (λ g. Runs e s e3 (record s3 { global = g })) (sym t2.global)
      (Runs-trans e s e1 s1 e3 s3 run1 (Runs-trans e1 s1 e2 s2 e3 s3 run2 last))

close_idle :
    (c : Collection) (stack : List Collection) (s : State)
    → close_collection c stack (idle s) ≡ idle (close_collection c stack s)
close_idle c [] s = refl
close_idle c (d ∷ stack) s = refl

close_collection-Runs :
    (c : Collection) (e : Encoder) (s : State)
    → s.collection ≡ some c
    → Runs e s (Encoder.close_collection e) (close_collection c s.collection_stack s)
unfolding Encoder.close_collection exec cmd_end_collection encode_tag command_of
close_collection-Runs c e s h =
    let tag : IsTag end_collection tag_end_collection = (refl, omega arith, refl) in
    segment end_collection tag_end_collection tag e s (Encoder.close_collection e)
      (close_collection c s.collection_stack s) (encode_tag tag_end_collection) refl
      (parse_tag end_collection tag_end_collection tag s)
      (ap
          (λ o. elim o [
            | none ↦ err no_open_collection
            | some d ↦ ok (close_collection d s.collection_stack (idle s))
          ])
          h
        ∙ ap ok (close_idle c s.collection_stack s))

pub settled :
    (e : Encoder) (s : State) (c : Option Collection) (cs : List Collection)
    → e.local ≡ no_local
    → IsFresh e (settle e s c cs)
settled e s c cs h = record { global = refl; encoder = h; decoder = refl }

pub settle_self :
    (e : Encoder) (s : State) (o : Option Collection)
    → IsFresh e s
    → s.collection ≡ o
    → s ≡ settle e s o s.collections
settle_self e s o f h =
    ap (λ g. record s { global = g }) (sym f.global)
    ∙ ap (λ l. record s { global = e.global; local = l }) f.decoder
    ∙ ap (λ o. record s { global = e.global; local = no_local; collection = o }) h

pub open_collection-IsFresh :
    (t p u : ℕ) (e : Encoder) (s : State)
    → IsFresh (Encoder.open_collection t p u e) (opened t p u (Encoder.open_collection t p u e) s)
unfolding Encoder.open_collection
open_collection-IsFresh t p u e s = record { global = refl; encoder = refl; decoder = refl }

pub encode_collection-global :
    (t p u : ℕ) (xs : Items) (e : Encoder)
    → (encode_collection (collection t p u xs) e).global
      ≡ (encode_items xs (Encoder.open_collection t p u e)).global
unfolding encode_collection Encoder.close_collection
encode_collection-global t p u xs e = refl

pub encode_collection-local :
    (t p u : ℕ) (xs : Items) (e : Encoder)
    → (encode_collection (collection t p u xs) e).local ≡ no_local
unfolding encode_collection Encoder.close_collection
encode_collection-local t p u xs e = refl

-- A collection, given its items.
pub collection-Runs :
    (t p u : ℕ) (xs : Items) (e : Encoder) (s : State)
    → IsU16 p
    → 0 < u
    → IsU16 u
    → IsFresh e s
    → (let e' = Encoder.open_collection t p u e in
        Advances e'
          (opened t p u e' s)
          (encode_items xs e')
          (some (collection t p u xs))
          s.collections)
    → (stack : List Collection) → push_collection s.collection s.collection_stack ≡ stack
    → Runs e s (encode_collection (collection t p u xs) e) (
        close_collection
          (collection t p u xs)
          stack
          (record (settle
            (encode_items xs (Encoder.open_collection t p u e))
            s
            (some (collection t p u xs))
            s.collections) { collection_stack = stack }))
unfolding encode_collection
collection-Runs t p u xs e s hp pos hu f (run, l) stack same =
    let c = collection t p u xs in
    let e1 = Encoder.open_collection t p u e in
    let s1 = opened t p u e1 s in
    let e2 = encode_items xs e1 in
    let s2 = settle e2 s1 (some c) s.collections in
    let e3 = Encoder.close_collection e2 in
    let to = close_collection c s1.collection_stack s2 in
    let all : Runs e s e3 to =
      Runs-trans e s e1 s1 e3 to (open_collection-Runs t p u e s hp pos hu f)
        (Runs-trans e1 s1 e2 s2 e3 to run (close_collection-Runs c e2 s2 refl)) in
    subst (λ x. Runs e s e3 x)
      (ap (λ st. close_collection c st (record s2 { collection_stack = st })) same) all
