-- ===== src/HidDesc/RoundTrip.antt =====
-- The encoder against the decoder: item by item, collection by collection, and as a whole.
use neio_agent.Prelude.{
  ℕ, ◌≡◌, refl, sym, ap, ◌∙◌, some, none, List, [], ◌∷◌, ◌++◌, append_assoc, append-nil, All,
}
use mathlib.Core.Path.{subst}
use neio_agent.HidDesc.{
  Collection, collection, Items, nil, cons, MainItem, item, nested, ReportDescriptor, snoc,
  append_items, add_item,
}
use neio_agent.HidDesc.Payload.{Result, ok, ◌>>=◌}
use neio_agent.HidDesc.State.{State, no_local, no_global, init_state}
use neio_agent.HidDesc.Commands.{push_collection}
use neio_agent.HidDesc.Decoder.{parse_bytes, parse_chunks, decode}
use neio_agent.HidDesc.Encoder
use neio_agent.HidDesc.Encoder.{
  Encoder, encode_tag, encode_tag8, encode_tag32, encode_data_item, encode_collection, encode_items,
  encode_main_item, encode_collections, encode, main_tag, set_local, encode_usage_id,
  encode_usage_page,
}
use neio_agent.HidDesc.Tracking.{Runs, Runs-refl, Runs-trans}
use neio_agent.HidDesc.Writable.{IsWritableCollection, AreWritable, IsWritableItem}
use neio_agent.HidDesc.Parts.{IsFresh}
use neio_agent.HidDesc.MainItems.{
  append_items-nil, snoc-append_items, settle, Advances, encode_data_item-Advances, opened, settled,
  settle_self, open_collection-IsFresh, encode_collection-global, encode_collection-local,
  collection-Runs,
}

mutual
  unfolding encode_items encode_main_item encode_collection AreWritable IsWritableItem
      IsWritableCollection

  encode_items-Advances :
      (xs : Items) (t p u : ℕ) (before : Items) (e : Encoder) (s : State)
      → AreWritable xs
      → IsFresh e s
      → s.collection ≡ some (collection t p u before)
      → Advances e s
          (encode_items xs e)
          (some (collection t p u (append_items before xs)))
          s.collections
  encode_items-Advances nil t p u before e s w f h = (
    subst (λ y. Runs e s e y)
        (settle_self e s (some (collection t p u before)) f h
          ∙ ap (λ ys. settle e s (some (collection t p u ys)) s.collections)
              (sym (append_items-nil before)))
        (Runs-refl e s),
    f.encoder,
  )
  encode_items-Advances (cons x xs) t p u before e s (w, ws) f h =
      let e' = encode_main_item x e in
      let c = collection t p u (snoc before x) in
      let (run, l) = encode_main_item-Advances x (collection t p u before) e s w f h in
      let s' = settle e' s (some c) s.collections in
      let (run', l') =
        encode_items-Advances xs t p u (snoc before x) e' s' ws
          (settled e' s (some c) s.collections l) refl in
      subst (λ ys. Advances e s (encode_items xs e') (some (collection t p u ys)) s.collections)
        (snoc-append_items before x xs)
        (
          Runs-trans e s e' s' (encode_items xs e')
              (settle (encode_items xs e') s
                (some (collection t p u (append_items (snoc before x) xs))) s.collections)
              run run',
          l',
        )

  encode_main_item-Advances :
      (x : MainItem) (c : Collection) (e : Encoder) (s : State)
      → IsWritableItem x
      → IsFresh e s
      → s.collection ≡ some c
      → Advances e s (encode_main_item x e) (some (add_item c x)) s.collections
  encode_main_item-Advances (item t d) c e s w f h = encode_data_item-Advances t d c e s w f h
  encode_main_item-Advances (nested (collection t p u xs)) c e s (ht, hp, pos, hu, ws) f h =
      let e1 = Encoder.open_collection t p u e in
      let s1 = opened t p u e1 s in
      let d = collection t p u xs in
      let inner =
        encode_items-Advances xs t p u nil e1 s1 ws (open_collection-IsFresh t p u e s) refl in
      let run =
        collection-Runs t p u xs e s hp pos hu f inner (c ∷ s.collection_stack)
          (ap (λ o. push_collection o s.collection_stack) h) in
      (
        subst
            (λ g. Runs e s (encode_collection d e) (record s {
              global = g;
              local = no_local;
              collection = some (add_item c (nested d));
            }))
            (sym (encode_collection-global t p u xs e)) run,
        encode_collection-local t p u xs e,
      )

top_level-Runs :
    (c : Collection) (e : Encoder) (s : State)
    → IsWritableCollection c
    → IsFresh e s
    → s.collection ≡ none
    → s.collection_stack ≡ []
    → Advances e s (encode_collection c e) none (s.collections ++ (c ∷ []))
unfolding IsWritableCollection
top_level-Runs (collection t p u xs) e s (ht, hp, pos, hu, ws) f h st =
    let e1 = Encoder.open_collection t p u e in
    let d = collection t p u xs in
    let inner =
      encode_items-Advances xs t p u nil e1 (opened t p u e1 s) ws
        (open_collection-IsFresh t p u e s) refl in
    let run =
      collection-Runs t p u xs e s hp pos hu f inner []
        (ap (λ o. push_collection o s.collection_stack) h ∙ st) in
    (
      subst
          (λ g. Runs e s (encode_collection d e) (record s {
            global = g;
            local = no_local;
            collection = none;
            collections = s.collections ++ (d ∷ []);
          }))
          (sym (encode_collection-global t p u xs e))
          (subst
            (λ k. Runs e s (encode_collection d e) (record s {
              global = (encode_items xs e1).global;
              local = no_local;
              collection = none;
              collections = s.collections ++ (d ∷ []);
              collection_stack = k;
            }))
            (sym st) run),
      encode_collection-local t p u xs e,
    )

collections-Runs :
    (cs : List Collection) (e : Encoder) (s : State)
    → All IsWritableCollection cs
    → IsFresh e s
    → s.collection ≡ none
    → s.collection_stack ≡ []
    → Advances e s (encode_collections cs e) none (s.collections ++ cs)
unfolding encode_collections
collections-Runs [] e s w f h st = (
  subst (λ y. Runs e s e y)
      (settle_self e s none f h ∙ ap (settle e s none) (sym (append-nil s.collections)))
      (Runs-refl e s),
  f.encoder,
)
collections-Runs (c ∷ cs) e s (w, ws) f h st =
    let e' = encode_collection c e in
    let (run, l) = top_level-Runs c e s w f h st in
    let s' = settle e' s none (s.collections ++ (c ∷ [])) in
    let e'' = encode_collections cs e' in
    let (run', l') =
      collections-Runs cs e' s' ws (settled e' s none (s.collections ++ (c ∷ [])) l) refl st in
    (
      subst (λ l. Runs e s e'' (settle e'' s none l)) (append_assoc s.collections (c ∷ []) cs)
          (Runs-trans e s e' s' e'' (settle e'' s none ((s.collections ++ (c ∷ [])) ++ cs)) run
            run'),
      l',
    )

-- A writable descriptor is encoded to bytes that `Decode`, given them in one read, decodes to the same
-- descriptor: its numbers are of their Go types, the flags of a data item fit one byte, no usage id is 0
-- or equal to the one before it in its item, the int32 fields are numbers that `encodeTagi32` keeps, and
-- a collection has a usage id other than 0.
pub decode-encode :
    (d : ReportDescriptor) → All IsWritableCollection d → decode (encode d ∷ []) ≡ ok d
unfolding decode encode parse_chunks parse_bytes
decode-encode d w =
    let e : Encoder = record { global = no_global; local = no_local; out = [] } in
    let ((bs, p, run), _) =
      collections-Runs d e init_state w (record { global = refl; encoder = refl; decoder = refl })
        refl refl in
    let finish : Result State → Result ReportDescriptor =
      λ r. (r >>= λ s'. ok s') >>= λ s. ok s.collections in
    ap (λ b. finish (parse_bytes init_state b)) (p ∙ sym (append-nil bs)) ∙ ap finish (run [])
