-- ===== src/Usages/Flags.antt =====
-- The flag sets: setting or clearing one usage leaves the others as they were.
use neio_agent.Prelude.{
  ℕ, suc, ◌-◌, ◌<◌, ◌≤◌, ◌≡◌, ◌≢◌, ◌⊎◌, refl, sym, ap, ◌∙◌, true, false, Option, some, List, [],
  ◌∷◌, if◌then◌else◌, ◌==◌, arith, Option-cases, Bool-cases, inl, inr, IsU32, ==_iff, ==_of_eq,
  ==_of_ne, get_elem?, insert, empty_map, Map,
}
use neio_agent.Bits.{Bits, IsValid, len, set_at, clear_at}
use neio_agent.Bits.Update.{is_set-set_at, is_set-clear_at}
use neio_agent.Usages.{
  page, id, new_usage_flag_map, index_ids, flag_index, UsageRangeFlags, in_range, range_index,
  has_at, update_at, flag_has_usage, flag_set_usage, flag_clear_usage, range_has_usage,
  range_set_usage, range_clear_usage,
}

-- A place function that tells usages apart.
module _ (index : ℕ → Option ℕ)
    (apart : (u v i : ℕ) → IsU32 u → IsU32 v → index u ≡ some i → index v ≡ some i → u ≡ v) where
  has-set :
      (b : Bits) (u v i : ℕ)
      → IsValid b
      → IsU32 u
      → IsU32 v
      → index u ≡ some i
      → i < len b
      → has_at (index v) (update_at set_at (index u) b).0
        ≡ (if u == v then true else has_at (index v) b)
  has-set b u v i valid hu hv e h = elim (Bool-cases (u == v)) [
    | inl same ↦
        let p : u ≡ v = (==_iff _ _).0 same in
        let q : index v ≡ some i = ap index (sym p) ∙ e in
        rw (e, q, same) (is_set-set_at b i i valid h ∙ rw (==_of_eq {a = i} refl) refl)
    | inr other ↦ elim (Option-cases (index v)) [
      | inl absent ↦ rw (e, absent, other) refl
      | inr (j, q) ↦
          let ne : (i == j) ≡ false =
            ==_of_ne
              (λ (p : i ≡ j). differs u v other (apart u v i hu hv e (q ∙ ap some (sym p)))) in
          rw (e, q, other) (is_set-set_at b i j valid h ∙ rw ne refl)
    ]
  ]
    where
      differs : (u v : ℕ) → (u == v) ≡ false → u ≢ v
      differs u v h e = ground arith

  has-clear :
      (b : Bits) (u v i : ℕ)
      → IsValid b
      → IsU32 u
      → IsU32 v
      → index u ≡ some i
      → i < len b
      → has_at (index v) (update_at clear_at (index u) b).0
        ≡ (if u == v then false else has_at (index v) b)
  has-clear b u v i valid hu hv e h = elim (Bool-cases (u == v)) [
    | inl same ↦
        let p : u ≡ v = (==_iff _ _).0 same in
        let q : index v ≡ some i = ap index (sym p) ∙ e in
        rw (e, q, same) (is_set-clear_at b i i valid h ∙ rw (==_of_eq {a = i} refl) refl)
    | inr other ↦ elim (Option-cases (index v)) [
      | inl absent ↦ rw (e, absent, other) refl
      | inr (j, q) ↦
          let ne : (i == j) ≡ false =
            ==_of_ne
              (λ (p : i ≡ j). differs u v other (apart u v i hu hv e (q ∙ ap some (sym p)))) in
          rw (e, q, other) (is_set-clear_at b i j valid h ∙ rw ne refl)
    ]
  ]
    where
      differs : (u v : ℕ) → (u == v) ≡ false → u ≢ v
      differs u v h e = ground arith

range_index-apart :
    (s : UsageRangeFlags) (u v i : ℕ)
    → IsU32 u
    → IsU32 v
    → range_index s u ≡ some i
    → range_index s v ≡ some i
    → u ≡ v
range_index-apart s u v i hu hv e f = ground (arith, e, f)

pub index_ids_sound :
    (i : ℕ) (xs : List ℕ) (m : Map ℕ) (k j : ℕ)
    → index_ids i xs m k ≡ some j
    → (m k ≡ some j) ⊎ ((i ≤ j) × (get_elem? xs (j - i) ≡ some k))
index_ids_sound i [] m k j h = inl h
index_ids_sound i (x ∷ xs) m k j h = elim (index_ids_sound (suc i) xs (insert m x i) k j h) [
  | inr (le, e) ↦ let n : j - i ≡ suc (j - suc i) = omega arith in inr (omega arith, rw n e)
  | inl e ↦ elim (Bool-cases (k == x)) [
    | inr other ↦ inl (sym (rw other refl) ∙ e)
    | inl same ↦
        let p : i ≡ j = ground (arith, e) in
        let n : j - i ≡ 0 = omega arith in
        inr (omega arith, rw n (ap some (sym ((==_iff _ _).0 same))))
  ]
]

flag_index-apart :
    (p : ℕ) (ids : List ℕ) (u v i : ℕ)
    → IsU32 u
    → IsU32 v
    → flag_index (new_usage_flag_map p ids) u ≡ some i
    → flag_index (new_usage_flag_map p ids) v ≡ some i
    → u ≡ v
flag_index-apart p ids u v i hu hv e f =
    let pu : p ≡ page u = ground (arith, e) in
    let pv : p ≡ page v = ground (arith, f) in
    let iu : index_ids 0 ids empty_map (id u) ≡ some i = sym (rw (==_of_eq pu) refl) ∙ e in
    let iv : index_ids 0 ids empty_map (id v) ≡ some i = sym (rw (==_of_eq pv) refl) ∙ f in
    let same : id u ≡ id v = ground (
      arith,
      index_ids_sound 0 ids empty_map (id u) i iu,
      index_ids_sound 0 ids empty_map (id v) i iv,
    ) in
    omega (arith, same)

-- In a range of single-bit flags, setting or clearing a usage whose bit lies in the field changes what
-- the set has for this usage only.
pub range_usage_lem :
    (s : UsageRangeFlags) (b : Bits) (u v : ℕ)
    → IsValid b
    → IsU32 u
    → IsU32 v
    → in_range s u ≡ true
    → id u - s.minimum < len b
    → (range_has_usage s (range_set_usage s b u).0 v
        ≡ (if u == v then true else range_has_usage s b v))
      × (range_has_usage s (range_clear_usage s b u).0 v
          ≡ (if u == v then false else range_has_usage s b v))
unfolding range_has_usage range_set_usage range_clear_usage
range_usage_lem s b u v valid hu hv h n =
    let i = id u - s.minimum in
    let e : range_index s u ≡ some i = rw h refl in
    (
      has-set (range_index s) (range_index-apart s) b u v i valid hu hv e n,
      has-clear (range_index s) (range_index-apart s) b u v i valid hu hv e n,
    )

-- In a list of usages of single bits, which may have an id twice, setting or clearing a usage whose bit
-- lies in the field changes what the set has for this usage only.
pub flag_usage_lem :
    (p : ℕ) (ids : List ℕ) (b : Bits) (u v i : ℕ)
    → IsValid b
    → IsU32 u
    → IsU32 v
    → flag_index (new_usage_flag_map p ids) u ≡ some i
    → i < len b
    → (let s = new_usage_flag_map p ids in
        (flag_has_usage s (flag_set_usage s b u).0 v
          ≡ (if u == v then true else flag_has_usage s b v))
        × (flag_has_usage s (flag_clear_usage s b u).0 v
            ≡ (if u == v then false else flag_has_usage s b v)))
unfolding flag_has_usage flag_set_usage flag_clear_usage
flag_usage_lem p ids b u v i valid hu hv e n =
    let index = flag_index (new_usage_flag_map p ids) in
    (
      has-set index (flag_index-apart p ids) b u v i valid hu hv e n,
      has-clear index (flag_index-apart p ids) b u v i valid hu hv e n,
    )
