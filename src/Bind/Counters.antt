-- ===== src/Bind/Counters.antt =====
-- components/nodes/bind.go: the counters of a trigger as a map, and how many of them there are.
use neio_agent.Prelude.{
  IsDistinct, ℕ, suc, ◌+◌, ◌-◌, ◌<◌, ◌≤◌, ◌≡◌, refl, sym, ap, ◌∙◌, Bool, true, false, ◌||◌, ◌&&◌,
  List, [], ◌∷◌, if◌then◌else◌, ◌==◌, ltb, length, arith, Bool-cases, inl, inr, member, ==_iff,
}
use neio_agent.Event.Activations.{count_after}
use neio_agent.Bind.{Counts, count_of, put_count, delete_count, count_activation}

abbrev pub has_key : ℕ → Counts → Bool
has_key u [] = false
has_key u ((k, n) ∷ m) = u == k || has_key u m

-- The keys are distinct usages of the trigger, and the counts positive.
abbrev pub IsTidy : List ℕ → Counts → Type 0
IsTidy us [] = Unit
IsTidy us ((k, n) ∷ m) = (member k us ≡ true) × (0 < n) × (has_key k m ≡ false) × IsTidy us m

pub has_key-count_of :
    (us : List ℕ) (m : Counts) (u : ℕ) → IsTidy us m → has_key u m ≡ ltb 0 (count_of m u)
has_key-count_of us [] u h = refl
has_key-count_of us ((k, n) ∷ m) u h = ground (arith, has_key-count_of us m u)

count_of-put_count :
    (m : Counts) (u n v : ℕ) → count_of (put_count m u n) v ≡ (if v == u then n else count_of m v)
count_of-put_count [] u n v = ground arith
count_of-put_count ((k, c) ∷ m) u n v = ground (arith, count_of-put_count m u n v)

count_of-delete_count :
    (m : Counts) (u v : ℕ) → count_of (delete_count m u) v ≡ (if v == u then 0 else count_of m v)
count_of-delete_count [] u v = ground arith
count_of-delete_count ((k, c) ∷ m) u v = ground (arith, count_of-delete_count m u v)

has_key-put_count : (m : Counts) (u n v : ℕ) → has_key v (put_count m u n) ≡ (v == u || has_key v m)
has_key-put_count [] u n v = ground arith
has_key-put_count ((k, c) ∷ m) u n v = ground (arith, has_key-put_count m u n v)

has_key-delete_count :
    (m : Counts) (u v : ℕ) → has_key v (delete_count m u) ≡ (if v == u then false else has_key v m)
has_key-delete_count [] u v = ground arith
has_key-delete_count ((k, c) ∷ m) u v = ground (arith, has_key-delete_count m u v)

put_count-IsTidy :
    (us : List ℕ) (m : Counts) (u n : ℕ)
    → member u us ≡ true
    → 0 < n
    → IsTidy us m
    → IsTidy us (put_count m u n)
put_count-IsTidy us [] u n here pos h = (here, pos, refl, tt)
put_count-IsTidy us ((k, c) ∷ m) u n here pos h = elim (Bool-cases (u == k)) [
  | inl same ↦ rw same (h.0, pos, h.2, h.3)
  | inr other ↦
      rw other (
        h.0,
        h.1,
        ground (arith, has_key-put_count m u n k),
        put_count-IsTidy us m u n here pos h.3,
      )
]

delete_count-IsTidy :
    (us : List ℕ) (m : Counts) (u : ℕ) → IsTidy us m → IsTidy us (delete_count m u)
delete_count-IsTidy us [] u h = tt
delete_count-IsTidy us ((k, c) ∷ m) u h = elim (Bool-cases (u == k)) [
  | inl same ↦ rw same (delete_count-IsTidy us m u h.3)
  | inr other ↦
      rw other
        (h.0, h.1, ground (arith, has_key-delete_count m u k), delete_count-IsTidy us m u h.3)
]

-- One activation of a usage of the trigger changes its count, and keeps the map tidy.
pub count_activation_lem :
    (us : List ℕ) (m : Counts) (u : ℕ) (on : Bool)
    → member u us ≡ true
    → IsTidy us m
    → IsTidy us (count_activation m u on)
      × ((v : ℕ)
          → count_of (count_activation m u on) v
            ≡ (if v == u then count_after on (count_of m v) else count_of m v))
count_activation_lem us m u true here h = (
  put_count-IsTidy us m u (count_of m u + 1) here (omega arith) h,
  λ v. count_of-put_count m u (count_of m u + 1) v ∙ ground arith,
)
count_activation_lem us m u false here h = elim (Bool-cases (count_of m u - 1 == 0)) [
  | inl gone ↦
      rw gone (delete_count-IsTidy us m u h, λ v. count_of-delete_count m u v ∙ ground arith)
  | inr stays ↦ rw stays (
    put_count-IsTidy us m u (count_of m u - 1) here (ground arith) h,
    λ v. count_of-put_count m u (count_of m u - 1) v ∙ ground arith,
  )
]

-- The usages that have a count.
abbrev held : List ℕ → Counts → ℕ
held [] m = 0
held (u ∷ us) m = if has_key u m then suc (held us m) else held us m

held-nil : (us : List ℕ) → held us [] ≡ 0
held-nil [] = refl
held-nil (u ∷ us) = held-nil us

held-absent :
    (us : List ℕ) (k n : ℕ) (m : Counts) → member k us ≡ false → held us ((k, n) ∷ m) ≡ held us m
held-absent [] k n m h = refl
held-absent (u ∷ us) k n m h = ground (arith, held-absent us k n m)

held-cons :
    (us : List ℕ) (k n : ℕ) (m : Counts)
    → IsDistinct us
    → member k us ≡ true
    → has_key k m ≡ false
    → held us ((k, n) ∷ m) ≡ suc (held us m)
held-cons [] k n m d here new = ground arith
held-cons (u ∷ us) k n m d here new = elim (Bool-cases (k == u)) [
  | inl same ↦
      let e : k ≡ u = (==_iff k u).0 same in
      let rest = held-absent us k n m (ap (λ w. member w us) e ∙ d.0) in
      ground (arith, ap (λ w. has_key w m) e)
  | inr other ↦ ground (arith, held-cons us k n m d.1)
]

-- A tidy map has as many entries as usages have a count.
length-held : (us : List ℕ) (m : Counts) → IsDistinct us → IsTidy us m → length m ≡ held us m
length-held us [] d h = sym (held-nil us)
length-held us ((k, n) ∷ m) d h =
    omega (arith, length-held us m d h.3, held-cons us k n m d h.0 h.2)

held-le : (us : List ℕ) (m : Counts) → held us m ≤ length us
held-le [] m = omega arith
held-le (u ∷ us) m = ground (arith, held-le us m)

abbrev pub all_held : List ℕ → Counts → Bool
all_held [] m = true
all_held (u ∷ us) m = ltb 0 (count_of m u) && all_held us m

held-all_held :
    (ws us : List ℕ) (m : Counts) → IsTidy ws m → (held us m == length us) ≡ all_held us m
held-all_held ws [] m h = refl
held-all_held ws (u ∷ us) m h =
    ground (arith, has_key-count_of ws m u, held-le us m, held-all_held ws us m h)

-- The number of entries is that of the usages just where each usage has a positive count.
pub length-all_held :
    (us : List ℕ) (m : Counts)
    → IsDistinct us
    → IsTidy us m
    → (length m == length us) ≡ all_held us m
length-all_held us m d h = ap (λ n. n == length us) (length-held us m d h) ∙ held-all_held us us m h
