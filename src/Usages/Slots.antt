-- ===== src/Usages/Slots.antt =====
-- The slots of one byte: what setting and clearing a usage does to the usages that the field has.
use neio_agent.Prelude.{
  ℕ, ◌<◌, ◌≡◌, ◌≢◌, refl, sym, ◌∙◌, false, not, ◌&&◌, ◌||◌, List, [], ◌∷◌, ◌==◌, arith, u8,
  Bool-cases, inl, inr, ==_of_ne, ==_iff,
}
use neio_agent.Usages.Selector.{has8, set8, shift8, clear8}

-- The slots in use come first, and no id is in two of them.
abbrev pub IsCompact : List ℕ → Type 0
IsCompact [] = Unit
IsCompact (x ∷ xs) =
    (x ≡ 0 → (v : ℕ) → v ≢ 0 → has8 v xs ≡ false) × (x ≢ 0 → has8 x xs ≡ false) × IsCompact xs

-- Setting an id below 256: for any id other than 0, the slots have it behind the set if they had it, or
-- if it is the id set and a slot was empty.
pub has8-set8 :
    (k v : ℕ) (xs : List ℕ)
    → k < 256
    → v ≢ 0
    → has8 v (set8 k xs) ≡ (has8 v xs || (v == k && has8 0 xs))
unfolding has8 set8
has8-set8 k v [] hk hv = ground arith
has8-set8 k v (x ∷ xs) hk hv = ground (arith, has8-set8 k v xs hk hv)

has8-shift8 : (v : ℕ) (xs : List ℕ) → v ≢ 0 → has8 v (shift8 xs) ≡ has8 v xs
unfolding has8 shift8
has8-shift8 v [] hv = ground arith
has8-shift8 v (x ∷ xs) hv = ground (arith, has8-shift8 v xs hv)

-- Clearing an id other than 0 in slots whose used ones come first and hold an id once: the slots have
-- lost this id and no other.
pub has8-clear8 :
    (k v : ℕ) (xs : List ℕ)
    → IsCompact xs
    → k ≢ 0
    → v ≢ 0
    → has8 v (clear8 k xs) ≡ (has8 v xs && not (v == k))
unfolding has8 clear8
has8-clear8 k v [] c hk hv = refl
has8-clear8 k v (x ∷ xs) (empty, once, c) hk hv = elim (Bool-cases (x == 0)) [
  | inl z ↦ ground (arith, z, empty ((==_iff x 0).0 z) v hv)
  | inr z ↦ ground (arith, z, once (ground arith), has8-shift8 v xs hv, has8-clear8 k v xs c hk hv)
]

-- Setting an id from 1 to 255 keeps the slots in use in front and the ids apart.
pub set8-IsCompact : (k : ℕ) (xs : List ℕ) → 0 < k → k < 256 → IsCompact xs → IsCompact (set8 k xs)
unfolding has8 set8
set8-IsCompact k [] pos hk c = tt
set8-IsCompact k (x ∷ xs) pos hk (empty, once, c) = elim (Bool-cases (x == u8 k)) [
  | inl same ↦ rw same (empty, once, c)
  | inr other ↦ elim (Bool-cases (x == 0)) [
    | inl z ↦
        rw (other, z) (λ e. absurd (omega (arith, e)), λ n. empty ((==_iff x 0).0 z) (u8 k) n, c)
    | inr z ↦
        let nz : x ≢ 0 = ground (arith, z) in
        let ne : (x == k) ≡ false = ground (arith, other) in
        rw (other, z)
          (
            λ e. absurd (nz e),
            λ n. has8-set8 k x xs hk n ∙ rw (once n, ne) refl,
            set8-IsCompact k xs pos hk c,
          )
  ]
]

shift8-IsCompact : (xs : List ℕ) → IsCompact xs → IsCompact (shift8 xs)
unfolding has8 shift8
shift8-IsCompact [] c = (λ e v n. refl, λ n. refl, tt)
shift8-IsCompact (x ∷ xs) (empty, once, c) = elim (Bool-cases (x == 0)) [
  | inl z ↦
      let e0 : x ≡ 0 = (==_iff x 0).0 z in
      rw z (
        λ e v n. rw (e0, ==_of_ne {a = 0} {b = v} (λ p. n (sym p))) (empty e0 v n),
        λ n. absurd (n refl),
        (empty, once, c),
      )
  | inr z ↦
      let nz : x ≢ 0 = ground (arith, z) in
      rw z (λ e. absurd (nz e), λ n. has8-shift8 x xs n ∙ once n, shift8-IsCompact xs c)
]

-- Clearing an id other than 0 keeps the slots in use in front and the ids apart.
pub clear8-IsCompact : (k : ℕ) (xs : List ℕ) → k ≢ 0 → IsCompact xs → IsCompact (clear8 k xs)
unfolding has8 clear8
clear8-IsCompact k [] hk c = tt
clear8-IsCompact k (x ∷ xs) hk (empty, once, c) = elim (Bool-cases (x == 0)) [
  | inl z ↦ rw z (empty, once, c)
  | inr z ↦ elim (Bool-cases (x == k)) [
    | inl same ↦ rw (z, same) (shift8-IsCompact xs c)
    | inr other ↦
        let nz : x ≢ 0 = ground (arith, z) in
        rw (z, other)
          (
            λ e. absurd (nz e),
            λ n. has8-clear8 k x xs c hk n ∙ rw (once n) refl,
            clear8-IsCompact k xs hk c,
          )
  ]
]
