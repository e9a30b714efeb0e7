-- ===== src/Bits/Table.antt =====
-- Facts about bytes that are checked at every value.
use neio_agent.Prelude.{
  ℕ, zero, suc, ◌<◌, ◌≡◌, refl, Bool, true, false, ◌&&◌, List, [], ◌∷◌, arith, ◌==◌, Bool-cases,
  inl, inr,
}

unfoldable pub all_below : ℕ → (ℕ → Bool) → Bool
all_below zero p = true
all_below (suc n) p = p n && all_below n p

pub all_below_lem : (i k : ℕ) (test : ℕ → Bool) → i < k → all_below k test ≡ true → test i ≡ true
unfolding all_below
all_below_lem i zero test inside all = absurd (omega arith)
all_below_lem i (suc k) test inside all = elim (Bool-cases (test k)) [
  | inl here ↦ ground (arith, all_below_lem i k test)
  | inr here ↦ ground arith
]

unfoldable pub same_list : List ℕ → List ℕ → Bool
same_list [] [] = true
same_list [] (y ∷ ys) = false
same_list (x ∷ xs) [] = false
same_list (x ∷ xs) (y ∷ ys) = x == y && same_list xs ys

same_list→eq : (xs ys : List ℕ) → same_list xs ys ≡ true → xs ≡ ys
unfolding same_list
same_list→eq [] [] h = refl
same_list→eq [] (y ∷ ys) h = ground arith
same_list→eq (x ∷ xs) [] h = ground arith
same_list→eq (x ∷ xs) (y ∷ ys) h = ground (arith, same_list→eq xs ys)

-- A law of a shift `m` below 8 and a byte.
module _ (f g : ℕ → ℕ → List ℕ) where
  pub shift_law :
      all_below 8 (λ m. all_below 256 (λ b. same_list (f m b) (g m b))) ≡ true
      → (m b : ℕ) → m < 8
      → b < 256
      → f m b ≡ g m b
  shift_law h m b hm hb = same_list→eq _ _ (all_below_lem b 256 _ hb (all_below_lem m 8 _ hm h))

-- A test of two bit numbers below 8 and a byte.
unfoldable pub holds_below : (ℕ → ℕ → ℕ → Bool) → Bool
unfolding all_below
holds_below p = all_below 8 (λ i. all_below 8 (λ j. all_below 256 (λ b. p i j b)))

pub bit_law :
    (p : ℕ → ℕ → ℕ → Bool)
    → holds_below p ≡ true
    → (i j b : ℕ) → i < 8
    → j < 8
    → b < 256
    → p i j b ≡ true
unfolding holds_below
bit_law p h i j b hi hj hb = all_below_lem b 256 (p i j) hb (
    all_below_lem j 8 (λ y. all_below 256 (p i y)) hj
      (all_below_lem i 8 (λ x. all_below 8 (λ y. all_below 256 (p x y))) hi h))
