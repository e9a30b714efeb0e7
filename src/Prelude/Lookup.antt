-- ===== src/Prelude/Lookup.antt =====
-- Maps as functions, and the elements of a list by their place.
use Prim.Native.Nat.{ℕ, zero, suc, ◌<◌, ◌≤◌}
use mathlib.Core.Path.{◌≡◌, refl}
use mathlib.Core.Bool.{Bool, false, ◌||◌}
use mathlib.Core.Option.{Option, none, some}
use mathlib.Core.List.{List, [], ◌∷◌, ◌++◌}
use native.Mathlib.Omega.{arith}
use neio_agent.Prelude.Tests.{ltb, ◌==◌, if◌then◌else◌}
use neio_agent.Prelude.Lists.{length, get_elem?, set, take}

-- A Go map whose keys are numbers.
abbrev pub Map {ℓ} : Type ℓ → Type ℓ
Map A = ℕ → Option A

abbrev pub empty_map {ℓ} : {A : Type ℓ} → Map A
empty_map k = none

abbrev pub insert {ℓ} : {A : Type ℓ} → Map A → ℕ → A → Map A
insert m k v j = if j == k then some v else m j

abbrev pub delete {ℓ} : {A : Type ℓ} → Map A → ℕ → Map A
delete m k j = if j == k then none else m j

-- `xs[i] = v`, where `none` is the panic of an index out of range.
abbrev pub put {ℓ} : {A : Type ℓ} → List A → ℕ → A → Option (List A)
put xs i v = if ltb i (length xs) then some (set xs i v) else none

abbrev pub member : ℕ → List ℕ → Bool
member v [] = false
member v (u ∷ us) = v == u || member v us

-- No number comes twice.
abbrev pub IsDistinct : List ℕ → Type 0
IsDistinct [] = Unit
IsDistinct (u ∷ us) = (member u us ≡ false) × IsDistinct us

pub member-append : (u : ℕ) (xs ys : List ℕ) → member u (xs ++ ys) ≡ (member u xs || member u ys)
member-append u [] ys = refl
member-append u (x ∷ xs) ys = ground (arith, member-append u xs ys)

module _ {ℓ} {A : Type ℓ} where
  pub get_elem?-set :
      (xs : List A) (i j : ℕ) (v : A)
      → i < length xs
      → get_elem? (set xs i v) j ≡ (if j == i then some v else get_elem? xs j)
  get_elem?-set [] i j v h = ground arith
  get_elem?-set (x ∷ xs) zero zero v h = ground arith
  get_elem?-set (x ∷ xs) zero (suc j) v h = ground arith
  get_elem?-set (x ∷ xs) (suc i) zero v h = ground arith
  get_elem?-set (x ∷ xs) (suc i) (suc j) v h = ground (arith, get_elem?-set xs i j v (omega arith))

  pub get_elem?-append_one :
      (xs : List A) (x : A) (i : ℕ)
      → get_elem? (xs ++ (x ∷ [])) i ≡ (if i == length xs then some x else get_elem? xs i)
  get_elem?-append_one [] x zero = ground arith
  get_elem?-append_one [] x (suc i) = ground arith
  get_elem?-append_one (y ∷ xs) x zero = ground arith
  get_elem?-append_one (y ∷ xs) x (suc i) = ground (arith, get_elem?-append_one xs x i)

  pub get_elem?-take :
      (n : ℕ) (xs : List A) (i : ℕ)
      → get_elem? (take n xs) i ≡ (if ltb i n then get_elem? xs i else none)
  get_elem?-take zero xs i = ground arith
  get_elem?-take (suc n) [] i = ground arith
  get_elem?-take (suc n) (x ∷ xs) zero = ground arith
  get_elem?-take (suc n) (x ∷ xs) (suc i) = ground (arith, get_elem?-take n xs i)

  pub get_elem?-bound : (xs : List A) (i : ℕ) (x : A) → get_elem? xs i ≡ some x → i < length xs
  get_elem?-bound [] i x h = ground arith
  get_elem?-bound (y ∷ xs) zero x h = omega arith
  get_elem?-bound (y ∷ xs) (suc i) x h = omega (arith, get_elem?-bound xs i x h)

  pub get_elem?-outside : (xs : List A) (i : ℕ) → length xs ≤ i → get_elem? xs i ≡ none
  get_elem?-outside [] i h = refl
  get_elem?-outside (y ∷ xs) zero h = ground arith
  get_elem?-outside (y ∷ xs) (suc i) h = get_elem?-outside xs i (omega arith)

  pub get_elem?-inside : (xs : List A) (i : ℕ) → i < length xs → (x : A) × (get_elem? xs i ≡ some x)
  get_elem?-inside [] i h = ground arith
  get_elem?-inside (y ∷ xs) zero h = (y, refl)
  get_elem?-inside (y ∷ xs) (suc i) h = get_elem?-inside xs i (omega arith)
