-- ===== src/Usages/WideSlots.antt =====
-- The selector with slots of 16 bits: the slot that setting a usage writes.
use neio_agent.Prelude.{ℕ, zero, suc, ◌+◌, ◌*◌, ◌≡◌, ◌≢◌, sym, ap, ◌∙◌, some, List, arith, ==_of_ne}
use mathlib.Core.Option
use neio_agent.Usages.Selector.{set16, uint16_at, set_uint16}

-- From the byte `i` on, `n` slots hold usages other than `k`, and the next slot is empty.
abbrev pub FirstEmpty : ℕ → ℕ → ℕ → List ℕ → Type 0
FirstEmpty k zero i xs = uint16_at xs i ≡ some 0
FirstEmpty k (suc n) i xs =
    (v : ℕ) × (uint16_at xs i ≡ some v) × (v ≢ 0) × (v ≢ k) × FirstEmpty k n (i + 2) xs

from_byte :
    (k n r i : ℕ) (xs : List ℕ)
    → k ≢ 0
    → FirstEmpty k n i xs
    → set16 k (n + suc r) i xs ≡ set_uint16 xs (i + 2 * n) k
unfolding set16 Option.bind
from_byte k zero r i xs pos h =
    let z : 0 + suc r ≡ suc r = omega arith in
    let j : i ≡ i + 2 * 0 = omega arith in
    rw (z, h, ==_of_ne {a = 0} {b = k} (λ e. pos (sym e))) (ap (λ j. set_uint16 xs j k) j)
from_byte k (suc n) r i xs pos (v, h, nz, ne, rest) =
    let z : suc n + suc r ≡ suc (n + suc r) = omega arith in
    let j : (i + 2) + 2 * n ≡ i + 2 * suc n = omega arith in
    rw (z, h, ==_of_ne ne, ==_of_ne nz)
      (from_byte k n r (i + 2) xs pos rest ∙ ap (λ j. set_uint16 xs j k) j)

-- Where the slot `n` is the first empty one and the slots before it hold other usages, setting an id
-- other than 0 in a selector of 16 bits does what `SetUint16` does to the slot `2 * n`.
pub set16_lem :
    (k n r : ℕ) (xs : List ℕ)
    → k ≢ 0
    → FirstEmpty k n 0 xs
    → set16 k (n + suc r) 0 xs ≡ set_uint16 xs (2 * n) k
set16_lem k n r xs pos h = from_byte k n r 0 xs pos h ∙ ap (λ j. set_uint16 xs j k) (omega arith)
