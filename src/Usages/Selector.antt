-- ===== src/Usages/Selector.antt =====
-- hidapi/usage_set.go, `UsageSelector`: a field of slots that hold usage ids, as in the six keys of a
-- keyboard report. A field's slice has no spare array behind it (its bytes come from `make`), so an
-- access behind the end panics: `none`.
use neio_agent.Prelude.{
  ℕ, zero, suc, ◌+◌, ◌-◌, ◌*◌, ◌/◌, Bool, true, false, not, ◌&&◌, ◌||◌, Option, none, some, List,
  [], ◌∷◌, if◌then◌else◌, leb, ◌==◌, u8, length, get_or, set, le16, byte_at,
}
use mathlib.Core.Option
use neio_agent.Bits.{Bits}
use neio_agent.Usages.{page, id, new_usage}

pub record UsageSelector : Type 0 where
  pub size : ℕ
  pub usage_page : ℕ
  pub minimum : ℕ
  pub maximum : ℕ

abbrev pub selects : UsageSelector → ℕ → Bool
selects s u =
    if not (s.usage_page == page u) then false else leb s.minimum (id u) && leb (id u) s.maximum

-- The callbacks of the size 8, over the bytes. An id is a uint16, a slot a uint8.
unfoldable pub has8 : ℕ → List ℕ → Bool
has8 k [] = false
has8 k (x ∷ xs) = x == k || has8 k xs

unfoldable pub set8 : ℕ → List ℕ → List ℕ
set8 k [] = []
set8 k (x ∷ xs) = if x == u8 k then x ∷ xs else if x == 0 then u8 k ∷ xs else x ∷ set8 k xs

-- Behind the cleared slot each slot moves one place forward, up to the first that is empty. The
-- argument holds the slots behind an empty one.
unfoldable pub shift8 : List ℕ → List ℕ
shift8 [] = 0 ∷ []
shift8 (x ∷ xs) = if x == 0 then 0 ∷ x ∷ xs else x ∷ shift8 xs

unfoldable pub clear8 : ℕ → List ℕ → List ℕ
unfolding shift8
clear8 k [] = []
clear8 k (x ∷ xs) = if x == 0 then x ∷ xs else if x == k then shift8 xs else x ∷ clear8 k xs

unfoldable pub usages8 : ℕ → List ℕ → List ℕ
usages8 p [] = []
usages8 p (x ∷ xs) = if x == 0 then usages8 p xs else new_usage p x ∷ usages8 p xs

-- The size 16: `EachUint16` reads at the byte `i`, and `SetUint16` writes the slot `index`.
abbrev pub uint16_at : List ℕ → ℕ → Option ℕ
uint16_at xs i =
    if leb (i + 2) (length xs) then some (le16 (get_or xs i 0) (get_or xs (i + 1) 0)) else none

abbrev pub set_uint16 : List ℕ → ℕ → ℕ → Option (List ℕ)
set_uint16 xs index v =
    if leb ((index + 1) * 2) (length xs)
    then some (set (set xs (index * 2) (byte_at 0 v)) (index * 2 + 1) (byte_at 1 v))
    else none

-- The rounds that are left, and the byte offset that the callback gets. It passes the offset on as a
-- slot's number.
unfoldable pub has16 : ℕ → ℕ → ℕ → List ℕ → Option Bool
has16 k zero i xs = some false
has16 k (suc n) i xs =
    Option.bind (uint16_at xs i) (λ v. if v == k then some true else has16 k n (i + 2) xs)

unfoldable pub set16 : ℕ → ℕ → ℕ → List ℕ → Option (List ℕ)
set16 k zero i xs = some xs
set16 k (suc n) i xs =
    Option.bind (uint16_at xs i)
      (λ v. if v == k then some xs else if v == 0 then set_uint16 xs i k else set16 k n (i + 2) xs)

unfoldable pub clear16 : ℕ → ℕ → ℕ → Bool → List ℕ → Option (List ℕ)
clear16 k zero i cleared xs = some xs
clear16 k (suc n) i cleared xs = Option.bind (uint16_at xs i) (λ v.
    if v == 0
    then some xs
    else if cleared
    then Option.bind (set_uint16 xs (i - 1) v)
        (λ ys. Option.bind (set_uint16 ys i 0) (λ zs. clear16 k n (i + 2) true zs))
    else if v == k
    then Option.bind (set_uint16 xs i 0) (λ ys. clear16 k n (i + 2) true ys)
    else clear16 k n (i + 2) false xs)

abbrev pub rounds16 : List ℕ → ℕ
rounds16 xs = (length xs + 1) / 2

-- The methods: the test of the page and the range, and the switch on the size.
unfoldable pub selector_has_usage : UsageSelector → Bits → ℕ → Option Bool
unfolding has8 has16
selector_has_usage s b u =
    if not (selects s u)
    then some false
    else if s.size == 8
    then some (has8 (id u) b.bytes)
    else if s.size == 16
    then has16 (id u) (rounds16 b.bytes) 0 b.bytes
    else some false

abbrev pub with_bytes : Bits → Option (List ℕ) → Option (Bits × Bool)
with_bytes b r = Option.map (λ xs. (record b { bytes = xs }, true)) r

unfoldable pub selector_set_usage : UsageSelector → Bits → ℕ → Option (Bits × Bool)
unfolding set8 set16
selector_set_usage s b u =
    if not (selects s u)
    then some (b, false)
    else if s.size == 8
    then with_bytes b (some (set8 (id u) b.bytes))
    else if s.size == 16
    then with_bytes b (set16 (id u) (rounds16 b.bytes) 0 b.bytes)
    else some (b, true)

unfoldable pub selector_clear_usage : UsageSelector → Bits → ℕ → Option (Bits × Bool)
unfolding clear8 clear16
selector_clear_usage s b u =
    if not (selects s u)
    then some (b, false)
    else if s.size == 8
    then with_bytes b (some (clear8 (id u) b.bytes))
    else if s.size == 16
    then with_bytes b (clear16 (id u) (rounds16 b.bytes) 0 false b.bytes)
    else some (b, true)
