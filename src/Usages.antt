-- ===== src/Usages.antt =====
-- hidapi/usage.go and usage_set.go: usages, and the sets of usages that a field's bits stand for. A
-- method that writes through the bits returns the new bits.
pub mod Flags
pub mod Selector
pub mod Slots
pub mod Diff
pub mod Values
pub mod SlotBytes
pub mod WideSlots
pub mod ValueLaws
pub mod ValueMap
pub mod Writes
mod Tests
use neio_agent.Prelude.{
  ℕ, zero, suc, ◌+◌, ◌-◌, ◌*◌, ◌/◌, ◌%◌, Bool, true, false, not, ◌&&◌, Option, none, some, List, [],
  ◌∷◌, ◌++◌, if◌then◌else◌, ltb, leb, ◌==◌, Map, empty_map, insert, u16,
}
use neio_agent.Bits.{Bits, is_set, set_at, clear_at, each}

-- A Usage is a uint32: the page in the high half, the id in the low one.
abbrev pub page : ℕ → ℕ
page u = u / 65536 % 65536

abbrev pub id : ℕ → ℕ
id u = u % 65536

-- `uint32(page)<<16 | uint32(id)`, two numbers without a common bit.
abbrev pub new_usage : ℕ → ℕ → ℕ
new_usage p i = p * 65536 + i

pub record UsageFlagMap : Type 0 where
  pub usage_page : ℕ
  pub usage_ids : List ℕ
  pub usage_id_map : Map ℕ

-- The map from ids to places; a later place of the same id wins.
abbrev pub index_ids : ℕ → List ℕ → Map ℕ → Map ℕ
index_ids i [] m = m
index_ids i (x ∷ xs) m = index_ids (suc i) xs (insert m x i)

abbrev pub new_usage_flag_map : ℕ → List ℕ → UsageFlagMap
new_usage_flag_map p ids = record {
  usage_page = p;
  usage_ids = ids;
  usage_id_map = index_ids 0 ids empty_map;
}

-- The place of a usage that the set contains, and `none` for one that it does not contain.
abbrev pub flag_index : UsageFlagMap → ℕ → Option ℕ
flag_index s u = if not (s.usage_page == page u) then none else s.usage_id_map (id u)

pub record UsageRangeFlags : Type 0 where
  pub usage_page : ℕ
  pub minimum : ℕ
  pub maximum : ℕ

abbrev pub in_range : UsageRangeFlags → ℕ → Bool
in_range s u =
    if not (s.usage_page == page u) then false else leb s.minimum (id u) && leb (id u) s.maximum

abbrev pub range_index : UsageRangeFlags → ℕ → Option ℕ
range_index s u = if in_range s u then some (id u - s.minimum) else none

-- `HasUsage`, `SetUsage` and `ClearUsage`, which both flag sets share but for the place.
abbrev pub has_at : Option ℕ → Bits → Bool
has_at none b = false
has_at (some i) b = is_set b i

abbrev pub update_at : (Bits → ℕ → Bits × Bool) → Option ℕ → Bits → Bits × Bool
update_at f none b = (b, false)
update_at f (some i) b = f b i

unfoldable pub flag_has_usage : UsageFlagMap → Bits → ℕ → Bool
flag_has_usage s b u = has_at (flag_index s u) b

unfoldable pub flag_set_usage : UsageFlagMap → Bits → ℕ → Bits × Bool
flag_set_usage s b u = update_at set_at (flag_index s u) b

unfoldable pub flag_clear_usage : UsageFlagMap → Bits → ℕ → Bits × Bool
flag_clear_usage s b u = update_at clear_at (flag_index s u) b

unfoldable pub range_has_usage : UsageRangeFlags → Bits → ℕ → Bool
range_has_usage s b u = has_at (range_index s u) b

unfoldable pub range_set_usage : UsageRangeFlags → Bits → ℕ → Bits × Bool
range_set_usage s b u = update_at set_at (range_index s u) b

unfoldable pub range_clear_usage : UsageRangeFlags → Bits → ℕ → Bits × Bool
range_clear_usage s b u = update_at clear_at (range_index s u) b

-- `Usages`: the usages whose bits are set, in the order of the bits.
abbrev pub flag_usages_from : UsageFlagMap → Bits → ℕ → List ℕ → List ℕ
flag_usages_from s b i [] = []
flag_usages_from s b i (x ∷ xs) =
    let rest = flag_usages_from s b (suc i) xs in
    if is_set b i then new_usage s.usage_page x ∷ rest else rest

unfoldable pub flag_usages : UsageFlagMap → Bits → List ℕ
flag_usages s b = flag_usages_from s b 0 s.usage_ids

abbrev pub set_usages : UsageRangeFlags → List (ℕ × Bool) → List ℕ
set_usages s [] = []
set_usages s ((i, on) ∷ r) =
    let rest = set_usages s r in
    if on then new_usage s.usage_page (u16 (u16 i + s.minimum)) ∷ rest else rest

unfoldable pub range_usages : UsageRangeFlags → Bits → List ℕ
range_usages s b = set_usages s (each b)
