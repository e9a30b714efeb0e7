-- ===== src/Usages/Tests.antt =====
-- Concrete runs of hidapi/usage_set.go: the modifiers of a keyboard, three buttons, and six key slots.
use neio_agent.Prelude.{
  ℕ, some, inl, inr, suc, ◌+◌, ◌*◌, ◌≢◌, ◌≡◌, refl, true, false, not, ◌&&◌, ◌||◌, List, [], ◌∷◌,
  if◌then◌else◌, ◌==◌, arith,
}
use mathlib.Core.Option
use neio_agent.Bits.{Bits, IsValid}
use neio_agent.Usages.{
  UsageRangeFlags, range_has_usage, range_set_usage, range_clear_usage, new_usage_flag_map,
  flag_has_usage, flag_set_usage, flag_clear_usage,
}
use neio_agent.Usages.Flags.{range_usage_lem, flag_usage_lem}
use neio_agent.Usages.Selector.{has8, set8, clear8, set16, set_uint16}
use neio_agent.Usages.Values.{set_slot, get_slot, set_bytes, new_usage_values, get_value, set_value}
use neio_agent.Usages.SlotBytes.{narrow}
use neio_agent.Usages.ValueMap.{get_value-set_value}
use neio_agent.Usages.WideSlots.{set16_lem}
use neio_agent.Prelude.{member}
use neio_agent.Usages.Diff.{Covers, range_set, usage_set_diff, range_set-Lists, usage_set_diff_lem}
use neio_agent.Usages.Slots.{IsCompact, has8-set8, has8-clear8, set8-IsCompact, clear8-IsCompact}

abbrev modifiers : UsageRangeFlags
modifiers = record { usage_page = 7; minimum = 0xe0; maximum = 0xe7 }

abbrev field : Bits
field = record { missing_bits = 0; bytes = 0b0000_0010 ∷ [] }

field-IsValid : IsValid field
field-IsValid = record {
  bytes_valid = (omega arith, tt);
  missing_small = omega arith;
  missing_fits = omega arith;
}

range_usage_lem_example :
    (range_has_usage modifiers (range_set_usage modifiers field 0x700e3).0 0x700e1
      ≡ (if 0x700e3 == 0x700e1 then true else range_has_usage modifiers field 0x700e1))
    × (range_has_usage modifiers (range_clear_usage modifiers field 0x700e3).0 0x700e1
        ≡ (if 0x700e3 == 0x700e1 then false else range_has_usage modifiers field 0x700e1))
range_usage_lem_example =
    range_usage_lem modifiers field 0x700e3 0x700e1 field-IsValid (omega arith) (omega arith) refl
      (omega arith)

flag_usage_lem_example :
    (flag_has_usage
        (new_usage_flag_map 9 (1 ∷ 2 ∷ 5 ∷ []))
        (flag_set_usage (new_usage_flag_map 9 (1 ∷ 2 ∷ 5 ∷ [])) field 0x90005).0
        0x90002
      ≡ (if 0x90005 == 0x90002
          then true
          else flag_has_usage (new_usage_flag_map 9 (1 ∷ 2 ∷ 5 ∷ [])) field 0x90002))
    × (flag_has_usage
          (new_usage_flag_map 9 (1 ∷ 2 ∷ 5 ∷ []))
          (flag_clear_usage (new_usage_flag_map 9 (1 ∷ 2 ∷ 5 ∷ [])) field 0x90005).0
          0x90002
        ≡ (if 0x90005 == 0x90002
            then false
            else flag_has_usage (new_usage_flag_map 9 (1 ∷ 2 ∷ 5 ∷ [])) field 0x90002))
flag_usage_lem_example =
    flag_usage_lem 9 (1 ∷ 2 ∷ 5 ∷ []) field 0x90005 0x90002 2 field-IsValid (omega arith)
      (omega arith) refl (omega arith)

abbrev keys : List ℕ
keys = 4 ∷ 9 ∷ 0 ∷ 0 ∷ []

keys-IsCompact : IsCompact keys
unfolding has8
keys-IsCompact = (
  λ e v n. ground arith,
  λ n. refl,
  (
    λ e v n. ground arith,
    λ n. refl,
    (λ e v n. ground arith, λ n. ground arith, (λ e v n. refl, λ n. refl, tt)),
  ),
)

has8-set8_example : has8 9 (set8 6 keys) ≡ (has8 9 keys || (9 == 6 && has8 0 keys))
has8-set8_example = has8-set8 6 9 keys (omega arith) (omega arith)

has8-clear8_example : has8 9 (clear8 4 keys) ≡ (has8 9 keys && not (9 == 4))
has8-clear8_example = has8-clear8 4 9 keys keys-IsCompact (omega arith) (omega arith)

set8-IsCompact_example : IsCompact (set8 6 keys)
set8-IsCompact_example = set8-IsCompact 6 keys (omega arith) (omega arith) keys-IsCompact

clear8-IsCompact_example : IsCompact (clear8 4 keys)
clear8-IsCompact_example = clear8-IsCompact 4 keys (omega arith) keys-IsCompact

-- Two axes of 16 bits: -5 for the second.
abbrev axes : Bits
axes = record { missing_bits = 0; bytes = 1 ∷ 0 ∷ 2 ∷ 0 ∷ [] }

get_value-set_value_example :
    (b : Bits) × (set_value
        (new_usage_values (0x10030 ∷ 0x10031 ∷ []) 16 0xffff_8001 0x7fff)
        axes
        0x10031
        0xffff_fffb
      ≡ some b)
    × (get_value (new_usage_values (0x10030 ∷ 0x10031 ∷ []) 16 0xffff_8001 0x7fff) b 0x10031
        ≡ some (narrow 16 0xffff_fffb))
    × ((v : ℕ)
        → 0x10031 ≢ v
        → get_value (new_usage_values (0x10030 ∷ 0x10031 ∷ []) 16 0xffff_8001 0x7fff) b v
          ≡ get_value (new_usage_values (0x10030 ∷ 0x10031 ∷ []) 16 0xffff_8001 0x7fff) axes v)
get_value-set_value_example =
    get_value-set_value (0x10030 ∷ 0x10031 ∷ []) 16 0xffff_8001 0x7fff axes 0x10031 1 0xffff_fffb
      (inr (inr (inl refl))) (omega arith) refl (omega arith)

-- A slot of 24 bits: 0x12345 is read back as 0x2345.
third_byte_lost :
    Option.bind (set_slot 24 (0 ∷ 0 ∷ 0 ∷ []) 0 0x12345) (λ xs. get_slot 24 xs 0) ≡ some 0x2345
unfolding set_slot get_slot set_bytes Option.bind
third_byte_lost = refl

-- Three slots of which the first is in use: the third is written, and not the second.
set16_lem_example :
    set16 7 (1 + suc 1) 0 (4 ∷ 0 ∷ 0 ∷ 0 ∷ 0 ∷ 0 ∷ [])
    ≡ set_uint16 (4 ∷ 0 ∷ 0 ∷ 0 ∷ 0 ∷ 0 ∷ []) (2 * 1) 7
set16_lem_example =
    set16_lem 7 1 1 (4 ∷ 0 ∷ 0 ∷ 0 ∷ 0 ∷ 0 ∷ []) (omega arith)
      (4, refl, omega arith, omega arith, refl)

modifiers-Covers : (x : ℕ) → Covers modifiers (record { missing_bits = 0; bytes = x ∷ [] })
modifiers-Covers x = record { page_fits = omega arith; maximum_fits = omega arith; size = refl }

-- The left shift goes down, and the left control key up.
abbrev earlier : Bits
earlier = record { missing_bits = 0; bytes = 0b0000_0001 ∷ [] }

usage_set_diff_lem_example :
    (member 0x700e1 (usage_set_diff (range_set modifiers) earlier field).activated ≡ (
      (range_set modifiers).has_usage field 0x700e1
      && not ((range_set modifiers).has_usage earlier 0x700e1)))
    × (member 0x700e1 (usage_set_diff (range_set modifiers) earlier field).deactivated ≡ (
        (range_set modifiers).has_usage earlier 0x700e1
        && not ((range_set modifiers).has_usage field 0x700e1)))
usage_set_diff_lem_example =
    usage_set_diff_lem (range_set modifiers) earlier field 0x700e1
      (range_set-Lists modifiers earlier (modifiers-Covers 1))
      (range_set-Lists modifiers field (modifiers-Covers 2)) (omega arith)
