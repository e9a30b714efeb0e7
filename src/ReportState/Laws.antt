-- ===== src/ReportState/Laws.antt =====
-- What a write into a field does: to the bits, to the usages that they stand for, and to the state of
-- hidapi/state.go.
use mathlib.Core.Path.{subst}
use neio_agent.Prelude.{
  ℕ, ◌%◌, ◌/◌, ◌<◌, ◌≡◌, refl, sym, ap, ◌∙◌, Bool, true, false, Option, none, some, List, [], ◌∷◌,
  if◌then◌else◌, ◌==◌, arith, IsU32, IsByte, All, length, length-set, get_or,
}
use neio_agent.Bits.{
  Bits, IsValid, len, set_at, clear_at, clear_all, zero_bytes, set_bit, clear_bit,
}
use neio_agent.Bits.Update.{set_at-IsValid, clear_at-IsValid}
use neio_agent.Usages.{
  UsageRangeFlags, new_usage_flag_map, flag_index, range_index, flag_set_usage, flag_clear_usage,
  range_set_usage, range_clear_usage,
}
use neio_agent.Usages.Flags.{range_usage_lem, flag_usage_lem}
use neio_agent.ReportState.Sets.{
  AnyUsageSet, flag_map, range_flags, selector, has_usage, set_usage, clear_usage,
}

-- A write keeps the size of a field.
pub record SameSize (b c : Bits) : Type 0 where
  pub valid : IsValid b → IsValid c
  pub bytes_same : length c.bytes ≡ length b.bytes
  pub missing_same : c.missing_bits ≡ b.missing_bits

pub SameSize-refl : (b : Bits) → SameSize b b
SameSize-refl b = record { valid = λ v. v; bytes_same = refl; missing_same = refl }

pub SameSize-len : (b c : Bits) → SameSize b c → len c ≡ len b
SameSize-len b c s = omega (arith, s.bytes_same, s.missing_same)

set_at-length :
    (b : Bits) (i : ℕ)
    → (length (set_at b i).0.bytes ≡ length b.bytes)
      × ((set_at b i).0.missing_bits ≡ b.missing_bits)
unfolding set_at
set_at-length b i =
    ground (arith, length-set b.bytes (i / 8) (set_bit (get_or b.bytes (i / 8) 0) (i % 8)))

clear_at-length :
    (b : Bits) (i : ℕ)
    → (length (clear_at b i).0.bytes ≡ length b.bytes)
      × ((clear_at b i).0.missing_bits ≡ b.missing_bits)
unfolding clear_at
clear_at-length b i =
    ground (arith, length-set b.bytes (i / 8) (clear_bit (get_or b.bytes (i / 8) 0) (i % 8)))

set_at-SameSize : (b : Bits) (i : ℕ) → SameSize b (set_at b i).0
set_at-SameSize b i =
    let (bytes, missing) = set_at-length b i in
    record { valid = set_at-IsValid b i; bytes_same = bytes; missing_same = missing }

clear_at-SameSize : (b : Bits) (i : ℕ) → SameSize b (clear_at b i).0
clear_at-SameSize b i =
    let (bytes, missing) = clear_at-length b i in
    record { valid = clear_at-IsValid b i; bytes_same = bytes; missing_same = missing }

zero_bytes_lem : (xs : List ℕ) → (length (zero_bytes xs) ≡ length xs) × All IsByte (zero_bytes xs)
unfolding zero_bytes
zero_bytes_lem [] = (refl, tt)
zero_bytes_lem (x ∷ xs) = let (n, all) = zero_bytes_lem xs in (omega arith, (omega arith, all))

pub clear_all-SameSize : (b : Bits) → SameSize b (clear_all b).0
unfolding clear_all
clear_all-SameSize b =
    let (n, all) = zero_bytes_lem b.bytes in
    record {
      valid = λ v. record {
        bytes_valid = all;
        missing_small = v.missing_small;
        missing_fits = omega (arith, v.missing_fits);
      };
      bytes_same = n;
      missing_same = refl;
    }

-- The bit of a usage, in the sets of single bits.
abbrev pub bit_of_usage : AnyUsageSet → ℕ → Option ℕ
bit_of_usage (flag_map s) u = flag_index s u
bit_of_usage (range_flags s) u = range_index s u
bit_of_usage (selector s) u = none

-- A set of single bits, made by its constructor.
abbrev pub IsFlagSet : AnyUsageSet → Type 0
IsFlagSet (flag_map s) = s ≡ new_usage_flag_map s.usage_page s.usage_ids
IsFlagSet (range_flags s) = Unit
IsFlagSet (selector s) = ⊥

abbrev pub write_usage : Bool → AnyUsageSet → ℕ → Bits → Option Bits
write_usage on s u b = if on then set_usage s u b else clear_usage s u b

-- What a client of a usage set relies on: a usage that is written in a field is there afterwards or is
-- not, and the others are as they were.
pub record Writes (s : AnyUsageSet) (b : Bits) (u : ℕ) (on : Bool) : Type 0 where
  pub written : Bits
  pub returns : write_usage on s u b ≡ some written
  pub size : SameSize b written
  pub usages :
      (v : ℕ) → IsU32 v → has_usage s written v ≡ (if u == v then some on else has_usage s b v)

lift_if :
    (c on : Bool) (h k : Bool)
    → h ≡ (if c then on else k)
    → some h ≡ (if c then some on else some k)
lift_if true on h k e = ap some e
lift_if false on h k e = ap some e

module _ (b : Bits) (u i : ℕ) (valid : IsValid b) (hu : IsU32 u) (inside : i < len b) where
  range-Writes :
      (s : UsageRangeFlags) (on : Bool) → range_index s u ≡ some i → Writes (range_flags s) b u on
  unfolding has_usage set_usage clear_usage range_set_usage range_clear_usage
  range-Writes s true e = record {
    written = (range_set_usage s b u).0;
    returns = refl;
    size = rw e (set_at-SameSize b i);
    usages = λ w hw.
        lift_if (u == w) true _ _
          (range_usage_lem s b u w valid hu hw (ground (arith, e)) (ground (arith, e))).0;
  }
  range-Writes s false e = record {
    written = (range_clear_usage s b u).0;
    returns = refl;
    size = rw e (clear_at-SameSize b i);
    usages = λ w hw.
        lift_if (u == w) false _ _
          (range_usage_lem s b u w valid hu hw (ground (arith, e)) (ground (arith, e))).1;
  }

  flag-Writes :
      (p : ℕ) (ids : List ℕ) (on : Bool)
      → flag_index (new_usage_flag_map p ids) u ≡ some i
      → Writes (flag_map (new_usage_flag_map p ids)) b u on
  unfolding has_usage set_usage clear_usage flag_set_usage flag_clear_usage
  flag-Writes p ids true e = record {
    written = (flag_set_usage (new_usage_flag_map p ids) b u).0;
    returns = refl;
    size = rw e (set_at-SameSize b i);
    usages =
        λ w hw. lift_if (u == w) true _ _ (flag_usage_lem p ids b u w i valid hu hw e inside).0;
  }
  flag-Writes p ids false e = record {
    written = (flag_clear_usage (new_usage_flag_map p ids) b u).0;
    returns = refl;
    size = rw e (clear_at-SameSize b i);
    usages =
        λ w hw. lift_if (u == w) false _ _ (flag_usage_lem p ids b u w i valid hu hw e inside).1;
  }

  -- The sets of single bits are written as the interface says, for a usage whose bit lies in the field.
  pub flags-Writes :
      (s : AnyUsageSet) (on : Bool) → IsFlagSet s → bit_of_usage s u ≡ some i → Writes s b u on
  flags-Writes (flag_map s) on made e =
      subst (λ t. Writes (flag_map t) b u on) (sym made)
        (flag-Writes s.usage_page s.usage_ids on (ap (λ t. flag_index t u) (sym made) ∙ e))
  flags-Writes (range_flags s) on made e = range-Writes s on e
  flags-Writes (selector s) on made e = absurd made
