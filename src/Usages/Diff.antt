-- ===== src/Usages/Diff.antt =====
-- hidapi/usage_set.go, `UsageSetDiff`: what changes from one value of a field to another.
use neio_agent.Prelude.{
  ℕ, zero, suc, ◌+◌, ◌-◌, ◌/◌, ◌%◌, ◌<◌, ◌≤◌, ◌≡◌, refl, ap, ◌∙◌, Bool, false, not, ◌&&◌, List, [],
  ◌∷◌, if◌then◌else◌, leb, ltb, ◌==◌, arith, Bool-cases, ==_iff, inl, inr, IsU16, IsU32, u16,
  get_or,
}
use neio_agent.Bits.{Bits, len, is_set, each, each_from, test_bit}
use neio_agent.Prelude.{member}
use neio_agent.Usages.{
  page, id, new_usage, UsageRangeFlags, range_has_usage, range_usages, set_usages,
}

-- The two methods of the interface `UsageSet` that are called.
pub record UsageSet : Type 0 where
  pub usages : Bits → List ℕ
  pub has_usage : Bits → ℕ → Bool

-- One loop: the usages that the other value does not have.
abbrev pub without : (ℕ → Bool) → List ℕ → List ℕ
without has [] = []
without has (u ∷ us) = if has u then without has us else u ∷ without has us

pub record Diff : Type 0 where
  pub activated : List ℕ
  pub deactivated : List ℕ

unfoldable pub usage_set_diff : UsageSet → Bits → Bits → Diff
usage_set_diff s t0 t1 = record {
  activated = without (s.has_usage t0) (s.usages t1);
  deactivated = without (s.has_usage t1) (s.usages t0);
}

-- A set lists a usage just where it has it.
abbrev pub Lists : UsageSet → Bits → Type 0
Lists s b = (u : ℕ) → IsU32 u → member u (s.usages b) ≡ s.has_usage b u

member-without :
    (has : ℕ → Bool) (v : ℕ) (us : List ℕ)
    → member v (without has us) ≡ (member v us && not (has v))
member-without has v [] = refl
member-without has v (u ∷ us) = elim (Bool-cases (v == u)) [
  | inl same ↦ ground (arith, same, member-without has v us, ap has ((==_iff _ _).0 same))
  | inr other ↦ ground (arith, other, member-without has v us)
]

-- For a set that lists what it has, `UsageSetDiff` gives as activated the usages that the second value has
-- and the first has not, and as deactivated those that the first has and the second has not.
pub usage_set_diff_lem :
    (s : UsageSet) (t0 t1 : Bits) (u : ℕ)
    → Lists s t0
    → Lists s t1
    → IsU32 u
    → (member u (usage_set_diff s t0 t1).activated ≡ (s.has_usage t1 u && not (s.has_usage t0 u)))
      × (member u (usage_set_diff s t0 t1).deactivated
          ≡ (s.has_usage t0 u && not (s.has_usage t1 u)))
unfolding usage_set_diff
usage_set_diff_lem s t0 t1 u h0 h1 hu = (
  member-without (s.has_usage t0) u (s.usages t1) ∙ ap (λ b. b && not (s.has_usage t0 u)) (h1 u hu),
  member-without (s.has_usage t1) u (s.usages t0) ∙ ap (λ b. b && not (s.has_usage t1 u)) (h0 u hu),
)

-- The range of flags as a usage set.
abbrev pub range_set : UsageRangeFlags → UsageSet
range_set s = record { usages = range_usages s; has_usage = range_has_usage s }

-- The field has one bit for each usage of the range.
pub record Covers (s : UsageRangeFlags) (b : Bits) : Type 0 where
  pub page_fits : IsU16 s.usage_page
  pub maximum_fits : IsU16 s.maximum
  pub size : s.minimum + len b ≡ s.maximum + 1

test_bit-is_set :
    (b : Bits) (i : ℕ) → i < len b → test_bit (get_or b.bytes (i / 8) 0) (i % 8) ≡ is_set b i
unfolding is_set
test_bit-is_set b i h = rw (not_below (len b) i h) refl
  where
    not_below : (n i : ℕ) → i < n → leb n i ≡ false
    not_below n i h = ground arith

listed_from :
    (s : UsageRangeFlags) (b : Bits) (u i n : ℕ)
    → IsU32 u
    → IsU16 s.usage_page
    → s.minimum + (i + n) ≤ 65536
    → i + n ≤ len b
    → member u (set_usages s (each_from b i n)) ≡ (
        s.usage_page == page u
        && leb (s.minimum + i) (id u)
        && ltb (id u) (s.minimum + i + n)
        && is_set b (id u - s.minimum))
unfolding each_from
listed_from s b u i zero hu hp h k = ground arith
listed_from s b u i (suc n) hu hp h k =
    let rest = listed_from s b u (suc i) n hu hp (omega arith) (omega arith) in
    let on = test_bit-is_set b i (omega arith) in
    let place : u16 (u16 i + s.minimum) ≡ i + s.minimum = omega arith in
    rw (on, place)
      (elim (Bool-cases (u == new_usage s.usage_page (i + s.minimum))) [
        | inl same ↦
            let p : s.usage_page ≡ page u = ground (arith, same) in
            let q : id u - s.minimum ≡ i = ground (arith, same) in
            let r : id u ≡ i + s.minimum = ground (arith, same) in
            ground (arith, same, rest, ap (is_set b) q, p, r)
        | inr other ↦ ground (arith, other, rest)
      ])

-- A range of flags lists the usages that it has, in a field with one bit for each.
pub range_set-Lists : (s : UsageRangeFlags) (b : Bits) → Covers s b → Lists (range_set s) b
unfolding range_usages range_has_usage each
range_set-Lists s b c u hu =
    listed_from s b u 0 (len b) hu c.page_fits (omega (arith, c.size, c.maximum_fits)) (omega arith)
    ∙ ground (arith, c.size)
