-- ===== src/Bits/Carry.antt =====
-- The loop of `ConcatBits`: the bits that each byte keeps, and those that it carries on.
use neio_agent.Prelude.{
  ℕ, zero, suc, ◌+◌, ◌-◌, ◌*◌, ◌^◌, ◌≤◌, ◌<◌, ◌≡◌, refl, sym, ap, ◌∙◌, some, List, [], ◌∷◌, ◌++◌,
  arith, length, take, drop, replicate, u8, All, IsByte, append_assoc, All-replicate, append-nil,
  length-append, length-take, length-drop, length-replicate, take_all, take-append_exact,
  drop-append_exact, take-append_add, drop-append_add, append-cancel-take,
}
use neio_agent.Bits.{Bits, len}
use neio_agent.Bits.Concat.{concat_loop, concat_bytes}
use neio_agent.Bits.View.{
  byte_bits, bytes_bits, byte_bits_shl, byte_bits-or, or_merge-lt, low_clear, length-byte_bits,
}
use mathlib.Core.Path.{ap₂}

-- The missing bits are clear.
abbrev pub IsClean : Bits → Type 0
IsClean b = drop (len b) (bytes_bits b.bytes) ≡ replicate b.missing_bits 0

regroup : (p t d b r : List ℕ) → p ++ (((t ++ d) ++ b) ++ r) ≡ (p ++ t) ++ (d ++ (b ++ r))
regroup p t d b r = simp append_assoc

module _ (m : ℕ) (hm : m < 8) where
  pub length-drop_byte : (b : ℕ) → length (drop m (byte_bits b)) ≡ 8 - m
  length-drop_byte b = omega (arith, length-drop m (byte_bits b), length-byte_bits b)

  pub length-take_byte : (n b : ℕ) → n ≤ 8 → length (take n (byte_bits b)) ≡ n
  length-take_byte n b h = omega (arith, length-take n (byte_bits b), length-byte_bits b)

  -- A byte shifted left by `m`, seen without its low bits, and its low bits.
  pub take_shl :
      (b : ℕ) → b < 256 → take (8 - m) (byte_bits (u8 (b * 2 ^ m))) ≡ drop m (byte_bits b)
  take_shl b hb =
      ap (take (8 - m)) (byte_bits_shl m b hm hb)
      ∙ take-append_exact (8 - m) _ (replicate m 0) (length-drop_byte b)

  pub drop_shl : (b : ℕ) → b < 256 → drop (8 - m) (byte_bits (u8 (b * 2 ^ m))) ≡ replicate m 0
  drop_shl b hb =
      ap (drop (8 - m)) (byte_bits_shl m b hm hb)
      ∙ drop-append_exact (8 - m) _ (replicate m 0) (length-drop_byte b)

  -- The first byte of `cur` with the bits of `b` and more behind it.
  take_front :
      (k cur b : ℕ) (bs r : List ℕ)
      → take (8 + k) (take (8 - m) (byte_bits cur) ++ ((byte_bits b ++ bs) ++ r))
        ≡ (take (8 - m) (byte_bits cur) ++ take m (byte_bits b))
          ++ take k (drop m (byte_bits b) ++ (bs ++ r))
  take_front k cur b bs r =
      let p = take (8 - m) (byte_bits cur) in
      let t = take m (byte_bits b) in
      let d = drop m (byte_bits b) in
      ap (λ l. take (8 + k) (p ++ ((l ++ bs) ++ r))) (sym (append-cancel-take m (byte_bits b)))
      ∙ ap (take (8 + k)) (regroup p t d bs r)
      ∙ take-append_add 8 k (p ++ t) (d ++ (bs ++ r)) (
          omega (
            arith,
            length-append p t,
            length-take_byte (8 - m) cur (omega arith),
            length-take_byte m b (omega arith),
          ))

  -- The loop from a byte on whose low `m` bits are clear.
  concat_loop_bits :
      (room cur : ℕ) (bs : List ℕ)
      → room ≤ length bs
      → length bs ≤ suc room
      → cur < 256
      → drop (8 - m) (byte_bits cur) ≡ replicate m 0
      → All IsByte bs
      → bytes_bits (concat_loop m room cur bs)
        ≡ take (8 * suc room) (take (8 - m) (byte_bits cur) ++ (bytes_bits bs ++ replicate m 0))
  unfolding concat_loop
  concat_loop_bits zero cur [] h k hc clean hb =
      append-nil _
      ∙ sym (append-cancel-take (8 - m) (byte_bits cur))
      ∙ ap (λ l. take (8 - m) (byte_bits cur) ++ l) clean
      ∙ sym (
          take_all 8 _ (
            omega (
              arith,
              length-append (take (8 - m) (byte_bits cur)) (replicate m 0),
              length-take_byte (8 - m) cur (omega arith),
              length-replicate {A = ℕ} m 0,
            )))
  concat_loop_bits (suc room) cur [] h k hc clean hb = absurd (omega arith)
  concat_loop_bits zero cur (b ∷ bs) h k hc clean hb =
      append-nil _
      ∙ byte_bits-or m cur b hm hc (low_clear m cur hm hc clean) hb.0
      ∙ sym (append-nil _)
      ∙ sym (take_front 0 cur b (bytes_bits bs) (replicate m 0))
  concat_loop_bits (suc room) cur (b ∷ bs) h k hc clean hb =
      (ap₂ ◌++◌ (byte_bits-or m cur b hm hc (low_clear m cur hm hc clean) hb.0) (
        concat_loop_bits room (u8 (b * 2 ^ m)) bs (omega arith) (omega arith) (omega arith)
          (drop_shl b hb.0) hb.1
        ∙ ap (λ l. take (8 * suc room) (l ++ (bytes_bits bs ++ replicate m 0))) (take_shl b hb.0)))
      ∙ sym (take_front (8 * suc room) cur b (bytes_bits bs) (replicate m 0))
      ∙ ap (λ n. take n (take (8 - m) (byte_bits cur) ++ (bytes_bits (b ∷ bs) ++ replicate m 0)))
          (omega arith)

  concat_loop-IsByte :
      (room cur : ℕ) (bs : List ℕ)
      → cur < 256
      → drop (8 - m) (byte_bits cur) ≡ replicate m 0
      → All IsByte bs
      → All IsByte (concat_loop m room cur bs)
  unfolding concat_loop
  concat_loop-IsByte room cur [] hc clean hb = (hc, All-replicate IsByte room 0 (omega arith))
  concat_loop-IsByte zero cur (b ∷ bs) hc clean hb =
      (or_merge-lt m cur b hm hc (low_clear m cur hm hc clean) hb.0, tt)
  concat_loop-IsByte (suc room) cur (b ∷ bs) hc clean hb = (
    or_merge-lt m cur b hm hc (low_clear m cur hm hc clean) hb.0,
    concat_loop-IsByte room (u8 (b * 2 ^ m)) bs (omega arith) (drop_shl b hb.0) hb.1,
  )

  -- A first byte of the left side is passed through.
  pass_byte :
      (a size k : ℕ) (l rest : List ℕ)
      → 0 < size
      → m ≤ 8 * k
      → take (8 * size) (take (8 * suc k - m) (byte_bits a ++ l) ++ rest)
        ≡ byte_bits a ++ take (8 * (size - 1)) (take (8 * k - m) l ++ rest)
  pass_byte a size k l rest h le =
      let e : 8 * suc k - m ≡ 8 + (8 * k - m) = omega arith in
      let f : 8 * size ≡ 8 + 8 * (size - 1) = omega arith in
      rw (e, f)
        (ap (λ x. take (8 + 8 * (size - 1)) (x ++ rest))
            (take-append_add 8 (8 * k - m) (byte_bits a) l (length-byte_bits a))
          ∙ ap (take (8 + 8 * (size - 1))) (append_assoc (byte_bits a) (take (8 * k - m) l) rest)
          ∙ take-append_add 8 (8 * (size - 1)) (byte_bits a) _ (length-byte_bits a))

  clear_tail :
      (a k : ℕ) (l : List ℕ)
      → m ≤ 8 * k
      → drop (8 * suc k - m) (byte_bits a ++ l) ≡ replicate m 0
      → drop (8 * k - m) l ≡ replicate m 0
  clear_tail a k l le h =
      let e : 8 * suc k - m ≡ 8 + (8 * k - m) = omega arith in
      sym (drop-append_add 8 (8 * k - m) (byte_bits a) l (length-byte_bits a)) ∙ (rw e at h)

  same_front :
      (size a : ℕ) (rest : List ℕ)
      → 0 < size
      → take (8 * suc (size - 1)) (take (8 - m) (byte_bits a) ++ rest)
        ≡ take (8 * size) (take (8 - m) (byte_bits a ++ []) ++ rest)
  same_front size a rest h =
      let e : suc (size - 1) ≡ size = omega arith in rw (e, append-nil (byte_bits a)) refl

  abbrev pub Joined : ℕ → List ℕ → List ℕ → List ℕ → Type 0
  Joined size l r out =
      (bytes_bits out
        ≡ take (8 * size)
            (take (8 * length l - m) (bytes_bits l) ++ (bytes_bits r ++ replicate m 0)))
      × All IsByte out

  pub concat_bytes_bits :
      (size a : ℕ) (l : List ℕ) (b : ℕ) (bs : List ℕ)
      → size ≤ suc (length l) + suc (length bs)
      → suc (length l) + suc (length bs) ≤ suc size
      → All IsByte (a ∷ l)
      → All IsByte (b ∷ bs)
      → drop (8 * length (a ∷ l) - m) (bytes_bits (a ∷ l)) ≡ replicate m 0
      → (out : List ℕ) × (concat_bytes m size (a ∷ l) (b ∷ bs) ≡ some out)
        × Joined size (a ∷ l) (b ∷ bs) out
  unfolding concat_bytes
  concat_bytes_bits size a [] b bs h k ha hb clean =
      let clean' : drop (8 - m) (byte_bits a) ≡ replicate m 0 =
        rw (append-nil (byte_bits a)) at clean in
      (
        concat_loop m (size - 1) a (b ∷ bs),
        refl,
        (
          concat_loop_bits (size - 1) a (b ∷ bs) (omega arith) (omega arith) ha.0 clean' hb
              ∙ same_front size a (bytes_bits (b ∷ bs) ++ replicate m 0) (omega arith),
          concat_loop-IsByte (size - 1) a (b ∷ bs) ha.0 clean' hb,
        ),
      )
  concat_bytes_bits size a (c ∷ l) b bs h k ha hb clean =
      let (out, e, (bits, valid)) =
        concat_bytes_bits (size - 1) c l b bs (omega arith) (omega arith) ha.1 hb
          (clear_tail a (suc (length l)) (bytes_bits (c ∷ l)) (omega arith) clean) in
      (
        a ∷ out,
        rw e refl,
        (
          ap (λ x. byte_bits a ++ x) bits
              ∙ sym (
                  pass_byte a size (suc (length l)) (bytes_bits (c ∷ l))
                    (bytes_bits (b ∷ bs) ++ replicate m 0) (omega arith) (omega arith)),
          (ha.0, valid),
        ),
      )
