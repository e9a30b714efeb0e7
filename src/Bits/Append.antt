-- ===== src/Bits/Append.antt =====
-- `ConcatBits`, all cases: aligned, an empty right side, and the loop.
use neio_agent.Prelude.{
  ℕ, zero, suc, ◌+◌, ◌-◌, ◌*◌, ◌%◌, ◌≡◌, refl, sym, ap, ◌∙◌, some, List, [], ◌∷◌, ◌++◌, arith,
  length, take, drop, replicate, All-append, IsByte, append-nil, length-append, take-append_add,
  drop-append_add, take_all, leb, if◌then◌else◌,
}
use neio_agent.Bits.{Bits, IsValid}
use neio_agent.Bits.Concat.{concat_bytes, concat_bits}
use neio_agent.Bits.View.{bytes_bits, bits_of, length-bytes_bits, bytes_bits-append}
use neio_agent.Bits.Carry.{IsClean, concat_bytes_bits}
use neio_agent.Bits.Join.{length-joined, joined_take, joined_drop}

-- What joining `l` and `r` into `c` means.
pub record Appends (l r c : Bits) : Type 0 where
  pub bits : bits_of c ≡ bits_of l ++ bits_of r
  pub clean : IsClean r → IsClean c
  pub valid : IsValid c

abbrev bits : ℕ → List ℕ → Bits
bits m bs = record { missing_bits = m; bytes = bs }

append_aligned :
    (k : ℕ) (l r : List ℕ)
    → IsValid (bits 0 l)
    → IsValid (bits k r)
    → Appends (bits 0 l) (bits k r) (bits k (l ++ r))
append_aligned k l r vl vr =
    let n : length (l ++ r) * 8 - k ≡ 8 * length l + (length r * 8 - k) =
      omega (arith, length-append l r, vr.missing_fits) in
    let nl : length (bytes_bits l) ≡ 8 * length l = length-bytes_bits l in
    record {
      bits =
          rw (n, bytes_bits-append l r)
            (take-append_add (8 * length l) (length r * 8 - k) (bytes_bits l) (bytes_bits r) nl
              ∙ ap (λ x. x ++ take (length r * 8 - k) (bytes_bits r))
                  (sym (take_all (length l * 8 - 0) (bytes_bits l) (omega (arith, nl)))));
      clean = λ h.
          rw (n, bytes_bits-append l r)
            (drop-append_add (8 * length l) (length r * 8 - k) (bytes_bits l) (bytes_bits r) nl
              ∙ h);
      valid = record {
        bytes_valid = All-append IsByte l r vl.bytes_valid vr.bytes_valid;
        missing_small = vr.missing_small;
        missing_fits = omega (arith, length-append l r, vr.missing_fits);
      };
    }

append_loop :
    (m k size a b : ℕ) (l r : List ℕ)
    → IsValid (bits m (a ∷ l))
    → IsValid (bits k (b ∷ r))
    → size * 8 ≡ 8 * suc (length l) + 8 * suc (length r) - (m + k) + (m + k) % 8
    → IsClean (bits m (a ∷ l))
    → (out : List ℕ) × (concat_bytes m size (a ∷ l) (b ∷ r) ≡ some out)
      × Appends (bits m (a ∷ l)) (bits k (b ∷ r)) (bits ((m + k) % 8) out)
append_loop m k size a b l r vl vr fits clean =
    let hm = vl.missing_small in
    let hk = vr.missing_small in
    let c : drop (8 * suc (length l) - m) (bytes_bits (a ∷ l)) ≡ replicate m 0 =
      let q : 8 * suc (length l) - m ≡ suc (length l) * 8 - m = omega arith in rw q clean in
    let (out, e, (bs, ok)) =
      concat_bytes_bits m hm size a l b r (omega arith) (omega arith) vl.bytes_valid vr.bytes_valid
        c in
    (
      out,
      e,
      record {
        bits =
            joined_take m k size (a ∷ l) (b ∷ r) out hm hk vl.missing_fits vr.missing_fits fits bs;
        clean = λ h.
            joined_drop m k size (a ∷ l) (b ∷ r) out hm hk vl.missing_fits vr.missing_fits fits bs
              h;
        valid = record {
          bytes_valid = ok;
          missing_small = omega arith;
          missing_fits = omega (
            arith,
            length-joined m k size (a ∷ l) (b ∷ r) out hm hk vl.missing_fits vr.missing_fits fits
                bs,
          );
        };
      },
    )

-- An empty right side leaves the bytes as they are.
append_empty :
    (m : ℕ) (l : List ℕ)
    → IsValid (bits m l)
    → IsClean (bits m l)
    → Appends (bits m l) (bits 0 []) (bits m l)
append_empty m l v clean = record { bits = sym (append-nil _); clean = λ _. clean; valid = v }

concat_empty : (m n : ℕ) (l : List ℕ) → length l ≡ n → concat_bytes m (n + 0) l [] ≡ some l
unfolding concat_bytes
concat_empty m n l e = ap some (take_all (n + 0) l (omega arith))

concat_cases :
    (m : ℕ) (l : List ℕ) (k : ℕ) (r : List ℕ)
    → IsValid (bits m l)
    → IsValid (bits k r)
    → IsClean (bits m l)
    → (c : Bits) × (concat_bits (bits m l) (bits k r) ≡ some c) × Appends (bits m l) (bits k r) c
unfolding concat_bits
concat_cases zero l k r vl vr clean = (bits k (l ++ r), refl, append_aligned k l r vl vr)
concat_cases (suc m) [] k r vl vr clean = absurd (omega (arith, vl.missing_fits))
concat_cases (suc m) (a ∷ l) (suc k) [] vl vr clean = absurd (omega (arith, vr.missing_fits))
concat_cases (suc m) (a ∷ l) zero [] vl vr clean = (
  bits (suc m) (a ∷ l),
  ground (arith, concat_empty (suc m) (suc (length l)) (a ∷ l) refl),
  append_empty (suc m) (a ∷ l) vl clean,
)
concat_cases (suc m) (a ∷ l) k (b ∷ r) vl vr clean =
    let size : ℕ =
      if leb 8 (suc m + k)
      then suc (length l) + suc (length r) - 1
      else suc (length l) + suc (length r) in
    let (out, e, done) = append_loop (suc m) k size a b l r vl vr (ground arith) clean in
    (bits ((suc m + k) % 8) out, ground (arith, e), done)

-- For well-formed values whose left side has its missing bits clear, `ConcatBits` does not panic,
-- its bits are those of the left and then those of the right side, its missing bits are clear if
-- those of the right side are, and it is well-formed.
pub concat_bits-append :
    (l r : Bits)
    → IsValid l
    → IsValid r
    → IsClean l
    → (c : Bits) × (concat_bits l r ≡ some c) × Appends l r c
concat_bits-append l r vl vr clean =
    concat_cases l.missing_bits l.bytes r.missing_bits r.bytes vl vr clean
