-- ===== src/Bits/Join.antt =====
-- `ConcatBits` appends the bits of its arguments.
use neio_agent.Prelude.{
  ℕ, ◌+◌, ◌-◌, ◌*◌, ◌%◌, ◌≤◌, ◌<◌, ◌≡◌, ap, ◌∙◌, List, ◌++◌, arith, length, take, drop, replicate,
  drop-take, drop-append_le, replicate-add, take-replicate, take-append_le, take-take,
  length-append, length-take, length-replicate, take-append_add, drop-append_add,
}
use neio_agent.Bits.View.{bytes_bits, length-bytes_bits}

-- What the joined bytes give, for the missing bits `m` and `k` of the two sides.
module _ (m k size : ℕ) (l r out : List ℕ) (hm : m < 8) (hk : k < 8) (lm : m ≤ 8 * length l)
    (rk : k ≤ 8 * length r) (fits : size * 8 ≡ 8 * length l + 8 * length r - (m + k) + (m + k) % 8)
    (e : bytes_bits out
      ≡ take
          (8 * size)
          (take (8 * length l - m) (bytes_bits l) ++ (bytes_bits r ++ replicate m 0))) where
  abbrev pub front : List ℕ
  front = take (8 * length l - m) (bytes_bits l)

  abbrev pub rest : List ℕ
  rest = bytes_bits r ++ replicate m 0

  length-front : length front ≡ 8 * length l - m
  length-front = omega (arith, length-take (8 * length l - m) (bytes_bits l), length-bytes_bits l)

  pub length-joined : length out ≡ size
  length-joined = omega (
    arith,
    length-bytes_bits out,
    ap length e,
    length-take (8 * size) (front ++ rest),
    length-append front rest,
    length-append (bytes_bits r) (replicate m 0),
    length-replicate {A = ℕ} m 0,
    length-bytes_bits r,
    length-front,
  )

  abbrev pub right : ℕ
  right = 8 * length r - k

  pub joined_take :
      take (length out * 8 - (m + k) % 8) (bytes_bits out)
      ≡ take (length l * 8 - m) (bytes_bits l) ++ take (length r * 8 - k) (bytes_bits r)
  joined_take =
      let n : length out * 8 - (m + k) % 8 ≡ 8 * length l - m + right =
        omega (arith, length-joined) in
      let le : 8 * length l - m + right ≤ 8 * size = omega arith in
      let nl : length l * 8 - m ≡ 8 * length l - m = omega arith in
      let nr : length r * 8 - k ≡ right = omega arith in
      rw (n, e, nl, nr)
        (take-take (8 * length l - m + right) (8 * size) (front ++ rest) le
          ∙ take-append_add (8 * length l - m) right front rest length-front
          ∙ ap (λ x. front ++ x)
              (take-append_le right (bytes_bits r) (replicate m 0)
                (omega (arith, length-bytes_bits r))))

  pub joined_drop :
      drop (length r * 8 - k) (bytes_bits r) ≡ replicate k 0
      → drop (length out * 8 - (m + k) % 8) (bytes_bits out) ≡ replicate ((m + k) % 8) 0
  joined_drop clean =
      let n : length out * 8 - (m + k) % 8 ≡ 8 * length l - m + right =
        omega (arith, length-joined) in
      let s : 8 * size ≡ 8 * length l - m + right + (m + k) % 8 = omega arith in
      let nr : right ≡ length r * 8 - k = omega arith in
      rw (n, e, s)
        (drop-take (8 * length l - m + right) ((m + k) % 8) (front ++ rest)
          ∙ ap (take ((m + k) % 8)) (
              drop-append_add (8 * length l - m) right front rest length-front
              ∙ drop-append_le right (bytes_bits r) (replicate m 0)
                  (omega (arith, length-bytes_bits r))
              ∙ ap (λ x. x ++ replicate m 0) (rw nr clean)
              ∙ replicate-add k m 0)
          ∙ take-replicate ((m + k) % 8) (k + m) 0 (omega arith))
