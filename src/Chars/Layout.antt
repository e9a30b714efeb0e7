-- ===== src/Chars/Layout.antt =====
-- components/actions/char.go against the US keyboard: what the keys type, as the HID usage tables say
-- (and the comments of hidapi/hidusage/usagepages/keycodes_gen.go repeat).
use mathlib.Core.Path.{subst}
use neio_agent.Prelude.{
  ℕ, zero, suc, ◌+◌, ◌-◌, ◌<◌, ◌≡◌, ◌⊎◌, refl, ap, Bool, true, false, ◌&&◌, ◌||◌, Option, none,
  some, List, [], ◌∷◌, if◌then◌else◌, ltb, leb, ◌==◌, get_elem?, arith, Bool-cases, inl, inr,
  ==_iff,
}
use neio_agent.Chars.{get_ascii_char_key, find_key, ascii_char_map, ascii_char_map_shifted}

-- From the key 0x04 on. Enter, Escape, Backspace, Tab and the key of non-US layouts type no character
-- that can be asked for.
abbrev plain_keys : List (Option ℕ)
plain_keys =
    some b'a'
    ∷ some b'b'
    ∷ some b'c'
    ∷ some b'd'
    ∷ some b'e'
    ∷ some b'f'
    ∷ some b'g'
    ∷ some b'h'
    ∷ some b'i'
    ∷ some b'j'
    ∷ some b'k'
    ∷ some b'l'
    ∷ some b'm'
    ∷ some b'n'
    ∷ some b'o'
    ∷ some b'p'
    ∷ some b'q'
    ∷ some b'r'
    ∷ some b's'
    ∷ some b't'
    ∷ some b'u'
    ∷ some b'v'
    ∷ some b'w'
    ∷ some b'x'
    ∷ some b'y'
    ∷ some b'z'
    ∷ some b'1'
    ∷ some b'2'
    ∷ some b'3'
    ∷ some b'4'
    ∷ some b'5'
    ∷ some b'6'
    ∷ some b'7'
    ∷ some b'8'
    ∷ some b'9'
    ∷ some b'0'
    ∷ none
    ∷ none
    ∷ none
    ∷ none
    ∷ some b' '
    ∷ some b'-'
    ∷ some b'='
    ∷ some b'['
    ∷ some b']'
    ∷ some b'\\'
    ∷ none
    ∷ some b';'
    ∷ some b'\''
    ∷ some b'`'
    ∷ some b','
    ∷ some b'.'
    ∷ some b'/'
    ∷ []

abbrev shifted_keys : List (Option ℕ)
shifted_keys =
    some b'A'
    ∷ some b'B'
    ∷ some b'C'
    ∷ some b'D'
    ∷ some b'E'
    ∷ some b'F'
    ∷ some b'G'
    ∷ some b'H'
    ∷ some b'I'
    ∷ some b'J'
    ∷ some b'K'
    ∷ some b'L'
    ∷ some b'M'
    ∷ some b'N'
    ∷ some b'O'
    ∷ some b'P'
    ∷ some b'Q'
    ∷ some b'R'
    ∷ some b'S'
    ∷ some b'T'
    ∷ some b'U'
    ∷ some b'V'
    ∷ some b'W'
    ∷ some b'X'
    ∷ some b'Y'
    ∷ some b'Z'
    ∷ some b'!'
    ∷ some b'@'
    ∷ some b'#'
    ∷ some b'$'
    ∷ some b'%'
    ∷ some b'^'
    ∷ some b'&'
    ∷ some b'*'
    ∷ some b'('
    ∷ some b')'
    ∷ none
    ∷ none
    ∷ none
    ∷ none
    ∷ some b' '
    ∷ some b'_'
    ∷ some b'+'
    ∷ some b'{'
    ∷ some b'}'
    ∷ some b'|'
    ∷ none
    ∷ some b':'
    ∷ some b'"'
    ∷ some b'~'
    ∷ some b'<'
    ∷ some b'>'
    ∷ some b'?'
    ∷ []

abbrev flat_option : Option (Option ℕ) → Option ℕ
flat_option none = none
flat_option (some o) = o

-- The character that a key types, without and with a shift key.
abbrev pub typed_char : ℕ → Bool → Option ℕ
typed_char k shift =
    if ltb k 4
    then none
    else flat_option (get_elem? (if shift then shifted_keys else plain_keys) (k - 4))

abbrev pub is_printable : ℕ → Bool
is_printable r = leb 32 r && leb r 126

-- The digits whose keys are wrong.
abbrev pub is_misplaced : ℕ → Bool
is_misplaced r = leb b'1' r && leb r b'9'

-- The key that is found for the character types it.
pub record TypesBack (r : ℕ) : Type 0 where
  pub key : ℕ
  pub shift : Bool
  pub found : get_ascii_char_key r ≡ some (key, shift)
  pub types : typed_char key shift ≡ some r

types_same : ℕ → Option ℕ → Bool
types_same r none = false
types_same r (some c) = c == r

types_back : ℕ → Option (ℕ × Bool) → Bool
types_back r none = false
types_back r (some (k, s)) = types_same r (typed_char k s)

-- The test of `n` characters from `r` on.
all_typed : ℕ → ℕ → Bool
all_typed zero r = true
all_typed (suc n) r =
    let rest = all_typed n (suc r) in
    (is_misplaced r || types_back r (get_ascii_char_key r)) && rest

table_typed : all_typed 95 32 ≡ true
unfolding all_typed types_back types_same get_ascii_char_key find_key ascii_char_map
    ascii_char_map_shifted
table_typed = refl

all_typed_at :
    (n r i : ℕ)
    → all_typed n r ≡ true
    → i < n
    → (is_misplaced (r + i) || types_back (r + i) (get_ascii_char_key (r + i))) ≡ true
unfolding all_typed
all_typed_at zero r i h lt = absurd (omega arith)
all_typed_at (suc n) r zero h lt = let is : r + 0 ≡ r = omega arith in rw is (ground (arith, h))
all_typed_at (suc n) r (suc i) h lt =
    let is : r + suc i ≡ suc r + i = omega arith in
    rw is (all_typed_at n (suc r) i (ground (arith, h)) (omega arith))

types_same-some : (r : ℕ) (o : Option ℕ) → types_same r o ≡ true → o ≡ some r
unfolding types_same
types_same-some r none h = absurd (ground (arith, h))
types_same-some r (some c) h = ap some ((==_iff c r).0 h)

types_back-TypesBack :
    (r : ℕ) (o : Option (ℕ × Bool)) → get_ascii_char_key r ≡ o → types_back r o ≡ true → TypesBack r
unfolding types_back
types_back-TypesBack r none found h = absurd (ground (arith, h))
types_back-TypesBack r (some (k, s)) found h = record {
  key = k;
  shift = s;
  found = found;
  types = types_same-some r (typed_char k s) h;
}

or_right : (a b : Bool) → (a || b) ≡ true → a ≡ false → b ≡ true
or_right a b h e = ground (arith, h, e)

in_table :
    (r : ℕ) → is_printable r ≡ true → (is_misplaced r || types_back r (get_ascii_char_key r)) ≡ true
in_table r h =
    let is : 32 + (r - 32) ≡ r = ground (arith, h) in
    subst (λ r. (is_misplaced r || types_back r (get_ascii_char_key r)) ≡ true) is
      (all_typed_at 95 32 (r - 32) table_typed (ground (arith, h)))

outside_none : (r : ℕ) → is_printable r ≡ false → get_ascii_char_key r ≡ none
unfolding get_ascii_char_key
outside_none r h = let out : (ltb r 32 || ltb 126 r) ≡ true = ground (arith, h) in rw out refl

-- For a printable ASCII character other than the digits 1 to 9 a key is found, and with the shift that
-- goes with it the key types this character on a US keyboard. For a character
-- that is not printable ASCII there is an error.
pub get_ascii_char_key-TypesBack :
    (r : ℕ)
    → is_misplaced r ≡ false
    → TypesBack r ⊎ ((is_printable r ≡ false) × (get_ascii_char_key r ≡ none))
get_ascii_char_key-TypesBack r h = elim (Bool-cases (is_printable r)) [
  | inl inside ↦ inl (
      types_back-TypesBack r (get_ascii_char_key r) refl
        (or_right (is_misplaced r) (types_back r (get_ascii_char_key r)) (in_table r inside) h))
  | inr outside ↦ inr (outside, outside_none r outside)
]
