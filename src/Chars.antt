-- ===== src/Chars.antt =====
-- components/actions/char.go: the key of an ASCII character on a US keyboard. The key codes are those
-- of hidapi/hidusage/usagepages/keycodes_gen.go. A rune is its code point; an error is `none`.
pub mod Keys
pub mod Layout
mod Tests
use neio_agent.Prelude.{
  ℕ, ◌+◌, ◌-◌, Bool, true, false, not, ◌&&◌, ◌||◌, Option, none, some, List, [], ◌∷◌, if◌then◌else◌,
  ltb, leb, ◌==◌,
}

abbrev pub key_a : ℕ
key_a = 0x04

abbrev pub key_1 : ℕ
key_1 = 0x1e

abbrev pub key_0 : ℕ
key_0 = 0x27

-- A map with a missing key gives 0.
unfoldable pub find_key : ℕ → List (ℕ × ℕ) → ℕ
find_key r [] = 0
find_key r ((c, k) ∷ m) = if r == c then k else find_key r m

-- Minus, Equal, LeftBracket, RightBracket, Backslash, Semicolon, Quote, Comma, Period, Slash,
-- GraveAccent and Spacebar.
unfoldable pub ascii_char_map : List (ℕ × ℕ)
ascii_char_map =
    (b'-', 0x2d)
    ∷ (b'=', 0x2e)
    ∷ (b'[', 0x2f)
    ∷ (b']', 0x30)
    ∷ (b'\\', 0x31)
    ∷ (b';', 0x33)
    ∷ (b'\'', 0x34)
    ∷ (b',', 0x36)
    ∷ (b'.', 0x37)
    ∷ (b'/', 0x38)
    ∷ (b'`', 0x35)
    ∷ (b' ', 0x2c)
    ∷ []

unfoldable pub ascii_char_map_shifted : List (ℕ × ℕ)
ascii_char_map_shifted =
    (b'_', 0x2d)
    ∷ (b'+', 0x2e)
    ∷ (b'{', 0x2f)
    ∷ (b'}', 0x30)
    ∷ (b'|', 0x31)
    ∷ (b':', 0x33)
    ∷ (b'"', 0x34)
    ∷ (b'<', 0x36)
    ∷ (b'>', 0x37)
    ∷ (b'?', 0x38)
    ∷ (b'~', 0x35)
    ∷ (b'!', key_1)
    ∷ (b'@', 0x1f)
    ∷ (b'#', 0x20)
    ∷ (b'$', 0x21)
    ∷ (b'%', 0x22)
    ∷ (b'^', 0x23)
    ∷ (b'&', 0x24)
    ∷ (b'*', 0x25)
    ∷ (b'(', 0x26)
    ∷ (b')', key_0)
    ∷ []

-- The key, and whether it needs a shift key.
unfoldable pub get_ascii_char_key : ℕ → Option (ℕ × Bool)
unfolding find_key ascii_char_map ascii_char_map_shifted
get_ascii_char_key r =
    let plain = find_key r ascii_char_map in
    let shifted = find_key r ascii_char_map_shifted in
    if ltb r b' ' || ltb b'~' r
    then none
    else if not (plain == 0)
    then some (plain, false)
    else if not (shifted == 0)
    then some (shifted, true)
    else if leb b'a' r && leb r b'z'
    then some (key_a + (r - b'a'), false)
    else if leb b'A' r && leb r b'Z'
    then some (key_a + (r - b'A'), true)
    else if leb b'0' r && leb r b'9'
    then some (key_0 + (r - b'0'), false)
    else none
