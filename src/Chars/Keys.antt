-- ===== src/Chars/Keys.antt =====
-- components/actions/char.go: the keys of the digits.
use neio_agent.Prelude.{ℕ, ◌+◌, ◌-◌, ◌<◌, ◌≡◌, false, some, if◌then◌else◌, ◌==◌, arith}
use neio_agent.Chars.{key_1, key_0, get_ascii_char_key}

-- A digit from 1 to 9 gets the code ten above that of its own key, since the keys of the digits begin
-- with 1 and end with 0. The digit 0 gets its own key.
pub digit_keys :
    (d : ℕ)
    → d < 10
    → get_ascii_char_key (b'0' + d) ≡ some ((if d == 0 then key_0 else key_1 + (d - 1) + 10), false)
unfolding get_ascii_char_key
digit_keys d h = ground arith
