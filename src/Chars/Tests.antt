-- ===== src/Chars/Tests.antt =====
-- Concrete runs of components/actions/char.go: "Q", and "1", which gets the Enter key.
use neio_agent.Prelude.{◌+◌, ◌-◌, ◌≡◌, ◌⊎◌, refl, false, none, some, if◌then◌else◌, ◌==◌, arith}
use neio_agent.Chars.{key_1, key_0, get_ascii_char_key}
use neio_agent.Chars.Keys.{digit_keys}
use neio_agent.Chars.Layout.{TypesBack, is_printable, get_ascii_char_key-TypesBack}

get_ascii_char_key-TypesBack_example :
    TypesBack b'Q' ⊎ ((is_printable b'Q' ≡ false) × (get_ascii_char_key b'Q' ≡ none))
get_ascii_char_key-TypesBack_example = get_ascii_char_key-TypesBack b'Q' refl

digit_keys_example :
    get_ascii_char_key (b'0' + 1) ≡ some ((if 1 == 0 then key_0 else key_1 + (1 - 1) + 10), false)
digit_keys_example = digit_keys 1 (omega arith)
