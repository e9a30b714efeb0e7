-- ===== src/HidDesc/Payload.antt =====
-- hidapi/hiddesc/commands.go, the payload readers, and the results of the decoder. `panic` is a Go
-- run-time panic.
use neio_agent.Prelude.{ℕ, List, [], ◌∷◌, le16, le32, sign_extend8, sign_extend16}

pub data Error : Type 0 where
  too_long missing bad_length no_open_collection stack_empty not_implemented read_failed : Error
  unknown_command : ℕ → Error

pub data Result {ℓ} (A : Type ℓ) : Type ℓ where
  ok : A → Result A
  err : Error → Result A
  panic : Result A

infixl 5 ◌>>=◌
abbrev pub ◌>>=◌ {ℓ κ} : {A : Type ℓ} {B : Type κ} → Result A → (A → Result B) → Result B
ok a >>= f = f a
err e >>= f = err e
panic >>= f = panic

-- Go reads a byte of the payload as a byte: the list holds numbers below 256.
unfoldable pub to_uint16 : List ℕ → Result ℕ
to_uint16 [] = err missing
to_uint16 (a ∷ []) = ok (le16 a 0)
to_uint16 (a ∷ b ∷ []) = ok (le16 a b)
to_uint16 (a ∷ b ∷ c ∷ r) = err too_long

unfoldable pub to_uint32 : List ℕ → Result ℕ
to_uint32 [] = err missing
to_uint32 (a ∷ []) = ok (le32 a 0 0 0)
to_uint32 (a ∷ b ∷ []) = ok (le32 a b 0 0)
to_uint32 (a ∷ b ∷ c ∷ []) = ok (le32 a b c 0)
to_uint32 (a ∷ b ∷ c ∷ d ∷ []) = ok (le32 a b c d)
to_uint32 (a ∷ b ∷ c ∷ d ∷ e ∷ r) = err too_long

unfoldable pub to_int32 : List ℕ → Result ℕ
to_int32 [] = err bad_length
to_int32 (a ∷ []) = ok (sign_extend8 a)
to_int32 (a ∷ b ∷ []) = ok (sign_extend16 (le16 a b))
to_int32 (a ∷ b ∷ c ∷ []) = err bad_length
to_int32 (a ∷ b ∷ c ∷ d ∷ []) = ok (le32 a b c d)
to_int32 (a ∷ b ∷ c ∷ d ∷ e ∷ r) = err bad_length
