-- ===== src/HidDesc/Feed.antt =====
-- The decoder on a whole command: its bytes execute the command.
use neio_agent.Prelude.{
  ℕ, ◌%◌, ◌<◌, ◌≡◌, ◌≢◌, refl, ap, some, List, [], ◌∷◌, ◌++◌, arith, length, ==_of_eq, ==_of_ne,
}
use neio_agent.HidDesc.Tags.{payload_size, tag_prefix, with_item_size}
use neio_agent.HidDesc.Payload.{ok, ◌>>=◌}
use neio_agent.HidDesc.State.{State}
use neio_agent.HidDesc.Commands.{Command, delimiter, exec, command_of}
use neio_agent.HidDesc.Decoder.{payload_len, finish, complete, step, parse_bytes}

-- A state between commands.
abbrev pub idle : State → State
idle s = record s { command = 0; command_payload_len = 0; command_payload = [] }

abbrev reading : State → ℕ → ℕ → List ℕ → State
reading s t n p = record s { command = t; command_payload_len = n; command_payload = p }

finish-idle :
    (c : Command) (s : State) (t n : ℕ) (p : List ℕ)
    → finish c (reading s t n p) ≡ exec c (idle s) p
unfolding finish exec
finish-idle delimiter s t n p = refl
finish-idle _ s t n p = ground arith

-- A tag and the command that it stands for.
module _ (c : Command) (t : ℕ) (aligned : t % 4 ≡ 0) (real : t ≢ 0)
    (known : command_of t ≡ some c) where
  step_tag :
      (s : State) (n : ℕ)
      → n < 4
      → step (idle s) (with_item_size t n) ≡ complete (reading s t (payload_len n) [])
  unfolding step
  step_tag s n h =
      let e : tag_prefix (with_item_size t n) ≡ t = omega arith in
      let f : payload_size (with_item_size t n) ≡ n = omega arith in
      rw (e, known, f) (ap (λ x. complete (reading s x (payload_len n) [])) e)

  step_payload :
      (s : State) (n b : ℕ) (p : List ℕ)
      → step (reading s t n p) b ≡ complete (reading s t n (p ++ (b ∷ [])))
  unfolding step
  step_payload s n b p = rw (==_of_ne real) refl

  complete_more :
      (s : State) (n : ℕ) (p : List ℕ)
      → length p ≢ n
      → complete (reading s t n p) ≡ ok (reading s t n p)
  unfolding complete
  complete_more s n p h = rw (==_of_ne h) refl

  complete_done : (s : State) (p : List ℕ) → complete (reading s t (length p) p) ≡ exec c (idle s) p
  unfolding complete
  complete_done s p = rw (==_of_eq refl, known) (finish-idle c s t (length p) p)

  pub parse_command0 :
      (s : State) (rest : List ℕ)
      → parse_bytes (idle s) (with_item_size t 0 ∷ rest)
        ≡ (exec c (idle s) [] >>= λ s'. parse_bytes s' rest)
  unfolding parse_bytes
  parse_command0 s rest = rw (step_tag s 0 (omega arith), complete_done s []) refl

  pub parse_command1 :
      (s : State) (a : ℕ) (rest : List ℕ)
      → parse_bytes (idle s) (with_item_size t 1 ∷ a ∷ rest)
        ≡ (exec c (idle s) (a ∷ []) >>= λ s'. parse_bytes s' rest)
  unfolding parse_bytes
  parse_command1 s a rest =
      rw
        (
          step_tag s 1 (omega arith),
          complete_more s 1 [] (λ e. omega arith),
          step_payload s 1 a [],
          complete_done s (a ∷ []),
        )
        refl

  pub parse_command2 :
      (s : State) (a b : ℕ) (rest : List ℕ)
      → parse_bytes (idle s) (with_item_size t 2 ∷ a ∷ b ∷ rest)
        ≡ (exec c (idle s) (a ∷ b ∷ []) >>= λ s'. parse_bytes s' rest)
  unfolding parse_bytes
  parse_command2 s a b rest =
      rw
        (
          step_tag s 2 (omega arith),
          complete_more s 2 [] (λ e. omega arith),
          step_payload s 2 a [],
          complete_more s 2 (a ∷ []) (λ e. omega arith),
          step_payload s 2 b (a ∷ []),
          complete_done s (a ∷ b ∷ []),
        )
        refl

  pub parse_command3 :
      (s : State) (x0 x1 x2 x3 : ℕ) (rest : List ℕ)
      → parse_bytes (idle s) (with_item_size t 3 ∷ x0 ∷ x1 ∷ x2 ∷ x3 ∷ rest)
        ≡ (exec c (idle s) (x0 ∷ x1 ∷ x2 ∷ x3 ∷ []) >>= λ s'. parse_bytes s' rest)
  unfolding parse_bytes
  parse_command3 s x0 x1 x2 x3 rest =
      rw
        (
          step_tag s 3 (omega arith),
          complete_more s 4 [] (λ e. omega arith),
          step_payload s 4 x0 [],
          complete_more s 4 (x0 ∷ []) (λ e. omega arith),
          step_payload s 4 x1 (x0 ∷ []),
          complete_more s 4 (x0 ∷ x1 ∷ []) (λ e. omega arith),
          step_payload s 4 x2 (x0 ∷ x1 ∷ []),
          complete_more s 4 (x0 ∷ x1 ∷ x2 ∷ []) (λ e. omega arith),
          step_payload s 4 x3 (x0 ∷ x1 ∷ x2 ∷ []),
          complete_done s (x0 ∷ x1 ∷ x2 ∷ x3 ∷ []),
        )
        refl
