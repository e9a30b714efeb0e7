-- ===== src/HidDesc/Tracking.antt =====
-- The decoder keeps step with the encoder: each part that the encoder writes moves the decoder to
-- the state that has the part's values.
use neio_agent.Prelude.{ℕ, ◌≡◌, refl, sym, ap, ◌∙◌, List, [], ◌++◌, drop, append_assoc, append-nil}
use neio_agent.HidDesc.Payload.{ok, ◌>>=◌}
use neio_agent.HidDesc.State.{State}
use neio_agent.HidDesc.Commands.{Command, exec}
use neio_agent.HidDesc.Decoder.{parse_bytes}
use neio_agent.HidDesc.Encoder.{Encoder}
use neio_agent.HidDesc.Feed.{idle}
use neio_agent.HidDesc.Segments.{IsTag, Executes}
use mathlib.Core.Path.{subst}

-- The encoder's idea of the decoder's state. Of the usages it keeps the last one only.
pub record Tracks (e : Encoder) (s : State) : Type 0 where
  pub global : e.global ≡ s.global
  pub usage_minimum : e.local.usage_minimum ≡ s.local.usage_minimum
  pub usage_maximum : e.local.usage_maximum ≡ s.local.usage_maximum
  pub designator_index : e.local.designator_index ≡ s.local.designator_index
  pub designator_minimum : e.local.designator_minimum ≡ s.local.designator_minimum
  pub designator_maximum : e.local.designator_maximum ≡ s.local.designator_maximum

-- From `e` to `e'` the encoder writes bytes that take the decoder from `s` to `s'`.
abbrev pub Runs : Encoder → State → Encoder → State → Type 0
Runs e s e' s' =
    (bs : List ℕ) × (e'.out ≡ e.out ++ bs)
    × ((rest : List ℕ) → parse_bytes (idle s) (bs ++ rest) ≡ parse_bytes (idle s') rest)

pub Runs-refl : (e : Encoder) (s : State) → Runs e s e s
Runs-refl e s = ([], sym (append-nil e.out), λ rest. refl)

pub Runs-trans :
    (e : Encoder) (s : State) (e' : Encoder) (s' : State) (e'' : Encoder) (s'' : State)
    → Runs e s e' s'
    → Runs e' s' e'' s''
    → Runs e s e'' s''
Runs-trans e s e' s' e'' s'' (bs, p, run) (cs, q, more) = (
  bs ++ cs,
  q ∙ ap (λ l. l ++ cs) p ∙ append_assoc e.out bs cs,
  λ rest. ap (parse_bytes (idle s)) (append_assoc bs cs rest) ∙ run (cs ++ rest) ∙ more rest,
)

-- One step of both.
abbrev pub Step : Encoder → State → Encoder → State → Type 0
Step e s e' s' = Runs e s e' s' × Tracks e' s'

-- A part that the encoder leaves out, since the state has the values already.
pub stay : (e : Encoder) (s s' : State) → s ≡ s' → Tracks e s → Step e s e s'
stay e s s' p t = subst (λ x. Step e s e x) p (Runs-refl e s, t)

-- A part of one command, and of two.
module _ (c : Command) (t : ℕ) (tag : IsTag c t) where
  pub segment :
      (e : Encoder) (s : State) (e' : Encoder) (s' : State) (bs : List ℕ)
      → e'.out ≡ e.out ++ bs
      → Executes c t tag s bs
      → exec c (idle s) (drop 1 bs) ≡ ok (idle s')
      → Runs e s e' s'
  segment e s e' s' bs p run x =
      (bs, p, λ rest. run rest ∙ ap (λ r. r >>= λ s'. parse_bytes s' rest) x)

  module _ (d : Command) (u : ℕ) (tag' : IsTag d u) where
    pub segment2 :
        (e : Encoder) (s : State) (m : State) (e' : Encoder) (s' : State) (bs cs : List ℕ)
        → e'.out ≡ e.out ++ (bs ++ cs)
        → Executes c t tag s bs
        → exec c (idle s) (drop 1 bs) ≡ ok (idle m)
        → Executes d u tag' m cs
        → exec d (idle m) (drop 1 cs) ≡ ok (idle s')
        → Runs e s e' s'
    segment2 e s m e' s' bs cs p run x run' x' = (
      bs ++ cs,
      p,
      λ rest.
          ap (parse_bytes (idle s)) (append_assoc bs cs rest)
          ∙ run (cs ++ rest)
          ∙ ap (λ r. r >>= λ s'. parse_bytes s' (cs ++ rest)) x
          ∙ run' rest
          ∙ ap (λ r. r >>= λ s'. parse_bytes s' rest) x',
    )
