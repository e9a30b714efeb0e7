-- ===== src/HidDesc/Chunks.antt =====
-- How the reader splits the input does not matter to `Decode`.
use neio_agent.Prelude.{ℕ, ◌≡◌, refl, sym, ap, ◌∙◌, List, [], ◌∷◌, ◌++◌}
use mathlib.Core.Path.{fun_ext}
use neio_agent.HidDesc.Payload.{Result, ok, err, panic, ◌>>=◌}
use neio_agent.HidDesc.State.{State, init_state}
use neio_agent.HidDesc.Decoder.{step, parse_bytes, parse_chunks, decode}

abbrev pub joined : List (List ℕ) → List ℕ
joined [] = []
joined (c ∷ cs) = c ++ joined cs

>>=_assoc :
    {A B C : Type 0} (m : Result A) (f : A → Result B) (g : B → Result C)
    → ((m >>= f) >>= g) ≡ (m >>= λ a. f a >>= g)
>>=_assoc (ok a) f g = refl
>>=_assoc (err e) f g = refl
>>=_assoc panic f g = refl

pub parse_bytes-append :
    (s : State) (xs ys : List ℕ)
    → parse_bytes s (xs ++ ys) ≡ (parse_bytes s xs >>= λ s'. parse_bytes s' ys)
unfolding parse_bytes
parse_bytes-append s [] ys = refl
parse_bytes-append s (x ∷ xs) ys =
    ap (λ f. step s x >>= f) (fun_ext (λ s'. parse_bytes-append s' xs ys))
    ∙ sym (>>=_assoc (step s x) (λ s'. parse_bytes s' xs) (λ s'. parse_bytes s' ys))

parse_chunks-joined :
    (s : State) (cs : List (List ℕ)) → parse_chunks s cs ≡ parse_bytes s (joined cs)
unfolding parse_chunks
parse_chunks-joined s [] = unfold parse_bytes in refl
parse_chunks-joined s (c ∷ cs) =
    ap (λ f. parse_bytes s c >>= f) (fun_ext (λ s'. parse_chunks-joined s' cs))
    ∙ sym (parse_bytes-append s c (joined cs))

-- `Decode` gives the same descriptor, error or panic for every split of the input into the chunks
-- that the reader returns, empty reads included.
pub decode-joined : (cs ds : List (List ℕ)) → joined cs ≡ joined ds → decode cs ≡ decode ds
unfolding decode
decode-joined cs ds e =
    ap (λ r. r >>= λ s. ok s.collections)
      (parse_chunks-joined init_state cs
        ∙ ap (parse_bytes init_state) e
        ∙ sym (parse_chunks-joined init_state ds))
