-- ===== src/Mux/Routes.antt =====
-- The route in use is the one that was set last and is still set.
use Prim.Native.String.{String}
use text.Mathlib.Text.{◌==◌}
use text.Mathlib.TextEquality.{eq_iff}
use text.Mathlib.TextPositions.{eq_refl}
use neio_agent.Prelude.{
  ◌≡◌, ◌≢◌, refl, sym, ap, ◌∙◌, true, false, List, [], ◌∷◌, ◌++◌, arith, Bool-cases, inl, inr,
}
use neio_agent.Mux.{
  Signal, reset, set_route, unset_route, Routing, initial, last_or, remove_first, contains, handle,
  handle_all,
}

abbrev pub IsRouted : String → Routing → Type 0
IsRouted d s = s.current_route ≡ last_or d s.route_list

last_or-append : (d x : String) (rs : List String) → last_or d (rs ++ (x ∷ [])) ≡ x
last_or-append d x [] = refl
last_or-append d x (r ∷ rs) = last_or-append r x rs

last_or-remove_first :
    (d x : String) (rs : List String)
    → last_or d rs ≢ x
    → last_or d (remove_first x rs) ≡ last_or d rs
last_or-remove_first d x [] h = refl
last_or-remove_first d x (r ∷ []) h = ground (arith, eq_iff r x)
last_or-remove_first d x (r ∷ q ∷ rs) h = elim (Bool-cases (r == x)) [
  | inl e ↦ rw e refl
  | inr e ↦ rw e (last_or-remove_first r x (q ∷ rs) h)
]

false_not_true : false ≢ true
false_not_true e = cc e

handle-IsRouted : (d : String) (s : Routing) (x : Signal) → IsRouted d s → IsRouted d (handle d s x)
unfolding handle
handle-IsRouted d s reset h = refl
handle-IsRouted d s (set_route r) h = elim (Bool-cases (r == s.current_route)) [
  | inl e ↦ rw e h
  | inr e ↦ rw e (sym (last_or-append d r s.route_list))
]
handle-IsRouted d s (unset_route r) h = elim (Bool-cases (contains r s.route_list)) [
  | inr absent ↦ rw absent h
  | inl present ↦ elim (Bool-cases (s.current_route == r)) [
    | inl same ↦ rw (present, same) refl
    | inr other ↦
        rw (present, other)
          (h
            ∙ sym (
                last_or-remove_first d r s.route_list
                  (λ e. false_not_true (sym other ∙ (eq_iff s.current_route r).1 (h ∙ e)))))
  ]
]

-- After any signals the route in use is the last of the set routes, or the default route if none
-- is set.
pub handle_all-IsRouted : (d : String) (xs : List Signal) → IsRouted d (handle_all d (initial d) xs)
unfolding handle_all
handle_all-IsRouted d xs = from (initial d) xs refl
  where
    from : (s : Routing) (xs : List Signal) → IsRouted d s → IsRouted d (handle_all d s xs)
    from s [] h = h
    from s (x ∷ xs) h = from (handle d s x) xs (handle-IsRouted d s x h)

contains-append : (x : String) (rs : List String) → contains x (rs ++ (x ∷ [])) ≡ true
contains-append x [] = rw (eq_refl x) refl
contains-append x (r ∷ rs) = elim (Bool-cases (r == x)) [
  | inl e ↦ rw e refl
  | inr e ↦ rw e (contains-append x rs)
]

remove_first-append :
    (x : String) (rs : List String) → contains x rs ≡ false → remove_first x (rs ++ (x ∷ [])) ≡ rs
remove_first-append x [] h = rw (eq_refl x) refl
remove_first-append x (r ∷ rs) h = elim (Bool-cases (r == x)) [
  | inl e ↦ ground (arith, e)
  | inr e ↦ rw e (ap (λ l. r ∷ l) (remove_first-append x rs (ground (arith, e))))
]

-- Where the route in use is the last of the set routes, or the default route if none is set, setting a
-- route that is neither in use nor set, and unsetting it, restores the routing.
pub unset_route-set_route :
    (d r : String) (s : Routing)
    → IsRouted d s
    → r ≢ s.current_route
    → contains r s.route_list ≡ false
    → handle d (handle d s (set_route r)) (unset_route r) ≡ s
unfolding handle
unset_route-set_route d r s h ne absent =
    let e : (r == s.current_route) ≡ false = ground (arith, eq_iff r s.current_route) in
    rw (e, contains-append r s.route_list, eq_refl r, remove_first-append r s.route_list absent)
      (ap (λ c. record { current_route = c; route_list = s.route_list }) (sym h))
