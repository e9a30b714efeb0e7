-- ===== src/Flow/Config.antt =====
-- What a configuration of internal/flowsvc says: the ids of its nodes, their types and their links.
use Prim.Native.String.{String}
use text.Mathlib.Text.{◌==◌}
use neio_agent.Prelude.{ℕ, suc, Option, none, some, List, [], ◌∷◌, ◌++◌, if◌then◌else◌}
use neio_agent.Flow.{NodeConfig}

abbrev pub count : String → List String → ℕ
count u [] = 0
count u (v ∷ vs) = if u == v then suc (count u vs) else count u vs

abbrev pub ids : List NodeConfig → List String
ids [] = []
ids (n ∷ rest) = n.id ∷ ids rest

abbrev pub or_else : Option String → String → String
or_else none d = d
or_else (some t) d = t

-- The type of the last node with an id.
abbrev pub type_of : String → List NodeConfig → String → String
type_of d [] u = d
type_of d (n ∷ rest) u = type_of (if u == n.id then n.typ else d) rest u

-- The nodes that the nodes with an id point to.
abbrev pub targets : List NodeConfig → String → List String
targets [] u = []
targets (n ∷ rest) u = if u == n.id then n.to ++ targets rest u else targets rest u

-- An id, once for each place at which `v` stands in a list.
abbrev pub each_time : String → String → List String → List String
each_time id v [] = []
each_time id v (to ∷ rest) = if v == to then id ∷ each_time id v rest else each_time id v rest

-- The nodes that point to `v`, once for each time that they do.
abbrev pub sources : List NodeConfig → String → List String
sources [] v = []
sources (n ∷ rest) v = each_time n.id v n.to ++ sources rest v
