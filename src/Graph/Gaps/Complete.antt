-- ===== src/Graph/Gaps/Complete.antt =====
-- What a graph without gaps guarantees.
use sigil_lang.Prelude.{
  ◌≡◌, refl, ◌↔◌, ◌⊎◌, Bool, true, false, Option, none, some, List, [], ◌∷◌, ◌++◌, arith, Text,
  eq_iff, text_eq, All, append-nil_iff,
}
use sigil_lang.Graph.{
  Direction, in_port, out, error, Port, Gap, DependencyRef, BehaviorNode, BehaviorLookup,
  ProjectGraph,
}
use sigil_lang.Graph.Ops.{values, lookup_behavior, lookup_hash, port_has_source, port_has_consumer}
use sigil_lang.Graph.Gaps.{
  gaps_of_lookup, gaps_of_port, port_gaps, find_port_gaps, gaps_of_dependency, dependency_gaps,
  find_dependency_gaps, node_gaps, find_gaps, is_complete, is_empty,
}

-- An input has a source; an output or an error is consumed or discarded.
abbrev pub IsConnected : ProjectGraph → BehaviorNode → Direction → Port → Type 0
IsConnected g n in_port p = port_has_source g n.id p.name ≡ true
IsConnected g n _ p = (p.discarded ≡ true) ⊎ (port_has_consumer g n.id p.name ≡ true)

-- What was found has the hash that the dependency is pinned to, if any.
abbrev pub IsPinnedTo : Option BehaviorLookup → DependencyRef → Type 0
IsPinnedTo (some found) d = (d.hash ≡ []) ⊎ (lookup_hash found ≡ d.hash)
IsPinnedTo none d = ⊥

abbrev pub IsResolved : ProjectGraph → DependencyRef → Type 0
IsResolved g d = IsPinnedTo (lookup_behavior g d.name) d

abbrev pub IsSettled : ProjectGraph → BehaviorNode → Type 0
IsSettled g n = All (λ p. IsConnected g n p.direction p) n.ports × All (IsResolved g) n.requires

gaps_of_port_iff :
    (d : Direction) (g : ProjectGraph) (n : BehaviorNode) (p : Port)
    → (gaps_of_port d g n p ≡ []) ↔ IsConnected g n d p
unfolding gaps_of_port
gaps_of_port_iff in_port g n p = ground arith
gaps_of_port_iff out g n p = ground arith
gaps_of_port_iff error g n p = ground arith

pub is_empty_iff : (t : Text) → (is_empty t ≡ true) ↔ (t ≡ [])
is_empty_iff [] = (λ _. refl, λ _. refl)
is_empty_iff (x ∷ xs) = (λ h. cc, λ h. cc)

gaps_of_lookup_iff :
    (o : Option BehaviorLookup) (n : BehaviorNode) (d : DependencyRef)
    → (gaps_of_lookup o n d ≡ []) ↔ IsPinnedTo o d
unfolding gaps_of_lookup
gaps_of_lookup_iff none n d = (λ h. cc, λ h. absurd h)
gaps_of_lookup_iff (some f) n d = ground (arith, is_empty_iff d.hash, eq_iff (lookup_hash f) d.hash)

port_gaps_iff :
    (g : ProjectGraph) (n : BehaviorNode) (ps : List Port)
    → (port_gaps g n ps ≡ []) ↔ All (λ p. IsConnected g n p.direction p) ps
unfolding port_gaps
port_gaps_iff g n [] = (λ _. tt, λ _. refl)
port_gaps_iff g n (p ∷ ps) =
    let here = gaps_of_port_iff p.direction g n p in
    let rest = port_gaps_iff g n ps in
    let split = append-nil_iff (gaps_of_port p.direction g n p) (port_gaps g n ps) in
    (λ h. let (a, b) = split.0 h in (here.0 a, rest.0 b), λ h. split.1 (here.1 h.0, rest.1 h.1))

dependency_gaps_iff :
    (g : ProjectGraph) (n : BehaviorNode) (ds : List DependencyRef)
    → (dependency_gaps g n ds ≡ []) ↔ All (IsResolved g) ds
unfolding dependency_gaps gaps_of_dependency
dependency_gaps_iff g n [] = (λ _. tt, λ _. refl)
dependency_gaps_iff g n (d ∷ ds) =
    let here = gaps_of_lookup_iff (lookup_behavior g d.name) n d in
    let rest = dependency_gaps_iff g n ds in
    let split = append-nil_iff (gaps_of_dependency g n d) (dependency_gaps g n ds) in
    (λ h. let (a, b) = split.0 h in (here.0 a, rest.0 b), λ h. split.1 (here.1 h.0, rest.1 h.1))

node_gaps_iff :
    (g : ProjectGraph) (ns : List BehaviorNode) → (node_gaps g ns ≡ []) ↔ All (IsSettled g) ns
unfolding node_gaps find_port_gaps find_dependency_gaps
node_gaps_iff g [] = (λ _. tt, λ _. refl)
node_gaps_iff g (n ∷ ns) =
    let ports = port_gaps_iff g n n.ports in
    let dependencies = dependency_gaps_iff g n n.requires in
    let rest = node_gaps_iff g ns in
    let outer =
      append-nil_iff (port_gaps g n n.ports) (dependency_gaps g n n.requires ++ node_gaps g ns) in
    let inner = append-nil_iff (dependency_gaps g n n.requires) (node_gaps g ns) in
    (
      λ h.
          let (a, b) = outer.0 h in
          let (c, d) = inner.0 b in ((ports.0 a, dependencies.0 c), rest.0 d),
      λ h. outer.1 (ports.1 h.0.0, inner.1 (dependencies.1 h.0.1, rest.1 h.1)),
    )

is_complete_gaps : (g : ProjectGraph) → (is_complete g ≡ true) ↔ (find_gaps g ≡ [])
unfolding is_complete
is_complete_gaps g = go (find_gaps g)
  where
    go : (gs : List Gap) → (◌≡◌ {A = Bool} (elim gs [ [] ↦ true | _ ∷ _ ↦ false ]) true) ↔ (gs ≡ [])
    go [] = (λ _. refl, λ _. refl)
    go (x ∷ xs) = (λ h. cc, λ h. cc)

-- A graph is complete exactly when on each of its nodes every input port has a source, every output
-- and error port is consumed or discarded, and every dependency is defined and, if it is pinned, has
-- the hash that it is pinned to.
pub is_complete_iff : (g : ProjectGraph) → (is_complete g ≡ true) ↔ All (IsSettled g) (values g)
unfolding find_gaps
is_complete_iff g =
    let nodes = node_gaps_iff g (values g) in
    let empty = is_complete_gaps g in (λ h. nodes.0 (empty.0 h), λ h. empty.1 (nodes.1 h))
