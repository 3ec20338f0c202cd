-- ===== src/Graph/Ops.antt =====
-- compiler/src/graph/mod.rs: the methods of `BehaviorNode`, `ContractRef` and `ProjectGraph`. A
-- method that changes the graph returns the new one. Counters are 64-bit.
use sigil_lang.Prelude.{
  ℕ, ◌+◌, ◌^◌, ◌%◌, Bool, true, false, not, ◌&&◌, Option, none, some, List, [], ◌∷◌, ◌++◌, map,
  Text, codes, ◌==◌, find, keep, any, lookup, insert, without, length, ltb, nat_eq, text_eq,
  if◌then◌else◌, Result, ok, err, ◌>>=◌, ◌>>◌, guard,
}
use sigil_lang.Ast.{
  Parameter, BehaviorRef, Contract, PlatformImpl, Composition, Behavior, new_behavior, ty_eq,
}
use sigil_lang.Decimal.{decimal}
use sigil_lang.ContractHash.{compute_contract_hash}
use sigil_lang.Graph.{
  direction_eq, in_port, out, error, Port, DependencyRef, BehaviorKind, native_kind, Implementation,
  leaf, composite, BehaviorNode, ContractRef, ProjectGraph, BehaviorLookup, local, library,
  EdgeError, node_not_found, port_not_found, wrong_direction, type_mismatch, size_mismatch,
  already_connected, debug_type,
}

-- `BehaviorNode::new`.
unfoldable pub new_node : ℕ → Text → BehaviorKind → BehaviorNode
new_node i n k = record {
  id = i;
  name = n;
  hash = [];
  kind = k;
  ports = [];
  guarantees = [];
  requires = [];
  implementation = none;
  examples = [];
  description = none;
  source_path = none;
}

-- `inputs`, `outputs` and `errors` of a node or of a library contract.
unfoldable pub inputs : List Port → List Port
inputs = keep (λ p. p.direction == in_port)

unfoldable pub outputs : List Port → List Port
outputs = keep (λ p. p.direction == out)

unfoldable pub errors : List Port → List Port
errors = keep (λ p. p.direction == error)

-- `port` of a node or of a library contract.
unfoldable pub port : List Port → Text → Option Port
port ps n = find (λ p. p.name == n) ps

abbrev pub port_parameter : Port → Parameter
port_parameter p = record { name = p.name; typ = p.interpretation; size = p.size }

abbrev pub dependency_reference : DependencyRef → BehaviorRef
dependency_reference r = record { name = r.name; hash = r.hash }

unfoldable pub to_ast_contract : BehaviorNode → Contract
unfolding inputs outputs errors
to_ast_contract n = record {
  inputs = map port_parameter (inputs n.ports);
  outputs = map port_parameter (outputs n.ports ++ errors n.ports);
  requires = record { behaviors = map dependency_reference n.requires; memory = [] };
  guarantees = n.guarantees;
}

abbrev pub implementations_of : Option Implementation → List PlatformImpl
implementations_of (some (leaf ns)) = record { platform = none; nodes = ns } ∷ []
implementations_of _ = []

abbrev pub composition_of : Option Implementation → Option Composition
composition_of (some (composite ns)) = some (record { nodes = ns })
composition_of _ = none

abbrev pub is_native_kind : BehaviorKind → Bool
is_native_kind native_kind = true
is_native_kind _ = false

unfoldable pub to_ast_behavior : BehaviorNode → Behavior
unfolding to_ast_contract new_behavior
to_ast_behavior n = record (new_behavior n.name) {
  contract = to_ast_contract n;
  hash = n.hash;
  description = n.description;
  is_native = is_native_kind n.kind;
  implementations = implementations_of n.implementation;
  composition = composition_of n.implementation;
}

-- `ProjectGraph::new`.
unfoldable pub new : ProjectGraph
new = record { nodes = []; library_nodes = []; edges = []; next_node_id = 1; next_edge_id = 1 }

-- `self.next_node_id()` and `self.next_edge_id()`: the id and the graph after it.
unfoldable pub next_node_id : ProjectGraph → ℕ × ProjectGraph
next_node_id g = (g.next_node_id, record g { next_node_id = (g.next_node_id + 1) % 2 ^ 64 })

unfoldable pub next_edge_id : ProjectGraph → ℕ × ProjectGraph
next_edge_id g = (g.next_edge_id, record g { next_edge_id = (g.next_edge_id + 1) % 2 ^ 64 })

module _ (sha256 : List ℕ → List ℕ) (hex_encode : List ℕ → Text) where
  unfoldable pub compute_hash : BehaviorNode → Text
  unfolding to_ast_contract
  compute_hash n = compute_contract_hash sha256 hex_encode (to_ast_contract n)

  -- The new node, and whether its hash changed.
  unfoldable pub update_hash : BehaviorNode → BehaviorNode × Bool
  update_hash n =
      let new_hash = compute_hash n in
      if new_hash == n.hash then (n, false) else (record n { hash = new_hash }, true)

  unfoldable pub add_node : ProjectGraph → BehaviorNode → ℕ × ProjectGraph
  unfolding update_hash
  add_node g n = (n.id, record g { nodes = insert n.id (update_hash n).0 g.nodes })

unfoldable pub remove_node : ProjectGraph → ℕ → Option BehaviorNode × ProjectGraph
remove_node g id = (
  lookup id g.nodes,
  record g {
    nodes = without id g.nodes;
    edges = keep (λ e. not (e.from_node == id) && not (e.to_node == id)) g.edges;
  },
)

-- `self.nodes.values()`.
unfoldable pub values : ProjectGraph → List BehaviorNode
values g = map (λ p. p.1) g.nodes

unfoldable pub find_node : ProjectGraph → Text → Option BehaviorNode
unfolding values
find_node g name = find (λ n. n.name == name) (values g)

unfoldable pub find_node_id : ProjectGraph → Text → Option ℕ
unfolding find_node
find_node_id g name = elim (find_node g name) [ none ↦ none | some n ↦ some n.id ]

unfoldable pub add_library_node : ProjectGraph → ContractRef → ProjectGraph
add_library_node g c = record g { library_nodes = insert c.name c g.library_nodes }

unfoldable pub lookup_behavior : ProjectGraph → Text → Option BehaviorLookup
lookup_behavior g name = elim (find_node g name) [
  | some n ↦ some (local n)
  | none ↦ elim (lookup name g.library_nodes) [ some c ↦ some (library c) | none ↦ none ]
]

-- `BehaviorLookup::hash`.
unfoldable pub lookup_hash : BehaviorLookup → Text
lookup_hash (local n) = n.hash
lookup_hash (library c) = c.hash

-- `BehaviorLookup::port`.
unfoldable pub lookup_port : BehaviorLookup → Text → Option Port
lookup_port (local n) name = port n.ports name
lookup_port (library c) name = port c.ports name

unfoldable pub node_name : ProjectGraph → ℕ → Text
node_name g id = elim (lookup id g.nodes) [
  | some n ↦ n.name
  | none ↦ codes "<node " ++ (decimal id ++ codes ">")
]

unfoldable pub resolve_port : ProjectGraph → ℕ → Text → Result EdgeError Port
resolve_port g id name = elim (lookup id g.nodes) [
  | none ↦ err (node_not_found id)
  | some n ↦ elim (port n.ports name) [ some p ↦ ok p | none ↦ err (port_not_found n.name name) ]
]

-- An edge ends at this port.
unfoldable pub port_has_source : ProjectGraph → ℕ → Text → Bool
port_has_source g id name = any (λ e. e.to_node == id && e.to_port == name) g.edges

unfoldable pub port_has_consumer : ProjectGraph → ℕ → Text → Bool
port_has_consumer g id name = any (λ e. e.from_node == id && e.from_port == name) g.edges

unfoldable pub push_edge : ProjectGraph → ℕ → Text → ℕ → Text → ℕ × ProjectGraph
unfolding next_edge_id
push_edge g from_node from_port to_node to_port =
    let (i, g') = next_edge_id g in
    (
      i,
      record g' {
        edges =
            g'.edges
            ++ (record {
              id = i;
              from_node = from_node;
              from_port = from_port;
              to_node = to_node;
              to_port = to_port;
            }
                ∷ []);
      },
    )

unfoldable pub add_edge : ProjectGraph → ℕ → Text → ℕ → Text → Result EdgeError (ℕ × ProjectGraph)
unfolding push_edge
add_edge g from_node from_port to_node to_port = do
  from_p ← resolve_port g from_node from_port
  guard (not (from_p.direction == in_port))
      (wrong_direction (node_name g from_node) from_port (codes "Out or Error"))
  to_p ← resolve_port g to_node to_port
  guard (to_p.direction == in_port) (wrong_direction (node_name g to_node) to_port (codes "In"))
  guard (from_p.interpretation == to_p.interpretation)
      (type_mismatch (debug_type from_p.interpretation) (debug_type to_p.interpretation))
  guard (from_p.size == to_p.size) (size_mismatch from_p.size to_p.size)
  guard (not (port_has_source g to_node to_port)) (already_connected (node_name g to_node) to_port)
  ok (push_edge g from_node from_port to_node to_port)

-- The graph, and whether an edge was removed.
unfoldable pub remove_edge : ProjectGraph → ℕ → ProjectGraph × Bool
remove_edge g id =
    let g' = record g { edges = keep (λ e. not (e.id == id)) g.edges } in
    (g', ltb (length g'.edges) (length g.edges))

abbrev pub node_count : ProjectGraph → ℕ
node_count g = length g.nodes

abbrev pub edge_count : ProjectGraph → ℕ
edge_count g = length g.edges
