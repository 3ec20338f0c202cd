-- ===== src/Graph/Builder.antt =====
-- compiler/src/graph/builder.rs: nodes from parsed behaviors, and edges from composites. A path is a
-- text.
pub mod Correct
pub mod Requests
pub mod Applied
pub mod Edges
use sigil_lang.Prelude.{
  ℕ, Bool, true, false, Option, none, some, List, [], ◌∷◌, ◌++◌, map, Text, nat_eq, lookup, Result,
  ok, err,
}
use sigil_lang.Ast.{
  Parameter, BehaviorRef, Contract, PlatformImpl, Composition, Behavior, Node, NodeKind, Nodes, end,
  next, kind_of, call_node,
}
use sigil_lang.Graph.{
  Port, input_port, output_port, DependencyRef, BehaviorKind, leaf_kind, composite_kind,
  native_kind, Implementation, leaf, composite, BehaviorNode, ContractRef, ProjectGraph,
}
use sigil_lang.Graph.Ops.{new_node, next_node_id, find_node_id, add_edge, port, inputs}

abbrev pub to_input_port : Parameter → Port
unfolding input_port
to_input_port p = input_port p.name p.typ p.size

abbrev pub to_output_port : Parameter → Port
unfolding output_port
to_output_port p = output_port p.name p.typ p.size

abbrev pub to_dependency : BehaviorRef → DependencyRef
to_dependency r = record { name = r.name; hash = r.hash }

abbrev pub kind_for : Behavior → BehaviorKind
kind_for b = elim b.is_native [
  | true ↦ native_kind
  | false ↦ elim b.composition [ some _ ↦ composite_kind | none ↦ leaf_kind ]
]

abbrev pub first_implementation : List PlatformImpl → Option Implementation
first_implementation [] = none
first_implementation (i ∷ is) = some (leaf i.nodes)

abbrev pub implementation_for : Behavior → Option Implementation
implementation_for b = elim b.composition [
  | some c ↦ some (composite c.nodes)
  | none ↦ first_implementation b.implementations
]

-- The node, and the graph with its counter moved on.
unfoldable pub behavior_to_node :
    ProjectGraph → Behavior → Option Text → BehaviorNode × ProjectGraph
unfolding new_node next_node_id
behavior_to_node g b path =
    let (i, g') = next_node_id g in
    (
      record (new_node i b.name (kind_for b)) {
        description = b.description;
        source_path = path;
        ports = map to_input_port b.contract.inputs ++ map to_output_port b.contract.outputs;
        guarantees = b.contract.guarantees;
        requires = map to_dependency b.contract.requires.behaviors;
        implementation = implementation_for b;
      },
      g',
    )

unfoldable pub contract_to_ref : Text → Contract → Text → Text → ContractRef
contract_to_ref n c h path = record {
  name = n;
  hash = h;
  ports = map to_input_port c.inputs ++ map to_output_port c.outputs;
  guarantees = c.guarantees;
  library_path = path;
}

-- An edge to be added: from node, from port, to node, to port.
abbrev pub Request : Type 0
Request = ℕ × Text × ℕ × Text

abbrev pub callee_inputs : ProjectGraph → ℕ → List Port
unfolding inputs
callee_inputs g callee = elim (lookup callee g.nodes) [ some n ↦ inputs n.ports | none ↦ [] ]

-- An input of the callee with the name of a port of the caller asks for an edge.
unfoldable pub matching : ProjectGraph → ℕ → ℕ → List Port → List Request
matching g caller callee [] = []
matching g caller callee (p ∷ ps) =
    let rest = matching g caller callee ps in
    elim (lookup caller g.nodes) [
      | none ↦ rest
      | some n ↦ elim (port n.ports p.name) [
        | some _ ↦ (caller, p.name, callee, p.name) ∷ rest
        | none ↦ rest
      ]
    ]

-- The requests of one statement of a composite.
unfoldable pub requests_of : ProjectGraph → ℕ → NodeKind → List Request
unfolding callee_inputs
requests_of g caller (call_node _ name _ _) = elim (find_node_id g name) [
  | some callee ↦ matching g caller callee (callee_inputs g callee)
  | none ↦ []
]
requests_of g caller _ = []

unfoldable pub requests_of_all : ProjectGraph → ℕ → Nodes → List Request
requests_of_all g caller end = []
requests_of_all g caller (next n ns) =
    requests_of g caller (kind_of n) ++ requests_of_all g caller ns

unfoldable pub requests_of_node : ProjectGraph → ℕ → BehaviorNode → List Request
requests_of_node g caller n = elim n.kind [
  | composite_kind ↦ elim n.implementation [
    | some (composite ns) ↦ requests_of_all g caller ns
    | _ ↦ []
  ]
  | _ ↦ []
]

unfoldable pub edges_to_add : ProjectGraph → List (ℕ × BehaviorNode) → List Request
edges_to_add g [] = []
edges_to_add g ((i, n) ∷ ns) = requests_of_node g i n ++ edges_to_add g ns

-- Errors are ignored.
unfoldable pub apply_edges : List Request → ProjectGraph → ProjectGraph
apply_edges [] g = g
apply_edges ((a, p, b, q) ∷ rs) g = elim (add_edge g a p b q) [
  | ok (_, g') ↦ apply_edges rs g'
  | err _ ↦ apply_edges rs g
]

unfoldable pub derive_edges_from_composites : ProjectGraph → ProjectGraph
derive_edges_from_composites g = apply_edges (edges_to_add g g.nodes) g
