-- ===== src/Examples/Graphs.antt =====
-- Concrete graphs for the theorems on `Graph`.
use sigil_lang.Prelude.{
  ℕ, ◌≡◌, ◌↔◌, refl, true, none, some, List, [], ◌∷◌, arith, codes, text_beq, nat_eq, text_eq,
  lookup, All, ok, contains,
}
use sigil_lang.Ast.{
  ty_beq, int, guarantee_eq, pure, Behavior, new_behavior, node, end, next, nil, call_node,
}
use sigil_lang.ContractHash.{compute_contract_hash}
use sigil_lang.Graph.{
  direction_eq, direction_beq, input_port, output_port, leaf_kind, BehaviorNode, ProjectGraph,
}
use sigil_lang.Graph.Ops.{
  new_node, new, next_node_id, inputs, add_node, add_edge, push_edge, next_edge_id, resolve_port,
  port, port_has_source, values, to_ast_contract,
}
use sigil_lang.Graph.Wiring.{IsWired, add_edge-IsWired}
use sigil_lang.Graph.Gaps.{is_complete}
use sigil_lang.Graph.Gaps.Complete.{is_complete_iff, IsSettled}
use sigil_lang.Graph.Validate.{
  check_transitive_purity, check_dependencies_resolve, check_hash_consistency,
}
use sigil_lang.Graph.Validate.Purity.{check_transitive_purity_iff, IsDeeplyPure}
use sigil_lang.Graph.Built.{empty, after, adds_node, Built-IsWired}
use sigil_lang.Graph.Validate.Agrees.{
  IsConsistent, is_complete-check_dependencies, check_hash_consistency_iff,
}
use sigil_lang.Graph.Builder.{behavior_to_node}
use sigil_lang.Graph.Builder.Correct.{to_ast_contract-behavior_to_node, add_node-behavior_to_node}

abbrev source_node : BehaviorNode
unfolding new_node output_port
source_node = record (new_node 1 (codes "source") leaf_kind) {
  ports = output_port (codes "x") int 8 ∷ [];
  guarantees = pure ∷ [];
}

abbrev sink_node : BehaviorNode
unfolding new_node input_port
sink_node = record (new_node 2 (codes "sink") leaf_kind) {
  ports = input_port (codes "y") int 8 ∷ [];
}

abbrev two_nodes : ProjectGraph
two_nodes = record {
  nodes = (1, source_node) ∷ (2, sink_node) ∷ [];
  library_nodes = [];
  edges = [];
  next_node_id = 3;
  next_edge_id = 1;
}

two_nodes-IsWired : IsWired two_nodes
two_nodes-IsWired = record { typed = tt; single = tt; numbered = tt }

abbrev sample : ℕ × ProjectGraph
sample = (
  1,
  record two_nodes {
    edges =
        record { id = 1; from_node = 1; from_port = codes "x"; to_node = 2; to_port = codes "y" }
        ∷ [];
    next_edge_id = 2;
  },
)

add_edge-sample : add_edge two_nodes 1 (codes "x") 2 (codes "y") ≡ ok sample
unfolding add_edge push_edge next_edge_id resolve_port port port_has_source source_node sink_node
    input_port output_port new_node lookup text_beq direction_beq ty_beq
add_edge-sample = refl

add_edge-IsWired_example : IsWired sample.1
add_edge-IsWired_example =
    add_edge-IsWired two_nodes 1 (codes "x") 2 (codes "y") sample two_nodes-IsWired (omega arith)
      add_edge-sample

sample-IsWired : IsWired sample.1
sample-IsWired =
    add_edge-IsWired two_nodes 1 (codes "x") 2 (codes "y") sample two_nodes-IsWired (omega arith)
      add_edge-sample

-- A hash that is the bytes themselves.
abbrev no_hash : List ℕ → List ℕ
no_hash bs = bs

abbrev third_node : BehaviorNode
unfolding new_node
third_node = new_node 3 (codes "third") leaf_kind

is_complete_iff_example : (is_complete sample.1 ≡ true) ↔ All (IsSettled sample.1) (values sample.1)
is_complete_iff_example = is_complete_iff sample.1

check_transitive_purity_iff_example :
    (check_transitive_purity sample.1 ≡ [])
    ↔ All (λ n. contains n.guarantees pure ≡ true → IsDeeplyPure sample.1 n) (values sample.1)
check_transitive_purity_iff_example = check_transitive_purity_iff sample.1

abbrev caller : Behavior
unfolding new_behavior
caller = record (new_behavior (codes "caller")) {
  contract = record {
    inputs = record { name = codes "a"; typ = int; size = 8 } ∷ [];
    outputs = record { name = codes "y"; typ = int; size = 8 } ∷ [];
    requires = record {
      behaviors = record { name = codes "sink"; hash = codes "0a1b2c3d" } ∷ [];
      memory = [];
    };
    guarantees = pure ∷ [];
  };
  composition = some (record {
    nodes =
        next (node (record { line = 1; col = 1; len = 4 }) (call_node none (codes "sink") nil []))
          end;
  });
}

to_ast_contract-behavior_to_node_example :
    to_ast_contract (behavior_to_node two_nodes caller none).0 ≡ caller.contract
unfolding caller
to_ast_contract-behavior_to_node_example = to_ast_contract-behavior_to_node two_nodes caller none

add_node-behavior_to_node_example :
    (n : BehaviorNode) × (lookup
        (behavior_to_node two_nodes caller none).0.id
        (add_node no_hash no_hash
          (behavior_to_node two_nodes caller none).1
          (behavior_to_node two_nodes caller none).0).1.nodes
      ≡ some n)
    × (n.hash ≡ compute_contract_hash no_hash no_hash caller.contract)
add_node-behavior_to_node_example = add_node-behavior_to_node no_hash no_hash two_nodes caller none

-- A composite that calls the sink, whose input has the name of an output of the composite.
abbrev with_caller : ProjectGraph
unfolding behavior_to_node new_node next_node_id input_port output_port
with_caller = record two_nodes {
  nodes = (1, source_node) ∷ (2, sink_node) ∷ (3, (behavior_to_node two_nodes caller none).0) ∷ [];
  next_node_id = 4;
}

-- A graph whose one behavior has no ports and no dependencies.
abbrev closed : ProjectGraph
closed = record two_nodes { nodes = (3, third_node) ∷ [] }

is_complete-check_dependencies_example :
    (check_dependencies_resolve closed ≡ []) × (check_hash_consistency closed ≡ [])
unfolding values third_node new_node
is_complete-check_dependencies_example =
    is_complete-check_dependencies closed ((is_complete_iff closed).1 ((tt, tt), tt))

check_hash_consistency_iff_example :
    (check_hash_consistency sample.1 ≡ [])
    ↔ All (λ n. All (IsConsistent sample.1) n.requires) (values sample.1)
check_hash_consistency_iff_example = check_hash_consistency_iff sample.1

Built-IsWired_example : IsWired (add_node no_hash no_hash new source_node).1
unfolding new lookup source_node new_node
Built-IsWired_example =
    Built-IsWired no_hash no_hash (add_node no_hash no_hash new source_node).1
      (after empty (adds_node source_node refl))
