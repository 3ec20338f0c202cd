-- ===== src/Graph/Built.antt =====
-- The graphs that a program can build with the methods of `ProjectGraph`, one call after another.
use sigil_lang.Prelude.{ℕ, ◌+◌, ◌^◌, ◌<◌, ◌≡◌, refl, none, Text, List, nat_eq, lookup, All-map, ok}
use sigil_lang.Graph.{BehaviorNode, ContractRef, ProjectGraph}
use sigil_lang.Graph.Ops.{
  new, next_node_id, add_node, remove_node, add_library_node, add_edge, remove_edge, resolve_port,
}
use sigil_lang.Graph.Wiring.{
  IsWired, add_node-IsWired, remove_node-IsWired, add_edge-IsWired, remove_edge-IsWired,
  IsTyped-carry,
}

module _ (sha256 : List ℕ → List ℕ) (hex_encode : List ℕ → Text) where
  -- One call that succeeds. A node is added under an id that is not taken, and an edge while its
  -- counter is not at its end.
  pub data Step (g : ProjectGraph) : ProjectGraph → Type 0 where
    takes_id : Step g (next_node_id g).1
    adds_node :
        (n : BehaviorNode) → lookup n.id g.nodes ≡ none → Step g (add_node sha256 hex_encode g n).1
    removes_node : (id : ℕ) → Step g (remove_node g id).1
    adds_library_node : (c : ContractRef) → Step g (add_library_node g c)
    adds_edge :
        (a : ℕ) (p : Text) (b : ℕ) (q : Text) (r : ℕ × ProjectGraph)
        → g.next_edge_id + 1 < 2 ^ 64
        → add_edge g a p b q ≡ ok r
        → Step g r.1
    removes_edge : (id : ℕ) → Step g (remove_edge g id).0

  pub data Built : ProjectGraph → Type 0 where
    empty : Built new
    after : {g h : ProjectGraph} → Built g → Step g h → Built h

  Step-IsWired : (g h : ProjectGraph) → Step g h → IsWired g → IsWired h
  unfolding next_node_id add_library_node resolve_port
  Step-IsWired g h takes_id w = record {
    typed = All-map (λ e t. IsTyped-carry refl refl t) g.edges w.typed;
    single = w.single;
    numbered = w.numbered;
  }
  Step-IsWired g h (adds_node n fresh) w = add_node-IsWired sha256 hex_encode g n fresh w
  Step-IsWired g h (removes_node id) w = remove_node-IsWired g id w
  Step-IsWired g h (adds_library_node c) w = record {
    typed = All-map (λ e t. IsTyped-carry refl refl t) g.edges w.typed;
    single = w.single;
    numbered = w.numbered;
  }
  Step-IsWired g h (adds_edge a p b q r small e) w = add_edge-IsWired g a p b q r w small e
  Step-IsWired g h (removes_edge id) w = remove_edge-IsWired g id w

  -- Every graph that is built by successful calls of the methods of `ProjectGraph` from the empty
  -- graph is well wired. A node is added under an id that is not taken, and an edge while its counter
  -- is not at its end.
  pub Built-IsWired : (g : ProjectGraph) → Built g → IsWired g
  unfolding new
  Built-IsWired g empty = record { typed = tt; single = tt; numbered = tt }
  Built-IsWired h (after {g} b s) = Step-IsWired g h s (Built-IsWired g b)
