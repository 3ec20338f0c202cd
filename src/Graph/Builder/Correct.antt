-- ===== src/Graph/Builder/Correct.antt =====
-- A node keeps the contract of its behavior, and derived edges are well wired.
use mathlib.Core.Path.{ap₂}
use mathlib.Core.List.{append-nil, map-append}
use sigil_lang.Prelude.{
  ℕ, ◌+◌, ◌^◌, ◌<◌, ◌≡◌, refl, sym, ap, ◌∙◌, ◌⊎◌, inl, inr, Option, some, List, [], ◌∷◌, ◌++◌, map,
  arith, Text, nat_eq, text_eq, keep, lookup, lookup-insert, length, Result, ok, err, eq_refl,
  eq_iff, ◌==◌, if◌then◌else◌, Bool-cases,
}
use sigil_lang.Ast.{Parameter, BehaviorRef, Behavior}
use sigil_lang.ContractHash.{compute_contract_hash, contract_bytes}
use sigil_lang.Graph.{
  direction_eq, direction_beq, Direction, in_port, out, error, input_port, output_port,
  BehaviorNode, ProjectGraph,
}
use sigil_lang.Graph.Ops.{
  inputs, outputs, errors, port_parameter, dependency_reference, to_ast_contract, compute_hash,
  update_hash, add_node, add_edge,
}
use sigil_lang.Graph.Wiring.{IsWired, add_edge-counter, add_edge-IsWired}
use sigil_lang.Graph.Builder.{
  to_input_port, to_output_port, to_dependency, behavior_to_node, Request, edges_to_add,
  apply_edges, derive_edges_from_composites,
}

-- Keeping the ports of one direction among those that are made from parameters.
keep-ports :
    (d : Direction) (is os : List Parameter)
    → map port_parameter
        (keep (λ p. p.direction == d) (map to_input_port is ++ map to_output_port os))
      ≡ (if in_port == d then is else []) ++ (if out == d then os else [])
unfolding input_port output_port direction_beq
keep-ports in_port [] [] = refl
keep-ports in_port [] (o ∷ os) = keep-ports in_port [] os
keep-ports in_port (i ∷ is) os = ap (λ xs. i ∷ xs) (keep-ports in_port is os)
keep-ports out [] [] = refl
keep-ports out [] (o ∷ os) = ap (λ xs. o ∷ xs) (keep-ports out [] os)
keep-ports out (i ∷ is) os = keep-ports out is os
keep-ports error [] [] = refl
keep-ports error [] (o ∷ os) = keep-ports error [] os
keep-ports error (i ∷ is) os = keep-ports error is os

references-dependencies :
    (rs : List BehaviorRef) → map dependency_reference (map to_dependency rs) ≡ rs
references-dependencies [] = refl
references-dependencies (r ∷ rs) = ap (λ xs. r ∷ xs) (references-dependencies rs)

-- The contract that a behavior's node stands for is the behavior's contract, without the required
-- memory regions.
pub to_ast_contract-behavior_to_node :
    (g : ProjectGraph) (b : Behavior) (path : Option Text)
    → to_ast_contract (behavior_to_node g b path).0
      ≡ (record b.contract { requires = record b.contract.requires { memory = [] } })
unfolding to_ast_contract behavior_to_node inputs outputs errors direction_beq
to_ast_contract-behavior_to_node g b path =
    let is = b.contract.inputs in
    let os = b.contract.outputs in
    let ps = map to_input_port is ++ map to_output_port os in
    ap₂
      (λ xs ys. record {
        inputs = xs;
        outputs = ys;
        requires = record {
          behaviors = map dependency_reference (map to_dependency b.contract.requires.behaviors);
          memory = [];
        };
        guarantees = b.contract.guarantees;
      })
      (keep-ports in_port is os ∙ append-nil is)
      (map-append port_parameter (keep (λ p. p.direction == out) ps)
          (keep (λ p. p.direction == error) ps)
        ∙ ap₂ (λ xs ys. xs ++ ys) (keep-ports out is os) (keep-ports error is os)
        ∙ append-nil os)
    ∙ ap
        (λ rs. record {
          inputs = is;
          outputs = os;
          requires = record { behaviors = rs; memory = [] };
          guarantees = b.contract.guarantees;
        })
        (references-dependencies b.contract.requires.behaviors)

-- After a behavior has been added as a node, the node that is found under its id carries the hash
-- of the behavior's contract, whatever SHA-256 and the printer are.
pub add_node-behavior_to_node :
    (sha256 : List ℕ → List ℕ) (hex_encode : List ℕ → Text) (g : ProjectGraph) (b : Behavior)
    (path : Option Text)
    → (n : BehaviorNode) × (lookup
          (behavior_to_node g b path).0.id
          (add_node sha256 hex_encode
            (behavior_to_node g b path).1
            (behavior_to_node g b path).0).1.nodes
        ≡ some n)
      × (n.hash ≡ compute_contract_hash sha256 hex_encode b.contract)
unfolding add_node update_hash compute_hash compute_contract_hash contract_bytes
add_node-behavior_to_node sha256 hex_encode g b path = (
  (update_hash sha256 hex_encode n).0,
  lookup-insert n.id n.id (update_hash sha256 hex_encode n).0 _ ∙ rw (eq_refl n.id) refl,
  updated n ∙ same,
)
  where
    n : BehaviorNode
    n = (behavior_to_node g b path).0

    updated :
        (m : BehaviorNode)
        → (update_hash sha256 hex_encode m).0.hash ≡ compute_hash sha256 hex_encode m
    updated m = elim (Bool-cases (compute_hash sha256 hex_encode m == m.hash)) [
      | inl e ↦ rw (e, update_hash) (sym ((eq_iff _ _).0 e))
      | inr e ↦ rw (e, update_hash) refl
    ]

    same : compute_hash sha256 hex_encode n ≡ compute_contract_hash sha256 hex_encode b.contract
    same = ap (compute_contract_hash sha256 hex_encode) (to_ast_contract-behavior_to_node g b path)

Result-cases {ℓ κ} :
    {E : Type ℓ} {A : Type κ} (r : Result E A) → ((a : A) × (r ≡ ok a)) ⊎ ((e : E) × (r ≡ err e))
Result-cases (ok a) = inl (a, refl)
Result-cases (err e) = inr (e, refl)

apply_edges-IsWired :
    (rs : List Request) (g : ProjectGraph)
    → IsWired g
    → g.next_edge_id + length rs < 2 ^ 64
    → IsWired (apply_edges rs g)
unfolding apply_edges
apply_edges-IsWired [] g w h = w
apply_edges-IsWired ((a, p, b, q) ∷ rs) g w h = elim (Result-cases (add_edge g a p b q)) [
  | inl ((i, g'), e) ↦
      rw (e, apply_edges)
        (apply_edges-IsWired rs g' (add_edge-IsWired g a p b q (i, g') w (omega arith) e)
          (omega (arith, add_edge-counter g a p b q (i, g') (omega arith) e)))
  | inr (x, e) ↦ rw (e, apply_edges) (apply_edges-IsWired rs g w (omega arith))
]

pub derive_edges-IsWired :
    (g : ProjectGraph)
    → IsWired g
    → g.next_edge_id + length (edges_to_add g g.nodes) < 2 ^ 64
    → IsWired (derive_edges_from_composites g)
unfolding derive_edges_from_composites
derive_edges-IsWired g w h = apply_edges-IsWired (edges_to_add g g.nodes) g w h
