-- ===== src/Graph/Validate.antt =====
-- compiler/src/graph/validate.rs: the checks on the relations between behaviors, but for the search
-- for circular dependencies. A check returns the errors that it appends.
pub mod Purity
pub mod Agrees
use sigil_lang.Prelude.{
  ℕ, ◌+◌, Bool, true, false, not, ◌&&◌, Option, none, some, List, [], ◌∷◌, ◌++◌, map, Text, codes,
  ◌==◌, nat_eq, text_eq, length, lookup, contains, if◌then◌else◌,
}
use sigil_lang.Ast.{Guarantee, pure, guarantee_eq}
use sigil_lang.Worklist.{Outcome, exhausted, found, out_of_fuel, push_all, run}
use sigil_lang.Graph.{DependencyRef, BehaviorNode, ContractRef, ProjectGraph, BehaviorLookup}
use sigil_lang.Graph.Ops.{values, find_node, lookup_behavior, lookup_hash}
use sigil_lang.Graph.Gaps.{is_empty}

pub data GraphErrorKind : Type 0 where
  unconsumed_output unsourced_input unhandled_error undefined_dependency : Text → GraphErrorKind
  stale_dependency : Text → Text → Text → GraphErrorKind
  circular_dependency : List Text → GraphErrorKind
  edge_type_mismatch edge_size_mismatch : Text → Text → Text → GraphErrorKind
  transitive_purity_violation : Text → GraphErrorKind

pub record GraphError : Type 0 where
  pub kind : GraphErrorKind
  pub behavior : Text
  pub message : Text

-- A loop over the graph's nodes.
unfoldable pub flat_map {ℓ κ} : {A : Type ℓ} {B : Type κ} → (A → List B) → List A → List B
flat_map f [] = []
flat_map f (x ∷ xs) = f x ++ flat_map f xs

undefined_error : BehaviorNode → DependencyRef → GraphError
undefined_error n d = record {
  kind = undefined_dependency d.name;
  behavior = n.name;
  message =
      codes "Required behavior '"
      ++ (d.name ++ codes "' not found in local behaviors or libraries");
}

resolve_errors : ProjectGraph → BehaviorNode → DependencyRef → List GraphError
unfolding undefined_error
resolve_errors g n d = elim (lookup_behavior g d.name) [
  | some _ ↦ []
  | none ↦ undefined_error n d ∷ []
]

pub check_dependencies_resolve : ProjectGraph → List GraphError
unfolding resolve_errors
check_dependencies_resolve g = flat_map (λ n. flat_map (resolve_errors g n) n.requires) (values g)

stale_error : BehaviorNode → DependencyRef → Text → GraphError
stale_error n d actual = record {
  kind = stale_dependency d.name d.hash actual;
  behavior = n.name;
  message =
      codes "Dependency '"
      ++ (d.name
          ++ (codes "' hash mismatch: expects @"
              ++ (d.hash
                  ++ (codes " but found @"
                      ++ (actual ++ codes ". The dependency's contract has changed.")))));
}

stale_errors : Option BehaviorLookup → BehaviorNode → DependencyRef → List GraphError
unfolding stale_error
stale_errors none n d = []
stale_errors (some f) n d =
    let actual = lookup_hash f in
    if not (is_empty actual) && not (d.hash == actual) then stale_error n d actual ∷ [] else []

hash_errors : ProjectGraph → BehaviorNode → DependencyRef → List GraphError
unfolding stale_errors
hash_errors g n d = if is_empty d.hash then [] else stale_errors (lookup_behavior g d.name) n d

pub check_hash_consistency : ProjectGraph → List GraphError
unfolding hash_errors
check_hash_consistency g = flat_map (λ n. flat_map (hash_errors g n) n.requires) (values g)

abbrev pub dependency_names : BehaviorNode → List Text
dependency_names n = map (λ d. d.name) n.requires

-- What a name on the worklist adds to it: only local behaviors have dependencies.
unfoldable pub local_dependencies : ProjectGraph → Text → List Text
local_dependencies g name = elim (find_node g name) [ some n ↦ dependency_names n | none ↦ [] ]

-- The guarantees are looked up in the libraries if the name is not local; an undefined name is
-- skipped.
unfoldable pub is_impure : ProjectGraph → Text → Bool
is_impure g name = elim (find_node g name) [
  | some n ↦ not (contains n.guarantees pure)
  | none ↦ elim (lookup name g.library_nodes) [
    | some c ↦ not (contains c.guarantees pure)
    | none ↦ false
  ]
]

total_requires : List BehaviorNode → ℕ
total_requires [] = 0
total_requires (n ∷ ns) = length (dependency_names n) + total_requires ns

-- The `while` loop: no name is expanded twice, so there are no more rounds than dependencies.
purity_search : ProjectGraph → BehaviorNode → Outcome Text
unfolding total_requires
purity_search g n =
    run (local_dependencies g) (is_impure g)
      (length (push_all (dependency_names n) []) + total_requires (values g))
      (push_all (dependency_names n) []) []

purity_error : BehaviorNode → Text → GraphError
purity_error n name = record {
  kind = transitive_purity_violation name;
  behavior = n.name;
  message =
      codes "Behavior '"
      ++ (n.name
          ++ (codes "' declares 'pure' but depends on '"
              ++ (name
                  ++ codes
                      "' which is not pure. Pure behaviors cannot transitively depend on impure behaviors.")));
}

outcome_errors : BehaviorNode → Outcome Text → List GraphError
unfolding purity_error
outcome_errors n (found name) = purity_error n name ∷ []
outcome_errors n (exhausted _) = []
outcome_errors n out_of_fuel = []

purity_errors : ProjectGraph → BehaviorNode → List GraphError
unfolding purity_search outcome_errors
purity_errors g n = if contains n.guarantees pure then outcome_errors n (purity_search g n) else []

pub check_transitive_purity : ProjectGraph → List GraphError
unfolding purity_errors
check_transitive_purity g = flat_map (purity_errors g) (values g)
