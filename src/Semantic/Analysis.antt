-- ===== src/Semantic/Analysis.antt =====
-- compiler/src/semantic/mod.rs, `analyze`: the phases in their order.
pub mod Phases
pub mod Correct
use sigil_lang.Prelude.{ℕ, true, false, Option, none, some, List, [], ◌∷◌, ◌++◌, Text, Map, codes}
use sigil_lang.Ast.{Nodes, PlatformImpl, Composition, Contract, Behavior}
use sigil_lang.Cfg.{build}
use sigil_lang.Cfg.Scopes.{flatten_scopes}
use sigil_lang.Cfg.Terminate.{all_paths_terminate}
use sigil_lang.Semantic.Errors.{SemanticError, path_does_not_terminate}
use sigil_lang.Semantic.Context.{AnalysisContext, new_context}
use sigil_lang.Semantic.Checks.{State, push_error}
use sigil_lang.Semantic.Contracts.{validate_contract}
use sigil_lang.Semantic.Labels.{collect_labels}
use sigil_lang.Semantic.Statements.{validate_nodes}
use sigil_lang.Semantic.Ownership.{validate_ownership_cfg}
use sigil_lang.Semantic.Roles.{check_roles}
use sigil_lang.Semantic.Outputs.{check_outputs_consumed}
use sigil_lang.Semantic.Guarantees.{validate_guarantees}

-- A phase; `none` would be a loop in it that does not end.
abbrev pub Phase : Type 0
Phase = State → Option State

abbrev pub continue_with : Option State → Phase → Option State
continue_with none g = none
continue_with (some s) g = g s

infixl 5 ◌then◌
abbrev pub ◌then◌ : Phase → Phase → Phase
(f then g) s = continue_with (f s) g

abbrev pub with_errors : State → Option (List SemanticError) → Option State
with_errors s none = none
with_errors s (some errors) = some (record s { errors = errors })

unfoldable pub check_ownership : Nodes → Phase
unfolding validate_ownership_cfg
check_ownership ns s = with_errors s (validate_ownership_cfg s.ctx ns s.errors)

unfoldable pub check_termination : Nodes → Phase
unfolding all_paths_terminate build flatten_scopes
check_termination ns s = elim (all_paths_terminate (build (flatten_scopes ns))) [
  | none ↦ none
  | some true ↦ some s
  | some false ↦ some (
      push_error path_does_not_terminate 0
        (some (codes "control flow cannot reach END (exit-less loop)")) s)
]

unfoldable pub check_consumed : Nodes → Phase
unfolding check_outputs_consumed
check_consumed ns s = elim (check_outputs_consumed s.ctx ns) [
  | none ↦ none
  | some errors ↦ some (record s { errors = s.errors ++ errors })
]

-- The statements of the first implementation, and of the composition.
unfoldable pub first_nodes : List PlatformImpl → Option Nodes
first_nodes [] = none
first_nodes (impl ∷ impls) = some impl.nodes

unfoldable pub composition_nodes : Option Composition → Option Nodes
composition_nodes none = none
composition_nodes (some comp) = some comp.nodes

abbrev pub on_nodes : Option Nodes → (Nodes → Phase) → Phase
on_nodes none f s = some s
on_nodes (some ns) f s = f ns s

-- Phases 3 and 3b.
unfoldable pub check_body : Nodes → Phase
unfolding validate_nodes check_ownership
check_body ns s = check_ownership ns (validate_nodes ns s)

unfoldable pub analyze_from : (List ℕ → List ℕ) → (List ℕ → Text) → Behavior → Phase
unfolding validate_contract collect_labels check_body check_termination check_roles check_consumed
    validate_guarantees first_nodes composition_nodes
analyze_from sha256 hex_encode b =
    let impl = first_nodes b.implementations in
    let comp = composition_nodes b.composition in
    (λ s. some (collect_labels b (validate_contract sha256 hex_encode b s)))
    then on_nodes impl check_body
    then on_nodes comp check_body
    then on_nodes impl check_termination
    then on_nodes comp check_termination
    then (λ s. some (record s { errors = s.errors ++ check_roles b.composition b.implementations }))
    then on_nodes comp check_consumed
    then (λ s. some (validate_guarantees b s))

-- The state after the analysis; the behavior is accepted if it has no errors.
unfoldable pub analyze :
    (List ℕ → List ℕ) → (List ℕ → Text) → Behavior → Map Text Contract → List Text → Option State
unfolding analyze_from new_context
analyze sha256 hex_encode b dependencies patterns =
    analyze_from sha256 hex_encode b
      (record { ctx = new_context b dependencies patterns; errors = []; warnings = [] })
