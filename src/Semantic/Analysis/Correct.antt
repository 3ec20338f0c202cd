-- ===== src/Semantic/Analysis/Correct.antt =====
-- What a behavior has that the analysis accepts.
use sigil_lang.Prelude.{ℕ, nat_eq, ◌≡◌, none, List, [], Text, Map}
use sigil_lang.Ast.{Contract, Behavior}
use sigil_lang.ContractHash.{compute_contract_hash}
use sigil_lang.Semantic.Context.{new_context}
use sigil_lang.Semantic.Checks.{State}
use sigil_lang.Semantic.Contracts.{validate_contract, HaveSizes, IsHash}
use sigil_lang.Semantic.Labels.{collect_labels}
use sigil_lang.Semantic.Roles.Correct.{KeepsRole}
use sigil_lang.Semantic.Outputs.Correct.{AreConsumed}
use sigil_lang.Semantic.Guarantees.{KeepsGuarantees}
use sigil_lang.Semantic.Analysis.{first_nodes, composition_nodes}
use sigil_lang.Semantic.Analysis.Phases.{OnNodes, Terminates, IsValidBody}

abbrev pub start_state : Behavior → Map Text Contract → List Text → State
start_state b dependencies patterns = record {
  ctx = new_context b dependencies patterns;
  errors = [];
  warnings = [];
}

-- The state in which the statements are checked.
abbrev pub body_state :
    (List ℕ → List ℕ) → (List ℕ → Text) → Behavior → Map Text Contract → List Text → State
body_state sha256 hex_encode b dependencies patterns =
    collect_labels b (validate_contract sha256 hex_encode b (start_state b dependencies patterns))

-- What an accepted behavior has, with the state after the analysis.
pub record IsAccepted (sha256 : List ℕ → List ℕ) (hex_encode : List ℕ → Text) (b : Behavior)
    (dependencies : Map Text Contract) (patterns : List Text) (s : State) : Type 0 where
  pub sizes : HaveSizes b.contract.inputs × HaveSizes b.contract.outputs
  pub hash : IsHash b.hash (compute_contract_hash sha256 hex_encode b.contract)
  pub implementation :
      OnNodes
        (first_nodes b.implementations)
        (IsValidBody (body_state sha256 hex_encode b dependencies patterns))
  pub composition : OnNodes (composition_nodes b.composition) (λ ns.
      first_nodes b.implementations ≡ none
      → IsValidBody (body_state sha256 hex_encode b dependencies patterns) ns)
  pub implementation_ends : OnNodes (first_nodes b.implementations) Terminates
  pub composition_ends : OnNodes (composition_nodes b.composition) Terminates
  pub role : KeepsRole b.composition b.implementations
  pub outputs : OnNodes (composition_nodes b.composition) (AreConsumed s.ctx)
  pub guarantees : KeepsGuarantees b s.ctx
