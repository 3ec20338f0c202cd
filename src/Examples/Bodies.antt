-- ===== src/Examples/Bodies.antt =====
-- Concrete bodies for the theorems on the linear pass.
use sigil_lang.Prelude.{
  List, ℕ, ◌≡◌, ◌↔◌, refl, none, [], ◌∷◌, Text, codes, lookup, insert, contains, text_beq,
}
use sigil_lang.Ast.{
  Expr, cons, nil, no_offset, Node, node, NodeKind, Nodes, end, next, Parameter, Contract, int,
  empty_contract, Behavior, new_behavior, ty_beq,
}
use sigil_lang.Semantic.Errors.{undefined_variable}
use sigil_lang.Semantic.Context.{new_context}
use sigil_lang.Semantic.Checks.{State, facts}
use sigil_lang.Semantic.Labels.{collect_labels_from_nodes}
use sigil_lang.Semantic.Labels.Correct.{
  labels_of, AreDistinct, seen_after, Knows, collect_labels_correct,
}
use sigil_lang.ContractHash.{compute_contract_hash}
use sigil_lang.Semantic.Contracts.{validate_contract, HaveSizes, IsHash, validate_contract_iff}
use sigil_lang.Semantic.Guarantees.{validate_guarantees, KeepsGuarantees, validate_guarantees_iff}
use sigil_lang.Semantic.Exprs.{validate_expr}
use sigil_lang.Semantic.Exprs.Valid.{IsValid}
use sigil_lang.Semantic.Exprs.Correct.{validate_expr_iff}
use sigil_lang.Semantic.Statements.{validate_nodes}
use sigil_lang.Semantic.Statements.Valid.{AreValidStatements, after_all}
use sigil_lang.Semantic.Statements.Correct.{AllFreesUnborrowed, validate_nodes-AreValid}

abbrev at : NodeKind → Node
at k = node (record { line = 1; col = 1; len = 1 }) k

abbrev number : Text → Parameter
number x = record { name = x; typ = int; size = 8 }

-- A behavior with an input `x` and an output `y`, both integers of 8 bytes.
abbrev behavior : Behavior
behavior = record (new_behavior (codes "main")) {
  contract = record empty_contract {
    inputs = number (codes "x") ∷ [];
    outputs = number (codes "y") ∷ [];
  };
}

abbrev callee : Contract
callee = record empty_contract {
  inputs = number (codes "a") ∷ [];
  outputs = number (codes "b") ∷ [];
}

abbrev start : State
start = record {
  ctx = new_context behavior ((codes "f", callee) ∷ []) [];
  errors = [];
  warnings = [];
}

-- `v = LOAD x 8`, `s = IADD v 1 8`, `STORE y s 8`.
abbrev increment : Nodes
increment =
    next (at (NodeKind.assignment (codes "v") (Expr.load (Expr.var (codes "x")) 8 no_offset))) (
      next
        (at (NodeKind.assignment (codes "s") (Expr.iadd (Expr.var (codes "v")) (Expr.int_lit 1) 8)))
        (next (at (NodeKind.store (codes "y") (Expr.var (codes "s")) 8 no_offset)) end))

increment_passes : (validate_nodes increment start).errors ≡ []
unfolding validate_nodes new_context new_behavior lookup insert contains text_beq ty_beq
increment_passes = refl

validate_nodes-AreValid_example :
    (AreValidStatements increment (facts start) × AllFreesUnborrowed increment start)
    × (facts (validate_nodes increment start) ≡ after_all increment (facts start))
validate_nodes-AreValid_example = validate_nodes-AreValid increment start increment_passes

-- `IADD x 1 8`: `x` is a handle.
abbrev add_handle : Expr
add_handle = Expr.iadd (Expr.var (codes "x")) (Expr.int_lit 1) 8

validate_expr_iff_example :
    ((validate_expr add_handle start).errors ≡ [])
    ↔ ((start.errors ≡ []) × IsValid (facts start) add_handle)
validate_expr_iff_example = validate_expr_iff add_handle start

-- `CALL f x -> o`, `SET y o`: the output of the call is not defined.
abbrev bound_output : Nodes
bound_output =
    next
      (at (NodeKind.call_node none (codes "f") (cons (Expr.var (codes "x")) nil) (codes "o" ∷ [])))
      (next (at (NodeKind.set (codes "y") (Expr.var (codes "o")))) end)

bound_output_undefined :
    (validate_nodes bound_output start).errors
    ≡ (record { kind = undefined_variable (codes "o"); line = 1; context = none } ∷ [])
unfolding validate_nodes new_context new_behavior lookup insert contains text_beq ty_beq
bound_output_undefined = refl

-- `h = SPAWN p x`, `a = WAIT_ALL h`, `SET y a`: the target of WAIT_ALL is not defined.
abbrev waited : Nodes
waited =
    next
      (at (
        NodeKind.assignment (codes "h") (Expr.spawn (codes "p") (cons (Expr.var (codes "x")) nil))))
      (next (at (NodeKind.wait_all (codes "a" ∷ []) (codes "h" ∷ [])))
        (next (at (NodeKind.set (codes "y") (Expr.var (codes "a")))) end))

waited_undefined :
    (validate_nodes waited start).errors
    ≡ (record { kind = undefined_variable (codes "a"); line = 1; context = none } ∷ [])
unfolding validate_nodes new_context new_behavior lookup insert contains text_beq ty_beq
waited_undefined = refl

-- A label in a scope, and one after it.
abbrev labelled : Nodes
labelled =
    next (at (NodeKind.scope (next (at (NodeKind.label (codes "a"))) end)))
      (next (at (NodeKind.label (codes "b"))) end)

collect_labels_correct_example :
    Knows (collect_labels_from_nodes labelled start) (seen_after [] (labels_of labelled))
    × (((collect_labels_from_nodes labelled start).errors ≡ [])
        ↔ ((start.errors ≡ []) × AreDistinct [] (labels_of labelled)))
unfolding new_context new_behavior
collect_labels_correct_example = collect_labels_correct labelled start refl

-- Hashes as they are.
abbrev same_bytes : List ℕ → List ℕ
same_bytes bs = bs

validate_contract_iff_example :
    ((validate_contract same_bytes same_bytes behavior start).errors ≡ []) ↔ (
      (start.errors ≡ [])
      × ((HaveSizes behavior.contract.inputs × HaveSizes behavior.contract.outputs)
          × IsHash behavior.hash (compute_contract_hash same_bytes same_bytes behavior.contract)))
validate_contract_iff_example = validate_contract_iff same_bytes same_bytes behavior start

validate_guarantees_iff_example :
    ((validate_guarantees behavior start).errors ≡ [])
    ↔ ((start.errors ≡ []) × KeepsGuarantees behavior start.ctx)
validate_guarantees_iff_example = validate_guarantees_iff behavior start

-- The behavior with these statements.
abbrev incrementing : Behavior
incrementing = record behavior {
  implementations = record { platform = none; nodes = increment } ∷ [];
}
