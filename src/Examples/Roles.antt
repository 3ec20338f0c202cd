-- ===== src/Examples/Roles.antt =====
-- Concrete behaviors for the theorems on roles and on consumed outputs.
use sigil_lang.Prelude.{
  ◌≡◌, ◌↔◌, refl, none, some, List, [], ◌∷◌, Text, codes, contains, add, text_beq, lookup,
}
use sigil_lang.Ast.{
  Expr, cons, nil, Node, node, NodeKind, Nodes, end, next, Contract, int, empty_contract,
  new_behavior,
}
use sigil_lang.Semantic.Errors.{SemanticError}
use sigil_lang.Semantic.Context.{AnalysisContext, new_context}
use sigil_lang.Semantic.Roles.{check_roles}
use sigil_lang.Semantic.Roles.Correct.{KeepsRole, check_roles_iff}
use sigil_lang.Semantic.Outputs.{unconsumed, field_beq, check_outputs_consumed}
use sigil_lang.Semantic.Outputs.Correct.{AreConsumed, check_outputs_consumed_correct}

abbrev at : NodeKind → Node
at k = node (record { line = 1; col = 1; len = 1 }) k

abbrev x : Text
x = codes "x"

abbrev r : Text
r = codes "r"

abbrev f : Text
f = codes "f"

abbrev sum : Text
sum = codes "sum"

-- `r = CALL f x`, `y = r.sum`, `BRANCH y a b`: the output `sum` of `f` is consumed through `y`.
abbrev routed : Nodes
routed = next (at (NodeKind.assignment r (Expr.call f (cons (Expr.var x) nil)))) (
    next (at (NodeKind.assignment (codes "y") (Expr.field (Expr.var r) sum)))
      (next (at (NodeKind.branch (Expr.var (codes "y")) (codes "a") (codes "b"))) end))

-- Without the branch it is not.
abbrev unrouted : Nodes
unrouted =
    next (at (NodeKind.assignment r (Expr.call f (cons (Expr.var x) nil))))
      (next (at (NodeKind.assignment (codes "y") (Expr.field (Expr.var r) sum))) end)

abbrev callee : Contract
callee = record empty_contract { outputs = record { name = sum; typ = int; size = 8 } ∷ [] }

abbrev context : AnalysisContext
context = new_context (new_behavior (codes "main")) ((f, callee) ∷ []) []

routed_consumed : check_outputs_consumed context routed ≡ some []
unfolding check_outputs_consumed new_context new_behavior contains add text_beq field_beq lookup
routed_consumed = refl

unrouted_rejected :
    check_outputs_consumed context unrouted ≡ some (unconsumed f (codes "r.sum") 1 none ∷ [])
unfolding check_outputs_consumed new_context new_behavior contains add text_beq field_beq lookup
unrouted_rejected = refl

routed_composite : check_roles (some (record { nodes = routed })) [] ≡ []
unfolding check_roles
routed_composite = refl

check_roles_iff_example :
    (check_roles (some (record { nodes = routed })) [] ≡ [])
    ↔ KeepsRole (some (record { nodes = routed })) []
check_roles_iff_example = check_roles_iff (some (record { nodes = routed })) []

check_outputs_consumed_correct_example :
    (errors : List SemanticError) × (check_outputs_consumed context routed ≡ some errors)
    × ((errors ≡ []) ↔ AreConsumed context routed)
check_outputs_consumed_correct_example = check_outputs_consumed_correct context routed

-- The capacity of a channel is not scanned: `c = CHANNEL int ALLOC 8 bytes` passes in a composite.
abbrev channel_capacity : Nodes
channel_capacity =
    next
      (at (
        NodeKind.assignment (codes "c")
          (Expr.channel int (Expr.iadd (Expr.int_lit 1) (Expr.int_lit 2) 8))))
      end

channel_capacity_accepted : check_roles (some (record { nodes = channel_capacity })) [] ≡ []
unfolding check_roles
channel_capacity_accepted = refl

-- `SET x CALL f x` in a leaf: the call is not seen.
abbrev hidden_call : Nodes
hidden_call = next (at (NodeKind.set x (Expr.call f (cons (Expr.var x) nil)))) end

hidden_call_accepted : check_roles none (record { platform = none; nodes = hidden_call } ∷ []) ≡ []
unfolding check_roles
hidden_call_accepted = refl
