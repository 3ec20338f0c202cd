-- ===== src/Semantic/Roles.antt =====
-- compiler/src/semantic/mod.rs: a composite only wires behaviors together, and a leaf calls none.
pub mod Wiring
pub mod Leaves
pub mod Correct
use sigil_lang.Prelude.{ℕ, Option, none, some, List, [], ◌∷◌, ◌++◌, Text, codes}
use sigil_lang.Ast.{
  Span, Expr, Exprs, nil, cons, Node, node, NodeKind, Nodes, end, next, PlatformImpl, Composition,
  Behavior,
}
use sigil_lang.Semantic.Errors.{SemanticError, composite_computes, leaf_calls}

-- The first operation that a composite may not use; `forbidden_in` is the `find_map` over arguments.
unfoldable mutual
  pub forbidden_compute_op : Expr → Option Text
  forbidden_compute_op (Expr.alloc _ _ _) = some (codes "ALLOC")
  forbidden_compute_op (Expr.iadd _ _ _) = some (codes "integer arithmetic")
  forbidden_compute_op (Expr.isub _ _ _) = some (codes "integer arithmetic")
  forbidden_compute_op (Expr.imul _ _ _) = some (codes "integer arithmetic")
  forbidden_compute_op (Expr.idiv _ _ _) = some (codes "integer arithmetic")
  forbidden_compute_op (Expr.imod _ _ _) = some (codes "integer arithmetic")
  forbidden_compute_op (Expr.ineg _ _) = some (codes "integer arithmetic")
  forbidden_compute_op (Expr.ieq _ _ _) = some (codes "integer comparison")
  forbidden_compute_op (Expr.ine _ _ _) = some (codes "integer comparison")
  forbidden_compute_op (Expr.ilt _ _ _) = some (codes "integer comparison")
  forbidden_compute_op (Expr.igt _ _ _) = some (codes "integer comparison")
  forbidden_compute_op (Expr.ile _ _ _) = some (codes "integer comparison")
  forbidden_compute_op (Expr.ige _ _ _) = some (codes "integer comparison")
  forbidden_compute_op (Expr.fadd _ _ _) = some (codes "float arithmetic")
  forbidden_compute_op (Expr.fsub _ _ _) = some (codes "float arithmetic")
  forbidden_compute_op (Expr.fmul _ _ _) = some (codes "float arithmetic")
  forbidden_compute_op (Expr.fdiv _ _ _) = some (codes "float arithmetic")
  forbidden_compute_op (Expr.fneg _ _) = some (codes "float arithmetic")
  forbidden_compute_op (Expr.feq _ _ _) = some (codes "float comparison")
  forbidden_compute_op (Expr.fne _ _ _) = some (codes "float comparison")
  forbidden_compute_op (Expr.flt _ _ _) = some (codes "float comparison")
  forbidden_compute_op (Expr.fgt _ _ _) = some (codes "float comparison")
  forbidden_compute_op (Expr.fle _ _ _) = some (codes "float comparison")
  forbidden_compute_op (Expr.fge _ _ _) = some (codes "float comparison")
  forbidden_compute_op (Expr.ftoi _ _ _) = some (codes "conversion")
  forbidden_compute_op (Expr.itof _ _ _) = some (codes "conversion")
  forbidden_compute_op (Expr.and _ _ _) = some (codes "bitwise op")
  forbidden_compute_op (Expr.or _ _ _) = some (codes "bitwise op")
  forbidden_compute_op (Expr.xor _ _ _) = some (codes "bitwise op")
  forbidden_compute_op (Expr.not _ _) = some (codes "bitwise op")
  forbidden_compute_op (Expr.shl _ _ _) = some (codes "bitwise op")
  forbidden_compute_op (Expr.shr _ _ _) = some (codes "bitwise op")
  forbidden_compute_op (Expr.sar _ _ _) = some (codes "bitwise op")
  forbidden_compute_op (Expr.atomic_load _ _) = some (codes "atomic op")
  forbidden_compute_op (Expr.atomic_store _ _ _) = some (codes "atomic op")
  forbidden_compute_op (Expr.cas _ _ _ _) = some (codes "atomic op")
  forbidden_compute_op (Expr.atomic_add _ _ _) = some (codes "atomic op")
  forbidden_compute_op (Expr.atomic_sub _ _ _) = some (codes "atomic op")
  forbidden_compute_op (Expr.load _ _ _) = some (codes "LOAD")
  forbidden_compute_op (Expr.field base _) = forbidden_compute_op base
  forbidden_compute_op (Expr.call _ args) = forbidden_in args
  forbidden_compute_op (Expr.spawn _ args) = forbidden_in args
  forbidden_compute_op _ = none

  pub forbidden_in : Exprs → Option Text
  forbidden_in nil = none
  forbidden_in (cons a more) = elim (forbidden_compute_op a) [
    | some op ↦ some op
    | none ↦ forbidden_in more
  ]

-- The checks push to `self.errors`; here each is the list of what it pushes.
unfoldable pub composite_violation : Text → ℕ → List SemanticError
composite_violation op line =
    record {
      kind = composite_computes op;
      line = line;
      context = some (codes "composite behaviors wire; they don't compute");
    }
    ∷ []

-- `if let Some(op) = forbidden_compute_op(expr)`.
unfoldable pub scan_expr : Expr → ℕ → List SemanticError
unfolding forbidden_compute_op composite_violation
scan_expr e line = elim (forbidden_compute_op e) [
  | some op ↦ composite_violation op line
  | none ↦ []
]

unfoldable pub scan_args : Exprs → ℕ → List SemanticError
unfolding scan_expr
scan_args nil line = []
scan_args (cons a more) line = scan_expr a line ++ scan_args more line

unfoldable mutual
  unfolding scan_expr scan_args composite_violation

  pub check_composite_purity : Nodes → List SemanticError
  check_composite_purity end = []
  check_composite_purity (next n ns) = check_composite_node n ++ check_composite_purity ns

  pub check_composite_node : Node → List SemanticError
  check_composite_node (node sp k) = check_composite_kind sp.line k

  pub check_composite_kind : ℕ → NodeKind → List SemanticError
  check_composite_kind line (NodeKind.store _ _ _ _) = composite_violation (codes "STORE") line
  check_composite_kind line (NodeKind.free _) = composite_violation (codes "FREE") line
  check_composite_kind line (NodeKind.scope nodes) =
      composite_violation (codes "SCOPE") line ++ check_composite_purity nodes
  check_composite_kind line (NodeKind.assignment _ expr) = scan_expr expr line
  check_composite_kind line (NodeKind.set _ value) = scan_expr value line
  check_composite_kind line (NodeKind.branch condition _ _) = scan_expr condition line
  check_composite_kind line (NodeKind.call_node _ _ args _) = scan_args args line
  check_composite_kind line (NodeKind.channel_send _ value) = scan_expr value line
  check_composite_kind line _ = []

abbrev pub leaf_call : Text → ℕ → List SemanticError
leaf_call behavior line = record { kind = leaf_calls behavior; line = line; context = none } ∷ []

unfoldable mutual
  pub check_leaf_no_call : Nodes → List SemanticError
  check_leaf_no_call end = []
  check_leaf_no_call (next n ns) = check_leaf_node n ++ check_leaf_no_call ns

  pub check_leaf_node : Node → List SemanticError
  check_leaf_node (node sp k) = check_leaf_kind sp.line k

  pub check_leaf_kind : ℕ → NodeKind → List SemanticError
  check_leaf_kind line (NodeKind.call_node _ behavior _ _) = leaf_call behavior line
  check_leaf_kind line (NodeKind.assignment _ (Expr.call behavior _)) = leaf_call behavior line
  check_leaf_kind line (NodeKind.scope nodes) = check_leaf_no_call nodes
  check_leaf_kind line _ = []

-- Phase 3.5 of `analyze`.
unfoldable pub check_roles : Option Composition → List PlatformImpl → List SemanticError
unfolding check_composite_purity check_leaf_no_call
check_roles (some comp) impls = check_composite_purity comp.nodes
check_roles none (impl ∷ impls) = check_leaf_no_call impl.nodes
check_roles none [] = []

-- `ENTRY` is a composite.
unfoldable pub check_entry_is_composite : Nodes → List SemanticError
unfolding check_composite_purity
check_entry_is_composite nodes = check_composite_purity nodes
