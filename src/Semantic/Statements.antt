-- ===== src/Semantic/Statements.antt =====
-- compiler/src/semantic/mod.rs, `validate_node`: the linear pass over the statements.
pub mod Valid
pub mod Steps
pub mod Accepts
pub mod Correct
use sigil_lang.Prelude.{
  ℕ, ◌+◌, ◌-◌, ◌%◌, ◌^◌, Bool, true, false, not, ◌||◌, ◌&&◌, Option, none, some, List, [], ◌∷◌,
  ◌++◌, Text, text_eq, codes, lookup, nat_beq,
}
use sigil_lang.Decimal.{decimal}
use sigil_lang.Ast.{
  Span, Ty, ty_beq, bytes, string, Parameter, Contract, Expr, Exprs, nil, cons, Offset, no_offset,
  at_offset, Node, node, NodeKind, Nodes, end, next,
}
use sigil_lang.Graph.{debug_type}
use sigil_lang.Semantic.Errors.{
  undefined_variable, non_atomic_shared_access, output_size_mismatch, call_arg_type_mismatch,
  undefined_label, free_while_borrowed, free_borrowed_handle, type_mismatch,
  channel_send_type_mismatch,
}
use sigil_lang.Semantic.Context.{
  AnalysisContext, VarInfo, VarOrigin, HandleState, owned, borrowed, freed, not_a_handle,
  ActiveBorrow, has_key, define_var, add_spawn_borrow, get_active_borrow, mark_output_written,
}
use sigil_lang.Semantic.Checks.{State, Step, push_error, require, validate_int_size}
use sigil_lang.Semantic.Values.{ExprInfo, infer_expr_info, type_to_string}
use sigil_lang.Semantic.Bounds.{check_bounds}
use sigil_lang.Semantic.Calls.{validate_call}
use sigil_lang.Semantic.Exprs.{validate_expr, validate_offset, validate_args}

-- What a variable knows of the expression that it is assigned.
abbrev pub element_type : Expr → Option Ty
element_type (Expr.channel t _) = some t
element_type _ = none

unfoldable pub assigned : ExprInfo → Option Ty → VarInfo
assigned info element = record {
  typ = info.typ;
  size = info.size;
  initialized = true;
  origin = info.origin;
  state = info.state;
  shared = info.shared;
  channel_element_type = element;
}

unfoldable pub define : Text → VarInfo → Step
unfolding define_var
define target info s = record s { ctx = define_var target info s.ctx }

-- Each variable among the arguments is borrowed.
unfoldable pub borrow_args : Text → ℕ → Text → Exprs → AnalysisContext → AnalysisContext
unfolding add_spawn_borrow
borrow_args pattern_name line target nil ctx = ctx
borrow_args pattern_name line target (cons (Expr.var x) more) ctx =
    borrow_args pattern_name line target more (add_spawn_borrow x pattern_name line target ctx)
borrow_args pattern_name line target (cons _ more) ctx =
    borrow_args pattern_name line target more ctx

unfoldable pub borrow_for : Text → ℕ → Expr → Step
unfolding borrow_args
borrow_for target line (Expr.spawn pattern_name args) s = record s {
  ctx = borrow_args pattern_name line target args s.ctx;
}
borrow_for target line _ s = s

unfoldable pub validate_assignment : Text → Expr → ℕ → Step
unfolding validate_expr infer_expr_info assigned define borrow_for
validate_assignment target e line s =
    let s' = validate_expr e s in
    borrow_for target line e
      (define target (assigned (infer_expr_info s'.ctx.variables e) (element_type e)) s')

unfoldable pub note_write : Text → Step
note_write target s = record s {
  ctx = record s.ctx {
    has_non_output_writes = s.ctx.has_non_output_writes || not (has_key target s.ctx.outputs);
  };
}

unfoldable pub mark_written : Text → Step
unfolding mark_output_written
mark_written target s = record s { ctx = mark_output_written target s.ctx }

unfoldable pub store_target : Text → ℕ → Option VarInfo → Step
unfolding require
store_target target line none s =
    push_error (undefined_variable target) line (some (codes "STORE target")) s
store_target target line (some info) s =
    require (not info.shared) (non_atomic_shared_access target (codes "STORE")) line
      (some (codes "use ATOMIC_STORE for SHARED handles")) s

-- A store without an offset to an output has its size.
unfoldable pub store_size : Text → ℕ → ℕ → Offset → Option Parameter → Step
unfolding require
store_size target size line no_offset (some p) s =
    require (nat_beq size p.size) (output_size_mismatch target p.size size) line none s
store_size target size line _ _ s = s

unfoldable pub validate_store : Text → Expr → ℕ → Offset → ℕ → Step
unfolding note_write store_target validate_expr validate_offset validate_int_size check_bounds
    store_size mark_written
validate_store target value size offset line s =
    let s1 = store_target target line (lookup target s.ctx.variables) (note_write target s) in
    let s2 = validate_offset offset (validate_expr value s1) in
    let s3 =
      check_bounds target size offset line (codes "STORE")
        (validate_int_size size line (codes "STORE") s2) in
    mark_written target (store_size target size line offset (lookup target s3.ctx.outputs) s3)

unfoldable pub require_name : Text → ℕ → Text → Step
unfolding require
require_name name line context s =
    require (has_key name s.ctx.variables) (undefined_variable name) line (some context) s

-- Bytes can be set to a string.
abbrev pub can_set : Ty → Ty → Bool
can_set found declared = ty_beq found declared || (ty_beq declared string && ty_beq found bytes)

unfoldable pub set_type : Text → ℕ → Option Ty → Option Parameter → Step
unfolding require type_to_string
set_type target line (some found) (some p) s =
    require (can_set found p.typ)
      (call_arg_type_mismatch (codes "SET") target (type_to_string p.typ) (type_to_string found))
      line (some (codes "output '" ++ target ++ codes "' type mismatch")) s
set_type target line _ _ s = s

unfoldable pub validate_set : Text → Expr → ℕ → Step
unfolding require_name validate_expr set_type infer_expr_info mark_written
validate_set target value line s =
    let s' = validate_expr value (require_name target line (codes "SET target") s) in
    mark_written target (
      set_type target line (infer_expr_info s'.ctx.variables value).typ
        (lookup target s'.ctx.outputs) s')

unfoldable pub require_label : Text → ℕ → Text → Step
unfolding require
require_label name line context s =
    require (has_key name s.ctx.labels) (undefined_label name) line (some context) s

unfoldable pub sum_sizes : List Parameter → ℕ
sum_sizes [] = 0
sum_sizes (p ∷ ps) = (p.size + sum_sizes ps) % 2 ^ 64

unfoldable pub total_size : Option Contract → Option ℕ
unfolding sum_sizes
total_size none = none
total_size (some c) = some (sum_sizes c.outputs)

abbrev pub call_result : Option Contract → VarInfo
call_result c = record {
  typ = none;
  size = 8;
  initialized = true;
  origin = VarOrigin.call_result (total_size c);
  state = not_a_handle;
  shared = false;
  channel_element_type = none;
}

unfoldable pub define_result : Option Text → Text → Step
unfolding define
define_result none behavior s = s
define_result (some t) behavior s =
    define t (call_result (lookup behavior s.ctx.dependency_contracts)) s

unfoldable pub check_borrow : Text → ℕ → Option ActiveBorrow → Step
unfolding decimal
check_borrow name line none s = s
check_borrow name line (some b) s =
    push_error (free_while_borrowed name b.pattern_name) line
      (some (codes "spawned at line " ++ decimal b.spawn_line)) s

-- Only a handle that the behavior owns can be freed. A second FREE is left to the paths.
unfoldable pub check_free : Text → ℕ → HandleState → Step
unfolding check_borrow get_active_borrow
check_free name line owned s = check_borrow name line (get_active_borrow name s.ctx) s
check_free name line borrowed s =
    push_error (free_borrowed_handle name) line
      (some (codes "cannot FREE handle borrowed from caller")) s
check_free name line (freed _) s = s
check_free name line not_a_handle s =
    push_error (type_mismatch (codes "handle") (codes "value")) line
      (some (codes "'" ++ name ++ codes "' is not a handle")) s

unfoldable pub validate_free : Text → ℕ → Option VarInfo → Step
unfolding check_free
validate_free name line none s = push_error (undefined_variable name) line (some (codes "FREE")) s
validate_free name line (some info) s = check_free name line info.state s

unfoldable pub note_channel_op : Step
note_channel_op s = record s { ctx = record s.ctx { has_channel_ops = true } }

unfoldable pub send_type : Text → ℕ → Option Ty → Option Ty → Step
unfolding require
send_type channel line (some expected) (some found) s =
    require (ty_beq found expected)
      (channel_send_type_mismatch channel (debug_type expected) (debug_type found)) line
      (some (codes "Per Section 14.5: Channel send type must match declaration")) s
send_type channel line _ _ s = s

unfoldable pub channel_element : Option VarInfo → Option Ty
channel_element none = none
channel_element (some v) = v.channel_element_type

-- After the channel was found.
unfoldable pub check_send : Text → Expr → ℕ → Step
unfolding validate_expr send_type channel_element infer_expr_info
check_send channel value line s =
    let s' = validate_expr value s in
    send_type channel line (channel_element (lookup channel s'.ctx.variables))
      (infer_expr_info s'.ctx.variables value).typ s'

unfoldable pub validate_send : Text → Expr → ℕ → Step
unfolding check_send require_name
validate_send channel value line s = elim (has_key channel s.ctx.variables) [
  | true ↦ check_send channel value line s
  | false ↦ require_name channel line (codes "CHANNEL_SEND") s
]

unfoldable pub enter_scope : Step
enter_scope s = record s { ctx = record s.ctx { scope_depth = s.ctx.scope_depth + 1 } }

unfoldable pub leave_scope_of : Step
leave_scope_of s = record s { ctx = record s.ctx { scope_depth = s.ctx.scope_depth - 1 } }

unfoldable pub at_line : ℕ → Step
at_line line s = record s { ctx = record s.ctx { current_line = line } }

unfoldable mutual
  unfolding validate_assignment validate_store validate_set require_label validate_expr
      validate_args validate_call define_result validate_free note_channel_op validate_send
      require_name enter_scope leave_scope_of at_line

  pub validate_nodes : Nodes → Step
  validate_nodes end s = s
  validate_nodes (next n ns) s = validate_nodes ns (validate_node_at n s)

  pub validate_node_at : Node → Step
  validate_node_at (node sp k) s = validate_node sp.line k (at_line sp.line s)

  pub validate_node : ℕ → NodeKind → Step
  validate_node line (NodeKind.assignment target e) s = validate_assignment target e line s
  validate_node line (NodeKind.store target value size offset) s =
      validate_store target value size offset line s
  validate_node line (NodeKind.set target value) s = validate_set target value line s
  validate_node line (NodeKind.branch condition true_label false_label) s =
      require_label false_label line (codes "BRANCH false target")
        (require_label true_label line (codes "BRANCH true target") (validate_expr condition s))
  validate_node line (NodeKind.jump target) s = require_label target line (codes "JUMP target") s
  validate_node line (NodeKind.call_node target behavior args _) s =
      define_result target behavior (validate_call behavior args line (validate_args args s))
  validate_node line (NodeKind.free name) s =
      validate_free name line (lookup name s.ctx.variables) s
  validate_node line (NodeKind.scope nodes) s =
      leave_scope_of (validate_nodes nodes (enter_scope s))
  validate_node line (NodeKind.channel_send channel value) s =
      validate_send channel value line (note_channel_op s)
  validate_node line (NodeKind.channel_close channel) s =
      require_name channel line (codes "CHANNEL_CLOSE") (note_channel_op s)
  validate_node line (NodeKind.discard e) s = validate_expr e s
  validate_node line _ s = s
