-- ===== src/Semantic/Values.antt =====
-- compiler/src/semantic/mod.rs: constants, and what an expression is as a value.
pub mod Operands
pub mod Meaning
use sigil_lang.Prelude.{
  ℕ, ◌+◌, ◌-◌, ◌*◌, ◌%◌, ◌^◌, Bool, false, Option, none, some, Text, text_eq, codes, Map, lookup,
  length, ◌++◌,
}
use sigil_lang.Chars.{utf8}
use sigil_lang.Ast.{Ty, bytes, int, float, string, Expr}
use sigil_lang.Semantic.Context.{VarOrigin, HandleState, owned, not_a_handle, VarInfo}

abbrev pub both : (ℕ → ℕ → ℕ) → Option ℕ → Option ℕ → Option ℕ
both f (some a) (some b) = some (f a b)
both f _ _ = none

abbrev pub wrapping_add : ℕ → ℕ → ℕ
wrapping_add a b = (a + b) % 2 ^ 64

abbrev pub wrapping_sub : ℕ → ℕ → ℕ
wrapping_sub a b = (a + (2 ^ 64 - b)) % 2 ^ 64

abbrev pub wrapping_mul : ℕ → ℕ → ℕ
wrapping_mul a b = (a * b) % 2 ^ 64

unfoldable pub try_eval_const : Expr → Option ℕ
try_eval_const (Expr.int_lit n) = some n
try_eval_const (Expr.iadd a b _) = both wrapping_add (try_eval_const a) (try_eval_const b)
try_eval_const (Expr.isub a b _) = both wrapping_sub (try_eval_const a) (try_eval_const b)
try_eval_const (Expr.imul a b _) = both wrapping_mul (try_eval_const a) (try_eval_const b)
try_eval_const _ = none

unfoldable pub type_to_string : Ty → Text
type_to_string int = codes "int"
type_to_string float = codes "float"
type_to_string bytes = codes "bytes"
type_to_string string = codes "string"

-- What `infer_expr_info` returns.
pub record ExprInfo : Type 0 where
  pub typ : Option Ty
  pub size : ℕ
  pub origin : VarOrigin
  pub state : HandleState
  pub shared : Bool

-- A value that was computed.
abbrev pub value : Ty → ℕ → ExprInfo
value t n = record {
  typ = some t;
  size = n;
  origin = VarOrigin.computed;
  state = not_a_handle;
  shared = false;
}

abbrev pub unknown : VarOrigin → ExprInfo
unknown o = record { typ = none; size = 8; origin = o; state = not_a_handle; shared = false }

unfoldable pub variable_info : Option VarInfo → ExprInfo
variable_info none = unknown VarOrigin.computed
variable_info (some v) = record {
  typ = v.typ;
  size = v.size;
  origin = v.origin;
  state = v.state;
  shared = v.shared;
}

unfoldable pub alloc_info : Option ℕ → Ty → Bool → ExprInfo
alloc_info known t shared = record {
  typ = some t;
  size = elim known [ some n ↦ n | none ↦ 8 ];
  origin = VarOrigin.alloc known;
  state = owned;
  shared = shared;
}

-- An element has 8 bytes in a channel, whatever its type.
unfoldable pub receive_info : Option VarInfo → ExprInfo
receive_info none = value int 8
receive_info (some v) = elim v.channel_element_type [ some t ↦ value t 8 | none ↦ value int 8 ]

-- Of the context this reads the variables.
unfoldable pub infer_expr_info : Map Text VarInfo → Expr → ExprInfo
unfolding variable_info alloc_info receive_info try_eval_const
infer_expr_info vars (Expr.int_lit _) = value int 8
infer_expr_info vars (Expr.float_lit _) = value float 8
infer_expr_info vars (Expr.string_lit s) = value string (length (utf8 s) + 8)
infer_expr_info vars (Expr.var name) = variable_info (lookup name vars)
infer_expr_info vars (Expr.alloc size t shared) = alloc_info (try_eval_const size) t shared
infer_expr_info vars (Expr.load _ size _) = record (value int size) {
  origin = VarOrigin.load_result;
}
infer_expr_info vars (Expr.call _ _) = unknown (VarOrigin.call_result none)
infer_expr_info vars (Expr.iadd _ _ size) = value int size
infer_expr_info vars (Expr.isub _ _ size) = value int size
infer_expr_info vars (Expr.imul _ _ size) = value int size
infer_expr_info vars (Expr.idiv _ _ size) = value int size
infer_expr_info vars (Expr.imod _ _ size) = value int size
infer_expr_info vars (Expr.ineg _ size) = value int size
infer_expr_info vars (Expr.ieq _ _ _) = value int 8
infer_expr_info vars (Expr.ine _ _ _) = value int 8
infer_expr_info vars (Expr.ilt _ _ _) = value int 8
infer_expr_info vars (Expr.igt _ _ _) = value int 8
infer_expr_info vars (Expr.ile _ _ _) = value int 8
infer_expr_info vars (Expr.ige _ _ _) = value int 8
infer_expr_info vars (Expr.fadd _ _ size) = value float size
infer_expr_info vars (Expr.fsub _ _ size) = value float size
infer_expr_info vars (Expr.fmul _ _ size) = value float size
infer_expr_info vars (Expr.fdiv _ _ size) = value float size
infer_expr_info vars (Expr.fneg _ size) = value float size
infer_expr_info vars (Expr.feq _ _ _) = value int 8
infer_expr_info vars (Expr.fne _ _ _) = value int 8
infer_expr_info vars (Expr.flt _ _ _) = value int 8
infer_expr_info vars (Expr.fgt _ _ _) = value int 8
infer_expr_info vars (Expr.fle _ _ _) = value int 8
infer_expr_info vars (Expr.fge _ _ _) = value int 8
infer_expr_info vars (Expr.and _ _ size) = value int size
infer_expr_info vars (Expr.or _ _ size) = value int size
infer_expr_info vars (Expr.xor _ _ size) = value int size
infer_expr_info vars (Expr.shl _ _ size) = value int size
infer_expr_info vars (Expr.shr _ _ size) = value int size
infer_expr_info vars (Expr.sar _ _ size) = value int size
infer_expr_info vars (Expr.not _ size) = value int size
infer_expr_info vars (Expr.ftoi _ float_size int_size) = value int int_size
infer_expr_info vars (Expr.itof _ int_size float_size) = value float float_size
infer_expr_info vars (Expr.atomic_load _ size) = record (value int size) {
  origin = VarOrigin.load_result;
}
infer_expr_info vars (Expr.atomic_store _ _ size) = value int size
infer_expr_info vars (Expr.cas _ _ _ size) = value int size
infer_expr_info vars (Expr.atomic_add _ _ size) = value int size
infer_expr_info vars (Expr.atomic_sub _ _ size) = value int size
infer_expr_info vars (Expr.spawn _ _) = record (value int 8) { state = owned }
infer_expr_info vars (Expr.wait _) = value int 8
infer_expr_info vars (Expr.channel _ _) = record (value int 8) { state = owned }
infer_expr_info vars (Expr.channel_receive name) = receive_info (lookup name vars)
infer_expr_info vars _ = unknown VarOrigin.computed

unfoldable pub handle_of_origin : VarOrigin → Option Text
handle_of_origin (VarOrigin.input _) = some (codes "INPUT")
handle_of_origin (VarOrigin.output _) = some (codes "OUTPUT")
handle_of_origin (VarOrigin.alloc _) = some (codes "ALLOC handle")
handle_of_origin (VarOrigin.call_result _) = some (codes "CALL result")
handle_of_origin _ = none

-- What kind of handle the operand is; `none` for a value or a name that is not defined.
unfoldable pub operand_handle_kind : Map Text VarInfo → Expr → Option Text
unfolding handle_of_origin
operand_handle_kind vars (Expr.field _ _) = some (codes "CALL-result field")
operand_handle_kind vars (Expr.alloc _ _ _) = some (codes "ALLOC handle")
operand_handle_kind vars (Expr.var name) = elim (lookup name vars) [
  | some v ↦ handle_of_origin v.origin
  | none ↦ none
]
operand_handle_kind vars _ = none

unfoldable pub operand_name : Expr → Text
operand_name (Expr.var n) = n
operand_name (Expr.field (Expr.var b) f) = b ++ codes "." ++ f
operand_name (Expr.field _ f) = f
operand_name _ = codes "operand"
