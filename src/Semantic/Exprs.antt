-- ===== src/Semantic/Exprs.antt =====
-- compiler/src/semantic/mod.rs, `validate_expr`.
pub mod Valid
pub mod Steps
pub mod Correct
use sigil_lang.Prelude.{
  ℕ, Bool, true, false, not, ◌||◌, Option, none, some, List, [], ◌∷◌, ◌++◌, Text, text_eq, codes,
  lookup, contains, nat_beq,
}
use sigil_lang.Ast.{Expr, Exprs, nil, cons, Offset, no_offset, at_offset}
use sigil_lang.Semantic.Errors.{
  ErrorKind, undefined_variable, non_atomic_shared_access, spawn_requires_pattern,
}
use sigil_lang.Semantic.Context.{AnalysisContext, VarInfo, has_key, release_spawn_borrows}
use sigil_lang.Semantic.Checks.{State, Step, require, validate_int_size, validate_float_size}
use sigil_lang.Semantic.Bounds.{check_value_operand, check_bounds}
use sigil_lang.Semantic.Calls.{validate_call}

-- `ctx.var_exists(name)`, or an error.
unfoldable pub require_var : Text → Option Text → Step
unfolding require
require_var name context s =
    require (has_key name s.ctx.variables) (undefined_variable name) s.ctx.current_line context s

abbrev pub shared_of : Option VarInfo → Bool
shared_of none = false
shared_of (some v) = v.shared

-- The source of a LOAD by name.
unfoldable pub check_load : Expr → ℕ → Offset → Step
unfolding check_bounds require
check_load (Expr.var name) size o s =
    let s' = check_bounds name size o s.ctx.current_line (codes "LOAD") s in
    require (not (shared_of (lookup name s'.ctx.variables)))
      (non_atomic_shared_access name (codes "LOAD")) s'.ctx.current_line
      (some (codes "use ATOMIC_LOAD for SHARED handles")) s'
check_load _ size o s = s

unfoldable pub note_alloc : Step
note_alloc s = record s {
  ctx = record s.ctx {
    has_unscoped_alloc = s.ctx.has_unscoped_alloc || nat_beq s.ctx.scope_depth 0;
  };
}

unfoldable pub note_channel : Step
note_channel s = record s { ctx = record s.ctx { has_channel_ops = true } }

-- A target that is a behavior and no pattern.
unfoldable pub check_spawn : Text → Step
unfolding require
check_spawn pattern_name s =
    require
      (contains s.ctx.pattern_names pattern_name
        || not (has_key pattern_name s.ctx.dependency_contracts))
      (spawn_requires_pattern pattern_name) s.ctx.current_line none s

unfoldable pub check_wait : Text → Step
unfolding require_var release_spawn_borrows
check_wait handle s = elim (has_key handle s.ctx.variables) [
  | true ↦ record s { ctx = release_spawn_borrows handle s.ctx }
  | false ↦ require_var handle (some (codes "WAIT handle")) s
]

-- After the operands were validated: none is a handle, and the size is one of integers.
unfoldable pub int_operation : Text → Text → Expr → Expr → ℕ → Step
unfolding check_value_operand validate_int_size
int_operation op context a b size s =
    let s' = check_value_operand b op (check_value_operand a op s) in
    validate_int_size size s'.ctx.current_line context s'

unfoldable pub float_operation : Text → Text → Expr → Expr → ℕ → Step
unfolding check_value_operand validate_float_size
float_operation op context a b size s =
    let s' = check_value_operand b op (check_value_operand a op s) in
    validate_float_size size s'.ctx.current_line context s'

unfoldable pub int_unary : Expr → ℕ → Step
unfolding check_value_operand validate_int_size
int_unary a size s =
    let s' = check_value_operand a (codes "this operation") s in
    validate_int_size size s'.ctx.current_line (codes "unary operation") s'

unfoldable pub float_unary : Expr → ℕ → Step
unfolding check_value_operand validate_float_size
float_unary a size s =
    let s' = check_value_operand a (codes "float negation") s in
    validate_float_size size s'.ctx.current_line (codes "float negation") s'

unfoldable pub check_ftoi : Expr → ℕ → ℕ → Step
unfolding check_value_operand validate_float_size validate_int_size
check_ftoi a float_size int_size s =
    let s' = check_value_operand a (codes "FTOI") s in
    validate_int_size int_size s'.ctx.current_line (codes "FTOI target")
      (validate_float_size float_size s'.ctx.current_line (codes "FTOI source") s')

unfoldable pub check_itof : Expr → ℕ → ℕ → Step
unfolding check_value_operand validate_float_size validate_int_size
check_itof a int_size float_size s =
    let s' = check_value_operand a (codes "ITOF") s in
    validate_float_size float_size s'.ctx.current_line (codes "ITOF target")
      (validate_int_size int_size s'.ctx.current_line (codes "ITOF source") s')

-- A size that is checked at the current line.
unfoldable pub int_size : ℕ → Text → Step
unfolding validate_int_size
int_size size context s = validate_int_size size s.ctx.current_line context s

abbrev pub arithmetic : Expr → Expr → ℕ → Step
arithmetic = int_operation (codes "integer arithmetic") (codes "integer operation")

abbrev pub comparison : Expr → Expr → ℕ → Step
comparison = int_operation (codes "integer comparison") (codes "comparison")

abbrev pub bitwise : Expr → Expr → ℕ → Step
bitwise = int_operation (codes "bitwise op") (codes "bitwise operation")

abbrev pub float_arithmetic : Expr → Expr → ℕ → Step
float_arithmetic = float_operation (codes "float arithmetic") (codes "float operation")

abbrev pub float_comparison : Expr → Expr → ℕ → Step
float_comparison = float_operation (codes "float comparison") (codes "float comparison")

abbrev pub on_current_line : (ℕ → Step) → Step
on_current_line f s = f s.ctx.current_line s

unfoldable mutual
  unfolding require_var check_load note_alloc note_channel check_spawn check_wait int_operation
      float_operation int_unary float_unary check_ftoi check_itof int_size validate_call
      check_value_operand validate_int_size

  pub validate_expr : Expr → Step
  validate_expr (Expr.var name) s = require_var name none s
  validate_expr (Expr.field base _) s = validate_expr base s
  validate_expr (Expr.load source size offset) s =
      check_load source size offset
        (validate_offset offset (int_size size (codes "LOAD") (validate_expr source s)))
  validate_expr (Expr.alloc size _ _) s = note_alloc (validate_expr size s)
  validate_expr (Expr.call behavior args) s =
      on_current_line (validate_call behavior args) (validate_args args s)
  validate_expr (Expr.iadd a b n) s = arithmetic a b n (validate_expr b (validate_expr a s))
  validate_expr (Expr.isub a b n) s = arithmetic a b n (validate_expr b (validate_expr a s))
  validate_expr (Expr.imul a b n) s = arithmetic a b n (validate_expr b (validate_expr a s))
  validate_expr (Expr.idiv a b n) s = arithmetic a b n (validate_expr b (validate_expr a s))
  validate_expr (Expr.imod a b n) s = arithmetic a b n (validate_expr b (validate_expr a s))
  validate_expr (Expr.ieq a b n) s = comparison a b n (validate_expr b (validate_expr a s))
  validate_expr (Expr.ine a b n) s = comparison a b n (validate_expr b (validate_expr a s))
  validate_expr (Expr.ilt a b n) s = comparison a b n (validate_expr b (validate_expr a s))
  validate_expr (Expr.igt a b n) s = comparison a b n (validate_expr b (validate_expr a s))
  validate_expr (Expr.ile a b n) s = comparison a b n (validate_expr b (validate_expr a s))
  validate_expr (Expr.ige a b n) s = comparison a b n (validate_expr b (validate_expr a s))
  validate_expr (Expr.fadd a b n) s = float_arithmetic a b n (validate_expr b (validate_expr a s))
  validate_expr (Expr.fsub a b n) s = float_arithmetic a b n (validate_expr b (validate_expr a s))
  validate_expr (Expr.fmul a b n) s = float_arithmetic a b n (validate_expr b (validate_expr a s))
  validate_expr (Expr.fdiv a b n) s = float_arithmetic a b n (validate_expr b (validate_expr a s))
  validate_expr (Expr.feq a b n) s = float_comparison a b n (validate_expr b (validate_expr a s))
  validate_expr (Expr.fne a b n) s = float_comparison a b n (validate_expr b (validate_expr a s))
  validate_expr (Expr.flt a b n) s = float_comparison a b n (validate_expr b (validate_expr a s))
  validate_expr (Expr.fgt a b n) s = float_comparison a b n (validate_expr b (validate_expr a s))
  validate_expr (Expr.fle a b n) s = float_comparison a b n (validate_expr b (validate_expr a s))
  validate_expr (Expr.fge a b n) s = float_comparison a b n (validate_expr b (validate_expr a s))
  validate_expr (Expr.ineg a n) s = int_unary a n (validate_expr a s)
  validate_expr (Expr.not a n) s = int_unary a n (validate_expr a s)
  validate_expr (Expr.fneg a n) s = float_unary a n (validate_expr a s)
  validate_expr (Expr.and a b n) s = bitwise a b n (validate_expr b (validate_expr a s))
  validate_expr (Expr.or a b n) s = bitwise a b n (validate_expr b (validate_expr a s))
  validate_expr (Expr.xor a b n) s = bitwise a b n (validate_expr b (validate_expr a s))
  validate_expr (Expr.shl a b n) s = bitwise a b n (validate_expr b (validate_expr a s))
  validate_expr (Expr.shr a b n) s = bitwise a b n (validate_expr b (validate_expr a s))
  validate_expr (Expr.sar a b n) s = bitwise a b n (validate_expr b (validate_expr a s))
  validate_expr (Expr.ftoi a m n) s = check_ftoi a m n (validate_expr a s)
  validate_expr (Expr.itof a m n) s = check_itof a m n (validate_expr a s)
  validate_expr (Expr.atomic_load a n) s = int_size n (codes "ATOMIC_LOAD") (validate_expr a s)
  validate_expr (Expr.atomic_store a b n) s =
      int_size n (codes "ATOMIC_STORE") (validate_expr b (validate_expr a s))
  validate_expr (Expr.cas a b c n) s =
      int_size n (codes "CAS") (validate_expr c (validate_expr b (validate_expr a s)))
  validate_expr (Expr.atomic_add a b n) s =
      int_size n (codes "atomic operation") (validate_expr b (validate_expr a s))
  validate_expr (Expr.atomic_sub a b n) s =
      int_size n (codes "atomic operation") (validate_expr b (validate_expr a s))
  validate_expr (Expr.spawn pattern_name args) s = check_spawn pattern_name (validate_args args s)
  validate_expr (Expr.wait handle) s = check_wait handle s
  validate_expr (Expr.channel _ _) s = note_channel s
  validate_expr (Expr.channel_receive name) s =
      require_var name (some (codes "CHANNEL_RECEIVE channel")) (note_channel s)
  validate_expr _ s = s

  pub validate_offset : Offset → Step
  validate_offset no_offset s = s
  validate_offset (at_offset e) s =
      check_value_operand e (codes "a dynamic offset") (validate_expr e s)

  pub validate_args : Exprs → Step
  validate_args nil s = s
  validate_args (cons a more) s = validate_args more (validate_expr a s)
