-- ===== src/Semantic/Exprs/Correct.antt =====
-- `validate_expr` reports nothing exactly for the expressions that are valid.
use sigil_lang.Prelude.{◌↔◌, [], ◌≡◌, none, some, text_eq, codes, lookup}
use sigil_lang.Ast.{Expr, Exprs, nil, cons, Offset, no_offset, at_offset}
use sigil_lang.Semantic.Checks.{State, facts, Decides, Decides-nothing, Decides-then}
use sigil_lang.Semantic.Bounds.{check_value_operand-Decides}
use sigil_lang.Semantic.Calls.{Matches, validate_call-Decides}
use sigil_lang.Semantic.Exprs.{
  note_channel, int_size, validate_expr, validate_offset, validate_args,
}
use sigil_lang.Semantic.Exprs.Valid.{
  IsIntSize, IsFloatSize, IsOperand, IsDefined, IsLoad, IsSpawnable, IsValid, IsValidOffset,
  AreValid,
}
use sigil_lang.Semantic.Exprs.Steps.{
  require_var-Decides, int_size-Decides, after_ints, after_floats, after_int, after_float,
  check_ftoi-Decides, check_itof-Decides, check_load-Decides, note_alloc-Decides,
  note_channel-Decides, check_spawn-Decides, check_wait-Decides,
}

mutual
  unfolding validate_expr IsValid

  pub validate_expr-Decides :
      (e : Expr) (s : State) → Decides s (validate_expr e s) (IsValid (facts s) e)
  validate_expr-Decides (Expr.int_lit _) s = Decides-nothing s
  validate_expr-Decides (Expr.float_lit _) s = Decides-nothing s
  validate_expr-Decides (Expr.string_lit _) s = Decides-nothing s
  validate_expr-Decides (Expr.var x) s = require_var-Decides x none s
  validate_expr-Decides (Expr.field e _) s = validate_expr-Decides e s
  validate_expr-Decides (Expr.load e n o) s =
      let t = int_size n (codes "LOAD") (validate_expr e s) in
      Decides-then (λ F. IsLoad F e n o)
        (Decides-then (λ F. IsValidOffset F o)
          (Decides-then (λ _. IsIntSize n) (validate_expr-Decides e s)
            (int_size-Decides n (codes "LOAD") (validate_expr e s)))
          (validate_offset-Decides o t))
        (check_load-Decides e n o (validate_offset o t))
  validate_expr-Decides (Expr.alloc e _ _) s = note_alloc-Decides (validate_expr-Decides e s)
  validate_expr-Decides (Expr.call f args) s =
      let t = validate_args args s in
      Decides-then (λ F. Matches F args (lookup f F.contracts)) (validate_args-Decides args s)
        (validate_call-Decides f args t.ctx.current_line t)
  validate_expr-Decides (Expr.iadd a b n) s =
      after_ints (codes "integer arithmetic") (codes "integer operation") a b n (
        Decides-then (λ F. IsValid F b) (validate_expr-Decides a s)
          (validate_expr-Decides b (validate_expr a s)))
  validate_expr-Decides (Expr.isub a b n) s =
      after_ints (codes "integer arithmetic") (codes "integer operation") a b n (
        Decides-then (λ F. IsValid F b) (validate_expr-Decides a s)
          (validate_expr-Decides b (validate_expr a s)))
  validate_expr-Decides (Expr.imul a b n) s =
      after_ints (codes "integer arithmetic") (codes "integer operation") a b n (
        Decides-then (λ F. IsValid F b) (validate_expr-Decides a s)
          (validate_expr-Decides b (validate_expr a s)))
  validate_expr-Decides (Expr.idiv a b n) s =
      after_ints (codes "integer arithmetic") (codes "integer operation") a b n (
        Decides-then (λ F. IsValid F b) (validate_expr-Decides a s)
          (validate_expr-Decides b (validate_expr a s)))
  validate_expr-Decides (Expr.imod a b n) s =
      after_ints (codes "integer arithmetic") (codes "integer operation") a b n (
        Decides-then (λ F. IsValid F b) (validate_expr-Decides a s)
          (validate_expr-Decides b (validate_expr a s)))
  validate_expr-Decides (Expr.ieq a b n) s =
      after_ints (codes "integer comparison") (codes "comparison") a b n (
        Decides-then (λ F. IsValid F b) (validate_expr-Decides a s)
          (validate_expr-Decides b (validate_expr a s)))
  validate_expr-Decides (Expr.ine a b n) s =
      after_ints (codes "integer comparison") (codes "comparison") a b n (
        Decides-then (λ F. IsValid F b) (validate_expr-Decides a s)
          (validate_expr-Decides b (validate_expr a s)))
  validate_expr-Decides (Expr.ilt a b n) s =
      after_ints (codes "integer comparison") (codes "comparison") a b n (
        Decides-then (λ F. IsValid F b) (validate_expr-Decides a s)
          (validate_expr-Decides b (validate_expr a s)))
  validate_expr-Decides (Expr.igt a b n) s =
      after_ints (codes "integer comparison") (codes "comparison") a b n (
        Decides-then (λ F. IsValid F b) (validate_expr-Decides a s)
          (validate_expr-Decides b (validate_expr a s)))
  validate_expr-Decides (Expr.ile a b n) s =
      after_ints (codes "integer comparison") (codes "comparison") a b n (
        Decides-then (λ F. IsValid F b) (validate_expr-Decides a s)
          (validate_expr-Decides b (validate_expr a s)))
  validate_expr-Decides (Expr.ige a b n) s =
      after_ints (codes "integer comparison") (codes "comparison") a b n (
        Decides-then (λ F. IsValid F b) (validate_expr-Decides a s)
          (validate_expr-Decides b (validate_expr a s)))
  validate_expr-Decides (Expr.fadd a b n) s =
      after_floats (codes "float arithmetic") (codes "float operation") a b n (
        Decides-then (λ F. IsValid F b) (validate_expr-Decides a s)
          (validate_expr-Decides b (validate_expr a s)))
  validate_expr-Decides (Expr.fsub a b n) s =
      after_floats (codes "float arithmetic") (codes "float operation") a b n (
        Decides-then (λ F. IsValid F b) (validate_expr-Decides a s)
          (validate_expr-Decides b (validate_expr a s)))
  validate_expr-Decides (Expr.fmul a b n) s =
      after_floats (codes "float arithmetic") (codes "float operation") a b n (
        Decides-then (λ F. IsValid F b) (validate_expr-Decides a s)
          (validate_expr-Decides b (validate_expr a s)))
  validate_expr-Decides (Expr.fdiv a b n) s =
      after_floats (codes "float arithmetic") (codes "float operation") a b n (
        Decides-then (λ F. IsValid F b) (validate_expr-Decides a s)
          (validate_expr-Decides b (validate_expr a s)))
  validate_expr-Decides (Expr.feq a b n) s =
      after_floats (codes "float comparison") (codes "float comparison") a b n (
        Decides-then (λ F. IsValid F b) (validate_expr-Decides a s)
          (validate_expr-Decides b (validate_expr a s)))
  validate_expr-Decides (Expr.fne a b n) s =
      after_floats (codes "float comparison") (codes "float comparison") a b n (
        Decides-then (λ F. IsValid F b) (validate_expr-Decides a s)
          (validate_expr-Decides b (validate_expr a s)))
  validate_expr-Decides (Expr.flt a b n) s =
      after_floats (codes "float comparison") (codes "float comparison") a b n (
        Decides-then (λ F. IsValid F b) (validate_expr-Decides a s)
          (validate_expr-Decides b (validate_expr a s)))
  validate_expr-Decides (Expr.fgt a b n) s =
      after_floats (codes "float comparison") (codes "float comparison") a b n (
        Decides-then (λ F. IsValid F b) (validate_expr-Decides a s)
          (validate_expr-Decides b (validate_expr a s)))
  validate_expr-Decides (Expr.fle a b n) s =
      after_floats (codes "float comparison") (codes "float comparison") a b n (
        Decides-then (λ F. IsValid F b) (validate_expr-Decides a s)
          (validate_expr-Decides b (validate_expr a s)))
  validate_expr-Decides (Expr.fge a b n) s =
      after_floats (codes "float comparison") (codes "float comparison") a b n (
        Decides-then (λ F. IsValid F b) (validate_expr-Decides a s)
          (validate_expr-Decides b (validate_expr a s)))
  validate_expr-Decides (Expr.and a b n) s =
      after_ints (codes "bitwise op") (codes "bitwise operation") a b n (
        Decides-then (λ F. IsValid F b) (validate_expr-Decides a s)
          (validate_expr-Decides b (validate_expr a s)))
  validate_expr-Decides (Expr.or a b n) s =
      after_ints (codes "bitwise op") (codes "bitwise operation") a b n (
        Decides-then (λ F. IsValid F b) (validate_expr-Decides a s)
          (validate_expr-Decides b (validate_expr a s)))
  validate_expr-Decides (Expr.xor a b n) s =
      after_ints (codes "bitwise op") (codes "bitwise operation") a b n (
        Decides-then (λ F. IsValid F b) (validate_expr-Decides a s)
          (validate_expr-Decides b (validate_expr a s)))
  validate_expr-Decides (Expr.shl a b n) s =
      after_ints (codes "bitwise op") (codes "bitwise operation") a b n (
        Decides-then (λ F. IsValid F b) (validate_expr-Decides a s)
          (validate_expr-Decides b (validate_expr a s)))
  validate_expr-Decides (Expr.shr a b n) s =
      after_ints (codes "bitwise op") (codes "bitwise operation") a b n (
        Decides-then (λ F. IsValid F b) (validate_expr-Decides a s)
          (validate_expr-Decides b (validate_expr a s)))
  validate_expr-Decides (Expr.sar a b n) s =
      after_ints (codes "bitwise op") (codes "bitwise operation") a b n (
        Decides-then (λ F. IsValid F b) (validate_expr-Decides a s)
          (validate_expr-Decides b (validate_expr a s)))
  validate_expr-Decides (Expr.ineg a n) s = after_int a n (validate_expr-Decides a s)
  validate_expr-Decides (Expr.not a n) s = after_int a n (validate_expr-Decides a s)
  validate_expr-Decides (Expr.fneg a n) s = after_float a n (validate_expr-Decides a s)
  validate_expr-Decides (Expr.ftoi a m n) s =
      Decides-then (λ F. (IsOperand F a × IsFloatSize m) × IsIntSize n) (validate_expr-Decides a s)
        (check_ftoi-Decides a m n (validate_expr a s))
  validate_expr-Decides (Expr.itof a m n) s =
      Decides-then (λ F. (IsOperand F a × IsIntSize m) × IsFloatSize n) (validate_expr-Decides a s)
        (check_itof-Decides a m n (validate_expr a s))
  validate_expr-Decides (Expr.atomic_load a n) s =
      Decides-then (λ _. IsIntSize n) (validate_expr-Decides a s)
        (int_size-Decides n (codes "ATOMIC_LOAD") (validate_expr a s))
  validate_expr-Decides (Expr.atomic_store a b n) s =
      let t = validate_expr b (validate_expr a s) in
      Decides-then (λ _. IsIntSize n)
        (Decides-then (λ F. IsValid F b) (validate_expr-Decides a s)
          (validate_expr-Decides b (validate_expr a s)))
        (int_size-Decides n (codes "ATOMIC_STORE") t)
  validate_expr-Decides (Expr.atomic_add a b n) s =
      let t = validate_expr b (validate_expr a s) in
      Decides-then (λ _. IsIntSize n)
        (Decides-then (λ F. IsValid F b) (validate_expr-Decides a s)
          (validate_expr-Decides b (validate_expr a s)))
        (int_size-Decides n (codes "atomic operation") t)
  validate_expr-Decides (Expr.atomic_sub a b n) s =
      let t = validate_expr b (validate_expr a s) in
      Decides-then (λ _. IsIntSize n)
        (Decides-then (λ F. IsValid F b) (validate_expr-Decides a s)
          (validate_expr-Decides b (validate_expr a s)))
        (int_size-Decides n (codes "atomic operation") t)
  validate_expr-Decides (Expr.cas a b c n) s =
      let t = validate_expr b (validate_expr a s) in
      Decides-then (λ _. IsIntSize n)
        (Decides-then (λ F. IsValid F c)
          (Decides-then (λ F. IsValid F b) (validate_expr-Decides a s)
            (validate_expr-Decides b (validate_expr a s)))
          (validate_expr-Decides c t))
        (int_size-Decides n (codes "CAS") (validate_expr c t))
  validate_expr-Decides (Expr.spawn p args) s =
      Decides-then (λ F. IsSpawnable F p) (validate_args-Decides args s)
        (check_spawn-Decides p (validate_args args s))
  validate_expr-Decides (Expr.wait h) s = check_wait-Decides h s
  validate_expr-Decides (Expr.channel _ _) s = note_channel-Decides s
  validate_expr-Decides (Expr.channel_receive c) s =
      Decides-then (λ F. IsDefined F c) (note_channel-Decides s)
        (require_var-Decides c (some (codes "CHANNEL_RECEIVE channel")) (note_channel s))

  pub validate_offset-Decides :
      (o : Offset) (s : State) → Decides s (validate_offset o s) (IsValidOffset (facts s) o)
  validate_offset-Decides no_offset s = Decides-nothing s
  validate_offset-Decides (at_offset e) s =
      Decides-then (λ F. IsOperand F e) (validate_expr-Decides e s)
        (check_value_operand-Decides e (codes "a dynamic offset") (validate_expr e s))

  pub validate_args-Decides :
      (args : Exprs) (s : State) → Decides s (validate_args args s) (AreValid (facts s) args)
  validate_args-Decides nil s = Decides-nothing s
  validate_args-Decides (cons a more) s =
      Decides-then (λ F. AreValid F more) (validate_expr-Decides a s)
        (validate_args-Decides more (validate_expr a s))

-- Whatever was found before, the check of an expression adds no error exactly if the expression is
-- valid: its names are defined, its sizes are those of its type, what an operation takes is no
-- handle, a load by name reads no shared allocation and, where the size and the offset are known,
-- only inside the allocation, the arguments of a known behavior fit its contract, and no behavior is
-- spawned that is not a pattern. The capacity of a channel is not looked at.
pub validate_expr_iff :
    (e : Expr) (s : State)
    → ((validate_expr e s).errors ≡ []) ↔ ((s.errors ≡ []) × IsValid (facts s) e)
validate_expr_iff e s = (validate_expr-Decides e s).exact
