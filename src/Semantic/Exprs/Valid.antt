-- ===== src/Semantic/Exprs/Valid.antt =====
-- What it takes for an expression to pass `validate_expr`.
use sigil_lang.Prelude.{ℕ, ◌≡◌, ◌⊎◌, true, false, some, not, ◌||◌, Text, text_eq, lookup, contains}
use sigil_lang.Ast.{Expr, Exprs, nil, cons, Offset, no_offset, at_offset}
use sigil_lang.Semantic.Context.{has_key}
use sigil_lang.Semantic.Context.{VarInfo}
use sigil_lang.Semantic.Values.Operands.{IsValue}
use sigil_lang.Semantic.Checks.{Facts}
use sigil_lang.Semantic.Bounds.{IsInBounds}
use sigil_lang.Semantic.Calls.{Matches}

-- The sizes of the integers and the floats of the machine.
abbrev pub IsIntSize : ℕ → Type 0
IsIntSize n = (n ≡ 1) ⊎ (n ≡ 2) ⊎ (n ≡ 4) ⊎ (n ≡ 8)

abbrev pub IsFloatSize : ℕ → Type 0
IsFloatSize n = (n ≡ 4) ⊎ (n ≡ 8)

-- The expression is not a handle, so that an operation can take it for a value.
abbrev pub IsOperand : Facts → Expr → Type 0
IsOperand F e = IsValue F.variables e

abbrev pub AreInts : Facts → Expr → Expr → ℕ → Type 0
AreInts F a b n = (IsOperand F a × IsOperand F b) × IsIntSize n

abbrev pub AreFloats : Facts → Expr → Expr → ℕ → Type 0
AreFloats F a b n = (IsOperand F a × IsOperand F b) × IsFloatSize n

abbrev pub IsDefined : Facts → Text → Type 0
IsDefined F x = has_key x F.variables ≡ true

-- A load by name stays in the allocation, which is not shared.
abbrev pub IsLoad : Facts → Expr → ℕ → Offset → Type 0
IsLoad F (Expr.var x) n o =
    IsInBounds F x n o × ((v : VarInfo) → lookup x F.variables ≡ some v → v.shared ≡ false)
IsLoad F _ n o = Unit

-- No behavior is spawned that is not a pattern, too.
abbrev pub IsSpawnable : Facts → Text → Type 0
IsSpawnable F p = (contains F.patterns p || not (has_key p F.contracts)) ≡ true

unfoldable mutual
  pub IsValid : Facts → Expr → Type 0
  IsValid F (Expr.int_lit _) = Unit
  IsValid F (Expr.float_lit _) = Unit
  IsValid F (Expr.string_lit _) = Unit
  IsValid F (Expr.var x) = IsDefined F x
  IsValid F (Expr.field e _) = IsValid F e
  IsValid F (Expr.load e n o) = ((IsValid F e × IsIntSize n) × IsValidOffset F o) × IsLoad F e n o
  IsValid F (Expr.alloc e _ _) = IsValid F e
  IsValid F (Expr.call f args) = AreValid F args × Matches F args (lookup f F.contracts)
  IsValid F (Expr.iadd a b n) = (IsValid F a × IsValid F b) × AreInts F a b n
  IsValid F (Expr.isub a b n) = (IsValid F a × IsValid F b) × AreInts F a b n
  IsValid F (Expr.imul a b n) = (IsValid F a × IsValid F b) × AreInts F a b n
  IsValid F (Expr.idiv a b n) = (IsValid F a × IsValid F b) × AreInts F a b n
  IsValid F (Expr.imod a b n) = (IsValid F a × IsValid F b) × AreInts F a b n
  IsValid F (Expr.ieq a b n) = (IsValid F a × IsValid F b) × AreInts F a b n
  IsValid F (Expr.ine a b n) = (IsValid F a × IsValid F b) × AreInts F a b n
  IsValid F (Expr.ilt a b n) = (IsValid F a × IsValid F b) × AreInts F a b n
  IsValid F (Expr.igt a b n) = (IsValid F a × IsValid F b) × AreInts F a b n
  IsValid F (Expr.ile a b n) = (IsValid F a × IsValid F b) × AreInts F a b n
  IsValid F (Expr.ige a b n) = (IsValid F a × IsValid F b) × AreInts F a b n
  IsValid F (Expr.and a b n) = (IsValid F a × IsValid F b) × AreInts F a b n
  IsValid F (Expr.or a b n) = (IsValid F a × IsValid F b) × AreInts F a b n
  IsValid F (Expr.xor a b n) = (IsValid F a × IsValid F b) × AreInts F a b n
  IsValid F (Expr.shl a b n) = (IsValid F a × IsValid F b) × AreInts F a b n
  IsValid F (Expr.shr a b n) = (IsValid F a × IsValid F b) × AreInts F a b n
  IsValid F (Expr.sar a b n) = (IsValid F a × IsValid F b) × AreInts F a b n
  IsValid F (Expr.fadd a b n) = (IsValid F a × IsValid F b) × AreFloats F a b n
  IsValid F (Expr.fsub a b n) = (IsValid F a × IsValid F b) × AreFloats F a b n
  IsValid F (Expr.fmul a b n) = (IsValid F a × IsValid F b) × AreFloats F a b n
  IsValid F (Expr.fdiv a b n) = (IsValid F a × IsValid F b) × AreFloats F a b n
  IsValid F (Expr.feq a b n) = (IsValid F a × IsValid F b) × AreFloats F a b n
  IsValid F (Expr.fne a b n) = (IsValid F a × IsValid F b) × AreFloats F a b n
  IsValid F (Expr.flt a b n) = (IsValid F a × IsValid F b) × AreFloats F a b n
  IsValid F (Expr.fgt a b n) = (IsValid F a × IsValid F b) × AreFloats F a b n
  IsValid F (Expr.fle a b n) = (IsValid F a × IsValid F b) × AreFloats F a b n
  IsValid F (Expr.fge a b n) = (IsValid F a × IsValid F b) × AreFloats F a b n
  IsValid F (Expr.ineg a n) = IsValid F a × (IsOperand F a × IsIntSize n)
  IsValid F (Expr.not a n) = IsValid F a × (IsOperand F a × IsIntSize n)
  IsValid F (Expr.fneg a n) = IsValid F a × (IsOperand F a × IsFloatSize n)
  IsValid F (Expr.ftoi a m n) = IsValid F a × ((IsOperand F a × IsFloatSize m) × IsIntSize n)
  IsValid F (Expr.itof a m n) = IsValid F a × ((IsOperand F a × IsIntSize m) × IsFloatSize n)
  IsValid F (Expr.atomic_load a n) = IsValid F a × IsIntSize n
  IsValid F (Expr.atomic_store a b n) = (IsValid F a × IsValid F b) × IsIntSize n
  IsValid F (Expr.cas a b c n) = ((IsValid F a × IsValid F b) × IsValid F c) × IsIntSize n
  IsValid F (Expr.atomic_add a b n) = (IsValid F a × IsValid F b) × IsIntSize n
  IsValid F (Expr.atomic_sub a b n) = (IsValid F a × IsValid F b) × IsIntSize n
  IsValid F (Expr.spawn p args) = AreValid F args × IsSpawnable F p
  IsValid F (Expr.wait h) = IsDefined F h
  IsValid F (Expr.channel _ _) = Unit
  IsValid F (Expr.channel_receive c) = Unit × IsDefined F c

  pub IsValidOffset : Facts → Offset → Type 0
  IsValidOffset F no_offset = Unit
  IsValidOffset F (at_offset e) = IsValid F e × IsOperand F e

  pub AreValid : Facts → Exprs → Type 0
  AreValid F nil = Unit
  AreValid F (cons a more) = IsValid F a × AreValid F more
