-- ===== src/Semantic/Values/Operands.antt =====
-- compiler/src/semantic/mod.rs: which expressions are values and which are constants, told apart from
-- how `operand_handle_kind` and `try_eval_const` work it out.
use mathlib.Core.Path.{subst}
use mathlib.Core.Option.{some-injective}
use sigil_lang.Prelude.{
  ℕ, ◌+◌, ◌-◌, ◌*◌, ◌%◌, ◌^◌, ◌≡◌, refl, ◌↔◌, inl, inr, true, false, Option, none, some, Text,
  text_eq, Map, lookup, Option-cases,
}
use sigil_lang.Ast.{Expr}
use sigil_lang.Semantic.Context.{VarOrigin, VarInfo}
use sigil_lang.Semantic.Values.{both, try_eval_const, handle_of_origin, operand_handle_kind}

-- What was loaded or computed is no handle.
pub data IsPlain : VarOrigin → Type 0 where
  loaded : IsPlain VarOrigin.load_result
  computed : IsPlain VarOrigin.computed

-- The expression is not a handle: neither a new allocation, nor a field of the result of a call, nor
-- a variable that holds an input, an output, an allocation or the result of a call.
abbrev pub IsValue : Map Text VarInfo → Expr → Type 0
IsValue vars (Expr.alloc _ _ _) = false ≡ true
IsValue vars (Expr.field _ _) = false ≡ true
IsValue vars (Expr.var x) = (v : VarInfo) → lookup x vars ≡ some v → IsPlain v.origin
IsValue vars _ = Unit

origin_iff : (o : VarOrigin) → (handle_of_origin o ≡ none) ↔ IsPlain o
unfolding handle_of_origin
origin_iff VarOrigin.load_result = (λ _. loaded, λ _. refl)
origin_iff VarOrigin.computed = (λ _. IsPlain.computed, λ _. refl)
origin_iff (VarOrigin.input n) = (λ h. absurd (cc (h)), λ p. elim p [ ])
origin_iff (VarOrigin.output n) = (λ h. absurd (cc (h)), λ p. elim p [ ])
origin_iff (VarOrigin.alloc n) = (λ h. absurd (cc (h)), λ p. elim p [ ])
origin_iff (VarOrigin.call_result n) = (λ h. absurd (cc (h)), λ p. elim p [ ])

variable_iff :
    (vars : Map Text VarInfo) (x : Text)
    → (operand_handle_kind vars (Expr.var x) ≡ none) ↔ IsValue vars (Expr.var x)
unfolding operand_handle_kind
variable_iff vars x = elim (Option-cases (lookup x vars)) [
  | inl missing ↦ rw (missing, operand_handle_kind) (λ _ v h. absurd (cc (h)), λ _. refl)
  | inr (v, found) ↦
      rw (found, operand_handle_kind)
        (
          λ h w e. subst (λ u. IsPlain u.origin) (some-injective v w e) ((origin_iff v.origin).0 h),
          λ plain. (origin_iff v.origin).1 (plain v refl),
        )
]

pub operand_handle_kind_iff :
    (vars : Map Text VarInfo) (e : Expr) → (operand_handle_kind vars e ≡ none) ↔ IsValue vars e
unfolding operand_handle_kind
operand_handle_kind_iff vars (Expr.var x) = variable_iff vars x
operand_handle_kind_iff vars (Expr.alloc e t s) = (λ h. absurd (cc (h)), λ h. absurd (cc (h)))
operand_handle_kind_iff vars (Expr.field e f) = (λ h. absurd (cc (h)), λ h. absurd (cc (h)))
operand_handle_kind_iff vars e = (λ _. tt, λ _. refl)

-- The constants: literals, and sums, differences and products of constants in 64 bits.
pub data IsConst : Expr → ℕ → Type 0 where
  literal : (n : ℕ) → IsConst (Expr.int_lit n) n
  sum :
      (a b : Expr) (size m n : ℕ)
      → IsConst a m
      → IsConst b n
      → IsConst (Expr.iadd a b size) ((m + n) % 2 ^ 64)
  difference :
      (a b : Expr) (size m n : ℕ)
      → IsConst a m
      → IsConst b n
      → IsConst (Expr.isub a b size) ((m + (2 ^ 64 - n)) % 2 ^ 64)
  product :
      (a b : Expr) (size m n : ℕ)
      → IsConst a m
      → IsConst b n
      → IsConst (Expr.imul a b size) ((m * n) % 2 ^ 64)

pub IsConst-try_eval_const : {e : Expr} {n : ℕ} → IsConst e n → try_eval_const e ≡ some n
unfolding try_eval_const
IsConst-try_eval_const (literal n) = refl
IsConst-try_eval_const (sum a b size m n p q) =
    rw (IsConst-try_eval_const p, IsConst-try_eval_const q) refl
IsConst-try_eval_const (difference a b size m n p q) =
    rw (IsConst-try_eval_const p, IsConst-try_eval_const q) refl
IsConst-try_eval_const (product a b size m n p q) =
    rw (IsConst-try_eval_const p, IsConst-try_eval_const q) refl

both-some :
    (f : ℕ → ℕ → ℕ) (o p : Option ℕ) (n : ℕ)
    → both f o p ≡ some n
    → (a : ℕ) × (b : ℕ) × (o ≡ some a) × (p ≡ some b) × (f a b ≡ n)
both-some f (some a) (some b) n h = (a, b, refl, refl, some-injective _ n h)
both-some f (some a) none n h = absurd (cc (h))
both-some f none p n h = absurd (cc (h))

pub try_eval_const-IsConst : (e : Expr) (n : ℕ) → try_eval_const e ≡ some n → IsConst e n
unfolding try_eval_const
try_eval_const-IsConst (Expr.int_lit m) n h =
    subst (IsConst (Expr.int_lit m)) (some-injective m n h) (literal m)
try_eval_const-IsConst (Expr.iadd a b size) n h =
    let (x, y, p, q, r) = both-some _ (try_eval_const a) (try_eval_const b) n h in
    subst (IsConst (Expr.iadd a b size)) r
      (sum a b size x y (try_eval_const-IsConst a x p) (try_eval_const-IsConst b y q))
try_eval_const-IsConst (Expr.isub a b size) n h =
    let (x, y, p, q, r) = both-some _ (try_eval_const a) (try_eval_const b) n h in
    subst (IsConst (Expr.isub a b size)) r
      (difference a b size x y (try_eval_const-IsConst a x p) (try_eval_const-IsConst b y q))
try_eval_const-IsConst (Expr.imul a b size) n h =
    let (x, y, p, q, r) = both-some _ (try_eval_const a) (try_eval_const b) n h in
    subst (IsConst (Expr.imul a b size)) r
      (product a b size x y (try_eval_const-IsConst a x p) (try_eval_const-IsConst b y q))
try_eval_const-IsConst e n h = absurd (cc (h))
