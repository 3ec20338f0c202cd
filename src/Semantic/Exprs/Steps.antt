-- ===== src/Semantic/Exprs/Steps.antt =====
-- What the checks of one operation decide.
use sigil_lang.Prelude.{
  ℕ, ◌≡◌, ◌↔◌, refl, sym, ap, ◌∙◌, Bool, true, false, not, arith, ◌||◌, Option, none, some, Text,
  text_eq, codes, lookup, contains, Bool-cases, inl, inr,
}
use mathlib.Core.Option.{some-injective}
use sigil_lang.Ast.{Expr, Offset}
use sigil_lang.Semantic.Errors.{
  undefined_variable, non_atomic_shared_access, spawn_requires_pattern, invalid_int_size,
  invalid_float_size,
}
use sigil_lang.Semantic.Context.{VarInfo, has_key, release_spawn_borrows}
use sigil_lang.Semantic.Checks.{
  State, facts, is_int_size, is_float_size, validate_int_size, validate_float_size, Decides,
  Decides-nothing, Decides-as, Decides-then, Decides-require,
}
use sigil_lang.Semantic.Bounds.{
  check_value_operand, check_bounds, check_bounds-Decides, check_value_operand-Decides,
}
use sigil_lang.Semantic.Exprs.{
  shared_of, require_var, check_load, note_alloc, note_channel, check_spawn, check_wait,
  int_operation, float_operation, int_unary, float_unary, check_ftoi, check_itof, int_size,
}
use sigil_lang.Semantic.Exprs.Valid.{
  IsIntSize, IsFloatSize, IsOperand, AreInts, AreFloats, IsDefined, IsLoad, IsSpawnable,
}

pub require_var-Decides :
    (x : Text) (context : Option Text) (s : State)
    → Decides s (require_var x context s) (IsDefined (facts s) x)
unfolding require_var
require_var-Decides x context s =
    Decides-require (has_key x s.ctx.variables) (undefined_variable x) s.ctx.current_line context s

is_int_size_iff : (n : ℕ) → (is_int_size n ≡ true) ↔ IsIntSize n
is_int_size_iff n = (
  λ h. ground (arith, h),
  elim [
    | inl e ↦ rw e refl
    | inr (inl e) ↦ rw e refl
    | inr (inr (inl e)) ↦ rw e refl
    | inr (inr (inr e)) ↦ rw e refl
  ],
)

is_float_size_iff : (n : ℕ) → (is_float_size n ≡ true) ↔ IsFloatSize n
is_float_size_iff n = (λ h. ground (arith, h), elim [ inl e ↦ rw e refl | inr e ↦ rw e refl ])

pub int_size-Decides :
    (n : ℕ) (context : Text) (s : State) → Decides s (int_size n context s) (IsIntSize n)
unfolding int_size validate_int_size
int_size-Decides n context s =
    Decides-as
      (Decides-require (is_int_size n) (invalid_int_size n) s.ctx.current_line (some context) s)
      (is_int_size_iff n)

-- Sizes at any line.
pub validate_int_size-Decides :
    (n line : ℕ) (context : Text) (s : State)
    → Decides s (validate_int_size n line context s) (IsIntSize n)
unfolding validate_int_size
validate_int_size-Decides n line context s =
    Decides-as (Decides-require (is_int_size n) (invalid_int_size n) line (some context) s)
      (is_int_size_iff n)

pub validate_float_size-Decides :
    (n line : ℕ) (context : Text) (s : State)
    → Decides s (validate_float_size n line context s) (IsFloatSize n)
unfolding validate_float_size
validate_float_size-Decides n line context s =
    Decides-as (Decides-require (is_float_size n) (invalid_float_size n) line (some context) s)
      (is_float_size_iff n)

pub operands-Decides :
    (op : Text) (a b : Expr) (s : State)
    → Decides s
        (check_value_operand b op (check_value_operand a op s))
        (IsOperand (facts s) a × IsOperand (facts s) b)
operands-Decides op a b s =
    Decides-then (λ F. IsOperand F b) (check_value_operand-Decides a op s)
      (check_value_operand-Decides b op (check_value_operand a op s))

module _ (op context : Text) (a b : Expr) (n : ℕ) {s s' : State} {P : Type 0}
    (d : Decides s s' P) where
  pub after_ints : Decides s (int_operation op context a b n s') (P × AreInts (facts s) a b n)
  unfolding int_operation
  after_ints =
      let t = check_value_operand b op (check_value_operand a op s') in
      Decides-then (λ F. AreInts F a b n) d
        (Decides-then (λ _. IsIntSize n) (operands-Decides op a b s')
          (validate_int_size-Decides n t.ctx.current_line context t))

  pub after_floats : Decides s (float_operation op context a b n s') (P × AreFloats (facts s) a b n)
  unfolding float_operation
  after_floats =
      let t = check_value_operand b op (check_value_operand a op s') in
      Decides-then (λ F. AreFloats F a b n) d
        (Decides-then (λ _. IsFloatSize n) (operands-Decides op a b s')
          (validate_float_size-Decides n t.ctx.current_line context t))

module _ (a : Expr) (n : ℕ) {s s' : State} {P : Type 0} (d : Decides s s' P) where
  pub after_int : Decides s (int_unary a n s') (P × (IsOperand (facts s) a × IsIntSize n))
  unfolding int_unary
  after_int =
      let t = check_value_operand a (codes "this operation") s' in
      Decides-then (λ F. IsOperand F a × IsIntSize n) d
        (Decides-then (λ _. IsIntSize n) (check_value_operand-Decides a (codes "this operation") s')
          (validate_int_size-Decides n t.ctx.current_line (codes "unary operation") t))

  pub after_float : Decides s (float_unary a n s') (P × (IsOperand (facts s) a × IsFloatSize n))
  unfolding float_unary
  after_float =
      let t = check_value_operand a (codes "float negation") s' in
      Decides-then (λ F. IsOperand F a × IsFloatSize n) d
        (Decides-then (λ _. IsFloatSize n)
          (check_value_operand-Decides a (codes "float negation") s')
          (validate_float_size-Decides n t.ctx.current_line (codes "float negation") t))

pub check_ftoi-Decides :
    (a : Expr) (m n : ℕ) (s : State)
    → Decides s (check_ftoi a m n s) ((IsOperand (facts s) a × IsFloatSize m) × IsIntSize n)
unfolding check_ftoi
check_ftoi-Decides a m n s =
    let t = check_value_operand a (codes "FTOI") s in
    let u = validate_float_size m t.ctx.current_line (codes "FTOI source") t in
    Decides-then (λ _. IsIntSize n)
      (Decides-then (λ _. IsFloatSize m) (check_value_operand-Decides a (codes "FTOI") s)
        (validate_float_size-Decides m t.ctx.current_line (codes "FTOI source") t))
      (validate_int_size-Decides n t.ctx.current_line (codes "FTOI target") u)

pub check_itof-Decides :
    (a : Expr) (m n : ℕ) (s : State)
    → Decides s (check_itof a m n s) ((IsOperand (facts s) a × IsIntSize m) × IsFloatSize n)
unfolding check_itof
check_itof-Decides a m n s =
    let t = check_value_operand a (codes "ITOF") s in
    let u = validate_int_size m t.ctx.current_line (codes "ITOF source") t in
    Decides-then (λ _. IsFloatSize n)
      (Decides-then (λ _. IsIntSize m) (check_value_operand-Decides a (codes "ITOF") s)
        (validate_int_size-Decides m t.ctx.current_line (codes "ITOF source") t))
      (validate_float_size-Decides n t.ctx.current_line (codes "ITOF target") u)

unshared_iff :
    (o : Option VarInfo)
    → (not (shared_of o) ≡ true) ↔ ((v : VarInfo) → o ≡ some v → v.shared ≡ false)
unshared_iff none = (λ _ v h. absurd (cc (h)), λ _. refl)
unshared_iff (some w) = (
  λ h v e. ap (λ (u : VarInfo). u.shared) (sym (some-injective w v e)) ∙ not_true w.shared h,
  λ h. rw (h w refl) refl,
)
  where
    not_true : (b : Bool) → not b ≡ true → b ≡ false
    not_true b h = ground (arith, h)

pub check_load-Decides :
    (e : Expr) (n : ℕ) (o : Offset) (s : State)
    → Decides s (check_load e n o s) (IsLoad (facts s) e n o)
unfolding check_load
check_load-Decides (Expr.var x) n o s =
    let t = check_bounds x n o s.ctx.current_line (codes "LOAD") s in
    Decides-then (λ F. (v : VarInfo) → lookup x F.variables ≡ some v → v.shared ≡ false)
      (check_bounds-Decides x n o s.ctx.current_line (codes "LOAD") s)
      (Decides-as
        (Decides-require (not (shared_of (lookup x t.ctx.variables)))
          (non_atomic_shared_access x (codes "LOAD")) t.ctx.current_line
          (some (codes "use ATOMIC_LOAD for SHARED handles")) t)
        (unshared_iff (lookup x t.ctx.variables)))
check_load-Decides _ n o s = Decides-nothing s

pub note_alloc-Decides : {s s' : State} {P : Type 0} → Decides s s' P → Decides s (note_alloc s') P
unfolding note_alloc
note_alloc-Decides d = record { kept = d.kept; exact = d.exact }

pub note_channel-Decides : (s : State) → Decides s (note_channel s) Unit
unfolding note_channel
note_channel-Decides s = record { kept = refl; exact = (λ h. (h, tt), λ h. h.0) }

pub check_spawn-Decides :
    (p : Text) (s : State) → Decides s (check_spawn p s) (IsSpawnable (facts s) p)
unfolding check_spawn
check_spawn-Decides p s =
    Decides-require (contains s.ctx.pattern_names p || not (has_key p s.ctx.dependency_contracts))
      (spawn_requires_pattern p) s.ctx.current_line none s

pub check_wait-Decides : (h : Text) (s : State) → Decides s (check_wait h s) (IsDefined (facts s) h)
unfolding check_wait release_spawn_borrows
check_wait-Decides h s = elim (Bool-cases (has_key h s.ctx.variables)) [
  | inl known ↦
      rw (known, check_wait)
        (record { kept = refl; exact = (λ clean. (clean, refl), λ both. both.0) })
  | inr unknown ↦
      rw (unknown, check_wait)
        (Decides-as (require_var-Decides h (some (codes "WAIT handle")) s)
          (λ d. absurd (cc (unknown, d)), λ d. absurd (cc (d))))
]
