-- ===== src/Semantic/Calls.antt =====
-- compiler/src/semantic/mod.rs: the arguments of a call against the contract of the callee.
use sigil_lang.Prelude.{
  ℕ, suc, ◌+◌, ◌≡◌, Bool, true, Option, none, some, List, [], ◌∷◌, ◌++◌, Text, text_eq, codes, Map,
  lookup, nat_beq, leb, length, Option-cases, refl, ◌≤◌, ◌↔◌, nat_beq_iff, inl, inr,
}
use mathlib.Core.Path.{subst}
use native.Mathlib.Omega.{arith}
use sigil_lang.Decimal.{decimal}
use sigil_lang.Ast.{
  Ty, bytes, int, float, string, ty_beq, ty_beq_iff, Parameter, Contract, Expr, Exprs, nil, cons,
}
use sigil_lang.Semantic.Errors.{
  call_arg_count_mismatch, call_arg_type_mismatch, call_arg_size_mismatch,
}
use sigil_lang.Semantic.Checks.{
  State, Step, require, Facts, facts, Decides, Decides-nothing, Decides-as, Decides-then,
  Decides-require,
}
use sigil_lang.Semantic.Context.{VarInfo}
use sigil_lang.Semantic.Values.{ExprInfo, infer_expr_info, type_to_string}
use sigil_lang.Semantic.Values.Meaning.{type_of, size_of, infer_expr_info-meaning}

abbrev pub count_args : Exprs → ℕ
count_args nil = 0
count_args (cons a more) = suc (count_args more)

-- Bytes fit in a larger buffer, a string carries its length, and numbers have their exact size.
unfoldable pub size_fits : Ty → ℕ → ℕ → Bool
size_fits bytes size declared = leb size declared
size_fits string size declared = true
size_fits int size declared = nat_beq size declared
size_fits float size declared = nat_beq size declared

unfoldable pub argument : ℕ → Text → Text
unfolding decimal
argument i name = codes "argument " ++ decimal (i + 1) ++ codes " ('" ++ name ++ codes "')"

-- An argument without a type is not checked against one.
unfoldable pub require_type : Option Ty → Text → ℕ → Parameter → ℕ → Step
unfolding require type_to_string argument
require_type none behavior i p line s = s
require_type (some found) behavior i p line s =
    require (ty_beq found p.typ)
      (call_arg_type_mismatch behavior p.name (type_to_string p.typ) (type_to_string found)) line
      (some (argument i p.name)) s

unfoldable pub check_arg : Text → ℕ → Expr → Parameter → ℕ → Step
unfolding require_type require size_fits argument infer_expr_info
check_arg behavior i arg p line s =
    let info = infer_expr_info s.ctx.variables arg in
    require (size_fits p.typ info.size p.size)
      (call_arg_size_mismatch behavior p.name p.size info.size) line (some (argument i p.name))
      (require_type info.typ behavior i p line s)

-- The loop over the arguments with their parameters, until either ends.
unfoldable pub check_args : Text → ℕ → Exprs → List Parameter → ℕ → Step
unfolding check_arg
check_args behavior i (cons a more) (p ∷ ps) line s =
    check_args behavior (i + 1) more ps line (check_arg behavior i a p line s)
check_args behavior i _ _ line s = s

unfoldable pub validate_call_args : Text → Exprs → Contract → ℕ → Step
unfolding require check_args
validate_call_args behavior args callee line s = check_args behavior 0 args callee.inputs line (
    require (nat_beq (length callee.inputs) (count_args args))
      (call_arg_count_mismatch behavior (length callee.inputs) (count_args args)) line none s)

-- The behavior is known, or nothing is checked.
unfoldable pub validate_call : Text → Exprs → ℕ → Step
unfolding validate_call_args
validate_call behavior args line s = elim (lookup behavior s.ctx.dependency_contracts) [
  | some callee ↦ validate_call_args behavior args callee line s
  | none ↦ s
]

-- An argument that has a type has the type of the parameter, and its size fits.
abbrev pub HasType : Option Ty → Ty → Type 0
HasType none t = Unit
HasType (some found) t = found ≡ t

-- Bytes fit in a larger buffer, a string in any, and numbers have their exact size.
abbrev pub FitsIn : Ty → ℕ → ℕ → Type 0
FitsIn bytes size declared = size ≤ declared
FitsIn string size declared = Unit
FitsIn int size declared = size ≡ declared
FitsIn float size declared = size ≡ declared

abbrev pub Fits : Map Text VarInfo → Expr → Parameter → Type 0
Fits vars a p = HasType (type_of vars a) p.typ × FitsIn p.typ (size_of vars a) p.size

size_fits_iff : (t : Ty) (m n : ℕ) → (size_fits t m n ≡ true) ↔ FitsIn t m n
unfolding size_fits
size_fits_iff bytes m n = (λ h. ground (arith, h), λ h. ground (arith, h))
size_fits_iff string m n = (λ _. tt, λ _. refl)
size_fits_iff int m n = nat_beq_iff m n
size_fits_iff float m n = nat_beq_iff m n

abbrev pub AllFit : Map Text VarInfo → Exprs → List Parameter → Type 0
AllFit vars (cons a more) (p ∷ ps) = Fits vars a p × AllFit vars more ps
AllFit vars _ _ = Unit

abbrev pub Matches : Facts → Exprs → Option Contract → Type 0
Matches F args none = Unit
Matches F args (some callee) =
    (length callee.inputs ≡ count_args args) × AllFit F.variables args callee.inputs

require_type-Decides :
    (t : Option Ty) (behavior : Text) (i : ℕ) (p : Parameter) (line : ℕ) (s : State)
    → Decides s (require_type t behavior i p line s) (HasType t p.typ)
unfolding require_type
require_type-Decides none behavior i p line s = Decides-nothing s
require_type-Decides (some found) behavior i p line s =
    Decides-as
      (Decides-require (ty_beq found p.typ)
        (call_arg_type_mismatch behavior p.name (type_to_string p.typ) (type_to_string found)) line
        (some (argument i p.name)) s)
      (ty_beq_iff found p.typ)

check_arg-Decides :
    (behavior : Text) (i : ℕ) (a : Expr) (p : Parameter) (line : ℕ) (s : State)
    → Decides s (check_arg behavior i a p line s) (Fits s.ctx.variables a p)
unfolding check_arg
check_arg-Decides behavior i a p line s =
    let info = infer_expr_info s.ctx.variables a in
    let d : Decides s (check_arg behavior i a p line s)
        (HasType info.typ p.typ × FitsIn p.typ info.size p.size) =
      Decides-then (λ _. FitsIn p.typ info.size p.size)
        (require_type-Decides info.typ behavior i p line s)
        (Decides-as
          (Decides-require (size_fits p.typ info.size p.size)
            (call_arg_size_mismatch behavior p.name p.size info.size) line
            (some (argument i p.name)) (require_type info.typ behavior i p line s))
          (size_fits_iff p.typ info.size p.size)) in
    subst
      (λ (x : ExprInfo).
        Decides s (check_arg behavior i a p line s)
          (HasType x.typ p.typ × FitsIn p.typ x.size p.size))
      (infer_expr_info-meaning s.ctx.variables a) d

check_args-Decides :
    (behavior : Text) (i : ℕ) (args : Exprs) (ps : List Parameter) (line : ℕ) (s : State)
    → Decides s (check_args behavior i args ps line s) (AllFit s.ctx.variables args ps)
unfolding check_args
check_args-Decides behavior i nil ps line s = Decides-nothing s
check_args-Decides behavior i (cons a more) [] line s = Decides-nothing s
check_args-Decides behavior i (cons a more) (p ∷ ps) line s =
    Decides-then (λ F. AllFit F.variables more ps) (check_arg-Decides behavior i a p line s)
      (check_args-Decides behavior (i + 1) more ps line (check_arg behavior i a p line s))

pub validate_call-Decides :
    (behavior : Text) (args : Exprs) (line : ℕ) (s : State)
    → Decides s
        (validate_call behavior args line s)
        (Matches (facts s) args (lookup behavior (facts s).contracts))
unfolding validate_call validate_call_args
validate_call-Decides behavior args line s =
    elim (Option-cases (lookup behavior s.ctx.dependency_contracts)) [
      | inl unknown ↦ rw (unknown, validate_call) (Decides-nothing s)
      | inr (callee, known) ↦
          let counted = nat_beq (length callee.inputs) (count_args args) in
          let mismatch =
            call_arg_count_mismatch behavior (length callee.inputs) (count_args args) in
          rw (known, validate_call)
            (Decides-then (λ F. AllFit F.variables args callee.inputs)
              (Decides-as (Decides-require counted mismatch line none s)
                (nat_beq_iff (length callee.inputs) (count_args args)))
              (check_args-Decides behavior 0 args callee.inputs line
                (require counted mismatch line none s)))
    ]
