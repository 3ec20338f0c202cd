-- ===== src/Semantic/Values/Meaning.antt =====
-- compiler/src/semantic/mod.rs: what an expression is as a value, told apart from how
-- `infer_expr_info` works it out.
use sigil_lang.Prelude.{
  ℕ, ◌+◌, ◌≡◌, refl, inl, inr, Bool, false, Option, none, some, Text, text_eq, Map, lookup, length,
  Option-cases,
}
use native.Mathlib.Omega.{arith}
use sigil_lang.Chars.{utf8}
use sigil_lang.Ast.{Ty, int, float, string, Expr}
use sigil_lang.Semantic.Context.{VarOrigin, HandleState, owned, not_a_handle, VarInfo}
use sigil_lang.Semantic.Values.{
  ExprInfo, try_eval_const, variable_info, alloc_info, receive_info, infer_expr_info,
}

-- What a channel gives, if that is known, or an integer.
abbrev pub received_type : Option VarInfo → Ty
received_type none = int
received_type (some v) = elim v.channel_element_type [ some t ↦ t | none ↦ int ]

-- What is known of a variable; without a definition, that it was computed.
abbrev pub known : Option VarInfo → VarInfo
known (some v) = v
known none = record {
  typ = none;
  size = 8;
  initialized = false;
  origin = VarOrigin.computed;
  state = not_a_handle;
  shared = false;
  channel_element_type = none;
}

-- The type of an expression, if it has one: a variable has what is known of it, the result of a call
-- has none, what a channel gives has its element type; comparisons and all else are integers.
abbrev pub type_of : Map Text VarInfo → Expr → Option Ty
type_of vars (Expr.var x) = (known (lookup x vars)).typ
type_of vars (Expr.field _ _) = none
type_of vars (Expr.call _ _) = none
type_of vars (Expr.alloc _ t _) = some t
type_of vars (Expr.channel_receive c) = some (received_type (lookup c vars))
type_of vars (Expr.string_lit _) = some string
type_of vars (Expr.float_lit _) = some float
type_of vars (Expr.fadd _ _ _) = some float
type_of vars (Expr.fsub _ _ _) = some float
type_of vars (Expr.fmul _ _ _) = some float
type_of vars (Expr.fdiv _ _ _) = some float
type_of vars (Expr.fneg _ _) = some float
type_of vars (Expr.itof _ _ _) = some float
type_of vars _ = some int

-- The constant, or 8 where there is none.
abbrev pub constant_or_8 : Option ℕ → ℕ
constant_or_8 none = 8
constant_or_8 (some n) = n

-- The size of an expression: its own where it is written with one, of an allocation the constant if
-- there is one, of a string its bytes and a length; comparisons and all else have 8.
abbrev pub size_of : Map Text VarInfo → Expr → ℕ
size_of vars (Expr.var x) = (known (lookup x vars)).size
size_of vars (Expr.string_lit s) = 8 + length (utf8 s)
size_of vars (Expr.alloc e _ _) = constant_or_8 (try_eval_const e)
size_of vars (Expr.load _ n _) = n
size_of vars (Expr.atomic_load _ n) = n
size_of vars (Expr.atomic_store _ _ n) = n
size_of vars (Expr.atomic_add _ _ n) = n
size_of vars (Expr.atomic_sub _ _ n) = n
size_of vars (Expr.cas _ _ _ n) = n
size_of vars (Expr.iadd _ _ n) = n
size_of vars (Expr.isub _ _ n) = n
size_of vars (Expr.imul _ _ n) = n
size_of vars (Expr.idiv _ _ n) = n
size_of vars (Expr.imod _ _ n) = n
size_of vars (Expr.ineg _ n) = n
size_of vars (Expr.and _ _ n) = n
size_of vars (Expr.or _ _ n) = n
size_of vars (Expr.xor _ _ n) = n
size_of vars (Expr.shl _ _ n) = n
size_of vars (Expr.shr _ _ n) = n
size_of vars (Expr.sar _ _ n) = n
size_of vars (Expr.not _ n) = n
size_of vars (Expr.fadd _ _ n) = n
size_of vars (Expr.fsub _ _ n) = n
size_of vars (Expr.fmul _ _ n) = n
size_of vars (Expr.fdiv _ _ n) = n
size_of vars (Expr.fneg _ n) = n
size_of vars (Expr.ftoi _ _ n) = n
size_of vars (Expr.itof _ _ n) = n
size_of vars _ = 8

-- Where a value comes from, whether the behavior owns it, and whether it is shared.
abbrev pub origin_of : Map Text VarInfo → Expr → VarOrigin
origin_of vars (Expr.var x) = (known (lookup x vars)).origin
origin_of vars (Expr.alloc e _ _) = VarOrigin.alloc (try_eval_const e)
origin_of vars (Expr.call _ _) = VarOrigin.call_result none
origin_of vars (Expr.load _ _ _) = VarOrigin.load_result
origin_of vars (Expr.atomic_load _ _) = VarOrigin.load_result
origin_of vars _ = VarOrigin.computed

abbrev pub state_of : Map Text VarInfo → Expr → HandleState
state_of vars (Expr.var x) = (known (lookup x vars)).state
state_of vars (Expr.alloc _ _ _) = owned
state_of vars (Expr.spawn _ _) = owned
state_of vars (Expr.channel _ _) = owned
state_of vars _ = not_a_handle

abbrev pub is_shared_of : Map Text VarInfo → Expr → Bool
is_shared_of vars (Expr.var x) = (known (lookup x vars)).shared
is_shared_of vars (Expr.alloc _ _ shared) = shared
is_shared_of vars _ = false

abbrev pub meaning : Map Text VarInfo → Expr → ExprInfo
meaning vars e = record {
  typ = type_of vars e;
  size = size_of vars e;
  origin = origin_of vars e;
  state = state_of vars e;
  shared = is_shared_of vars e;
}

variable_info-meaning :
    (vars : Map Text VarInfo) (x : Text)
    → infer_expr_info vars (Expr.var x) ≡ meaning vars (Expr.var x)
unfolding infer_expr_info variable_info
variable_info-meaning vars x = go (lookup x vars)
  where
    go :
        (o : Option VarInfo)
        → variable_info o ≡ record {
          typ = (known o).typ;
          size = (known o).size;
          origin = (known o).origin;
          state = (known o).state;
          shared = (known o).shared;
        }
    go none = refl
    go (some v) = refl

alloc_info-meaning :
    (vars : Map Text VarInfo) (e : Expr) (t : Ty) (shared : Bool)
    → infer_expr_info vars (Expr.alloc e t shared) ≡ meaning vars (Expr.alloc e t shared)
unfolding infer_expr_info alloc_info
alloc_info-meaning vars e t shared = elim (Option-cases (try_eval_const e)) [
  | inl unknown ↦ rw (unknown, infer_expr_info, alloc_info) refl
  | inr (n, known) ↦ rw (known, infer_expr_info, alloc_info) refl
]

receive_info-meaning :
    (vars : Map Text VarInfo) (c : Text)
    → infer_expr_info vars (Expr.channel_receive c) ≡ meaning vars (Expr.channel_receive c)
unfolding infer_expr_info receive_info
receive_info-meaning vars c = elim (Option-cases (lookup c vars)) [
  | inl missing ↦ rw (missing, infer_expr_info, receive_info) refl
  | inr (v, found) ↦ elim (Option-cases v.channel_element_type) [
    | inl untyped ↦ rw (found, untyped, infer_expr_info, receive_info) refl
    | inr (t, typed) ↦ rw (found, typed, infer_expr_info, receive_info) refl
  ]
]

pub infer_expr_info-meaning :
    (vars : Map Text VarInfo) (e : Expr) → infer_expr_info vars e ≡ meaning vars e
unfolding infer_expr_info
infer_expr_info-meaning vars (Expr.var x) = variable_info-meaning vars x
infer_expr_info-meaning vars (Expr.alloc e t shared) = alloc_info-meaning vars e t shared
infer_expr_info-meaning vars (Expr.channel_receive c) = receive_info-meaning vars c
infer_expr_info-meaning vars (Expr.string_lit s) =
    let e : length (utf8 s) + 8 ≡ 8 + length (utf8 s) = omega arith in rw e refl
infer_expr_info-meaning vars e = refl
