-- ===== src/Semantic/Bounds.antt =====
-- compiler/src/semantic/mod.rs: the checks of operands and of the bounds of an access.
use sigil_lang.Prelude.{
  ℕ, ◌+◌, ◌-◌, ◌^◌, ◌≡◌, refl, true, false, Option, none, some, [], ◌∷◌, ◌++◌, Text, text_eq, codes,
  Map, lookup, leb, if◌then◌else◌, Option-cases, ◌≤◌, ◌⊎◌, ◌↔◌, ap, inl, inr,
}
use mathlib.Core.Option.{some-injective}
use native.Mathlib.Omega.{arith}
use sigil_lang.Decimal.{decimal}
use sigil_lang.Ast.{Expr, Offset, no_offset, at_offset}
use sigil_lang.Semantic.Errors.{possible_bounds_violation, handle_used_as_value}
use sigil_lang.Semantic.Context.{VarOrigin, VarInfo, allocated_size}
use sigil_lang.Semantic.Checks.{
  State, Step, push_error, require, Facts, facts, Decides, Decides-require, Decides-as,
  Decides-nothing,
}
use sigil_lang.Semantic.Values.{try_eval_const, operand_handle_kind, operand_name}
use sigil_lang.Semantic.Values.Operands.{
  IsValue, operand_handle_kind_iff, IsConst, IsConst-try_eval_const, try_eval_const-IsConst,
}

unfoldable pub check_value_operand : Expr → Text → Step
unfolding operand_handle_kind operand_name
check_value_operand e op s = elim (operand_handle_kind s.ctx.variables e) [
  | some kind ↦ push_error (handle_used_as_value (operand_name e) kind op) s.ctx.current_line none s
  | none ↦ s
]

-- `usize::saturating_add`.
abbrev pub saturating_add : ℕ → ℕ → ℕ
saturating_add a b = if leb (a + b) (2 ^ 64 - 1) then a + b else 2 ^ 64 - 1

-- The size of the allocation behind a name, if it is known.
unfoldable pub size_behind : Map Text VarInfo → Text → Option ℕ
unfolding allocated_size
size_behind vars handle = elim (lookup handle vars) [ some v ↦ allocated_size v | none ↦ none ]

unfoldable pub known_offset : Offset → Option ℕ
unfolding try_eval_const
known_offset no_offset = some 0
known_offset (at_offset e) = try_eval_const e

unfoldable pub dynamic_offset : Text → Text → ℕ → Step
dynamic_offset operation handle line s = record s {
  warnings =
      s.warnings
      ++ (record {
        message =
            operation
            ++ codes " with dynamic offset on '"
            ++ handle
            ++ codes "': bounds cannot be verified at compile time";
        line = line;
      }
          ∷ []);
}

unfoldable pub bounds_context : Text → ℕ → ℕ → ℕ → Text
unfolding decimal
bounds_context operation start finish size =
    operation
    ++ codes ": access at ["
    ++ decimal start
    ++ codes ":"
    ++ decimal finish
    ++ codes "] exceeds allocation size "
    ++ decimal size

-- Without the size of the allocation nothing is checked; an offset that is not constant is warned of.
unfoldable pub check_bounds : Text → ℕ → Offset → ℕ → Text → Step
unfolding size_behind known_offset dynamic_offset require bounds_context
check_bounds handle access offset line operation s = elim (size_behind s.ctx.variables handle) [
  | none ↦ s
  | some size ↦ elim (known_offset offset) [
    | none ↦ dynamic_offset operation handle line s
    | some start ↦
        require (leb (saturating_add start access) size)
          (possible_bounds_violation handle start access) line
          (some (bounds_context operation start (saturating_add start access) size)) s
  ]
]

-- The size that is known of an allocation from where it comes.
abbrev pub HasSize : VarOrigin → ℕ → Type 0
HasSize (VarOrigin.input declared) n = declared ≡ n
HasSize (VarOrigin.output declared) n = declared ≡ n
HasSize (VarOrigin.alloc size) n = size ≡ some n
HasSize (VarOrigin.call_result total) n = total ≡ some n
HasSize _ n = false ≡ true

abbrev pub StartsAt : Offset → ℕ → Type 0
StartsAt no_offset n = 0 ≡ n
StartsAt (at_offset e) n = IsConst e n

-- Where the size and the offset are known, the access ends within the allocation, or that has all
-- of the address space.
abbrev pub IsInBounds : Facts → Text → ℕ → Offset → Type 0
IsInBounds F handle access offset =
    (v : VarInfo) (size start : ℕ)
    → lookup handle F.variables ≡ some v
    → HasSize v.origin size
    → StartsAt offset start
    → (start + access ≤ size) ⊎ (2 ^ 64 ≤ size + 1)

allocated_size_iff : (v : VarInfo) (n : ℕ) → (allocated_size v ≡ some n) ↔ HasSize v.origin n
unfolding allocated_size
allocated_size_iff v n = go v.origin
  where
    go : (o : VarOrigin) → (allocated_size (record v { origin = o }) ≡ some n) ↔ HasSize o n
    go (VarOrigin.input d) = (λ h. some-injective d n h, λ h. ap some h)
    go (VarOrigin.output d) = (λ h. some-injective d n h, λ h. ap some h)
    go (VarOrigin.alloc d) = (λ h. h, λ h. h)
    go (VarOrigin.call_result d) = (λ h. h, λ h. h)
    go VarOrigin.load_result = (λ h. absurd (cc (h)), λ h. absurd (cc (h)))
    go VarOrigin.computed = (λ h. absurd (cc (h)), λ h. absurd (cc (h)))

known_offset_iff : (o : Offset) (n : ℕ) → (known_offset o ≡ some n) ↔ StartsAt o n
unfolding known_offset
known_offset_iff no_offset n = (λ h. some-injective 0 n h, λ h. ap some h)
known_offset_iff (at_offset e) n = (try_eval_const-IsConst e n, IsConst-try_eval_const)

-- The test of the code in terms of its helpers.
abbrev PassesTest : Map Text VarInfo → Text → ℕ → Offset → Type 0
PassesTest vars handle access offset =
    (size start : ℕ)
    → size_behind vars handle ≡ some size
    → known_offset offset ≡ some start
    → leb (saturating_add start access) size ≡ true

saturating_iff :
    (start access size : ℕ)
    → (leb (saturating_add start access) size ≡ true)
      ↔ ((start + access ≤ size) ⊎ (2 ^ 64 ≤ size + 1))
saturating_iff start access size =
    (λ h. ground (arith, h), elim [ inl h ↦ ground (arith, h) | inr h ↦ ground (arith, h) ])

bounds_iff :
    (F : Facts) (handle : Text) (access : ℕ) (offset : Offset)
    → PassesTest F.variables handle access offset ↔ IsInBounds F handle access offset
unfolding size_behind
bounds_iff F handle access offset = (
  λ test v size start is_v has_size starts. (saturating_iff start access size).0 (
      test size start (rw (is_v, size_behind) ((allocated_size_iff v size).1 has_size))
        ((known_offset_iff offset start).1 starts)),
  λ inside size start is_size is_start. elim (Option-cases (lookup handle F.variables)) [
    | inl missing ↦ absurd (cc (rw (missing, size_behind) at is_size))
    | inr (v, is_v) ↦ (saturating_iff start access size).1 (
        inside v size start is_v ((allocated_size_iff v size).0 (rw (is_v, size_behind) at is_size))
          ((known_offset_iff offset start).0 is_start))
  ],
)

test-Decides :
    (handle : Text) (access : ℕ) (offset : Offset) (line : ℕ) (operation : Text) (s : State)
    → Decides s
        (check_bounds handle access offset line operation s)
        (PassesTest s.ctx.variables handle access offset)
unfolding check_bounds dynamic_offset
test-Decides handle access offset line operation s =
    elim (Option-cases (size_behind s.ctx.variables handle)) [
      | inl no_size ↦
          rw (no_size, check_bounds)
            (Decides-as (Decides-nothing s) (λ _ size start h. absurd (cc (h)), λ _. tt))
      | inr (size, is_size) ↦ elim (Option-cases (known_offset offset)) [
        | inl dynamic ↦
            rw (is_size, dynamic, check_bounds)
              (record {
                kept = refl;
                exact = (λ h. (h, λ size start a b. absurd (cc (b))), λ h. h.0);
              })
        | inr (start, is_start) ↦
            rw (is_size, is_start, check_bounds)
              (Decides-as
                (Decides-require (leb (saturating_add start access) size)
                  (possible_bounds_violation handle start access) line
                  (some (bounds_context operation start (saturating_add start access) size)) s)
                (λ h size' start' a b. cc (h, a, b), λ h. h size start refl refl))
      ]
    ]

pub check_bounds-Decides :
    (handle : Text) (access : ℕ) (offset : Offset) (line : ℕ) (operation : Text) (s : State)
    → Decides s
        (check_bounds handle access offset line operation s)
        (IsInBounds (facts s) handle access offset)
check_bounds-Decides handle access offset line operation s =
    Decides-as (test-Decides handle access offset line operation s)
      (bounds_iff (facts s) handle access offset)

no_handle-Decides :
    (e : Expr) (op : Text) (s : State)
    → Decides s (check_value_operand e op s) (operand_handle_kind s.ctx.variables e ≡ none)
unfolding check_value_operand require
no_handle-Decides e op s = elim (Option-cases (operand_handle_kind s.ctx.variables e)) [
  | inl value ↦
      rw (value, check_value_operand) (Decides-as (Decides-nothing s) (λ _. refl, λ _. tt))
  | inr (kind, is_kind) ↦
      rw (is_kind, check_value_operand)
        (Decides-as
          (Decides-require false (handle_used_as_value (operand_name e) kind op) s.ctx.current_line
            none s)
          (λ h. absurd (cc), λ h. absurd (cc (h))))
]

pub check_value_operand-Decides :
    (e : Expr) (op : Text) (s : State)
    → Decides s (check_value_operand e op s) (IsValue s.ctx.variables e)
check_value_operand-Decides e op s =
    Decides-as (no_handle-Decides e op s) (operand_handle_kind_iff s.ctx.variables e)
