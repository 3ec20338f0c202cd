-- ===== src/Semantic/Statements/Steps.antt =====
-- What the steps of the statements decide.
use sigil_lang.Prelude.{
  ℕ, ◌≡◌, refl, sym, ◌∙◌, inl, inr, true, false, not, Option, none, some, ◌++◌, Text, text_eq,
  codes, lookup, nat_beq, nat_beq_iff, Bool, ||-true, &&-true, ◌↔◌, ◌⊎◌, arith, Option-cases,
  Bool-cases,
}
use mathlib.Core.Path.{subst}
use sigil_lang.Ast.{
  Ty, ty_beq, ty_beq_iff, bytes, string, Parameter, Expr, Exprs, nil, cons, Offset, no_offset,
  at_offset, NodeKind,
}
use sigil_lang.Graph.{debug_type}
use sigil_lang.Semantic.Errors.{
  undefined_variable, non_atomic_shared_access, output_size_mismatch, call_arg_type_mismatch,
  undefined_label, channel_send_type_mismatch,
}
use sigil_lang.Semantic.Context.{
  AnalysisContext, VarInfo, has_key, mark_output_written, add_spawn_borrow,
}
use sigil_lang.Semantic.Checks.{
  State, require, Facts, facts, validate_int_size, Decides, Decides-nothing, Decides-as,
  Decides-then, Decides-require,
}
use sigil_lang.Semantic.Values.{ExprInfo, infer_expr_info, type_to_string}
use sigil_lang.Semantic.Values.Meaning.{known, type_of, infer_expr_info-meaning}
use sigil_lang.Semantic.Bounds.{check_bounds, IsInBounds, check_bounds-Decides}
use sigil_lang.Semantic.Exprs.{validate_expr, validate_offset}
use sigil_lang.Semantic.Exprs.Valid.{IsIntSize, IsDefined, IsValid, IsValidOffset}
use sigil_lang.Semantic.Exprs.Steps.{validate_int_size-Decides}
use sigil_lang.Semantic.Exprs.Correct.{validate_expr-Decides, validate_offset-Decides}
use sigil_lang.Semantic.Statements.{
  borrow_args, borrow_for, note_write, mark_written, store_target, store_size, validate_store,
  require_name, can_set, set_type, validate_set, require_label, note_channel_op, send_type,
  channel_element, check_send, validate_send,
}
use sigil_lang.Semantic.Statements.Valid.{
  HasLabel, IsStorable, HasOutputSize, HasOutputType, HasElementType, IsValidStatement,
}

-- A step that only keeps books.
pub record IsQuiet (s s' : State) : Type 0 where
  pub kept : facts s' ≡ facts s
  pub same : s'.errors ≡ s.errors

pub Decides-quiet :
    {s s' s'' : State} {P : Type 0} → Decides s s' P → IsQuiet s' s'' → Decides s s'' P
Decides-quiet d q = record {
  kept = q.kept ∙ d.kept;
  exact = (λ h. d.exact.0 (sym q.same ∙ h), λ h. q.same ∙ d.exact.1 h);
}

pub quiet-Decides :
    {s s' s'' : State} (P : Facts → Type 0)
    → IsQuiet s s'
    → Decides s' s'' (P (facts s'))
    → Decides s s'' (P (facts s))
quiet-Decides P q d = record {
  kept = d.kept ∙ q.kept;
  exact = (
    λ h. let (clean, p) = d.exact.0 h in (sym q.same ∙ clean, subst P q.kept p),
    λ h. d.exact.1 (q.same ∙ h.0, subst P (sym q.kept) h.1),
  );
}

borrow_args-kept :
    (p : Text) (line : ℕ) (t : Text) (args : Exprs) (ctx : AnalysisContext) (s : State)
    → facts (record s { ctx = borrow_args p line t args ctx }) ≡ facts (record s { ctx = ctx })
unfolding borrow_args add_spawn_borrow
borrow_args-kept p line t nil ctx s = refl
borrow_args-kept p line t (cons (Expr.var x) more) ctx s =
    borrow_args-kept p line t more (add_spawn_borrow x p line t ctx) s
borrow_args-kept p line t (cons _ more) ctx s = borrow_args-kept p line t more ctx s

pub borrow_for-IsQuiet :
    (t : Text) (line : ℕ) (e : Expr) (s : State) → IsQuiet s (borrow_for t line e s)
unfolding borrow_for
borrow_for-IsQuiet t line (Expr.spawn p args) s = record {
  kept = borrow_args-kept p line t args s.ctx s;
  same = refl;
}
borrow_for-IsQuiet t line _ s = record { kept = refl; same = refl }

note_write-IsQuiet : (t : Text) (s : State) → IsQuiet s (note_write t s)
unfolding note_write
note_write-IsQuiet t s = record { kept = refl; same = refl }

mark_written-IsQuiet : (t : Text) (s : State) → IsQuiet s (mark_written t s)
unfolding mark_written mark_output_written
mark_written-IsQuiet t s = elim (Option-cases (lookup t s.ctx.outputs)) [
  | inl no_output ↦
      rw (no_output, mark_written, mark_output_written) (record { kept = refl; same = refl })
  | inr (p, is_output) ↦
      rw (is_output, mark_written, mark_output_written) (record { kept = refl; same = refl })
]

note_channel_op-IsQuiet : (s : State) → IsQuiet s (note_channel_op s)
unfolding note_channel_op
note_channel_op-IsQuiet s = record { kept = refl; same = refl }

not_iff : (b : Bool) → (not b ≡ true) ↔ (b ≡ false)
not_iff true = (λ h. cc, λ h. cc)
not_iff false = (λ _. refl, λ _. refl)

store_target-Decides :
    (t : Text) (line : ℕ) (v : Option VarInfo) (s : State)
    → Decides s (store_target t line v s) (IsStorable v)
unfolding store_target require
store_target-Decides t line none s =
    Decides-require false (undefined_variable t) line (some (codes "STORE target")) s
store_target-Decides t line (some v) s =
    Decides-as
      (Decides-require (not v.shared) (non_atomic_shared_access t (codes "STORE")) line
        (some (codes "use ATOMIC_STORE for SHARED handles")) s)
      (not_iff v.shared)

store_size-Decides :
    (t : Text) (n line : ℕ) (o : Offset) (p : Option Parameter) (s : State)
    → Decides s (store_size t n line o p s) (HasOutputSize n o p)
unfolding store_size
store_size-Decides t n line no_offset (some p) s =
    Decides-as (Decides-require (nat_beq n p.size) (output_size_mismatch t p.size n) line none s)
      (nat_beq_iff n p.size)
store_size-Decides t n line no_offset none s = Decides-nothing s
store_size-Decides t n line (at_offset e) p s = Decides-nothing s

pub validate_store-Decides :
    (t : Text) (v : Expr) (n : ℕ) (o : Offset) (line : ℕ) (s : State)
    → Decides s
        (validate_store t v n o line s)
        (IsValidStatement (NodeKind.store t v n o) (facts s))
unfolding validate_store IsValidStatement
validate_store-Decides t v n o line s =
    let s0 = note_write t s in
    let s1 = store_target t line (lookup t s.ctx.variables) s0 in
    let s2 = validate_offset o (validate_expr v s1) in
    let s3 = validate_int_size n line (codes "STORE") s2 in
    let s4 = check_bounds t n o line (codes "STORE") s3 in
    quiet-Decides (IsValidStatement (NodeKind.store t v n o)) (note_write-IsQuiet t s) (
      Decides-quiet
        (Decides-then (λ F. HasOutputSize n o (lookup t F.outputs))
          (Decides-then (λ F. IsInBounds F t n o)
            (Decides-then (λ _. IsIntSize n)
              (Decides-then (λ F. IsValidOffset F o)
                (Decides-then (λ F. IsValid F v)
                  (store_target-Decides t line (lookup t s.ctx.variables) s0)
                  (validate_expr-Decides v s1))
                (validate_offset-Decides o (validate_expr v s1)))
              (validate_int_size-Decides n line (codes "STORE") s2))
            (check_bounds-Decides t n o line (codes "STORE") s3))
          (store_size-Decides t n line o (lookup t s4.ctx.outputs) s4))
        (mark_written-IsQuiet t (store_size t n line o (lookup t s4.ctx.outputs) s4)))

pub require_name-Decides :
    (x : Text) (line : ℕ) (context : Text) (s : State)
    → Decides s (require_name x line context s) (IsDefined (facts s) x)
unfolding require_name
require_name-Decides x line context s =
    Decides-require (has_key x s.ctx.variables) (undefined_variable x) line (some context) s

can_set_iff :
    (found declared : Ty)
    → (can_set found declared ≡ true)
      ↔ ((found ≡ declared) ⊎ ((declared ≡ string) × (found ≡ bytes)))
can_set_iff found declared =
    let same = ty_beq_iff found declared in
    let a_string = ty_beq_iff declared string in
    let some_bytes = ty_beq_iff found bytes in
    (
      λ h. elim (||-true (ty_beq found declared) _ h) [
        | inl e ↦ inl (same.0 e)
        | inr e ↦
            let (x, y) = &&-true (ty_beq declared string) (ty_beq found bytes) e in
            inr (a_string.0 x, some_bytes.0 y)
      ],
      elim [
        | inl e ↦ ground (arith, same.1 e)
        | inr (x, y) ↦ ground (arith, a_string.1 x, some_bytes.1 y)
      ],
    )

set_type-Decides :
    (t : Text) (line : ℕ) (found : Option Ty) (p : Option Parameter) (s : State)
    → Decides s (set_type t line found p s) (HasOutputType found p)
unfolding set_type
set_type-Decides t line (some found) (some p) s =
    Decides-as
      (Decides-require (can_set found p.typ)
        (call_arg_type_mismatch (codes "SET") t (type_to_string p.typ) (type_to_string found)) line
        (some (codes "output '" ++ t ++ codes "' type mismatch")) s)
      (can_set_iff found p.typ)
set_type-Decides t line (some found) none s = Decides-nothing s
set_type-Decides t line none p s = Decides-nothing s

pub validate_set-Decides :
    (t : Text) (v : Expr) (line : ℕ) (s : State)
    → Decides s (validate_set t v line s) (IsValidStatement (NodeKind.set t v) (facts s))
unfolding validate_set IsValidStatement
validate_set-Decides t v line s =
    let s1 = require_name t line (codes "SET target") s in
    let s2 = validate_expr v s1 in
    let found = (infer_expr_info s2.ctx.variables v).typ in
    Decides-quiet
      (Decides-then (λ F. HasOutputType (type_of F.variables v) (lookup t F.outputs))
        (Decides-then (λ F. IsValid F v) (require_name-Decides t line (codes "SET target") s)
          (validate_expr-Decides v s1))
        (subst
          (λ (x : ExprInfo).
            Decides s2 (set_type t line found (lookup t s2.ctx.outputs) s2)
              (HasOutputType x.typ (lookup t s2.ctx.outputs)))
          (infer_expr_info-meaning s2.ctx.variables v)
          (set_type-Decides t line found (lookup t s2.ctx.outputs) s2)))
      (mark_written-IsQuiet t (set_type t line found (lookup t s2.ctx.outputs) s2))

pub require_label-Decides :
    (l : Text) (line : ℕ) (context : Text) (s : State)
    → Decides s (require_label l line context s) (HasLabel (facts s) l)
unfolding require_label
require_label-Decides l line context s =
    Decides-require (has_key l s.ctx.labels) (undefined_label l) line (some context) s

send_type-Decides :
    (c : Text) (line : ℕ) (expected found : Option Ty) (s : State)
    → Decides s (send_type c line expected found s) (HasElementType expected found)
unfolding send_type
send_type-Decides c line (some expected) (some found) s =
    Decides-as
      (Decides-require (ty_beq found expected)
        (channel_send_type_mismatch c (debug_type expected) (debug_type found)) line
        (some (codes "Per Section 14.5: Channel send type must match declaration")) s)
      (ty_beq_iff found expected)
send_type-Decides c line (some expected) none s = Decides-nothing s
send_type-Decides c line none found s = Decides-nothing s

channel_element-known : (o : Option VarInfo) → channel_element o ≡ (known o).channel_element_type
unfolding channel_element
channel_element-known none = refl
channel_element-known (some v) = refl

check_send-Decides :
    (c : Text) (v : Expr) (line : ℕ) (s : State)
    → Decides s (check_send c v line s) (
        IsValid (facts s) v
        × HasElementType
            (known (lookup c s.ctx.variables)).channel_element_type
            (type_of s.ctx.variables v))
unfolding check_send
check_send-Decides c v line s =
    let t = validate_expr v s in
    let expected = channel_element (lookup c t.ctx.variables) in
    let found = (infer_expr_info t.ctx.variables v).typ in
    Decides-then
      (λ F.
        HasElementType (known (lookup c F.variables)).channel_element_type (type_of F.variables v))
      (validate_expr-Decides v s)
      (subst
        (λ (x : ExprInfo).
          Decides t (send_type c line expected found t)
            (HasElementType (known (lookup c t.ctx.variables)).channel_element_type x.typ))
        (infer_expr_info-meaning t.ctx.variables v)
        (subst
          (λ (o : Option Ty).
            Decides t (send_type c line expected found t) (HasElementType o found))
          (channel_element-known (lookup c t.ctx.variables))
          (send_type-Decides c line expected found t)))

pub validate_send-Decides :
    (c : Text) (v : Expr) (line : ℕ) (s : State)
    → Decides s
        (validate_send c v line (note_channel_op s))
        (IsValidStatement (NodeKind.channel_send c v) (facts s))
unfolding validate_send IsValidStatement
validate_send-Decides c v line s =
    quiet-Decides (IsValidStatement (NodeKind.channel_send c v)) (note_channel_op-IsQuiet s)
      (elim (Bool-cases (has_key c t.ctx.variables)) [
        | inl known ↦
            rw (known, validate_send)
              (Decides-as (check_send-Decides c v line t) (λ h. (refl, h), λ h. h.1))
        | inr unknown ↦
            rw (unknown, validate_send)
              (Decides-as (require_name-Decides c line (codes "CHANNEL_SEND") t)
                (λ h. absurd (cc (unknown, h)), λ h. absurd (cc (h.0))))
      ])
  where
    t : State
    t = note_channel_op s

pub channel_close-Decides :
    (c : Text) (line : ℕ) (s : State)
    → Decides s
        (require_name c line (codes "CHANNEL_CLOSE") (note_channel_op s))
        (IsDefined (facts s) c)
channel_close-Decides c line s =
    quiet-Decides (λ F. IsDefined F c) (note_channel_op-IsQuiet s)
      (require_name-Decides c line (codes "CHANNEL_CLOSE") (note_channel_op s))
