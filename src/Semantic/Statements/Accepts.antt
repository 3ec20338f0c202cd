-- ===== src/Semantic/Statements/Accepts.antt =====
-- What a step of the linear pass leaves known, and what holds if it reports nothing.
use sigil_lang.Prelude.{
  ℕ, ◌≡◌, refl, sym, ap, ◌∙◌, Option, none, some, List, [], ◌∷◌, Text, text_eq, codes, lookup,
}
use mathlib.Core.Path.{subst}
use sigil_lang.Ast.{Ty, Parameter, Contract, Expr, node, NodeKind, Nodes, end, next}
use sigil_lang.Semantic.Errors.{SemanticError}
use sigil_lang.Semantic.Context.{
  VarInfo, HandleState, owned, borrowed, freed, not_a_handle, ActiveBorrow, get_active_borrow,
  define_var,
}
use sigil_lang.Semantic.Checks.{State, Facts, facts, Decides, Decides-then}
use native.Mathlib.Nat.{mod-add-mod}
use sigil_lang.Semantic.Values.{ExprInfo, infer_expr_info}
use sigil_lang.Semantic.Values.Meaning.{meaning, infer_expr_info-meaning}
use sigil_lang.Semantic.Calls.{Matches, validate_call, validate_call-Decides}
use sigil_lang.Semantic.Exprs.{validate_expr, validate_args}
use sigil_lang.Semantic.Exprs.Valid.{IsValid}
use sigil_lang.Semantic.Exprs.Correct.{validate_expr-Decides, validate_args-Decides}
use sigil_lang.Semantic.Statements.{
  element_type, assigned, sum_sizes, total_size, call_result, define, validate_assignment,
  require_label, define_result, check_borrow, check_free, validate_free, enter_scope,
  leave_scope_of, at_line, validate_nodes, validate_node,
}
use mathlib.Core.List.{◌++◌}
use sigil_lang.Prelude.{◌+◌, ◌%◌, ◌^◌, Map, arith, append-nil_iff}
use sigil_lang.Semantic.Statements.Valid.{
  HasLabel, IsOwned, MayFree, sizes, result_of, element_of, variable_of, with_variable, with_result,
  after, after_all, IsValidStatement, AreValidStatements,
}
use sigil_lang.Semantic.Statements.Steps.{
  borrow_for-IsQuiet, validate_store-Decides, validate_set-Decides, require_label-Decides,
  validate_send-Decides, channel_close-Decides,
}

-- The facts after a step, and what holds if it reports nothing.
pub record Accepts (s s' : State) (F : Facts) (P : Type 0) : Type 0 where
  pub known : facts s' ≡ F
  pub clean : s'.errors ≡ [] → (s.errors ≡ []) × P

Accepts-of :
    {s s' s'' : State} {P : Type 0} (G : Facts → Facts)
    → Decides s s' P
    → facts s'' ≡ G (facts s')
    → s''.errors ≡ s'.errors
    → Accepts s s'' (G (facts s)) P
Accepts-of G d known same = record {
  known = known ∙ ap G d.kept;
  clean = λ h. d.exact.0 (sym same ∙ h);
}

Accepts-then :
    {s s' s'' : State} {P : Type 0} {F : Facts} (G : Facts → Facts) (Q : Facts → Type 0)
    → Accepts s s' F P
    → Accepts s' s'' (G (facts s')) (Q (facts s'))
    → Accepts s s'' (G F) (P × Q F)
Accepts-then G Q first second = record {
  known = second.known ∙ ap G first.known;
  clean = λ h.
      let (middle, q) = second.clean h in
      let (start, p) = first.clean middle in (start, (p, subst Q first.known q));
}

-- An error was pushed.
rejected :
    {P : Type 0} (s : State) (errors : List SemanticError) (e : SemanticError)
    → errors ++ (e ∷ []) ≡ []
    → (s.errors ≡ []) × P
rejected s errors e h = absurd (cc ((append-nil_iff errors (e ∷ [])).0 h).1)

check_borrow-Accepts :
    (x : Text) (line : ℕ) (b : Option ActiveBorrow) (s : State) (P : Type 0)
    → P
    → Accepts s (check_borrow x line b s) (facts s) P
unfolding check_borrow
check_borrow-Accepts x line none s P p = record { known = refl; clean = λ h. (h, p) }
check_borrow-Accepts x line (some b) s P p = record {
  known = refl;
  clean = λ h. rejected s s.errors _ h;
}

validate_free-Accepts :
    (x : Text) (line : ℕ) (v : Option VarInfo) (s : State)
    → Accepts s (validate_free x line v s) (facts s) (MayFree v)
unfolding validate_free check_free
validate_free-Accepts x line none s = record { known = refl; clean = λ h. rejected s s.errors _ h }
validate_free-Accepts x line (some v) s = go v.state
  where
    go : (t : HandleState) → Accepts s (check_free x line t s) (facts s) (IsOwned t)
    go owned = check_borrow-Accepts x line (get_active_borrow x s.ctx) s Unit tt
    go borrowed = record { known = refl; clean = λ h. rejected s s.errors _ h }
    go (freed n) = record { known = refl; clean = λ h. (h, tt) }
    go not_a_handle = record { known = refl; clean = λ h. rejected s s.errors _ h }

sum_sizes-sizes : (ps : List Parameter) → sum_sizes ps ≡ sizes ps % 2 ^ 64
unfolding sum_sizes
sum_sizes-sizes [] = refl
sum_sizes-sizes (p ∷ ps) =
    let e : p.size + sum_sizes ps ≡ sizes ps % 2 ^ 64 + p.size =
      omega (arith, sum_sizes-sizes ps) in
    let f : sizes ps + p.size ≡ p.size + sizes ps = omega arith in
    ap (λ (n : ℕ). n % 2 ^ 64) e
    ∙ mod-add-mod (sizes ps) (2 ^ 64) p.size
    ∙ ap (λ (n : ℕ). n % 2 ^ 64) f

call_result-result_of : (c : Option Contract) → call_result c ≡ result_of c
unfolding total_size
call_result-result_of none = refl
call_result-result_of (some c) = rw (sum_sizes-sizes c.outputs) refl

assigned-variable_of :
    (vars : Map Text VarInfo) (e : Expr)
    → assigned (infer_expr_info vars e) (element_type e) ≡ variable_of vars e
unfolding assigned
assigned-variable_of vars e =
    ap (λ (x : ExprInfo). assigned x (element_type e)) (infer_expr_info-meaning vars e)
    ∙ ap (λ (o : Option Ty). assigned (meaning vars e) o) (element e)
  where
    element : (a : Expr) → element_type a ≡ element_of a
    element (Expr.channel t n) = refl
    element a = refl

define_result-facts :
    (t : Option Text) (behavior : Text) (s : State)
    → (facts (define_result t behavior s) ≡ with_result t behavior (facts s))
      × ((define_result t behavior s).errors ≡ s.errors)
unfolding define_result define define_var
define_result-facts none behavior s = (refl, refl)
define_result-facts (some t) behavior s = (
  ap (λ (v : VarInfo). with_variable t v (facts s))
      (call_result-result_of (lookup behavior s.ctx.dependency_contracts)),
  refl,
)

validate_assignment-Accepts :
    (t : Text) (e : Expr) (line : ℕ) (s : State)
    → Accepts s
        (validate_assignment t e line s)
        (with_variable t (variable_of s.ctx.variables e) (facts s))
        (IsValid (facts s) e)
unfolding validate_assignment define define_var
validate_assignment-Accepts t e line s =
    let s1 = validate_expr e s in
    let s2 = define t (assigned (infer_expr_info s1.ctx.variables e) (element_type e)) s1 in
    let quiet = borrow_for-IsQuiet t line e s2 in
    Accepts-of (λ F. with_variable t (variable_of F.variables e) F) (validate_expr-Decides e s)
      (quiet.kept
        ∙ ap (λ (v : VarInfo). with_variable t v (facts s1))
            (assigned-variable_of s1.ctx.variables e))
      quiet.same

same_facts : {s s' : State} {P : Type 0} → Decides s s' P → Accepts s s' (facts s) P
same_facts d = Accepts-of (λ F. F) d refl refl

mutual
  unfolding validate_nodes after IsValidStatement enter_scope leave_scope_of at_line

  validate_node-Accepts :
      (line : ℕ) (k : NodeKind) (s : State)
      → Accepts s (validate_node line k s) (after k (facts s)) (IsValidStatement k (facts s))
  validate_node-Accepts line (NodeKind.assignment t e) s = validate_assignment-Accepts t e line s
  validate_node-Accepts line (NodeKind.store t v n o) s =
      same_facts (validate_store-Decides t v n o line s)
  validate_node-Accepts line (NodeKind.set t v) s = same_facts (validate_set-Decides t v line s)
  validate_node-Accepts line (NodeKind.branch c t f) s =
      let s1 = validate_expr c s in
      let s2 = require_label t line (codes "BRANCH true target") s1 in
      same_facts (
        Decides-then (λ F. HasLabel F f)
          (Decides-then (λ F. HasLabel F t) (validate_expr-Decides c s)
            (require_label-Decides t line (codes "BRANCH true target") s1))
          (require_label-Decides f line (codes "BRANCH false target") s2))
  validate_node-Accepts line (NodeKind.jump l) s =
      same_facts (require_label-Decides l line (codes "JUMP target") s)
  validate_node-Accepts line (NodeKind.call_node t behavior args outputs) s =
      let s1 = validate_args args s in
      let done = define_result-facts t behavior (validate_call behavior args line s1) in
      Accepts-of (with_result t behavior)
        (Decides-then (λ F. Matches F args (lookup behavior F.contracts))
          (validate_args-Decides args s) (validate_call-Decides behavior args line s1))
        done.0 done.1
  validate_node-Accepts line (NodeKind.free x) s =
      validate_free-Accepts x line (lookup x s.ctx.variables) s
  validate_node-Accepts line (NodeKind.scope ns) s =
      let inner = validate_nodes-Accepts ns (enter_scope s) in
      record { known = inner.known; clean = inner.clean }
  validate_node-Accepts line (NodeKind.channel_send c v) s =
      same_facts (validate_send-Decides c v line s)
  validate_node-Accepts line (NodeKind.channel_close c) s =
      same_facts (channel_close-Decides c line s)
  validate_node-Accepts line (NodeKind.discard e) s = same_facts (validate_expr-Decides e s)
  validate_node-Accepts line _ s = record { known = refl; clean = λ h. (h, tt) }

  pub validate_nodes-Accepts :
      (ns : Nodes) (s : State)
      → Accepts s (validate_nodes ns s) (after_all ns (facts s)) (AreValidStatements ns (facts s))
  validate_nodes-Accepts end s = record { known = refl; clean = λ h. (h, tt) }
  validate_nodes-Accepts (next (node sp k) ns) s =
      let step = validate_node-Accepts sp.line k (at_line sp.line s) in
      let first : Accepts s (validate_node sp.line k (at_line sp.line s)) (after k (facts s))
          (IsValidStatement k (facts s)) =
        record { known = step.known; clean = step.clean } in
      Accepts-then (after_all ns) (AreValidStatements ns) first
        (validate_nodes-Accepts ns (validate_node sp.line k (at_line sp.line s)))

pub validate_nodes_clean :
    (ns : Nodes) (s : State) → (validate_nodes ns s).errors ≡ [] → s.errors ≡ []
validate_nodes_clean ns s h = ((validate_nodes-Accepts ns s).clean h).0
