-- ===== src/Semantic/Roles/Leaves.antt =====
-- What the check of a leaf rejects: statements that call a behavior, or bind the result of a call.
use sigil_lang.Prelude.{◌≡◌, refl, ◌↔◌, Option, List, [], Text, append-nil_iff}
use sigil_lang.Ast.{Span, Expr, Exprs, Node, node, NodeKind, Nodes, end, next}
use sigil_lang.Semantic.Roles.{check_leaf_no_call, check_leaf_node, check_leaf_kind}

-- A statement calls this behavior. A call inside another expression is no such statement.
pub data Calls (f : Text) : Nodes → Type 0 where
  by_statement :
      {r : Option Text} {more : Exprs} {outputs : List Text} {sp : Span} {ns : Nodes}
      → Calls f (next (node sp (NodeKind.call_node r f more outputs)) ns)
  by_binding :
      {t : Text} {more : Exprs} {sp : Span} {ns : Nodes}
      → Calls f (next (node sp (NodeKind.assignment t (Expr.call f more))) ns)
  inside :
      {inner : Nodes} {sp : Span} {ns : Nodes}
      → Calls f inner
      → Calls f (next (node sp (NodeKind.scope inner)) ns)
  later : {n : Node} {ns : Nodes} → Calls f ns → Calls f (next n ns)

Calls-reported : (f : Text) {ns : Nodes} → Calls f ns → ¬ (check_leaf_no_call ns ≡ [])
unfolding check_leaf_no_call
Calls-reported f by_statement h = cc
Calls-reported f by_binding h = cc
Calls-reported f (inside {inner} {ns} c) h =
    Calls-reported f c ((append-nil_iff (check_leaf_no_call inner) (check_leaf_no_call ns)).0 h).0
Calls-reported f (later {n} {ns} c) h =
    Calls-reported f c ((append-nil_iff (check_leaf_node n) (check_leaf_no_call ns)).0 h).1

mutual
  unfolding check_leaf_no_call

  kind-eq-nil :
      (sp : Span) (k : NodeKind) (ns : Nodes)
      → ((f : Text) → ¬ Calls f (next (node sp k) ns))
      → check_leaf_kind sp.line k ≡ []
  kind-eq-nil sp (NodeKind.call_node r f more outputs) ns h = absurd (h f by_statement)
  kind-eq-nil sp (NodeKind.assignment t (Expr.call f more)) ns h = absurd (h f by_binding)
  kind-eq-nil sp (NodeKind.scope inner) ns h = leaf-eq-nil inner (λ f c. h f (inside c))
  kind-eq-nil sp _ ns h = refl

  leaf-eq-nil : (ns : Nodes) → ((f : Text) → ¬ Calls f ns) → check_leaf_no_call ns ≡ []
  leaf-eq-nil end h = refl
  leaf-eq-nil (next (node sp k) ns) h =
      (append-nil_iff (check_leaf_kind sp.line k) (check_leaf_no_call ns)).1
        (kind-eq-nil sp k ns h, leaf-eq-nil ns (λ f c. h f (later c)))

pub check_leaf_no_call_iff :
    (ns : Nodes) → (check_leaf_no_call ns ≡ []) ↔ ((f : Text) → ¬ Calls f ns)
check_leaf_no_call_iff ns = (λ h f c. Calls-reported f c h, leaf-eq-nil ns)
