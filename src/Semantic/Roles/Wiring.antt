-- ===== src/Semantic/Roles/Wiring.antt =====
-- What the check of a composite accepts, as a grammar of statements.
use sigil_lang.Prelude.{
  ℕ, ◌≡◌, refl, ◌↔◌, inl, inr, Option, none, List, [], Text, append-nil_iff, Option-cases,
}
use sigil_lang.Ast.{Span, Ty, Expr, Exprs, nil, cons, node, NodeKind, Nodes, end, next}
use sigil_lang.Semantic.Roles.{
  forbidden_compute_op, forbidden_in, composite_violation, scan_expr, scan_args,
  check_composite_purity, check_composite_node, check_composite_kind,
}

-- Expressions that route values: they name, call and communicate.
mutual
  pub data IsWiring : Expr → Type 0 where
    of_int : {n : ℕ} → IsWiring (Expr.int_lit n)
    of_float : {n : ℕ} → IsWiring (Expr.float_lit n)
    of_string : {s : Text} → IsWiring (Expr.string_lit s)
    of_var : {x : Text} → IsWiring (Expr.var x)
    of_field : {e : Expr} {f : Text} → IsWiring e → IsWiring (Expr.field e f)
    of_call : {f : Text} {more : Exprs} → AreWiring more → IsWiring (Expr.call f more)
    of_spawn : {f : Text} {more : Exprs} → AreWiring more → IsWiring (Expr.spawn f more)
    of_channel : {t : Ty} {a : Expr} → IsWiring (Expr.channel t a)
    of_receive : {c : Text} → IsWiring (Expr.channel_receive c)
    of_wait : {h : Text} → IsWiring (Expr.wait h)

  pub data AreWiring : Exprs → Type 0 where
    no_args : AreWiring nil
    more_args : {a : Expr} {more : Exprs} → IsWiring a → AreWiring more → AreWiring (cons a more)

mutual
  unfolding forbidden_compute_op

  forbidden-eq-none : (e : Expr) → forbidden_compute_op e ≡ none → IsWiring e
  forbidden-eq-none (Expr.int_lit n) h = of_int
  forbidden-eq-none (Expr.float_lit n) h = of_float
  forbidden-eq-none (Expr.string_lit s) h = of_string
  forbidden-eq-none (Expr.var x) h = of_var
  forbidden-eq-none (Expr.field e f) h = of_field (forbidden-eq-none e h)
  forbidden-eq-none (Expr.call f more) h = of_call (forbidden_in-eq-none more h)
  forbidden-eq-none (Expr.spawn f more) h = of_spawn (forbidden_in-eq-none more h)
  forbidden-eq-none (Expr.channel t a) h = of_channel
  forbidden-eq-none (Expr.channel_receive c) h = of_receive
  forbidden-eq-none (Expr.wait w) h = of_wait
  forbidden-eq-none _ h = absurd (cc)

  forbidden_in-eq-none : (more : Exprs) → forbidden_in more ≡ none → AreWiring more
  forbidden_in-eq-none nil h = no_args
  forbidden_in-eq-none (cons a more) h = elim (Option-cases (forbidden_compute_op a)) [
    | inl e ↦ more_args (forbidden-eq-none a e) (forbidden_in-eq-none more (rw (e) at h))
    | inr (op, e) ↦ absurd (cc (rw (e) at h))
  ]

mutual
  unfolding forbidden_compute_op

  IsWiring-none : {e : Expr} → IsWiring e → forbidden_compute_op e ≡ none
  IsWiring-none of_int = refl
  IsWiring-none of_float = refl
  IsWiring-none of_string = refl
  IsWiring-none of_var = refl
  IsWiring-none (of_field w) = IsWiring-none w
  IsWiring-none (of_call w) = AreWiring-none w
  IsWiring-none (of_spawn w) = AreWiring-none w
  IsWiring-none of_channel = refl
  IsWiring-none of_receive = refl
  IsWiring-none of_wait = refl

  AreWiring-none : {more : Exprs} → AreWiring more → forbidden_in more ≡ none
  AreWiring-none no_args = refl
  AreWiring-none (more_args w ws) = rw (IsWiring-none w, forbidden_in) (AreWiring-none ws)

scan_expr_iff : (e : Expr) (line : ℕ) → (scan_expr e line ≡ []) ↔ IsWiring e
unfolding scan_expr composite_violation
scan_expr_iff e line = elim (Option-cases (forbidden_compute_op e)) [
  | inl none_of ↦ rw (none_of, scan_expr) (λ _. forbidden-eq-none e none_of, λ _. refl)
  | inr (op, is_op) ↦
      rw (is_op, scan_expr) (λ h. absurd (cc), λ w. absurd (cc (is_op, IsWiring-none w)))
]

scan_args_iff : (more : Exprs) (line : ℕ) → (scan_args more line ≡ []) ↔ AreWiring more
unfolding scan_args
scan_args_iff nil line = (λ _. no_args, λ _. refl)
scan_args_iff (cons a more) line =
    let here = scan_expr_iff a line in
    let rest = scan_args_iff more line in
    let parts = append-nil_iff (scan_expr a line) (scan_args more line) in
    (
      λ h. let (x, y) = parts.0 h in more_args (here.0 x) (rest.0 y),
      elim [ more_args w ws ↦ parts.1 (here.1 w, rest.1 ws) ],
    )

-- The statements of a composite: none stores, frees or opens a scope, and what they evaluate routes.
pub data Wires : NodeKind → Type 0 where
  a_label : {l : Text} → Wires (NodeKind.label l)
  a_jump : {l : Text} → Wires (NodeKind.jump l)
  an_assignment : {t : Text} {e : Expr} → IsWiring e → Wires (NodeKind.assignment t e)
  a_set : {t : Text} {e : Expr} → IsWiring e → Wires (NodeKind.set t e)
  a_branch : {e : Expr} {t f : Text} → IsWiring e → Wires (NodeKind.branch e t f)
  a_call :
      {r : Option Text} {f : Text} {more : Exprs} {outputs : List Text}
      → AreWiring more
      → Wires (NodeKind.call_node r f more outputs)
  a_send : {c : Text} {e : Expr} → IsWiring e → Wires (NodeKind.channel_send c e)
  a_discard : {e : Expr} → Wires (NodeKind.discard e)
  a_spawn : {h p : Text} {more : Exprs} → Wires (NodeKind.spawn_node h p more)
  a_wait : {t h : Text} → Wires (NodeKind.wait_node t h)
  a_wait_all : {ts hs : List Text} → Wires (NodeKind.wait_all ts hs)
  a_wait_any : {t i : Text} {hs : List Text} → Wires (NodeKind.wait_any t i hs)
  a_close : {c : Text} → Wires (NodeKind.channel_close c)

pub data AllWire : Nodes → Type 0 where
  nothing : AllWire end
  one_more :
      {sp : Span} {k : NodeKind} {ns : Nodes} → Wires k → AllWire ns → AllWire (next (node sp k) ns)

Wires-sound : (line : ℕ) (k : NodeKind) → check_composite_kind line k ≡ [] → Wires k
unfolding check_composite_kind composite_violation
Wires-sound line (NodeKind.label l) h = a_label
Wires-sound line (NodeKind.jump l) h = a_jump
Wires-sound line (NodeKind.assignment t e) h = an_assignment ((scan_expr_iff e line).0 h)
Wires-sound line (NodeKind.set t e) h = a_set ((scan_expr_iff e line).0 h)
Wires-sound line (NodeKind.branch e t f) h = a_branch ((scan_expr_iff e line).0 h)
Wires-sound line (NodeKind.call_node r f more outputs) h = a_call ((scan_args_iff more line).0 h)
Wires-sound line (NodeKind.channel_send c e) h = a_send ((scan_expr_iff e line).0 h)
Wires-sound line (NodeKind.discard e) h = a_discard
Wires-sound line (NodeKind.spawn_node _ _ _) h = a_spawn
Wires-sound line (NodeKind.wait_node _ _) h = a_wait
Wires-sound line (NodeKind.wait_all _ _) h = a_wait_all
Wires-sound line (NodeKind.wait_any _ _ _) h = a_wait_any
Wires-sound line (NodeKind.channel_close _) h = a_close
Wires-sound line (NodeKind.store _ _ _ _) h = absurd (cc)
Wires-sound line (NodeKind.free _) h = absurd (cc)
Wires-sound line (NodeKind.scope _) h = absurd (cc)

Wires-complete : (line : ℕ) {k : NodeKind} → Wires k → check_composite_kind line k ≡ []
unfolding check_composite_kind
Wires-complete line (an_assignment {e} w) = (scan_expr_iff e line).1 w
Wires-complete line (a_set {e} w) = (scan_expr_iff e line).1 w
Wires-complete line (a_branch {e} w) = (scan_expr_iff e line).1 w
Wires-complete line (a_call {more} w) = (scan_args_iff more line).1 w
Wires-complete line (a_send {e} w) = (scan_expr_iff e line).1 w
Wires-complete line a_label = refl
Wires-complete line a_jump = refl
Wires-complete line a_discard = refl
Wires-complete line a_spawn = refl
Wires-complete line a_wait = refl
Wires-complete line a_wait_all = refl
Wires-complete line a_wait_any = refl
Wires-complete line a_close = refl

pub check_composite_purity_iff : (ns : Nodes) → (check_composite_purity ns ≡ []) ↔ AllWire ns
unfolding check_composite_purity check_composite_node
check_composite_purity_iff end = (λ _. nothing, λ _. refl)
check_composite_purity_iff (next (node sp k) ns) =
    let rest = check_composite_purity_iff ns in
    let parts = append-nil_iff (check_composite_kind sp.line k) (check_composite_purity ns) in
    (
      λ h. let (x, y) = parts.0 h in one_more (Wires-sound sp.line k x) (rest.0 y),
      elim [ one_more w ws ↦ parts.1 (Wires-complete sp.line w, rest.1 ws) ],
    )
