-- ===== src/Semantic/Analysis/Phases.antt =====
-- What the phases of the analysis promise.
use sigil_lang.Prelude.{
  ℕ, nat_eq, ◌≡◌, refl, ◌∙◌, ap, ◌↔◌, Bool, true, false, Option, none, some, List, [], ◌∷◌, ◌++◌,
  Text, codes, append-nil_iff,
}
use sigil_lang.Ast.{node, NodeKind, Nodes, end, next, PlatformImpl, Composition, Behavior}
use sigil_lang.Worklist.{Reach}
use sigil_lang.Cfg.{build}
use sigil_lang.Cfg.Scopes.{flatten_scopes}
use sigil_lang.Cfg.Paths.Correct.{Walk}
use sigil_lang.Cfg.Terminate.{next_blocks, all_paths_terminate}
use sigil_lang.Cfg.Terminate.Fixpoint.{CanExit}
use sigil_lang.Cfg.Terminate.Correct.{all_paths_terminate_correct}
use sigil_lang.Semantic.Errors.{path_does_not_terminate}
use sigil_lang.Semantic.Context.{define_label}
use sigil_lang.Semantic.Checks.{State, facts, push_error}
use sigil_lang.Semantic.Labels.{
  report_label, collect_label, collect_labels_from_nodes, collect_labels_of_kind, collect_first,
  collect_composition, collect_labels,
}
use sigil_lang.Semantic.Statements.{validate_nodes}
use sigil_lang.Semantic.Statements.Valid.{AreValidStatements}
use sigil_lang.Semantic.Statements.Accepts.{validate_nodes_clean}
use sigil_lang.Semantic.Statements.Correct.{validate_nodes-AreValid}
use sigil_lang.Semantic.Ownership.Correct.{PathRespects, validate_ownership_cfg_correct}
use sigil_lang.Semantic.Roles.{check_roles}
use sigil_lang.Semantic.Roles.Correct.{KeepsRole, check_roles_iff}
use sigil_lang.Semantic.Outputs.Correct.{AreConsumed, check_outputs_consumed_correct}
use sigil_lang.Semantic.Analysis.{
  Phase, continue_with, ◌then◌, check_ownership, check_termination, check_consumed, on_nodes,
  check_body,
}

-- The phase ends, and if there is no error after it, there was none before and this holds.
abbrev pub Settles : State → Option State → Type 0 → Type 0
Settles s o P = (s' : State) × (o ≡ some s') × (s'.errors ≡ [] → (s.errors ≡ []) × P)

pub Settles-then :
    (f g : Phase) (s : State) {P Q : Type 0}
    → Settles s (f s) P
    → ((t : State) → Settles t (g t) Q)
    → Settles s ((f then g) s) (P × Q)
Settles-then f g s (s', is_s', first) rest =
    let (t, is_t, second) = rest s' in
    (
      t,
      ap (λ o. continue_with o g) is_s' ∙ is_t,
      λ h. let (middle, q) = second h in let (start, p) = first middle in (start, (p, q)),
    )

abbrev pub OnNodes : Option Nodes → (Nodes → Type 0) → Type 0
OnNodes none P = Unit
OnNodes (some ns) P = P ns

pub Settles-on :
    (o : Option Nodes) (f : Nodes → Phase) (s : State) (P : Nodes → Type 0)
    → ((ns : Nodes) → Settles s (f ns s) (P ns))
    → Settles s (on_nodes o f s) (OnNodes o P)
Settles-on none f s P h = (s, refl, λ e. (e, tt))
Settles-on (some ns) f s P h = h ns

-- Every block that the entry reaches can reach an exit.
abbrev pub Terminates : Nodes → Type 0
Terminates ns =
    (i : ℕ)
    → Reach (next_blocks (build (flatten_scopes ns)).blocks)
        ((build (flatten_scopes ns)).entry ∷ []) i
    → CanExit (build (flatten_scopes ns)).blocks (build (flatten_scopes ns)).exits i

pub termination-Settles :
    (ns : Nodes) (s : State) → Settles s (check_termination ns s) (Terminates ns)
unfolding check_termination
termination-Settles ns s = go (all_paths_terminate_correct (flatten_scopes ns))
  where
    go :
        (b : Bool) × (all_paths_terminate (build (flatten_scopes ns)) ≡ some b)
          × ((b ≡ true) ↔ Terminates ns)
        → Settles s (check_termination ns s) (Terminates ns)
    go (true, verdict, exact) = (s, rw (verdict, check_termination) refl, λ h. (h, exact.0 refl))
    go (false, verdict, exact) = (
      push_error path_does_not_terminate 0
          (some (codes "control flow cannot reach END (exit-less loop)")) s,
      rw (verdict, check_termination) refl,
      λ h. absurd (
          cc
            ((append-nil_iff s.errors (
                record {
                  kind = path_does_not_terminate;
                  line = 0;
                  context = some (codes "control flow cannot reach END (exit-less loop)");
                }
                ∷ [])).0
              h).1),
    )

-- Statements that pass both checks of a body in this state.
abbrev pub IsValidBody : State → Nodes → Type 0
IsValidBody s ns =
    AreValidStatements ns (facts s)
    × ((p : List ℕ)
        → Walk (build (flatten_scopes ns)).blocks [] (build (flatten_scopes ns)).entry p
        → PathRespects (validate_nodes ns s).ctx (flatten_scopes ns)
            (build (flatten_scopes ns)).blocks p)

body-Settles : (ns : Nodes) (s : State) → Settles s (check_body ns s) (IsValidBody s ns)
unfolding check_body check_ownership
body-Settles ns s =
    let s' = validate_nodes ns s in
    let (errors, is_errors, owned) = validate_ownership_cfg_correct s'.ctx ns s'.errors in
    (
      record s' { errors = errors },
      rw (is_errors, check_ownership) refl,
      λ h.
          let (clean, paths) = owned h in
          (validate_nodes_clean ns s clean, ((validate_nodes-AreValid ns s clean).0.0, paths)),
    )

-- The check of consumed outputs keeps the context.
pub consumed-step :
    (comp : Option Nodes) (s : State)
    → (t : State) × (on_nodes comp check_consumed s ≡ some t)
      × (t.ctx ≡ s.ctx)
      × (t.errors ≡ [] → (s.errors ≡ []) × OnNodes comp (AreConsumed s.ctx))
unfolding check_consumed
consumed-step none s = (s, refl, refl, λ h. (h, tt))
consumed-step (some ns) s =
    let (errors, is_errors, exact) = check_outputs_consumed_correct s.ctx ns in
    (
      record s { errors = s.errors ++ errors },
      rw (is_errors, check_consumed) refl,
      refl,
      λ h. let (before, quiet) = (append-nil_iff s.errors errors).0 h in (before, exact.0 quiet),
    )

report_label_clean :
    (l : Text) (line : ℕ) (first : Option ℕ) (s : State)
    → (report_label l line first s).errors ≡ []
    → s.errors ≡ []
unfolding report_label
report_label_clean l line none s h = h
report_label_clean l line (some first) s h = ((append-nil_iff s.errors _).0 h).0

mutual
  unfolding collect_labels_from_nodes collect_label

  labels_clean :
      (ns : Nodes) (s : State) → (collect_labels_from_nodes ns s).errors ≡ [] → s.errors ≡ []
  labels_clean end s h = h
  labels_clean (next (node sp k) ns) s h =
      kind_clean sp.line k s (labels_clean ns (collect_labels_of_kind sp.line k s) h)

  kind_clean :
      (line : ℕ) (k : NodeKind) (s : State)
      → (collect_labels_of_kind line k s).errors ≡ []
      → s.errors ≡ []
  kind_clean line (NodeKind.label l) s h =
      let defined = define_label l line s.ctx in
      report_label_clean l line defined.0 (record s { ctx = defined.1 }) h
  kind_clean line (NodeKind.scope inner) s h = labels_clean inner s h
  kind_clean line _ s h = h

first_clean :
    (impls : List PlatformImpl) (s : State) → (collect_first impls s).errors ≡ [] → s.errors ≡ []
unfolding collect_first
first_clean [] s h = h
first_clean (impl ∷ impls) s h = labels_clean impl.nodes s h

composition_clean :
    (comp : Option Composition) (s : State)
    → (collect_composition comp s).errors ≡ []
    → s.errors ≡ []
unfolding collect_composition
composition_clean none s h = h
composition_clean (some comp) s h = labels_clean comp.nodes s h

pub collect_labels_clean :
    (b : Behavior) (s : State) → (collect_labels b s).errors ≡ [] → s.errors ≡ []
unfolding collect_labels
collect_labels_clean b s h =
    first_clean b.implementations s
      (composition_clean b.composition (collect_first b.implementations s) h)

abbrev no_nodes : Option Nodes
no_nodes = none

pub bodies-Settles :
    (impl comp : Option Nodes) (s : State)
    → Settles s
        ((on_nodes impl check_body then on_nodes comp check_body) s)
        (OnNodes impl (IsValidBody s) × OnNodes comp (λ ns. impl ≡ none → IsValidBody s ns))
bodies-Settles none comp s =
    let (t, is_t, h) =
      Settles-on comp check_body s (λ ns. no_nodes ≡ none → IsValidBody s ns)
        (λ ns.
          let (u, is_u, k) = body-Settles ns s in
          (u, is_u, λ e. let (start, held) = k e in (start, λ _. held))) in
    (t, is_t, λ e. let (start, held) = h e in (start, (tt, held)))
bodies-Settles (some ns) comp s =
    Settles-then (check_body ns) (on_nodes comp check_body) s (body-Settles ns s) (λ t.
      Settles-on comp check_body t (λ ms. some ns ≡ none → IsValidBody s ms)
        (λ ms.
          let (u, is_u, k) = body-Settles ms t in (u, is_u, λ e. ((k e).0, λ h. absurd (cc (h))))))

pub roles-Settles :
    (comp : Option Composition) (impls : List PlatformImpl) (s : State)
    → Settles s
        (some (record s { errors = s.errors ++ check_roles comp impls }))
        (KeepsRole comp impls)
roles-Settles comp impls s = (
  record s { errors = s.errors ++ check_roles comp impls },
  refl,
  λ h.
      let (before, quiet) = (append-nil_iff s.errors (check_roles comp impls)).0 h in
      (before, (check_roles_iff comp impls).0 quiet),
)
