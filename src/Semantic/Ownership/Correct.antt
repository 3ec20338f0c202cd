-- ===== src/Semantic/Ownership/Correct.antt =====
-- What the statements of every path respect, if the check of ownership reports nothing.
use mathlib.Core.Path.{subst}
use mathlib.Core.Bool.{false≢true}
use sigil_lang.Prelude.{
  ℕ, ◌≡◌, refl, inl, inr, true, false, Option, none, some, List, [], ◌∷◌, ◌++◌, map, Text, text_eq,
  eq_iff, ◌==◌, lookup, contains, codes, ||-true, All, append-nil_iff,
}
use sigil_lang.Ast.{Node, Nodes}
use sigil_lang.Cfg.{BasicBlock, build}
use sigil_lang.Cfg.Scopes.{flatten_scopes}
use sigil_lang.Cfg.Paths.Correct.{Walk, all_paths_correct}
use sigil_lang.Semantic.Errors.{SemanticError, memory_leak, output_not_written}
use sigil_lang.Semantic.Context.{AnalysisContext}
use sigil_lang.Semantic.Ownership.{
  Report, Missing, statements_on, fresh_path, visit_path, visit_paths, report_leak, report_leaks,
  report_unwritten, validate_ownership_cfg,
}
use sigil_lang.Semantic.Ownership.Respects.{Names, AllRespect}
use sigil_lang.Semantic.Ownership.Reports.{
  Tells, Tells-nothing, Tells-then, Tells-as, report_once-Tells,
}
use sigil_lang.Semantic.Ownership.Steps.{visit_statements-Tells}

-- The names of the inputs, which the caller has stored to.
abbrev pub input_names : AnalysisContext → Names
input_names ctx = contains (map (λ e. e.0) ctx.inputs)

abbrev pub freed_none : Names
freed_none x = false

abbrev pub PathRespects : AnalysisContext → List Node → List BasicBlock → List ℕ → Type 0
PathRespects ctx flat bs path = AllRespect freed_none (input_names ctx) (statements_on flat bs path)

visit_path-Tells :
    (ctx : AnalysisContext) (flat : List Node) (bs : List BasicBlock) (path : List ℕ)
    (s : Missing × Report)
    → Tells s.1 (visit_path ctx flat bs path s).1 (PathRespects ctx flat bs path)
unfolding visit_path lookup
visit_path-Tells ctx flat bs path s =
    visit_statements-Tells ctx (statements_on flat bs path) (fresh_path ctx, s.1) freed_none
      (input_names ctx) (record { freed_agrees = λ x. refl; stored_agrees = λ x. refl })

visit_paths-Tells :
    (ctx : AnalysisContext) (flat : List Node) (bs : List BasicBlock) (paths : List (List ℕ))
    (s : Missing × Report)
    → Tells s.1 (visit_paths ctx flat bs paths s).1 (All (PathRespects ctx flat bs) paths)
unfolding visit_paths
visit_paths-Tells ctx flat bs [] s = Tells-nothing s.1 tt
visit_paths-Tells ctx flat bs (path ∷ paths) s =
    Tells-then (visit_path-Tells ctx flat bs path s)
      (visit_paths-Tells ctx flat bs paths (visit_path ctx flat bs path s))

report_leak-Tells : (x : Text) (line : Option ℕ) (r : Report) → Tells r (report_leak x line r) Unit
unfolding report_leak
report_leak-Tells x none r = Tells-nothing r tt
report_leak-Tells x (some line) r =
    report_once-Tells Unit (codes "MemoryLeak:" ++ x) (memory_leak x) line
      (codes "allocation not freed on all execution paths") r

report_leaks-Tells : (xs : List Text) (r : Report) → Tells r (report_leaks xs r) Unit
unfolding report_leaks
report_leaks-Tells [] r = Tells-nothing r tt
report_leaks-Tells (x ∷ xs) r =
    let leak = report_leak x (lookup x r.allocations) r in
    Tells-as (λ _. tt)
      (Tells-then (report_leak-Tells x (lookup x r.allocations) r) (report_leaks-Tells xs leak))

unwritten_clean :
    (xs : List Text) (r : Report) → (report_unwritten xs r).errors ≡ [] → r.errors ≡ []
unfolding report_unwritten
unwritten_clean [] r h = h
unwritten_clean (x ∷ xs) r h = absurd (
    cc
      ((append-nil_iff r.errors (
          record {
            kind = output_not_written (x ∷ xs);
            line = 0;
            context = some (codes "output not written on all execution paths");
          }
          ∷ [])).0
        h).1)

All-contains :
    (P : List ℕ → Type 0) (ps : List (List ℕ)) (p : List ℕ) → All P ps → contains ps p ≡ true → P p
unfolding contains
All-contains P [] p h e = absurd (false≢true e)
All-contains P (q ∷ ps) p h e = elim (||-true (q == p) (contains ps p) e) [
  | inl same ↦ subst P ((eq_iff q p).0 same) h.0
  | inr rest ↦ All-contains P ps p h.1 rest
]

-- The check of ownership ends, whatever errors there were before. If there is no error after it,
-- then there was none, and on every walk from the entry to an exit that visits no block twice: no
-- FREE names a handle that was freed on the walk before and not assigned since; nor does the target of
-- a STORE; nor does the right side of an assignment that is a variable or leads to it through loads
-- and fields; and where such a right side is a LOAD by name, the name is an input or was stored to on
-- the walk. Other uses of a freed handle, as an argument, an operand, a value of a STORE or of a SET,
-- are not excluded.
pub validate_ownership_cfg_correct :
    (ctx : AnalysisContext) (ns : Nodes) (errors : List SemanticError)
    → (result : List SemanticError) × (validate_ownership_cfg ctx ns errors ≡ some result)
      × (result ≡ []
          → (errors ≡ [])
            × ((p : List ℕ)
                → Walk (build (flatten_scopes ns)).blocks [] (build (flatten_scopes ns)).entry p
                → PathRespects ctx (flatten_scopes ns) (build (flatten_scopes ns)).blocks p))
unfolding validate_ownership_cfg
validate_ownership_cfg_correct ctx ns errors =
    let flat = flatten_scopes ns in
    let bs = (build flat).blocks in
    let (ps, is_ps, exact) = all_paths_correct flat in
    let start : Missing × Report = (
      record { not_freed = []; not_written = [] },
      record { errors = errors; reported = []; allocations = [] },
    ) in
    let walked = visit_paths ctx flat bs ps start in
    let leaks = report_leaks walked.0.not_freed walked.1 in
    (
      (report_unwritten walked.0.not_written leaks).errors,
      rw (is_ps, validate_ownership_cfg) refl,
      λ h.
          let clean = unwritten_clean walked.0.not_written leaks h in
          let all =
            (Tells-then (visit_paths-Tells ctx flat bs ps start)
                (report_leaks-Tells walked.0.not_freed walked.1)).clean
              (λ _. refl) clean in
          (all.0, λ p w. All-contains (PathRespects ctx flat bs) ps p all.1.0 ((exact p).1 w)),
    )
