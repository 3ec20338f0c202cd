-- ===== src/Semantic/Ownership.antt =====
-- compiler/src/semantic/mod.rs, `validate_ownership_cfg`: what holds on each path of the control flow
-- graph.
pub mod Respects
pub mod Reports
pub mod Steps
pub mod Correct
use sigil_lang.Prelude.{
  ℕ, ◌≡◌, refl, ◌↔◌, Bool, true, false, not, ◌&&◌, Option, none, some, List, [], ◌∷◌, ◌++◌, map,
  arith, Text, text_beq, text_beq_iff, text_eq, nat_beq, nat_beq_iff, nat_eq, codes, Eq, Map,
  lookup, insert, without, contains, add, get_elem?, keep,
}
use sigil_lang.Ast.{
  Span, Expr, Exprs, nil, cons, Node, node, NodeKind, Nodes, writes_output, line_of, kind_of,
}
use sigil_lang.Cfg.{BasicBlock, Cfg, build}
use sigil_lang.Cfg.Scopes.{flatten_scopes}
use sigil_lang.Cfg.Paths.{all_paths}
use sigil_lang.Semantic.Errors.{
  SemanticError, ErrorKind, double_free, use_after_free, uninitialized_load, memory_leak,
  output_not_written,
}
use sigil_lang.Semantic.Context.{AnalysisContext, has_key, has_guarantee}

-- What was reported: a text for the error, and its line.
abbrev pub ErrorKey : Type 0
ErrorKey = Text × ℕ

abbrev pub key_beq : ErrorKey → ErrorKey → Bool
key_beq (x, n) (y, m) = text_beq x y && nat_beq n m

pub key_beq_iff : (a b : ErrorKey) → (key_beq a b ≡ true) ↔ (a ≡ b)
key_beq_iff (x, n) (y, m) = ground (arith, text_beq_iff x y)

instance abbrev pub key_eq : Eq ErrorKey
key_eq = record { beq = key_beq; beq_iff = key_beq_iff }

-- What the loop over the paths keeps.
pub record Report : Type 0 where
  pub errors : List SemanticError
  pub reported : List ErrorKey
  pub allocations : Map Text ℕ

-- What the walk along one path keeps.
pub record PathState : Type 0 where
  pub freed : Map Text ℕ
  pub stored : List Text
  pub allocated : List Text
  pub written : List Text

-- An error that was not reported for this line.
unfoldable pub report_once : Text → ErrorKind → ℕ → Text → Report → Report
report_once key kind line context r = elim (contains r.reported (key, line)) [
  | true ↦ r
  | false ↦ record r {
    errors = r.errors ++ (record { kind = kind; line = line; context = some context } ∷ []);
    reported = (key, line) ∷ r.reported;
  }
]

unfoldable pub report_freed : Text → Option ℕ → ℕ → Text → Report → Report
unfolding report_once
report_freed name none line context r = r
report_freed name (some freed_line) line context r =
    report_once (codes "UseAfterFree:" ++ name) (use_after_free name freed_line) line context r

unfoldable pub check_expr_uses_freed_dedup : Expr → Map Text ℕ → ℕ → Report → Report
unfolding report_freed
check_expr_uses_freed_dedup (Expr.var name) freed line r =
    report_freed name (lookup name freed) line (codes "use of handle freed on this path") r
check_expr_uses_freed_dedup (Expr.load source _ _) freed line r =
    check_expr_uses_freed_dedup source freed line r
check_expr_uses_freed_dedup (Expr.field base _) freed line r =
    check_expr_uses_freed_dedup base freed line r
check_expr_uses_freed_dedup _ freed line r = r

unfoldable pub check_source : Expr → List Text → ℕ → Report → Report
unfolding report_once
check_source (Expr.var name) stored line r = elim (contains stored name) [
  | true ↦ r
  | false ↦
      report_once (codes "UninitializedLoad:" ++ name) (uninitialized_load name) line
        (codes "LOAD without prior STORE on this path") r
]
check_source _ stored line r = r

unfoldable pub check_uninitialized_load : Expr → List Text → ℕ → Report → Report
unfolding check_source
check_uninitialized_load (Expr.load source _ _) stored line r =
    check_uninitialized_load source stored line (check_source source stored line r)
check_uninitialized_load _ stored line r = r

unfoldable pub mark_output : AnalysisContext → Text → List Text → List Text
mark_output ctx x set = elim (has_key x ctx.outputs) [ true ↦ add x set | false ↦ set ]

unfoldable pub mark_outputs : AnalysisContext → List Text → List Text → List Text
unfolding mark_output
mark_outputs ctx [] set = set
mark_outputs ctx (x ∷ xs) set = mark_outputs ctx xs (mark_output ctx x set)

-- A variable among the arguments of a call that is an output is written.
unfoldable pub written_args : AnalysisContext → Exprs → List Text → List Text
unfolding mark_output
written_args ctx nil set = set
written_args ctx (cons (Expr.var x) more) set = written_args ctx more (mark_output ctx x set)
written_args ctx (cons _ more) set = written_args ctx more set

abbrev pub call_args : Expr → Exprs
call_args (Expr.call _ args) = args
call_args _ = nil

abbrev pub is_alloc : Expr → Bool
is_alloc (Expr.alloc _ _ _) = true
is_alloc _ = false

abbrev pub Progress : Type 0
Progress = PathState × Report

unfoldable pub note_allocation : Text → ℕ → Bool → Progress → Progress
note_allocation target line false (p, r) = (p, r)
note_allocation target line true (p, r) = (
  record p { allocated = add target p.allocated },
  record r { allocations = insert target line r.allocations },
)

unfoldable pub visit_free : Text → ℕ → Option ℕ → Progress → Progress
unfolding report_once
visit_free name line none (p, r) = (record p { freed = insert name line p.freed }, r)
visit_free name line (some first) (p, r) = (
  p,
  report_once (codes "DoubleFree:" ++ name) (double_free name first) line
      (codes "double FREE on same execution path") r,
)

unfoldable pub visit_assignment : AnalysisContext → Text → Expr → ℕ → Progress → Progress
unfolding check_uninitialized_load check_expr_uses_freed_dedup note_allocation written_args
visit_assignment ctx target e line (p, r) = note_allocation target line (is_alloc e) (
  record p { freed = without target p.freed; written = written_args ctx (call_args e) p.written },
  check_uninitialized_load e p.stored line (check_expr_uses_freed_dedup e p.freed line r),
)

unfoldable pub visit_store : AnalysisContext → Text → ℕ → Progress → Progress
unfolding report_freed mark_output
visit_store ctx target line (p, r) = (
  record p { stored = add target p.stored; written = mark_output ctx target p.written },
  report_freed target (lookup target p.freed) line (codes "STORE to handle freed on this path") r,
)

-- The body of the loop over the statements of a path.
unfoldable pub visit_on_path : AnalysisContext → ℕ → NodeKind → Progress → Progress
unfolding visit_assignment visit_free visit_store mark_output mark_outputs written_args
visit_on_path ctx line (NodeKind.assignment target e) s = visit_assignment ctx target e line s
visit_on_path ctx line (NodeKind.free name) s = visit_free name line (lookup name s.0.freed) s
visit_on_path ctx line (NodeKind.store target _ _ _) s = visit_store ctx target line s
visit_on_path ctx line (NodeKind.set target _) s =
    (record s.0 { written = mark_output ctx target s.0.written }, s.1)
visit_on_path ctx line (NodeKind.call_node _ _ args outputs) s =
    (record s.0 { written = mark_outputs ctx outputs (written_args ctx args s.0.written) }, s.1)
visit_on_path ctx line _ s = s

unfoldable pub visit_statements : AnalysisContext → List Node → Progress → Progress
unfolding visit_on_path
visit_statements ctx [] s = s
visit_statements ctx (n ∷ ns) s =
    visit_statements ctx ns (visit_on_path ctx (line_of n) (kind_of n) s)

-- The statements of a block, and of the blocks of a path; what is out of range is passed over.
unfoldable pub statements_of : List Node → List ℕ → List Node
statements_of flat [] = []
statements_of flat (i ∷ is) =
    let rest = statements_of flat is in elim (get_elem? flat i) [ some n ↦ n ∷ rest | none ↦ rest ]

unfoldable pub statements_on : List Node → List BasicBlock → List ℕ → List Node
unfolding statements_of
statements_on flat bs [] = []
statements_on flat bs (i ∷ is) =
    let rest = statements_on flat bs is in
    elim (get_elem? bs i) [ some b ↦ statements_of flat b.statements ++ rest | none ↦ rest ]

-- What some path does not free, or not write.
pub record Missing : Type 0 where
  pub not_freed : List Text
  pub not_written : List Text

unfoldable pub add_all : List Text → List Text → List Text
add_all [] set = set
add_all (x ∷ xs) set = add_all xs (add x set)

abbrev pub fresh_path : AnalysisContext → PathState
fresh_path ctx = record {
  freed = [];
  stored = map (λ e. e.0) ctx.inputs;
  allocated = [];
  written = [];
}

unfoldable pub visit_path :
    AnalysisContext → List Node → List BasicBlock → List ℕ → Missing × Report → Missing × Report
unfolding visit_statements statements_on add_all has_guarantee
visit_path ctx flat bs path (m, r) =
    let (p, r') = visit_statements ctx (statements_on flat bs path) (fresh_path ctx, r) in
    (
      record {
        not_freed = add_all (keep (λ x. not (has_key x p.freed)) p.allocated) m.not_freed;
        not_written = elim (has_guarantee writes_output ctx) [
          | true ↦
              add_all (keep (λ x. not (contains p.written x)) (map (λ e. e.0) ctx.outputs))
                m.not_written
          | false ↦ m.not_written
        ];
      },
      r',
    )

unfoldable pub visit_paths :
    AnalysisContext
    → List Node
    → List BasicBlock
    → List (List ℕ)
    → Missing × Report
    → Missing × Report
unfolding visit_path
visit_paths ctx flat bs [] s = s
visit_paths ctx flat bs (path ∷ paths) s =
    visit_paths ctx flat bs paths (visit_path ctx flat bs path s)

unfoldable pub report_leak : Text → Option ℕ → Report → Report
unfolding report_once
report_leak name none r = r
report_leak name (some line) r =
    report_once (codes "MemoryLeak:" ++ name) (memory_leak name) line
      (codes "allocation not freed on all execution paths") r

unfoldable pub report_leaks : List Text → Report → Report
unfolding report_leak
report_leaks [] r = r
report_leaks (x ∷ xs) r = report_leaks xs (report_leak x (lookup x r.allocations) r)

-- The key of this error is new, since it is the only one that is reported with its text.
unfoldable pub report_unwritten : List Text → Report → Report
report_unwritten [] r = r
report_unwritten (x ∷ xs) r = record r {
  errors =
      r.errors
      ++ (record {
        kind = output_not_written (x ∷ xs);
        line = 0;
        context = some (codes "output not written on all execution paths");
      }
          ∷ []);
}

-- The errors before and after; `none` would be an enumeration of paths that does not end.
unfoldable pub validate_ownership_cfg :
    AnalysisContext → Nodes → List SemanticError → Option (List SemanticError)
unfolding visit_paths report_leaks report_unwritten all_paths build flatten_scopes
validate_ownership_cfg ctx ns errors =
    let flat = flatten_scopes ns in
    let g = build flat in
    elim (all_paths g) [
      | none ↦ none
      | some paths ↦
          let (m, r) = visit_paths ctx flat g.blocks paths (
            record { not_freed = []; not_written = [] },
            record { errors = errors; reported = []; allocations = [] },
          ) in
          some (report_unwritten m.not_written (report_leaks m.not_freed r)).errors
    ]
