-- ===== src/Examples/Ownership.antt =====
-- Concrete bodies for the theorem on ownership.
use sigil_lang.Prelude.{
  ℕ, ◌≡◌, refl, false, some, List, [], ◌∷◌, codes, lookup, insert, without, contains, add, text_beq,
}
use sigil_lang.Ast.{
  int_lit, bytes, Node, node, NodeKind, assignment, label, branch, free, alloc, Nodes, end, next,
  new_behavior,
}
use sigil_lang.Cfg.{
  build, first_pass, second_pass, visit, visit_all, finish_block, push_statement, start_label,
  link_at, link, connect, connect_label, connect_next,
}
use sigil_lang.Cfg.Scopes.{flatten_scopes}
use sigil_lang.Cfg.Paths.Correct.{Walk}
use sigil_lang.Semantic.Errors.{SemanticError, double_free}
use sigil_lang.Semantic.Context.{AnalysisContext, new_context}
use sigil_lang.Semantic.Ownership.{validate_ownership_cfg}
use sigil_lang.Semantic.Ownership.Correct.{PathRespects, validate_ownership_cfg_correct}

abbrev at : ℕ → NodeKind → Node
at n k = node (record { line = n; col = 1; len = 1 }) k

abbrev context : AnalysisContext
context = new_context (new_behavior (codes "main")) [] []

-- `h = ALLOC 8 bytes`, `FREE h`, `FREE h`.
abbrev freed_twice : Nodes
freed_twice =
    next (at 1 (assignment (codes "h") (alloc (int_lit 8) bytes false)))
      (next (at 2 (free (codes "h"))) (next (at 3 (free (codes "h"))) end))

freed_twice_rejected :
    validate_ownership_cfg context freed_twice []
    ≡ some (
        record {
          kind = double_free (codes "h") 2;
          line = 3;
          context = some (codes "double FREE on same execution path");
        }
        ∷ [])
unfolding validate_ownership_cfg new_context new_behavior lookup insert without contains add
    text_beq second_pass first_pass visit_all visit push_statement finish_block start_label link_at
    link connect_next connect connect_label
freed_twice_rejected = refl

-- `h = ALLOC 8 bytes`, `LABEL top`, `FREE h`, `BRANCH 1 top done`, `LABEL done`: every round frees the
-- handle again.
abbrev freed_in_loop : Nodes
freed_in_loop = next (at 1 (assignment (codes "h") (alloc (int_lit 8) bytes false))) (
    next (at 2 (label (codes "top"))) (
      next (at 3 (free (codes "h"))) (
        next (at 4 (branch (int_lit 1) (codes "top") (codes "done")))
          (next (at 5 (label (codes "done"))) end))))

freed_in_loop_accepted : validate_ownership_cfg context freed_in_loop [] ≡ some []
unfolding validate_ownership_cfg new_context new_behavior lookup insert without contains add
    text_beq second_pass first_pass visit_all visit push_statement finish_block start_label link_at
    link connect_next connect connect_label
freed_in_loop_accepted = refl

abbrev no_errors : List SemanticError
no_errors = []

validate_ownership_cfg_correct_example :
    (result : List SemanticError) × (validate_ownership_cfg context freed_in_loop no_errors
      ≡ some result)
    × (result ≡ []
        → (no_errors ≡ [])
          × ((p : List ℕ)
              → Walk
                  (build (flatten_scopes freed_in_loop)).blocks
                  []
                  (build (flatten_scopes freed_in_loop)).entry
                  p
              → PathRespects context
                  (flatten_scopes freed_in_loop)
                  (build (flatten_scopes freed_in_loop)).blocks
                  p))
validate_ownership_cfg_correct_example =
    validate_ownership_cfg_correct context freed_in_loop no_errors
