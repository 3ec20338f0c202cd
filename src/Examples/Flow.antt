-- ===== src/Examples/Flow.antt =====
-- A concrete statement list for the theorems on `Cfg`.
use sigil_lang.Prelude.{
  ℕ, ◌<◌, ◌≡◌, ◌↔◌, refl, Bool, true, false, some, List, [], ◌∷◌, codes, text_eq, text_beq, nat_eq,
  lookup, insert, contains, length, All,
}
use sigil_lang.Worklist.{Reach, run, push_all}
use sigil_lang.Ast.{
  int_lit, var, Node, node, NodeKind, assignment, label, branch, jump, free, alloc, bytes, scope,
  Nodes, end, next,
}
use sigil_lang.Cfg.Scopes.{flatten_scopes}
use sigil_lang.Cfg.Scopes.Flat.{Flattens, flatten_scopes-Flattens}
use sigil_lang.Cfg.{
  build, first_pass, new_builder, second_pass, visit, visit_all, finish_block, push_statement,
  start_label, link_at, link, connect, connect_label, connect_next,
}
use sigil_lang.Cfg.Builder.Partition.{count_from, all_statements, first_pass-statements}
use sigil_lang.Cfg.Builder.Labels.Heads.{IsLabelAt}
use sigil_lang.Cfg.Builder.Labels.Starts.{IsKnown, StartsBlock, build-label}
use sigil_lang.Cfg.Builder.Links.{successors_at, targets_at}
use sigil_lang.Cfg.Builder.Links.Pass.{build-successors}
use sigil_lang.Cfg.Builder.Links.Range.{build-successors_in_range}
use sigil_lang.Cfg.Paths.{all_paths}
use sigil_lang.Cfg.Paths.Correct.{Walk, all_paths_correct}
use sigil_lang.Cfg.Terminate.{
  next_blocks, all_paths_terminate, reachable_blocks, fixpoint, sweep, sweep_block, verdict,
  total_successors,
}
use sigil_lang.Cfg.Terminate.Fixpoint.{CanExit}
use sigil_lang.Cfg.Terminate.Correct.{all_paths_terminate_correct}

abbrev at_line : ℕ → NodeKind → Node
at_line l k = node (record { line = l; col = 3; len = 1 }) k

-- A branch to two labels; the first jumps over the second.
abbrev statements : List Node
statements =
    at_line 1 (assignment (codes "c") (int_lit 1))
    ∷ at_line 2 (branch (var (codes "c")) (codes "yes") (codes "no"))
    ∷ at_line 3 (label (codes "yes"))
    ∷ at_line 4 (jump (codes "done"))
    ∷ at_line 5 (label (codes "no"))
    ∷ at_line 6 (label (codes "done"))
    ∷ []

-- A loop that has no way out.
abbrev endless : List Node
endless = at_line 1 (label (codes "again")) ∷ at_line 2 (jump (codes "again")) ∷ []

statements_terminate : all_paths_terminate (build statements) ≡ some true
unfolding build first_pass second_pass visit visit_all finish_block push_statement start_label
    link_at link connect connect_label connect_next lookup insert text_beq all_paths_terminate
    reachable_blocks fixpoint sweep sweep_block verdict total_successors next_blocks run contains
    push_all
statements_terminate = refl

endless_fails : all_paths_terminate (build endless) ≡ some false
unfolding build first_pass second_pass visit visit_all finish_block push_statement start_label
    link_at link connect connect_label connect_next lookup insert text_beq all_paths_terminate
    reachable_blocks fixpoint sweep sweep_block verdict total_successors next_blocks run contains
    push_all
endless_fails = refl

all_paths_terminate_correct_example :
    (b : Bool) × (all_paths_terminate (build statements) ≡ some b)
    × ((b ≡ true) ↔ (
        (i : ℕ)
        → Reach (next_blocks (build statements).blocks) ((build statements).entry ∷ []) i
        → CanExit (build statements).blocks (build statements).exits i))
all_paths_terminate_correct_example = all_paths_terminate_correct statements

build-successors_example :
    successors_at (build statements).blocks 0
    ≡ targets_at (build statements).label_to_block (build statements).blocks 0
build-successors_example = build-successors statements 0

build-successors_in_range_example :
    All (λ j. j < length (build statements).blocks) (successors_at (build statements).blocks 0)
build-successors_in_range_example = build-successors_in_range statements 0

build-label_example :
    (((i : ℕ) × IsLabelAt statements (codes "done") i)
      ↔ IsKnown (codes "done") (build statements).label_to_block)
    × ((j : ℕ)
        → lookup (codes "done") (build statements).label_to_block ≡ some j
        → StartsBlock statements (codes "done") j)
build-label_example = build-label statements (codes "done")

first_pass-statements_example :
    all_statements (first_pass statements new_builder).blocks ≡ count_from 0 6
first_pass-statements_example = first_pass-statements statements

-- A scope that allocates a handle.
abbrev scoped : Nodes
scoped = next (at_line 2 (assignment (codes "h") (alloc (int_lit 8) bytes false))) end

abbrev in_scope : Nodes
in_scope = next (at_line 1 (scope scoped)) end

flatten_scopes-Flattens_example : Flattens in_scope (flatten_scopes in_scope)
flatten_scopes-Flattens_example = flatten_scopes-Flattens in_scope

-- `h = ALLOC 8 bytes`, `LABEL top`, `FREE h`, `BRANCH 1 top done`, `LABEL done`: every round of the
-- loop frees the handle again.
abbrev freeing_loop : List Node
freeing_loop =
    at_line 1 (assignment (codes "h") (alloc (int_lit 8) bytes false))
    ∷ at_line 2 (label (codes "top"))
    ∷ at_line 3 (free (codes "h"))
    ∷ at_line 4 (branch (int_lit 1) (codes "top") (codes "done"))
    ∷ at_line 5 (label (codes "done"))
    ∷ []

freeing_loop_paths : all_paths (build freeing_loop) ≡ some ((0 ∷ 1 ∷ 2 ∷ []) ∷ [])
unfolding all_paths build first_pass second_pass visit visit_all finish_block push_statement
    start_label link_at link connect connect_label connect_next lookup insert text_beq contains
freeing_loop_paths = refl

all_paths_correct_example :
    (ps : List (List ℕ)) × (all_paths (build freeing_loop) ≡ some ps)
    × ((p : List ℕ)
        → (contains ps p ≡ true) ↔ Walk (build freeing_loop).blocks [] (build freeing_loop).entry p)
all_paths_correct_example = all_paths_correct freeing_loop
