-- ===== src/Semantic/Statements/Correct.antt =====
-- What passes the linear pass is valid, with what the statements before it leave known.
use sigil_lang.Prelude.{ℕ, ◌≡◌, refl, Option, none, some, List, [], ◌∷◌, Text, text_eq, lookup}
use sigil_lang.Ast.{node, NodeKind, Nodes, end, next}
use sigil_lang.Semantic.Context.{
  VarInfo, owned, ActiveBorrow, AnalysisContext, get_active_borrow, borrows_of,
}
use sigil_lang.Semantic.Checks.{State, facts}
use sigil_lang.Semantic.Statements.{
  check_borrow, check_free, validate_free, enter_scope, leave_scope_of, at_line, validate_nodes,
  validate_node,
}
use sigil_lang.Prelude.{inl, inr, Option-cases, append-nil_iff}
use sigil_lang.Semantic.Statements.Valid.{after_all, AreValidStatements}
use sigil_lang.Semantic.Statements.Accepts.{validate_nodes-Accepts, validate_nodes_clean}

-- No spawned pattern still has the handle.
abbrev pub IsUnborrowed : Text → AnalysisContext → Type 0
IsUnborrowed x ctx = (bs : List ActiveBorrow) → lookup x ctx.spawn_borrows ≡ some bs → bs ≡ []

abbrev pub FreesUnborrowed : Text → State → Option VarInfo → Type 0
FreesUnborrowed x s none = Unit
FreesUnborrowed x s (some v) = v.state ≡ owned → IsUnborrowed x s.ctx

-- Where a FREE of an owned handle is checked, no spawned pattern still has it.
unfoldable mutual
  unfolding enter_scope at_line

  pub AllFreesUnborrowed : Nodes → State → Type 0
  AllFreesUnborrowed end s = Unit
  AllFreesUnborrowed (next (node sp k) ns) s =
      AreFreesUnborrowed k (at_line sp.line s)
      × AllFreesUnborrowed ns (validate_node sp.line k (at_line sp.line s))

  pub AreFreesUnborrowed : NodeKind → State → Type 0
  AreFreesUnborrowed (NodeKind.free x) s = FreesUnborrowed x s (lookup x s.ctx.variables)
  AreFreesUnborrowed (NodeKind.scope ns) s = AllFreesUnborrowed ns (enter_scope s)
  AreFreesUnborrowed _ s = Unit

no_borrow : (x : Text) (ctx : AnalysisContext) → get_active_borrow x ctx ≡ none → IsUnborrowed x ctx
unfolding get_active_borrow borrows_of
no_borrow x ctx h [] e = refl
no_borrow x ctx h (b ∷ bs) e = absurd (cc (rw (e, get_active_borrow, borrows_of) at h))

free-FreesUnborrowed :
    (x : Text) (line : ℕ) (v : Option VarInfo) (s : State)
    → (validate_free x line v s).errors ≡ []
    → FreesUnborrowed x s v
unfolding validate_free check_free check_borrow
free-FreesUnborrowed x line none s h = tt
free-FreesUnborrowed x line (some v) s h = λ is_owned.
    elim (Option-cases (get_active_borrow x s.ctx)) [
      | inl quiet ↦ no_borrow x s.ctx quiet
      | inr (b, active) ↦ absurd (
          cc
            ((append-nil_iff s.errors _).0
              (rw (is_owned, active, check_free, check_borrow) at h)).1)
    ]

mutual
  unfolding validate_nodes AllFreesUnborrowed enter_scope at_line leave_scope_of

  nodes-AllFreesUnborrowed :
      (ns : Nodes) (s : State) → (validate_nodes ns s).errors ≡ [] → AllFreesUnborrowed ns s
  nodes-AllFreesUnborrowed end s h = tt
  nodes-AllFreesUnborrowed (next (node sp k) ns) s h =
      let after_first = validate_node sp.line k (at_line sp.line s) in
      (
        node-AreFreesUnborrowed sp.line k (at_line sp.line s)
            (validate_nodes_clean ns after_first h),
        nodes-AllFreesUnborrowed ns after_first h,
      )

  node-AreFreesUnborrowed :
      (line : ℕ) (k : NodeKind) (s : State)
      → (validate_node line k s).errors ≡ []
      → AreFreesUnborrowed k s
  node-AreFreesUnborrowed line (NodeKind.free x) s h =
      free-FreesUnborrowed x line (lookup x s.ctx.variables) s h
  node-AreFreesUnborrowed line (NodeKind.scope ns) s h =
      nodes-AllFreesUnborrowed ns (enter_scope s) h
  node-AreFreesUnborrowed line k s h = tt

-- Statements that pass the linear pass without an error are valid, each where the inputs, the
-- outputs, the labels and the variables that the statements before it assign are known: what they
-- evaluate is valid, the targets of branches and jumps are labels, a store is to a variable that is
-- not shared and stays in its allocation, as far as that is known, and in the size of the output, a
-- value that is set or sent has the type of the output or the channel, as far as that is known, and
-- only a handle is freed that the behavior owns, or has freed before. Where an owned handle is freed,
-- no spawned pattern has it by the borrows that the pass has noted. The variables that are known
-- afterwards are those before and the targets of the assignments, with the types, sizes and origins
-- of what is assigned.
pub validate_nodes-AreValid :
    (ns : Nodes) (s : State)
    → (validate_nodes ns s).errors ≡ []
    → (AreValidStatements ns (facts s) × AllFreesUnborrowed ns s)
      × (facts (validate_nodes ns s) ≡ after_all ns (facts s))
validate_nodes-AreValid ns s h =
    let accepted = validate_nodes-Accepts ns s in
    (((accepted.clean h).1, nodes-AllFreesUnborrowed ns s h), accepted.known)
