-- ===== src/Semantic/Outputs/Uses.antt =====
-- compiler/src/semantic/mod.rs, `check_outputs_consumed`: what the statements of a composition do
-- with places, told apart from how the check collects it.
use sigil_lang.Prelude.{◌≡◌, ◌⊎◌, true, false, Option, none, some, [], Text, text_eq, lookup}
use mathlib.Core.List.{Memᴰ}
use sigil_lang.Ast.{
  Expr, Exprs, nil, cons, Offset, no_offset, at_offset, node, NodeKind, Nodes, end, next, Parameter,
  Contract,
}
use sigil_lang.Semantic.Context.{AnalysisContext, has_key}
use sigil_lang.Semantic.Outputs.{Place, is_field}

abbrev pub Never : Type 0
Never = false ≡ true

abbrev pub Somewhere : (NodeKind → Type 0) → Nodes → Type 0
Somewhere P end = Never
Somewhere P (next (node sp k) ns) = P k ⊎ Somewhere P ns

abbrev pub Everywhere : (NodeKind → Type 0) → Nodes → Type 0
Everywhere P end = Unit
Everywhere P (next (node sp k) ns) = P k × Everywhere P ns

-- The expression reads the place: it is a variable or a field of one, or an argument reads it.
unfoldable mutual
  pub Reads : Expr → Place → Type 0
  Reads (Expr.var x) p = (x, none) ≡ p
  Reads (Expr.field (Expr.var x) f) p = (x, some f) ≡ p
  Reads (Expr.field e _) p = Reads e p
  Reads (Expr.call _ args) p = ReadsIn args p
  Reads (Expr.spawn _ args) p = ReadsIn args p
  Reads _ p = Never

  pub ReadsIn : Exprs → Place → Type 0
  ReadsIn nil p = Never
  ReadsIn (cons a more) p = Reads a p ⊎ ReadsIn more p

abbrev pub ReadsOffset : Offset → Place → Type 0
ReadsOffset no_offset p = Never
ReadsOffset (at_offset e) p = Reads e p

-- The statement uses the place up: as an argument, a condition, or a value that is set, discarded,
-- stored or sent.
abbrev pub Sinks : Place → NodeKind → Type 0
Sinks p (NodeKind.call_node _ _ args _) = ReadsIn args p
Sinks p (NodeKind.assignment _ (Expr.call _ args)) = ReadsIn args p
Sinks p (NodeKind.assignment _ (Expr.spawn _ args)) = ReadsIn args p
Sinks p (NodeKind.branch e _ _) = Reads e p
Sinks p (NodeKind.set _ e) = Reads e p
Sinks p (NodeKind.discard e) = Reads e p
Sinks p (NodeKind.store _ e _ o) = ReadsOffset o p ⊎ Reads e p
Sinks p (NodeKind.channel_send _ e) = Reads e p
Sinks p (NodeKind.spawn_node _ _ args) = ReadsIn args p
Sinks p _ = Never

-- The statement assigns what reads the place, other than a call or a spawn, to the variable.
abbrev pub Feeds : Text → Place → NodeKind → Type 0
Feeds t p (NodeKind.assignment _ (Expr.call _ _)) = Never
Feeds t p (NodeKind.assignment _ (Expr.spawn _ _)) = Never
Feeds t p (NodeKind.assignment u e) = (u ≡ t) × Reads e p
Feeds t p _ = Never

-- A place is used if a statement uses it up, or feeds with it a variable that is used, itself or in a
-- field.
pub data Used (ns : Nodes) : Place → Type 0 where
  used_up : {p : Place} → Somewhere (Sinks p) ns → Used ns p
  fed :
      {t : Text} {f : Option Text} {p : Place}
      → Somewhere (Feeds t p) ns
      → Used ns (t, f)
      → Used ns p

-- A field is used, too, if its variable is as a whole.
abbrev pub IsUsed : Nodes → Place → Type 0
IsUsed ns (x, f) = Used ns (x, f) ⊎ ((is_field f ≡ true) × Used ns (x, none))

-- The statement makes an output of a call that has to be used: `t = CALL f` a field of `t` for each
-- output in the contract of `f`, and a call with a list of names each of them that is no output of
-- the composition.
abbrev pub Produces : AnalysisContext → Place → NodeKind → Type 0
Produces ctx p (NodeKind.assignment t (Expr.call f _)) =
    (c : Contract) × (lookup f ctx.dependency_contracts ≡ some c)
    × ((o : Parameter) × Memᴰ o c.outputs × ((t, some o.name) ≡ p))
Produces ctx p (NodeKind.call_node _ f _ names) =
    (o : Text) × Memᴰ o names × (has_key o ctx.outputs ≡ false) × ((o, none) ≡ p)
Produces ctx p _ = Never

-- A call without a target and without names is of a behavior without outputs, if it is known.
abbrev pub DropsNothing : AnalysisContext → NodeKind → Type 0
DropsNothing ctx (NodeKind.call_node _ f _ []) =
    (c : Contract) → lookup f ctx.dependency_contracts ≡ some c → c.outputs ≡ []
DropsNothing ctx _ = Unit
