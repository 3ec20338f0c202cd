-- ===== src/Cfg/Scopes.antt =====
-- compiler/src/cfg.rs, `flatten_scopes`: the bodies of scopes are inlined, and what a scope has
-- allocated is freed at its end.
pub mod Flat
use mathlib.Core.List.{reverse}
use sigil_lang.Prelude.{not, List, [], ◌∷◌, ◌++◌, map, Text, text_eq, contains, keep}
use sigil_lang.Ast.{Span, alloc, Node, node, NodeKind, assignment, scope, free, Nodes, end, next}

-- The targets that this statement allocates, or frees.
abbrev pub allocated_by : NodeKind → List Text
allocated_by (assignment t (alloc s ty sh)) = t ∷ []
allocated_by _ = []

abbrev pub freed_by : NodeKind → List Text
freed_by (free t) = t ∷ []
freed_by _ = []

unfoldable pub scoped_allocs : Nodes → List Text
scoped_allocs end = []
scoped_allocs (next (node s k) ns) = allocated_by k ++ scoped_allocs ns

unfoldable pub freed : Nodes → List Text
freed end = []
freed (next (node s k) ns) = freed_by k ++ freed ns

-- The synthetic `FREE` statements of a scope, in reverse order of allocation.
unfoldable pub scope_frees : Span → Nodes → List Node
unfolding scoped_allocs freed
scope_frees sp inner =
    map (λ t. node sp (free t))
      (reverse (keep (λ t. not (contains (freed inner) t)) (scoped_allocs inner)))

unfoldable mutual
  unfolding scope_frees

  pub flatten_scopes : Nodes → List Node
  flatten_scopes end = []
  flatten_scopes (next n ns) = flatten_node n ++ flatten_scopes ns

  pub flatten_node : Node → List Node
  flatten_node (node sp k) = flatten_kind sp k

  pub flatten_kind : Span → NodeKind → List Node
  flatten_kind sp (scope inner) = flatten_scopes inner ++ scope_frees sp inner
  flatten_kind sp k = node sp k ∷ []
