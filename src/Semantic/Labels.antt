-- ===== src/Semantic/Labels.antt =====
-- compiler/src/semantic/mod.rs: the labels are collected before the statements are checked.
pub mod Correct
use sigil_lang.Prelude.{ℕ, Option, none, some, List, [], ◌∷◌, Text}
use sigil_lang.Ast.{PlatformImpl, Composition, Behavior, Node, node, NodeKind, Nodes, end, next}
use sigil_lang.Semantic.Errors.{duplicate_label}
use sigil_lang.Semantic.Context.{define_label}
use sigil_lang.Semantic.Checks.{Step, push_error}

-- What `define_label` returns, and the context after.
unfoldable pub report_label : Text → ℕ → Option ℕ → Step
report_label name line none s = s
report_label name line (some first) s = push_error (duplicate_label name first) line none s

unfoldable pub collect_label : Text → ℕ → Step
unfolding define_label report_label
collect_label name line s =
    let defined = define_label name line s.ctx in
    report_label name line defined.0 (record s { ctx = defined.1 })

unfoldable mutual
  unfolding collect_label

  pub collect_labels_from_nodes : Nodes → Step
  collect_labels_from_nodes end s = s
  collect_labels_from_nodes (next n ns) s = collect_labels_from_nodes ns (collect_labels_of n s)

  pub collect_labels_of : Node → Step
  collect_labels_of (node sp k) s = collect_labels_of_kind sp.line k s

  pub collect_labels_of_kind : ℕ → NodeKind → Step
  collect_labels_of_kind line (NodeKind.label name) s = collect_label name line s
  collect_labels_of_kind line (NodeKind.scope inner) s = collect_labels_from_nodes inner s
  collect_labels_of_kind line _ s = s

unfoldable pub collect_first : List PlatformImpl → Step
unfolding collect_labels_from_nodes
collect_first [] s = s
collect_first (impl ∷ impls) s = collect_labels_from_nodes impl.nodes s

unfoldable pub collect_composition : Option Composition → Step
unfolding collect_labels_from_nodes
collect_composition none s = s
collect_composition (some comp) s = collect_labels_from_nodes comp.nodes s

unfoldable pub collect_labels : Behavior → Step
unfolding collect_first collect_composition
collect_labels b s = collect_composition b.composition (collect_first b.implementations s)
