-- ===== src/Graph/Builder/Edges.antt =====
-- compiler/src/graph/builder.rs, `derive_edges_from_composites`: which edges are added.
use sigil_lang.Prelude.{nat_eq, text_eq}
use sigil_lang.Ast.{ty_eq}
use sigil_lang.Graph.{direction_eq}
