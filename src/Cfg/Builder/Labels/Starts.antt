-- ===== src/Cfg/Builder/Labels/Starts.antt =====
-- compiler/src/cfg.rs: a label is known to the graph where a LABEL stands, and its block starts there.
use mathlib.Core.Option.{some-injective}
use sigil_lang.Prelude.{
  ℕ, zero, suc, ◌+◌, ◌≡◌, refl, ap, ◌∙◌, ◌↔◌, inl, inr, Option, none, some, List, [], ◌∷◌, Text,
  text_eq, eq_iff, ◌==◌, Map, All-get, get_elem?, lookup, insert, lookup-insert, Bool-cases,
  Option-cases,
}
use sigil_lang.Ast.{Node, NodeKind, kind_of, label, jump, branch}
use sigil_lang.Cfg.{
  BasicBlock, CfgBuilder, new_builder, finish_block, register, build, push_statement, start_label,
  visit, visit_all, first_pass, is_nil,
}
use sigil_lang.Cfg.Builder.Labels.{label_at, build-label_at}
use sigil_lang.Cfg.Builder.Labels.Heads.{IsLabelAt, StartsAtLabel, Headed, build-AreHeaded}

-- The map leads the label somewhere.
abbrev pub IsKnown : Text → Map Text ℕ → Type 0
IsKnown l m = (j : ℕ) × (lookup l m ≡ some j)

insert-IsKnown : (l k : Text) (v : ℕ) (m : Map Text ℕ) → IsKnown l m → IsKnown l (insert k v m)
insert-IsKnown l k v m (j, e) = elim (Bool-cases (k == l)) [
  | inl q ↦ (v, lookup-insert k l v m ∙ rw q refl)
  | inr q ↦ (j, lookup-insert k l v m ∙ rw q e)
]

insert-IsKnown_self : (l : Text) (v : ℕ) (m : Map Text ℕ) → IsKnown l (insert l v m)
insert-IsKnown_self l v m = (v, lookup-insert l l v m ∙ rw ((eq_iff l l).1 refl) refl)

register-IsKnown :
    (l : Text) (o : Option Text) (v : ℕ) (m : Map Text ℕ) → IsKnown l m → IsKnown l (register o v m)
register-IsKnown l none v m h = h
register-IsKnown l (some k) v m h = insert-IsKnown l k v m h

start_label-IsKnown :
    (l k : Text) (s : CfgBuilder)
    → IsKnown l s.label_to_block
    → IsKnown l (start_label k s).label_to_block
unfolding start_label finish_block
start_label-IsKnown l k s h = elim (Bool-cases (is_nil s.current_block.statements)) [
  | inl e ↦ rw e (insert-IsKnown l k _ _ h)
  | inr e ↦ rw e (insert-IsKnown l k _ _ (register-IsKnown l s.current_block.label _ _ h))
]

visit-IsKnown :
    (l : Text) (i : ℕ) (k : NodeKind) (s : CfgBuilder)
    → IsKnown l s.label_to_block
    → IsKnown l (visit i k s).label_to_block
unfolding visit push_statement finish_block
visit-IsKnown l i (label k) s h = start_label-IsKnown l k s h
visit-IsKnown l i (jump k) s h = register-IsKnown l s.current_block.label _ _ h
visit-IsKnown l i (branch c t f) s h = register-IsKnown l s.current_block.label _ _ h
visit-IsKnown l i k s h = h

visit_all-IsKnown :
    (l : Text) (i : ℕ) (ns : List Node) (s : CfgBuilder)
    → IsKnown l s.label_to_block
    → IsKnown l (visit_all i ns s).label_to_block
unfolding visit_all
visit_all-IsKnown l i [] s h = h
visit_all-IsKnown l i (n ∷ ns) s h =
    visit_all-IsKnown l (i + 1) ns _ (visit-IsKnown l i (kind_of n) s h)

label-IsKnown : (l : Text) (i : ℕ) (s : CfgBuilder) → IsKnown l (visit i (label l) s).label_to_block
unfolding visit push_statement start_label
label-IsKnown l i s = insert-IsKnown_self l _ _

visit_all-label :
    (l : Text) (i m : ℕ) (ns : List Node) (n : Node) (s : CfgBuilder)
    → get_elem? ns m ≡ some n
    → kind_of n ≡ label l
    → IsKnown l (visit_all i ns s).label_to_block
unfolding visit_all
visit_all-label l i m [] n s e k = absurd (cc (e))
visit_all-label l i zero (x ∷ ns) n s e k =
    let here : kind_of x ≡ label l = ap kind_of (some-injective x n e) ∙ k in
    visit_all-IsKnown l (i + 1) ns _ (rw here (label-IsKnown l i s))
visit_all-label l i (suc m) (x ∷ ns) n s e k = visit_all-label l (i + 1) m ns n _ e k

build-IsKnown :
    (ns : List Node) (l : Text) → ((i : ℕ) × IsLabelAt ns l i) → IsKnown l (build ns).label_to_block
unfolding build first_pass finish_block
build-IsKnown ns l (i, (n, e, k)) =
    let s = visit_all 0 ns new_builder in
    let h = visit_all-label l 0 i ns n new_builder e k in
    let finished = register-IsKnown l s.current_block.label s.next_id s.label_to_block h in
    elim (Bool-cases (is_nil s.current_block.statements)) [
      | inl e ↦ elim (Bool-cases (is_nil s.blocks)) [
        | inl f ↦ rw (e, f) finished
        | inr f ↦ rw (e, f) h
      ]
      | inr e ↦ rw e finished
    ]

first_label :
    (ns : List Node) (l : Text) (b : BasicBlock) → StartsAtLabel ns l b → (i : ℕ) × IsLabelAt ns l i
first_label ns l b (i, rest, starts, stands) = (i, stands)

-- The block at an index starts with the label.
abbrev pub StartsBlock : List Node → Text → ℕ → Type 0
StartsBlock ns l j =
    (b : BasicBlock) × (get_elem? (build ns).blocks j ≡ some b)
    × (b.label ≡ some l)
    × StartsAtLabel ns l b

build-StartsBlock :
    (ns : List Node) (l : Text) (j : ℕ)
    → lookup l (build ns).label_to_block ≡ some j
    → StartsBlock ns l j
build-StartsBlock ns l j known = elim (Option-cases (get_elem? (build ns).blocks j)) [
  | inl missing ↦ absurd (cc (rw (missing, label_at) at (build-label_at ns l j known)))
  | inr (b, found) ↦
      let named : b.label ≡ some l = rw (found, label_at) at (build-label_at ns l j known) in
      (
        b,
        found,
        named,
        All-get (Headed ns) (build ns).blocks j b (build-AreHeaded ns) found l named,
      )
]

-- The graph knows exactly the labels that stand as LABEL statements in the list, and a label that it
-- knows leads to a block that has the label and whose first statement is a LABEL statement of it.
pub build-label :
    (ns : List Node) (l : Text)
    → (((i : ℕ) × IsLabelAt ns l i) ↔ IsKnown l (build ns).label_to_block)
      × ((j : ℕ) → lookup l (build ns).label_to_block ≡ some j → StartsBlock ns l j)
build-label ns l = (
  (
    build-IsKnown ns l,
    λ (j, known).
        let (b, found, named, first) = build-StartsBlock ns l j known in first_label ns l b first,
  ),
  build-StartsBlock ns l,
)
