-- ===== src/Cfg.antt =====
-- compiler/src/cfg.rs: the control flow graph of a statement list, and how it is built. A block
-- holds the indices of its statements.
pub mod Scopes
pub mod Builder
pub mod Terminate
pub mod Paths
use sigil_lang.Prelude.{
  ℕ, zero, suc, ◌+◌, Bool, true, false, Option, none, some, List, [], ◌∷◌, ◌++◌, Text, Map, nat_eq,
  text_eq, lookup, insert, length, modify, get_elem?, keep, map, ltb, ◌||◌, if◌then◌else◌,
}
use sigil_lang.Ast.{Node, NodeKind, kind_of, label, jump, branch}

pub data Terminator : Type 0 where
  fallthrough : Terminator
  jump_to : Text → Terminator
  branch_to : Text → Text → Terminator
  return : Terminator

pub record BasicBlock : Type 0 where
  pub id : ℕ
  pub statements : List ℕ
  pub label : Option Text
  pub successors : List ℕ
  pub predecessors : List ℕ
  pub terminator : Terminator

pub record Cfg : Type 0 where
  pub blocks : List BasicBlock
  pub entry : ℕ
  pub exits : List ℕ
  pub label_to_block : Map Text ℕ

pub record CfgBuilder : Type 0 where
  pub blocks : List BasicBlock
  pub label_to_block : Map Text ℕ
  pub current_block : BasicBlock
  pub next_id : ℕ

abbrev pub empty_block : BasicBlock
empty_block = record {
  id = 0;
  statements = [];
  label = none;
  successors = [];
  predecessors = [];
  terminator = fallthrough;
}

-- `CFGBuilder::new`.
abbrev pub new_builder : CfgBuilder
new_builder = record { blocks = []; label_to_block = []; current_block = empty_block; next_id = 0 }

abbrev pub register : Option Text → ℕ → Map Text ℕ → Map Text ℕ
register none i m = m
register (some l) i m = insert l i m

unfoldable pub finish_block : Terminator → CfgBuilder → CfgBuilder
finish_block t s = record {
  blocks = s.blocks ++ (record s.current_block { id = s.next_id; terminator = t } ∷ []);
  label_to_block = register s.current_block.label s.next_id s.label_to_block;
  current_block = empty_block;
  next_id = s.next_id + 1;
}

-- `self.current_block.statements.push(idx)`.
unfoldable pub push_statement : ℕ → CfgBuilder → CfgBuilder
push_statement i s = record s {
  current_block = record s.current_block { statements = s.current_block.statements ++ (i ∷ []) };
}

abbrev pub is_nil {ℓ} : {A : Type ℓ} → List A → Bool
is_nil [] = true
is_nil (_ ∷ _) = false

-- A label ends the block before it, unless that is empty.
unfoldable pub start_label : Text → CfgBuilder → CfgBuilder
unfolding finish_block
start_label l s =
    let s' = if is_nil s.current_block.statements then s else finish_block fallthrough s in
    record s' {
      current_block = record s'.current_block { label = some l };
      label_to_block = insert l s'.next_id s'.label_to_block;
    }

-- The body of the loop of `first_pass`.
unfoldable pub visit : ℕ → NodeKind → CfgBuilder → CfgBuilder
visit i (label l) s = push_statement i (start_label l s)
visit i (jump l) s = finish_block (jump_to l) (push_statement i s)
visit i (branch c t f) s = finish_block (branch_to t f) (push_statement i s)
visit i _ s = push_statement i s

unfoldable pub visit_all : ℕ → List Node → CfgBuilder → CfgBuilder
visit_all i [] s = s
visit_all i (n ∷ ns) s = visit_all (i + 1) ns (visit i (kind_of n) s)

unfoldable pub first_pass : List Node → CfgBuilder → CfgBuilder
first_pass ns s =
    let s' = visit_all 0 ns s in
    if is_nil s'.current_block.statements
    then (if is_nil s'.blocks then finish_block return s' else s')
    else finish_block return s'

-- `self.blocks[i].successors.push(j)`, and `self.blocks[k].predecessors.push(id)` in bounds.
unfoldable pub connect : ℕ → ℕ → ℕ → ℕ → List BasicBlock → List BasicBlock
connect i id j k bs =
    let bs' = modify bs i (λ b. record b { successors = b.successors ++ (j ∷ []) }) in
    if ltb k (length bs')
    then modify bs' k (λ b. record b { predecessors = b.predecessors ++ (id ∷ []) })
    else bs'

unfoldable pub connect_label : Map Text ℕ → ℕ → ℕ → Text → List BasicBlock → List BasicBlock
connect_label labels i id l bs = elim (lookup l labels) [ some j ↦ connect i id j j bs | none ↦ bs ]

-- The successor of a block that falls through is the next one, if there is one.
unfoldable pub connect_next : ℕ → ℕ → List BasicBlock → List BasicBlock
connect_next i id bs = elim (get_elem? bs (i + 1)) [
  | some b ↦ connect i id b.id (i + 1) bs
  | none ↦ bs
]

-- The body of the loop of `second_pass`.
unfoldable pub link : Map Text ℕ → ℕ → ℕ → Terminator → List BasicBlock → List BasicBlock
link labels i id fallthrough bs = connect_next i id bs
link labels i id (jump_to l) bs = connect_label labels i id l bs
link labels i id (branch_to t f) bs = connect_label labels i id f (connect_label labels i id t bs)
link labels i id return bs = bs

unfoldable pub link_at : Map Text ℕ → ℕ → List BasicBlock → List BasicBlock
link_at labels i bs = elim (get_elem? bs i) [
  | some b ↦ link labels i b.id b.terminator bs
  | none ↦ bs
]

unfoldable pub second_pass : Map Text ℕ → ℕ → ℕ → List BasicBlock → List BasicBlock
second_pass labels zero i bs = bs
second_pass labels (suc n) i bs = second_pass labels n (i + 1) (link_at labels i bs)

abbrev pub is_return : Terminator → Bool
is_return return = true
is_return _ = false

abbrev pub is_exit : BasicBlock → Bool
is_exit b = is_nil b.successors || is_return b.terminator

-- `CFG::build`.
unfoldable pub build : List Node → Cfg
build ns =
    let s = first_pass ns new_builder in
    let bs = second_pass s.label_to_block (length s.blocks) 0 s.blocks in
    record {
      blocks = bs;
      entry = 0;
      exits = map (λ b. b.id) (keep is_exit bs);
      label_to_block = s.label_to_block;
    }
