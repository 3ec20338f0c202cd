-- ===== src/Cfg/Builder/Partition.antt =====
-- The blocks cut the statement list into consecutive pieces.
use mathlib.Core.List.{append_assoc, append-nil}
use sigil_lang.Prelude.{
  ℕ, zero, suc, ◌+◌, ◌≡◌, refl, sym, ap, ◌∙◌, inl, inr, true, List, [], ◌∷◌, ◌++◌, Text, length,
  Bool-cases,
}
use sigil_lang.Ast.{Node, NodeKind, kind_of, label, jump, branch}
use sigil_lang.Cfg.{
  Terminator, fallthrough, return, BasicBlock, CfgBuilder, new_builder, finish_block,
  push_statement, start_label, visit, visit_all, first_pass, is_nil, jump_to, branch_to,
}

-- The statements of the blocks, one block after the other.
abbrev pub all_statements : List BasicBlock → List ℕ
all_statements [] = []
all_statements (b ∷ bs) = b.statements ++ all_statements bs

-- i, i + 1, …: `n` numbers.
abbrev pub count_from : ℕ → ℕ → List ℕ
count_from i zero = []
count_from i (suc n) = i ∷ count_from (i + 1) n

all_statements-append :
    (bs cs : List BasicBlock) → all_statements (bs ++ cs) ≡ all_statements bs ++ all_statements cs
all_statements-append [] cs = refl
all_statements-append (b ∷ bs) cs = simp (all_statements-append bs cs, append_assoc)

abbrev seen : CfgBuilder → List ℕ
seen s = all_statements s.blocks ++ s.current_block.statements

finish_statements :
    (t : Terminator) (s : CfgBuilder) → all_statements (finish_block t s).blocks ≡ seen s
unfolding finish_block
finish_statements t s = simp (all_statements-append, append-nil)

seen-finish : (t : Terminator) (s : CfgBuilder) → seen (finish_block t s) ≡ seen s
unfolding finish_block
seen-finish t s = simp (all_statements-append, append-nil)

seen-push : (i : ℕ) (s : CfgBuilder) → seen (push_statement i s) ≡ seen s ++ (i ∷ [])
unfolding push_statement
seen-push i s = simp append_assoc

seen-start : (l : Text) (s : CfgBuilder) → seen (start_label l s) ≡ seen s
unfolding start_label
seen-start l s = elim (Bool-cases (is_nil s.current_block.statements)) [
  | inl e ↦ rw e refl
  | inr e ↦ rw e (unfold finish_block in seen-finish fallthrough s)
]

seen-visit : (i : ℕ) (k : NodeKind) (s : CfgBuilder) → seen (visit i k s) ≡ seen s ++ (i ∷ [])
unfolding visit
seen-visit i (label l) s =
    seen-push i (start_label l s) ∙ ap (λ xs. xs ++ (i ∷ [])) (seen-start l s)
seen-visit i (jump l) s = seen-finish (jump_to l) (push_statement i s) ∙ seen-push i s
seen-visit i (branch c t f) s = seen-finish (branch_to t f) (push_statement i s) ∙ seen-push i s
seen-visit i _ s = seen-push i s

seen-visit_all :
    (i : ℕ) (ns : List Node) (s : CfgBuilder)
    → seen (visit_all i ns s) ≡ seen s ++ count_from i (length ns)
unfolding visit_all
seen-visit_all i [] s = sym (append-nil (seen s))
seen-visit_all i (n ∷ ns) s =
    seen-visit_all (i + 1) ns (visit i (kind_of n) s)
    ∙ ap (λ xs. xs ++ count_from (i + 1) (length ns)) (seen-visit i (kind_of n) s)
    ∙ append_assoc (seen s) (i ∷ []) (count_from (i + 1) (length ns))

is_nil-nil {ℓ} : {A : Type ℓ} (xs : List A) → is_nil xs ≡ true → xs ≡ []
is_nil-nil [] h = refl
is_nil-nil (x ∷ xs) h = cc

-- Every statement is in exactly one block, and the blocks keep the order of the statements: block
-- after block, their statement indices are 0, 1, …, up to the length of the list.
pub first_pass-statements :
    (ns : List Node) → all_statements (first_pass ns new_builder).blocks ≡ count_from 0 (length ns)
unfolding first_pass
first_pass-statements ns = elim (Bool-cases (is_nil s.current_block.statements)) [
  | inl e ↦ elim (Bool-cases (is_nil s.blocks)) [
    | inl f ↦ rw (e, f) (finish_statements return s ∙ total)
    | inr f ↦ rw (e, f) (sym (closed e) ∙ total)
  ]
  | inr e ↦ rw e (finish_statements return s ∙ total)
]
  where
    s : CfgBuilder
    s = visit_all 0 ns new_builder

    total : seen s ≡ count_from 0 (length ns)
    total = seen-visit_all 0 ns new_builder

    closed : is_nil s.current_block.statements ≡ true → seen s ≡ all_statements s.blocks
    closed e = rw (is_nil-nil s.current_block.statements e) (append-nil (all_statements s.blocks))
