-- ===== src/Cfg/Builder/Links/Pass.antt =====
-- The second pass over all blocks.
use mathlib.Core.Path.{ap₂}
use sigil_lang.Prelude.{
  ℕ, zero, suc, ◌+◌, ◌≤◌, ◌≡◌, refl, sym, ap, ◌∙◌, inl, inr, ◌&&◌, none, some, List, [], ◌∷◌, ◌++◌,
  map, arith, Text, text_eq, nat_beq, leb, ltb, Map, All, All-append, nat_beq_iff,
  lt-length_of_get_elem?, length, get_elem?, if◌then◌else◌, Bool-cases, Option-cases,
}
use sigil_lang.Ast.{Node, NodeKind, kind_of, label, jump, branch}
use sigil_lang.Cfg.{
  Terminator, fallthrough, return, jump_to, branch_to, BasicBlock, CfgBuilder, new_builder,
  first_pass, visit, visit_all, start_label, push_statement, finish_block, is_nil, link_at,
  second_pass, build,
}
use sigil_lang.Cfg.Builder.Numbers.{strip, strip-link_at, strip-second_pass, length-strip}
use sigil_lang.Cfg.Builder.Links.{successors_at, targets, targets_at, plus, successors-link_at}

get_elem?-strip :
    (bs : List BasicBlock) (i : ℕ)
    → get_elem? (map strip bs) i ≡ (elim (get_elem? bs i) [ some b ↦ some (strip b) | none ↦ none ])
get_elem?-strip [] i = refl
get_elem?-strip (b ∷ bs) zero = refl
get_elem?-strip (b ∷ bs) (suc i) = get_elem?-strip bs i

targets-strip :
    (labels : Map Text ℕ) (bs : List BasicBlock) (i : ℕ) (t : Terminator)
    → targets labels (map strip bs) i t ≡ targets labels bs i t
targets-strip labels bs i fallthrough = elim (Option-cases (get_elem? bs (i + 1))) [
  | inl e ↦ rw (get_elem?-strip bs (i + 1), targets) (rw (e, targets) refl)
  | inr (b, e) ↦ rw (get_elem?-strip bs (i + 1), targets) (rw (e, targets) refl)
]
targets-strip labels bs i (jump_to l) = refl
targets-strip labels bs i (branch_to t f) = refl
targets-strip labels bs i return = refl

targets_at-strip :
    (labels : Map Text ℕ) (bs : List BasicBlock) (i : ℕ)
    → targets_at labels (map strip bs) i ≡ targets_at labels bs i
targets_at-strip labels bs i = elim (Option-cases (get_elem? bs i)) [
  | inl e ↦ rw (get_elem?-strip bs i, targets_at) (rw (e, targets_at) refl)
  | inr (b, e) ↦
      rw (get_elem?-strip bs i, targets_at)
        (rw (e, targets_at) (targets-strip labels bs i b.terminator))
]

targets_at-same :
    (labels : Map Text ℕ) (bs cs : List BasicBlock) (i : ℕ)
    → map strip bs ≡ map strip cs
    → targets_at labels bs i ≡ targets_at labels cs i
targets_at-same labels bs cs i e =
    sym (targets_at-strip labels bs i)
    ∙ ap (λ ds. targets_at labels ds i) e
    ∙ targets_at-strip labels cs i

-- More successors for the blocks from `i` up to `i + n`.
abbrev plus_between : ℕ → ℕ → ℕ → List ℕ → List ℕ → List ℕ
plus_between i n m new old = if leb i m && ltb m (i + n) then old ++ new else old

successors-second_pass :
    (labels : Map Text ℕ) (n i m : ℕ) (bs : List BasicBlock)
    → i + n ≤ length bs
    → successors_at (second_pass labels n i bs) m
      ≡ plus_between i n m (targets_at labels bs m) (successors_at bs m)
unfolding second_pass
successors-second_pass labels zero i m bs h = ground arith
successors-second_pass labels (suc n) i m bs h =
    let bs' = link_at labels i bs in
    let same = strip-link_at labels i bs in
    successors-second_pass labels n (i + 1) m bs' (omega (arith, length-strip bs' bs same))
    ∙ ap₂ (plus_between (i + 1) n m) (targets_at-same labels bs' bs m same)
        (successors-link_at labels i m bs (omega arith))
    ∙ merge (targets_at labels bs i) (targets_at labels bs m) (successors_at bs m)
        (λ e. ap (targets_at labels bs) e)
  where
    merge :
        (xs ys zs : List ℕ)
        → (i ≡ m → xs ≡ ys)
        → plus_between (i + 1) n m ys (plus i m xs zs) ≡ plus_between i (suc n) m ys zs
    merge xs ys zs e = elim (Bool-cases (nat_beq i m)) [
      | inl q ↦ ground (arith, e ((nat_beq_iff i m).0 q))
      | inr q ↦ ground arith
    ]

-- No block has successors before the second pass.
record IsUnlinked (s : CfgBuilder) : Type 0 where
  blocks : All (λ b. b.successors ≡ []) s.blocks
  current : s.current_block.successors ≡ []

finish-IsUnlinked : (t : Terminator) (s : CfgBuilder) → IsUnlinked s → IsUnlinked (finish_block t s)
unfolding finish_block
finish-IsUnlinked t s h = record {
  blocks = All-append _ s.blocks _ h.blocks (h.current, tt);
  current = refl;
}

visit-IsUnlinked : (i : ℕ) (k : NodeKind) (s : CfgBuilder) → IsUnlinked s → IsUnlinked (visit i k s)
unfolding visit start_label push_statement
visit-IsUnlinked i (label l) s h = elim (Bool-cases (is_nil s.current_block.statements)) [
  | inl e ↦ rw e (record { blocks = h.blocks; current = h.current })
  | inr e ↦ rw e (
      let f = finish-IsUnlinked fallthrough s h in
      record { blocks = f.blocks; current = f.current })
]
visit-IsUnlinked i (jump l) s h =
    finish-IsUnlinked _ (push_statement i s) (record { blocks = h.blocks; current = h.current })
visit-IsUnlinked i (branch c t f) s h =
    finish-IsUnlinked _ (push_statement i s) (record { blocks = h.blocks; current = h.current })
visit-IsUnlinked i _ s h = record { blocks = h.blocks; current = h.current }

visit_all-IsUnlinked :
    (i : ℕ) (ns : List Node) (s : CfgBuilder) → IsUnlinked s → IsUnlinked (visit_all i ns s)
unfolding visit_all
visit_all-IsUnlinked i [] s h = h
visit_all-IsUnlinked i (n ∷ ns) s h =
    visit_all-IsUnlinked (i + 1) ns _ (visit-IsUnlinked i (kind_of n) s h)

first_pass-IsUnlinked : (ns : List Node) → IsUnlinked (first_pass ns new_builder)
unfolding first_pass
first_pass-IsUnlinked ns = elim (Bool-cases (is_nil s.current_block.statements)) [
  | inl e ↦ elim (Bool-cases (is_nil s.blocks)) [
    | inl f ↦ rw (e, f) (finish-IsUnlinked return s h)
    | inr f ↦ rw (e, f) h
  ]
  | inr e ↦ rw e (finish-IsUnlinked return s h)
]
  where
    s : CfgBuilder
    s = visit_all 0 ns new_builder

    h : IsUnlinked s
    h = visit_all-IsUnlinked 0 ns new_builder (record { blocks = tt; current = refl })

successors_at-nil :
    (bs : List BasicBlock) (m : ℕ) → All (λ b. b.successors ≡ []) bs → successors_at bs m ≡ []
successors_at-nil [] m h = refl
successors_at-nil (b ∷ bs) zero h = h.0
successors_at-nil (b ∷ bs) (suc m) h = successors_at-nil bs m h.1

targets_at-past :
    (labels : Map Text ℕ) (bs : List BasicBlock) (m : ℕ)
    → length bs ≤ m
    → targets_at labels bs m ≡ []
targets_at-past labels bs m h = elim (Option-cases (get_elem? bs m)) [
  | inl e ↦ rw (e, targets_at) refl
  | inr (b, e) ↦ absurd (omega (arith, lt-length_of_get_elem? bs m b e))
]

-- In the graph that is built, the successors of each block are those of its terminator: the next
-- block, the blocks of the labels that it names and that are defined, or none.
pub build-successors :
    (ns : List Node) (m : ℕ)
    → successors_at (build ns).blocks m ≡ targets_at (build ns).label_to_block (build ns).blocks m
unfolding build
build-successors ns m =
    successors-second_pass s.label_to_block (length s.blocks) 0 m s.blocks (omega arith)
    ∙ rw (successors_at-nil s.blocks m (first_pass-IsUnlinked ns).blocks) past
    ∙ sym (
        targets_at-same s.label_to_block _ s.blocks m
          (strip-second_pass s.label_to_block (length s.blocks) 0 s.blocks))
  where
    s : CfgBuilder
    s = first_pass ns new_builder

    past :
        plus_between 0 (length s.blocks) m (targets_at s.label_to_block s.blocks m) []
        ≡ targets_at s.label_to_block s.blocks m
    past = ground (arith, targets_at-past s.label_to_block s.blocks m)
