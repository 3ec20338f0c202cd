-- ===== src/Cfg/Builder/Links.antt =====
-- The successors that the second pass gives to each block.
pub mod Pass
pub mod Range
use mathlib.Core.List.{append_assoc, append-nil}
use mathlib.Core.Path.{ap₂}
use mathlib.Core.Option.{some-injective}
use sigil_lang.Prelude.{
  ℕ, zero, suc, ◌+◌, ◌<◌, ◌≤◌, ◌≡◌, ◌≢◌, refl, sym, ap, ◌∙◌, ◌⊎◌, inl, inr, Bool, true, false, ◌&&◌,
  Option, none, some, List, [], ◌∷◌, ◌++◌, map, arith, Text, text_eq, nat_beq, leb, ltb, Map, All,
  All-append, nat_beq_iff, lt-length_of_get_elem?, length, length-modify, get_elem?, modify, lookup,
  if◌then◌else◌, Bool-cases, Option-cases,
}
use sigil_lang.Ast.{Node, NodeKind, kind_of, label, jump, branch}
use sigil_lang.Cfg.{
  Terminator, fallthrough, return, jump_to, branch_to, BasicBlock, CfgBuilder, new_builder,
  first_pass, visit, visit_all, start_label, push_statement, finish_block, is_nil, connect,
  connect_label, connect_next, link, link_at, second_pass, build,
}
use sigil_lang.Cfg.Builder.Numbers.{
  ids, build-ids, strip, strip-link_at, strip-second_pass, length-strip,
}
use sigil_lang.Cfg.Builder.Labels.{label_at, build-label_at}
use sigil_lang.Cfg.Builder.Partition.{count_from}

-- The successors of the block at an index.
abbrev pub successors_at : List BasicBlock → ℕ → List ℕ
successors_at bs i = elim (get_elem? bs i) [ some b ↦ b.successors | none ↦ [] ]

abbrev pub label_target : Map Text ℕ → Text → List ℕ
label_target labels l = elim (lookup l labels) [ some j ↦ j ∷ [] | none ↦ [] ]

-- Where a terminator leads: to the next block, to the label, to both labels in order, or nowhere. A
-- label that is not defined leads nowhere.
abbrev pub targets : Map Text ℕ → List BasicBlock → ℕ → Terminator → List ℕ
targets labels bs i fallthrough = elim (get_elem? bs (i + 1)) [ some b ↦ b.id ∷ [] | none ↦ [] ]
targets labels bs i (jump_to l) = label_target labels l
targets labels bs i (branch_to t f) = label_target labels t ++ label_target labels f
targets labels bs i return = []

abbrev pub targets_at : Map Text ℕ → List BasicBlock → ℕ → List ℕ
targets_at labels bs i = elim (get_elem? bs i) [
  | some b ↦ targets labels bs i b.terminator
  | none ↦ []
]

-- More successors for the block at `i`, if there is one.
abbrev pub plus : ℕ → ℕ → List ℕ → List ℕ → List ℕ
plus i m new old = if nat_beq i m then old ++ new else old

successors-modify :
    (bs : List BasicBlock) (i j m : ℕ)
    → i < length bs
    → successors_at (modify bs i (λ b. record b { successors = b.successors ++ (j ∷ []) })) m
      ≡ plus i m (j ∷ []) (successors_at bs m)
successors-modify [] i j m h = absurd (omega arith)
successors-modify (b ∷ bs) zero j zero h = refl
successors-modify (b ∷ bs) zero j (suc m) h = ground arith
successors-modify (b ∷ bs) (suc i) j zero h = ground arith
successors-modify (b ∷ bs) (suc i) j (suc m) h = ground (arith, successors-modify bs i j m)

predecessors-modify :
    (bs : List BasicBlock) (k id m : ℕ)
    → successors_at (modify bs k (λ b. record b { predecessors = b.predecessors ++ (id ∷ []) })) m
      ≡ successors_at bs m
predecessors-modify [] k id m = refl
predecessors-modify (b ∷ bs) zero id zero = refl
predecessors-modify (b ∷ bs) zero id (suc m) = refl
predecessors-modify (b ∷ bs) (suc k) id zero = refl
predecessors-modify (b ∷ bs) (suc k) id (suc m) = predecessors-modify bs k id m

successors-connect :
    (i id j k m : ℕ) (bs : List BasicBlock)
    → i < length bs
    → successors_at (connect i id j k bs) m ≡ plus i m (j ∷ []) (successors_at bs m)
unfolding connect
successors-connect i id j k m bs h = elim (Bool-cases (ltb k (length bs'))) [
  | inl e ↦ rw e (predecessors-modify bs' k id m ∙ successors-modify bs i j m h)
  | inr e ↦ rw e (successors-modify bs i j m h)
]
  where
    bs' : List BasicBlock
    bs' = modify bs i (λ b. record b { successors = b.successors ++ (j ∷ []) })

length-connect : (i id j k : ℕ) (bs : List BasicBlock) → length (connect i id j k bs) ≡ length bs
unfolding connect
length-connect i id j k bs = ground (
  arith,
  length-modify bs i (λ b. record b { successors = b.successors ++ (j ∷ []) }),
  length-modify (modify bs i (λ b. record b { successors = b.successors ++ (j ∷ []) })) k
      (λ b. record b { predecessors = b.predecessors ++ (id ∷ []) }),
)

length-connect_label :
    (labels : Map Text ℕ) (i id : ℕ) (l : Text) (bs : List BasicBlock)
    → length (connect_label labels i id l bs) ≡ length bs
unfolding connect_label
length-connect_label labels i id l bs = elim (Option-cases (lookup l labels)) [
  | inl e ↦ rw (e, connect_label) refl
  | inr (j, e) ↦ rw (e, connect_label) (length-connect i id j j bs)
]

plus-nil : (i m : ℕ) (xs : List ℕ) → xs ≡ plus i m [] xs
plus-nil i m xs = elim (Bool-cases (nat_beq i m)) [
  | inl e ↦ rw e (sym (append-nil xs))
  | inr e ↦ rw e refl
]

successors-connect_label :
    (labels : Map Text ℕ) (i id : ℕ) (l : Text) (m : ℕ) (bs : List BasicBlock)
    → i < length bs
    → successors_at (connect_label labels i id l bs) m
      ≡ plus i m (label_target labels l) (successors_at bs m)
unfolding connect_label
successors-connect_label labels i id l m bs h = elim (Option-cases (lookup l labels)) [
  | inl e ↦ rw (e, connect_label, label_target) (plus-nil i m (successors_at bs m))
  | inr (j, e) ↦ rw (e, connect_label, label_target) (successors-connect i id j j m bs h)
]

plus-plus : (i m : ℕ) (xs ys zs : List ℕ) → plus i m ys (plus i m xs zs) ≡ plus i m (xs ++ ys) zs
plus-plus i m xs ys zs = elim (Bool-cases (nat_beq i m)) [
  | inl e ↦ rw e (append_assoc zs xs ys)
  | inr e ↦ rw e refl
]

successors-link :
    (labels : Map Text ℕ) (i id : ℕ) (t : Terminator) (m : ℕ) (bs : List BasicBlock)
    → i < length bs
    → successors_at (link labels i id t bs) m
      ≡ plus i m (targets labels bs i t) (successors_at bs m)
unfolding link connect_next
successors-link labels i id fallthrough m bs h = elim (Option-cases (get_elem? bs (i + 1))) [
  | inl e ↦ rw (e, link, connect_next, targets) (plus-nil i m (successors_at bs m))
  | inr (b, e) ↦ rw (e, link, connect_next, targets) (successors-connect i id b.id (i + 1) m bs h)
]
successors-link labels i id (jump_to l) m bs h = successors-connect_label labels i id l m bs h
successors-link labels i id (branch_to t f) m bs h =
    successors-connect_label labels i id f m _
      (omega (arith, length-connect_label labels i id t bs))
    ∙ ap (plus i m (label_target labels f)) (successors-connect_label labels i id t m bs h)
    ∙ plus-plus i m (label_target labels t) (label_target labels f) (successors_at bs m)
successors-link labels i id return m bs h = plus-nil i m (successors_at bs m)

get_elem?-none {ℓ} : {A : Type ℓ} (xs : List A) (i : ℕ) → i < length xs → get_elem? xs i ≢ none
get_elem?-none [] i h = absurd (omega arith)
get_elem?-none (x ∷ xs) zero h = λ e. cc
get_elem?-none (x ∷ xs) (suc i) h = get_elem?-none xs i (omega arith)

pub successors-link_at :
    (labels : Map Text ℕ) (i m : ℕ) (bs : List BasicBlock)
    → i < length bs
    → successors_at (link_at labels i bs) m ≡ plus i m (targets_at labels bs i) (successors_at bs m)
unfolding link_at
successors-link_at labels i m bs h = elim (Option-cases (get_elem? bs i)) [
  | inl e ↦ absurd (get_elem?-none bs i h e)
  | inr (b, e) ↦ rw (e, link_at, targets_at) (successors-link labels i b.id b.terminator m bs h)
]
