-- ===== src/Cfg/Builder/Links/Range.antt =====
-- The successors that a block gets are indices of blocks.
use mathlib.Core.Option.{some-injective}
use sigil_lang.Prelude.{
  ℕ, zero, suc, ◌+◌, ◌<◌, ◌≡◌, inl, inr, Option, none, some, List, [], ◌∷◌, arith, Text, text_eq,
  Map, All, All-append, lt-length_of_get_elem?, length, get_elem?, lookup, Option-cases,
}
use sigil_lang.Ast.{Node}
use sigil_lang.Cfg.{Terminator, fallthrough, return, jump_to, branch_to, BasicBlock, build}
use sigil_lang.Cfg.Builder.Numbers.{ids, build-ids}
use sigil_lang.Cfg.Builder.Labels.{label_at, build-label_at}
use sigil_lang.Cfg.Builder.Partition.{count_from}
use sigil_lang.Cfg.Builder.Links.{successors_at, label_target, targets}
use sigil_lang.Cfg.Builder.Links.Pass.{build-successors}

label_target-in_range :
    (labels : Map Text ℕ) (n : ℕ) (l : Text)
    → ((j : ℕ) → lookup l labels ≡ some j → j < n)
    → All (λ j. j < n) (label_target labels l)
label_target-in_range labels n l h = elim (Option-cases (lookup l labels)) [
  | inl e ↦ rw (e, label_target) tt
  | inr (j, e) ↦ rw (e, label_target) (h j e, tt)
]

label_at-in_range :
    (bs : List BasicBlock) (j : ℕ) (l : Text) → label_at bs j ≡ some l → j < length bs
label_at-in_range bs j l h = elim (Option-cases (get_elem? bs j)) [
  | inl e ↦ absurd (cc (rw (e, label_at) at h))
  | inr (b, e) ↦ lt-length_of_get_elem? bs j b e
]

-- The id of the block at an index is the index.
pub get_elem?-ids :
    (i k : ℕ) (bs : List BasicBlock) (b : BasicBlock)
    → ids bs ≡ count_from i (length bs)
    → get_elem? bs k ≡ some b
    → b.id ≡ i + k
get_elem?-ids i k [] b h e = absurd (cc)
get_elem?-ids i zero (c ∷ bs) b h e = ground (arith, some-injective c b e, head_of h)
  where
    head_of : c.id ∷ ids bs ≡ i ∷ count_from (i + 1) (length bs) → c.id ≡ i
    head_of p = cc
get_elem?-ids i (suc k) (c ∷ bs) b h e = omega (arith, get_elem?-ids (i + 1) k bs b (cc h) e)

-- In the graph that is built, every successor is the index of a block.
pub build-successors_in_range :
    (ns : List Node) (m : ℕ)
    → All (λ j. j < length (build ns).blocks) (successors_at (build ns).blocks m)
build-successors_in_range ns m = rw (build-successors ns m) (in_range (get_elem? bs m))
  where
    bs : List BasicBlock
    bs = (build ns).blocks

    labels : Map Text ℕ
    labels = (build ns).label_to_block

    named : (l : Text) → All (λ j. j < length bs) (label_target labels l)
    named l =
        label_target-in_range labels (length bs) l
          λ j e. label_at-in_range bs j l (build-label_at ns l j e)

    by_terminator : (t : Terminator) → All (λ j. j < length bs) (targets labels bs m t)
    by_terminator fallthrough = elim (Option-cases (get_elem? bs (m + 1))) [
      | inl e ↦ rw (e, targets) tt
      | inr (b, e) ↦
          rw (e, targets)
            (
              omega (
                arith,
                get_elem?-ids 0 (m + 1) bs b (build-ids ns) e,
                lt-length_of_get_elem? bs (m + 1) b e,
              ),
              tt,
            )
    ]
    by_terminator (jump_to l) = named l
    by_terminator (branch_to t f) = All-append _ (label_target labels t) _ (named t) (named f)
    by_terminator return = tt

    in_range :
        (o : Option BasicBlock)
        → All
            (λ j. j < length bs)
            (elim o [ some b ↦ targets labels bs m b.terminator | none ↦ [] ])
    in_range none = tt
    in_range (some b) = by_terminator b.terminator
