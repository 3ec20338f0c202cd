-- ===== src/Cfg/Paths/Correct.antt =====
-- The paths that `all_paths` returns are exactly the walks to an exit that repeat no block.
use mathlib.Core.Path.{subst}
use mathlib.Core.Bool.{false≢true}
use mathlib.Core.Option.{some-injective}
use mathlib.Core.List.{reverse}
use sigil_lang.Prelude.{
  ℕ, zero, suc, ◌+◌, ◌<◌, ◌≡◌, refl, sym, ◌∙◌, ◌↔◌, ◌⊎◌, inl, inr, true, false, some, List, [], ◌∷◌,
  arith, nat_eq, text_eq, length, get_elem?, contains, contains-reverse, Bool-cases, Option-cases,
}
use sigil_lang.Ast.{Node}
use sigil_lang.Cfg.{BasicBlock, is_exit, build}
use sigil_lang.Cfg.Terminate.Fixpoint.{IsNumbered, missing, missing-lt}
use sigil_lang.Cfg.Terminate.Correct.{build-IsNumbered, missing-le-length}
use sigil_lang.Cfg.Paths.{paths_from, all_paths}
use sigil_lang.Cfg.Paths.Returns.{
  Returns, Returns-each, Returns-extend, Returns-as, Returns-none, Returns-one,
}

-- A walk along successors, from this block to an exit, that visits no block twice and none that was
-- visited before.
pub data Walk (bs : List BasicBlock) : List ℕ → ℕ → List ℕ → Type 0 where
  stops :
      {visited : List ℕ} {i : ℕ} {b : BasicBlock}
      → contains visited i ≡ false
      → get_elem? bs i ≡ some b
      → is_exit b ≡ true
      → Walk bs visited i (i ∷ [])
  steps :
      {visited : List ℕ} {i : ℕ} {b : BasicBlock} (j : ℕ) {p : List ℕ}
      → contains visited i ≡ false
      → get_elem? bs i ≡ some b
      → is_exit b ≡ false
      → contains b.successors j ≡ true
      → Walk bs (i ∷ visited) j p
      → Walk bs visited i (i ∷ p)

-- How a walk goes on.
abbrev Onward : List BasicBlock → List ℕ → ℕ → BasicBlock → List ℕ → Type 0
Onward bs visited i b p =
    ((is_exit b ≡ true) × (p ≡ (i ∷ [])))
    ⊎ ((is_exit b ≡ false)
        × ((q : List ℕ) × (p ≡ (i ∷ q))
            × ((j : ℕ) × (contains b.successors j ≡ true) × Walk bs (i ∷ visited) j q)))

Walk-Onward :
    {bs : List BasicBlock} {visited : List ℕ} {i : ℕ} {p : List ℕ}
    → Walk bs visited i p
    → (contains visited i ≡ false)
      × ((b : BasicBlock) × (get_elem? bs i ≡ some b) × Onward bs visited i b p)
Walk-Onward (stops {b} new at exits) = (new, (b, at, inl (exits, refl)))
Walk-Onward (steps {b} j {p} new at goes on w) = (new, (b, at, inr (goes, (p, refl, (j, on, w)))))

same_block :
    {bs : List BasicBlock} {visited : List ℕ} {i : ℕ} {p : List ℕ} (b : BasicBlock)
    → get_elem? bs i ≡ some b
    → Walk bs visited i p
    → Onward bs visited i b p
same_block {bs} {visited} {i} {p} b at w =
    let (new, (c, at', onward)) = Walk-Onward w in
    subst (λ d. Onward bs visited i d p) (some-injective c b (sym at' ∙ at)) onward

paths_from-Returns :
    (bs : List BasicBlock)
    → IsNumbered bs
    → (fuel : ℕ) (visited : List ℕ) (i : ℕ) → missing bs visited < fuel
    → Returns (paths_from fuel bs visited i) (Walk bs visited i)
unfolding paths_from
paths_from-Returns bs numbered zero visited i h = absurd (omega arith)
paths_from-Returns bs numbered (suc fuel) visited i h = elim (Bool-cases (contains visited i)) [
  | inl old ↦
      rw (old, paths_from) (Returns-none (λ p w. absurd (false≢true (sym (Walk-Onward w).0 ∙ old))))
  | inr new ↦ elim (Option-cases (get_elem? bs i)) [
    | inl outside ↦
        rw (new, outside, paths_from)
          (Returns-none
            (λ p w. let (fresh, (c, at, onward)) = Walk-Onward w in absurd (cc (outside, at))))
    | inr (b, at) ↦ elim (Bool-cases (is_exit b)) [
      | inl exits ↦
          rw (new, at, exits, paths_from)
            (Returns-one (i ∷ []) (stops new at exits) (λ p w. elim (same_block b at w) [
              | inl (e, same) ↦ same
              | inr (goes, rest) ↦ absurd (false≢true (sym goes ∙ exits))
            ]))
      | inr goes ↦
          rw (new, at, goes, paths_from)
            (Returns-as
              (Returns-extend i (
                Returns-each (paths_from fuel bs (i ∷ visited)) (Walk bs (i ∷ visited))
                  (λ j.
                    paths_from-Returns bs numbered fuel (i ∷ visited) j
                      (omega (arith, h, fewer b at new)))
                  (reverse b.successors)))
              (λ p. (
                λ (q, same, (j, among, w)).
                    subst (Walk bs visited i) (sym same)
                      (steps j new at goes (sym (contains-reverse b.successors j) ∙ among) w),
                λ w. elim (same_block b at w) [
                  | inl (exits, rest) ↦ absurd (false≢true (sym goes ∙ exits))
                  | inr (e, (q, same, (j, among, w'))) ↦
                      (q, same, (j, contains-reverse b.successors j ∙ among, w'))
                ],
              )))
    ]
  ]
]
  where
    fewer :
        (b : BasicBlock)
        → get_elem? bs i ≡ some b
        → contains visited i ≡ false
        → missing bs (i ∷ visited) < missing bs visited
    fewer b at new =
        let same = numbered i b at in
        subst (λ k. missing bs (k ∷ visited) < missing bs visited) same
          (missing-lt bs visited i b at (subst (λ k. contains visited k ≡ false) (sym same) new))

-- For every statement list the enumeration of the paths of its graph ends, and what it returns are
-- exactly the walks along successors from the entry to an exit block that visit no block twice.
-- Walks that go round a loop are not among them.
pub all_paths_correct :
    (ns : List Node)
    → (ps : List (List ℕ)) × (all_paths (build ns) ≡ some ps)
      × ((p : List ℕ) → (contains ps p ≡ true) ↔ Walk (build ns).blocks [] (build ns).entry p)
unfolding all_paths
all_paths_correct ns =
    let g = build ns in
    paths_from-Returns g.blocks (build-IsNumbered ns) (1 + length g.blocks) [] g.entry
      (omega (arith, missing-le-length g.blocks []))
