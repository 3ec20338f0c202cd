-- ===== src/Cfg/Terminate/Correct.antt =====
-- What `all_paths_terminate` decides of a graph that `Cfg::build` has built.
use mathlib.Core.Path.{subst}
use mathlib.Core.Bool.{false≢true}
use mathlib.Core.Option.{some-injective}
use sigil_lang.Prelude.{
  ℕ, zero, suc, ◌+◌, ◌≤◌, ◌≡◌, ◌≢◌, refl, sym, ap, ◌↔◌, inl, inr, Bool, true, false, some, List, [],
  ◌∷◌, arith, nat_eq, eq_iff, eq_refl, ◌==◌, ||-true, length, get_elem?, contains, any, all, All,
  All-get, All-map, Option-cases, &&-true, if◌then◌else◌,
}
use sigil_lang.Worklist.{Outcome, exhausted, found, out_of_fuel, run, Reach, root, step}
use sigil_lang.Worklist.Correct.{run_correct, run_ends, Ensures}
use sigil_lang.Ast.{Node}
use sigil_lang.Cfg.{BasicBlock, Cfg, build}
use sigil_lang.Cfg.Builder.Numbers.{build-ids}
use sigil_lang.Cfg.Builder.Links.Range.{get_elem?-ids}
use sigil_lang.Cfg.Terminate.{
  next_blocks, total_successors, reachable_blocks, fixpoint, verdict, all_paths_terminate,
}
use sigil_lang.Cfg.Terminate.Fixpoint.{
  CanExit, CanExit-here, contains-one, IsNumbered, IsPart, IsSettled, IsFixpoint, missing,
  fixpoint_ends,
}

IsPart-all : (bs : List BasicBlock) → IsPart bs bs
IsPart-all [] = tt
IsPart-all (b ∷ bs) = ((0, refl), All-map (λ c (i, e). (suc i, e)) bs (IsPart-all bs))

pub missing-le-length : (bs : List BasicBlock) (set : List ℕ) → missing bs set ≤ length bs
missing-le-length [] set = omega arith
missing-le-length (b ∷ bs) set = ground (arith, missing-le-length bs set)

pub build-IsNumbered : (ns : List Node) → IsNumbered (build ns).blocks
build-IsNumbered ns i b at = omega (arith, get_elem?-ids 0 i (build ns).blocks b (build-ids ns) at)

any_of :
    (set xs : List ℕ) (j : ℕ)
    → contains xs j ≡ true
    → contains set j ≡ true
    → any (contains set) xs ≡ true
unfolding contains
any_of set [] j h s = absurd (cc)
any_of set (x ∷ xs) j h s = ground (arith, eq_iff x j, any_of set xs j, s)

module _ (bs : List BasicBlock) where
  -- The successors of the blocks that were not visited.
  abbrev unvisited : List BasicBlock → List ℕ → ℕ
  unvisited [] v = 0
  unvisited (c ∷ cs) v =
      let rest = unvisited cs v in if contains v c.id then rest else length c.successors + rest

  unvisited-le : (cs : List BasicBlock) (v : List ℕ) (x : ℕ) → unvisited cs (x ∷ v) ≤ unvisited cs v
  unfolding contains
  unvisited-le [] v x = omega arith
  unvisited-le (c ∷ cs) v x = ground (arith, unvisited-le cs v x)

  unvisited_pays_at :
      (cs : List BasicBlock) (i : ℕ) (b : BasicBlock) (v : List ℕ)
      → get_elem? cs i ≡ some b
      → contains v b.id ≡ false
      → unvisited cs (b.id ∷ v) + length b.successors ≤ unvisited cs v
  unfolding contains
  unvisited_pays_at [] i b v at h = absurd (cc)
  unvisited_pays_at (c ∷ cs) zero b v at h =
      let same : c ≡ b = some-injective c b at in
      subst (λ d. unvisited (c ∷ cs) (d.id ∷ v) + length d.successors ≤ unvisited (c ∷ cs) v) same
        (ground (arith, unvisited-le cs v c.id, subst (λ d. contains v d.id ≡ false) (sym same) h))
  unvisited_pays_at (c ∷ cs) (suc i) b v at h = ground (arith, unvisited_pays_at cs i b v at h)

  unvisited-nil : (cs : List BasicBlock) → unvisited cs [] ≡ total_successors cs
  unfolding total_successors contains
  unvisited-nil [] = refl
  unvisited-nil (c ∷ cs) = ap (λ n. length c.successors + n) (unvisited-nil cs)

  module _ (numbered : IsNumbered bs) where
    unvisited_pays :
        (v : List ℕ) (x : ℕ)
        → contains v x ≡ false
        → unvisited bs (x ∷ v) + length (next_blocks bs x) ≤ unvisited bs v
    unfolding next_blocks
    unvisited_pays v x h = elim (Option-cases (get_elem? bs x)) [
      | inl e ↦ rw (e, next_blocks) (omega (arith, unvisited-le bs v x))
      | inr (b, e) ↦
          rw (e, next_blocks)
            (subst (λ y. unvisited bs (y ∷ v) + length b.successors ≤ unvisited bs v)
              (numbered x b e)
              (unvisited_pays_at bs x b v e
                (subst (λ y. contains v y ≡ false) (sym (numbered x b e)) h)))
    ]

    reachable_blocks_end :
        (entry : ℕ)
        → run (next_blocks bs) (λ _. false) (1 + total_successors bs) (entry ∷ []) [] ≢ out_of_fuel
    reachable_blocks_end entry =
        run_ends (next_blocks bs) (λ _. false) (unvisited bs) unvisited_pays
          (1 + total_successors bs) (entry ∷ []) [] (omega (arith, unvisited-nil bs))

    -- A block with a successor in a settled set is in it.
    settled_back :
        (set : List ℕ) (x y : ℕ)
        → All (IsSettled set) bs
        → contains (next_blocks bs x) y ≡ true
        → contains set y ≡ true
        → contains set x ≡ true
    unfolding next_blocks contains
    settled_back set x y settled edge h = elim (Option-cases (get_elem? bs x)) [
      | inl e ↦ absurd (cc (rw (e, next_blocks) at edge))
      | inr (b, e) ↦
          subst (λ z. contains set z ≡ true) (numbered x b e)
            (All-get _ bs x b settled e (any_of set b.successors y (rw (e, next_blocks) at edge) h))
    ]

    walk_back :
        (set : List ℕ) (i : ℕ)
        → All (IsSettled set) bs
        → {k : ℕ} → Reach (next_blocks bs) (i ∷ []) k
        → contains set k ≡ true
        → contains set i ≡ true
    walk_back set i settled (root {x} r) h =
        subst (λ y. contains set y ≡ true) (sym (contains-one i x r)) h
    walk_back set i settled (step {x} {y} w e) h =
        walk_back set i settled w (settled_back set x y settled e h)

    IsFixpoint-complete :
        (exits result : List ℕ)
        → IsFixpoint bs exits exits result
        → (i : ℕ) → CanExit bs exits i
        → contains result i ≡ true
    IsFixpoint-complete exits result f i c =
        walk_back result i f.settled c.walk (f.grows c.exit c.is_exit)

all_iff :
    (set xs : List ℕ)
    → (all (contains set) xs ≡ true) ↔ ((i : ℕ) → contains xs i ≡ true → contains set i ≡ true)
unfolding contains
all_iff set [] = (λ h i e. absurd (cc), λ h. refl)
all_iff set (x ∷ xs) = (
  λ h i e.
      let (here, rest) = &&-true (contains set x) (all (contains set) xs) h in
      elim (||-true (x == i) (contains xs i) e) [
        | inl same ↦ subst (λ y. contains set y ≡ true) ((eq_iff x i).0 same) here
        | inr old ↦ (all_iff set xs).0 rest i old
      ],
  λ h.
      let rest = (all_iff set xs).1 λ i e. h i (ground (arith, e)) in
      rw (h x (rw (eq_refl x) refl)) rest,
)

-- For every statement list the check of the graph built from it returns a verdict: both of its loops
-- end. The verdict is true exactly if every block that the entry reaches can reach an exit block.
pub all_paths_terminate_correct :
    (ns : List Node)
    → (b : Bool) × (all_paths_terminate (build ns) ≡ some b)
      × ((b ≡ true) ↔ (
          (i : ℕ)
          → Reach (next_blocks (build ns).blocks) ((build ns).entry ∷ []) i
          → CanExit (build ns).blocks (build ns).exits i))
unfolding all_paths_terminate reachable_blocks verdict
all_paths_terminate_correct ns =
    go (run (next_blocks bs) (λ _. false) (1 + total_successors bs) (g.entry ∷ []) []) refl
  where
    g : Cfg
    g = build ns

    bs : List BasicBlock
    bs = g.blocks

    numbered : IsNumbered bs
    numbered = build-IsNumbered ns

    go :
        (o : Outcome ℕ)
        → run (next_blocks bs) (λ _. false) (1 + total_successors bs) (g.entry ∷ []) [] ≡ o
        → (b : Bool) × (verdict o (fixpoint (1 + length bs) bs g.exits) ≡ some b)
          × ((b ≡ true)
              ↔ ((i : ℕ) → Reach (next_blocks bs) (g.entry ∷ []) i → CanExit bs g.exits i))
    go out_of_fuel e = absurd (reachable_blocks_end bs numbered g.entry e)
    go (found x) e =
        let (r, bad) =
          subst (Ensures (next_blocks bs) (λ _. false) (g.entry ∷ [])) e
            (run_correct (next_blocks bs) (λ _. false) (g.entry ∷ []) (1 + total_successors bs)) in
        absurd (false≢true bad)
    go (exhausted v) e =
        let (reached, complete, good) =
          subst (Ensures (next_blocks bs) (λ _. false) (g.entry ∷ [])) e
            (run_correct (next_blocks bs) (λ _. false) (g.entry ∷ []) (1 + total_successors bs)) in
        let (result, ends, f) =
          fixpoint_ends bs g.exits numbered (IsPart-all bs) (1 + length bs) g.exits
            (omega (arith, missing-le-length bs g.exits)) (CanExit-here bs g.exits) in
        (
          all (contains result) v,
          rw (ends, verdict) refl,
          (
            λ h i r. f.sound i ((all_iff result v).0 h i (complete i r)),
            λ h.
                (all_iff result v).1
                  λ i c. IsFixpoint-complete bs numbered g.exits result f i (h i (reached i c)),
          ),
        )
