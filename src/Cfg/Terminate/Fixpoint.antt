-- ===== src/Cfg/Terminate/Fixpoint.antt =====
-- The backward loop ends, with the blocks that can reach an exit.
use mathlib.Core.Bool.{false≢true}
use mathlib.Core.Path.{subst}
use mathlib.Core.Option.{some-injective}
use sigil_lang.Prelude.{
  ℕ, zero, suc, ◌≤◌, ◌<◌, ◌≡◌, refl, sym, ap, ◌∙◌, inl, inr, true, false, some, List, [], ◌∷◌,
  arith, nat_eq, ◌==◌, eq_iff, get_elem?, contains, any, All, Bool-cases, ||-true, if◌then◌else◌,
}
use sigil_lang.Worklist.{Reach, root, step}
use sigil_lang.Cfg.{BasicBlock}
use sigil_lang.Cfg.Terminate.{next_blocks, Sweep, sweep_block, sweep, fixpoint}

-- From block `i` the walk along successors can come to an exit.
pub record CanExit (bs : List BasicBlock) (exits : List ℕ) (i : ℕ) : Type 0 where
  pub exit : ℕ
  pub is_exit : contains exits exit ≡ true
  pub walk : Reach (next_blocks bs) (i ∷ []) exit

-- The id of a block is its index.
abbrev pub IsNumbered : List BasicBlock → Type 0
IsNumbered bs = (i : ℕ) (b : BasicBlock) → get_elem? bs i ≡ some b → b.id ≡ i

pub contains-one : (i j : ℕ) → contains (i ∷ []) j ≡ true → i ≡ j
unfolding contains
contains-one i j h = ground arith

one-contains : (i : ℕ) → contains (i ∷ []) i ≡ true
unfolding contains
one-contains i = ground arith

pub CanExit-here :
    (bs : List BasicBlock) (exits : List ℕ) (i : ℕ) → contains exits i ≡ true → CanExit bs exits i
CanExit-here bs exits i h = record { exit = i; is_exit = h; walk = root (one-contains i) }

Reach-prefix :
    (bs : List BasicBlock) (i j : ℕ)
    → contains (next_blocks bs i) j ≡ true
    → {k : ℕ} → Reach (next_blocks bs) (j ∷ []) k
    → Reach (next_blocks bs) (i ∷ []) k
Reach-prefix bs i j h (root {x} r) =
    step (root (one-contains i))
      (subst (λ y. contains (next_blocks bs i) y ≡ true) (contains-one j x r) h)
Reach-prefix bs i j h (step w s) = step (Reach-prefix bs i j h w) s

CanExit-before :
    (bs : List BasicBlock) (exits : List ℕ) (i j : ℕ)
    → contains (next_blocks bs i) j ≡ true
    → CanExit bs exits j
    → CanExit bs exits i
CanExit-before bs exits i j h c = record {
  exit = c.exit;
  is_exit = c.is_exit;
  walk = Reach-prefix bs i j h c.walk;
}

any-contains :
    (set xs : List ℕ)
    → any (contains set) xs ≡ true
    → (j : ℕ) × (contains xs j ≡ true) × (contains set j ≡ true)
unfolding contains
any-contains set [] h = absurd (false≢true h)
any-contains set (x ∷ xs) h = elim (||-true (contains set x) (any (contains set) xs) h) [
  | inl here ↦ (x, ground arith, here)
  | inr rest ↦ let (j, a, b) = any-contains set xs rest in (j, ground (arith, a), b)
]

-- The blocks that a sweep still has to visit are blocks of the graph.
abbrev pub IsPart : List BasicBlock → List BasicBlock → Type 0
IsPart bs cs = All (λ b. (i : ℕ) × (get_elem? bs i ≡ some b)) cs

abbrev pub IsSound : List BasicBlock → List ℕ → List ℕ → Type 0
IsSound bs exits set = (i : ℕ) → contains set i ≡ true → CanExit bs exits i

module _ (bs : List BasicBlock) (exits : List ℕ) (numbered : IsNumbered bs) where
  add-IsSound :
      (i : ℕ) (set : List ℕ)
      → CanExit bs exits i
      → IsSound bs exits set
      → IsSound bs exits (i ∷ set)
  unfolding contains
  add-IsSound i set c h k e = elim (||-true (i == k) (contains set k) e) [
    | inl same ↦ subst (CanExit bs exits) ((eq_iff i k).0 same) c
    | inr old ↦ h k old
  ]

  found-CanExit :
      (i : ℕ) (b : BasicBlock) (set : List ℕ)
      → get_elem? bs i ≡ some b
      → any (contains set) b.successors ≡ true
      → IsSound bs exits set
      → CanExit bs exits b.id
  unfolding next_blocks
  found-CanExit i b set at found h =
      let (j, a, c) = any-contains set b.successors found in
      subst (CanExit bs exits) (sym (numbered i b at))
        (CanExit-before bs exits i j (rw (at, next_blocks) a) (h j c))

  sweep_block-IsSound :
      (b : BasicBlock) (s : Sweep) (i : ℕ)
      → get_elem? bs i ≡ some b
      → IsSound bs exits s.can_exit
      → IsSound bs exits (sweep_block b s).can_exit
  unfolding sweep_block
  sweep_block-IsSound b s i at h = elim (Bool-cases (contains s.can_exit b.id)) [
    | inl old ↦ rw (old, sweep_block) h
    | inr new ↦ elim (Bool-cases (any (contains s.can_exit) b.successors)) [
      | inr no_exit ↦ rw (new, no_exit, sweep_block) h
      | inl found ↦
          rw (new, found, sweep_block)
            (add-IsSound b.id s.can_exit (found-CanExit i b s.can_exit at found h) h)
    ]
  ]

  pub sweep-IsSound :
      (cs : List BasicBlock) (s : Sweep)
      → IsPart bs cs
      → IsSound bs exits s.can_exit
      → IsSound bs exits (sweep cs s).can_exit
  unfolding sweep
  sweep-IsSound [] s p h = h
  sweep-IsSound (c ∷ cs) s p h =
      sweep-IsSound cs (sweep_block c s) p.1 (sweep_block-IsSound c s p.0.0 p.0.1 h)

-- A block outside the set has no successor in it.
abbrev pub IsSettled : List ℕ → BasicBlock → Type 0
IsSettled set b = any (contains set) b.successors ≡ true → contains set b.id ≡ true

sweep_block-changed :
    (b : BasicBlock) (s : Sweep)
    → (sweep_block b s).changed ≡ false
    → (sweep_block b s ≡ s) × IsSettled s.can_exit b
unfolding sweep_block
sweep_block-changed b s h = elim (Bool-cases (contains s.can_exit b.id)) [
  | inl old ↦ rw (old, sweep_block) (refl, λ _. refl)
  | inr new ↦ elim (Bool-cases (any (contains s.can_exit) b.successors)) [
    | inr no_exit ↦ rw (new, no_exit, sweep_block) (refl, λ e. absurd (cc))
    | inl found ↦ absurd (cc (rw (new, found, sweep_block) at h))
  ]
]

sweep_block-still :
    (b : BasicBlock) (s : Sweep) → s.changed ≡ true → (sweep_block b s).changed ≡ true
unfolding sweep_block
sweep_block-still b s h = ground (arith, h)

sweep-still : (cs : List BasicBlock) (s : Sweep) → s.changed ≡ true → (sweep cs s).changed ≡ true
unfolding sweep
sweep-still [] s h = h
sweep-still (c ∷ cs) s h = sweep-still cs (sweep_block c s) (sweep_block-still c s h)

-- A sweep that changes nothing has found every block settled.
pub sweep-changed :
    (cs : List BasicBlock) (s : Sweep)
    → (sweep cs s).changed ≡ false
    → (sweep cs s ≡ s) × All (IsSettled s.can_exit) cs
unfolding sweep
sweep-changed [] s h = (refl, tt)
sweep-changed (c ∷ cs) s h = elim (Bool-cases (sweep_block c s).changed) [
  | inl e ↦ absurd (cc (h, sweep-still cs (sweep_block c s) e))
  | inr e ↦
      let (same, settled) = sweep_block-changed c s e in
      let h' : (sweep cs s).changed ≡ false = subst (λ s'. (sweep cs s').changed ≡ false) same h in
      let (same', settled') = sweep-changed cs s h' in
      (ap (sweep cs) same ∙ same', (settled, settled'))
]

-- How many blocks are outside the set.
abbrev pub missing : List BasicBlock → List ℕ → ℕ
missing [] set = 0
missing (b ∷ bs) set = if contains set b.id then missing bs set else suc (missing bs set)

missing-le : (bs : List BasicBlock) (set : List ℕ) (k : ℕ) → missing bs (k ∷ set) ≤ missing bs set
unfolding contains
missing-le [] set k = omega arith
missing-le (b ∷ bs) set k = ground (arith, missing-le bs set k)

pub missing-lt :
    (bs : List BasicBlock) (set : List ℕ) (i : ℕ) (b : BasicBlock)
    → get_elem? bs i ≡ some b
    → contains set b.id ≡ false
    → missing bs (b.id ∷ set) < missing bs set
unfolding contains
missing-lt [] set i b at h = absurd (cc)
missing-lt (c ∷ bs) set zero b at h =
    let same : c.id ≡ b.id = ap (λ x. x.id) (some-injective c b at) in
    ground (arith, missing-le bs set b.id)
missing-lt (c ∷ bs) set (suc i) b at h = ground (arith, missing-lt bs set i b at h)

-- How a sweep moves on: the set grows, and it changes only if it grows.
record Moves (bs : List BasicBlock) (s s' : Sweep) : Type 0 where
  grows : (k : ℕ) → contains s.can_exit k ≡ true → contains s'.can_exit k ≡ true
  at_most : missing bs s'.can_exit ≤ missing bs s.can_exit
  progress : s.changed ≡ false → s'.changed ≡ true → missing bs s'.can_exit < missing bs s.can_exit

Moves-nowhere : (bs : List BasicBlock) (s : Sweep) → Moves bs s s
Moves-nowhere bs s = record {
  grows = λ k h. h;
  at_most = omega arith;
  progress = λ h e. absurd (cc);
}

sweep_block-Moves :
    (bs : List BasicBlock) (b : BasicBlock) (s : Sweep) (i : ℕ)
    → get_elem? bs i ≡ some b
    → Moves bs s (sweep_block b s)
unfolding sweep_block contains
sweep_block-Moves bs b s i at = elim (Bool-cases (contains s.can_exit b.id)) [
  | inl old ↦ rw (old, sweep_block) (Moves-nowhere bs s)
  | inr new ↦ elim (Bool-cases (any (contains s.can_exit) b.successors)) [
    | inr no_exit ↦ rw (new, no_exit, sweep_block) (Moves-nowhere bs s)
    | inl found ↦
        rw (new, found, sweep_block)
          (record {
            grows = λ k h. ground (arith, h);
            at_most = missing-le bs s.can_exit b.id;
            progress = λ h e. missing-lt bs s.can_exit i b at new;
          })
  ]
]

sweep-Moves : (bs cs : List BasicBlock) (s : Sweep) → IsPart bs cs → Moves bs s (sweep cs s)
unfolding sweep
sweep-Moves bs [] s p = Moves-nowhere bs s
sweep-Moves bs (c ∷ cs) s p =
    let first = sweep_block-Moves bs c s p.0.0 p.0.1 in
    let rest = sweep-Moves bs cs (sweep_block c s) p.1 in
    record {
      grows = λ k h. rest.grows k (first.grows k h);
      at_most = omega (arith, first.at_most, rest.at_most);
      progress = λ h e. elim (Bool-cases (sweep_block c s).changed) [
        | inl new ↦ omega (arith, first.progress h new, rest.at_most)
        | inr same ↦ omega (arith, rest.progress same e, first.at_most)
      ];
    }

-- With fuel for every missing block the loop ends, in a larger set where every block is settled,
-- and which holds only blocks that can exit.
pub record IsFixpoint (bs : List BasicBlock) (exits set result : List ℕ) : Type 0 where
  pub grows : (k : ℕ) → contains set k ≡ true → contains result k ≡ true
  pub settled : All (IsSettled result) bs
  pub sound : (k : ℕ) → contains result k ≡ true → CanExit bs exits k

pub fixpoint_ends :
    (bs : List BasicBlock) (exits : List ℕ)
    → IsNumbered bs
    → IsPart bs bs
    → (fuel : ℕ) (set : List ℕ) → missing bs set < fuel
    → IsSound bs exits set
    → (result : List ℕ) × (fixpoint fuel bs set ≡ some result) × IsFixpoint bs exits set result
unfolding fixpoint
fixpoint_ends bs exits numbered part zero set h sound = absurd (omega arith)
fixpoint_ends bs exits numbered part (suc fuel) set h sound = elim (Bool-cases s.changed) [
  | inl e ↦
      let (result, same, f) =
        fixpoint_ends bs exits numbered part fuel s.can_exit (omega (arith, moves.progress refl e))
          (sweep-IsSound bs exits numbered bs start part sound) in
      (
        result,
        rw (e, fixpoint) same,
        record { grows = λ k c. f.grows k (moves.grows k c); settled = f.settled; sound = f.sound },
      )
  | inr e ↦
      let (same, settled) = sweep-changed bs start e in
      (
        s.can_exit,
        rw (e, fixpoint) refl,
        record {
          grows = moves.grows;
          settled =
              subst (λ set'. All (IsSettled set') bs) (ap (λ s'. s'.can_exit) (sym same)) settled;
          sound = sweep-IsSound bs exits numbered bs start part sound;
        },
      )
]
  where
    start : Sweep
    start = record { can_exit = set; changed = false }

    s : Sweep
    s = sweep bs start

    moves : Moves bs start s
    moves = sweep-Moves bs bs start part
