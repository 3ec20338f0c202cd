-- ===== src/Cfg/Terminate.antt =====
-- compiler/src/cfg.rs, `all_paths_terminate`: every block that the entry reaches can reach an exit.
pub mod Fixpoint
pub mod Correct
use sigil_lang.Prelude.{
  ℕ, zero, suc, ◌+◌, Bool, true, false, Option, none, some, List, [], ◌∷◌, nat_eq, length,
  get_elem?, contains, any, all,
}
use sigil_lang.Worklist.{Outcome, exhausted, found, out_of_fuel, run}
use sigil_lang.Cfg.{BasicBlock, Cfg}

-- `self.blocks.get(b)`, and its successors.
unfoldable pub next_blocks : List BasicBlock → ℕ → List ℕ
next_blocks bs i = elim (get_elem? bs i) [ some b ↦ b.successors | none ↦ [] ]

unfoldable pub total_successors : List BasicBlock → ℕ
total_successors [] = 0
total_successors (b ∷ bs) = length b.successors + total_successors bs

-- Forward: the blocks that the entry reaches. No block is expanded twice.
unfoldable pub reachable_blocks : Cfg → Outcome ℕ
unfolding total_successors next_blocks
reachable_blocks g =
    run (next_blocks g.blocks) (λ _. false) (1 + total_successors g.blocks) (g.entry ∷ []) []

-- Backward: the body of the `for` loop over the set of blocks that can exit, and whether it changed.
pub record Sweep : Type 0 where
  pub can_exit : List ℕ
  pub changed : Bool

unfoldable pub sweep_block : BasicBlock → Sweep → Sweep
sweep_block b s = elim (contains s.can_exit b.id) [
  | true ↦ s
  | false ↦ elim (any (contains s.can_exit) b.successors) [
    | true ↦ record { can_exit = b.id ∷ s.can_exit; changed = true }
    | false ↦ s
  ]
]

unfoldable pub sweep : List BasicBlock → Sweep → Sweep
sweep [] s = s
sweep (b ∷ bs) s = sweep bs (sweep_block b s)

-- The `while changed` loop; `none` if the fuel runs out.
unfoldable pub fixpoint : ℕ → List BasicBlock → List ℕ → Option (List ℕ)
fixpoint zero bs set = none
fixpoint (suc fuel) bs set =
    let s = sweep bs (record { can_exit = set; changed = false }) in
    elim s.changed [ true ↦ fixpoint fuel bs s.can_exit | false ↦ some s.can_exit ]

unfoldable pub verdict : Outcome ℕ → Option (List ℕ) → Option Bool
verdict (exhausted reachable) (some can_exit) = some (all (contains can_exit) reachable)
verdict _ _ = none

-- `none` would be a loop that does not end.
unfoldable pub all_paths_terminate : Cfg → Option Bool
unfolding verdict
all_paths_terminate g =
    verdict (reachable_blocks g) (fixpoint (1 + length g.blocks) g.blocks g.exits)
