-- ===== src/Cfg/Paths.antt =====
-- compiler/src/cfg.rs, `all_paths`: the paths from the entry to an exit that visit no block twice.
pub mod Returns
pub mod Correct
use mathlib.Core.List.{reverse}
use sigil_lang.Prelude.{
  ℕ, zero, suc, ◌+◌, Bool, true, false, Option, none, some, List, [], ◌∷◌, ◌++◌, map, nat_eq,
  length, get_elem?, contains,
}
use sigil_lang.Cfg.{BasicBlock, Cfg, is_exit}

abbrev pub append_paths : Option (List (List ℕ)) → Option (List (List ℕ)) → Option (List (List ℕ))
append_paths (some ps) (some qs) = some (ps ++ qs)
append_paths _ _ = none

-- The paths of each in turn.
abbrev pub each : (ℕ → Option (List (List ℕ))) → List ℕ → Option (List (List ℕ))
each f [] = some []
each f (j ∷ js) = append_paths (f j) (each f js)

abbrev pub extend : ℕ → Option (List (List ℕ)) → Option (List (List ℕ))
extend i none = none
extend i (some ps) = some (map (λ p. i ∷ p) ps)

-- What the loop does with an entry of the stack and with those that it pushes for it, as a recursion.
-- The successor that is pushed last is popped first. A path is put together from its end, and each
-- block on it takes a unit of fuel. An index out of range has no path; `build` makes none.
unfoldable pub paths_from : ℕ → List BasicBlock → List ℕ → ℕ → Option (List (List ℕ))
paths_from zero bs visited current = none
paths_from (suc fuel) bs visited current = elim (contains visited current) [
  | true ↦ some []
  | false ↦ elim (get_elem? bs current) [
    | none ↦ some []
    | some b ↦ elim (is_exit b) [
      | true ↦ some ((current ∷ []) ∷ [])
      | false ↦
          extend current (each (paths_from fuel bs (current ∷ visited)) (reverse b.successors))
    ]
  ]
]

-- `none` would be a loop that does not end.
unfoldable pub all_paths : Cfg → Option (List (List ℕ))
unfolding paths_from
all_paths g = paths_from (1 + length g.blocks) g.blocks [] g.entry
