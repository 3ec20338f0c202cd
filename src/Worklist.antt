-- ===== src/Worklist.antt =====
-- The worklist loop that several passes of the compiler write out: pop a key, skip it if it was
-- visited, stop if it is bad, otherwise push its successors. The top of the stack comes first.
pub mod Correct
use sigil_lang.Prelude.{
  ℕ, zero, suc, ◌+◌, ◌≡◌, Bool, true, false, Option, none, some, List, [], ◌∷◌, Eq, contains,
  length, Map, lookup,
}

pub data Outcome {ℓ} (K : Type ℓ) : Type ℓ where
  exhausted : List K → Outcome K
  found : K → Outcome K
  out_of_fuel : Outcome K

-- `for x in xs { stack.push(x) }`.
unfoldable pub push_all {ℓ} : {K : Type ℓ} → List K → List K → List K
push_all [] s = s
push_all (x ∷ xs) s = push_all xs (x ∷ s)

unfoldable pub run {ℓ} :
    {K : Type ℓ} ⦃e : Eq K⦄ → (K → List K) → (K → Bool) → ℕ → List K → List K → Outcome K
run next bad fuel [] visited = exhausted visited
run next bad zero (x ∷ stack) visited = out_of_fuel
run next bad (suc fuel) (x ∷ stack) visited = elim (contains visited x) [
  | true ↦ run next bad fuel stack visited
  | false ↦ elim (bad x) [
    | true ↦ found x
    | false ↦ run next bad fuel (push_all (next x) stack) (x ∷ visited)
  ]
]

-- What can be reached from the roots.
pub data Reach {ℓ} {K : Type ℓ} ⦃e : Eq K⦄ (next : K → List K) (roots : List K) : K → Type ℓ where
  root : {x : K} → contains roots x ≡ true → Reach next roots x
  step : {x y : K} → Reach next roots x → contains (next x) y ≡ true → Reach next roots y

-- The successors that an adjacency map lists.
unfoldable pub successors {ℓ} : {K : Type ℓ} ⦃e : Eq K⦄ → Map K (List K) → K → List K
successors adj x = elim (lookup x adj) [ some ys ↦ ys | none ↦ [] ]

-- The count of edges that leave the keys which were not visited.
unfoldable pub weight {ℓ} : {K : Type ℓ} ⦃e : Eq K⦄ → Map K (List K) → List K → ℕ
weight [] v = 0
weight ((k, ys) ∷ adj) v = elim (contains v k) [
  | true ↦ weight adj v
  | false ↦ length ys + weight adj v
]
