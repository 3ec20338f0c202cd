-- ===== src/Graph/Validate/Purity.antt =====
-- The purity check finds exactly the pure behaviors that depend on an impure one.
use sigil_lang.Prelude.{
  ◌+◌, ◌≡◌, refl, sym, ◌∙◌, ap, ◌↔◌, ◌≢◌, inl, inr, Bool, true, false, not, Option, none, some,
  List, [], ◌∷◌, arith, Text, ◌==◌, text_eq, length, All, lookup, contains, Bool-cases,
  Option-cases, find, All-map, append-nil_iff, Map,
}
use mathlib.Core.Bool.{false≢true}
use sigil_lang.Ast.{Guarantee, pure, guarantee_eq}
use sigil_lang.Worklist.{
  Outcome, exhausted, found, out_of_fuel, push_all, Reach, root, step, successors, weight,
}
use sigil_lang.Worklist.Correct.{run_ends, weight_pays, Ensures, run_pushed}
use sigil_lang.Graph.{BehaviorNode, ContractRef, ProjectGraph, BehaviorLookup, local, library}
use sigil_lang.Graph.Ops.{values, find_node, lookup_behavior}
use sigil_lang.Graph.Validate.{
  flat_map, dependency_names, local_dependencies, is_impure, total_requires, purity_search,
  outcome_errors, purity_errors, check_transitive_purity,
}

abbrev pub guarantees_of : BehaviorLookup → List Guarantee
guarantees_of (local n) = n.guarantees
guarantees_of (library c) = c.guarantees

-- `n` requires the name, or depends on a local behavior that requires it.
pub data DependsOn (g : ProjectGraph) (n : BehaviorNode) : Text → Type 0 where
  directly : {name : Text} → contains (dependency_names n) name ≡ true → DependsOn g n name
  through :
      {middle name : Text} {k : BehaviorNode}
      → DependsOn g n middle
      → find_node g middle ≡ some k
      → contains (dependency_names k) name ≡ true
      → DependsOn g n name

-- Every behavior on which `n` depends and that is defined is pure.
abbrev pub IsDeeplyPure : ProjectGraph → BehaviorNode → Type 0
IsDeeplyPure g n =
    (name : Text) (b : BehaviorLookup)
    → DependsOn g n name
    → lookup_behavior g name ≡ some b
    → contains (guarantees_of b) pure ≡ true

DependsOn-Reach :
    (g : ProjectGraph) (n : BehaviorNode) {name : Text}
    → DependsOn g n name
    → Reach (local_dependencies g) (dependency_names n) name
unfolding local_dependencies
DependsOn-Reach g n (directly h) = root h
DependsOn-Reach g n (through d f h) = step (DependsOn-Reach g n d) (rw (f, local_dependencies) h)

Reach-DependsOn :
    (g : ProjectGraph) (n : BehaviorNode) {name : Text}
    → Reach (local_dependencies g) (dependency_names n) name
    → DependsOn g n name
unfolding local_dependencies contains
Reach-DependsOn g n (root h) = directly h
Reach-DependsOn g n (step {x} {y} r h) = elim (Option-cases (find_node g x)) [
  | inl e ↦ absurd (cc (rw (e, local_dependencies) at h))
  | inr (k, e) ↦ through (Reach-DependsOn g n r) e (rw (e, local_dependencies) at h)
]

impure_lem :
    (g : ProjectGraph) (name : Text)
    → (is_impure g name ≡ false) ↔ (
        (b : BehaviorLookup)
        → lookup_behavior g name ≡ some b
        → contains (guarantees_of b) pure ≡ true)
unfolding is_impure lookup_behavior
impure_lem g name = go (find_node g name) (lookup name g.library_nodes)
  where
    go :
        (o : Option BehaviorNode) (l : Option ContractRef)
        → (◌≡◌ {A = Bool}
            (elim o [
              | some n ↦ not (contains n.guarantees pure)
              | none ↦ elim l [ some c ↦ not (contains c.guarantees pure) | none ↦ false ]
            ])
            false)
          ↔ ((b : BehaviorLookup)
              → ◌≡◌ {A = Option BehaviorLookup}
                  (elim o [
                    | some n ↦ some (local n)
                    | none ↦ elim l [ some c ↦ some (library c) | none ↦ none ]
                  ])
                  (some b)
              → contains (guarantees_of b) pure ≡ true)
    go (some n) l = (λ h b e. ground (arith, h, e), λ h. ground (arith, h (local n) refl))
    go none (some c) = (λ h b e. ground (arith, h, e), λ h. ground (arith, h (library c) refl))
    go none none = (λ h b e. cc, λ h. refl)

adjacency : List BehaviorNode → Map Text (List Text)
adjacency [] = []
adjacency (n ∷ ns) = (n.name, dependency_names n) ∷ adjacency ns

successors-adjacency :
    (ns : List BehaviorNode) (x : Text)
    → successors (adjacency ns) x
      ≡ (elim (find (λ n. n.name == x) ns) [ some n ↦ dependency_names n | none ↦ [] ])
unfolding successors adjacency lookup
successors-adjacency [] x = refl
successors-adjacency (n ∷ ns) x = ground (arith, successors-adjacency ns x)

weight-adjacency : (ns : List BehaviorNode) → weight (adjacency ns) [] ≡ total_requires ns
unfolding weight adjacency total_requires contains
weight-adjacency [] = refl
weight-adjacency (n ∷ ns) = ap (λ k. length (dependency_names n) + k) (weight-adjacency ns)

search_ends : (g : ProjectGraph) (n : BehaviorNode) → purity_search g n ≢ out_of_fuel
unfolding purity_search
search_ends g n =
    run_ends (local_dependencies g) (is_impure g) (weight (adjacency (values g)))
      (λ v x h. rw (same x) (weight_pays (adjacency (values g)) v x h)) _
      (push_all (dependency_names n) []) [] (omega (arith, weight-adjacency (values g)))
  where
    same : (x : Text) → local_dependencies g x ≡ successors (adjacency (values g)) x
    same x = unfold local_dependencies find_node in sym (successors-adjacency (values g) x)

outcome_iff :
    (g : ProjectGraph) (n : BehaviorNode) (o : Outcome Text)
    → o ≢ out_of_fuel
    → Ensures (local_dependencies g) (is_impure g) (dependency_names n) o
    → (outcome_errors n o ≡ []) ↔ IsDeeplyPure g n
unfolding outcome_errors
outcome_iff g n (exhausted v) ends (_, full, good) = (
  λ _ name b d e. (impure_lem g name).0 (good name (full name (DependsOn-Reach g n d))) b e,
  λ _. refl,
)
outcome_iff g n (found x) ends (reached, bad) = (
  λ h. cc,
  λ h.
      absurd
        (false≢true (sym ((impure_lem g x).1 (λ b. h x b (Reach-DependsOn g n reached))) ∙ bad)),
)
outcome_iff g n out_of_fuel ends h = absurd (ends refl)

purity_errors_iff :
    (g : ProjectGraph) (n : BehaviorNode)
    → (purity_errors g n ≡ []) ↔ (contains n.guarantees pure ≡ true → IsDeeplyPure g n)
unfolding purity_errors
purity_errors_iff g n =
    let search = outcome_iff g n (purity_search g n) (search_ends g n) (
      unfold purity_search in
      run_pushed (local_dependencies g) (is_impure g) (dependency_names n) _) in
    elim (Bool-cases (contains n.guarantees pure)) [
      | inl p ↦ rw p (λ h _. search.0 h, λ h. search.1 (h refl))
      | inr p ↦ rw p (λ _ h. absurd (false≢true h), λ _. refl)
    ]

pub flat_map-nil {ℓ κ} :
    {A : Type ℓ} {B : Type κ} (f : A → List B) (xs : List A)
    → (flat_map f xs ≡ []) ↔ All (λ x. f x ≡ []) xs
unfolding flat_map
flat_map-nil f [] = (λ _. tt, λ _. refl)
flat_map-nil f (x ∷ xs) =
    let rest = flat_map-nil f xs in
    let here = append-nil_iff (f x) (flat_map f xs) in
    (λ h. ((here.0 h).0, rest.0 (here.0 h).1), λ h. here.1 (h.0, rest.1 h.1))

-- The purity check reports nothing exactly when each behavior of the graph that declares `pure`
-- depends, directly or through local behaviors, only on pure behaviors, local or of a library;
-- names that are not defined do not count.
pub check_transitive_purity_iff :
    (g : ProjectGraph)
    → (check_transitive_purity g ≡ [])
      ↔ All (λ n. contains n.guarantees pure ≡ true → IsDeeplyPure g n) (values g)
unfolding check_transitive_purity
check_transitive_purity_iff g =
    let each = flat_map-nil (purity_errors g) (values g) in
    (
      λ h. All-map (λ n. (purity_errors_iff g n).0) (values g) (each.0 h),
      λ h. each.1 (All-map (λ n. (purity_errors_iff g n).1) (values g) h),
    )
