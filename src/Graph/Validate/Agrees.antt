-- ===== src/Graph/Validate/Agrees.antt =====
-- The checks on dependencies, and how they agree with the gaps.
use mathlib.Core.Path.{subst, ◌∙◌}
use mathlib.Core.Option.{some-injective}
use sigil_lang.Prelude.{text_beq_iff}
use sigil_lang.Prelude.{
  ◌≡◌, refl, sym, ◌↔◌, ◌⊎◌, inl, inr, true, some, List, [], arith, text_eq, All, All-map,
  Option-cases, if◌then◌else◌,
}
use sigil_lang.Graph.{DependencyRef, BehaviorNode, ProjectGraph, BehaviorLookup}
use sigil_lang.Graph.Ops.{values, lookup_behavior, lookup_hash}
use sigil_lang.Graph.Gaps.{is_complete, is_empty}
use sigil_lang.Graph.Gaps.Complete.{is_complete_iff, IsResolved, IsPinnedTo, is_empty_iff}
use sigil_lang.Graph.Validate.{
  GraphError, flat_map, resolve_errors, check_dependencies_resolve, stale_errors, hash_errors,
  check_hash_consistency,
}
use sigil_lang.Graph.Validate.Purity.{flat_map-nil}

-- Some behavior, local or of a library, has the name of the dependency.
abbrev pub IsDefined : ProjectGraph → DependencyRef → Type 0
IsDefined g d = (b : BehaviorLookup) × (lookup_behavior g d.name ≡ some b)

-- A pin that stands for something is the hash of the behavior that is found.
abbrev pub IsConsistent : ProjectGraph → DependencyRef → Type 0
IsConsistent g d =
    (b : BehaviorLookup)
    → lookup_behavior g d.name ≡ some b
    → (d.hash ≡ []) ⊎ (lookup_hash b ≡ []) ⊎ (d.hash ≡ lookup_hash b)

resolve_errors_iff :
    (g : ProjectGraph) (n : BehaviorNode) (d : DependencyRef)
    → (resolve_errors g n d ≡ []) ↔ IsDefined g d
unfolding resolve_errors
resolve_errors_iff g n d = elim (Option-cases (lookup_behavior g d.name)) [
  | inl e ↦ rw (e, resolve_errors) (λ h. cc, λ (b, h). cc)
  | inr (b, e) ↦ rw (e, resolve_errors) (λ h. (b, refl), λ h. refl)
]

-- A check of all dependencies of all behaviors.
flat_map_all-nil {ℓ} :
    (f : BehaviorNode → DependencyRef → List GraphError) (P : DependencyRef → Type ℓ)
    → ((n : BehaviorNode) (d : DependencyRef) → (f n d ≡ []) ↔ P d)
    → (ns : List BehaviorNode)
    → (flat_map (λ n. flat_map (f n) n.requires) ns ≡ []) ↔ All (λ n. All P n.requires) ns
flat_map_all-nil f P each ns =
    let outer = flat_map-nil (λ n. flat_map (f n) n.requires) ns in
    (
      λ h.
          All-map
            (λ n e. All-map (λ d. (each n d).0) n.requires ((flat_map-nil (f n) n.requires).0 e)) ns
            (outer.0 h),
      λ h. outer.1 (
          All-map
            (λ n e. (flat_map-nil (f n) n.requires).1 (All-map (λ d. (each n d).1) n.requires e)) ns
            h),
    )

-- The check of resolution reports nothing exactly when every dependency of every behavior of the
-- graph is defined.
pub check_dependencies_resolve_iff :
    (g : ProjectGraph)
    → (check_dependencies_resolve g ≡ []) ↔ All (λ n. All (IsDefined g) n.requires) (values g)
unfolding check_dependencies_resolve
check_dependencies_resolve_iff g =
    flat_map_all-nil (resolve_errors g) (IsDefined g) (resolve_errors_iff g) (values g)

-- The same, for the behavior that was found.
abbrev IsCurrent : DependencyRef → BehaviorLookup → Type 0
IsCurrent d b = (d.hash ≡ []) ⊎ (lookup_hash b ≡ []) ⊎ (d.hash ≡ lookup_hash b)

stale_errors_iff :
    (n : BehaviorNode) (d : DependencyRef) (b : BehaviorLookup)
    → ((if is_empty d.hash then [] else stale_errors (some b) n d) ≡ []) ↔ IsCurrent d b
unfolding stale_errors
stale_errors_iff n d b =
    ground (
      arith,
      is_empty_iff d.hash,
      is_empty_iff (lookup_hash b),
      text_beq_iff d.hash (lookup_hash b),
    )

hash_errors_iff :
    (g : ProjectGraph) (n : BehaviorNode) (d : DependencyRef)
    → (hash_errors g n d ≡ []) ↔ IsConsistent g d
unfolding hash_errors stale_errors
hash_errors_iff g n d = elim (Option-cases (lookup_behavior g d.name)) [
  | inl e ↦ rw (e, hash_errors) (λ _ b h. cc, λ _. ground arith)
  | inr (b, e) ↦
      rw (e, hash_errors)
        (
          λ h c f. subst (IsCurrent d) (some-injective b c f) ((stale_errors_iff n d b).0 h),
          λ h. (stale_errors_iff n d b).1 (h b refl),
        )
]

-- The check of hashes reports nothing exactly when every pin, where neither it nor the hash of the
-- behavior that is found is empty, is that hash.
pub check_hash_consistency_iff :
    (g : ProjectGraph)
    → (check_hash_consistency g ≡ []) ↔ All (λ n. All (IsConsistent g) n.requires) (values g)
unfolding check_hash_consistency
check_hash_consistency_iff g =
    flat_map_all-nil (hash_errors g) (IsConsistent g) (hash_errors_iff g) (values g)

IsResolved-IsDefined :
    (g : ProjectGraph) (d : DependencyRef) → IsResolved g d → IsDefined g d × IsConsistent g d
IsResolved-IsDefined g d r = elim (Option-cases (lookup_behavior g d.name)) [
  | inl e ↦ absurd (rw e at r)
  | inr (b, e) ↦ (
    (b, e),
    λ c f.
        subst (IsCurrent d) (some-injective b c (sym e ∙ f))
          (elim (subst (λ o. IsPinnedTo o d) e r) [
            | inl unpinned ↦ inl unpinned
            | inr same ↦ inr (inr (sym same))
          ]),
  )
]

-- Where the graph is complete, the checks of resolution and of hashes report nothing.
pub is_complete-check_dependencies :
    (g : ProjectGraph)
    → is_complete g ≡ true
    → (check_dependencies_resolve g ≡ []) × (check_hash_consistency g ≡ [])
is_complete-check_dependencies g h =
    let settled = (is_complete_iff g).0 h in
    (
      (check_dependencies_resolve_iff g).1 (
          All-map (λ n s. All-map (λ d r. (IsResolved-IsDefined g d r).0) n.requires s.1) (values g)
            settled),
      (check_hash_consistency_iff g).1 (
          All-map (λ n s. All-map (λ d r. (IsResolved-IsDefined g d r).1) n.requires s.1) (values g)
            settled),
    )
