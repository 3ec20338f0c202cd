-- ===== src/Semantic/Roles/Correct.antt =====
-- The role checks accept a behavior exactly if it keeps its role.
use sigil_lang.Prelude.{◌≡◌, refl, ◌↔◌, Option, none, some, List, [], ◌∷◌, Text}
use sigil_lang.Ast.{PlatformImpl, Composition}
use sigil_lang.Semantic.Roles.{check_roles}
use sigil_lang.Semantic.Roles.Wiring.{AllWire, check_composite_purity_iff}
use sigil_lang.Semantic.Roles.Leaves.{Calls, check_leaf_no_call_iff}

abbrev pub KeepsRole : Option Composition → List PlatformImpl → Type 0
KeepsRole (some comp) impls = AllWire comp.nodes
KeepsRole none (impl ∷ impls) = (f : Text) → ¬ Calls f impl.nodes
KeepsRole none [] = Unit

-- The role checks report nothing exactly if the behavior keeps its role. The statements of a
-- composition store, free and scope nothing, and what they assign, set, branch on, send or pass to a
-- call is a literal, a name, a field, a call, a spawn, a wait, a channel or a receive, through and
-- through except for the capacity of a channel. Without a composition, no statement of the first
-- implementation, in a scope or not, is a call or the assignment of a call.
pub check_roles_iff :
    (comp : Option Composition) (impls : List PlatformImpl)
    → (check_roles comp impls ≡ []) ↔ KeepsRole comp impls
unfolding check_roles
check_roles_iff (some comp) impls = check_composite_purity_iff comp.nodes
check_roles_iff none (impl ∷ impls) = check_leaf_no_call_iff impl.nodes
check_roles_iff none [] = (λ _. tt, λ _. refl)
