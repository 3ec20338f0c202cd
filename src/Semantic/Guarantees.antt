-- ===== src/Semantic/Guarantees.antt =====
-- compiler/src/semantic/mod.rs, `validate_guarantees`.
use sigil_lang.Prelude.{
  ◌≡◌, refl, ◌↔◌, Bool, true, false, not, ◌||◌, none, List, [], ◌∷◌, Text, codes, contains_iff,
}
use mathlib.Core.List.{Memᴰ}
use native.Mathlib.Omega.{arith}
use sigil_lang.Ast.{Guarantee, guarantee_eq, pure, no_alloc, Behavior}
use sigil_lang.Semantic.Errors.{pure_violation, no_alloc_violation}
use sigil_lang.Semantic.Context.{AnalysisContext, has_guarantee}
use sigil_lang.Semantic.Checks.{State, Step, require, Decides-then, Decides-require}

abbrev pub has_none : List Text → Bool
has_none [] = true
has_none (m ∷ ms) = false

-- `if ctx.has_guarantee(g) && bad`.
unfoldable pub validate_guarantees : Behavior → Step
unfolding require has_guarantee
validate_guarantees b s =
    let is_pure = has_guarantee pure s.ctx in
    let s1 =
      require (not is_pure || not s.ctx.has_channel_ops)
        (pure_violation (codes "contains CHANNEL operations")) 0 none s in
    let s2 =
      require (not is_pure || not s.ctx.has_non_output_writes)
        (pure_violation (codes "contains writes to non-OUTPUT variables")) 0 none s1 in
    let s3 =
      require (not is_pure || has_none b.contract.requires.memory)
        (pure_violation (codes "accesses pattern MEMORY")) 0 none s2 in
    require (not (has_guarantee no_alloc s.ctx) || not s.ctx.has_unscoped_alloc)
      (no_alloc_violation (codes "contains ALLOC outside SCOPE")) 0 none s3

-- What the two guarantees promise of the flags that the linear pass has set, if they are declared.
pub record KeepsGuarantees (b : Behavior) (ctx : AnalysisContext) : Type 0 where
  pub no_channels : Memᴰ pure ctx.guarantees → ctx.has_channel_ops ≡ false
  pub no_writes : Memᴰ pure ctx.guarantees → ctx.has_non_output_writes ≡ false
  pub no_memory : Memᴰ pure ctx.guarantees → b.contract.requires.memory ≡ []
  pub no_escape : Memᴰ no_alloc ctx.guarantees → ctx.has_unscoped_alloc ≡ false

has_guarantee-Mem :
    (g : Guarantee) (ctx : AnalysisContext) → (has_guarantee g ctx ≡ true) ↔ Memᴰ g ctx.guarantees
unfolding has_guarantee
has_guarantee-Mem g ctx = contains_iff ctx.guarantees g

implies_not : (a b : Bool) → ((not a || not b) ≡ true) ↔ (a ≡ true → b ≡ false)
implies_not false b = (λ _ h. absurd (cc (h)), λ _. refl)
implies_not true false = (λ _ _. refl, λ _. refl)
implies_not true true = (λ h. absurd (cc (h)), λ h. absurd (cc (h refl)))

implies_none : (a : Bool) (ms : List Text) → ((not a || has_none ms) ≡ true) ↔ (a ≡ true → ms ≡ [])
implies_none false ms = (λ _ h. absurd (cc (h)), λ _. refl)
implies_none true [] = (λ _ _. refl, λ _. refl)
implies_none true (m ∷ ms) = (λ h. absurd (cc (h)), λ h. absurd (cc (h refl)))

pub validate_guarantees-ctx : (b : Behavior) (s : State) → (validate_guarantees b s).ctx ≡ s.ctx
unfolding validate_guarantees require
validate_guarantees-ctx b s = ground arith

-- The check of guarantees adds no error exactly if the behavior keeps them: where `pure` is among the
-- declared guarantees, there are no channel operations, no writes to other variables than outputs and
-- no access to pattern memory, and where `no_alloc` is, nothing is allocated outside of scopes, by the
-- flags that the linear pass has set.
pub validate_guarantees_iff :
    (b : Behavior) (s : State)
    → ((validate_guarantees b s).errors ≡ []) ↔ ((s.errors ≡ []) × KeepsGuarantees b s.ctx)
unfolding validate_guarantees require
validate_guarantees_iff b s =
    let p = has_guarantee pure s.ctx in
    let is_pure = has_guarantee-Mem pure s.ctx in
    let is_no_alloc = has_guarantee-Mem no_alloc s.ctx in
    let channels = implies_not p s.ctx.has_channel_ops in
    let writes = implies_not p s.ctx.has_non_output_writes in
    let memory = implies_none p b.contract.requires.memory in
    let escape = implies_not (has_guarantee no_alloc s.ctx) s.ctx.has_unscoped_alloc in
    let exact =
      (Decides-then
        (λ _. (not (has_guarantee no_alloc s.ctx) || not s.ctx.has_unscoped_alloc) ≡ true)
        (Decides-then (λ _. (not p || has_none b.contract.requires.memory) ≡ true)
          (Decides-then (λ _. (not p || not s.ctx.has_non_output_writes) ≡ true)
            (Decides-require (not p || not s.ctx.has_channel_ops) _ 0 none s)
            (Decides-require (not p || not s.ctx.has_non_output_writes) _ 0 none _))
          (Decides-require (not p || has_none b.contract.requires.memory) _ 0 none _))
        (Decides-require (not (has_guarantee no_alloc s.ctx) || not s.ctx.has_unscoped_alloc) _ 0
          none _)).exact in
    (
      λ h.
          let (before, held) = exact.0 h in
          (
            before,
            record {
              no_channels = λ m. channels.0 held.0.0.0 (is_pure.1 m);
              no_writes = λ m. writes.0 held.0.0.1 (is_pure.1 m);
              no_memory = λ m. memory.0 held.0.1 (is_pure.1 m);
              no_escape = λ m. escape.0 held.1 (is_no_alloc.1 m);
            },
          ),
      λ (before, k). exact.1 (
        before,
        (
          (
            (
              channels.1 (λ h. k.no_channels (is_pure.0 h)),
              writes.1 (λ h. k.no_writes (is_pure.0 h)),
            ),
            memory.1 (λ h. k.no_memory (is_pure.0 h)),
          ),
          escape.1 (λ h. k.no_escape (is_no_alloc.0 h)),
        ),
      ),
    )
