-- ===== src/Cache/Correct.antt =====
-- When a behavior is compiled again.
use sigil_lang.Prelude.{
  ◌≡◌, refl, sym, ◌∙◌, ap, ◌↔◌, inl, inr, true, false, some, List, arith, Text, text_eq, nat_eq,
  ◌⊎◌, ◌==◌, eq_iff, eq_refl, lookup, insert, lookup-insert, contains, if◌then◌else◌, Option-cases,
}
use mathlib.Core.Option.{some-injective}
use mathlib.Core.Path.{subst}
use sigil_lang.Cache.{
  CacheEntry, CacheManifest, entry_is_stale, needs_recompile, update_entry, accept_manifest,
  new_manifest,
}

-- The entry was made from just this, and its object file is there.
pub record IsCurrent (files : List Text) (e : CacheEntry) (source contract deps : Text)
    : Type 0 where
  pub source_same : e.source_hash ≡ source
  pub contract_same : e.contract_hash ≡ contract
  pub deps_same : e.deps_hash ≡ deps
  pub object_exists : contains files e.object_path ≡ true

entry_is_stale_iff :
    (files : List Text) (e : CacheEntry) (source contract deps : Text)
    → (entry_is_stale files e source contract deps ≡ false) ↔ IsCurrent files e source contract deps
unfolding entry_is_stale
entry_is_stale_iff files e source contract deps = (
  λ h. record {
    source_same = ground (arith, h, eq_iff e.source_hash source);
    contract_same = ground (arith, h, eq_iff e.contract_hash contract);
    deps_same = ground (arith, h, eq_iff e.deps_hash deps);
    object_exists = ground (arith, h);
  },
  λ c. ground (
    arith,
    (eq_iff e.source_hash source).1 c.source_same,
    (eq_iff e.contract_hash contract).1 c.contract_same,
    (eq_iff e.deps_hash deps).1 c.deps_same,
    c.object_exists,
  ),
)

needs_recompile_iff_entry :
    (files : List Text) (m : CacheManifest) (name source contract deps : Text)
    → (needs_recompile files m name source contract deps ≡ false) ↔ (
        (e : CacheEntry) × (lookup name m.behaviors ≡ some e)
        × IsCurrent files e source contract deps)
unfolding needs_recompile
needs_recompile_iff_entry files m name source contract deps =
    elim (Option-cases (lookup name m.behaviors)) [
      | inl h ↦ rw (h, needs_recompile) (λ f. cc, λ (e, g, c). cc)
      | inr (e, h) ↦
          rw (h, needs_recompile)
            (
              λ f. (e, refl, (entry_is_stale_iff files e source contract deps).0 f),
              λ (e', g, c). (entry_is_stale_iff files e source contract deps).1 (
                  subst (λ x. IsCurrent files x source contract deps) (sym (some-injective e e' g))
                    c),
            )
    ]

accept_manifest-cases :
    (build : Text) (m : CacheManifest)
    → ((accept_manifest build m ≡ m) × (m.version ≡ 1) × (m.compiler_id ≡ build))
      ⊎ ((accept_manifest build m ≡ new_manifest build)
          × ¬ ((m.version ≡ 1) × (m.compiler_id ≡ build)))
unfolding accept_manifest
accept_manifest-cases build m = ground (arith, eq_iff m.version 1, eq_iff m.compiler_id build)

-- With a manifest that was loaded, a behavior is not compiled again exactly if the manifest has this
-- version and was written by this build of the compiler, and it has an entry for the behavior that
-- was made from the same source, contract and dependencies and whose object file exists.
pub needs_recompile_iff :
    (files : List Text) (build : Text) (m : CacheManifest) (name source contract deps : Text)
    → (needs_recompile files (accept_manifest build m) name source contract deps ≡ false) ↔ (
        ((m.version ≡ 1) × (m.compiler_id ≡ build))
        × ((e : CacheEntry) × (lookup name m.behaviors ≡ some e)
            × IsCurrent files e source contract deps))
unfolding new_manifest needs_recompile lookup
needs_recompile_iff files build m name source contract deps = elim (accept_manifest-cases build m) [
  | inl (h, v, b) ↦ rw h (
    λ f. ((v, b), (needs_recompile_iff_entry files m name source contract deps).0 f),
    λ (u, c). (needs_recompile_iff_entry files m name source contract deps).1 c,
  )
  | inr (h, apart) ↦ rw h (λ f. cc, λ (u, c). absurd (apart u))
]

same_entry :
    (files : List Text) (m m' : CacheManifest) (name source contract deps : Text)
    → lookup name m.behaviors ≡ lookup name m'.behaviors
    → needs_recompile files m name source contract deps
      ≡ needs_recompile files m' name source contract deps
unfolding needs_recompile
same_entry files m m' name source contract deps h = rw (h, needs_recompile) refl

-- After an entry was stored, its behavior is not compiled again for the same source, contract and
-- dependencies as long as the object file exists, and no other behavior is affected.
pub needs_recompile-update_entry :
    (files : List Text) (m : CacheManifest) (name : Text) (e : CacheEntry)
    → contains files e.object_path ≡ true
    → (needs_recompile files (update_entry m name e) name e.source_hash e.contract_hash e.deps_hash
        ≡ false)
      × ((other source contract deps : Text)
          → (name == other) ≡ false
          → needs_recompile files (update_entry m name e) other source contract deps
            ≡ needs_recompile files m other source contract deps)
unfolding update_entry
needs_recompile-update_entry files m name e h =
    let found : lookup name (insert name e m.behaviors) ≡ some e =
      lookup-insert name name e m.behaviors
      ∙ ap (λ b. if b then some e else lookup name m.behaviors) (eq_refl name) in
    let current : IsCurrent files e e.source_hash e.contract_hash e.deps_hash = record {
      source_same = refl;
      contract_same = refl;
      deps_same = refl;
      object_exists = h;
    } in
    (
      (needs_recompile_iff_entry files (update_entry m name e) name e.source_hash e.contract_hash
            e.deps_hash).1
          (e, found, current),
      λ other source contract deps apart.
          same_entry files (update_entry m name e) m other source contract deps (
            lookup-insert name other e m.behaviors
            ∙ ap (λ b. if b then some e else lookup other m.behaviors) apart),
    )
