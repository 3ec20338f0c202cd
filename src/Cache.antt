-- ===== src/Cache.antt =====
-- compiler/src/cache.rs: the manifest of compiled behaviors. The file system is the set of the paths
-- of object files that exist. Reading and writing the manifest and deleting objects are left out.
pub mod Deps
pub mod Correct
use sigil_lang.Prelude.{
  ℕ, Bool, true, false, not, ◌||◌, Option, none, some, List, [], ◌∷◌, Text, text_eq, nat_eq, ◌==◌,
  Map, lookup, insert, without, contains, keep, if◌then◌else◌,
}

pub record CacheEntry : Type 0 where
  pub source_path : Text
  pub source_hash : Text
  pub contract_hash : Text
  pub deps_hash : Text
  pub object_path : Text
  pub timestamp : ℕ

pub record CacheManifest : Type 0 where
  pub version : ℕ
  pub compiler_id : Text
  pub behaviors : Map Text CacheEntry

-- `CacheManifest::new`, by a compiler of this build.
unfoldable pub new_manifest : Text → CacheManifest
new_manifest build = record { version = 1; compiler_id = build; behaviors = [] }

-- What `load` does with a manifest that was read: one of another version or build is dropped.
unfoldable pub accept_manifest : Text → CacheManifest → CacheManifest
unfolding new_manifest
accept_manifest build m =
    if not (m.version == 1)
    then new_manifest build
    else if not (m.compiler_id == build)
    then new_manifest build
    else m

unfoldable pub entry_is_stale : List Text → CacheEntry → Text → Text → Text → Bool
entry_is_stale files e source contract deps =
    if not (e.source_hash == source)
    then true
    else if not (e.contract_hash == contract)
    then true
    else if not (e.deps_hash == deps)
    then true
    else if not (contains files e.object_path)
    then true
    else false

unfoldable pub needs_recompile : List Text → CacheManifest → Text → Text → Text → Text → Bool
unfolding entry_is_stale
needs_recompile files m name source contract deps = elim (lookup name m.behaviors) [
  | none ↦ true
  | some e ↦ entry_is_stale files e source contract deps
]

unfoldable pub update_entry : CacheManifest → Text → CacheEntry → CacheManifest
update_entry m name e = record m { behaviors = insert name e m.behaviors }
