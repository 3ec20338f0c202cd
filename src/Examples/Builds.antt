-- ===== src/Examples/Builds.antt =====
-- A concrete manifest for the theorems on `Cache`.
use sigil_lang.Prelude.{
  ◌≡◌, ◌↔◌, refl, true, false, some, List, [], ◌∷◌, Text, codes, text_eq, text_beq, ◌==◌, lookup,
  contains,
}
use sigil_lang.Cache.{
  CacheEntry, CacheManifest, new_manifest, accept_manifest, entry_is_stale, needs_recompile,
  update_entry,
}
use sigil_lang.Cache.Correct.{IsCurrent, needs_recompile_iff, needs_recompile-update_entry}

abbrev compiled : CacheEntry
compiled = record {
  source_path = codes "a.sigil";
  source_hash = codes "5e";
  contract_hash = codes "c0";
  deps_hash = codes "none";
  object_path = codes "a.o";
  timestamp = 7;
}

abbrev objects : List Text
objects = codes "a.o" ∷ []

abbrev manifest : CacheManifest
manifest = record { version = 1; compiler_id = codes "v1"; behaviors = (codes "a", compiled) ∷ [] }

up_to_date :
    needs_recompile objects
      (accept_manifest (codes "v1") manifest)
      (codes "a")
      (codes "5e")
      (codes "c0")
      (codes "none")
    ≡ false
unfolding needs_recompile accept_manifest new_manifest entry_is_stale lookup contains text_beq
up_to_date = refl

other_compiler :
    needs_recompile objects
      (accept_manifest (codes "v2") manifest)
      (codes "a")
      (codes "5e")
      (codes "c0")
      (codes "none")
    ≡ true
unfolding needs_recompile accept_manifest new_manifest entry_is_stale lookup contains text_beq
other_compiler = refl

changed_source :
    needs_recompile objects
      (accept_manifest (codes "v1") manifest)
      (codes "a")
      (codes "5f")
      (codes "c0")
      (codes "none")
    ≡ true
unfolding needs_recompile accept_manifest new_manifest entry_is_stale lookup contains text_beq
changed_source = refl

needs_recompile_iff_example :
    (needs_recompile objects
        (accept_manifest (codes "v1") manifest)
        (codes "a")
        (codes "5e")
        (codes "c0")
        (codes "none")
      ≡ false)
    ↔ (((manifest.version ≡ 1) × (manifest.compiler_id ≡ codes "v1"))
        × ((e : CacheEntry) × (lookup (codes "a") manifest.behaviors ≡ some e)
            × IsCurrent objects e (codes "5e") (codes "c0") (codes "none")))
needs_recompile_iff_example =
    needs_recompile_iff objects (codes "v1") manifest (codes "a") (codes "5e") (codes "c0")
      (codes "none")

object_exists : contains objects compiled.object_path ≡ true
unfolding contains text_beq
object_exists = refl

needs_recompile-update_entry_example :
    (needs_recompile objects
        (update_entry manifest (codes "b") compiled)
        (codes "b")
        compiled.source_hash
        compiled.contract_hash
        compiled.deps_hash
      ≡ false)
    × ((other source contract deps : Text)
        → (codes "b" == other) ≡ false
        → needs_recompile objects
            (update_entry manifest (codes "b") compiled)
            other
            source
            contract
            deps
          ≡ needs_recompile objects manifest other source contract deps)
needs_recompile-update_entry_example =
    needs_recompile-update_entry objects manifest (codes "b") compiled object_exists
