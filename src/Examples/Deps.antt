-- ===== src/Examples/Deps.antt =====
-- Concrete dependencies for the theorems on `Cache.Deps`.
use sigil_lang.Prelude.{◌≡◌, refl, List, [], ◌∷◌, All, Text, codes}
use mathlib.Core.List.{Permᴰ}
use sigil_lang.Chars.{utf8}
use sigil_lang.Cache.Deps.{text_lt, place, sort_by_name, dep_bytes, compute_deps_hash}
use sigil_lang.Cache.Deps.Order.{with_hashes, compute_deps_hash-perm}
use sigil_lang.Cache.Deps.Unique.{IsPlain, dep_bytes-injective}

abbrev same_hash : Text → Text
same_hash n = codes "0a"

abbrev deps : List (Text × Text)
deps = (codes "ab", codes "0a") ∷ (codes "a", codes "0b") ∷ []

abbrev deps_swapped : List (Text × Text)
deps_swapped = (codes "a", codes "0b") ∷ (codes "ab", codes "0a") ∷ []

sorted : sort_by_name deps ≡ deps_swapped
unfolding sort_by_name place text_lt
sorted = refl

no_deps : compute_deps_hash (λ b. b) (λ b. b) [] ≡ codes "none"
unfolding compute_deps_hash
no_deps = refl

one_dep : dep_bytes ((codes "a", codes "0b") ∷ []) ≡ 97 ∷ 64 ∷ 48 ∷ 98 ∷ 10 ∷ []
unfolding dep_bytes utf8
one_dep = refl

compute_deps_hash-perm_example :
    compute_deps_hash (λ b. b) (λ b. b) (with_hashes same_hash (codes "b" ∷ codes "a" ∷ []))
    ≡ compute_deps_hash (λ b. b) (λ b. b) (with_hashes same_hash (codes "a" ∷ codes "b" ∷ []))
compute_deps_hash-perm_example =
    compute_deps_hash-perm (λ b. b) (λ b. b) same_hash (codes "b" ∷ codes "a" ∷ [])
      (codes "a" ∷ codes "b" ∷ []) (Permᴰ.swap refl refl)

same_bytes : dep_bytes (sort_by_name deps) ≡ dep_bytes (sort_by_name deps_swapped)
unfolding sort_by_name place text_lt
same_bytes = refl

deps-IsPlain : All IsPlain deps
deps-IsPlain = (((refl, (refl, tt)), (refl, (refl, tt))), (((refl, tt), (refl, (refl, tt))), tt))

deps_swapped-IsPlain : All IsPlain deps_swapped
deps_swapped-IsPlain =
    (((refl, tt), (refl, (refl, tt))), (((refl, (refl, tt)), (refl, (refl, tt))), tt))

dep_bytes-injective_example : Permᴰ deps deps_swapped
dep_bytes-injective_example =
    dep_bytes-injective deps deps_swapped deps-IsPlain deps_swapped-IsPlain same_bytes
