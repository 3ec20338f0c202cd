-- ===== src/Cache/Deps/Order.antt =====
-- The order of the dependencies does not matter.
use sigil_lang.Prelude.{
  ℕ, ◌≡◌, ◌≢◌, sym, refl, ap, ◌∙◌, true, false, List, [], ◌∷◌, map, arith, Text,
}
use mathlib.Core.List.{Permᴰ}
use sigil_lang.Cache.Deps.{text_lt, place, sort_by_name, compute_deps_hash}

text_lt-cotrans : (x a b : Text) → text_lt x b ≡ false → text_lt x a ≡ true → text_lt b a ≡ true
unfolding text_lt
text_lt-cotrans [] a [] h l = l
text_lt-cotrans [] [] (y ∷ b) h l = cc
text_lt-cotrans [] (z ∷ a) (y ∷ b) h l = cc
text_lt-cotrans (w ∷ x) [] b h l = cc
text_lt-cotrans (w ∷ x) (z ∷ a) [] h l = refl
text_lt-cotrans (w ∷ x) (z ∷ a) (y ∷ b) h l = ground (arith, h, l, text_lt-cotrans x a b)

text_lt-asym : (a b : Text) → text_lt a b ≡ true → text_lt b a ≡ false
unfolding text_lt
text_lt-asym [] [] h = refl
text_lt-asym [] (y ∷ b) h = refl
text_lt-asym (x ∷ a) [] h = cc
text_lt-asym (x ∷ a) (y ∷ b) h = ground (arith, h, text_lt-asym a b)

text_lt-trichotomous : (a b : Text) → text_lt a b ≡ false → text_lt b a ≡ false → a ≡ b
unfolding text_lt
text_lt-trichotomous [] [] h l = refl
text_lt-trichotomous [] (y ∷ b) h l = cc
text_lt-trichotomous (x ∷ a) [] h l = cc
text_lt-trichotomous (x ∷ a) (y ∷ b) h l = ground (arith, h, l, text_lt-trichotomous a b)

place_comm :
    (m n h k : Text) (ds : List (Text × Text))
    → (m ≡ n → h ≡ k)
    → place (m, h) (place (n, k) ds) ≡ place (n, k) (place (m, h) ds)
unfolding place
place_comm m n h k [] same =
    ground (arith, same, text_lt-asym m n, text_lt-asym n m, text_lt-trichotomous m n)
place_comm m n h k ((x, l) ∷ ds) same = ground (
  arith,
  same,
  text_lt-asym m n,
  text_lt-asym n m,
  text_lt-trichotomous m n,
  text_lt-cotrans x m n,
  text_lt-cotrans x n m,
  place_comm m n h k ds same,
)

module _ (hash_of : Text → Text) where
  abbrev pub with_hashes : List Text → List (Text × Text)
  with_hashes names = map (λ n. (n, hash_of n)) names

  sort_by_name-perm :
      (names others : List Text)
      → Permᴰ names others
      → sort_by_name (with_hashes names) ≡ sort_by_name (with_hashes others)
  unfolding sort_by_name
  sort_by_name-perm [] [] Permᴰ.nil = refl
  sort_by_name-perm (a ∷ xs) (b ∷ ys) (Permᴰ.cons e p) =
      rw e (ap (place (b, hash_of b)) (sort_by_name-perm xs ys p))
  sort_by_name-perm (a ∷ b ∷ l) (c ∷ d ∷ _) (Permᴰ.swap e g) =
      rw (e, g) (place_comm d c (hash_of d) (hash_of c) (sort_by_name (with_hashes l)) (ap hash_of))
  sort_by_name-perm names others (Permᴰ.trans p q) =
      sort_by_name-perm names _ p ∙ sort_by_name-perm _ others q

place-nonempty : (d : Text × Text) (es : List (Text × Text)) → place d es ≢ []
unfolding place
place-nonempty d [] h = cc
place-nonempty d (e ∷ es) h = ground (arith, h)

sort_by_name-cons : (d : Text × Text) (ds : List (Text × Text)) → sort_by_name (d ∷ ds) ≢ []
unfolding sort_by_name
sort_by_name-cons d ds h = place-nonempty d (sort_by_name ds) h

same_sorted :
    (sha256 : List ℕ → List ℕ) (hex_encode : List ℕ → Text) (ds es : List (Text × Text))
    → sort_by_name ds ≡ sort_by_name es
    → compute_deps_hash sha256 hex_encode ds ≡ compute_deps_hash sha256 hex_encode es
unfolding compute_deps_hash
same_sorted sha256 hex_encode [] [] h = refl
same_sorted sha256 hex_encode [] (e ∷ es) h = absurd (sort_by_name-cons e es (sym h))
same_sorted sha256 hex_encode (d ∷ ds) [] h = absurd (sort_by_name-cons d ds h)
same_sorted sha256 hex_encode (d ∷ ds) (e ∷ es) h = rw h refl

-- The hash of the dependencies does not depend on their order, where a name always stands with the
-- same hash.
pub compute_deps_hash-perm :
    (sha256 : List ℕ → List ℕ) (hex_encode : List ℕ → Text) (hash_of : Text → Text)
    (names others : List Text)
    → Permᴰ names others
    → compute_deps_hash sha256 hex_encode (with_hashes hash_of names)
      ≡ compute_deps_hash sha256 hex_encode (with_hashes hash_of others)
compute_deps_hash-perm sha256 hex_encode hash_of names others p =
    same_sorted sha256 hex_encode (with_hashes hash_of names) (with_hashes hash_of others)
      (sort_by_name-perm hash_of names others p)
