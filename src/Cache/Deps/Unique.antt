-- ===== src/Cache/Deps/Unique.antt =====
-- What is hashed tells the dependencies and their hashes.
use sigil_lang.Prelude.{
  ℕ, ◌≡◌, ◌≢◌, refl, sym, ◌∙◌, true, false, List, [], ◌∷◌, ◌++◌, All, Text, if◌then◌else◌,
}
use mathlib.Core.List.{Permᴰ}
use mathlib.Core.List.Permᴰ
use mathlib.Core.Path.{subst}
use sigil_lang.ContractHash.Unique.{IsName, utf8-name, name_ends}
use sigil_lang.Cache.Deps.{text_lt, place, sort_by_name, dep_bytes}

-- The name and the hash of a dependency.
abbrev pub IsPlain : Text × Text → Type 0
IsPlain d = IsName d.0 × IsName d.1

place-perm : (d : Text × Text) (es : List (Text × Text)) → Permᴰ (d ∷ es) (place d es)
unfolding place
place-perm d [] = Permᴰ.refl (d ∷ [])
place-perm d (e ∷ es) =
    elim (text_lt e.0 d.0) as (λ b. Permᴰ (d ∷ e ∷ es) (if b then e ∷ place d es else d ∷ e ∷ es)) [
      | true ↦ Permᴰ.trans (Permᴰ.swap refl refl) (Permᴰ.cons refl (place-perm d es))
      | false ↦ Permᴰ.refl (d ∷ e ∷ es)
    ]

sort_by_name-perm : (ds : List (Text × Text)) → Permᴰ ds (sort_by_name ds)
unfolding sort_by_name
sort_by_name-perm [] = Permᴰ.nil
sort_by_name-perm (d ∷ ds) =
    Permᴰ.trans (Permᴰ.cons refl (sort_by_name-perm ds)) (place-perm d (sort_by_name ds))

place-All :
    (d : Text × Text) (es : List (Text × Text))
    → IsPlain d
    → All IsPlain es
    → All IsPlain (place d es)
unfolding place
place-All d [] h hs = (h, hs)
place-All d (e ∷ es) h hs =
    elim (text_lt e.0 d.0) as (λ b. All IsPlain (if b then e ∷ place d es else d ∷ e ∷ es)) [
      | true ↦ (hs.0, place-All d es h hs.1)
      | false ↦ (h, hs)
    ]

sort_by_name-All : (ds : List (Text × Text)) → All IsPlain ds → All IsPlain (sort_by_name ds)
unfolding sort_by_name
sort_by_name-All [] h = h
sort_by_name-All (d ∷ ds) h = place-All d (sort_by_name ds) h.0 (sort_by_name-All ds h.1)

dep_bytes-cons :
    (d : Text × Text) (ds : List (Text × Text))
    → IsPlain d
    → dep_bytes (d ∷ ds) ≡ d.0 ++ (b'@' ∷ (d.1 ++ (10 ∷ dep_bytes ds)))
unfolding dep_bytes
dep_bytes-cons d ds h = rw (utf8-name d.0 h.0) (rw (utf8-name d.1 h.1) refl)

nonempty : (xs : Text) (a : ℕ) (r : List ℕ) → xs ++ (a ∷ r) ≢ []
nonempty [] a r e = cc
nonempty (x ∷ xs) a r e = cc

dep_bytes_unique :
    (ds es : List (Text × Text))
    → All IsPlain ds
    → All IsPlain es
    → dep_bytes ds ≡ dep_bytes es
    → ds ≡ es
unfolding dep_bytes
dep_bytes_unique [] [] hd he q = refl
dep_bytes_unique [] (e ∷ es) hd he q =
    absurd (nonempty e.0 b'@' _ (sym (dep_bytes-cons e es he.0) ∙ sym q))
dep_bytes_unique (d ∷ ds) [] hd he q =
    absurd (nonempty d.0 b'@' _ (sym (dep_bytes-cons d ds hd.0) ∙ q))
dep_bytes_unique (d ∷ ds) (e ∷ es) hd he q =
    let (name, _, q₁) =
      name_ends d.0 e.0 b'@' b'@' _ _ hd.0.0 he.0.0 refl refl
        (sym (dep_bytes-cons d ds hd.0) ∙ q ∙ dep_bytes-cons e es he.0) in
    let (hash, _, q₂) = name_ends d.1 e.1 10 10 _ _ hd.0.1 he.0.1 refl refl q₁ in
    cc (name, hash, dep_bytes_unique ds es hd.1 he.1 q₂)

-- Two lists of dependencies whose names and hashes consist of identifier characters feed the same
-- bytes to the hasher, once sorted, only if they are the same up to order.
pub dep_bytes-injective :
    (ds es : List (Text × Text))
    → All IsPlain ds
    → All IsPlain es
    → dep_bytes (sort_by_name ds) ≡ dep_bytes (sort_by_name es)
    → Permᴰ ds es
dep_bytes-injective ds es hd he q = Permᴰ.trans (sort_by_name-perm ds) (
    subst (λ l. Permᴰ l es)
      (sym (
        dep_bytes_unique (sort_by_name ds) (sort_by_name es) (sort_by_name-All ds hd)
          (sort_by_name-All es he) q))
      (Permᴰ.symm (sort_by_name-perm es)))
