-- ===== src/Cache/Deps.antt =====
-- compiler/src/cache.rs: compute_deps_hash. A name is a list of code points; their order is the order
-- of the UTF-8 bytes. SHA-256 and the hexadecimal printer are arguments.
pub mod Order
pub mod Unique
use sigil_lang.Prelude.{
  ℕ, Bool, true, false, ◌&&◌, ◌||◌, ltb, List, [], ◌∷◌, ◌++◌, Text, codes, text_eq, text_beq, ◌==◌,
  nat_beq, if◌then◌else◌,
}
use sigil_lang.Chars.{utf8}
use sigil_lang.ContractHash.{take}

unfoldable pub text_lt : Text → Text → Bool
text_lt [] [] = false
text_lt [] (y ∷ ys) = true
text_lt (x ∷ xs) [] = false
text_lt (x ∷ xs) (y ∷ ys) = ltb x y || nat_beq x y && text_lt xs ys

-- `sort_by_key`: pairs with the same name keep their order.
unfoldable pub place : Text × Text → List (Text × Text) → List (Text × Text)
place d [] = d ∷ []
place d (e ∷ es) = let rest = place d es in if text_lt e.0 d.0 then e ∷ rest else d ∷ e ∷ es

unfoldable pub sort_by_name : List (Text × Text) → List (Text × Text)
sort_by_name [] = []
sort_by_name (d ∷ ds) = place d (sort_by_name ds)

-- The loop over the sorted pairs.
unfoldable pub dep_bytes : List (Text × Text) → List ℕ
dep_bytes [] = []
dep_bytes ((name, hash) ∷ ds) = utf8 name ++ (b'@' ∷ (utf8 hash ++ (10 ∷ dep_bytes ds)))

unfoldable pub compute_deps_hash : (List ℕ → List ℕ) → (List ℕ → Text) → List (Text × Text) → Text
unfolding sort_by_name dep_bytes
compute_deps_hash sha256 hex_encode [] = codes "none"
compute_deps_hash sha256 hex_encode (d ∷ ds) =
    hex_encode (take 8 (sha256 (dep_bytes (sort_by_name (d ∷ ds)))))
