-- ===== src/Prelude/Maps.antt =====
-- `HashMap` as an association list, and `HashSet` as a list of its members. The order in which the
-- source iterates over one is unspecified; here it is the order of the list.
use mathlib.Core.Path.{◌≡◌, refl, sym, ap, ◌∙◌}
use mathlib.Core.Logic.{◌↔◌, inl, inr}
use mathlib.Core.Bool.{Bool, true, false, ◌||◌}
use mathlib.Core.Option.{Option, none, some}
use mathlib.Core.List.{List, [], ◌∷◌, ◌++◌, reverse, reverse-cons, Memᴰ}
use native.Mathlib.Omega.{arith}
use sigil_lang.Prelude.Tests.{if◌then◌else◌, Bool-cases}
use sigil_lang.Prelude.Keys.{Eq, ◌==◌, eq_iff}

abbrev pub Map {ℓ κ} : Type ℓ → Type κ → Type (ℓ ⊔ κ)
Map K V = List (K × V)

module _ {ℓ κ} {K : Type ℓ} {V : Type κ} ⦃e : Eq K⦄ where
  unfoldable pub lookup : K → Map K V → Option V
  lookup k [] = none
  lookup k ((i, w) ∷ rest) = if i == k then some w else lookup k rest

  unfoldable pub insert : K → V → Map K V → Map K V
  insert k v [] = (k, v) ∷ []
  insert k v ((i, w) ∷ rest) = if i == k then (k, v) ∷ rest else (i, w) ∷ insert k v rest

  unfoldable pub without : K → Map K V → Map K V
  without k [] = []
  without k ((j, v) ∷ m) = let rest = without k m in if j == k then rest else (j, v) ∷ rest

  pub lookup-insert :
      (new key : K) (v : V) (m : Map K V)
      → lookup key (insert new v m) ≡ (if new == key then some v else lookup key m)
  unfolding lookup insert
  lookup-insert new key v [] = refl
  lookup-insert new key v ((i, w) ∷ rest) =
      let tail = lookup-insert new key v rest in
      ground (arith, tail, eq_iff i new, eq_iff i key, eq_iff new key)

  pub lookup-without :
      (k j : K) (m : Map K V) → lookup j (without k m) ≡ (if k == j then none else lookup j m)
  unfolding lookup without
  lookup-without k j [] = ground arith
  lookup-without k j ((i, w) ∷ m) =
      ground (arith, eq_iff k j, eq_iff i k, eq_iff i j, lookup-without k j m)

module _ {ℓ} {K : Type ℓ} ⦃e : Eq K⦄ where
  unfoldable pub contains : List K → K → Bool
  contains [] a = false
  contains (x ∷ xs) a = x == a || contains xs a

  -- `HashSet::insert`.
  unfoldable pub add : K → List K → List K
  add a xs = if contains xs a then xs else a ∷ xs

  pub contains-add : (a b : K) (xs : List K) → contains (add a xs) b ≡ (a == b || contains xs b)
  unfolding add contains
  contains-add a b xs = ground (arith, eq_iff a b)

  pub contains-append :
      (xs ys : List K) (a : K) → contains (xs ++ ys) a ≡ (contains xs a || contains ys a)
  unfolding contains
  contains-append [] ys a = refl
  contains-append (x ∷ xs) ys a = ground (arith, contains-append xs ys a)

  pub contains-reverse : (xs : List K) (a : K) → contains (reverse xs) a ≡ contains xs a
  unfolding contains
  contains-reverse [] a = refl
  contains-reverse (x ∷ xs) a =
      ap (λ zs. contains zs a) (reverse-cons x xs)
      ∙ contains-append (reverse xs) (x ∷ []) a
      ∙ rw (contains-reverse xs a) (ground arith)

  pub contains_iff : (xs : List K) (a : K) → (contains xs a ≡ true) ↔ Memᴰ a xs
  unfolding contains
  contains_iff [] a = (λ h. cc, λ m. elim m [ ])
  contains_iff (x ∷ xs) a = elim (Bool-cases (x == a)) [
    | inl e ↦ rw e (λ _. Memᴰ.head (sym ((eq_iff x a).0 e)), λ _. refl)
    | inr n ↦ rw n (
      λ h. Memᴰ.tail ((contains_iff xs a).0 h),
      elim [ Memᴰ.head e ↦ cc (n, (eq_iff x a).1 (sym e)) | Memᴰ.tail m ↦ (contains_iff xs a).1 m ],
    )
  ]
