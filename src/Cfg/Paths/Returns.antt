-- ===== src/Cfg/Paths/Returns.antt =====
-- What holds of the lists of paths that the parts of `all_paths` return.
use mathlib.Core.Path.{subst}
use mathlib.Core.Bool.{false≢true}
use sigil_lang.Prelude.{
  ℕ, ◌≡◌, refl, sym, ◌∙◌, ◌↔◌, ◌⊎◌, inl, inr, true, false, Option, some, List, [], ◌∷◌, ◌++◌, map,
  arith, nat_eq, text_eq, text_beq, ◌==◌, eq_iff, eq_refl, contains, contains-append, ||-true,
}
use sigil_lang.Cfg.Paths.{append_paths, each, extend}

-- The result is there, and holds exactly these paths.
abbrev pub Returns : Option (List (List ℕ)) → (List ℕ → Type 0) → Type 0
Returns r P = (ps : List (List ℕ)) × (r ≡ some ps) × ((p : List ℕ) → (contains ps p ≡ true) ↔ P p)

pub Returns-append :
    {r t : Option (List (List ℕ))} {P Q : List ℕ → Type 0}
    → Returns r P
    → Returns t Q
    → Returns (append_paths r t) (λ p. P p ⊎ Q p)
Returns-append (ps, is_ps, left) (qs, is_qs, right) = (
  ps ++ qs,
  rw (is_ps, is_qs) refl,
  λ p.
      let both = contains-append ps qs p in
      (
        λ h. elim (||-true (contains ps p) (contains qs p) (sym both ∙ h)) [
          | inl a ↦ inl ((left p).0 a)
          | inr b ↦ inr ((right p).0 b)
        ],
        elim [
          | inl a ↦ both ∙ rw ((left p).1 a) refl
          | inr b ↦ both ∙ rw ((right p).1 b) (ground arith)
        ],
      ),
)

-- Every start has its paths.
pub Returns-each :
    (f : ℕ → Option (List (List ℕ))) (P : ℕ → List ℕ → Type 0)
    → ((j : ℕ) → Returns (f j) (P j))
    → (js : List ℕ) → Returns (each f js) (λ p. (j : ℕ) × (contains js j ≡ true) × P j p)
unfolding contains
Returns-each f P h [] = ([], refl, λ p. (λ e. absurd (cc (e)), λ (j, e, q). absurd (cc (e))))
Returns-each f P h (j ∷ js) =
    let (ps, is_ps, exact) = Returns-append (h j) (Returns-each f P h js) in
    (
      ps,
      is_ps,
      λ p. (
        λ e. elim ((exact p).0 e) [
          | inl here ↦ (j, ground (arith, eq_refl j), here)
          | inr (k, among, there) ↦ (k, ground (arith, among), there)
        ],
        λ (k, among, q). (exact p).1 (elim (||-true (j == k) (contains js k) among) [
          | inl same ↦ inl (subst (λ i. P i p) (sym ((eq_iff j k).0 same)) q)
          | inr rest ↦ inr (k, rest, q)
        ]),
      ),
    )

contains-map :
    (i : ℕ) (ps : List (List ℕ)) (p : List ℕ)
    → contains (map (λ q. i ∷ q) ps) (i ∷ p) ≡ contains ps p
unfolding contains text_beq
contains-map i [] p = refl
contains-map i (q ∷ ps) p = ground (arith, contains-map i ps p, eq_refl i)

map-starts :
    (i : ℕ) (ps : List (List ℕ)) (p : List ℕ)
    → contains (map (λ q. i ∷ q) ps) p ≡ true
    → (q : List ℕ) × (p ≡ (i ∷ q))
unfolding contains
map-starts i [] p h = absurd (false≢true h)
map-starts i (q ∷ ps) p h = elim (||-true ((i ∷ q) == p) (contains (map (λ q. i ∷ q) ps) p) h) [
  | inl same ↦ (q, sym ((eq_iff (i ∷ q) p).0 same))
  | inr rest ↦ map-starts i ps p rest
]

pub Returns-extend :
    (i : ℕ) {r : Option (List (List ℕ))} {P : List ℕ → Type 0}
    → Returns r P
    → Returns (extend i r) (λ p. (q : List ℕ) × (p ≡ (i ∷ q)) × P q)
Returns-extend i {r} {P} (ps, is_ps, exact) = (
  map (λ q. i ∷ q) ps,
  rw (is_ps) refl,
  λ p. (
    λ h.
        let (q, same) = map-starts i ps p h in
        let h' : contains (map (λ q. i ∷ q) ps) (i ∷ q) ≡ true =
          subst (λ z. contains (map (λ q. i ∷ q) ps) z ≡ true) same h in
        (q, same, (exact q).0 (sym (contains-map i ps q) ∙ h')),
    λ (q, same, held).
        subst (λ z. contains (map (λ q. i ∷ q) ps) z ≡ true) (sym same)
          (contains-map i ps q ∙ (exact q).1 held),
  ),
)

pub Returns-as :
    {r : Option (List (List ℕ))} {P Q : List ℕ → Type 0}
    → Returns r P
    → ((p : List ℕ) → P p ↔ Q p)
    → Returns r Q
Returns-as (ps, is_ps, exact) same =
    (ps, is_ps, λ p. (λ h. (same p).0 ((exact p).0 h), λ q. (exact p).1 ((same p).1 q)))

pub Returns-none : {P : List ℕ → Type 0} → ((p : List ℕ) → ¬ P p) → Returns (some []) P
unfolding contains
Returns-none h = ([], refl, λ p. (λ e. absurd (cc (e)), λ q. absurd (h p q)))

pub Returns-one :
    {P : List ℕ → Type 0} (q : List ℕ)
    → P q
    → ((p : List ℕ) → P p → p ≡ q)
    → Returns (some (q ∷ [])) P
unfolding contains
Returns-one {P} q held only = (
  q ∷ [],
  refl,
  λ p. (
    λ e. elim (||-true (q == p) false e) [
      | inl same ↦ subst P ((eq_iff q p).0 same) held
      | inr other ↦ absurd (false≢true other)
    ],
    λ h. subst (λ z. contains (q ∷ []) z ≡ true) (sym (only p h)) (ground (arith, eq_refl q)),
  ),
)
