-- ===== src/Semantic/Outputs/Live.antt =====
-- The places that are consumed, as a relation, and the loop that computes them.
use mathlib.Core.Path.{subst}
use mathlib.Core.Bool.{false≢true}
use sigil_lang.Prelude.{
  ℕ, suc, ◌≤◌, ◌<◌, ◌≡◌, refl, sym, ap, ◌∙◌, inl, inr, true, false, ◌&&◌, Option, none, some, List,
  [], ◌∷◌, arith, Text, text_eq, ◌==◌, eq_iff, eq_refl, length, get_elem?, contains, any, All,
  Bool-cases, ||-true, &&-true, if◌then◌else◌,
}
use sigil_lang.Semantic.Outputs.{
  Place, place_eq, Edge, is_field, target_live, Spread, spread_one, spread_all, spread_edge, spread,
  place_beq, place_beq_iff,
}

-- A place is consumed if a sink uses it, or if the right side of an assignment has it whose target,
-- or a field of whose target, is consumed.
pub data Consumed (used : List Place) (edges : List Edge) : Place → Type 0 where
  by_sink : {p : Place} → contains used p ≡ true → Consumed used edges p
  through :
      (i : ℕ) {target : Text} {f : Option Text} {places : List Place} {p : Place}
      → get_elem? edges i ≡ some (target, places)
      → Consumed used edges (target, f)
      → contains places p ≡ true
      → Consumed used edges p

pair_beq : (y x : Text) (g : Option Text) → y ≡ x → place_beq (y, g) (x, g) ≡ true
pair_beq y x g h = (place_beq_iff (y, g) (x, g)).1 (ap (λ z. (z, g)) h)

-- `target_live` finds the target or a field of it.
live-any :
    (live : List Place) (x : Text)
    → any (λ p. p.0 == x && is_field p.1) live ≡ true
    → (f : Option Text) × (contains live (x, f) ≡ true)
unfolding contains
live-any [] x h = absurd (false≢true h)
live-any ((y, g) ∷ live) x h =
    elim (||-true (y == x && is_field g) (any (λ p. p.0 == x && is_field p.1) live) h) [
      | inl here ↦
          let same : y ≡ x = (eq_iff y x).0 (&&-true (y == x) (is_field g) here).0 in
          (g, ground (arith, pair_beq y x g same))
      | inr rest ↦ let (f, c) = live-any live x rest in (f, ground (arith, c))
    ]

any-live :
    (live : List Place) (x f : Text)
    → contains live (x, some f) ≡ true
    → any (λ p. p.0 == x && is_field p.1) live ≡ true
unfolding contains
any-live [] x f h = absurd (false≢true h)
any-live (p ∷ live) x f h = elim (||-true (p == (x, some f)) (contains live (x, some f)) h) [
  | inl here ↦
      subst (λ q. any (λ r. r.0 == x && is_field r.1) (q ∷ live) ≡ true)
        (sym ((eq_iff p (x, some f)).0 here)) (ground (arith, eq_refl x))
  | inr rest ↦ ground (arith, any-live live x f rest)
]

pub live_sound :
    (live : List Place) (x : Text)
    → target_live live x ≡ true
    → (f : Option Text) × (contains live (x, f) ≡ true)
unfolding target_live
live_sound live x h =
    elim (||-true (contains live (x, none)) (any (λ p. p.0 == x && is_field p.1) live) h) [
      | inl whole ↦ (none, whole)
      | inr part ↦ live-any live x part
    ]

pub live_complete :
    (live : List Place) (x : Text) (f : Option Text)
    → contains live (x, f) ≡ true
    → target_live live x ≡ true
unfolding target_live
live_complete live x none h = ground (arith, h)
live_complete live x (some f) h = ground (arith, any-live live x f h)

-- How many of the places are not live yet.
abbrev pub missing : List Place → List Place → ℕ
missing [] live = 0
missing (p ∷ ps) live = if contains live p then missing ps live else suc (missing ps live)

missing-le : (ps live : List Place) (p : Place) → missing ps (p ∷ live) ≤ missing ps live
unfolding contains
missing-le [] live p = omega arith
missing-le (q ∷ ps) live p = ground (arith, missing-le ps live p)

missing-lt :
    (ps live : List Place) (p : Place)
    → contains ps p ≡ true
    → contains live p ≡ false
    → missing ps (p ∷ live) < missing ps live
unfolding contains
missing-lt [] live p h new = absurd (false≢true h)
missing-lt (q ∷ ps) live p h new = elim (||-true (q == p) (contains ps p) h) [
  | inl here ↦
      subst (λ r. missing (r ∷ ps) (p ∷ live) < missing (r ∷ ps) live) (sym ((eq_iff q p).0 here))
        (ground (arith, missing-le ps live p, eq_refl p))
  | inr rest ↦ ground (arith, missing-lt ps live p rest new)
]

pub missing-le-length : (ps live : List Place) → missing ps live ≤ length ps
missing-le-length [] live = omega arith
missing-le-length (p ∷ ps) live = ground (arith, missing-le-length ps live)

-- How a part of a round moves on: the set grows, and it is unchanged or it has new places.
pub record Moves (universe : List Place) (s s' : Spread) : Type 0 where
  pub grows : (p : Place) → contains s.live p ≡ true → contains s'.live p ≡ true
  pub at_most : missing universe s'.live ≤ missing universe s.live
  pub progress :
      s.changed ≡ false → s'.changed ≡ true → missing universe s'.live < missing universe s.live
  pub still : s.changed ≡ true → s'.changed ≡ true
  pub same : s'.changed ≡ false → s'.live ≡ s.live

Moves-nowhere : (u : List Place) (s : Spread) → Moves u s s
Moves-nowhere u s = record {
  grows = λ p h. h;
  at_most = omega arith;
  progress = λ h e. absurd (cc);
  still = λ h. h;
  same = λ h. refl;
}

Moves-then : (u : List Place) (a b c : Spread) → Moves u a b → Moves u b c → Moves u a c
Moves-then u a b c first second = record {
  grows = λ p h. second.grows p (first.grows p h);
  at_most = omega (arith, first.at_most, second.at_most);
  progress = λ h e. elim (Bool-cases b.changed) [
    | inl new ↦ omega (arith, first.progress h new, second.at_most)
    | inr same ↦ omega (arith, second.progress same e, first.at_most)
  ];
  still = λ h. second.still (first.still h);
  same = λ h. elim (Bool-cases b.changed) [
    | inl new ↦ absurd (cc (second.still new))
    | inr old ↦ second.same h ∙ first.same old
  ];
}

spread_one-Moves :
    (u : List Place) (p : Place) (s : Spread) → contains u p ≡ true → Moves u s (spread_one p s)
unfolding spread_one contains
spread_one-Moves u p s h = elim (Bool-cases (contains s.live p)) [
  | inl old ↦ rw (old, spread_one) (Moves-nowhere u s)
  | inr new ↦
      rw (new, spread_one)
        (record {
          grows = λ q k. ground (arith, k);
          at_most = missing-le u s.live p;
          progress = λ k e. missing-lt u s.live p h new;
          still = λ k. refl;
          same = λ k. absurd (cc);
        })
]

pub spread_all-Moves :
    (u ps : List Place) (s : Spread)
    → ((p : Place) → contains ps p ≡ true → contains u p ≡ true)
    → Moves u s (spread_all ps s)
unfolding spread_all contains
spread_all-Moves u [] s h = Moves-nowhere u s
spread_all-Moves u (p ∷ ps) s h =
    Moves-then u s (spread_one p s) (spread_all ps (spread_one p s))
      (spread_one-Moves u p s (h p (ground (arith, eq_refl p))))
      (spread_all-Moves u ps (spread_one p s) (λ q k. h q (ground (arith, k))))

abbrev pub AreWithin : List Place → List Edge → Type 0
AreWithin u es = All (λ e. (p : Place) → contains e.1 p ≡ true → contains u p ≡ true) es

pub spread_edge-Moves :
    (u : List Place) (x : Text) (ps : List Place) (s : Spread)
    → ((p : Place) → contains ps p ≡ true → contains u p ≡ true)
    → Moves u s (spread_edge (x, ps) s)
unfolding spread_edge
spread_edge-Moves u x ps s h = elim (Bool-cases (target_live s.live x)) [
  | inl on ↦ rw (on, spread_edge) (spread_all-Moves u ps s h)
  | inr off ↦ rw (off, spread_edge) (Moves-nowhere u s)
]

pub spread-Moves :
    (u : List Place) (es : List Edge) (s : Spread) → AreWithin u es → Moves u s (spread es s)
unfolding spread
spread-Moves u [] s h = Moves-nowhere u s
spread-Moves u ((x, ps) ∷ es) s h =
    Moves-then u s (spread_edge (x, ps) s) (spread es (spread_edge (x, ps) s))
      (spread_edge-Moves u x ps s h.0) (spread-Moves u es (spread_edge (x, ps) s) h.1)
