-- ===== src/Semantic/Outputs/Fixpoint.antt =====
-- The `while` loop ends, with the places that are consumed.
use mathlib.Core.Path.{subst}
use mathlib.Core.Bool.{false≢true}
use sigil_lang.Prelude.{
  ℕ, zero, suc, ◌<◌, ◌≡◌, refl, sym, inl, inr, true, false, some, List, [], ◌∷◌, arith, Text,
  text_eq, ◌==◌, eq_iff, eq_refl, get_elem?, contains, All, All-map, All-get, Bool-cases, ||-true,
}
use sigil_lang.Semantic.Outputs.{
  Place, place_eq, Edge, target_live, Spread, spread_one, spread_all, spread_edge, spread,
  propagate,
}
use sigil_lang.Semantic.Outputs.Live.{
  Consumed, by_sink, through, live_sound, live_complete, missing, Moves, AreWithin, spread-Moves,
  spread_edge-Moves, spread_all-Moves,
}

abbrev pub IsSound : List Place → List Edge → List Place → Type 0
IsSound used edges live = (p : Place) → contains live p ≡ true → Consumed used edges p

spread_one-IsSound :
    (used : List Place) (edges : List Edge) (p : Place) (s : Spread)
    → Consumed used edges p
    → IsSound used edges s.live
    → IsSound used edges (spread_one p s).live
unfolding spread_one contains
spread_one-IsSound used edges p s c h = elim (Bool-cases (contains s.live p)) [
  | inl old ↦ rw (old, spread_one) h
  | inr new ↦
      rw (new, spread_one)
        (λ q e. elim (||-true (p == q) (contains s.live q) e) [
          | inl same ↦ subst (Consumed used edges) ((eq_iff p q).0 same) c
          | inr rest ↦ h q rest
        ])
]

spread_all-IsSound :
    (used : List Place) (edges : List Edge) (ps : List Place) (s : Spread)
    → ((p : Place) → contains ps p ≡ true → Consumed used edges p)
    → IsSound used edges s.live
    → IsSound used edges (spread_all ps s).live
unfolding spread_all contains
spread_all-IsSound used edges [] s c h = h
spread_all-IsSound used edges (p ∷ ps) s c h =
    spread_all-IsSound used edges ps (spread_one p s) (λ q k. c q (ground (arith, k)))
      (spread_one-IsSound used edges p s (c p (ground (arith, eq_refl p))) h)

-- The edges that a round still has to visit are edges of the composition.
abbrev pub ArePart : List Edge → List Edge → Type 0
ArePart edges es = All (λ e. (i : ℕ) × (get_elem? edges i ≡ some e)) es

ArePart-all : (es : List Edge) → ArePart es es
ArePart-all [] = tt
ArePart-all (e ∷ es) = ((0, refl), All-map (λ c (i, k). (suc i, k)) es (ArePart-all es))

spread-IsSound :
    (used : List Place) (edges es : List Edge) (s : Spread)
    → ArePart edges es
    → IsSound used edges s.live
    → IsSound used edges (spread es s).live
unfolding spread spread_edge
spread-IsSound used edges [] s part h = h
spread-IsSound used edges ((x, ps) ∷ es) s part h =
    spread-IsSound used edges es (spread_edge (x, ps) s) part.1
      (elim (Bool-cases (target_live s.live x)) [
        | inr off ↦ rw (off, spread_edge) h
        | inl on ↦
            let (f, c) = live_sound s.live x on in
            rw (on, spread_edge)
              (spread_all-IsSound used edges ps s (λ p k. through part.0.0 part.0.1 (h (x, f) c) k)
                h)
      ])

-- An edge whose target is live has only live places.
abbrev IsSettled : List Place → Edge → Type 0
IsSettled live e =
    target_live live e.0 ≡ true → (p : Place) → contains e.1 p ≡ true → contains live p ≡ true

spread_one-here : (p : Place) (s : Spread) → contains (spread_one p s).live p ≡ true
unfolding spread_one contains
spread_one-here p s = ground (arith, eq_refl p)

spread_all-here :
    (u ps : List Place) (s : Spread)
    → ((p : Place) → contains ps p ≡ true → contains u p ≡ true)
    → (p : Place) → contains ps p ≡ true
    → contains (spread_all ps s).live p ≡ true
unfolding spread_all contains
spread_all-here u [] s within p h = absurd (false≢true h)
spread_all-here u (q ∷ ps) s within p h =
    let tail : (r : Place) → contains ps r ≡ true → contains u r ≡ true =
      λ r k. within r (ground (arith, k)) in
    elim (||-true (q == p) (contains ps p) h) [
      | inl here ↦ (spread_all-Moves u ps (spread_one q s) tail).grows p (
          subst (λ r. contains (spread_one q s).live r ≡ true) ((eq_iff q p).0 here)
            (spread_one-here q s))
      | inr rest ↦ spread_all-here u ps (spread_one q s) tail p rest
    ]

spread_edge-IsSettled :
    (u : List Place) (x : Text) (ps : List Place) (s : Spread)
    → ((p : Place) → contains ps p ≡ true → contains u p ≡ true)
    → target_live s.live x ≡ true
    → (p : Place) → contains ps p ≡ true
    → contains (spread_edge (x, ps) s).live p ≡ true
unfolding spread_edge
spread_edge-IsSettled u x ps s within on p h =
    rw (on, spread_edge) (spread_all-here u ps s within p h)

-- A round that changes nothing has found every edge settled.
spread-IsSettled :
    (u : List Place) (es : List Edge) (s : Spread)
    → AreWithin u es
    → (spread es s).changed ≡ false
    → All (IsSettled s.live) es
unfolding spread
spread-IsSettled u [] s within h = tt
spread-IsSettled u ((x, ps) ∷ es) s within h = elim (Bool-cases (spread_edge (x, ps) s).changed) [
  | inl new ↦ absurd (cc (h, (spread-Moves u es (spread_edge (x, ps) s) within.1).still new))
  | inr old ↦
      let same = (spread_edge-Moves u x ps s within.0).same old in
      (
        λ on p k.
            subst (λ live. contains live p ≡ true) same
              (spread_edge-IsSettled u x ps s within.0 on p k),
        subst (λ live. All (IsSettled live) es) same
            (spread-IsSettled u es (spread_edge (x, ps) s) within.1 h),
      )
]

pub record IsFixpoint (used : List Place) (edges : List Edge) (live result : List Place)
    : Type 0 where
  pub grows : (p : Place) → contains live p ≡ true → contains result p ≡ true
  pub settled : All (IsSettled result) edges
  pub sound : IsSound used edges result

pub propagate_ends :
    (used u : List Place) (edges : List Edge)
    → AreWithin u edges
    → (fuel : ℕ) (live : List Place) → missing u live < fuel
    → IsSound used edges live
    → (result : List Place) × (propagate fuel edges live ≡ some result)
      × IsFixpoint used edges live result
unfolding propagate
propagate_ends used u edges within zero live h sound = absurd (omega arith)
propagate_ends used u edges within (suc fuel) live h sound = elim (Bool-cases s.changed) [
  | inl e ↦
      let (result, same, f) =
        propagate_ends used u edges within fuel s.live (omega (arith, h, moves.progress refl e))
          next in
      (
        result,
        rw (e, propagate) same,
        record { grows = λ p c. f.grows p (moves.grows p c); settled = f.settled; sound = f.sound },
      )
  | inr e ↦ (
    s.live,
    rw (e, propagate) refl,
    record {
      grows = moves.grows;
      settled =
          subst (λ set. All (IsSettled set) edges) (sym (moves.same e))
            (spread-IsSettled u edges start within e);
      sound = next;
    },
  )
]
  where
    start : Spread
    start = record { live = live; changed = false }

    s : Spread
    s = spread edges start

    moves : Moves u start s
    moves = spread-Moves u edges start within

    next : IsSound used edges s.live
    next = spread-IsSound used edges edges start (ArePart-all edges) sound

pub complete :
    (used : List Place) (edges : List Edge) (result : List Place)
    → IsFixpoint used edges used result
    → {p : Place} → Consumed used edges p
    → contains result p ≡ true
complete used edges result f (by_sink {p} h) = f.grows p h
complete used edges result f (through i {target} {f = field} {places} {p} at c h) =
    All-get (IsSettled result) edges i (target, places) f.settled at
      (live_complete result target field (complete used edges result f c)) p h
