-- ===== src/Semantic/Outputs/Correct.antt =====
-- What the check reports.
use mathlib.Core.Bool.{false≢true}
use sigil_lang.Prelude.{
  ℕ, zero, suc, ap, Text, get_elem?, ◌+◌, ◌≡◌, refl, sym, ◌∙◌, ◌⊎◌, ◌↔◌, inl, inr, true, ◌&&◌, none,
  some, List, [], ◌∷◌, ◌++◌, arith, text_eq, length, contains, All, All-map, Bool-cases, ||-true,
  &&-true, append-nil_iff,
}
use sigil_lang.Ast.{Nodes}
use sigil_lang.Semantic.Errors.{SemanticError}
use sigil_lang.Semantic.Context.{AnalysisContext}
use sigil_lang.Semantic.Outputs.{
  Place, place_eq, Edge, Obligation, Flows, no_flows, gather, is_field, places_of, consumed, unmet,
  check_outputs_consumed,
}
use sigil_lang.Semantic.Outputs.Fixpoint.{IsFixpoint, propagate_ends, complete}
use mathlib.Core.Path.{subst}
use mathlib.Core.Option.{some-injective}
use sigil_lang.Semantic.Outputs.Uses.{
  Never, Somewhere, Everywhere, Used, used_up, fed, IsUsed, Produces, DropsNothing,
}
use sigil_lang.Semantic.Outputs.Collects.{HasEdge, live_iff, edges_iff}
use sigil_lang.Semantic.Outputs.Owes.{All-IsOwed, obligations_iff, errors_iff}
use sigil_lang.Semantic.Outputs.Live.{through, Consumed, by_sink, missing-le-length, AreWithin}

-- A field is consumed if it is, or if its variable is as a whole.
abbrev pub IsMet : List Place → List Edge → Place → Type 0
IsMet used edges (x, f) =
    Consumed used edges (x, f) ⊎ ((is_field f ≡ true) × Consumed used edges (x, none))

consumed_iff :
    (used : List Place) (edges : List Edge) (result : List Place)
    → IsFixpoint used edges used result
    → (p : Place) → (consumed result p ≡ true) ↔ IsMet used edges p
unfolding consumed
consumed_iff used edges result f (x, g) = (
  λ h. elim (||-true (contains result (x, g)) (is_field g && contains result (x, none)) h) [
    | inl itself ↦ inl (f.sound (x, g) itself)
    | inr whole ↦
        let (a, b) = &&-true (is_field g) (contains result (x, none)) whole in
        inr (a, f.sound (x, none) b)
  ],
  elim [
    | inl itself ↦ ground (arith, complete used edges result f itself)
    | inr (a, b) ↦ ground (arith, a, complete used edges result f b)
  ],
)

unmet_iff :
    (used : List Place) (edges : List Edge) (result : List Place)
    → IsFixpoint used edges used result
    → (os : List Obligation) → (unmet result os ≡ []) ↔ All (λ o. IsMet used edges o.place) os
unfolding unmet
unmet_iff used edges result f [] = (λ _. tt, λ _. refl)
unmet_iff used edges result f (o ∷ os) =
    let rest = unmet_iff used edges result f os in
    elim (Bool-cases (consumed result o.place)) [
      | inl met ↦
          rw (met, unmet)
            (λ h. ((consumed_iff used edges result f o.place).0 met, rest.0 h), λ h. rest.1 h.1)
      | inr unseen ↦
          rw (unseen, unmet)
            (
              λ h. absurd (cc),
              λ h.
                  absurd
                    (false≢true (sym unseen ∙ (consumed_iff used edges result f o.place).1 h.0)),
            )
    ]

contains-left :
    (ps qs : List Place) (p : Place) → contains ps p ≡ true → contains (ps ++ qs) p ≡ true
unfolding contains
contains-left [] qs p h = absurd (false≢true h)
contains-left (r ∷ ps) qs p h = ground (arith, contains-left ps qs p)

contains-right :
    (ps qs : List Place) (p : Place) → contains qs p ≡ true → contains (ps ++ qs) p ≡ true
unfolding contains
contains-right [] qs p h = h
contains-right (r ∷ ps) qs p h = ground (arith, contains-right ps qs p h)

spread_within : (edges : List Edge) → AreWithin (places_of edges) edges
unfolding places_of
spread_within [] = tt
spread_within (e ∷ es) = (
  λ p h. contains-left e.1 (places_of es) p h,
  All-map (λ d k p h. contains-right e.1 (places_of es) p (k p h)) es (spread_within es),
)

-- What the loop over the statements has collected.
abbrev pub flows : AnalysisContext → Nodes → Flows
flows ctx ns = gather ctx ns no_flows

-- The relation of the check is that of the statements.
HasEdge-get :
    (es : List Edge) (i : ℕ) (target : Text) (places : List Place) (p : Place)
    → get_elem? es i ≡ some (target, places)
    → contains places p ≡ true
    → HasEdge es target p
HasEdge-get [] i target places p e h = absurd (cc (e))
HasEdge-get ((u, ps) ∷ es) zero target places p e h =
    let same : ◌≡◌ {A = Edge} (u, ps) (target, places) = some-injective _ _ e in
    inl (ap (λ (x : Edge). x.0) same, subst (λ (x : Edge). contains x.1 p ≡ true) (sym same) h)
HasEdge-get (f ∷ es) (suc i) target places p e h = inr (HasEdge-get es i target places p e h)

get-HasEdge :
    (es : List Edge) (target : Text) (p : Place)
    → HasEdge es target p
    → (i : ℕ) × (places : List Place) × (get_elem? es i ≡ some (target, places))
      × (contains places p ≡ true)
get-HasEdge [] target p h = absurd (false≢true h)
get-HasEdge ((u, ps) ∷ es) target p (inl (same, h)) = (0, ps, rw same refl, h)
get-HasEdge ((u, ps) ∷ es) target p (inr h) =
    let (i, places, e, c) = get-HasEdge es target p h in (suc i, places, e, c)

-- Nothing is collected before the first statement.
from_start : {B : Type 0} → (Never ⊎ B) → B
from_start (inl e) = absurd (false≢true e)
from_start (inr b) = b

module _ (ctx : AnalysisContext) (ns : Nodes) where
  Consumed-Used : {p : Place} → Consumed (flows ctx ns).live (flows ctx ns).edges p → Used ns p
  unfolding contains
  Consumed-Used (by_sink {p} h) = used_up (from_start ((live_iff ctx p ns no_flows).0 h))
  Consumed-Used (through i {target} {f} {places} {p} e c h) =
      let edge = HasEdge-get (flows ctx ns).edges i target places p e h in
      fed (from_start ((edges_iff ctx target p ns no_flows).0 edge)) (Consumed-Used c)

  Used-Consumed : {p : Place} → Used ns p → Consumed (flows ctx ns).live (flows ctx ns).edges p
  Used-Consumed (used_up {p} h) = by_sink ((live_iff ctx p ns no_flows).1 (inr h))
  Used-Consumed (fed {t} {f} {p} h u) =
      let (i, places, e, c) =
        get-HasEdge (flows ctx ns).edges t p ((edges_iff ctx t p ns no_flows).1 (inr h)) in
      through i e (Used-Consumed u) c

  same_use : (p : Place) → IsMet (flows ctx ns).live (flows ctx ns).edges p ↔ IsUsed ns p
  same_use (x, f) = (
    elim [ inl c ↦ inl (Consumed-Used c) | inr (a, c) ↦ inr (a, Consumed-Used c) ],
    elim [ inl u ↦ inl (Used-Consumed u) | inr (a, u) ↦ inr (a, Used-Consumed u) ],
  )

  same_obligations :
      All (λ o. IsMet (flows ctx ns).live (flows ctx ns).edges o.place) (flows ctx ns).obligations
      ↔ ((p : Place) → Somewhere (Produces ctx p) ns → IsUsed ns p)
  same_obligations =
      let all =
        All-IsOwed (IsMet (flows ctx ns).live (flows ctx ns).edges) (flows ctx ns).obligations in
      (
        λ h p made. (same_use p).0 (all.0 h p ((obligations_iff ctx p ns no_flows).1 (inr made))),
        λ h. all.1 (λ p owed.
            (same_use p).1 (h p (from_start ((obligations_iff ctx p ns no_flows).0 owed)))),
      )

-- The outputs of the calls are consumed: no call drops one, and what a call produces is used.
abbrev pub AreConsumed : AnalysisContext → Nodes → Type 0
AreConsumed ctx ns =
    Everywhere (DropsNothing ctx) ns × ((p : Place) → Somewhere (Produces ctx p) ns → IsUsed ns p)

-- The check ends, and it reports nothing exactly if no call without a target or a list of names is of
-- a behavior that is known to have outputs, and every place that a call produces is used: the fields
-- of a target for the outputs of a known behavior, and the names of a call that are no outputs of the
-- composition. A place is used if it is an argument, a condition, or a value that is set, discarded,
-- stored or sent, or if it is assigned to a variable that is used, itself or in a field; a field is
-- used, too, if its variable is as a whole. Statements in scopes are not looked at.
pub check_outputs_consumed_correct :
    (ctx : AnalysisContext) (ns : Nodes)
    → (errors : List SemanticError) × (check_outputs_consumed ctx ns ≡ some errors)
      × ((errors ≡ []) ↔ AreConsumed ctx ns)
unfolding check_outputs_consumed
check_outputs_consumed_correct ctx ns =
    let s = flows ctx ns in
    let u = places_of s.edges in
    let (live, same, f) =
      propagate_ends s.live u s.edges (spread_within s.edges) (1 + length u) s.live
        (omega (arith, missing-le-length u s.live)) (λ p h. by_sink h) in
    let met = unmet_iff s.live s.edges live f s.obligations in
    let used = same_obligations ctx ns in
    let quiet = errors_iff ctx ns no_flows in
    let parts = append-nil_iff s.errors (unmet live s.obligations) in
    (
      s.errors ++ unmet live s.obligations,
      rw (same, check_outputs_consumed) refl,
      (
        λ h. let (x, y) = parts.0 h in ((quiet.0 x).1, used.0 (met.0 y)),
        λ h. parts.1 (quiet.1 (refl, h.0), met.1 (used.1 h.1)),
      ),
    )
