-- ===== src/Semantic/Outputs/Collects.antt =====
-- What the loop over the statements collects is what the statements do.
use mathlib.Core.Bool.{false≢true}
use sigil_lang.Prelude.{
  ℕ, ◌≡◌, refl, sym, ◌∙◌, ◌⊎◌, ◌↔◌, inl, inr, true, ◌||◌, none, some, List, [], ◌∷◌, ◌++◌, arith,
  Text, text_eq, eq_iff, contains, contains-add, contains-append, ||-true,
}
use sigil_lang.Ast.{
  Expr, Exprs, nil, cons, Offset, no_offset, at_offset, node, NodeKind, Nodes, end, next,
}
use sigil_lang.Semantic.Context.{AnalysisContext}
use sigil_lang.Semantic.Outputs.{
  Place, place_eq, Edge, Flows, collect_places_vec, collect_places_in, add_places, add_sink_places,
  add_sinks_in, add_sink_offset, gather_call, gather_assignment, gather_node, gather,
}
use sigil_lang.Semantic.Outputs.Uses.{Never, Somewhere, Reads, ReadsIn, ReadsOffset, Sinks, Feeds}

-- Equivalences with a choice on the right.
pub alone : {A : Type 0} → A ↔ (A ⊎ Never)
alone = (λ h. inl h, elim [ inl h ↦ h | inr e ↦ absurd (false≢true e) ])

then_or : {X Y A B C : Type 0} → X ↔ (Y ⊎ C) → Y ↔ (A ⊎ B) → X ↔ (A ⊎ (B ⊎ C))
then_or p q = (
  λ x. elim (p.0 x) [
    | inl y ↦ elim (q.0 y) [ inl a ↦ inl a | inr b ↦ inr (inl b) ]
    | inr c ↦ inr (inr c)
  ],
  elim [
    | inl a ↦ p.1 (inl (q.1 (inl a)))
    | inr (inl b) ↦ p.1 (inl (q.1 (inr b)))
    | inr (inr c) ↦ p.1 (inr c)
  ],
)

-- The members of the set after a step: those before, and those that are added.
abbrev Adds : List Place → List Place → Place → Type 0 → Type 0
Adds before later p B = (contains later p ≡ true) ↔ ((contains before p ≡ true) ⊎ B)

add_places-contains :
    (ps set : List Place) (p : Place)
    → contains (add_places ps set) p ≡ (contains ps p || contains set p)
unfolding add_places contains
add_places-contains [] set p = refl
add_places-contains (q ∷ ps) set p =
    add_places-contains ps _ p ∙ rw (contains-add q p set) (ground arith)

one : (q p : Place) → (contains (q ∷ []) p ≡ true) ↔ (q ≡ p)
unfolding contains
one q p = (λ h. ground (arith, h, eq_iff q p), λ h. ground (arith, (eq_iff q p).1 h))

either :
    {A B : Type 0} (qs rs : List Place) (p : Place)
    → (contains qs p ≡ true) ↔ A
    → (contains rs p ≡ true) ↔ B
    → (contains (qs ++ rs) p ≡ true) ↔ (A ⊎ B)
either qs rs p a b = (
  λ h. elim (||-true (contains qs p) (contains rs p) (sym (contains-append qs rs p) ∙ h)) [
    | inl x ↦ inl (a.0 x)
    | inr y ↦ inr (b.0 y)
  ],
  elim [
    | inl x ↦ contains-append qs rs p ∙ rw (a.1 x) refl
    | inr y ↦ contains-append qs rs p ∙ ground (arith, b.1 y)
  ],
)

mutual
  unfolding collect_places_vec collect_places_in Reads ReadsIn contains

  collect_iff : (e : Expr) (p : Place) → (contains (collect_places_vec e) p ≡ true) ↔ Reads e p
  collect_iff (Expr.var x) p = one (x, none) p
  collect_iff (Expr.field (Expr.var x) f) p = one (x, some f) p
  collect_iff (Expr.field e f) p = collect_iff e p
  collect_iff (Expr.call f args) p = collect_in_iff args p
  collect_iff (Expr.spawn f args) p = collect_in_iff args p
  collect_iff e p = (λ h. h, λ h. h)

  collect_in_iff :
      (args : Exprs) (p : Place) → (contains (collect_places_in args) p ≡ true) ↔ ReadsIn args p
  collect_in_iff nil p = (λ h. h, λ h. h)
  collect_in_iff (cons a more) p =
      either (collect_places_vec a) (collect_places_in more) p (collect_iff a p)
        (collect_in_iff more p)

add_sink_places-Adds :
    (e : Expr) (set : List Place) (p : Place) → Adds set (add_sink_places e set) p (Reads e p)
unfolding add_sink_places
add_sink_places-Adds e set p =
    let same = add_places-contains (collect_places_vec e) set p in
    (
      λ h. elim (||-true (contains (collect_places_vec e) p) (contains set p) (sym same ∙ h)) [
        | inl new ↦ inr ((collect_iff e p).0 new)
        | inr old ↦ inl old
      ],
      elim [
        | inl old ↦ same ∙ ground (arith, old)
        | inr new ↦ same ∙ rw ((collect_iff e p).1 new) refl
      ],
    )

add_sinks_in-Adds :
    (args : Exprs) (set : List Place) (p : Place)
    → Adds set (add_sinks_in args set) p (ReadsIn args p)
unfolding add_sinks_in ReadsIn
add_sinks_in-Adds nil set p = alone
add_sinks_in-Adds (cons a more) set p =
    then_or (add_sinks_in-Adds more (add_sink_places a set) p) (add_sink_places-Adds a set p)

add_sink_offset-Adds :
    (o : Offset) (set : List Place) (p : Place)
    → Adds set (add_sink_offset o set) p (ReadsOffset o p)
unfolding add_sink_offset
add_sink_offset-Adds no_offset set p = alone
add_sink_offset-Adds (at_offset e) set p = add_sink_places-Adds e set p

swap : {X A B C : Type 0} → X ↔ (A ⊎ (B ⊎ C)) → X ↔ (A ⊎ (C ⊎ B))
swap h = (
  λ x. elim (h.0 x) [ inl a ↦ inl a | inr (inl b) ↦ inr (inr b) | inr (inr c) ↦ inr (inl c) ],
  elim [ inl a ↦ h.1 (inl a) | inr (inl c) ↦ h.1 (inr (inr c)) | inr (inr b) ↦ h.1 (inr (inl b)) ],
)

node-Adds :
    (ctx : AnalysisContext) (line : ℕ) (k : NodeKind) (s : Flows) (p : Place)
    → Adds s.live (gather_node ctx line k s).live p (Sinks p k)
unfolding gather_node gather_call gather_assignment
node-Adds ctx line (NodeKind.call_node r f args []) s p = add_sinks_in-Adds args s.live p
node-Adds ctx line (NodeKind.call_node r f args (o ∷ os)) s p = add_sinks_in-Adds args s.live p
node-Adds ctx line (NodeKind.assignment t (Expr.call f args)) s p = add_sinks_in-Adds args s.live p
node-Adds ctx line (NodeKind.assignment t (Expr.spawn f args)) s p = add_sinks_in-Adds args s.live p
node-Adds ctx line (NodeKind.assignment t e) s p = alone
node-Adds ctx line (NodeKind.branch e l m) s p = add_sink_places-Adds e s.live p
node-Adds ctx line (NodeKind.set t e) s p = add_sink_places-Adds e s.live p
node-Adds ctx line (NodeKind.discard e) s p = add_sink_places-Adds e s.live p
node-Adds ctx line (NodeKind.store t e n o) s p = swap (
    then_or (add_sink_offset-Adds o (add_sink_places e s.live) p) (add_sink_places-Adds e s.live p))
node-Adds ctx line (NodeKind.channel_send c e) s p = add_sink_places-Adds e s.live p
node-Adds ctx line (NodeKind.spawn_node r f args) s p = add_sinks_in-Adds args s.live p
node-Adds ctx line k s p = alone

-- An edge of the list leads from the place to the variable.
abbrev pub HasEdge : List Edge → Text → Place → Type 0
HasEdge [] t p = Never
HasEdge ((u, ps) ∷ es) t p = ((u ≡ t) × (contains ps p ≡ true)) ⊎ HasEdge es t p

HasEdge-snoc :
    (es : List Edge) (u : Text) (ps : List Place) (t : Text) (p : Place)
    → HasEdge (es ++ ((u, ps) ∷ [])) t p ↔ (HasEdge es t p ⊎ ((u ≡ t) × (contains ps p ≡ true)))
HasEdge-snoc [] u ps t p =
    (elim [ inl h ↦ inr h | inr h ↦ inl h ], elim [ inl h ↦ inr h | inr h ↦ inl h ])
HasEdge-snoc ((v, qs) ∷ es) u ps t p =
    let rest = HasEdge-snoc es u ps t p in
    (
      elim [
        | inl h ↦ inl (inl h)
        | inr h ↦ elim (rest.0 h) [ inl old ↦ inl (inr old) | inr new ↦ inr new ]
      ],
      elim [
        | inl (inl h) ↦ inl h
        | inl (inr h) ↦ inr (rest.1 (inl h))
        | inr h ↦ inr (rest.1 (inr h))
      ],
    )

edge_of :
    (es : List Edge) (u : Text) (e : Expr) (t : Text) (p : Place)
    → HasEdge (es ++ ((u, collect_places_vec e) ∷ [])) t p
      ↔ (HasEdge es t p ⊎ ((u ≡ t) × Reads e p))
edge_of es u e t p =
    let h = HasEdge-snoc es u (collect_places_vec e) t p in
    (
      λ x. elim (h.0 x) [
        | inl old ↦ inl old
        | inr (same, new) ↦ inr (same, (collect_iff e p).0 new)
      ],
      elim [
        | inl old ↦ h.1 (inl old)
        | inr (same, new) ↦ h.1 (inr (same, (collect_iff e p).1 new))
      ],
    )

node-HasEdge :
    (ctx : AnalysisContext) (line : ℕ) (k : NodeKind) (s : Flows) (t : Text) (p : Place)
    → HasEdge (gather_node ctx line k s).edges t p ↔ (HasEdge s.edges t p ⊎ Feeds t p k)
unfolding gather_node gather_call gather_assignment
node-HasEdge ctx line (NodeKind.call_node r f args []) s t p = alone
node-HasEdge ctx line (NodeKind.call_node r f args (o ∷ os)) s t p = alone
node-HasEdge ctx line (NodeKind.assignment u (Expr.call f args)) s t p = alone
node-HasEdge ctx line (NodeKind.assignment u (Expr.spawn f args)) s t p = alone
node-HasEdge ctx line (NodeKind.assignment u e) s t p = edge_of s.edges u e t p
node-HasEdge ctx line k s t p = alone

-- The loop, for what a statement adds to anything that it collects.
pub collects :
    (ctx : AnalysisContext) (P : Flows → Type 0) (B : NodeKind → Type 0)
    → ((line : ℕ) (k : NodeKind) (s : Flows) → P (gather_node ctx line k s) ↔ (P s ⊎ B k))
    → (ns : Nodes) (s : Flows) → P (gather ctx ns s) ↔ (P s ⊎ Somewhere B ns)
unfolding gather
collects ctx P B step end s = alone
collects ctx P B step (next (node sp k) ns) s =
    then_or (collects ctx P B step ns (gather_node ctx sp.line k s)) (step sp.line k s)

pub live_iff :
    (ctx : AnalysisContext) (p : Place) (ns : Nodes) (s : Flows)
    → (contains (gather ctx ns s).live p ≡ true)
      ↔ ((contains s.live p ≡ true) ⊎ Somewhere (Sinks p) ns)
live_iff ctx p =
    collects ctx (λ s. contains s.live p ≡ true) (Sinks p) (λ line k s. node-Adds ctx line k s p)

pub edges_iff :
    (ctx : AnalysisContext) (t : Text) (p : Place) (ns : Nodes) (s : Flows)
    → HasEdge (gather ctx ns s).edges t p ↔ (HasEdge s.edges t p ⊎ Somewhere (Feeds t p) ns)
edges_iff ctx t p =
    collects ctx (λ s. HasEdge s.edges t p) (Feeds t p) (λ line k s. node-HasEdge ctx line k s t p)
