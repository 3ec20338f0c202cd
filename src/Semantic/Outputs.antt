-- ===== src/Semantic/Outputs.antt =====
-- compiler/src/semantic/mod.rs, `check_outputs_consumed`: in a composition, what a call produces is
-- consumed.
pub mod Live
pub mod Fixpoint
pub mod Uses
pub mod Collects
pub mod Owes
pub mod Correct
use sigil_lang.Prelude.{
  ℕ, zero, suc, ◌+◌, ◌≡◌, refl, ap, ◌↔◌, Bool, true, false, ◌&&◌, ◌||◌, Option, none, some, List,
  [], ◌∷◌, ◌++◌, Text, codes, Eq, text_eq, text_beq, text_beq_iff, ◌==◌, lookup, contains, add, any,
  length, arith,
}
use sigil_lang.Ast.{
  Span, Expr, Exprs, nil, cons, Offset, no_offset, at_offset, Node, node, NodeKind, Nodes, end,
  next, Parameter, Contract,
}
use sigil_lang.Semantic.Errors.{SemanticError, unconsumed_output}
use sigil_lang.Semantic.Context.{AnalysisContext, has_key}

-- A variable, or a field of it.
abbrev pub Place : Type 0
Place = Text × Option Text

unfoldable pub field_beq : Option Text → Option Text → Bool
field_beq none none = true
field_beq (some a) (some b) = text_beq a b
field_beq _ _ = false

pub field_beq_iff : (a b : Option Text) → (field_beq a b ≡ true) ↔ (a ≡ b)
unfolding field_beq
field_beq_iff none none = (λ _. refl, λ _. refl)
field_beq_iff none (some b) = (λ h. cc, λ h. cc)
field_beq_iff (some a) none = (λ h. cc, λ h. cc)
field_beq_iff (some a) (some b) = ground (arith, text_beq_iff a b)

abbrev pub place_beq : Place → Place → Bool
place_beq (x, f) (y, g) = text_beq x y && field_beq f g

pub place_beq_iff : (a b : Place) → (place_beq a b ≡ true) ↔ (a ≡ b)
place_beq_iff (x, f) (y, g) = ground (arith, text_beq_iff x y, field_beq_iff f g)

instance abbrev pub place_eq : Eq Place
place_eq = record { beq = place_beq; beq_iff = place_beq_iff }

unfoldable mutual
  pub collect_places_vec : Expr → List Place
  collect_places_vec (Expr.var x) = (x, none) ∷ []
  collect_places_vec (Expr.field (Expr.var x) f) = (x, some f) ∷ []
  collect_places_vec (Expr.field base _) = collect_places_vec base
  collect_places_vec (Expr.call _ args) = collect_places_in args
  collect_places_vec (Expr.spawn _ args) = collect_places_in args
  collect_places_vec _ = []

  pub collect_places_in : Exprs → List Place
  collect_places_in nil = []
  collect_places_in (cons a more) = collect_places_vec a ++ collect_places_in more

-- `for p in v { set.insert(p) }`.
unfoldable pub add_places : List Place → List Place → List Place
add_places [] set = set
add_places (p ∷ ps) set = add_places ps (add p set)

unfoldable pub add_sink_places : Expr → List Place → List Place
unfolding add_places collect_places_vec
add_sink_places e set = add_places (collect_places_vec e) set

unfoldable pub add_sinks_in : Exprs → List Place → List Place
unfolding add_sink_places
add_sinks_in nil set = set
add_sinks_in (cons a more) set = add_sinks_in more (add_sink_places a set)

-- An output that has to be consumed: where it is, and the error if it is not.
pub record Obligation : Type 0 where
  pub place : Place
  pub display : Text
  pub behavior : Text
  pub line : ℕ

abbrev pub Edge : Type 0
Edge = Text × List Place

-- What the loop over the statements collects.
pub record Flows : Type 0 where
  pub live : List Place
  pub edges : List Edge
  pub obligations : List Obligation
  pub errors : List SemanticError

abbrev pub no_flows : Flows
no_flows = record { live = []; edges = []; obligations = []; errors = [] }

abbrev pub sinks : (List Place → List Place) → Flows → Flows
sinks f s = record s { live = f s.live }

abbrev pub unconsumed : Text → Text → ℕ → Option Text → SemanticError
unconsumed behavior display line context = record {
  kind = unconsumed_output behavior display;
  line = line;
  context = context;
}

abbrev pub bare_call : Text
bare_call = codes "bare CALL drops this output; bind it and consume it, or DISCARD it"

unfoldable pub dropped : Text → ℕ → List Parameter → List SemanticError
dropped behavior line [] = []
dropped behavior line (o ∷ os) =
    unconsumed behavior o.name line (some bare_call) ∷ dropped behavior line os

-- The outputs of the behavior, if its contract is known.
unfoldable pub outputs_of : Text → AnalysisContext → List Parameter
outputs_of behavior ctx = elim (lookup behavior ctx.dependency_contracts) [
  | some c ↦ c.outputs
  | none ↦ []
]

-- `CALL f -> o`: what goes to an output of the composition is consumed.
unfoldable pub bound : Text → ℕ → AnalysisContext → List Text → List Obligation
bound behavior line ctx [] = []
bound behavior line ctx (o ∷ os) =
    let rest = bound behavior line ctx os in
    elim (has_key o ctx.outputs) [
      | true ↦ rest
      | false ↦ record { place = (o, none); display = o; behavior = behavior; line = line } ∷ rest
    ]

-- `t = CALL f`: each output of `f` is a field of `t`.
unfoldable pub produced : Text → Text → ℕ → List Parameter → List Obligation
produced target behavior line [] = []
produced target behavior line (o ∷ os) =
    record {
      place = (target, some o.name);
      display = target ++ codes "." ++ o.name;
      behavior = behavior;
      line = line;
    }
    ∷ produced target behavior line os

unfoldable pub gather_call : Text → ℕ → AnalysisContext → List Text → Flows → Flows
unfolding dropped outputs_of bound
gather_call behavior line ctx [] s = record s {
  errors = s.errors ++ dropped behavior line (outputs_of behavior ctx);
}
gather_call behavior line ctx (o ∷ os) s = record s {
  obligations = s.obligations ++ bound behavior line ctx (o ∷ os);
}

unfoldable pub gather_assignment : Text → Expr → ℕ → AnalysisContext → Flows → Flows
unfolding add_sinks_in collect_places_vec produced outputs_of
gather_assignment target (Expr.call behavior args) line ctx s = record s {
  live = add_sinks_in args s.live;
  obligations = s.obligations ++ produced target behavior line (outputs_of behavior ctx);
}
gather_assignment target (Expr.spawn _ args) line ctx s = sinks (add_sinks_in args) s
gather_assignment target other line ctx s = record s {
  edges = s.edges ++ ((target, collect_places_vec other) ∷ []);
}

unfoldable pub add_sink_offset : Offset → List Place → List Place
unfolding add_sink_places
add_sink_offset no_offset set = set
add_sink_offset (at_offset e) set = add_sink_places e set

-- The body of the loop over the statements.
unfoldable pub gather_node : AnalysisContext → ℕ → NodeKind → Flows → Flows
unfolding gather_call gather_assignment add_sink_places add_sinks_in add_sink_offset
gather_node ctx line (NodeKind.call_node _ behavior args outputs) s =
    gather_call behavior line ctx outputs (sinks (add_sinks_in args) s)
gather_node ctx line (NodeKind.assignment target e) s = gather_assignment target e line ctx s
gather_node ctx line (NodeKind.branch e _ _) s = sinks (add_sink_places e) s
gather_node ctx line (NodeKind.set _ e) s = sinks (add_sink_places e) s
gather_node ctx line (NodeKind.discard e) s = sinks (add_sink_places e) s
gather_node ctx line (NodeKind.store _ e _ o) s =
    sinks (λ live. add_sink_offset o (add_sink_places e live)) s
gather_node ctx line (NodeKind.channel_send _ e) s = sinks (add_sink_places e) s
gather_node ctx line (NodeKind.spawn_node _ _ args) s = sinks (add_sinks_in args) s
gather_node ctx line _ s = s

unfoldable pub gather : AnalysisContext → Nodes → Flows → Flows
unfolding gather_node
gather ctx end s = s
gather ctx (next (node sp k) ns) s = gather ctx ns (gather_node ctx sp.line k s)

abbrev pub is_field : Option Text → Bool
is_field (some f) = true
is_field none = false

-- The target, or a field of it, is live.
unfoldable pub target_live : List Place → Text → Bool
target_live live target =
    contains live (target, none) || any (λ p. p.0 == target && is_field p.1) live

pub record Spread : Type 0 where
  pub live : List Place
  pub changed : Bool

unfoldable pub spread_one : Place → Spread → Spread
spread_one p s = elim (contains s.live p) [
  | true ↦ s
  | false ↦ record { live = p ∷ s.live; changed = true }
]

unfoldable pub spread_all : List Place → Spread → Spread
unfolding spread_one
spread_all [] s = s
spread_all (p ∷ ps) s = spread_all ps (spread_one p s)

unfoldable pub spread_edge : Edge → Spread → Spread
unfolding target_live spread_all
spread_edge (target, places) s = elim (target_live s.live target) [
  | true ↦ spread_all places s
  | false ↦ s
]

-- The `for` loop over the edges.
unfoldable pub spread : List Edge → Spread → Spread
unfolding spread_edge
spread [] s = s
spread (e ∷ es) s = spread es (spread_edge e s)

-- The `while changed` loop; `none` if the fuel runs out.
unfoldable pub propagate : ℕ → List Edge → List Place → Option (List Place)
unfolding spread
propagate zero edges live = none
propagate (suc fuel) edges live =
    let s = spread edges (record { live = live; changed = false }) in
    elim s.changed [ true ↦ propagate fuel edges s.live | false ↦ some s.live ]

unfoldable pub consumed : List Place → Place → Bool
consumed live (x, f) = contains live (x, f) || (is_field f && contains live (x, none))

unfoldable pub unmet : List Place → List Obligation → List SemanticError
unfolding consumed
unmet live [] = []
unmet live (o ∷ os) =
    let rest = unmet live os in
    elim (consumed live o.place) [
      | true ↦ rest
      | false ↦ unconsumed o.behavior o.display o.line none ∷ rest
    ]

unfoldable pub places_of : List Edge → List Place
places_of [] = []
places_of (e ∷ es) = e.1 ++ places_of es

-- Every round but the last makes a place live which an edge has.
unfoldable pub check_outputs_consumed : AnalysisContext → Nodes → Option (List SemanticError)
unfolding gather propagate unmet places_of
check_outputs_consumed ctx ns =
    let s = gather ctx ns no_flows in
    elim (propagate (1 + length (places_of s.edges)) s.edges s.live) [
      | some live ↦ some (s.errors ++ unmet live s.obligations)
      | none ↦ none
    ]
