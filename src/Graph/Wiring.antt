-- ===== src/Graph/Wiring.antt =====
-- The edges of a graph stay well formed.
use sigil_lang.Prelude.{
  ℕ, ◌+◌, ◌^◌, ◌<◌, ◌≡◌, refl, sym, ap, ◌≢◌, inl, inr, Bool, true, false, not, ◌&&◌, none, List, [],
  ◌∷◌, ◌++◌, arith, Text, ◌==◌, eq_iff, nat_eq, text_eq, any, keep, All, lookup, lookup-without,
  lookup-insert, ok, Bool-cases, ◌∙◌, >>=-eq-ok, guard-eq-ok, All-append, All-map, ||-false,
  keep-All, &&-true, ◌%◌,
}
use sigil_lang.Ast.{ty_eq}
use sigil_lang.Graph.{direction_eq, in_port, Port, Edge, BehaviorNode, ProjectGraph}
use sigil_lang.Graph.Ops.{
  resolve_port, port_has_source, push_edge, add_node, update_hash, add_edge, remove_edge,
  remove_node, next_edge_id,
}

-- An edge leads from an output or error port to an input port of the same type and size.
pub record IsTyped (g : ProjectGraph) (e : Edge) : Type 0 where
  pub source : Port
  pub target : Port
  pub at_source : resolve_port g e.from_node e.from_port ≡ ok source
  pub at_target : resolve_port g e.to_node e.to_port ≡ ok target
  pub leaves : source.direction ≢ in_port
  pub enters : target.direction ≡ in_port
  pub same_type : source.interpretation ≡ target.interpretation
  pub same_size : source.size ≡ target.size

-- The two edges end at different ports.
abbrev pub Apart : Edge → Edge → Type 0
Apart e f = ((e.to_node == f.to_node) && (e.to_port == f.to_port)) ≡ false

abbrev pub SingleSource : List Edge → Type 0
SingleSource [] = Unit
SingleSource (e ∷ es) = All (Apart e) es × SingleSource es

pub record IsWired (g : ProjectGraph) : Type 0 where
  pub typed : All (IsTyped g) g.edges
  pub single : SingleSource g.edges
  pub numbered : All (λ e. e.id < g.next_edge_id) g.edges

-- All that `add_edge` has checked when it succeeds.
pub record Accepted (g : ProjectGraph) (a : ℕ) (p : Text) (b : ℕ) (q : Text) (r : ℕ × ProjectGraph)
    : Type 0 where
  source : Port
  target : Port
  at_source : resolve_port g a p ≡ ok source
  at_target : resolve_port g b q ≡ ok target
  leaves : (source.direction == in_port) ≡ false
  enters : (target.direction == in_port) ≡ true
  same_type : (source.interpretation == target.interpretation) ≡ true
  same_size : (source.size == target.size) ≡ true
  unsourced : port_has_source g b q ≡ false
  pub pushed : push_edge g a p b q ≡ r

not-true : (b : Bool) → not b ≡ true → b ≡ false
not-true b h = ground arith

pub add_edge-Accepted :
    (g : ProjectGraph) (a : ℕ) (p : Text) (b : ℕ) (q : Text) (r : ℕ × ProjectGraph)
    → add_edge g a p b q ≡ ok r
    → Accepted g a p b q r
unfolding add_edge
add_edge-Accepted g a p b q r h =
    let (s, e₁, h₁) = >>=-eq-ok (resolve_port g a p) _ h in
    let (c₁, h₂) = guard-eq-ok _ _ _ h₁ in
    let (t, e₂, h₃) = >>=-eq-ok (resolve_port g b q) _ h₂ in
    let (c₂, h₄) = guard-eq-ok _ _ _ h₃ in
    let (c₃, h₅) = guard-eq-ok _ _ _ h₄ in
    let (c₄, h₆) = guard-eq-ok _ _ _ h₅ in
    let (c₅, h₇) = guard-eq-ok _ _ _ h₆ in
    record {
      source = s;
      target = t;
      at_source = e₁;
      at_target = e₂;
      leaves = not-true _ c₁;
      enters = c₂;
      same_type = c₃;
      same_size = c₄;
      unsourced = not-true _ c₅;
      pushed = cc h₇;
    }

pub IsTyped-carry :
    {g h : ProjectGraph} {e : Edge}
    → resolve_port h e.from_node e.from_port ≡ resolve_port g e.from_node e.from_port
    → resolve_port h e.to_node e.to_port ≡ resolve_port g e.to_node e.to_port
    → IsTyped g e
    → IsTyped h e
IsTyped-carry s t w = record {
  source = w.source;
  target = w.target;
  at_source = s ∙ w.at_source;
  at_target = t ∙ w.at_target;
  leaves = w.leaves;
  enters = w.enters;
  same_type = w.same_type;
  same_size = w.same_size;
}

-- No edge of `es` ends at the port.
Apart-new :
    (b : ℕ) (q : Text) (f : Edge) (es : List Edge)
    → f.to_node ≡ b
    → f.to_port ≡ q
    → any (λ e. e.to_node == b && e.to_port == q) es ≡ false
    → SingleSource es
    → SingleSource (es ++ (f ∷ []))
Apart-new b q f [] fb fq h s = (tt, tt)
Apart-new b q f (e ∷ es) fb fq h s =
    let (here, rest) = ||-false _ _ h in
    (All-append (Apart e) es (f ∷ []) s.0 (rw (fb, fq) here, tt), Apart-new b q f es fb fq rest s.1)

SingleSource-keep : (p : Edge → Bool) (es : List Edge) → SingleSource es → SingleSource (keep p es)
SingleSource-keep p [] s = tt
SingleSource-keep p (e ∷ es) s =
    elim (p e) as (λ b. SingleSource (elim b [ true ↦ e ∷ keep p es | false ↦ keep p es ])) [
      | true ↦ (keep-All p (λ f h _. h) es s.0, SingleSource-keep p es s.1)
      | false ↦ SingleSource-keep p es s.1
    ]

pub resolve_port-edges :
    (g : ProjectGraph) (es : List Edge) (n i : ℕ) (t : Text)
    → resolve_port (record g { edges = es; next_edge_id = n }) i t ≡ resolve_port g i t
unfolding resolve_port
resolve_port-edges g es n i t = refl

IsTyped-edges :
    (g : ProjectGraph) (es : List Edge) (n : ℕ) (e : Edge)
    → IsTyped g e
    → IsTyped (record g { edges = es; next_edge_id = n }) e
IsTyped-edges g es n e =
    IsTyped-carry (resolve_port-edges g es n e.from_node e.from_port)
      (resolve_port-edges g es n e.to_node e.to_port)

-- If `add_edge` succeeds on a well-wired graph whose edge counter is not at its end, then the graph
-- that it returns is well wired: each edge leads from an output or error port to an input port of
-- the same type and size, no input port has two sources, and the ids stay below the counter.
pub add_edge-IsWired :
    (g : ProjectGraph) (a : ℕ) (p : Text) (b : ℕ) (q : Text) (r : ℕ × ProjectGraph)
    → IsWired g
    → g.next_edge_id + 1 < 2 ^ 64
    → add_edge g a p b q ≡ ok r
    → IsWired r.1
unfolding push_edge port_has_source
add_edge-IsWired g a p b q r w small h =
    let k = add_edge-Accepted g a p b q r h in
    let wrap : (g.next_edge_id + 1) % 2 ^ 64 ≡ g.next_edge_id + 1 = omega arith in
    rw (← k.pushed) (record {
      typed = All-append _ g.edges _ (All-map (IsTyped-edges g _ _) g.edges w.typed) (
        IsTyped-edges g _ _ _ (record {
          source = k.source;
          target = k.target;
          at_source = k.at_source;
          at_target = k.at_target;
          leaves = ground (arith, k.leaves, eq_iff k.source.direction in_port);
          enters = (eq_iff _ _).0 k.enters;
          same_type = (eq_iff _ _).0 k.same_type;
          same_size = (eq_iff _ _).0 k.same_size;
        }),
        tt,
      );
      single = Apart-new b q _ g.edges refl refl k.unsourced w.single;
      numbered =
          All-append _ g.edges _ (All-map (λ e l. omega arith) g.edges w.numbered)
            (omega arith, tt);
    })

pub add_edge-counter :
    (g : ProjectGraph) (a : ℕ) (p : Text) (b : ℕ) (q : Text) (r : ℕ × ProjectGraph)
    → g.next_edge_id + 1 < 2 ^ 64
    → add_edge g a p b q ≡ ok r
    → r.1.next_edge_id ≡ g.next_edge_id + 1
unfolding push_edge next_edge_id
add_edge-counter g a p b q r small h =
    let wrap : (g.next_edge_id + 1) % 2 ^ 64 ≡ g.next_edge_id + 1 = omega arith in
    ap (λ x. x.1.next_edge_id) (sym (add_edge-Accepted g a p b q r h).pushed) ∙ wrap

-- Removing an edge keeps the graph well wired.
pub remove_edge-IsWired : (g : ProjectGraph) (id : ℕ) → IsWired g → IsWired (remove_edge g id).0
unfolding remove_edge
remove_edge-IsWired g id w = record {
  typed = keep-All _ (λ e t _. IsTyped-edges g _ _ e t) g.edges w.typed;
  single = SingleSource-keep _ g.edges w.single;
  numbered = keep-All _ (λ e l _. l) g.edges w.numbered;
}

resolve_port-remove :
    (g : ProjectGraph) (id i : ℕ) (t : Text)
    → (i == id) ≡ false
    → resolve_port (remove_node g id).1 i t ≡ resolve_port g i t
unfolding resolve_port remove_node
resolve_port-remove g id i t h = ground (arith, lookup-without id i g.nodes, eq_iff i id)

-- Removing a node removes its edges, and keeps the graph well wired.
pub remove_node-IsWired : (g : ProjectGraph) (id : ℕ) → IsWired g → IsWired (remove_node g id).1
unfolding remove_node
remove_node-IsWired g id w = record {
  typed =
      keep-All _
        (λ e t h.
          IsTyped-carry
            (resolve_port-remove g id e.from_node e.from_port (not-true _ (&&-true _ _ h).0))
            (resolve_port-remove g id e.to_node e.to_port (not-true _ (&&-true _ _ h).1)) t)
        g.edges w.typed;
  single = SingleSource-keep _ g.edges w.single;
  numbered = keep-All _ (λ e l _. l) g.edges w.numbered;
}

module _ (sha256 : List ℕ → List ℕ) (hex_encode : List ℕ → Text) where
  resolve_port-add :
      (g : ProjectGraph) (n : BehaviorNode) (i : ℕ) (t : Text) (p : Port)
      → lookup n.id g.nodes ≡ none
      → resolve_port g i t ≡ ok p
      → resolve_port (add_node sha256 hex_encode g n).1 i t ≡ resolve_port g i t
  unfolding resolve_port add_node
  resolve_port-add g n i t p new h = elim (Bool-cases (n.id == i)) [
    | inl e ↦ absurd (absent (cc ((eq_iff n.id i).0 e)))
    | inr e ↦
        rw (lookup-insert n.id i (update_hash sha256 hex_encode n).0 g.nodes, resolve_port) (rw e)
  ]
    where
      absent : lookup i g.nodes ≡ none → ⊥
      absent e = cc (rw (e, resolve_port) at h)

  -- A node with an unused id keeps the graph well wired.
  pub add_node-IsWired :
      (g : ProjectGraph) (n : BehaviorNode)
      → lookup n.id g.nodes ≡ none
      → IsWired g
      → IsWired (add_node sha256 hex_encode g n).1
  unfolding add_node
  add_node-IsWired g n new w = record {
    typed =
        All-map
          (λ e t.
            IsTyped-carry (resolve_port-add g n e.from_node e.from_port t.source new t.at_source)
              (resolve_port-add g n e.to_node e.to_port t.target new t.at_target) t)
          g.edges w.typed;
    single = w.single;
    numbered = w.numbered;
  }
