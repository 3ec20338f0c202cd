-- ===== src/Graph/Builder/Requests.antt =====
-- compiler/src/graph/builder.rs, `derive_edges_from_composites`: which edges are asked for.
use mathlib.Core.Bool.{false≢true}
use mathlib.Core.Path.{subst}
use mathlib.Core.List.{Memᴰ}
use mathlib.Core.List.Memᴰ
use sigil_lang.Prelude.{
  ℕ, ◌≡◌, refl, ap, ◌∙◌, ◌⊎◌, inl, inr, true, false, Option, none, some, List, [], ◌∷◌, Text,
  nat_eq, text_eq, lookup, Option-cases,
}
use sigil_lang.Ast.{ty_eq, NodeKind, Nodes, end, next, kind_of, call_node}
use sigil_lang.Graph.{
  direction_eq, Port, BehaviorKind, leaf_kind, composite_kind, native_kind, Implementation, leaf,
  composite, BehaviorNode, ProjectGraph,
}
use sigil_lang.Graph.Ops.{find_node_id, port}
use sigil_lang.Graph.Builder.{
  Request, callee_inputs, matching, requests_of, requests_of_all, requests_of_node, edges_to_add,
}

abbrev pub Never : Type 0
Never = false ≡ true

-- A statement of the list calls this behavior of the graph.
abbrev pub IsCallTo : ProjectGraph → ℕ → NodeKind → Type 0
IsCallTo g callee (call_node _ name _ _) = find_node_id g name ≡ some callee
IsCallTo g callee _ = Never

abbrev pub CallsIn : ProjectGraph → ℕ → Nodes → Type 0
CallsIn g callee end = Never
CallsIn g callee (next n ns) = IsCallTo g callee (kind_of n) ⊎ CallsIn g callee ns

-- The composition of this node calls the behavior.
abbrev pub BodyCalls : ProjectGraph → ℕ → BehaviorNode → Type 0
BodyCalls g callee n =
    (n.kind ≡ composite_kind)
    × ((ns : Nodes) × (n.implementation ≡ some (composite ns)) × CallsIn g callee ns)

-- The callee has an input of this name, and the caller a port of it.
abbrev pub HasInput : ProjectGraph → ℕ → Text → Type 0
HasInput g callee name = (p : Port) × Memᴰ p (callee_inputs g callee) × (p.name ≡ name)

abbrev pub HasPort : ProjectGraph → ℕ → Text → Type 0
HasPort g caller name =
    (n : BehaviorNode) × (lookup caller g.nodes ≡ some n)
    × ((p : Port) × (port n.ports name ≡ some p))

-- A composite node of the graph calls a behavior that has an input of the name of one of its ports.
abbrev pub Asks : ProjectGraph → ℕ → Text → ℕ → Type 0
Asks g caller name callee =
    (n : BehaviorNode) × Memᴰ (caller, n) g.nodes
    × BodyCalls g callee n
    × HasInput g callee name
    × HasPort g caller name

record Wants (g : ProjectGraph) (caller callee : ℕ) (r : Request) : Type 0 where
  name : Text
  same : r ≡ (caller, name, callee, name)
  input : HasInput g callee name
  source : HasPort g caller name

matching-Wants :
    (g : ProjectGraph) (caller callee : ℕ) (ps : List Port) (r : Request)
    → ((p : Port) → Memᴰ p ps → Memᴰ p (callee_inputs g callee))
    → Memᴰ r (matching g caller callee ps)
    → Wants g caller callee r
unfolding matching
matching-Wants g caller callee [] r within m = elim m [ ]
matching-Wants g caller callee (p ∷ ps) r within m =
    let rest = matching-Wants g caller callee ps r (λ q k. within q (Memᴰ.tail k)) in
    elim (Option-cases (lookup caller g.nodes)) [
      | inl missing ↦ rest (rw (missing, matching) at m)
      | inr (n, found) ↦ elim (Option-cases (port n.ports p.name)) [
        | inl no_port ↦ rest (rw (found, no_port, matching) at m)
        | inr (q, has_port) ↦ first n q found has_port rest (rw (found, has_port, matching) at m)
      ]
    ]
  where
    first :
        (n : BehaviorNode) (q : Port)
        → lookup caller g.nodes ≡ some n
        → port n.ports p.name ≡ some q
        → (Memᴰ r (matching g caller callee ps) → Wants g caller callee r)
        → Memᴰ r ((caller, p.name, callee, p.name) ∷ matching g caller callee ps)
        → Wants g caller callee r
    first n q found has_port rest (Memᴰ.head e) = record {
      name = p.name;
      same = e;
      input = (p, within p (Memᴰ.head refl), refl);
      source = (n, found, (q, has_port));
    }
    first n q found has_port rest (Memᴰ.tail k) = rest k

Wants-matching :
    (g : ProjectGraph) (caller callee : ℕ) (ps : List Port) (p : Port) (n : BehaviorNode) (q : Port)
    → Memᴰ p ps
    → lookup caller g.nodes ≡ some n
    → port n.ports p.name ≡ some q
    → Memᴰ (caller, p.name, callee, p.name) (matching g caller callee ps)
unfolding matching
Wants-matching g caller callee [] p n q m found has_port = elim m [ ]
Wants-matching g caller callee (x ∷ xs) p n q (Memᴰ.head e) found has_port =
    let here : port n.ports x.name ≡ some q =
      subst (λ (y : Port). port n.ports y.name ≡ some q) e has_port in
    rw (found, here, matching) (Memᴰ.head (ap (λ (y : Port). (caller, y.name, callee, y.name)) e))
Wants-matching g caller callee (x ∷ xs) p n q (Memᴰ.tail m) found has_port =
    let rest = Wants-matching g caller callee xs p n q m found has_port in
    elim (Option-cases (port n.ports x.name)) [
      | inl no_port ↦ rw (found, no_port, matching) rest
      | inr (y, here) ↦ rw (found, here, matching) (Memᴰ.tail rest)
    ]

-- The requests of a statement list.
requests_of-Wants :
    (g : ProjectGraph) (caller : ℕ) (k : NodeKind) (r : Request)
    → Memᴰ r (requests_of g caller k)
    → (callee : ℕ) × IsCallTo g callee k × Wants g caller callee r
unfolding requests_of
requests_of-Wants g caller (call_node t name args outputs) r m =
    elim (Option-cases (find_node_id g name)) [
      | inl unknown ↦ none_asked (rw (unknown, requests_of) at m)
      | inr (callee, found) ↦ (
        callee,
        found,
        matching-Wants g caller callee (callee_inputs g callee) r (λ p k. k)
            (rw (found, requests_of) at m),
      )
    ]
  where
    none_asked :
        Memᴰ r [] → (callee : ℕ) × (find_node_id g name ≡ some callee) × Wants g caller callee r
    none_asked k = elim k [ ]
requests_of-Wants g caller k r m = elim m [ ]

requests_of_all-Wants :
    (g : ProjectGraph) (caller : ℕ) (ns : Nodes) (r : Request)
    → Memᴰ r (requests_of_all g caller ns)
    → (callee : ℕ) × CallsIn g callee ns × Wants g caller callee r
unfolding requests_of_all
requests_of_all-Wants g caller end r m = elim m [ ]
requests_of_all-Wants g caller (next n ns) r m =
    elim (Memᴰ.append_cases (requests_of g caller (kind_of n)) m) [
      | inl here ↦
          let (callee, calls, wants) = requests_of-Wants g caller (kind_of n) r here in
          (callee, inl calls, wants)
      | inr later ↦
          let (callee, calls, wants) = requests_of_all-Wants g caller ns r later in
          (callee, inr calls, wants)
    ]

requests_of_node-Wants :
    (g : ProjectGraph) (caller : ℕ) (n : BehaviorNode) (r : Request)
    → Memᴰ r (requests_of_node g caller n)
    → (callee : ℕ) × BodyCalls g callee n × Wants g caller callee r
unfolding requests_of_node
requests_of_node-Wants g caller n r m = go n.kind n.implementation refl refl m
  where
    go :
        (k : BehaviorKind) (i : Option Implementation)
        → n.kind ≡ k
        → n.implementation ≡ i
        → Memᴰ r (requests_of_node g caller (record n { kind = k; implementation = i }))
        → (callee : ℕ) × BodyCalls g callee n × Wants g caller callee r
    go composite_kind (some (composite ns)) e f x =
        let (callee, calls, wants) = requests_of_all-Wants g caller ns r x in
        (callee, (e, (ns, f, calls)), wants)
    go composite_kind (some (leaf ns)) e f x = elim x [ ]
    go composite_kind none e f x = elim x [ ]
    go leaf_kind i e f x = elim x [ ]
    go native_kind i e f x = elim x [ ]

pub edges_to_add-Asks :
    (g : ProjectGraph) (ns : List (ℕ × BehaviorNode)) (r : Request)
    → ((i : ℕ) (n : BehaviorNode) → Memᴰ (i, n) ns → Memᴰ (i, n) g.nodes)
    → Memᴰ r (edges_to_add g ns)
    → (caller : ℕ) × (name : Text) × (callee : ℕ) × (r ≡ (caller, name, callee, name))
      × Asks g caller name callee
unfolding edges_to_add
edges_to_add-Asks g [] r within m = elim m [ ]
edges_to_add-Asks g ((i, n) ∷ ns) r within m = elim (Memᴰ.append_cases (requests_of_node g i n) m) [
  | inl here ↦
      let (callee, calls, wants) = requests_of_node-Wants g i n r here in
      (
        i,
        wants.name,
        callee,
        wants.same,
        (n, within i n (Memᴰ.head refl), calls, wants.input, wants.source),
      )
  | inr later ↦ edges_to_add-Asks g ns r (λ j k x. within j k (Memᴰ.tail x)) later
]

-- What is asked for is among the requests.
CallsIn-requests :
    (g : ProjectGraph) (caller callee : ℕ) (ns : Nodes) (r : Request)
    → CallsIn g callee ns
    → Memᴰ r (matching g caller callee (callee_inputs g callee))
    → Memᴰ r (requests_of_all g caller ns)
unfolding requests_of_all
CallsIn-requests g caller callee end r c m = absurd (false≢true c)
CallsIn-requests g caller callee (next n ns) r (inl c) m = Memᴰ.append_left _ (one (kind_of n) c)
  where
    one : (k : NodeKind) → IsCallTo g callee k → Memᴰ r (requests_of g caller k)
    one (call_node t name args outputs) found = unfold requests_of in rw (found, requests_of) m
    one k never = absurd (false≢true never)
CallsIn-requests g caller callee (next n ns) r (inr c) m =
    Memᴰ.append_right (requests_of g caller (kind_of n)) (CallsIn-requests g caller callee ns r c m)

requests_of_node-body :
    (g : ProjectGraph) (caller : ℕ) (n : BehaviorNode) (ns : Nodes) (r : Request)
    → n.kind ≡ composite_kind
    → n.implementation ≡ some (composite ns)
    → Memᴰ r (requests_of_all g caller ns)
    → Memᴰ r (requests_of_node g caller n)
unfolding requests_of_node
requests_of_node-body g caller n ns r e f m = rw (e, f, requests_of_node) m

edges_to_add-node :
    (g : ProjectGraph) (ns : List (ℕ × BehaviorNode)) (i : ℕ) (n : BehaviorNode) (r : Request)
    → Memᴰ (i, n) ns
    → Memᴰ r (requests_of_node g i n)
    → Memᴰ r (edges_to_add g ns)
unfolding edges_to_add
edges_to_add-node g [] i n r m k = elim m [ ]
edges_to_add-node g ((j, x) ∷ ns) i n r (Memᴰ.head e) k =
    Memᴰ.append_left _ (subst (λ (y : ℕ × BehaviorNode). Memᴰ r (requests_of_node g y.0 y.1)) e k)
edges_to_add-node g ((j, x) ∷ ns) i n r (Memᴰ.tail m) k =
    Memᴰ.append_right (requests_of_node g j x) (edges_to_add-node g ns i n r m k)

pub Asks-edges_to_add :
    (g : ProjectGraph) (caller : ℕ) (name : Text) (callee : ℕ)
    → Asks g caller name callee
    → Memᴰ (caller, name, callee, name) (edges_to_add g g.nodes)
Asks-edges_to_add g caller name callee
      (n, is_node, (kind, (ns, body, calls)), (p, is_input, named), (x, found, (q, has_port))) =
    let same : port x.ports p.name ≡ some q = ap (port x.ports) named ∙ has_port in
    let asked = Wants-matching g caller callee (callee_inputs g callee) p x q is_input found same in
    let request =
      subst (λ t. Memᴰ (caller, t, callee, t) (matching g caller callee (callee_inputs g callee)))
        named asked in
    edges_to_add-node g g.nodes caller n _ is_node (
      requests_of_node-body g caller n ns _ kind body
        (CallsIn-requests g caller callee ns _ calls request))
