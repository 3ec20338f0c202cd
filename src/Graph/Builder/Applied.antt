-- ===== src/Graph/Builder/Applied.antt =====
-- compiler/src/graph/builder.rs, `derive_edges_from_composites`: what the requests do to the edges.
use mathlib.Core.Bool.{false≢true}
use mathlib.Core.Path.{subst}
use mathlib.Core.List.{Memᴰ}
use mathlib.Core.List.Memᴰ
use sigil_lang.Prelude.{
  ℕ, ◌≡◌, refl, sym, ap, ◌∙◌, ◌⊎◌, inl, inr, true, false, ◌&&◌, List, [], ◌∷◌, ◌++◌, Text, nat_eq,
  text_eq, any, Result, ok, err, eq_iff, ◌==◌, Bool-cases, &&-true,
}
use sigil_lang.Ast.{ty_eq}
use sigil_lang.Graph.{direction_eq, in_port, Port, Edge, ProjectGraph}
use sigil_lang.Graph.Ops.{add_edge, resolve_port, port_has_source, push_edge, next_edge_id}
use sigil_lang.Graph.Wiring.{add_edge-Accepted, resolve_port-edges}
use sigil_lang.Graph.Builder.{Request, apply_edges}

-- The edges after the requests are those before, and some that were asked for.
abbrev pub request_of : Edge → Request
request_of e = (e.from_node, e.from_port, e.to_node, e.to_port)

pushed-edges :
    (g : ProjectGraph) (a : ℕ) (p : Text) (b : ℕ) (q : Text) (r : ℕ × ProjectGraph)
    → add_edge g a p b q ≡ ok r
    → (e : Edge) × (r.1.edges ≡ g.edges ++ (e ∷ [])) × (request_of e ≡ (a, p, b, q))
unfolding push_edge next_edge_id
pushed-edges g a p b q r h = (
  _,
  ap (λ (x : ℕ × ProjectGraph). x.1.edges) (sym (add_edge-Accepted g a p b q r h).pushed),
  refl,
)

Result-cases : {E A : Type 0} (r : Result E A) → ((a : A) × (r ≡ ok a)) ⊎ ((e : E) × (r ≡ err e))
Result-cases (ok a) = inl (a, refl)
Result-cases (err e) = inr (e, refl)

pub apply_edges-asked :
    (all rs : List Request) (old : List Edge) (g : ProjectGraph)
    → ((r : Request) → Memᴰ r rs → Memᴰ r all)
    → ((e : Edge) → Memᴰ e g.edges → Memᴰ e old ⊎ Memᴰ (request_of e) all)
    → (e : Edge) → Memᴰ e (apply_edges rs g).edges
    → Memᴰ e old ⊎ Memᴰ (request_of e) all
unfolding apply_edges
apply_edges-asked all [] old g within h = λ e m. h e m
apply_edges-asked all ((a, p, b, q) ∷ rs) old g within h =
    elim (Result-cases (add_edge g a p b q)) [
      | inl ((i, g'), done) ↦
          rw (done, apply_edges)
            (apply_edges-asked all rs old g' (λ r m. within r (Memᴰ.tail m))
              (new g' (pushed-edges g a p b q (i, g') done)))
      | inr (x, refused) ↦
          rw (refused, apply_edges)
            (apply_edges-asked all rs old g (λ r m. within r (Memᴰ.tail m)) h)
    ]
  where
    new :
        (g' : ProjectGraph)
        → (e : Edge) × (g'.edges ≡ g.edges ++ (e ∷ [])) × (request_of e ≡ (a, p, b, q))
        → (f : Edge) → Memᴰ f g'.edges
        → Memᴰ f old ⊎ Memᴰ (request_of f) all
    new g' (e, pushed, same) f m =
        elim (Memᴰ.append_cases g.edges (subst (λ es. Memᴰ f es) pushed m)) [
          | inl before ↦ h f before
          | inr last ↦
              let is_e : f ≡ e = Memᴰ.eq_of_singleton last in
              inr (Memᴰ.cast (ap request_of is_e ∙ same) (within (a, p, b, q) (Memᴰ.head refl)))
        ]

pub apply_edges-kept :
    (rs : List Request) (g : ProjectGraph) (e : Edge)
    → Memᴰ e g.edges
    → Memᴰ e (apply_edges rs g).edges
unfolding apply_edges
apply_edges-kept [] g e m = m
apply_edges-kept ((a, p, b, q) ∷ rs) g e m = elim (Result-cases (add_edge g a p b q)) [
  | inl ((i, g'), done) ↦
      let (f, pushed, same) = pushed-edges g a p b q (i, g') done in
      rw (done, apply_edges)
        (apply_edges-kept rs g' e (subst (λ es. Memᴰ e es) (sym pushed) (Memᴰ.append_left _ m)))
  | inr (x, refused) ↦ rw (refused, apply_edges) (apply_edges-kept rs g e m)
]

-- The two ports can be joined: the first is no input, the second is, and they have the same type and
-- size.
pub record CanJoin (g : ProjectGraph) (a : ℕ) (p : Text) (b : ℕ) (q : Text) : Type 0 where
  pub source : Port
  pub target : Port
  pub at_source : resolve_port g a p ≡ ok source
  pub at_target : resolve_port g b q ≡ ok target
  pub leaves : (source.direction == in_port) ≡ false
  pub enters : target.direction ≡ in_port
  pub same_type : source.interpretation ≡ target.interpretation
  pub same_size : source.size ≡ target.size

-- An edge ends at the port.
abbrev pub HasSource : ProjectGraph → ℕ → Text → Type 0
HasSource g b q = (e : Edge) × Memᴰ e g.edges × (e.to_node ≡ b) × (e.to_port ≡ q)

any-HasSource :
    (es : List Edge) (b : ℕ) (q : Text)
    → any (λ e. e.to_node == b && e.to_port == q) es ≡ true
    → (e : Edge) × Memᴰ e es × (e.to_node ≡ b) × (e.to_port ≡ q)
any-HasSource [] b q h = absurd (false≢true h)
any-HasSource (e ∷ es) b q h = elim (Bool-cases (e.to_node == b && e.to_port == q)) [
  | inl here ↦
      let (x, y) = &&-true (e.to_node == b) (e.to_port == q) here in
      (e, Memᴰ.head refl, (eq_iff e.to_node b).0 x, (eq_iff e.to_port q).0 y)
  | inr other ↦ let (f, m, x, y) = any-HasSource es b q (rw other at h) in (f, Memᴰ.tail m, x, y)
]

add_edge-CanJoin :
    (g : ProjectGraph) (a : ℕ) (p : Text) (b : ℕ) (q : Text)
    → CanJoin g a p b q
    → port_has_source g b q ≡ false
    → add_edge g a p b q ≡ ok (push_edge g a p b q)
unfolding add_edge
add_edge-CanJoin g a p b q c free =
    let enters = (eq_iff _ _).1 c.enters in
    let same_type = (eq_iff _ _).1 c.same_type in
    let same_size = (eq_iff _ _).1 c.same_size in
    simp (c.at_source, c.at_target, c.leaves, enters, same_type, same_size, free)

pub apply_edges-HasSource :
    (rs : List Request) (g : ProjectGraph) (a : ℕ) (p : Text) (b : ℕ) (q : Text)
    → Memᴰ (a, p, b, q) rs
    → CanJoin g a p b q
    → HasSource (apply_edges rs g) b q
unfolding apply_edges
apply_edges-HasSource [] g a p b q m c = elim m [ ]
apply_edges-HasSource ((x, y, z, w) ∷ rs) g a p b q (Memᴰ.head same) c =
    subst (λ (r : Request). HasSource (apply_edges (r ∷ rs) g) b q) same first
  where
    first : HasSource (apply_edges ((a, p, b, q) ∷ rs) g) b q
    first = elim (Bool-cases (port_has_source g b q)) [
      | inl taken ↦
          let (e, m, i, j) = any-HasSource g.edges b q (unfold port_has_source in taken) in
          (e, apply_edges-kept ((a, p, b, q) ∷ rs) g e m, i, j)
      | inr free ↦
          let done = add_edge-CanJoin g a p b q c free in
          let (e, pushed, same) = pushed-edges g a p b q (push_edge g a p b q) done in
          let there : Memᴰ e (push_edge g a p b q).1.edges =
            subst (λ es. Memᴰ e es) (sym pushed) (Memᴰ.append_right g.edges (Memᴰ.head refl)) in
          (
            e,
            rw (done, apply_edges) (apply_edges-kept rs (push_edge g a p b q).1 e there),
            ap (λ (r : Request). r.2) same,
            ap (λ (r : Request). r.3) same,
          )
    ]
apply_edges-HasSource ((x, y, z, w) ∷ rs) g a p b q (Memᴰ.tail m) c =
    elim (Result-cases (add_edge g x y z w)) [
      | inl ((i, g'), done) ↦
          rw (done, apply_edges)
            (apply_edges-HasSource rs g' a p b q m (
              subst (λ (r : ℕ × ProjectGraph). CanJoin r.1 a p b q)
                (add_edge-Accepted g x y z w (i, g') done).pushed (carry c)))
      | inr (e, refused) ↦ rw (refused, apply_edges) (apply_edges-HasSource rs g a p b q m c)
    ]
  where
    carry : CanJoin g a p b q → CanJoin (push_edge g x y z w).1 a p b q
    carry c = record {
      source = c.source;
      target = c.target;
      at_source = unfold push_edge next_edge_id in resolve_port-edges g _ _ a p ∙ c.at_source;
      at_target = unfold push_edge next_edge_id in resolve_port-edges g _ _ b q ∙ c.at_target;
      leaves = c.leaves;
      enters = c.enters;
      same_type = c.same_type;
      same_size = c.same_size;
    }
