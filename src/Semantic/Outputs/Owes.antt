-- ===== src/Semantic/Outputs/Owes.antt =====
-- What has to be used, and what is dropped, as the loop over the statements collects it.
use mathlib.Core.Bool.{false≢true}
use mathlib.Core.Path.{subst}
use mathlib.Core.Option.{some-injective}
use mathlib.Core.List.{Memᴰ}
use sigil_lang.Prelude.{
  ℕ, ◌≡◌, refl, sym, ◌⊎◌, ◌↔◌, inl, inr, false, none, some, List, [], ◌∷◌, ◌++◌, Text, text_eq,
  lookup, All, Bool-cases, Option-cases, append-nil_iff,
}
use sigil_lang.Ast.{Expr, node, NodeKind, Nodes, end, next, Parameter, Contract}
use sigil_lang.Semantic.Context.{AnalysisContext, has_key}
use sigil_lang.Semantic.Outputs.{
  Place, Obligation, Flows, dropped, outputs_of, bound, produced, gather_call, gather_assignment,
  gather_node, gather,
}
use sigil_lang.Semantic.Outputs.Uses.{Never, Somewhere, Everywhere, Produces, DropsNothing}
use sigil_lang.Semantic.Outputs.Collects.{alone, collects}

-- The place is among the obligations.
abbrev pub IsOwed : List Obligation → Place → Type 0
IsOwed [] p = Never
IsOwed (o ∷ os) p = (o.place ≡ p) ⊎ IsOwed os p

pub All-IsOwed :
    (Q : Place → Type 0) (os : List Obligation)
    → All (λ o. Q o.place) os ↔ ((p : Place) → IsOwed os p → Q p)
All-IsOwed Q [] = (λ _ p h. absurd (false≢true h), λ _. tt)
All-IsOwed Q (o ∷ os) =
    let rest = All-IsOwed Q os in
    (
      λ h p. elim [ inl e ↦ subst Q e h.0 | inr m ↦ rest.0 h.1 p m ],
      λ h. (h o.place (inl refl), rest.1 (λ p m. h p (inr m))),
    )

IsOwed-append :
    (os rs : List Obligation) (p : Place) → IsOwed (os ++ rs) p ↔ (IsOwed os p ⊎ IsOwed rs p)
IsOwed-append [] rs p = (λ h. inr h, elim [ inl e ↦ absurd (false≢true e) | inr h ↦ h ])
IsOwed-append (o ∷ os) rs p =
    let rest = IsOwed-append os rs p in
    (
      elim [
        | inl e ↦ inl (inl e)
        | inr m ↦ elim (rest.0 m) [ inl x ↦ inl (inr x) | inr y ↦ inr y ]
      ],
      elim [
        | inl (inl e) ↦ inl e
        | inl (inr x) ↦ inr (rest.1 (inl x))
        | inr y ↦ inr (rest.1 (inr y))
      ],
    )

appended :
    {B : Type 0} (os rs : List Obligation) (p : Place)
    → IsOwed rs p ↔ B
    → IsOwed (os ++ rs) p ↔ (IsOwed os p ⊎ B)
appended os rs p h =
    let split = IsOwed-append os rs p in
    (
      λ m. elim (split.0 m) [ inl x ↦ inl x | inr y ↦ inr (h.0 y) ],
      elim [ inl x ↦ split.1 (inl x) | inr y ↦ split.1 (inr (h.1 y)) ],
    )

-- The names of a call that are no outputs of the composition.
abbrev IsNamed : AnalysisContext → List Text → Place → Type 0
IsNamed ctx names p = (o : Text) × Memᴰ o names × (has_key o ctx.outputs ≡ false) × ((o, none) ≡ p)

bound-IsOwed :
    (behavior : Text) (line : ℕ) (ctx : AnalysisContext) (names : List Text) (p : Place)
    → IsOwed (bound behavior line ctx names) p
    → IsNamed ctx names p
unfolding bound
bound-IsOwed behavior line ctx [] p h = absurd (false≢true h)
bound-IsOwed behavior line ctx (o ∷ os) p h = elim (Bool-cases (has_key o ctx.outputs)) [
  | inl routed ↦ later (bound-IsOwed behavior line ctx os p (rw (routed, bound) at h))
  | inr free ↦ first (bound-IsOwed behavior line ctx os p) free (rw (free, bound) at h)
]
  where
    later : IsNamed ctx os p → IsNamed ctx (o ∷ os) p
    later (x, m, f, e) = (x, Memᴰ.tail m, f, e)

    first :
        (IsOwed (bound behavior line ctx os) p → IsNamed ctx os p)
        → has_key o ctx.outputs ≡ false
        → (((o, none) ≡ p) ⊎ IsOwed (bound behavior line ctx os) p)
        → IsNamed ctx (o ∷ os) p
    first rest f (inl e) = (o, Memᴰ.head refl, f, e)
    first rest f (inr m) = later (rest m)

IsOwed-bound :
    (behavior : Text) (line : ℕ) (ctx : AnalysisContext) (names : List Text) (p : Place) (o : Text)
    → Memᴰ o names
    → has_key o ctx.outputs ≡ false
    → (o, none) ≡ p
    → IsOwed (bound behavior line ctx names) p
unfolding bound
IsOwed-bound behavior line ctx [] p o m f e = elim m [ ]
IsOwed-bound behavior line ctx (x ∷ xs) p o (Memᴰ.head same) f e =
    let free : has_key x ctx.outputs ≡ false = subst (λ y. has_key y ctx.outputs ≡ false) same f in
    rw (free, bound) (inl (subst (λ y. (y, none) ≡ p) same e))
IsOwed-bound behavior line ctx (x ∷ xs) p o (Memᴰ.tail m) f e =
    let rest = IsOwed-bound behavior line ctx xs p o m f e in
    elim (Bool-cases (has_key x ctx.outputs)) [
      | inl routed ↦ rw (routed, bound) rest
      | inr free ↦ rw (free, bound) (inr rest)
    ]

abbrev IsFieldOf : Text → List Parameter → Place → Type 0
IsFieldOf t os p = (o : Parameter) × Memᴰ o os × ((t, some o.name) ≡ p)

produced-IsOwed :
    (t behavior : Text) (line : ℕ) (os : List Parameter) (p : Place)
    → IsOwed (produced t behavior line os) p ↔ IsFieldOf t os p
unfolding produced
produced-IsOwed t behavior line [] p = (λ h. absurd (false≢true h), λ (o, m, e). elim m [ ])
produced-IsOwed t behavior line (x ∷ xs) p = (
  elim [
    | inl e ↦ (x, Memᴰ.head refl, e)
    | inr m ↦ later ((produced-IsOwed t behavior line xs p).0 m)
  ],
  found (produced-IsOwed t behavior line xs p).1,
)
  where
    later : IsFieldOf t xs p → IsFieldOf t (x ∷ xs) p
    later (o, m, e) = (o, Memᴰ.tail m, e)

    found :
        (IsFieldOf t xs p → IsOwed (produced t behavior line xs) p)
        → IsFieldOf t (x ∷ xs) p
        → ((t, some x.name) ≡ p) ⊎ IsOwed (produced t behavior line xs) p
    found rest (o, Memᴰ.head same, e) = inl (subst (λ (y : Parameter). (t, some y.name) ≡ p) same e)
    found rest (o, Memᴰ.tail m, e) = inr (rest (o, m, e))

call-IsOwed :
    (ctx : AnalysisContext) (t f : Text) (line : ℕ) (p : Place)
    → IsOwed (produced t f line (outputs_of f ctx)) p
      ↔ ((c : Contract) × (lookup f ctx.dependency_contracts ≡ some c) × IsFieldOf t c.outputs p)
unfolding outputs_of produced
call-IsOwed ctx t f line p = elim (Option-cases (lookup f ctx.dependency_contracts)) [
  | inl unknown ↦
      rw (unknown, outputs_of) (λ h. absurd (false≢true h), λ (c, e, h). absurd (cc (e)))
  | inr (c, known) ↦
      let same = produced-IsOwed t f line c.outputs p in
      rw (known, outputs_of)
        (
          λ h. (c, refl, same.0 h),
          λ (d, e, h).
              same.1
                (subst (λ (x : Contract). IsFieldOf t x.outputs p) (sym (some-injective c d e)) h),
        )
]

node-IsOwed :
    (ctx : AnalysisContext) (p : Place) (line : ℕ) (k : NodeKind) (s : Flows)
    → IsOwed (gather_node ctx line k s).obligations p ↔ (IsOwed s.obligations p ⊎ Produces ctx p k)
unfolding gather_node gather_call gather_assignment
node-IsOwed ctx p line (NodeKind.call_node r f args []) s =
    (λ h. inl h, elim [ inl h ↦ h | inr (o, m, _, _) ↦ elim m [ ] ])
node-IsOwed ctx p line (NodeKind.call_node r f args (o ∷ os)) s =
    appended s.obligations (bound f line ctx (o ∷ os)) p (
      bound-IsOwed f line ctx (o ∷ os) p,
      λ (x, m, free, e). IsOwed-bound f line ctx (o ∷ os) p x m free e,
    )
node-IsOwed ctx p line (NodeKind.assignment t (Expr.call f args)) s =
    appended s.obligations (produced t f line (outputs_of f ctx)) p (call-IsOwed ctx t f line p)
node-IsOwed ctx p line (NodeKind.assignment t (Expr.spawn f args)) s = alone
node-IsOwed ctx p line (NodeKind.assignment t e) s = alone
node-IsOwed ctx p line k s = alone

pub obligations_iff :
    (ctx : AnalysisContext) (p : Place) (ns : Nodes) (s : Flows)
    → IsOwed (gather ctx ns s).obligations p
      ↔ (IsOwed s.obligations p ⊎ Somewhere (Produces ctx p) ns)
obligations_iff ctx p =
    collects ctx (λ s. IsOwed s.obligations p) (Produces ctx p) (node-IsOwed ctx p)

dropped_iff :
    (ctx : AnalysisContext) (f : Text) (line : ℕ)
    → (dropped f line (outputs_of f ctx) ≡ [])
      ↔ ((c : Contract) → lookup f ctx.dependency_contracts ≡ some c → c.outputs ≡ [])
unfolding outputs_of dropped
dropped_iff ctx f line = elim (Option-cases (lookup f ctx.dependency_contracts)) [
  | inl unknown ↦ rw (unknown, outputs_of) (λ _ c e. absurd (cc (e)), λ _. refl)
  | inr (c, known) ↦
      rw (known, outputs_of)
        (
          λ h d e.
              subst (λ (x : Contract). x.outputs ≡ []) (some-injective c d e) (quiet c.outputs h),
          λ h. none_dropped c.outputs (h c refl),
        )
]
  where
    quiet : (os : List Parameter) → dropped f line os ≡ [] → os ≡ []
    quiet [] h = refl
    quiet (o ∷ os) h = absurd (cc (h))

    none_dropped : (os : List Parameter) → os ≡ [] → dropped f line os ≡ []
    none_dropped os h = rw h refl

node-DropsNothing :
    (ctx : AnalysisContext) (line : ℕ) (k : NodeKind) (s : Flows)
    → ((gather_node ctx line k s).errors ≡ []) ↔ ((s.errors ≡ []) × DropsNothing ctx k)
unfolding gather_node gather_call gather_assignment
node-DropsNothing ctx line (NodeKind.call_node r f args []) s =
    let parts = append-nil_iff s.errors (dropped f line (outputs_of f ctx)) in
    let exact = dropped_iff ctx f line in
    (λ h. let (x, y) = parts.0 h in (x, exact.0 y), λ h. parts.1 (h.0, exact.1 h.1))
node-DropsNothing ctx line (NodeKind.call_node r f args (o ∷ os)) s = (λ h. (h, tt), λ h. h.0)
node-DropsNothing ctx line (NodeKind.assignment t (Expr.call f args)) s = (λ h. (h, tt), λ h. h.0)
node-DropsNothing ctx line (NodeKind.assignment t (Expr.spawn f args)) s = (λ h. (h, tt), λ h. h.0)
node-DropsNothing ctx line (NodeKind.assignment t e) s = (λ h. (h, tt), λ h. h.0)
node-DropsNothing ctx line k s = (λ h. (h, tt), λ h. h.0)

pub errors_iff :
    (ctx : AnalysisContext) (ns : Nodes) (s : Flows)
    → ((gather ctx ns s).errors ≡ []) ↔ ((s.errors ≡ []) × Everywhere (DropsNothing ctx) ns)
unfolding gather
errors_iff ctx end s = (λ h. (h, tt), λ h. h.0)
errors_iff ctx (next (node sp k) ns) s =
    let rest = errors_iff ctx ns (gather_node ctx sp.line k s) in
    let first = node-DropsNothing ctx sp.line k s in
    (
      λ h. let (x, y) = rest.0 h in let (before, z) = first.0 x in (before, (z, y)),
      λ h. rest.1 (first.1 (h.0, h.1.0), h.1.1),
    )
