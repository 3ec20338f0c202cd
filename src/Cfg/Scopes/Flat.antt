-- ===== src/Cfg/Scopes/Flat.antt =====
-- What flattening does with scopes and with what they allocate.
use mathlib.Core.Path.{subst}
use mathlib.Core.List.{reverse, Memᴰ}
use sigil_lang.Prelude.{
  ◌≡◌, refl, sym, ◌≢◌, inl, inr, Bool, true, false, not, List, [], ◌∷◌, ◌++◌, map, Text, text_eq,
  contains, contains_iff, keep, All, All-append, Bool-cases,
}
use sigil_lang.Ast.{
  Span, Ty, Expr, alloc, Node, node, NodeKind, kind_of, assignment, free, scope, Nodes, end, next,
}
use sigil_lang.Cfg.Scopes.{
  scoped_allocs, freed, scope_frees, flatten_scopes, flatten_node, flatten_kind,
}

abbrev pub is_scope : NodeKind → Bool
is_scope (scope _) = true
is_scope _ = false

abbrev pub IsFlat : Node → Type 0
IsFlat n = is_scope (kind_of n) ≡ false

-- A statement of the list itself frees the handle.
pub data Frees : Nodes → Text → Type 0 where
  at_once : (sp : Span) (t : Text) (ns : Nodes) → Frees (next (node sp (free t)) ns) t
  later : (n : Node) (ns : Nodes) (t : Text) → Frees ns t → Frees (next n ns) t

-- The handles that statements of the list allocate and the whole body does not free, in their order.
pub data Owes (body : Nodes) : Nodes → List Text → Type 0 where
  nothing : Owes body end []
  owed :
      (sp : Span) (t : Text) (size : Expr) (ty : Ty) (shared : Bool) (ns : Nodes) (ts : List Text)
      → ¬ Frees body t
      → Owes body ns ts
      → Owes body (next (node sp (assignment t (alloc size ty shared))) ns) (t ∷ ts)
  paid :
      (sp : Span) (t : Text) (size : Expr) (ty : Ty) (shared : Bool) (ns : Nodes) (ts : List Text)
      → Frees body t
      → Owes body ns ts
      → Owes body (next (node sp (assignment t (alloc size ty shared))) ns) ts
  without_alloc :
      (n : Node) (ns : Nodes) (ts : List Text)
      → ((t : Text) (size : Expr) (ty : Ty) (shared : Bool)
          → kind_of n ≢ assignment t (alloc size ty shared))
      → Owes body ns ts
      → Owes body (next n ns) ts

-- The flat list has, in place of a scope, its body and then what the body owes, the last one first.
pub data Flattens : Nodes → List Node → Type 0 where
  nothing : Flattens end []
  a_scope :
      (sp : Span) (inner ns : Nodes) (body rest : List Node) (ts : List Text)
      → Flattens inner body
      → Owes inner inner ts
      → Flattens ns rest
      → Flattens
          (next (node sp (scope inner)) ns)
          ((body ++ map (λ t. node sp (free t)) (reverse ts)) ++ rest)
  a_plain :
      (n : Node) (ns : Nodes) (rest : List Node)
      → IsFlat n
      → Flattens ns rest
      → Flattens (next n ns) (n ∷ rest)

map_free-All : (sp : Span) (ts : List Text) → All IsFlat (map (λ t. node sp (free t)) ts)
map_free-All sp [] = tt
map_free-All sp (t ∷ ts) = (refl, map_free-All sp ts)

mutual
  unfolding flatten_scopes flatten_node flatten_kind scope_frees

  flatten_scopes-IsFlat : (ns : Nodes) → All IsFlat (flatten_scopes ns)
  flatten_scopes-IsFlat end = tt
  flatten_scopes-IsFlat (next n ns) =
      All-append IsFlat (flatten_node n) _ (flatten_node-IsFlat n) (flatten_scopes-IsFlat ns)

  flatten_node-IsFlat : (n : Node) → All IsFlat (flatten_node n)
  flatten_node-IsFlat (node sp k) = flatten_kind-IsFlat sp k

  flatten_kind-IsFlat : (sp : Span) (k : NodeKind) → All IsFlat (flatten_kind sp k)
  flatten_kind-IsFlat sp (scope inner) =
      All-append IsFlat (flatten_scopes inner) _ (flatten_scopes-IsFlat inner) (map_free-All sp _)
  flatten_kind-IsFlat sp k = (refl, tt)

-- No statement of the flat list is a scope.
pub flatten_scopes-All : (ns : Nodes) → All IsFlat (flatten_scopes ns)
flatten_scopes-All ns = flatten_scopes-IsFlat ns

freed-Frees : (ns : Nodes) (t : Text) → Memᴰ t (freed ns) → Frees ns t
unfolding freed
freed-Frees end t m = elim m [ ]
freed-Frees (next (node sp (free x)) ns) t (Memᴰ.head e) =
    subst (λ y. Frees (next (node sp (free x)) ns) y) (sym e) (at_once sp x ns)
freed-Frees (next (node sp (free x)) ns) t (Memᴰ.tail m) =
    later (node sp (free x)) ns t (freed-Frees ns t m)
freed-Frees (next (node sp k) ns) t m = later (node sp k) ns t (freed-Frees ns t m)

Frees-freed : {ns : Nodes} {t : Text} → Frees ns t → Memᴰ t (freed ns)
unfolding freed
Frees-freed (at_once sp t ns) = Memᴰ.head refl
Frees-freed (later (node sp (free x)) ns t f) = Memᴰ.tail (Frees-freed f)
Frees-freed (later (node sp k) ns t f) = Frees-freed f

scoped_allocs-Owes :
    (body ns : Nodes) → Owes body ns (keep (λ t. not (contains (freed body) t)) (scoped_allocs ns))
unfolding scoped_allocs
scoped_allocs-Owes body end = Owes.nothing
scoped_allocs-Owes body (next (node sp (assignment t (alloc s ty sh))) ns) =
    let rest = scoped_allocs-Owes body ns in
    elim (Bool-cases (contains (freed body) t)) [
      | inl h ↦
          rw (h, keep)
            (paid sp t s ty sh ns _ (freed-Frees body t ((contains_iff (freed body) t).0 h)) rest)
      | inr h ↦
          rw (h, keep)
            (owed sp t s ty sh ns _ (λ f. cc (h, (contains_iff (freed body) t).1 (Frees-freed f)))
              rest)
    ]
scoped_allocs-Owes body (next (node sp (assignment t e)) ns) =
    without_alloc _ ns _ (λ u s ty sh h. absurd (cc (h))) (scoped_allocs-Owes body ns)
scoped_allocs-Owes body (next (node sp k) ns) =
    without_alloc _ ns _ (λ u s ty sh h. absurd (cc (h))) (scoped_allocs-Owes body ns)

-- Flattening replaces each scope, at any depth, by its flattened body and then a FREE, with the span
-- of the scope, for each handle that a statement of the body itself allocates and none of them
-- frees, in reverse order of the allocations; other statements stay as they are.
pub flatten_scopes-Flattens : (ns : Nodes) → Flattens ns (flatten_scopes ns)
unfolding flatten_scopes flatten_node flatten_kind scope_frees
flatten_scopes-Flattens end = Flattens.nothing
flatten_scopes-Flattens (next (node sp (scope inner)) ns) =
    a_scope sp inner ns _ _ _ (flatten_scopes-Flattens inner) (scoped_allocs-Owes inner inner)
      (flatten_scopes-Flattens ns)
flatten_scopes-Flattens (next (node sp k) ns) =
    a_plain (node sp k) ns _ refl (flatten_scopes-Flattens ns)
