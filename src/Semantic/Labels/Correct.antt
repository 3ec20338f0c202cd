-- ===== src/Semantic/Labels/Correct.antt =====
-- Which labels are collected, and when one is reported.
use mathlib.Core.Path.{subst}
use sigil_lang.Prelude.{
  ℕ, ◌≡◌, refl, sym, ap, ◌∙◌, ◌↔◌, inl, inr, true, false, none, List, [], ◌∷◌, ◌++◌, arith, Text,
  text_eq, eq_iff, lookup, lookup-insert, contains, Option-cases, append-nil_iff,
}
use sigil_lang.Ast.{Node, node, NodeKind, Nodes, end, next}
use sigil_lang.Semantic.Errors.{duplicate_label}
use sigil_lang.Semantic.Context.{define_label, has_key}
use sigil_lang.Semantic.Checks.{State}
use sigil_lang.Semantic.Labels.{
  report_label, collect_label, collect_labels_from_nodes, collect_labels_of_kind,
}

-- The labels of the statements with their lines, those in scopes included.
unfoldable mutual
  pub labels_of : Nodes → List (Text × ℕ)
  labels_of end = []
  labels_of (next n ns) = labels_of_node n ++ labels_of ns

  pub labels_of_node : Node → List (Text × ℕ)
  labels_of_node (node sp k) = labels_of_kind sp.line k

  pub labels_of_kind : ℕ → NodeKind → List (Text × ℕ)
  labels_of_kind line (NodeKind.label name) = (name, line) ∷ []
  labels_of_kind line (NodeKind.scope inner) = labels_of inner
  labels_of_kind line _ = []

-- No label is among those that were seen before it.
abbrev pub AreDistinct : List Text → List (Text × ℕ) → Type 0
AreDistinct seen [] = Unit
AreDistinct seen ((l, line) ∷ ls) = (contains seen l ≡ false) × AreDistinct (l ∷ seen) ls

abbrev pub seen_after : List Text → List (Text × ℕ) → List Text
seen_after seen [] = seen
seen_after seen ((l, line) ∷ ls) = seen_after (l ∷ seen) ls

abbrev collect_all : List (Text × ℕ) → State → State
collect_all [] s = s
collect_all ((l, line) ∷ ls) s = collect_all ls (collect_label l line s)

collect_all-append :
    (xs ys : List (Text × ℕ)) (s : State)
    → collect_all (xs ++ ys) s ≡ collect_all ys (collect_all xs s)
collect_all-append [] ys s = refl
collect_all-append ((l, line) ∷ xs) ys s = collect_all-append xs ys (collect_label l line s)

mutual
  unfolding collect_labels_from_nodes labels_of

  collect-all :
      (ns : Nodes) (s : State) → collect_labels_from_nodes ns s ≡ collect_all (labels_of ns) s
  collect-all end s = refl
  collect-all (next (node sp k) ns) s =
      ap (collect_labels_from_nodes ns) (collect_kind-all sp.line k s)
      ∙ collect-all ns (collect_all (labels_of_kind sp.line k) s)
      ∙ sym (collect_all-append (labels_of_kind sp.line k) (labels_of ns) s)

  collect_kind-all :
      (line : ℕ) (k : NodeKind) (s : State)
      → collect_labels_of_kind line k s ≡ collect_all (labels_of_kind line k) s
  collect_kind-all line (NodeKind.label name) s = refl
  collect_kind-all line (NodeKind.scope inner) s = collect-all inner s
  collect_kind-all line _ s = refl

-- The labels of the context are those that were seen.
abbrev pub Knows : State → List Text → Type 0
Knows s seen = (l : Text) → has_key l s.ctx.labels ≡ contains seen l

record Collects (s s' : State) (seen : List Text) (P : Type 0) : Type 0 where
  knows : Knows s' seen
  exact : (s'.errors ≡ []) ↔ ((s.errors ≡ []) × P)

collect_label-Collects :
    (l : Text) (line : ℕ) (s : State) (seen : List Text)
    → Knows s seen
    → Collects s (collect_label l line s) (l ∷ seen) (contains seen l ≡ false)
unfolding collect_label define_label report_label contains
collect_label-Collects l line s seen known = elim (Option-cases (lookup l s.ctx.labels)) [
  | inl new ↦
      let fresh : contains seen l ≡ false = sym (known l) ∙ rw (new, has_key) refl in
      rw (new, collect_label, define_label)
        (record {
          knows = λ k. ground (arith, known k, lookup-insert l k line s.ctx.labels, eq_iff l k);
          exact = (λ h. (h, fresh), λ h. h.0);
        })
  | inr (first, old) ↦
      let again : contains seen l ≡ true = sym (known l) ∙ rw (old, has_key) refl in
      rw (old, collect_label, define_label)
        (record {
          knows = λ k. ground (arith, known k, again, eq_iff l k);
          exact = (
            λ h. absurd (
                cc
                  ((append-nil_iff s.errors (
                      record { kind = duplicate_label l first; line = line; context = none }
                      ∷ [])).0
                    h).1),
            λ h. absurd (cc (again, h.1)),
          );
        })
]

collect_all-Collects :
    (ls : List (Text × ℕ)) (s : State) (seen : List Text)
    → Knows s seen
    → Collects s (collect_all ls s) (seen_after seen ls) (AreDistinct seen ls)
collect_all-Collects [] s seen known = record { knows = known; exact = (λ h. (h, tt), λ h. h.0) }
collect_all-Collects ((l, line) ∷ ls) s seen known =
    let first = collect_label-Collects l line s seen known in
    let rest = collect_all-Collects ls (collect_label l line s) (l ∷ seen) first.knows in
    record {
      knows = rest.knows;
      exact = (
        λ h.
            let (middle, more) = rest.exact.0 h in
            let (before, new) = first.exact.0 middle in (before, (new, more)),
        λ h. rest.exact.1 (first.exact.1 (h.0, h.1.0), h.1.1),
      );
    }

no_labels : (l : Text) → has_key {V = ℕ} l [] ≡ false
unfolding lookup
no_labels l = refl

-- From a context without labels the labels of the statements are collected, those in scopes
-- included, and an error is added exactly if one label stands twice.
pub collect_labels_correct :
    (ns : Nodes) (s : State)
    → s.ctx.labels ≡ []
    → Knows (collect_labels_from_nodes ns s) (seen_after [] (labels_of ns))
      × (((collect_labels_from_nodes ns s).errors ≡ [])
          ↔ ((s.errors ≡ []) × AreDistinct [] (labels_of ns)))
unfolding contains
collect_labels_correct ns s none_yet =
    let known : Knows s [] = λ l. subst (λ m. has_key l m ≡ false) (sym none_yet) (no_labels l) in
    let all = collect_all-Collects (labels_of ns) s [] known in
    (
      subst (λ t. Knows t (seen_after [] (labels_of ns))) (sym (collect-all ns s)) all.knows,
      subst (λ t. (t.errors ≡ []) ↔ ((s.errors ≡ []) × AreDistinct [] (labels_of ns)))
          (sym (collect-all ns s)) all.exact,
    )
