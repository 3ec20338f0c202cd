-- ===== src/Semantic/Ownership/Steps.antt =====
-- What the statements of one path respect.
use mathlib.Core.Path.{subst}
use sigil_lang.Prelude.{
  ℕ, ◌≡◌, refl, sym, ◌∙◌, inl, inr, Bool, true, false, not, ◌&&◌, ◌||◌, List, [], ◌∷◌, ◌++◌, arith,
  Text, text_eq, ◌==◌, eq_iff, lookup, lookup-insert, lookup-without, contains, contains-add, codes,
  Option-cases,
}
use sigil_lang.Ast.{Expr, Node, NodeKind, line_of, kind_of}
use sigil_lang.Semantic.Errors.{double_free}
use sigil_lang.Semantic.Context.{AnalysisContext, has_key}
use sigil_lang.Semantic.Ownership.{
  key_eq, PathState, check_expr_uses_freed_dedup, Progress, note_allocation, is_alloc, visit_free,
  visit_assignment, visit_store, visit_on_path, visit_statements,
}
use sigil_lang.Semantic.Ownership.Respects.{
  Names, UsesNone, LoadsStored, Respects, freed_after, stored_after, AllRespect,
}
use sigil_lang.Semantic.Ownership.Reports.{
  Agrees, Tells, Tells-nothing, Tells-then, report_once-Tells, report_freed-Tells, not_freed,
  Tells-as, uses-Tells, loads-Tells,
}

pub record Agree (p : PathState) (freed stored : Names) : Type 0 where
  pub freed_agrees : Agrees p.freed freed
  pub stored_agrees : (x : Text) → contains p.stored x ≡ stored x

-- A part of the walk that respects this, and what is freed and stored after it.
record Follows (s s' : Progress) (freed stored : Names) (P : Type 0) : Type 0 where
  agree : Agree s'.0 freed stored
  tells : Tells s.1 s'.1 P

visit_free-Follows :
    (x : Text) (line : ℕ) (s : Progress) (freed stored : Names)
    → Agree s.0 freed stored
    → Follows s
        (visit_free x line (lookup x s.0.freed) s)
        (λ y. x == y || freed y)
        stored
        (freed x ≡ false)
unfolding visit_free
visit_free-Follows x line s freed stored a = elim (Option-cases (lookup x s.0.freed)) [
  | inl new ↦
      rw (new, visit_free)
        (record {
          agree = record {
            freed_agrees =
                λ y. ground (arith, a.freed_agrees y, lookup-insert x y line s.0.freed, eq_iff x y);
            stored_agrees = a.stored_agrees;
          };
          tells = Tells-nothing s.1 (not_freed s.0.freed freed x a.freed_agrees new);
        })
  | inr (first, old) ↦
      let again : freed x ≡ true = sym (a.freed_agrees x) ∙ rw (old, has_key) refl in
      rw (old, visit_free)
        (record {
          agree = record {
            freed_agrees = λ y. a.freed_agrees y ∙ ground (arith, again, eq_iff x y);
            stored_agrees = a.stored_agrees;
          };
          tells =
              report_once-Tells (freed x ≡ false) (codes "DoubleFree:" ++ x) (double_free x first)
                line (codes "double FREE on same execution path") s.1;
        })
]

note_allocation-Follows :
    (t : Text) (line : ℕ) (b : Bool) (s s' : Progress) (freed stored : Names) (P : Type 0)
    → Follows s s' freed stored P
    → Follows s (note_allocation t line b s') freed stored P
unfolding note_allocation
note_allocation-Follows t line false s s' freed stored P f = f
note_allocation-Follows t line true s s' freed stored P f = record {
  agree = record { freed_agrees = f.agree.freed_agrees; stored_agrees = f.agree.stored_agrees };
  tells = record { sound = f.tells.sound; clean = f.tells.clean };
}

visit_assignment-Follows :
    (ctx : AnalysisContext) (t : Text) (e : Expr) (line : ℕ) (s : Progress) (freed stored : Names)
    → Agree s.0 freed stored
    → Follows s
        (visit_assignment ctx t e line s)
        (λ y. not (t == y) && freed y)
        stored
        (UsesNone freed e × LoadsStored stored e)
unfolding visit_assignment
visit_assignment-Follows ctx t e line s freed stored a =
    note_allocation-Follows t line (is_alloc e) s _ _ stored
      (UsesNone freed e × LoadsStored stored e)
      (record {
        agree = record {
          freed_agrees =
              λ y. ground (arith, a.freed_agrees y, lookup-without t y s.0.freed, eq_iff t y);
          stored_agrees = a.stored_agrees;
        };
        tells = Tells-then (uses-Tells e s.0.freed freed line s.1 a.freed_agrees) (
            loads-Tells e s.0.stored stored line (check_expr_uses_freed_dedup e s.0.freed line s.1)
              a.stored_agrees);
      })

visit_store-Follows :
    (ctx : AnalysisContext) (t : Text) (line : ℕ) (s : Progress) (freed stored : Names)
    → Agree s.0 freed stored
    → Follows s (visit_store ctx t line s) freed (λ y. t == y || stored y) (freed t ≡ false)
unfolding visit_store
visit_store-Follows ctx t line s freed stored a = record {
  agree = record {
    freed_agrees = a.freed_agrees;
    stored_agrees = λ y. ground (arith, a.stored_agrees y, contains-add t y s.0.stored);
  };
  tells = Tells-as (not_freed s.0.freed freed t a.freed_agrees) (
      report_freed-Tells t (lookup t s.0.freed) line (codes "STORE to handle freed on this path")
        s.1);
}

-- A statement that frees and stores nothing.
follows_nothing :
    (s s' : Progress) (freed stored : Names)
    → Agree s'.0 freed stored
    → s.1 ≡ s'.1
    → Follows s s' freed stored Unit
follows_nothing s s' freed stored a same = record {
  agree = a;
  tells = subst (λ r. Tells s.1 r Unit) same (Tells-nothing s.1 tt);
}

visit-Follows :
    (ctx : AnalysisContext) (line : ℕ) (k : NodeKind) (s : Progress) (freed stored : Names)
    → Agree s.0 freed stored
    → Follows s
        (visit_on_path ctx line k s)
        (freed_after k freed)
        (stored_after k stored)
        (Respects freed stored k)
unfolding visit_on_path
visit-Follows ctx line (NodeKind.free x) s freed stored a =
    visit_free-Follows x line s freed stored a
visit-Follows ctx line (NodeKind.assignment t e) s freed stored a =
    visit_assignment-Follows ctx t e line s freed stored a
visit-Follows ctx line (NodeKind.store t _ _ _) s freed stored a =
    visit_store-Follows ctx t line s freed stored a
visit-Follows ctx line (NodeKind.set t v) s freed stored a =
    follows_nothing s (visit_on_path ctx line (NodeKind.set t v) s) freed stored
      (record { freed_agrees = a.freed_agrees; stored_agrees = a.stored_agrees }) refl
visit-Follows ctx line (NodeKind.call_node t f args outputs) s freed stored a =
    follows_nothing s (visit_on_path ctx line (NodeKind.call_node t f args outputs) s) freed stored
      (record { freed_agrees = a.freed_agrees; stored_agrees = a.stored_agrees }) refl
visit-Follows ctx line _ s freed stored a = follows_nothing s s freed stored a refl

pub visit_statements-Tells :
    (ctx : AnalysisContext) (ns : List Node) (s : Progress) (freed stored : Names)
    → Agree s.0 freed stored
    → Tells s.1 (visit_statements ctx ns s).1 (AllRespect freed stored ns)
unfolding visit_statements
visit_statements-Tells ctx [] s freed stored a = Tells-nothing s.1 tt
visit_statements-Tells ctx (n ∷ ns) s freed stored a =
    let k = kind_of n in
    let first = visit-Follows ctx (line_of n) k s freed stored a in
    Tells-then first.tells (
      visit_statements-Tells ctx ns (visit_on_path ctx (line_of n) k s) (freed_after k freed)
        (stored_after k stored) first.agree)
