-- ===== src/Semantic/Ownership/Reports.antt =====
-- What an error that is not reported says of a statement.
use mathlib.Core.Path.{subst}
use mathlib.Core.Bool.{false≢true}
use sigil_lang.Prelude.{
  ℕ, ◌≡◌, refl, sym, ◌∙◌, inl, inr, true, false, Option, none, some, List, [], ◌∷◌, ◌++◌, Text,
  text_eq, Map, lookup, contains, codes, Bool-cases, append-nil_iff,
}
use sigil_lang.Ast.{Expr}
use sigil_lang.Semantic.Errors.{SemanticError, ErrorKind, use_after_free, uninitialized_load}
use sigil_lang.Semantic.Context.{has_key}
use sigil_lang.Semantic.Ownership.{
  key_eq, Report, report_once, report_freed, check_expr_uses_freed_dedup, check_source,
  check_uninitialized_load,
}
use sigil_lang.Semantic.Ownership.Respects.{Names, UsesNone, IsStored, LoadsStored}

-- Nothing is taken for reported before there is an error.
abbrev pub IsSound : Report → Type 0
IsSound r = r.errors ≡ [] → r.reported ≡ []

pub record Tells (r r' : Report) (P : Type 0) : Type 0 where
  pub sound : IsSound r → IsSound r'
  pub clean : IsSound r → r'.errors ≡ [] → (r.errors ≡ []) × P

pub Tells-nothing : {P : Type 0} (r : Report) → P → Tells r r P
Tells-nothing r p = record { sound = λ s. s; clean = λ s h. (h, p) }

pub Tells-then :
    {r r' r'' : Report} {P Q : Type 0} → Tells r r' P → Tells r' r'' Q → Tells r r'' (P × Q)
Tells-then first second = record {
  sound = λ s. second.sound (first.sound s);
  clean = λ s h.
      let (middle, q) = second.clean (first.sound s) h in
      let (start, p) = first.clean s middle in (start, (p, q));
}

pub report_once-Tells :
    (P : Type 0) (key : Text) (kind : ErrorKind) (line : ℕ) (context : Text) (r : Report)
    → Tells r (report_once key kind line context r) P
unfolding report_once contains
report_once-Tells P key kind line context r = elim (Bool-cases (contains r.reported (key, line))) [
  | inl old ↦
      rw (old, report_once)
        (record {
          sound = λ s. s;
          clean =
              λ s h. absurd (false≢true (subst (λ set. contains set (key, line) ≡ true) (s h) old));
        })
  | inr new ↦
      rw (new, report_once)
        (record { sound = λ s h. absurd (pushed h); clean = λ s h. absurd (pushed h) })
]
  where
    e : SemanticError
    e = record { kind = kind; line = line; context = some context }

    pushed : ¬ (r.errors ++ (e ∷ []) ≡ [])
    pushed h = cc ((append-nil_iff r.errors (e ∷ [])).0 h).1

pub report_freed-Tells :
    (x : Text) (o : Option ℕ) (line : ℕ) (context : Text) (r : Report)
    → Tells r (report_freed x o line context r) (o ≡ none)
unfolding report_freed
report_freed-Tells x none line context r = Tells-nothing r refl
report_freed-Tells x (some first) line context r =
    report_once-Tells (some first ≡ none) (codes "UseAfterFree:" ++ x) (use_after_free x first) line
      context r

abbrev pub Agrees : Map Text ℕ → Names → Type 0
Agrees m freed = (x : Text) → has_key x m ≡ freed x

pub not_freed :
    (m : Map Text ℕ) (freed : Names) (x : Text)
    → Agrees m freed
    → lookup x m ≡ none
    → freed x ≡ false
not_freed m freed x agrees h = sym (agrees x) ∙ rw (h, has_key) refl

pub Tells-as : {r r' : Report} {P Q : Type 0} → (P → Q) → Tells r r' P → Tells r r' Q
Tells-as f t = record {
  sound = t.sound;
  clean = λ s h. let (start, p) = t.clean s h in (start, f p);
}

pub uses-Tells :
    (e : Expr) (m : Map Text ℕ) (freed : Names) (line : ℕ) (r : Report)
    → Agrees m freed
    → Tells r (check_expr_uses_freed_dedup e m line r) (UsesNone freed e)
unfolding check_expr_uses_freed_dedup UsesNone
uses-Tells (Expr.var x) m freed line r agrees =
    Tells-as (not_freed m freed x agrees)
      (report_freed-Tells x (lookup x m) line (codes "use of handle freed on this path") r)
uses-Tells (Expr.load e _ _) m freed line r agrees = uses-Tells e m freed line r agrees
uses-Tells (Expr.field e _) m freed line r agrees = uses-Tells e m freed line r agrees
uses-Tells _ m freed line r agrees = Tells-nothing r tt

source-Tells :
    (e : Expr) (set : List Text) (stored : Names) (line : ℕ) (r : Report)
    → ((x : Text) → contains set x ≡ stored x)
    → Tells r (check_source e set line r) (IsStored stored e)
unfolding check_source
source-Tells (Expr.var x) set stored line r agrees = elim (Bool-cases (contains set x)) [
  | inl there ↦ rw (there, check_source) (Tells-nothing r (sym (agrees x) ∙ there))
  | inr missing ↦
      rw (missing, check_source)
        (report_once-Tells (stored x ≡ true) (codes "UninitializedLoad:" ++ x)
          (uninitialized_load x) line (codes "LOAD without prior STORE on this path") r)
]
source-Tells _ set stored line r agrees = Tells-nothing r tt

pub loads-Tells :
    (e : Expr) (set : List Text) (stored : Names) (line : ℕ) (r : Report)
    → ((x : Text) → contains set x ≡ stored x)
    → Tells r (check_uninitialized_load e set line r) (LoadsStored stored e)
unfolding check_uninitialized_load LoadsStored
loads-Tells (Expr.load e _ _) set stored line r agrees =
    Tells-then (source-Tells e set stored line r agrees)
      (loads-Tells e set stored line (check_source e set line r) agrees)
loads-Tells _ set stored line r agrees = Tells-nothing r tt
