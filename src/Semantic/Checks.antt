-- ===== src/Semantic/Checks.antt =====
-- compiler/src/semantic/mod.rs: the state of the linear pass, and the checks of one condition.
use sigil_lang.Prelude.{
  ℕ, Bool, true, false, ◌≡◌, ◌∙◌, sym, refl, ◌↔◌, Option, some, List, [], ◌∷◌, ◌++◌, Text, Map,
  nat_beq, ◌||◌, if◌then◌else◌, append-nil_iff,
}
use mathlib.Core.Path.{subst}
use sigil_lang.Ast.{Parameter, Contract}
use sigil_lang.Semantic.Errors.{
  ErrorKind, SemanticError, SemanticWarning, invalid_int_size, invalid_float_size,
}
use sigil_lang.Semantic.Context.{AnalysisContext, VarInfo}

-- The analyzer and the context that its methods share.
pub record State : Type 0 where
  pub ctx : AnalysisContext
  pub errors : List SemanticError
  pub warnings : List SemanticWarning

abbrev pub Step : Type 0
Step = State → State

abbrev pub push_error : ErrorKind → ℕ → Option Text → Step
push_error kind line context s = record s {
  errors = s.errors ++ (record { kind = kind; line = line; context = context } ∷ []);
}

-- `if !ok { self.errors.push(..) }`.
unfoldable pub require : Bool → ErrorKind → ℕ → Option Text → Step
require ok kind line context s = if ok then s else push_error kind line context s

abbrev pub is_int_size : ℕ → Bool
is_int_size n = nat_beq n 1 || nat_beq n 2 || nat_beq n 4 || nat_beq n 8

abbrev pub is_float_size : ℕ → Bool
is_float_size n = nat_beq n 4 || nat_beq n 8

unfoldable pub validate_int_size : ℕ → ℕ → Text → Step
unfolding require
validate_int_size size line context =
    require (is_int_size size) (invalid_int_size size) line (some context)

unfoldable pub validate_float_size : ℕ → ℕ → Text → Step
unfolding require
validate_float_size size line context =
    require (is_float_size size) (invalid_float_size size) line (some context)

-- The parts of the context that no expression changes.
pub record Facts : Type 0 where
  pub variables : Map Text VarInfo
  pub labels : Map Text ℕ
  pub outputs : Map Text Parameter
  pub contracts : Map Text Contract
  pub patterns : List Text

abbrev pub facts : State → Facts
facts s = record {
  variables = s.ctx.variables;
  labels = s.ctx.labels;
  outputs = s.ctx.outputs;
  contracts = s.ctx.dependency_contracts;
  patterns = s.ctx.pattern_names;
}

-- A step keeps the facts, and it reports nothing exactly if this holds.
pub record Decides (s s' : State) (P : Type 0) : Type 0 where
  pub kept : facts s' ≡ facts s
  pub exact : (s'.errors ≡ []) ↔ ((s.errors ≡ []) × P)

pub Decides-nothing : (s : State) → Decides s s Unit
Decides-nothing s = record { kept = refl; exact = (λ h. (h, tt), λ h. h.0) }

pub Decides-as : {s s' : State} {P Q : Type 0} → Decides s s' P → P ↔ Q → Decides s s' Q
Decides-as d same = record {
  kept = d.kept;
  exact =
      (λ h. let (clean, p) = d.exact.0 h in (clean, same.0 p), λ h. d.exact.1 (h.0, same.1 h.1));
}

pub Decides-then :
    {s s' s'' : State} {P : Type 0} (Q : Facts → Type 0)
    → Decides s s' P
    → Decides s' s'' (Q (facts s'))
    → Decides s s'' (P × Q (facts s))
Decides-then Q first second = record {
  kept = second.kept ∙ first.kept;
  exact = (
    λ h.
        let (clean, q) = second.exact.0 h in
        let (before, p) = first.exact.0 clean in (before, (p, subst Q first.kept q)),
    λ h. second.exact.1 (first.exact.1 (h.0, h.1.0), subst Q (sym first.kept) h.1.1),
  );
}

pub Decides-require :
    (b : Bool) (kind : ErrorKind) (line : ℕ) (context : Option Text) (s : State)
    → Decides s (require b kind line context s) (b ≡ true)
unfolding require
Decides-require true kind line context s = record {
  kept = refl;
  exact = (λ h. (h, refl), λ h. h.0);
}
Decides-require false kind line context s = record {
  kept = refl;
  exact = (
    λ h. absurd (
        cc
          ((append-nil_iff s.errors (record { kind = kind; line = line; context = context } ∷ [])).0
            h).1),
    λ h. absurd (cc (h.1)),
  );
}
