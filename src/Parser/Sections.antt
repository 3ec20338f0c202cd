-- ===== src/Parser/Sections.antt =====
-- compiler/src/parser.rs: the loop `loop { self.skip_newlines(); match self.peek_kind() { … } }` over
-- the sections of a contract, a behavior, a pattern, a library or an executable.
use sigil_lang.Prelude.{ℕ, zero, suc, ◌+◌, ◌<◌, Option, none, some, List, ◌∷◌, arith, length}
use sigil_lang.Lexer.Tokens.{Token, TokenKind}
use sigil_lang.Parser.Cursor.{peek, advance, skip_newlines}
use sigil_lang.Parser.Outcome.{
  Outcome, Parser, continue, Suffix-length, Ensures-map, there, skip_newlines-Suffix, Ensures,
  holds, rejected, Ensures-within, Ensures-then,
}

-- A section after its keyword.
abbrev pub after_keyword : {A : Type 0} → Parser A → Parser A
after_keyword p ts = p (advance ts)

-- `section` is what a token starts, and `finish` what the others do. Each section takes one unit of
-- fuel.
unfoldable pub parse_sections_within :
    {U : Type 0}
    → (U → TokenKind → Option (Parser U))
    → (U → TokenKind → Parser U)
    → ℕ
    → U
    → Parser U
unfolding skip_newlines peek
parse_sections_within section finish zero u ts = none
parse_sections_within section finish (suc fuel) u ts =
    let us = skip_newlines ts in
    elim (section u (peek us).kind) [
      | some p ↦ continue (p us) (λ u' rest. parse_sections_within section finish fuel u' rest)
      | none ↦ finish u (peek us).kind us
    ]

-- There is a token for each section.
unfoldable pub parse_sections :
    {U : Type 0} → (U → TokenKind → Option (Parser U)) → (U → TokenKind → Parser U) → U → Parser U
unfolding parse_sections_within
parse_sections section finish u ts = parse_sections_within section finish (length ts + 1) u ts

module _ {U : Type 0} where
  -- A parser that reads at least one token, if it is there.
  abbrev pub Reads : Option (Parser U) → List Token → Type 0
  Reads none ts = Unit
  Reads (some p) ts = Ensures (λ u rest. length rest < length ts) ts (p ts)

  abbrev pub Anything : U → List Token → Type 0
  Anything u rest = Unit

module _ {U : Type 0} (section : U → TokenKind → Option (Parser U))
    (finish : U → TokenKind → Parser U)
    (reads : (u : U) (ts : List Token) → Reads (section u (peek ts).kind) ts)
    (ends : (u : U) (ts : List Token) → Ensures Anything ts (finish u (peek ts).kind ts)) where
  parse_sections_within-Ensures :
      (fuel : ℕ) (u : U) (ts : List Token)
      → length ts < fuel
      → Ensures Anything ts (parse_sections_within section finish fuel u ts)
  unfolding parse_sections_within
  parse_sections_within-Ensures zero u ts l = absurd (omega arith)
  parse_sections_within-Ensures (suc fuel) u ts l = Ensures-within (skip_newlines-Suffix ts) (
      go (section u (peek (skip_newlines ts)).kind) (reads u (skip_newlines ts)) (λ u' us m.
        parse_sections_within-Ensures fuel u' us
          (omega (arith, Suffix-length (skip_newlines-Suffix ts)))))
    where
      go :
          (o : Option (Parser U))
          → Reads o (skip_newlines ts)
          → ((u' : U) (us : List Token)
              → length us < length (skip_newlines ts)
              → Ensures Anything us (parse_sections_within section finish fuel u' us))
          → Ensures Anything (skip_newlines ts) (elim o [
            | some p ↦
                continue
                  (p (skip_newlines ts))
                  (λ u' rest. parse_sections_within section finish fuel u' rest)
            | none ↦ finish u (peek (skip_newlines ts)).kind (skip_newlines ts)
          ])
      go none r ih = ends u (skip_newlines ts)
      go (some p) r ih = Ensures-then r λ u' rest m k. ih u' rest m

  -- The fuel suffices.
  pub parse_sections-Ensures :
      (u : U) (ts : List Token) → Ensures Anything ts (parse_sections section finish u ts)
  unfolding parse_sections
  parse_sections-Ensures u ts = parse_sections_within-Ensures (length ts + 1) u ts (omega arith)

module _ {U : Type 0} {P : U → List Token → Type 0} {ts : List Token} where
  pub forget : {r : Outcome U} → Ensures P ts r → Ensures Anything ts r
  forget h = Ensures-map h λ u rest p. tt

module _ {U : Type 0} {ts : List Token} where
  -- A token was read before.
  pub shorter :
      {r : Outcome U} (t : Token)
      → Ensures Anything ts r
      → Ensures (λ u rest. length rest < suc (length ts)) (t ∷ ts) r
  shorter t (holds u rest s p) = holds u rest (there t ts s) (omega (arith, Suffix-length s))
  shorter t (rejected s c h) = rejected s c (there t ts h)

  pub bounded :
      {r : Outcome U} {n : ℕ}
      → length ts < n
      → Ensures Anything ts r
      → Ensures (λ u rest. length rest < n) ts r
  bounded l (holds u rest s p) = holds u rest s (omega (arith, Suffix-length s))
  bounded l (rejected s c h) = rejected s c h
