-- ===== src/Parser/Outcome.antt =====
-- Parsers as functions on the tokens that are left, and what holds of their results. `none` is a loop
-- that ran out of fuel, which the source does not have.
use sigil_lang.Prelude.{
  ◌≡◌, ◌≤◌, arith, length, ◌≢◌, Option, none, some, List, [], ◌∷◌, Result, ok, err,
}
use mathlib.Core.Path.{subst}
use sigil_lang.Lexer.Tokens.{Token, TokenKind, newline, indent}
use sigil_lang.Parser.Cursor.{peek, skip_newlines}
use sigil_lang.Ast.{Span}
use sigil_lang.Parser.Errors.{ParseError, Complaint, error}

abbrev pub Outcome : Type 0 → Type 0
Outcome A = Option (Result ParseError (A × List Token))

abbrev pub Parser : Type 0 → Type 0
Parser A = List Token → Outcome A

module _ {A B : Type 0} where
  -- What follows, with `?` on the result.
  abbrev pub continue : Outcome A → (A → Parser B) → Outcome B
  continue none f = none
  continue (some (err e)) f = some (err e)
  continue (some (ok (a, rest))) f = f a rest

  infixl 5 ◌>>=◌ ◌>>◌
  abbrev pub ◌>>=◌ : Parser A → (A → Parser B) → Parser B
  p >>= f = λ ts. continue (p ts) f

  abbrev pub ◌>>◌ : Parser A → Parser B → Parser B
  p >> q = λ ts. continue (p ts) (λ _. q)

abbrev pub return : {A : Type 0} → A → Parser A
return a ts = some (ok (a, ts))

unfoldable pub fail : {A : Type 0} → Complaint → Parser A
unfolding error
fail c ts = some (err (error ts c))

-- The tokens that are left are an end of those that were given.
pub data Suffix (rest : List Token) : List Token → Type 0 where
  here : Suffix rest rest
  there : (t : Token) (ts : List Token) → Suffix rest ts → Suffix rest (t ∷ ts)

pub Suffix-trans :
    (xs : List Token) {ys zs : List Token} → Suffix ys zs → Suffix xs ys → Suffix xs zs
Suffix-trans xs here s = s
Suffix-trans xs (there t ts r) s = there t ts (Suffix-trans xs r s)

pub Suffix-length : {rest ts : List Token} → Suffix rest ts → length rest ≤ length ts
Suffix-length here = omega arith
Suffix-length (there t ts s) = omega (arith, Suffix-length s)

-- Only line breaks and indents are skipped.
pub skip_newlines-Suffix : (ts : List Token) → Suffix (skip_newlines ts) ts
unfolding skip_newlines
skip_newlines-Suffix [] = here
skip_newlines-Suffix (t ∷ ts) = go t.kind t.span (skip_newlines-Suffix ts)
  where
    go :
        (k : TokenKind) (sp : Span)
        → Suffix (skip_newlines ts) ts
        → Suffix
            (skip_newlines (record { kind = k; span = sp } ∷ ts))
            (record { kind = k; span = sp } ∷ ts)
    go newline sp ih = there _ ts ih
    go (indent d) sp ih = there _ ts ih
    go k sp ih = here

-- The parser kept within its fuel. Its result holds `P`, and leaves an end of the tokens; an error
-- stands at the next of the tokens that were left when it was found.
pub data Ensures {A : Type 0} (P : A → List Token → Type 0) (ts : List Token)
    : Outcome A → Type 0 where
  holds :
      (a : A) (rest : List Token) → Suffix rest ts → P a rest → Ensures P ts (some (ok (a, rest)))
  rejected : (s : List Token) (c : Complaint) → Suffix s ts → Ensures P ts (some (err (error s c)))

module _ {A : Type 0} {P : A → List Token → Type 0} where
  pub Ensures-ok :
      {ts rest : List Token} {r : Outcome A} {a : A}
      → Ensures P ts r
      → r ≡ some (ok (a, rest))
      → P a rest
  Ensures-ok (holds b after s p) e = subst (λ (x : A × List Token). P x.0 x.1) (cc) p
  Ensures-ok (rejected s c h) e = cc

  pub Ensures-ne-none : {ts : List Token} {r : Outcome A} → Ensures P ts r → r ≢ none
  Ensures-ne-none (holds b after s p) e = cc
  Ensures-ne-none (rejected s c h) e = cc

  pub Ensures-error :
      {ts : List Token} {r : Outcome A} {e : ParseError}
      → Ensures P ts r
      → r ≡ some (err e)
      → (s : List Token) × Suffix s ts × (e.span ≡ (peek s).span)
  unfolding error
  Ensures-error (holds b after s p) e = cc
  Ensures-error (rejected s c h) e = (s, h, cc)

  pub Ensures-within :
      {ts us : List Token} {r : Outcome A} → Suffix us ts → Ensures P us r → Ensures P ts r
  Ensures-within s (holds a rest t p) = holds a rest (Suffix-trans rest s t) p
  Ensures-within s (rejected u c t) = rejected u c (Suffix-trans u s t)

module _ {A : Type 0} {P : A → List Token → Type 0} where
  pub Ensures-continue :
      {B : Type 0} {Q : B → List Token → Type 0} {ts : List Token} {r : Outcome A}
      {f : A → Parser B}
      → Ensures P ts r
      → ((a : A) (rest : List Token) → P a rest → Ensures Q rest (f a rest))
      → Ensures Q ts (continue r f)
  Ensures-continue (holds a rest s p) k = Ensures-within s (k a rest p)
  Ensures-continue (rejected s c h) k = rejected s c h

  pub Ensures-map :
      {Q : A → List Token → Type 0} {ts : List Token} {r : Outcome A}
      → Ensures P ts r
      → ((a : A) (rest : List Token) → P a rest → Q a rest)
      → Ensures Q ts r
  Ensures-map (holds a rest s p) k = holds a rest s (k a rest p)
  Ensures-map (rejected s c h) k = rejected s c h

  pub Ensures-then :
      {B : Type 0} {Q : B → List Token → Type 0} {ts : List Token} {r : Outcome A}
      {f : A → Parser B}
      → Ensures P ts r
      → ((a : A) (rest : List Token)
          → P a rest
          → length rest ≤ length ts
          → Ensures Q rest (f a rest))
      → Ensures Q ts (continue r f)
  Ensures-then (holds a rest s p) k = Ensures-within s (k a rest p (Suffix-length s))
  Ensures-then (rejected s c h) k = rejected s c h
