-- ===== src/Source/Numbering.antt =====
-- Lines as the lexer and the index count them.
use sigil_lang.Prelude.{
  ℕ, ◌+◌, ◌≡◌, refl, sym, ◌∙◌, Option, some, List, [], ◌∷◌, Text, arith, nat_eq, length, Result, ok,
  err,
}
use mathlib.Core.Path.{subst}
use mathlib.Core.Option.{some-injective}
use sigil_lang.Chars.{utf8_char}
use sigil_lang.Lexer.Tokens.{Token}
use sigil_lang.Lexer.State.{LexError}
use sigil_lang.Lexer.Lex.{lex}
use sigil_lang.Lexer.Lines.Readers.{newlines}
use sigil_lang.Lexer.Lines.All.{EndsAt, LexedOk, lex_correct}
use sigil_lang.Source.{starts_from, compute_line_starts, new_source, line_count}

starts_from-newlines : (i : ℕ) (t : Text) → length (starts_from i t) ≡ newlines t
unfolding starts_from
starts_from-newlines i [] = refl
starts_from-newlines i (c ∷ cs) = ground (arith, starts_from-newlines (i + length (utf8_char c)) cs)

-- The tokens end on a line.
abbrev pub EndsOn : ℕ → Result LexError (List Token) → Type 0
EndsOn n (ok ts) = EndsAt n ts
EndsOn n (err e) = Unit

-- Where `lex` returns tokens for a text, the last one, which is the only one for the end of the text,
-- stands on the last line of the text's index.
pub lex-line_count :
    (parse_f64 : Text → Option ℕ) (path content : Text) (r : Result LexError (List Token))
    → lex parse_f64 content ≡ some r
    → EndsOn (line_count (new_source path content)) r
unfolding new_source compute_line_starts
lex-line_count parse_f64 path content r e =
    let (q, f, l) = lex_correct parse_f64 content in
    subst (EndsOn (line_count (new_source path content))) (some-injective q r (sym f ∙ e)) (go q l)
  where
    counted : 1 + newlines content ≡ length (0 ∷ starts_from 0 content)
    counted = omega (arith, starts_from-newlines 0 content)

    go :
        (q : Result LexError (List Token))
        → LexedOk 1 (newlines content) q
        → EndsOn (length (0 ∷ starts_from 0 content)) q
    go (ok ts) l = subst (λ n. EndsAt n ts) counted l.1
    go (err x) l = tt
