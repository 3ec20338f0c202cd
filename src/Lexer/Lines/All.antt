-- ===== src/Lexer/Lines/All.antt =====
-- All tokens of a text: `lex` returns, and the line breaks that it reports are those of the text.
use mathlib.Core.Path.{subst}
use mathlib.Core.Bool.{false≢true}
use sigil_lang.Prelude.{
  ℕ, zero, suc, ◌+◌, ◌≤◌, ◌<◌, ◌≡◌, refl, sym, ap, inl, inr, true, false, ◌&&◌, Option, none, some,
  List, [], ◌∷◌, arith, Text, text_eq, nat_eq, ◌==◌, eq_iff, length, if◌then◌else◌, Result, ok, err,
  Bool-cases, &&-true, ltb, ltb→lt,
}
use sigil_lang.Lexer.Tokens as T
use sigil_lang.Lexer.Tokens.{Token, TokenKind, keywords, keyword_or_ident}
use sigil_lang.Lexer.State.{
  LexError, Lexer, new_lexer, strip_bom, step, scan, skip_whitespace, span, token,
}
use sigil_lang.Lexer.Readers.{read_indent, skip_comment, is_indent, indent_width, has_content}
use sigil_lang.Lexer.Lex.{is_eof, read_token, next_token, lex_from, lex}
use sigil_lang.Lexer.Lines.Readers.{
  newlines, Advances, Advances-nowhere, break_of, step-Advances, step-rest, scan-Advances,
  skip_whitespace-Advances, skip_comment-Advances, scan-length,
}
use sigil_lang.Lexer.Lines.Tokens.{is_newline, TokenOk, read_token-TokenOk}

-- A token from `s` to `s'`: it takes characters unless it is the end, which stands after all of
-- them, and it passes a line break exactly if it is one.
indent_width-pos : (cs : Text) → 0 < indent_width cs → 0 < length cs
indent_width-pos [] h = h
indent_width-pos (c ∷ cs) h = omega arith

abbrev break_token : TokenKind → ℕ
break_token k = if is_newline k then 1 else 0

record Takes (s : Lexer) (t : Token) (s' : Lexer) : Type 0 where
  advances : Advances s (break_token t.kind) s'
  strictly : is_eof t.kind ≡ false → length s'.rest < length s.rest
  ended : is_eof t.kind ≡ true → (s'.rest ≡ []) × (t.span.line ≡ s'.line)

abbrev TakesOk : Lexer → Result LexError (Token × Lexer) → Type 0
TakesOk s (ok (t, s')) = Takes s t s'
TakesOk s (err e) = Unit

-- What `read_indent` returns.
abbrev IndentOk : Lexer → Option Token × Lexer → Type 0
IndentOk s (none, s') = Advances s 0 s'
IndentOk s (some t, s') = Takes s t s'

read_indent-IndentOk : (s : Lexer) → IndentOk s (read_indent s)
unfolding read_indent
read_indent-IndentOk s =
    elim s.at_line_start
      as (λ b. IndentOk s (elim b [
        | true ↦
            let (blank, s₁) = scan is_indent s.rest s in
            let s₂ = record s₁ { at_line_start = false } in
            let n = indent_width blank in
            (
              if ltb 0 n && has_content s₂.rest
                  then some (token (T.indent n) (span s₂.line s.col n))
                  else none,
              s₂,
            )
        | false ↦ (none, s)
      ])) [
        | false ↦ Advances-nowhere s
        | true ↦
            let (blank, s₁) = scan is_indent s.rest s in
            let a = scan-Advances is_indent refl s.rest s refl in
            let a' : Advances s 0 (record s₁ { at_line_start = false }) = record {
              line = a.line;
              breaks = a.breaks;
              shorter = a.shorter;
            } in
            elim (Bool-cases (ltb 0 (indent_width blank) && has_content s₁.rest)) [
              | inr e ↦ rw e a'
              | inl e ↦ rw e (record {
                advances = a';
                strictly = λ _. omega (
                  arith,
                  scan-length is_indent s.rest s refl,
                  indent_width-pos blank (ltb→lt 0 (indent_width blank) (&&-true _ _ e).0),
                );
                ended = λ x. absurd (false≢true x);
              })
            ]
      ]

TakesOk-before :
    (s s' : Lexer) (r : Result LexError (Token × Lexer))
    → Advances s 0 s'
    → TakesOk s' r
    → TakesOk s r
TakesOk-before s s' (ok (t, s'')) a k = record {
  advances = record {
    line = omega (arith, a.line, k.advances.line);
    breaks = omega (arith, a.breaks, k.advances.breaks);
    shorter = omega (arith, a.shorter, k.advances.shorter);
  };
  strictly = λ e. omega (arith, a.shorter, k.strictly e);
  ended = k.ended;
}
TakesOk-before s s' (err e) a k = tt

TokenOk-TakesOk :
    (s : Lexer) (c : ℕ) (cs : Text) (r : Result LexError (Token × Lexer))
    → s.rest ≡ c ∷ cs
    → TokenOk c (step c cs s) r
    → TakesOk s r
TokenOk-TakesOk s c cs (ok (t, s')) h (n, f, a) =
    let b = step-Advances c cs s h in
    let m : break_token t.kind ≡ break_of c = rw n refl in
    record {
      advances = record {
        line = omega (arith, b.line, a.line, m);
        breaks = omega (arith, b.breaks, a.breaks, m);
        shorter = omega (arith, b.shorter, a.shorter);
      };
      strictly = λ _. omega (arith, ap length h, ap length (step-rest c cs s), a.shorter);
      ended = λ e. absurd (cc (e, f));
    }
TokenOk-TakesOk s c cs (err e) h k = tt

module _ (parse_f64 : Text → Option ℕ) where
  -- With more fuel than characters a token or an error is returned.
  next_token-TakesOk :
      (fuel : ℕ) (s : Lexer)
      → length s.rest < fuel
      → (r : Result LexError (Token × Lexer)) × (next_token parse_f64 fuel s ≡ some r) × TakesOk s r
  unfolding next_token
  next_token-TakesOk zero s h = absurd (omega arith)
  next_token-TakesOk (suc fuel) s h =
      indented (next_token-TakesOk fuel) (read_indent s) (read_indent-IndentOk s)
    where
      Goal : Option (Result LexError (Token × Lexer)) → Type 0
      Goal o = (r : Result LexError (Token × Lexer)) × (o ≡ some r) × TakesOk s r

      from : Lexer → Text → Option (Result LexError (Token × Lexer))
      from s₂ [] = some (ok (token T.eof (span s₂.line s₂.col 0), s₂))
      from s₂ (c ∷ cs) =
          let s₃ = step c cs s₂ in
          elim (c == b'#') [
            | true ↦ next_token parse_f64 fuel (skip_comment s₃)
            | false ↦ some (read_token parse_f64 s.at_line_start s₂.line s₂.col c s₃)
          ]

      Again : Type 0
      Again =
          (s' : Lexer)
          → length s'.rest < fuel
          → (r : Result LexError (Token × Lexer)) × (next_token parse_f64 fuel s' ≡ some r)
            × TakesOk s' r

      started :
          Again → (s₂ : Lexer) → Advances s 0 s₂ → (cs : Text) → s₂.rest ≡ cs → Goal (from s₂ cs)
      started again s₂ a [] e = (
        ok (token T.eof (span s₂.line s₂.col 0), s₂),
        refl,
        record {
          advances = a;
          strictly = λ x. absurd (false≢true (sym x));
          ended = λ _. (e, refl);
        },
      )
      started again s₂ a (c ∷ cs) e = elim (Bool-cases (c == b'#')) [
        | inl q ↦
            let s₃ = step c cs s₂ in
            let s₄ = skip_comment s₃ in
            let b = step-Advances c cs s₂ e in
            let d = skip_comment-Advances s₃ in
            let none_passed : break_of c ≡ 0 = ground (arith, q) in
            let (r, same, k) = again s₄ (
              omega (arith, h, a.shorter, ap length e, ap length (step-rest c cs s₂), d.shorter)) in
            (
              r,
              rw (q, from) same,
              TakesOk-before s s₄ r
                  (record {
                    line = omega (arith, a.line, b.line, d.line, none_passed);
                    breaks = omega (arith, a.breaks, b.breaks, d.breaks, none_passed);
                    shorter = omega (arith, a.shorter, b.shorter, d.shorter);
                  })
                  k,
            )
        | inr q ↦ (
          read_token parse_f64 s.at_line_start s₂.line s₂.col c (step c cs s₂),
          rw (q, from) refl,
          TakesOk-before s s₂ _ a (
              TokenOk-TakesOk s₂ c cs _ e
                (read_token-TokenOk parse_f64 s.at_line_start s₂.line s₂.col c (step c cs s₂))),
        )
      ]

      indented :
          Again
          → (x : Option Token × Lexer) → IndentOk s x
          → Goal (elim x.0 [
            | some t ↦ some (ok (t, x.1))
            | none ↦ from (skip_whitespace x.1) (skip_whitespace x.1).rest
          ])
      indented again (some t, s₁) k = (ok (t, s₁), refl, k)
      indented again (none, s₁) a =
          let b = skip_whitespace-Advances s₁ in
          started again (skip_whitespace s₁)
            (record {
              line = omega (arith, a.line, b.line);
              breaks = omega (arith, a.breaks, b.breaks);
              shorter = omega (arith, a.shorter, b.shorter);
            })
            (skip_whitespace s₁).rest refl

-- Only the last of the tokens is the end of the text, and it stands on line `n`.
abbrev pub EndsAt : ℕ → List Token → Type 0
EndsAt n [] = ⊥
EndsAt n (t ∷ []) = (is_eof t.kind ≡ true) × (t.span.line ≡ n)
EndsAt n (t ∷ u ∷ ts) = (is_eof t.kind ≡ false) × EndsAt n (u ∷ ts)

-- The line breaks among the tokens.
abbrev pub newline_tokens : List Token → ℕ
newline_tokens [] = 0
newline_tokens (t ∷ ts) = break_token t.kind + newline_tokens ts

-- What `lex` returns for `n` line breaks from line `l` on.
abbrev pub LexedOk : ℕ → ℕ → Result LexError (List Token) → Type 0
LexedOk l n (ok ts) = (newline_tokens ts ≡ n) × EndsAt (l + n) ts
LexedOk l n (err e) = Unit

LexedOk-before :
    (s s' : Lexer) (t : Token) (ts : List Token)
    → Takes s t s'
    → is_eof t.kind ≡ false
    → LexedOk s'.line (newlines s'.rest) (ok ts)
    → LexedOk s.line (newlines s.rest) (ok (t ∷ ts))
LexedOk-before s s' t [] k e h = absurd h.1
LexedOk-before s s' t (u ∷ ts) k e h = (
  omega (arith, h.0, k.advances.breaks),
  (e, subst (λ n. EndsAt n (u ∷ ts)) (omega (arith, k.advances.line, k.advances.breaks)) h.1),
)

LexedOk-last :
    (s s' : Lexer) (t : Token)
    → Takes s t s'
    → is_eof t.kind ≡ true
    → LexedOk s.line (newlines s.rest) (ok (t ∷ []))
LexedOk-last s s' t k e =
    let (nothing, line) = k.ended e in
    let z : newlines s'.rest ≡ 0 = ap newlines nothing in
    (
      omega (arith, k.advances.breaks, z),
      (e, omega (arith, line, k.advances.line, k.advances.breaks, z)),
    )

strip_bom-same :
    (source : Text)
    → (length (strip_bom source) ≤ length source) × (newlines (strip_bom source) ≡ newlines source)
unfolding strip_bom
strip_bom-same [] = (omega arith, refl)
strip_bom-same (c ∷ cs) = ground (arith, eq_iff c 0xfeff)

module _ (parse_f64 : Text → Option ℕ) where
  lex_from-LexedOk :
      (fuel : ℕ) (s : Lexer)
      → length s.rest < fuel
      → (r : Result LexError (List Token)) × (lex_from parse_f64 fuel s ≡ some r)
        × LexedOk s.line (newlines s.rest) r
  unfolding lex_from
  lex_from-LexedOk zero s h = absurd (omega arith)
  lex_from-LexedOk (suc fuel) s h =
      go (lex_from-LexedOk fuel)
        (next_token-TakesOk parse_f64 (suc (length s.rest)) s (omega arith))
    where
      Again : Type 0
      Again =
          (s' : Lexer)
          → length s'.rest < fuel
          → (r : Result LexError (List Token)) × (lex_from parse_f64 fuel s' ≡ some r)
            × LexedOk s'.line (newlines s'.rest) r

      go :
          Again
          → (r : Result LexError (Token × Lexer)) × (next_token parse_f64 (suc (length s.rest)) s
              ≡ some r)
            × TakesOk s r
          → (r : Result LexError (List Token)) × (lex_from parse_f64 (suc fuel) s ≡ some r)
            × LexedOk s.line (newlines s.rest) r
      go again (err e, same, k) = (err e, rw (same, lex_from) refl, tt)
      go again (ok (t, s'), same, k) = elim (Bool-cases (is_eof t.kind)) [
        | inl e ↦ (ok (t ∷ []), rw (same, e, lex_from) refl, LexedOk-last s s' t k e)
        | inr e ↦
            let (r, rest, l) = again s' (omega (arith, h, k.strictly e)) in
            elim r
                as (λ r'.
                  lex_from parse_f64 fuel s' ≡ some r'
                  → LexedOk s'.line (newlines s'.rest) r'
                  → (q : Result LexError (List Token)) × (lex_from parse_f64 (suc fuel) s ≡ some q)
                    × LexedOk s.line (newlines s.rest) q) [
                      | err x ↦ λ f m. (err x, rw (same, e, f, lex_from) refl, tt)
                      | ok ts ↦ λ f m. (
                        ok (t ∷ ts),
                        rw (same, e, f, lex_from) refl,
                        LexedOk-before s s' t ts k e m,
                      )
                    ]
              rest l
      ]

  -- `lex` returns for every text: its fuel suffices. If it returns tokens, then there is one line
  -- break token for each line break of the text, the last token is the only one for the end of the
  -- text, and that one stands on the line after all the line breaks.
  pub lex_correct :
      (source : Text)
      → (r : Result LexError (List Token)) × (lex parse_f64 source ≡ some r)
        × LexedOk 1 (newlines source) r
  unfolding lex new_lexer strip_bom
  lex_correct source =
      let (le, same) = strip_bom-same source in
      subst
        (λ n. (r : Result LexError (List Token)) × (lex parse_f64 source ≡ some r) × LexedOk 1 n r)
        same (lex_from-LexedOk (1 + length source) (new_lexer source) (omega (arith, le)))
