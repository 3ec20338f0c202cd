-- ===== src/Lexer/Lines/Tokens.antt =====
-- Each token, and all tokens of a text.
use mathlib.Core.Path.{subst}
use mathlib.Core.Option.{some-injective}
use sigil_lang.Prelude.{
  ℕ, ◌+◌, ◌≡◌, refl, sym, ◌∙◌, inl, inr, Bool, true, false, not, ◌&&◌, ◌||◌, Option, some, [], ◌∷◌,
  arith, Text, codes, text_eq, nat_eq, ◌==◌, lookup, Map, all, Result, ok, err, ◌>>=◌, Bool-cases,
  Option-cases, &&-true, ||-false, Eq,
}
use sigil_lang.Ast.{Span}
use sigil_lang.Chars.{is_ascii_digit, is_ascii_hexdigit, is_ascii_alphabetic}
use sigil_lang.Lexer.Tokens as T
use sigil_lang.Lexer.Tokens.{Token, TokenKind, keywords, keyword_or_ident}
use sigil_lang.Lexer.Numbers.{parse_i64, parse_u64_hex}
use sigil_lang.Lexer.State.{LexError, Lexer, step, scan, span, byte_len, token, read_identifier}
use sigil_lang.Lexer.Readers.{
  read_decimal, after_x, starts_with_x, read_string, read_chars, read_word, punctuation,
}
use sigil_lang.Lexer.Lex.{is_eof, number_token, hex_token, read_number, read_minus, read_token}
use sigil_lang.Lexer.Lines.Readers.{
  Advances, Advances-nowhere, Advances-then, scan-Advances, AdvancesOk, read_decimal-Advances,
  after_x-Advances, read_word-Advances, read_chars-AdvancesOk, step-before,
}

abbrev pub is_newline : TokenKind → Bool
is_newline T.newline = true
is_newline _ = false

-- Neither a line break nor the end.
abbrev pub IsPlain : TokenKind → Type 0
IsPlain k = (is_newline k || is_eof k) ≡ false

-- A reader that succeeds gives a plain token and has passed no line break.
abbrev PlainOk : Lexer → Result LexError (Token × Lexer) → Type 0
PlainOk s (ok (t, s')) = IsPlain t.kind × Advances s 0 s'
PlainOk s (err e) = Unit

lookup-all {ℓ} :
    {K : Type ℓ} ⦃e : Eq K⦄ (p : TokenKind → Bool) (m : Map K TokenKind) (k : K) (v : TokenKind)
    → all (λ x. p x.1) m ≡ true
    → lookup k m ≡ some v
    → p v ≡ true
unfolding lookup
lookup-all p [] k v h l = absurd (cc)
lookup-all p ((j, w) ∷ m) k v h l = elim (Bool-cases (j == k)) [
  | inl e ↦ subst (λ x. p x ≡ true) (some-injective w v (rw (e, lookup) at l)) (&&-true (p w) _ h).0
  | inr e ↦ lookup-all p m k v (&&-true (p w) _ h).1 (rw (e, lookup) at l)
]

keyword-IsPlain : (w : Text) (s : Span) → IsPlain (keyword_or_ident w s).kind
unfolding keyword_or_ident
keyword-IsPlain w s = elim (Option-cases (lookup w keywords)) [
  | inl e ↦ rw (e, keyword_or_ident) refl
  | inr (k, e) ↦
      rw (e, keyword_or_ident)
        (ground (arith, lookup-all (λ x. not (is_newline x || is_eof x)) keywords w k refl e))
]

-- A token is a line break exactly if its first character is one; it is not the end.
abbrev pub TokenOk : ℕ → Lexer → Result LexError (Token × Lexer) → Type 0
TokenOk c s (ok (t, s')) =
    (is_newline t.kind ≡ (c == b'\n')) × (is_eof t.kind ≡ false) × Advances s 0 s'
TokenOk c s (err e) = Unit

PlainOk-TokenOk :
    (c : ℕ) (s : Lexer) (r : Result LexError (Token × Lexer))
    → (c == b'\n') ≡ false
    → PlainOk s r
    → TokenOk c s r
PlainOk-TokenOk c s (ok (t, s')) e h =
    let (n, f) = ||-false (is_newline t.kind) (is_eof t.kind) h.0 in (n ∙ sym e, f, h.1)
PlainOk-TokenOk c s (err x) e h = tt

-- What is made of a text that was read.
abbrev PlainMade : Result LexError Token → Type 0
PlainMade (ok t) = IsPlain t.kind
PlainMade (err e) = Unit

PlainMade-PlainOk :
    (s s' : Lexer) (m : Result LexError Token)
    → PlainMade m
    → Advances s 0 s'
    → PlainOk s (m >>= λ t. ok (t, s'))
PlainMade-PlainOk s s' (ok t) p a = (p, a)
PlainMade-PlainOk s s' (err e) p a = tt

hex_token-PlainMade : (ds : Text) (s : Span) → PlainMade (hex_token ds s)
unfolding hex_token
hex_token-PlainMade [] s = tt
hex_token-PlainMade (d ∷ ds) s = elim (Option-cases (parse_u64_hex (d ∷ ds))) [
  | inl e ↦ rw (e, hex_token) tt
  | inr (n, e) ↦ rw (e, hex_token) refl
]

read_string-PlainOk : (k : ℕ) (s : Lexer) → PlainOk s (read_string k s)
unfolding read_string
read_string-PlainOk k s =
    go (read_chars s.line k s.rest s) (read_chars-AdvancesOk s.line k s.rest s refl)
  where
    go :
        (r : Result LexError (Text × Lexer))
        → AdvancesOk s r
        → PlainOk s
            (r >>= λ (t, s'). ok (token (T.string_lit t) (span s.line k (byte_len t + 2)), s'))
    go (ok (t, s')) a = (refl, a)
    go (err e) a = tt

read_word-IsPlain : (was : Bool) (k c : ℕ) (s : Lexer) → IsPlain (read_word was k c s).0.kind
unfolding read_word
read_word-IsPlain was k c s =
    keyword-IsPlain (read_identifier c s).0 (span s.line k (byte_len (read_identifier c s).0))

module _ (parse_f64 : Text → Option ℕ) where
  number_token-PlainMade :
      (n : Text) (f : Bool) (s : Span) → PlainMade (number_token parse_f64 n f s)
  unfolding number_token
  number_token-PlainMade n true s = elim (Option-cases (parse_f64 n)) [
    | inl e ↦ rw (e, number_token) tt
    | inr (x, e) ↦ rw (e, number_token) refl
  ]
  number_token-PlainMade n false s = elim (Option-cases (parse_i64 n)) [
    | inl e ↦ rw (e, number_token) tt
    | inr (x, e) ↦ rw (e, number_token) refl
  ]

  read_number-PlainOk : (c k : ℕ) (s : Lexer) → PlainOk s (read_number parse_f64 c k s)
  unfolding read_number
  read_number-PlainOk c k s = elim (Bool-cases (c == b'0' && starts_with_x s.rest)) [
    | inl e ↦
        let s₁ = after_x s in
        rw (e, read_number)
          (PlainMade-PlainOk s (scan is_ascii_hexdigit s₁.rest s₁).1 _ (hex_token-PlainMade _ _) (
            Advances-then (after_x-Advances s (&&-true (c == b'0') _ e).1)
              (scan-Advances is_ascii_hexdigit refl s₁.rest s₁ refl)))
    | inr e ↦
        rw (e, read_number)
          (PlainMade-PlainOk s (read_decimal false s.rest s).2 _ (number_token-PlainMade _ _ _)
            (read_decimal-Advances false s.rest s refl))
  ]

  read_minus-PlainOk : (l k : ℕ) (s : Lexer) → PlainOk s (read_minus parse_f64 l k s)
  unfolding read_minus
  read_minus-PlainOk l k s = go s.rest refl
    where
      minus : Result LexError (Token × Lexer)
      minus = ok (token (T.raw_text (codes "-")) (span l k 1), s)

      go :
          (cs : Text)
          → s.rest ≡ cs
          → PlainOk s (elim cs [
            | [] ↦ minus
            | c ∷ cs' ↦ elim (c == b'>') [
              | true ↦ ok (token T.arrow (span l k 2), step c cs' s)
              | false ↦ elim (is_ascii_digit c) [
                | true ↦ read_number parse_f64 b'-' k s
                | false ↦ minus
              ]
            ]
          ])
      go [] e = (refl, Advances-nowhere s)
      go (c ∷ cs) e = elim (Bool-cases (c == b'>')) [
        | inl q ↦
            rw q (refl, step-before c cs s e (ground (arith, q)) (Advances-nowhere (step c cs s)))
        | inr q ↦ elim (Bool-cases (is_ascii_digit c)) [
          | inl d ↦ rw (q, d) (read_number-PlainOk b'-' k s)
          | inr d ↦ rw (q, d) (refl, Advances-nowhere s)
        ]
      ]

  read_other-PlainOk :
      (was : Bool) (l k c : ℕ) (s : Lexer)
      → (c == b'\n') ≡ false
      → PlainOk s (read_token parse_f64 was l k c s)
  unfolding read_token
  read_other-PlainOk was l k c s e = elim (Bool-cases (c == b'"')) [
    | inl q ↦
        rw (e, q, read_token)
          (elim s.in_description
            as (λ b. PlainOk s (elim b [
              | true ↦ ok (token (T.raw_text (c ∷ [])) (span l k 1), s)
              | false ↦ read_string k s
            ])) [ true ↦ (refl, Advances-nowhere s) | false ↦ read_string-PlainOk k s ])
    | inr q ↦ elim (Option-cases (lookup c punctuation)) [
      | inr (kind, p) ↦
          rw (e, q, p, read_token)
            (
              ground (
                arith,
                lookup-all (λ x. not (is_newline x || is_eof x)) punctuation c kind refl p,
              ),
              Advances-nowhere s,
            )
      | inl p ↦ elim (Bool-cases (c == b'-')) [
        | inl m ↦ rw (e, q, p, m, read_token) (read_minus-PlainOk l k s)
        | inr m ↦ elim (Bool-cases (is_ascii_digit c)) [
          | inl d ↦ rw (e, q, p, m, d, read_token) (read_number-PlainOk c k s)
          | inr d ↦ elim (Bool-cases (is_ascii_alphabetic c || c == b'_')) [
            | inl a ↦
                rw (e, q, p, m, d, a, read_token)
                  (read_word-IsPlain was k c s, read_word-Advances was k c s)
            | inr a ↦ rw (e, q, p, m, d, a, read_token) (refl, Advances-nowhere s)
          ]
        ]
      ]
    ]
  ]

  pub read_token-TokenOk :
      (was : Bool) (l k c : ℕ) (s : Lexer) → TokenOk c s (read_token parse_f64 was l k c s)
  unfolding read_token
  read_token-TokenOk was l k c s = elim (Bool-cases (c == b'\n')) [
    | inl e ↦ rw (e, read_token) (sym e, refl, Advances-nowhere s)
    | inr e ↦ PlainOk-TokenOk c s _ e (read_other-PlainOk was l k c s e)
  ]
