-- ===== src/Lexer/Lex.antt =====
-- compiler/src/lexer.rs: numbers, the next token, and `lex`. `parse::<f64>` is an argument: a text to
-- the bits of a float, if it is one.
use sigil_lang.Prelude.{
  ℕ, zero, suc, ◌+◌, Bool, true, false, ◌&&◌, ◌||◌, Option, none, some, List, [], ◌∷◌, ◌++◌, Text,
  codes, nat_eq, text_eq, ◌==◌, lookup, length, Result, ok, err, ◌>>=◌,
}
use sigil_lang.Ast.{Span}
use sigil_lang.Chars.{is_ascii_digit, is_ascii_hexdigit, is_ascii_alphabetic}
use sigil_lang.Lexer.Tokens as T
use sigil_lang.Lexer.Tokens.{Token, TokenKind, keyword_or_ident}
use sigil_lang.Lexer.Numbers.{parse_i64, parse_u64_hex}
use sigil_lang.Lexer.State.{
  LexError, lex_error, Lexer, new_lexer, span, byte_len, token, step, scan, skip_whitespace,
}
use sigil_lang.Lexer.Readers.{
  read_decimal, starts_with_x, after_x, read_string, punctuation, read_word, read_indent,
  skip_comment,
}

abbrev pub is_eof : TokenKind → Bool
is_eof T.eof = true
is_eof _ = false

unfoldable pub hex_token : Text → Span → Result LexError Token
unfolding lex_error
hex_token [] s = err (lex_error s (codes "Expected hex digits after 0x"))
hex_token (d ∷ ds) s = elim (parse_u64_hex (d ∷ ds)) [
  | some n ↦ ok (token (T.integer n) s)
  | none ↦ err (lex_error s (codes "Invalid hex literal: 0x" ++ (d ∷ ds)))
]

module _ (parse_f64 : Text → Option ℕ) where
  -- What is made of the text of a number.
  unfoldable pub number_token : Text → Bool → Span → Result LexError Token
  unfolding lex_error
  number_token num true s = elim (parse_f64 num) [
    | some f ↦ ok (token (T.float_lit f) s)
    | none ↦ err (lex_error s (codes "Invalid float literal: " ++ num))
  ]
  number_token num false s = elim (parse_i64 num) [
    | some n ↦ ok (token (T.integer n) s)
    | none ↦ err (lex_error s (codes "Invalid integer literal: " ++ num))
  ]

  unfoldable pub read_number : ℕ → ℕ → Lexer → Result LexError (Token × Lexer)
  unfolding scan read_decimal span
  read_number first start_col s = elim (first == b'0' && starts_with_x s.rest) [
    | true ↦
        let s₁ = after_x s in
        let (digits, s₂) = scan is_ascii_hexdigit s₁.rest s₁ in
        (hex_token digits (span s.line start_col (byte_len (codes "0x" ++ digits))) >>= λ t.
        ok (t, s₂))
    | false ↦
        let (digits, is_float, s₁) = read_decimal false s.rest s in
        (number_token (first ∷ digits) is_float (span s.line start_col (byte_len (first ∷ digits)))
          >>= λ t. ok (t, s₁))
  ]

  -- A minus sign has been read.
  unfoldable pub read_minus : ℕ → ℕ → Lexer → Result LexError (Token × Lexer)
  unfolding read_number step span
  read_minus l k s = elim s.rest [
    | [] ↦ ok (token (T.raw_text (codes "-")) (span l k 1), s)
    | c ∷ cs ↦ elim (c == b'>') [
      | true ↦ ok (token T.arrow (span l k 2), step c cs s)
      | false ↦ elim (is_ascii_digit c) [
        | true ↦ read_number b'-' k s
        | false ↦ ok (token (T.raw_text (codes "-")) (span l k 1), s)
      ]
    ]
  ]

  -- The `match` on the character `c` that was read at `l` and `k`, but for a comment.
  unfoldable pub read_token : Bool → ℕ → ℕ → ℕ → Lexer → Result LexError (Token × Lexer)
  unfolding read_string read_minus read_number read_word span
  read_token was l k c s = elim (c == b'\n') [
    | true ↦ ok (token T.newline (span l k 1), s)
    | false ↦ elim (c == b'"') [
      | true ↦ elim s.in_description [
        | true ↦ ok (token (T.raw_text (c ∷ [])) (span l k 1), s)
        | false ↦ read_string k s
      ]
      | false ↦ elim (lookup c punctuation) [
        | some kind ↦ ok (token kind (span l k 1), s)
        | none ↦ elim (c == b'-') [
          | true ↦ read_minus l k s
          | false ↦ elim (is_ascii_digit c) [
            | true ↦ read_number c k s
            | false ↦ elim (is_ascii_alphabetic c || c == b'_') [
              | true ↦ ok (read_word was k c s)
              | false ↦ ok (token (T.raw_text (c ∷ [])) (span l k 1), s)
            ]
          ]
        ]
      ]
    ]
  ]

  -- `none` if the fuel runs out; each comment takes one.
  unfoldable pub next_token : ℕ → Lexer → Option (Result LexError (Token × Lexer))
  unfolding read_indent skip_whitespace step skip_comment read_token span
  next_token zero s = none
  next_token (suc fuel) s =
      let (indentation, s₁) = read_indent s in
      elim indentation [
        | some t ↦ some (ok (t, s₁))
        | none ↦
            let s₂ = skip_whitespace s₁ in
            elim s₂.rest [
              | [] ↦ some (ok (token T.eof (span s₂.line s₂.col 0), s₂))
              | c ∷ cs ↦
                  let s₃ = step c cs s₂ in
                  elim (c == b'#') [
                    | true ↦ next_token fuel (skip_comment s₃)
                    | false ↦ some (read_token s.at_line_start s₂.line s₂.col c s₃)
                  ]
            ]
      ]

  -- The loop of `lex`: the tokens from here on. Each token takes one of the fuel.
  unfoldable pub lex_from : ℕ → Lexer → Option (Result LexError (List Token))
  unfolding next_token
  lex_from zero s = none
  lex_from (suc fuel) s = elim (next_token (suc (length s.rest)) s) [
    | none ↦ none
    | some (err e) ↦ some (err e)
    | some (ok (t, s')) ↦ elim (is_eof t.kind) [
      | true ↦ some (ok (t ∷ []))
      | false ↦ elim (lex_from fuel s') [
        | none ↦ none
        | some (err e) ↦ some (err e)
        | some (ok ts) ↦ some (ok (t ∷ ts))
      ]
    ]
  ]

  unfoldable pub lex : Text → Option (Result LexError (List Token))
  unfolding lex_from new_lexer
  lex source = lex_from (1 + length source) (new_lexer source)
