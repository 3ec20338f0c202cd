-- ===== src/Lexer/Readers.antt =====
-- compiler/src/lexer.rs: the readers of one kind of token.
use sigil_lang.Prelude.{
  ℕ, ◌+◌, ◌-◌, Bool, true, false, not, ◌&&◌, ◌||◌, Option, none, some, [], ◌∷◌, ◌++◌, Text, codes,
  Map, nat_eq, text_eq, ◌==◌, ltb, Result, ok, err, if◌then◌else◌, ◌>>=◌,
}
use sigil_lang.Chars.{is_ascii_digit}
use sigil_lang.Lexer.Tokens as T
use sigil_lang.Lexer.Tokens.{Token, TokenKind, keyword_or_ident}
use sigil_lang.Lexer.State.{
  LexError, lex_error, Lexer, span, byte_len, token, step, scan, read_identifier,
}

-- Digits and at most one dot: the text, whether a dot was read, and the state.
unfoldable pub read_decimal : Bool → Text → Lexer → Text × Bool × Lexer
unfolding step
read_decimal is_float [] s = ([], is_float, s)
read_decimal is_float (c ∷ cs) s = elim (is_ascii_digit c) [
  | true ↦ let (t, f, s') = read_decimal is_float cs (step c cs s) in (c ∷ t, f, s')
  | false ↦ elim (c == b'.' && not is_float) [
    | true ↦ let (t, f, s') = read_decimal true cs (step c cs s) in (c ∷ t, f, s')
    | false ↦ ([], is_float, s)
  ]
]

abbrev pub starts_with_x : Text → Bool
starts_with_x (c ∷ _) = c == b'x'
starts_with_x [] = false

abbrev pub after_x : Lexer → Lexer
unfolding step
after_x s = elim s.rest [ [] ↦ s | c ∷ cs ↦ step c cs s ]

-- The character that an escape sequence stands for.
abbrev pub escape : ℕ → Option ℕ
escape c =
    if c == b'n'
    then some b'\n'
    else if c == b'r'
    then some b'\r'
    else if c == b't'
    then some b'\t'
    else if c == b'\\' || c == b'"'
    then some c
    else none

abbrev pub unterminated : ℕ → ℕ → LexError
unfolding lex_error span
unterminated l c = lex_error (span l c 1) (codes "Unterminated string literal")

-- The loop of `read_string`, from the start of the literal and `s.rest`.
unfoldable pub read_chars : ℕ → ℕ → Text → Lexer → Result LexError (Text × Lexer)
unfolding step lex_error span
read_chars l k [] s = err (unterminated l k)
read_chars l k (c ∷ []) s = elim (c == b'"') [
  | true ↦ ok ([], step c [] s)
  | false ↦ elim (c == b'\n') [
    | true ↦ err (lex_error (span l k 1) (codes "Unterminated string literal (newline in string)"))
    | false ↦ err (unterminated l k)
  ]
]
read_chars l k (c ∷ d ∷ ds) s = elim (c == b'"') [
  | true ↦ ok ([], step c (d ∷ ds) s)
  | false ↦ elim (c == b'\\') [
    | true ↦
        let s' = step d ds (step c (d ∷ ds) s) in
        elim (escape d) [
          | some x ↦ read_chars l k ds s' >>= λ (t, s''). ok (x ∷ t, s'')
          | none ↦ err (
              lex_error (span s'.line (s'.col - 1) 2)
                (codes "Invalid escape sequence: \\" ++ (d ∷ [])))
        ]
    | false ↦ elim (c == b'\n') [
      | true ↦
          err (lex_error (span l k 1) (codes "Unterminated string literal (newline in string)"))
      | false ↦ read_chars l k (d ∷ ds) (step c (d ∷ ds) s) >>= λ (t, s''). ok (c ∷ t, s'')
    ]
  ]
]

unfoldable pub read_string : ℕ → Lexer → Result LexError (Token × Lexer)
unfolding read_chars span
read_string start_col s = read_chars s.line start_col s.rest s >>= λ (t, s').
    ok (token (T.string_lit t) (span s.line start_col (byte_len t + 2)), s')

-- The kinds of token that are one character.
abbrev pub punctuation : Map ℕ TokenKind
punctuation =
    (b'=', T.equals)
    ∷ (b':', T.colon)
    ∷ (b'@', T.at)
    ∷ (b'[', T.left_bracket)
    ∷ (b']', T.right_bracket)
    ∷ (b',', T.comma)
    ∷ (b'.', T.dot)
    ∷ []

-- The section keywords, which end a description at the start of a line.
abbrev pub ends_description : TokenKind → Bool
ends_description T.contract = true
ends_description T.hash = true
ends_description T.implementation = true
ends_description T.composition = true
ends_description T.native = true
ends_description T.end = true
ends_description T.entry = true
ends_description T.uses = true
ends_description T.end_executable = true
ends_description _ = false

abbrev pub is_description : TokenKind → Bool
is_description T.description = true
is_description _ = false

-- A description starts or ends.
abbrev pub note_section : Bool → TokenKind → Lexer → Lexer
note_section was k s =
    if is_description k
    then record s { in_description = true }
    else if ends_description k && was
    then record s { in_description = false }
    else s

unfoldable pub read_word : Bool → ℕ → ℕ → Lexer → Token × Lexer
unfolding read_identifier keyword_or_ident span
read_word was start_col c s =
    let (word, s') = read_identifier c s in
    let t = keyword_or_ident word (span s.line start_col (byte_len word)) in
    (t, note_section was t.kind s')

abbrev pub starts_with_digit : Text → Bool
starts_with_digit (c ∷ _) = is_ascii_digit c
starts_with_digit [] = false

-- Space and tab, as they count in an indentation.
abbrev pub is_indent : ℕ → Bool
is_indent c = c == b' ' || c == b'\t'

abbrev pub indent_width : Text → ℕ
indent_width [] = 0
indent_width (c ∷ cs) = (if c == b' ' then 1 else 2) + indent_width cs

-- A line has something else than a comment.
abbrev pub has_content : Text → Bool
has_content (c ∷ _) = not (c == b'\n') && not (c == b'#')
has_content [] = false

unfoldable pub read_indent : Lexer → Option Token × Lexer
unfolding scan span
read_indent s = elim s.at_line_start [
  | true ↦
      let (blank, s₁) = scan is_indent s.rest s in
      let s₂ = record s₁ { at_line_start = false } in
      let n = indent_width blank in
      (
        if ltb 0 n && has_content s₂.rest
            then some (token (T.indent n) (span s₂.line s.col n))
            else none,
        s₂,
      )
  | false ↦ (none, s)
]

unfoldable pub skip_comment : Lexer → Lexer
unfolding scan
skip_comment s = (scan (λ c. not (c == b'\n')) s.rest s).1
