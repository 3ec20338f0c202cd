-- ===== src/Lexer/State.antt =====
-- compiler/src/lexer.rs: the state of the lexer, and how it moves on. `&mut self` is passed on.
use sigil_lang.Prelude.{
  ℕ, ◌+◌, Bool, true, false, ◌||◌, [], ◌∷◌, Text, nat_eq, text_eq, ◌==◌, length, if◌then◌else◌,
}
use sigil_lang.Ast.{Span}
use sigil_lang.Chars.{is_ascii_alphanumeric, utf8}
use sigil_lang.Lexer.Tokens.{Token, TokenKind}

pub record LexError : Type 0 where
  pub span : Span
  pub message : Text

-- `rest` is what `chars` has still to give.
pub record Lexer : Type 0 where
  pub rest : Text
  pub line : ℕ
  pub col : ℕ
  pub at_line_start : Bool
  pub in_description : Bool

unfoldable pub span : ℕ → ℕ → ℕ → Span
span l c n = record { line = l; col = c; len = n }

abbrev pub byte_len : Text → ℕ
byte_len t = length (utf8 t)

-- `Lexer::new`: a byte-order mark is stripped.
unfoldable pub strip_bom : Text → Text
strip_bom [] = []
strip_bom (c ∷ cs) = if c == 0xfeff then cs else c ∷ cs

unfoldable pub new_lexer : Text → Lexer
unfolding strip_bom
new_lexer source = record {
  rest = strip_bom source;
  line = 1;
  col = 1;
  at_line_start = true;
  in_description = false;
}

-- What `advance` does with the character that it returns.
unfoldable pub step : ℕ → Text → Lexer → Lexer
step c cs s = elim (c == b'\n') [
  | true ↦ record s { rest = cs; line = s.line + 1; col = 1; at_line_start = true }
  | false ↦ record s { rest = cs; col = s.col + 1 }
]

-- `while let Some(c) = self.peek() { if p(c) { text.push(c); self.advance(); } else { break } }`: the
-- text and the state after it. The second argument is `s.rest`.
unfoldable pub scan : (ℕ → Bool) → Text → Lexer → Text × Lexer
unfolding step
scan p [] s = ([], s)
scan p (c ∷ cs) s =
    let (t, s') = scan p cs (step c cs s) in elim (p c) [ true ↦ (c ∷ t, s') | false ↦ ([], s) ]

abbrev pub is_blank : ℕ → Bool
is_blank c = c == b' ' || c == b'\t' || c == b'\r'

unfoldable pub skip_whitespace : Lexer → Lexer
unfolding scan
skip_whitespace s = (scan is_blank s.rest s).1

abbrev pub is_ident_char : ℕ → Bool
is_ident_char c = is_ascii_alphanumeric c || c == b'_' || c == b'-'

unfoldable pub read_identifier : ℕ → Lexer → Text × Lexer
unfolding scan
read_identifier first s = let (t, s') = scan is_ident_char s.rest s in (first ∷ t, s')

unfoldable pub lex_error : Span → Text → LexError
lex_error s m = record { span = s; message = m }

abbrev pub token : TokenKind → Span → Token
token k s = record { kind = k; span = s }
