-- ===== src/Parser/Cursor.antt =====
-- compiler/src/parser.rs: the position in the tokens, as the list of those that are still to come.
use sigil_lang.Prelude.{List, [], ◌∷◌}
use sigil_lang.Lexer.Tokens.{Token, TokenKind, eof, newline, indent}

abbrev pub eof_token : Token
eof_token = record { kind = eof; span = record { line = 0; col = 0; len = 0 } }

unfoldable pub peek : List Token → Token
peek [] = eof_token
peek (t ∷ ts) = t

abbrev pub peek_kind : List Token → TokenKind
unfolding peek
peek_kind ts = (peek ts).kind

-- The end is never passed.
abbrev pub advance_over : TokenKind → List Token → List Token → List Token
advance_over eof here after = here
advance_over _ here after = after

unfoldable pub advance : List Token → List Token
advance [] = []
advance (t ∷ ts) = advance_over t.kind (t ∷ ts) ts

unfoldable pub skip_newlines : List Token → List Token
skip_newlines [] = []
skip_newlines (t ∷ ts) =
    let rest = skip_newlines ts in elim t.kind [ newline ↦ rest | indent _ ↦ rest | _ ↦ t ∷ ts ]
