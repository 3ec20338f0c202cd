-- ===== src/Examples/Texts.antt =====
-- A concrete source text for the theorems on `Lexer`.
use sigil_lang.Prelude.{
  ℕ, ◌≡◌, refl, Option, none, some, List, [], ◌∷◌, Text, codes, lookup, text_beq, Result, ok,
}
use sigil_lang.Lexer.Tokens.{Token, identifier, newline, eof, keyword_or_ident}
use sigil_lang.Lexer.State.{
  LexError, new_lexer, strip_bom, scan, step, skip_whitespace, read_identifier, span,
}
use sigil_lang.Lexer.Readers.{read_indent, read_word}
use sigil_lang.Source.{new_source, line_count, get_line}
use sigil_lang.Source.Lines.{get_line-lines}
use sigil_lang.Source.Numbering.{EndsOn, lex-line_count}
use sigil_lang.Chars.{utf8}
use sigil_lang.Lexer.Lex.{lex, lex_from, next_token, read_token}
use sigil_lang.Lexer.Lines.All.{LexedOk, lex_correct}

-- A reader that knows no float.
abbrev no_floats : Text → Option ℕ
no_floats t = none

abbrev source : Text
source = codes "HASH 0a1b # pin\n  x = \"a\\n\"\n"

lex_correct_example :
    (r : Result LexError (List Token)) × (lex no_floats source ≡ some r) × LexedOk 1 2 r
lex_correct_example = lex_correct no_floats source

get_line-lines_example :
    (get_line (new_source [] source) 0 ≡ none)
    × (get_line (new_source [] source) 2 ≡ some (codes "  x = \"a\\n\""))
unfolding utf8
get_line-lines_example = get_line-lines [] source 1

-- A word, the end of its line and the end of the text.
abbrev word : Text
word = codes "a\n"

abbrev word_tokens : List Token
word_tokens =
    record { kind = identifier (codes "a"); span = record { line = 1; col = 1; len = 1 } }
    ∷ record { kind = newline; span = record { line = 1; col = 2; len = 1 } }
    ∷ record { kind = eof; span = record { line = 2; col = 1; len = 0 } }
    ∷ []

lexes_word : lex no_floats word ≡ some (ok word_tokens)
unfolding lex lex_from new_lexer strip_bom next_token read_indent scan step skip_whitespace
    read_token read_word read_identifier keyword_or_ident lookup text_beq span utf8
lexes_word = refl

lex-line_count_example : EndsOn (line_count (new_source [] word)) (ok word_tokens)
lex-line_count_example = lex-line_count no_floats [] word (ok word_tokens) lexes_word
