-- ===== src/Parser/Descriptions.antt =====
-- compiler/src/parser.rs, `parse_description`: the tokens up to the next section are passed, and the
-- text is cut out of the source by their lines. A column of the source is a code point here.
use sigil_lang.Prelude.{
  ℕ, zero, suc, ◌+◌, ◌-◌, Bool, true, false, ◌&&◌, ◌||◌, Option, none, some, List, [], ◌∷◌, ◌++◌,
  Text, leb, ◌==◌, nat_eq, get_elem?, if◌then◌else◌, ok,
}
use sigil_lang.Ast.{Span}
use sigil_lang.Lexer.Tokens.{Token, TokenKind}
use sigil_lang.Parser.Cursor.{peek, skip_newlines}
use sigil_lang.Parser.Outcome.{Parser}

unfoldable pub starts_section : TokenKind → Bool
starts_section TokenKind.contract = true
starts_section TokenKind.hash = true
starts_section TokenKind.implementation = true
starts_section TokenKind.composition = true
starts_section TokenKind.native = true
starts_section TokenKind.end = true
starts_section TokenKind.eof = true
starts_section TokenKind.entry = true
starts_section TokenKind.uses = true
starts_section TokenKind.end_executable = true
starts_section _ = false

-- What one token does to the scan: where the text ends, and whether a line starts.
unfoldable pub scan_token : TokenKind → Span → Span → Bool → Option (Span × Bool)
scan_token TokenKind.eof here last at_line_start = none
scan_token TokenKind.newline here last at_line_start = some (here, true)
scan_token (TokenKind.indent _) here last at_line_start = some (last, at_line_start)
scan_token _ here last at_line_start = some (here, false)

-- The loop over the tokens. `last` is the span of the last token of the text.
unfoldable pub scan_description : Bool → Span → List Token → Span × List Token
unfolding scan_token starts_section
scan_description at_line_start last [] = (last, [])
scan_description at_line_start last (t ∷ ts) = elim (at_line_start && starts_section t.kind) [
  | true ↦ (last, t ∷ ts)
  | false ↦ elim (scan_token t.kind t.span last at_line_start) [
    | none ↦ (last, t ∷ ts)
    | some (last', start) ↦ scan_description start last' ts
  ]
]

-- `str::lines`: without the line breaks, and without a last line that is empty.
unfoldable pub without_cr : Text → Text
without_cr [] = []
without_cr (c ∷ []) = if c == b'\r' then [] else c ∷ []
without_cr (c ∷ d ∷ cs) = c ∷ without_cr (d ∷ cs)

-- `here` is the part of the current line that was passed.
unfoldable pub split_lines : Text → Text → List Text
unfolding without_cr
split_lines here [] = elim here [ [] ↦ [] | c ∷ cs ↦ (c ∷ cs) ∷ [] ]
split_lines here (c ∷ cs) = elim (c == b'\n') [
  | true ↦ without_cr here ∷ split_lines [] cs
  | false ↦ split_lines (here ++ (c ∷ [])) cs
]

unfoldable pub lines : Text → List Text
unfolding split_lines
lines = split_lines []

-- The first two spaces of a line are cut off.
unfoldable pub without_indent : Text → Text
without_indent (c ∷ d ∷ cs) = if c == b' ' && d == b' ' then cs else c ∷ d ∷ cs
without_indent cs = cs

abbrev pub is_nil : Text → Bool
is_nil [] = true
is_nil (_ ∷ _) = false

-- `lines[line_num - 1]`, where there is such a line.
unfoldable pub nth_line : List Text → ℕ → Option Text
nth_line ls zero = none
nth_line ls (suc i) = get_elem? ls i

unfoldable pub add_line : Text → Option Text → Text
unfolding without_indent
add_line desc none = desc
add_line desc (some l) = if is_nil desc then without_indent l else desc ++ (10 ∷ without_indent l)

-- The loop over `count` lines from `line_num`.
unfoldable pub collect_lines : List Text → ℕ → ℕ → Text → Text
unfolding add_line nth_line
collect_lines ls zero line_num desc = desc
collect_lines ls (suc count) line_num desc =
    collect_lines ls count (line_num + 1) (add_line desc (nth_line ls line_num))

-- `char::is_whitespace`.
abbrev pub is_whitespace : ℕ → Bool
is_whitespace c =
    (leb 9 c && leb c 13)
    || c == 32
    || c == 0x85
    || c == 0xa0
    || c == 0x1680
    || (leb 0x2000 c && leb c 0x200a)
    || c == 0x2028
    || c == 0x2029
    || c == 0x202f
    || c == 0x205f
    || c == 0x3000

-- `str::trim`.
unfoldable pub trim_start : Text → Text
trim_start [] = []
trim_start (c ∷ cs) = let rest = trim_start cs in if is_whitespace c then rest else c ∷ cs

unfoldable pub trim_end : Text → Text
trim_end [] = []
trim_end (c ∷ cs) =
    let rest = trim_end cs in if is_nil rest && is_whitespace c then [] else c ∷ rest

unfoldable pub parse_description : Text → Parser Text
unfolding scan_description lines collect_lines trim_start trim_end skip_newlines peek
parse_description source ts =
    let us = skip_newlines ts in
    let start = (peek us).span in
    let (last, rest) = scan_description true start us in
    some (
      ok (
        trim_end
            (trim_start (collect_lines (lines source) (last.line + 1 - start.line) start.line [])),
        rest,
      ))
