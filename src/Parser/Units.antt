-- ===== src/Parser/Units.antt =====
-- compiler/src/parser.rs: patterns, libraries and executables, and the entry points.
pub mod Total
use sigil_lang.Prelude.{
  ℕ, zero, suc, ◌+◌, Bool, true, false, Option, none, some, List, [], ◌∷◌, ◌++◌, Text, codes,
  length, ok, ◌==◌, text_eq,
}
use sigil_lang.Ast.{Nodes, end, next, Behavior, MemoryDecl, Pattern, Library, Executable}
use sigil_lang.Lexer.Tokens.{Token, TokenKind}
use sigil_lang.Parser.Cursor.{peek, advance, skip_newlines}
use sigil_lang.Parser.Errors.{in_pattern, in_library, in_executable, uses_extension}
use sigil_lang.Parser.References.{word_of}
use sigil_lang.Parser.Outcome.{Outcome, Parser, ◌>>=◌, continue, return, fail}
use sigil_lang.Parser.Sections.{after_keyword, parse_sections}
use sigil_lang.Parser.Words.{expect, expect_identifier, parse_type, parse_integer}
use sigil_lang.Parser.Statements.{parse_nodes}
use sigil_lang.Parser.Descriptions.{parse_description}
use sigil_lang.Parser.Behaviors.{parse_behavior}

-- `push`, for each statement.
abbrev pub append_nodes : Nodes → Nodes → Nodes
append_nodes end ms = ms
append_nodes (next n ns) ms = next n (append_nodes ns ms)

abbrev pub is_pattern : TokenKind → Bool
is_pattern TokenKind.pattern_keyword = true
is_pattern _ = false

abbrev pub is_library : TokenKind → Bool
is_library TokenKind.library = true
is_library _ = false

abbrev pub is_executable : TokenKind → Bool
is_executable TokenKind.executable = true
is_executable _ = false

abbrev pub is_dot : TokenKind → Bool
is_dot TokenKind.dot = true
is_dot _ = false

-- The tests of the loops over statements.
unfoldable pub ends_on_create : TokenKind → Bool
ends_on_create TokenKind.on_destroy = true
ends_on_create TokenKind.behavior = true
ends_on_create TokenKind.end_pattern = true
ends_on_create TokenKind.eof = true
ends_on_create _ = false

unfoldable pub ends_on_destroy : TokenKind → Bool
ends_on_destroy TokenKind.end_pattern = true
ends_on_destroy TokenKind.eof = true
ends_on_destroy _ = false

unfoldable pub ends_entry : TokenKind → Bool
ends_entry TokenKind.end_executable = true
ends_entry TokenKind.eof = true
ends_entry _ = false

-- Each declaration takes one unit of fuel.
unfoldable pub parse_memory_within : ℕ → Parser (List MemoryDecl)
unfolding expect_identifier parse_type parse_integer skip_newlines peek
parse_memory_within zero ts = none
parse_memory_within (suc fuel) ts = elim (word_of (peek ts).kind) [
  | some s ↦
      (do
        name ← expect_identifier
        typ ← parse_type
        size ← parse_integer
        ds ← (λ us. parse_memory_within fuel (skip_newlines us))
        return (record { name = name; typ = typ; size = size } ∷ ds))
        ts
  | none ↦ some (ok ([], ts))
]

unfoldable pub parse_memory : Parser (List MemoryDecl)
unfolding parse_memory_within skip_newlines
parse_memory ts = parse_memory_within (length ts + 1) (skip_newlines ts)

-- What a keyword of a unit starts. `BEHAVIOR` is read by `parse_behavior` itself.
unfoldable pub pattern_section : Text → Pattern → TokenKind → Option (Parser Pattern)
unfolding parse_memory parse_nodes parse_behavior ends_on_create ends_on_destroy advance
pattern_section source p TokenKind.memory =
    some (after_keyword (do ds ← parse_memory; return (record p { memory = p.memory ++ ds })))
pattern_section source p TokenKind.on_create = some (
    after_keyword (do
      ns ← parse_nodes ends_on_create
      return (record p { on_create = append_nodes p.on_create ns })))
pattern_section source p TokenKind.behavior =
    some (do b ← parse_behavior source; return (record p { behaviors = p.behaviors ++ (b ∷ []) }))
pattern_section source p TokenKind.on_destroy = some (
    after_keyword (do
      ns ← parse_nodes ends_on_destroy
      return (record p { on_destroy = append_nodes p.on_destroy ns })))
pattern_section source p _ = none

unfoldable pub library_section : Text → Library → TokenKind → Option (Parser Library)
unfolding parse_behavior
library_section source l TokenKind.behavior =
    some (do b ← parse_behavior source; return (record l { behaviors = l.behaviors ++ (b ∷ []) }))
library_section source l _ = none

-- After `USES`: a path and `.pattern`.
unfoldable pub check_extension : Text → Text → Parser Text
unfolding fail
check_extension path ext ts = elim (ext == codes "pattern") [
  | true ↦ some (ok (path, ts))
  | false ↦ fail (uses_extension ext) ts
]

unfoldable pub parse_uses : Parser Text
unfolding expect expect_identifier check_extension
parse_uses = do
  path ← expect_identifier
  _ ← expect is_dot TokenKind.dot
  ext ← expect_identifier
  check_extension path ext

unfoldable pub executable_section : Text → Executable → TokenKind → Option (Parser Executable)
unfolding parse_description parse_uses parse_nodes ends_entry advance
executable_section source x TokenKind.description =
    some
      (after_keyword (do d ← parse_description source; return (record x { description = some d })))
executable_section source x TokenKind.uses =
    some (after_keyword (do path ← parse_uses; return (record x { uses = x.uses ++ (path ∷ []) })))
executable_section source x TokenKind.entry = some (
    after_keyword
      (do ns ← parse_nodes ends_entry; return (record x { entry = append_nodes x.entry ns })))
executable_section source x _ = none

-- A unit ends at its own keyword, which is passed, or at the end of the tokens.
unfoldable pub finish_pattern : Pattern → TokenKind → Parser Pattern
unfolding advance fail
finish_pattern p TokenKind.end_pattern ts = some (ok (p, advance ts))
finish_pattern p TokenKind.eof ts = some (ok (p, ts))
finish_pattern p k ts = fail (in_pattern k) ts

unfoldable pub finish_library : Library → TokenKind → Parser Library
unfolding advance fail
finish_library l TokenKind.end_library ts = some (ok (l, advance ts))
finish_library l TokenKind.eof ts = some (ok (l, ts))
finish_library l k ts = fail (in_library k) ts

unfoldable pub finish_executable : Executable → TokenKind → Parser Executable
unfolding advance fail
finish_executable x TokenKind.end_executable ts = some (ok (x, advance ts))
finish_executable x TokenKind.eof ts = some (ok (x, ts))
finish_executable x k ts = fail (in_executable k) ts

unfoldable pub parse_pattern : Text → Parser Pattern
unfolding expect expect_identifier parse_sections pattern_section finish_pattern skip_newlines
parse_pattern source = do
  _ ← expect is_pattern TokenKind.pattern_keyword
  name ← expect_identifier
  (λ ts.
      parse_sections (pattern_section source) finish_pattern
        (record { name = name; memory = []; on_create = end; behaviors = []; on_destroy = end })
        (skip_newlines ts))

unfoldable pub parse_library : Text → Parser Library
unfolding expect expect_identifier parse_sections library_section finish_library skip_newlines
parse_library source = do
  _ ← expect is_library TokenKind.library
  name ← expect_identifier
  (λ ts.
      parse_sections (library_section source) finish_library
        (record { name = name; behaviors = [] }) (skip_newlines ts))

unfoldable pub parse_executable : Text → Parser Executable
unfolding expect expect_identifier parse_sections executable_section finish_executable skip_newlines
parse_executable source = do
  _ ← expect is_executable TokenKind.executable
  name ← expect_identifier
  (λ ts.
      parse_sections (executable_section source) finish_executable
        (record { name = name; description = none; uses = []; entry = end }) (skip_newlines ts))
