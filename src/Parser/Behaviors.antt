-- ===== src/Parser/Behaviors.antt =====
-- compiler/src/parser.rs, `parse_behavior`.
pub mod Total
use sigil_lang.Prelude.{
  ℕ, zero, suc, ◌+◌, Bool, true, false, ◌&&◌, Option, none, some, List, [], ◌∷◌, ◌++◌, Text, length,
  ok,
}
use sigil_lang.Ast.{Nodes, PlatformImpl, Composition, Behavior, new_behavior}
use sigil_lang.Lexer.Tokens.{Token, TokenKind}
use sigil_lang.Parser.Cursor.{peek, advance, skip_newlines}
use sigil_lang.Parser.Errors.{in_behavior, unexpected_eof}
use sigil_lang.Parser.Outcome.{Outcome, Parser, ◌>>=◌, continue, return, fail}
use sigil_lang.Parser.Sections.{after_keyword, parse_sections}
use sigil_lang.Parser.Words.{expect, expect_identifier}
use sigil_lang.Parser.Hash.{expect_hex_string}
use sigil_lang.Parser.Statements.{parse_implementation}
use sigil_lang.Parser.Contracts.{parse_contract}
use sigil_lang.Parser.Descriptions.{parse_description}

abbrev pub is_behavior : TokenKind → Bool
is_behavior TokenKind.behavior = true
is_behavior _ = false

abbrev pub is_left_bracket : TokenKind → Bool
is_left_bracket TokenKind.left_bracket = true
is_left_bracket _ = false

abbrev pub is_right_bracket : TokenKind → Bool
is_right_bracket TokenKind.right_bracket = true
is_right_bracket _ = false

abbrev pub is_end : TokenKind → Bool
is_end TokenKind.end = true
is_end _ = false

-- `[linux]`, or nothing for every platform.
unfoldable pub parse_platform : Parser (Option Text)
unfolding expect expect_identifier peek advance
parse_platform ts = elim (is_left_bracket (peek ts).kind) [
  | true ↦
      (do
        name ← expect_identifier
        _ ← expect is_right_bracket TokenKind.right_bracket
        return (some name))
        (advance ts)
  | false ↦ some (ok (none, ts))
]

abbrev pub is_some : Option Text → Bool
is_some none = false
is_some (some _) = true

-- The `END` of an implementation for one platform is passed, others may follow it.
unfoldable pub pass_end : Option Text → List Token → List Token
unfolding peek advance
pass_end platform ts = elim (is_some platform && is_end (peek ts).kind) [
  | true ↦ advance ts
  | false ↦ ts
]

unfoldable pub add_implementation : Behavior → Option Text → Parser Behavior
unfolding parse_implementation pass_end skip_newlines
add_implementation b platform ts = continue (parse_implementation (skip_newlines ts)) (λ body rest.
    return
      (record b {
        implementations = b.implementations ++ (record { platform = platform; nodes = body } ∷ []);
      })
      (pass_end platform rest))

unfoldable pub expect_hash : Parser Text
unfolding expect_hex_string
expect_hash ts = some (expect_hex_string ts)

-- What a keyword of a behavior starts.
unfoldable pub behavior_section : Text → Behavior → TokenKind → Option (Parser Behavior)
unfolding parse_description parse_contract expect_hash parse_platform add_implementation
    parse_implementation skip_newlines
behavior_section source b TokenKind.description =
    some (after_keyword do d ← parse_description source; return (record b { description = some d }))
behavior_section source b TokenKind.contract = some (
    after_keyword
      λ ts. (do c ← parse_contract; return (record b { contract = c })) (skip_newlines ts))
behavior_section source b TokenKind.hash =
    some (after_keyword do h ← expect_hash; return (record b { hash = h }))
behavior_section source b TokenKind.implementation =
    some (after_keyword do platform ← parse_platform; add_implementation b platform)
behavior_section source b TokenKind.composition = some (
    after_keyword λ ts.
      (do
        ns ← parse_implementation
        return (record b { composition = some (record { nodes = ns }) }))
        (skip_newlines ts))
behavior_section source b _ = none

-- A token that starts no section ends the behavior, or is an error.
unfoldable pub finish_behavior : Behavior → TokenKind → Parser Behavior
unfolding advance fail
finish_behavior b TokenKind.native ts = some (ok (record b { is_native = true }, advance ts))
finish_behavior b TokenKind.end ts = some (ok (b, advance ts))
finish_behavior b TokenKind.eof ts = fail unexpected_eof ts
finish_behavior b k ts = fail (in_behavior k) ts

unfoldable pub parse_behavior : Text → Parser Behavior
unfolding expect expect_identifier parse_sections behavior_section finish_behavior skip_newlines
parse_behavior source ts =
    (do
      _ ← expect is_behavior TokenKind.behavior
      name ← expect_identifier
      (λ us.
          parse_sections (behavior_section source) finish_behavior (new_behavior name)
            (skip_newlines us)))
      (skip_newlines ts)
