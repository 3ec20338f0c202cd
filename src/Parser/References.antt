-- ===== src/Parser/References.antt =====
-- compiler/src/parser.rs, `parse_behavior_refs`: the dependencies that a contract requires.
pub mod Correct
use sigil_lang.Prelude.{
  ℕ, zero, suc, ◌+◌, Option, none, some, List, [], ◌∷◌, Text, length, Result, ok, err,
}
use sigil_lang.Ast.{BehaviorRef}
use sigil_lang.Lexer.Tokens.{Token, TokenKind, identifier, at}
use sigil_lang.Parser.Cursor.{peek, advance}
use sigil_lang.Parser.Errors.{ParseError}
use sigil_lang.Parser.Outcome.{Parser, continue, return}
use sigil_lang.Parser.Hash.{expect_hex_string}

-- After a name: `@` and the hash, or nothing.
unfoldable pub parse_pin : TokenKind → List Token → Result ParseError (Text × List Token)
unfolding expect_hex_string advance
parse_pin at ts = expect_hex_string (advance ts)
parse_pin _ ts = ok ([], ts)

abbrev pub word_of : TokenKind → Option Text
word_of (identifier name) = some name
word_of _ = none

-- The `while` loop; `none` if the fuel runs out. Each reference takes one.
unfoldable pub parse_refs_loop : ℕ → Parser (List BehaviorRef)
unfolding parse_pin advance peek
parse_refs_loop zero ts = none
parse_refs_loop (suc fuel) ts = elim (word_of (peek ts).kind) [
  | none ↦ some (ok ([], ts))
  | some name ↦
      let ts' = advance ts in
      continue (some (parse_pin (peek ts').kind ts')) (λ h rest.
        continue (parse_refs_loop fuel rest) (λ rs. return (record { name = name; hash = h } ∷ rs)))
]

unfoldable pub parse_behavior_refs : Parser (List BehaviorRef)
unfolding parse_refs_loop
parse_behavior_refs ts = parse_refs_loop (suc (length ts)) ts
