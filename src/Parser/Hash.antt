-- ===== src/Parser/Hash.antt =====
-- compiler/src/parser.rs, `expect_hex_string`. Words of the lexer are ASCII, so `to_lowercase` is
-- that of ASCII.
pub mod Correct
use sigil_lang.Prelude.{
  ℕ, ◌+◌, ◌-◌, ◌^◌, Bool, true, false, not, ◌&&◌, List, [], ◌∷◌, ◌++◌, map, Text, length, all, ltb,
  leb, if◌then◌else◌, Result, ok, err,
}
use sigil_lang.Ast.{Span}
use sigil_lang.Chars.{is_ascii_hexdigit}
use sigil_lang.Decimal.{decimal, zeros}
use sigil_lang.Lexer.Tokens.{Token, TokenKind, identifier, integer}
use sigil_lang.Lexer.State.{byte_len}
use sigil_lang.Parser.Cursor.{peek, advance}
use sigil_lang.Parser.Errors.{ParseError, expected_hex, error}

-- `i64::to_string`.
unfoldable pub print_i64 : ℕ → Text
print_i64 n = if ltb n (2 ^ 63) then decimal n else b'-' ∷ decimal (2 ^ 64 - n)

abbrev pub to_ascii_lowercase : ℕ → ℕ
to_ascii_lowercase c = if leb b'A' c && leb c b'Z' then c + 32 else c

abbrev pub is_nil : Text → Bool
is_nil [] = true
is_nil (_ ∷ _) = false

-- The padding of a short hash, and `to_lowercase`.
unfoldable pub finish_hash : Text → Text
finish_hash r =
    let padded =
      if not (is_nil r) && ltb (byte_len r) 8 && all is_ascii_hexdigit r
      then zeros (8 - byte_len r) ++ r
      else r in
    map to_ascii_lowercase padded

-- After a number: a word of hexadecimal digits is appended.
unfoldable pub append_word : Text → TokenKind → List Token → Text × List Token
append_word r (identifier s) ts = if all is_ascii_hexdigit s then (r ++ s, advance ts) else (r, ts)
append_word r _ ts = (r, ts)

unfoldable pub hex_of_kind : TokenKind → List Token → Result ParseError (Text × List Token)
unfolding advance finish_hash print_i64 append_word peek error
hex_of_kind (identifier s) ts = ok (finish_hash s, advance ts)
hex_of_kind (integer n) ts =
    let ts' = advance ts in
    let (r, rest) = append_word (print_i64 n) (peek ts').kind ts' in ok (finish_hash r, rest)
hex_of_kind k ts = err (error ts (expected_hex k))

unfoldable pub expect_hex_string : List Token → Result ParseError (Text × List Token)
unfolding hex_of_kind peek
expect_hex_string ts = hex_of_kind (peek ts).kind ts
