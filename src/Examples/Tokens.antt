-- ===== src/Examples/Tokens.antt =====
-- Concrete tokens for the theorems on `Parser`.
use sigil_lang.Prelude.{ℕ, ◌≡◌, refl, some, List, [], ◌∷◌, Text, codes, ok}
use sigil_lang.Ast.{Span, BehaviorRef}
use sigil_lang.Lexer.Tokens.{Token, identifier, integer, at, newline}
use sigil_lang.Lexer.Numbers.{parse_i64, parse_magnitude, positive, digits_value, digit_value}
use sigil_lang.Parser.Cursor.{peek}
use sigil_lang.Parser.Hash.{expect_hex_string}
use sigil_lang.Parser.Hash.Correct.{IsHash, HashTokens, number_word, expect_hex_string-HashTokens}
use sigil_lang.Parser.References.{parse_behavior_refs}
use sigil_lang.Parser.References.Correct.{RefsTokens, done, pinned, parse_behavior_refs-RefsTokens}

abbrev at_col : ℕ → Span
at_col c = record { line = 4; col = c; len = 1 }

-- `004ec810`: the lexer reads the number 4 and the word `ec810`.
abbrev hash : Text
hash = codes "004ec810"

hash-IsHash : IsHash hash
hash-IsHash = record {
  chars = (refl, (refl, (refl, (refl, (refl, (refl, (refl, (refl, tt))))))));
  eight = refl;
}

abbrev after : List Token
after = record { kind = newline; span = at_col 20 } ∷ []

abbrev hash_tokens : List Token
hash_tokens =
    record { kind = integer 4; span = at_col 10 }
    ∷ record { kind = identifier (codes "ec810"); span = at_col 13 }
    ∷ after

hash_tokens-HashTokens : HashTokens hash hash_tokens after
unfolding parse_i64 parse_magnitude positive digits_value digit_value
hash_tokens-HashTokens =
    number_word b'0' (codes "04") (codes "ec810") 4 (at_col 10) (at_col 13) after
      (refl, (refl, (refl, tt))) refl

expect_hex_string-HashTokens_example : expect_hex_string hash_tokens ≡ ok (hash, after)
expect_hex_string-HashTokens_example =
    expect_hex_string-HashTokens hash hash_tokens after hash-IsHash hash_tokens-HashTokens

abbrev reference : BehaviorRef
reference = record { name = codes "sink"; hash = hash }

abbrev reference_tokens : List Token
reference_tokens =
    record { kind = identifier (codes "sink"); span = at_col 5 }
    ∷ record { kind = at; span = at_col 9 }
    ∷ hash_tokens

reference_tokens-RefsTokens : RefsTokens (reference ∷ []) reference_tokens after
unfolding peek
reference_tokens-RefsTokens =
    pinned (codes "sink") hash (at_col 5) (at_col 9) [] hash_tokens after after hash-IsHash
      hash_tokens-HashTokens (done after refl)

parse_behavior_refs-RefsTokens_example :
    parse_behavior_refs reference_tokens ≡ some (ok (reference ∷ [], after))
parse_behavior_refs-RefsTokens_example =
    parse_behavior_refs-RefsTokens (reference ∷ []) reference_tokens after
      reference_tokens-RefsTokens
