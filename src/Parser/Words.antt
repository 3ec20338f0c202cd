-- ===== src/Parser/Words.antt =====
-- compiler/src/parser.rs: the helpers that read one token, and the tokens that they read.
use sigil_lang.Prelude.{ℕ, suc, ◌≡◌, refl, Bool, true, false, some, List, [], ◌∷◌, Text, length, ok}
use sigil_lang.Ast.{Span, Ty}
use sigil_lang.Lexer.Tokens.{Token, TokenKind, identifier, integer, int, float, bytes, string}
use sigil_lang.Parser.Cursor.{peek, advance}
use sigil_lang.Parser.Errors.{expected_token, expected_identifier, expected_type, expected_integer}
use sigil_lang.Parser.Outcome.{Parser, fail, here, there, Ensures, holds, rejected}

abbrev pub token : TokenKind → Span → Token
token k sp = record { kind = k; span = sp }

-- `test` is the comparison of discriminants with `expected`.
unfoldable pub expect : (TokenKind → Bool) → TokenKind → Parser Span
unfolding peek advance fail
expect test expected ts = elim (test (peek ts).kind) [
  | true ↦ some (ok ((peek ts).span, advance ts))
  | false ↦ fail (expected_token expected (peek ts).kind) ts
]

unfoldable pub identifier_of : TokenKind → Parser Text
unfolding advance fail
identifier_of (identifier s) ts = some (ok (s, advance ts))
identifier_of k ts = fail (expected_identifier k) ts

unfoldable pub expect_identifier : Parser Text
unfolding identifier_of peek
expect_identifier ts = identifier_of (peek ts).kind ts

unfoldable pub type_of : TokenKind → Parser Ty
unfolding advance fail
type_of bytes ts = some (ok (Ty.bytes, advance ts))
type_of int ts = some (ok (Ty.int, advance ts))
type_of float ts = some (ok (Ty.float, advance ts))
type_of string ts = some (ok (Ty.string, advance ts))
type_of k ts = fail (expected_type k) ts

unfoldable pub parse_type : Parser Ty
unfolding type_of peek
parse_type ts = type_of (peek ts).kind ts

unfoldable pub integer_of : TokenKind → Parser ℕ
unfolding advance fail
integer_of (integer n) ts = some (ok (n, advance ts))
integer_of k ts = fail (expected_integer k) ts

unfoldable pub parse_integer : Parser ℕ
unfolding integer_of peek
parse_integer ts = integer_of (peek ts).kind ts

-- A token, and those after it.
pub data NameTokens (s : Text) : List Token → List Token → Type 0 where
  name : (sp : Span) (ts : List Token) → NameTokens s (token (identifier s) sp ∷ ts) ts

pub data NumberTokens (n : ℕ) : List Token → List Token → Type 0 where
  number : (sp : Span) (ts : List Token) → NumberTokens n (token (integer n) sp ∷ ts) ts

abbrev pub keyword_of : Ty → TokenKind
keyword_of Ty.bytes = bytes
keyword_of Ty.int = int
keyword_of Ty.float = float
keyword_of Ty.string = string

pub data TypeTokens (t : Ty) : List Token → List Token → Type 0 where
  type : (sp : Span) (ts : List Token) → TypeTokens t (token (keyword_of t) sp ∷ ts) ts

pub expect_identifier-NameTokens :
    {s : Text} {ts rest : List Token}
    → NameTokens s ts rest
    → expect_identifier ts ≡ some (ok (s, rest))
unfolding expect_identifier
expect_identifier-NameTokens (name sp ts) = refl

pub parse_integer-NumberTokens :
    {n : ℕ} {ts rest : List Token} → NumberTokens n ts rest → parse_integer ts ≡ some (ok (n, rest))
unfolding parse_integer
parse_integer-NumberTokens (number sp ts) = refl

pub parse_type-TypeTokens :
    (t : Ty) {ts rest : List Token} → TypeTokens t ts rest → parse_type ts ≡ some (ok (t, rest))
unfolding parse_type
parse_type-TypeTokens Ty.bytes (type sp ts) = refl
parse_type-TypeTokens Ty.int (type sp ts) = refl
parse_type-TypeTokens Ty.float (type sp ts) = refl
parse_type-TypeTokens Ty.string (type sp ts) = refl

pub NameTokens-length :
    {s : Text} {ts rest : List Token} → NameTokens s ts rest → length ts ≡ suc (length rest)
NameTokens-length (name sp ts) = refl

pub NumberTokens-length :
    {n : ℕ} {ts rest : List Token} → NumberTokens n ts rest → length ts ≡ suc (length rest)
NumberTokens-length (number sp ts) = refl

pub TypeTokens-length :
    {t : Ty} {ts rest : List Token} → TypeTokens t ts rest → length ts ≡ suc (length rest)
TypeTokens-length (type sp ts) = refl

identifier_of-Ensures :
    (k : TokenKind) (sp : Span) (ts : List Token)
    → Ensures
        (λ s rest. NameTokens s (token k sp ∷ ts) rest)
        (token k sp ∷ ts)
        (identifier_of k (token k sp ∷ ts))
unfolding identifier_of
identifier_of-Ensures (identifier s) sp ts = holds s ts (there _ ts here) (name sp ts)
identifier_of-Ensures k sp ts = rejected (token k sp ∷ ts) (expected_identifier k) here

pub expect_identifier-Ensures :
    (ts : List Token) → Ensures (λ s rest. NameTokens s ts rest) ts (expect_identifier ts)
unfolding expect_identifier
expect_identifier-Ensures [] = rejected [] _ here
expect_identifier-Ensures (t ∷ ts) = identifier_of-Ensures t.kind t.span ts

type_of-Ensures :
    (k : TokenKind) (sp : Span) (ts : List Token)
    → Ensures
        (λ t rest. TypeTokens t (token k sp ∷ ts) rest)
        (token k sp ∷ ts)
        (type_of k (token k sp ∷ ts))
unfolding type_of
type_of-Ensures bytes sp ts = holds Ty.bytes ts (there _ ts here) (type sp ts)
type_of-Ensures int sp ts = holds Ty.int ts (there _ ts here) (type sp ts)
type_of-Ensures float sp ts = holds Ty.float ts (there _ ts here) (type sp ts)
type_of-Ensures string sp ts = holds Ty.string ts (there _ ts here) (type sp ts)
type_of-Ensures k sp ts = rejected (token k sp ∷ ts) (expected_type k) here

pub parse_type-Ensures :
    (ts : List Token) → Ensures (λ t rest. TypeTokens t ts rest) ts (parse_type ts)
unfolding parse_type
parse_type-Ensures [] = rejected [] _ here
parse_type-Ensures (t ∷ ts) = type_of-Ensures t.kind t.span ts

integer_of-Ensures :
    (k : TokenKind) (sp : Span) (ts : List Token)
    → Ensures
        (λ n rest. NumberTokens n (token k sp ∷ ts) rest)
        (token k sp ∷ ts)
        (integer_of k (token k sp ∷ ts))
unfolding integer_of
integer_of-Ensures (integer n) sp ts = holds n ts (there _ ts here) (number sp ts)
integer_of-Ensures k sp ts = rejected (token k sp ∷ ts) (expected_integer k) here

pub parse_integer-Ensures :
    (ts : List Token) → Ensures (λ n rest. NumberTokens n ts rest) ts (parse_integer ts)
unfolding parse_integer
parse_integer-Ensures [] = rejected [] _ here
parse_integer-Ensures (t ∷ ts) = integer_of-Ensures t.kind t.span ts
