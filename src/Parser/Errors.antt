-- ===== src/Parser/Errors.antt =====
-- compiler/src/parser.rs and compiler/src/error.rs: what the parser reports.
use sigil_lang.Prelude.{Text, List}
use sigil_lang.Ast.{Span}
use sigil_lang.Lexer.Tokens.{Token, TokenKind}
use sigil_lang.Parser.Cursor.{peek}

-- The messages. A kind in one is that of the token which stands there, after "got".
pub data Complaint : Type 0 where
  expected_token : TokenKind → TokenKind → Complaint
  expected_identifier expected_hex expected_type expected_integer : TokenKind → Complaint
  in_expression in_statement in_behavior in_pattern in_library in_executable : TokenKind → Complaint
  after_identifier : Text → TokenKind → Complaint
  wait_any_targets after_targets unexpected_eof : Complaint
  uses_extension : Text → Complaint

-- `CompilerError::Parse`.
pub record ParseError : Type 0 where
  pub span : Span
  pub complaint : Complaint

-- `error`: at the token that comes next.
unfoldable pub error : List Token → Complaint → ParseError
unfolding peek
error ts c = record { span = (peek ts).span; complaint = c }
