-- ===== src/Examples/Parsing.antt =====
-- Concrete tokens for the theorems on the parser.
use sigil_lang.Prelude.{◌≡◌, ◌≢◌, ◌↔◌, refl, none, some, List, [], ◌∷◌, Text, codes, ok, err}
use sigil_lang.Ast.{Span, Expr, at_offset, Node, node, NodeKind, end, next, empty_contract}
use sigil_lang.Lexer.Tokens.{Token, TokenKind}
use sigil_lang.Parser.Errors.{in_behavior}
use sigil_lang.Parser.Words.{token, parse_integer}
use sigil_lang.Parser.Exprs.{parse_expr, parse_offset, starts_offset, parse_place}
use sigil_lang.Parser.Exprs.Grammar.{ExprTokens}
use sigil_lang.Parser.Exprs.Sound.{parse_expr_iff}
use sigil_lang.Parser.Statements.{parse_node}
use sigil_lang.Parser.Statements.Grammar.{NodeTokens}
use sigil_lang.Parser.Statements.Sound.{parse_node_iff}
use sigil_lang.Parser.Contracts.{parse_contract}
use sigil_lang.Parser.Behaviors.{parse_behavior}
use sigil_lang.Parser.Units.{parse_pattern, parse_library, parse_executable}
use sigil_lang.Parser.Units.Total.{parse_total}

abbrev here : Span
here = record { line = 1; col = 1; len = 1 }

abbrev all_here : List TokenKind → List Token
all_here [] = []
all_here (k ∷ ks) = token k here ∷ all_here ks

abbrev word : Text → TokenKind
word s = TokenKind.identifier s

-- `IADD LOAD x 8 y 4`: the number and the name after `LOAD x` are its size and its offset.
abbrev sum_tokens : List Token
sum_tokens = all_here (
    TokenKind.iadd
    ∷ TokenKind.load
    ∷ word (codes "x")
    ∷ TokenKind.integer 8
    ∷ word (codes "y")
    ∷ TokenKind.integer 1
    ∷ TokenKind.integer 4
    ∷ TokenKind.newline
    ∷ [])

abbrev sum_expr : Expr
sum_expr =
    Expr.iadd (Expr.load (Expr.var (codes "x")) 8 (at_offset (Expr.var (codes "y"))))
      (Expr.int_lit 1) 4

sum_parsed : parse_expr sum_tokens ≡ some (ok (sum_expr, all_here (TokenKind.newline ∷ [])))
unfolding parse_expr parse_offset starts_offset parse_place parse_integer
sum_parsed = refl

parse_expr_iff_example :
    (parse_expr sum_tokens ≡ some (ok (sum_expr, all_here (TokenKind.newline ∷ []))))
    ↔ ExprTokens sum_expr sum_tokens (all_here (TokenKind.newline ∷ []))
parse_expr_iff_example = parse_expr_iff sum_expr sum_tokens (all_here (TokenKind.newline ∷ []))

-- A scope that nothing closes.
abbrev open_scope : List Token
open_scope =
    all_here
      (TokenKind.scope ∷ TokenKind.newline ∷ TokenKind.free ∷ word (codes "x") ∷ TokenKind.end ∷ [])

abbrev scope_node : Node
scope_node = node here (NodeKind.scope (next (node here (NodeKind.free (codes "x"))) end))

scope_parsed : parse_node open_scope ≡ some (ok (scope_node, all_here (TokenKind.end ∷ [])))
unfolding parse_node
scope_parsed = refl

parse_node_iff_example :
    (parse_node open_scope ≡ some (ok (scope_node, all_here (TokenKind.end ∷ []))))
    ↔ NodeTokens scope_node open_scope (all_here (TokenKind.end ∷ []))
parse_node_iff_example = parse_node_iff scope_node open_scope (all_here (TokenKind.end ∷ []))

-- Of the dependencies on two lines, the second line stays.
two_lines :
    parse_contract (
      all_here (
        TokenKind.requires
        ∷ word (codes "a")
        ∷ TokenKind.newline
        ∷ word (codes "b")
        ∷ TokenKind.newline
        ∷ TokenKind.end
        ∷ []))
    ≡ some (
        ok (
          record empty_contract {
            requires = record {
              behaviors = record { name = codes "b"; hash = [] } ∷ [];
              memory = [];
            };
          },
          all_here (TokenKind.end ∷ []),
        ))
unfolding parse_contract
two_lines = refl

-- The memory that is named before the dependencies is dropped.
memory_first :
    parse_contract (
      all_here (
        TokenKind.memory
        ∷ word (codes "m")
        ∷ TokenKind.newline
        ∷ TokenKind.requires
        ∷ word (codes "a")
        ∷ TokenKind.end
        ∷ []))
    ≡ some (
        ok (
          record empty_contract {
            requires = record {
              behaviors = record { name = codes "a"; hash = [] } ∷ [];
              memory = [];
            };
          },
          all_here (TokenKind.end ∷ []),
        ))
unfolding parse_contract
memory_first = refl

-- `BEHAVIOR a IADD`.
abbrev bad_behavior : List Token
bad_behavior = all_here (TokenKind.behavior ∷ word (codes "a") ∷ TokenKind.iadd ∷ [])

bad_behavior_rejected :
    parse_behavior [] bad_behavior
    ≡ some (err (record { span = here; complaint = in_behavior TokenKind.iadd }))
unfolding parse_behavior
bad_behavior_rejected = refl

parse_total_example :
    (parse_behavior [] bad_behavior ≢ none)
    × (parse_pattern [] bad_behavior ≢ none)
    × (parse_library [] bad_behavior ≢ none)
    × (parse_executable [] bad_behavior ≢ none)
parse_total_example = parse_total [] bad_behavior
