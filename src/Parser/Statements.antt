-- ===== src/Parser/Statements.antt =====
-- compiler/src/parser.rs, `parse_node` and the loops over it.
pub mod Grammar
pub mod Complete
pub mod Bindings
pub mod Sound
use sigil_lang.Prelude.{
  ℕ, zero, suc, ◌+◌, ◌*◌, Bool, true, false, none, some, List, [], ◌∷◌, Text, length, ok,
}
use sigil_lang.Ast.{Node, node, NodeKind, Nodes, end, next}
use sigil_lang.Lexer.Tokens.{Token, TokenKind}
use sigil_lang.Parser.Cursor.{peek, advance, skip_newlines}
use sigil_lang.Parser.Errors.{in_statement, after_identifier, after_targets, wait_any_targets}
use sigil_lang.Parser.Outcome.{Parser, ◌>>=◌, ◌>>◌, continue, return, fail}
use sigil_lang.Parser.Words.{expect, expect_identifier, parse_integer}
use sigil_lang.Parser.Exprs.{parse_expr, parse_args, parse_offset, parse_place}
use sigil_lang.Parser.Names.{names, parse_handles, comma_names, parse_outputs}

abbrev pub is_equals : TokenKind → Bool
is_equals TokenKind.equals = true
is_equals _ = false

abbrev pub is_wait_all : TokenKind → Bool
is_wait_all TokenKind.wait_all = true
is_wait_all _ = false

abbrev pub is_indent : TokenKind → Bool
is_indent (TokenKind.indent _) = true
is_indent _ = false

abbrev pub is_end_scope : TokenKind → Bool
is_end_scope TokenKind.end_scope = true
is_end_scope _ = false

-- What ends the statements of an implementation, and of a scope.
unfoldable pub ends_body : TokenKind → Bool
ends_body TokenKind.end = true
ends_body TokenKind.eof = true
ends_body _ = false

unfoldable pub ends_scope : TokenKind → Bool
ends_scope TokenKind.end_scope = true
ends_scope TokenKind.end = true
ends_scope TokenKind.eof = true
ends_scope _ = false

-- After `WAIT_ANY`, with its targets.
unfoldable pub wait_any_of : List Text → Parser NodeKind
unfolding names fail
wait_any_of (result ∷ which ∷ []) = do
  handles ← names
  return (NodeKind.wait_any result which handles)
wait_any_of _ = fail wait_any_targets

-- After the `=` of several targets.
unfoldable pub wait_of : List Text → TokenKind → Parser NodeKind
unfolding parse_handles wait_any_of advance fail
wait_of targets TokenKind.wait_any ts = wait_any_of targets (advance ts)
wait_of targets TokenKind.wait_all ts =
    (do handles ← parse_handles; return (NodeKind.wait_all targets handles)) (advance ts)
wait_of targets _ ts = fail after_targets ts

unfoldable pub parse_waits : List Text → Parser NodeKind
unfolding wait_of peek
parse_waits targets ts = wait_of targets (peek ts).kind ts

-- After the `=` of one target.
unfoldable pub parse_value : Text → Parser NodeKind
unfolding parse_handles parse_expr peek advance
parse_value target ts = elim (is_wait_all (peek ts).kind) [
  | true ↦
      (do handles ← parse_handles; return (NodeKind.wait_all (target ∷ []) handles)) (advance ts)
  | false ↦ (do value ← parse_expr; return (NodeKind.assignment target value)) ts
]

-- After a name at the start of a statement.
unfoldable pub binding_of : Text → TokenKind → Parser NodeKind
unfolding parse_value parse_waits comma_names expect advance fail
binding_of target TokenKind.equals ts = parse_value target (advance ts)
binding_of target TokenKind.comma ts =
    (do more ← comma_names; expect is_equals TokenKind.equals >> parse_waits (target ∷ more)) ts
binding_of target k ts = fail (after_identifier target k) ts

unfoldable pub parse_binding : Text → Parser NodeKind
unfolding binding_of peek
parse_binding target ts = binding_of target (peek ts).kind ts

-- After the statements of a scope.
unfoldable pub leave_scope : List Token → List Token
unfolding peek advance
leave_scope ts = elim (is_end_scope (peek ts).kind) [ true ↦ advance ts | false ↦ ts ]

-- The arms of the `match`; `nodes` reads statements up to a token that ends them.
unfoldable pub parse_statement : ((TokenKind → Bool) → Parser Nodes) → TokenKind → Parser NodeKind
unfolding expect_identifier parse_integer parse_expr parse_args parse_offset parse_place
    parse_handles parse_outputs parse_binding leave_scope ends_scope advance skip_newlines fail
parse_statement nodes TokenKind.label ts =
    (do name ← expect_identifier; return (NodeKind.label name)) (advance ts)
parse_statement nodes TokenKind.scope ts =
    continue (nodes ends_scope (skip_newlines (advance ts)))
      (λ body rest. return (NodeKind.scope body) (leave_scope rest))
parse_statement nodes TokenKind.branch ts =
    (do
      condition ← parse_expr
      true_label ← expect_identifier
      false_label ← expect_identifier
      return (NodeKind.branch condition true_label false_label))
      (advance ts)
parse_statement nodes TokenKind.jump ts =
    (do target ← expect_identifier; return (NodeKind.jump target)) (advance ts)
parse_statement nodes TokenKind.set ts =
    (do target ← expect_identifier; value ← parse_expr; return (NodeKind.set target value))
      (advance ts)
parse_statement nodes TokenKind.discard ts =
    (do name ← expect_identifier; value ← parse_place name; return (NodeKind.discard value))
      (advance ts)
parse_statement nodes TokenKind.store ts =
    (do
      target ← expect_identifier
      value ← parse_expr
      size ← parse_integer
      offset ← parse_offset parse_expr parse_args
      return (NodeKind.store target value size offset))
      (advance ts)
parse_statement nodes TokenKind.free ts =
    (do name ← expect_identifier; return (NodeKind.free name)) (advance ts)
parse_statement nodes TokenKind.channel_send ts =
    (do
      channel ← expect_identifier
      value ← parse_expr
      return (NodeKind.channel_send channel value))
      (advance ts)
parse_statement nodes TokenKind.channel_close ts =
    (do channel ← expect_identifier; return (NodeKind.channel_close channel)) (advance ts)
parse_statement nodes TokenKind.wait_all ts =
    (do handles ← parse_handles; return (NodeKind.wait_all [] handles)) (advance ts)
parse_statement nodes TokenKind.call ts =
    (do
      behavior ← expect_identifier
      args ← parse_args true
      outputs ← parse_outputs
      return (NodeKind.call_node none behavior args outputs))
      (advance ts)
parse_statement nodes (TokenKind.identifier name) ts = parse_binding name (advance ts)
parse_statement nodes k ts = fail (in_statement k) ts

unfoldable pub skip_indent : List Token → List Token
unfolding peek advance
skip_indent ts = elim (is_indent (peek ts).kind) [ true ↦ advance ts | false ↦ ts ]

-- Each call takes one unit of fuel.
unfoldable mutual
  unfolding parse_statement skip_indent skip_newlines peek

  pub parse_node_within : ℕ → Parser Node
  parse_node_within zero ts = none
  parse_node_within (suc fuel) ts =
      let us = skip_indent ts in
      continue (parse_statement (parse_nodes_within fuel) (peek us).kind us)
        (λ kind. return (node (peek us).span kind))

  -- The loops over statements: after line breaks, the next token ends them or starts one.
  pub parse_nodes_within : ℕ → (TokenKind → Bool) → Parser Nodes
  parse_nodes_within zero stop ts = none
  parse_nodes_within (suc fuel) stop ts =
      let us = skip_newlines ts in
      elim (stop (peek us).kind) [
        | true ↦ some (ok (end, us))
        | false ↦
            (do n ← parse_node_within fuel; ns ← parse_nodes_within fuel stop; return (next n ns))
              us
      ]

unfoldable pub parse_node : Parser Node
unfolding parse_node_within
parse_node ts = parse_node_within (2 * length ts + 1) ts

unfoldable pub parse_nodes : (TokenKind → Bool) → Parser Nodes
unfolding parse_nodes_within
parse_nodes stop ts = parse_nodes_within (2 * length ts + 2) stop ts

-- `END` is left to the caller.
unfoldable pub parse_implementation : Parser Nodes
unfolding parse_nodes ends_body
parse_implementation = parse_nodes ends_body
