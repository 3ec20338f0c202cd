-- ===== src/Parser/Statements/Complete.antt =====
-- Whatever the grammar of statements derives, the parser reads.
use sigil_lang.Prelude.{
  ℕ, zero, suc, ◌+◌, ◌*◌, ◌<◌, ◌≡◌, refl, Bool, some, List, ◌∷◌, arith, Text, length, ok,
}
use sigil_lang.Ast.{Expr, Node, NodeKind, Nodes}
use sigil_lang.Lexer.Tokens.{Token, TokenKind}
use sigil_lang.Parser.Cursor.{peek}
use sigil_lang.Parser.Outcome.{continue}
use sigil_lang.Parser.Words.{expect, expect_identifier-NameTokens, parse_integer-NumberTokens}
use sigil_lang.Parser.Names.{
  names-NamesTokens, comma_names-CommasTokens, parse_handles-HandlesTokens,
  parse_outputs-OutputsTokens,
}
use sigil_lang.Parser.Exprs.{parse_place}
use sigil_lang.Parser.Exprs.Complete.{
  parse_expr-ExprTokens, parse_args-ArgsTokens, parse_offset_lem, parse_place-var,
  parse_place-field,
}
use sigil_lang.Parser.Statements.{
  is_equals, parse_value, parse_waits, wait_of, wait_any_of, parse_binding, leave_scope,
  parse_node_within, parse_nodes_within, parse_node, parse_nodes, skip_indent, parse_statement,
}
use sigil_lang.Parser.Statements.Grammar.{
  PlaceTokens, whole, part, BindingTokens, assigned, waited, several, WaitsTokens, any_of, all_of,
  LeaveTokens, closed, unclosed, StatementTokens, a_label, a_scope, a_branch, a_jump, a_set,
  a_discard, a_store, a_free, a_send, a_close, a_wait_all, a_call, a_binding, NodeTokens, indented,
  plain, NodesTokens, no_more, one_more, skip_newlines-length, NodeTokens-length,
}

parse_place-PlaceTokens :
    {s : Text} {e : Expr} {ts rest : List Token}
    → PlaceTokens s e ts rest
    → parse_place s ts ≡ some (ok (e, rest))
parse_place-PlaceTokens {s} (whole ts h) = parse_place-var s ts h
parse_place-PlaceTokens {s} (part f sp ts rest p) = parse_place-field s f sp p

leave_scope-LeaveTokens : {ts rest : List Token} → LeaveTokens ts rest → leave_scope ts ≡ rest
unfolding leave_scope
leave_scope-LeaveTokens (closed sp ts) = refl
leave_scope-LeaveTokens (unclosed ts h) = rw (h, leave_scope) refl

expect-WaitsTokens :
    {s : Text} {ss : List Text} {k : NodeKind} {ts rest : List Token}
    → WaitsTokens s ss k ts rest
    → continue (expect is_equals TokenKind.equals ts) (λ _. parse_waits (s ∷ ss))
      ≡ some (ok (k, rest))
unfolding parse_waits expect wait_of wait_any_of
expect-WaitsTokens (any_of sp sq w hs ts rest p) = simp (names-NamesTokens p)
expect-WaitsTokens (all_of sp sq ss hs ts rest p) = simp (parse_handles-HandlesTokens p)

parse_binding-BindingTokens :
    {s : Text} {k : NodeKind} {ts rest : List Token}
    → BindingTokens s k ts rest
    → parse_binding s ts ≡ some (ok (k, rest))
unfolding parse_binding parse_value
parse_binding-BindingTokens (assigned sp e ts rest h p) =
    rw (h, parse_value) (simp (parse_expr-ExprTokens p))
parse_binding-BindingTokens (waited sp sq hs ts rest p) = simp (parse_handles-HandlesTokens p)
parse_binding-BindingTokens (several sp ss k ts us rest p q) =
    simp (comma_names-CommasTokens p, expect-WaitsTokens q)

mutual
  unfolding parse_node_within skip_indent parse_statement

  parse_statement-StatementTokens :
      (f : ℕ) {k : NodeKind} {ts rest : List Token}
      → StatementTokens k ts rest
      → 2 * length ts < suc f
      → parse_statement (parse_nodes_within f) (peek ts).kind ts ≡ some (ok (k, rest))
  parse_statement-StatementTokens f (a_label sp s ts rest p) l =
      simp (expect_identifier-NameTokens p)
  parse_statement-StatementTokens f (a_scope sp ns ts us rest p q) l = simp (
    parse_nodes_within-NodesTokens f p (omega (arith, skip_newlines-length ts)),
    leave_scope-LeaveTokens q,
  )
  parse_statement-StatementTokens f (a_branch sp e s t ts us vs rest p q r) l =
      simp (parse_expr-ExprTokens p, expect_identifier-NameTokens q, expect_identifier-NameTokens r)
  parse_statement-StatementTokens f (a_jump sp s ts rest p) l =
      simp (expect_identifier-NameTokens p)
  parse_statement-StatementTokens f (a_set sp s e ts us rest p q) l =
      simp (expect_identifier-NameTokens p, parse_expr-ExprTokens q)
  parse_statement-StatementTokens f (a_discard sp s e ts us rest p q) l =
      simp (expect_identifier-NameTokens p, parse_place-PlaceTokens q)
  parse_statement-StatementTokens f (a_store sp s e n o ts us vs ws rest p q r x) l = simp (
    expect_identifier-NameTokens p,
    parse_expr-ExprTokens q,
    parse_integer-NumberTokens r,
    parse_offset_lem x,
  )
  parse_statement-StatementTokens f (a_free sp s ts rest p) l =
      simp (expect_identifier-NameTokens p)
  parse_statement-StatementTokens f (a_send sp s e ts us rest p q) l =
      simp (expect_identifier-NameTokens p, parse_expr-ExprTokens q)
  parse_statement-StatementTokens f (a_close sp s ts rest p) l =
      simp (expect_identifier-NameTokens p)
  parse_statement-StatementTokens f (a_wait_all sp hs ts rest p) l =
      simp (parse_handles-HandlesTokens p)
  parse_statement-StatementTokens f (a_call sp s es os ts us vs rest p q r) l =
      simp (expect_identifier-NameTokens p, parse_args-ArgsTokens q, parse_outputs-OutputsTokens r)
  parse_statement-StatementTokens f (a_binding sp s k ts rest p) l = parse_binding-BindingTokens p

  parse_node_within-NodeTokens :
      (f : ℕ) {n : Node} {ts rest : List Token}
      → NodeTokens n ts rest
      → 2 * length ts < f
      → parse_node_within f ts ≡ some (ok (n, rest))
  parse_node_within-NodeTokens zero p l = absurd (omega arith)
  parse_node_within-NodeTokens (suc f) (indented d sp k ts rest p) l =
      simp (parse_statement-StatementTokens f p (omega arith))
  parse_node_within-NodeTokens (suc f) (plain k ts rest h p) l =
      rw (h, parse_node_within, skip_indent)
        (simp (parse_statement-StatementTokens f p (omega arith)))

  parse_nodes_within-NodesTokens :
      (f : ℕ) {stop : TokenKind → Bool} {ns : Nodes} {ts rest : List Token}
      → NodesTokens stop ns ts rest
      → 2 * length ts + 1 < f
      → parse_nodes_within f stop ts ≡ some (ok (ns, rest))
  parse_nodes_within-NodesTokens zero p l = absurd (omega arith)
  parse_nodes_within-NodesTokens (suc f) (no_more stop ts e) l = rw (e, parse_nodes_within) refl
  parse_nodes_within-NodesTokens (suc f) (one_more stop n ns ts us rest e p q) l =
      rw (e, parse_nodes_within)
        (simp (
          parse_node_within-NodeTokens f p (omega (arith, skip_newlines-length ts)),
          parse_nodes_within-NodesTokens f q
              (omega (arith, skip_newlines-length ts, NodeTokens-length p)),
        ))

pub parse_node-NodeTokens :
    {n : Node} {ts rest : List Token} → NodeTokens n ts rest → parse_node ts ≡ some (ok (n, rest))
unfolding parse_node
parse_node-NodeTokens {ts} p = parse_node_within-NodeTokens (2 * length ts + 1) p (omega arith)

pub parse_nodes-NodesTokens :
    {stop : TokenKind → Bool} {ns : Nodes} {ts rest : List Token}
    → NodesTokens stop ns ts rest
    → parse_nodes stop ts ≡ some (ok (ns, rest))
unfolding parse_nodes
parse_nodes-NodesTokens {ts} p = parse_nodes_within-NodesTokens (2 * length ts + 2) p (omega arith)
