-- ===== src/Parser/Statements/Sound.antt =====
-- Whatever statement the parser reads, the grammar derives, and the fuel of `parse_node` suffices.
use sigil_lang.Prelude.{
  ℕ, zero, suc, ◌+◌, ◌*◌, ◌≤◌, ◌<◌, ◌≡◌, ◌↔◌, refl, inl, inr, Bool, true, Bool-cases, none, some,
  List, [], ◌∷◌, arith, length, ok,
}
use sigil_lang.Ast.{Span, Node, node, NodeKind, Nodes, end, next}
use sigil_lang.Lexer.Tokens.{Token, TokenKind}
use sigil_lang.Parser.Cursor.{peek, skip_newlines}
use sigil_lang.Parser.Errors.{in_statement}
use sigil_lang.Parser.Outcome.{
  Parser, continue, here, there, skip_newlines-Suffix, Ensures, holds, rejected, Ensures-continue,
  Ensures-within, Ensures-ok, Ensures-map,
}
use sigil_lang.Parser.Words.{token, expect_identifier-Ensures, parse_integer-Ensures}
use sigil_lang.Parser.Names.{parse_outputs-Ensures, parse_handles-Ensures}
use sigil_lang.Parser.Exprs.Sound.{parse_expr-Ensures, parse_args-Ensures, parse_offset-Ensures}
use sigil_lang.Parser.Statements.{
  ends_scope, parse_node_within, parse_nodes_within, parse_node, parse_nodes, skip_indent,
  parse_statement,
}
use sigil_lang.Parser.Statements.Grammar.{
  StatementTokens, a_label, a_scope, a_branch, a_jump, a_set, a_discard, a_store, a_free, a_send,
  a_close, a_wait_all, a_call, a_binding, NodeTokens, indented, plain, NodesTokens, no_more,
  one_more, skip_newlines-length, NodeTokens-length,
}
use sigil_lang.Parser.Statements.Complete.{parse_node-NodeTokens}
use sigil_lang.Parser.Statements.Bindings.{place-Ensures, leave_scope-Ensures, binding-Ensures}

-- One statement, where the recursive call on the statements of a scope does as the grammar says.
module _ (nodes : (TokenKind → Bool) → Parser Nodes) (ts : List Token)
    (nodes_sound : (stop : TokenKind → Bool) (us : List Token)
      → length us ≤ length ts
      → Ensures (λ ns rest. NodesTokens stop ns us rest) us (nodes stop us)) where
  statement-Ensures :
      (k : TokenKind) (sp : Span)
      → Ensures
          (λ x rest. StatementTokens x (token k sp ∷ ts) rest)
          (token k sp ∷ ts)
          (parse_statement nodes k (token k sp ∷ ts))
  unfolding parse_statement
  statement-Ensures TokenKind.label sp = Ensures-within (there (token TokenKind.label sp) ts here) (
      Ensures-continue (expect_identifier-Ensures ts)
        λ s rest p. holds (NodeKind.label s) rest here (a_label sp s ts rest p))
  statement-Ensures TokenKind.scope sp = Ensures-within (there (token TokenKind.scope sp) ts here) (
      Ensures-within (skip_newlines-Suffix ts) (
        Ensures-continue (nodes_sound ends_scope (skip_newlines ts) (skip_newlines-length ts))
          λ ns us p.
            Ensures-map (leave_scope-Ensures ns us)
              λ x rest (e, q). rw e (a_scope sp ns ts us rest p q)))
  statement-Ensures TokenKind.branch sp =
      Ensures-within (there (token TokenKind.branch sp) ts here) (
        Ensures-continue (parse_expr-Ensures ts) λ e us p.
          Ensures-continue (expect_identifier-Ensures us) λ s vs q.
            Ensures-continue (expect_identifier-Ensures vs) λ t rest r.
              holds (NodeKind.branch e s t) rest here (a_branch sp e s t ts us vs rest p q r))
  statement-Ensures TokenKind.jump sp = Ensures-within (there (token TokenKind.jump sp) ts here) (
      Ensures-continue (expect_identifier-Ensures ts)
        λ s rest p. holds (NodeKind.jump s) rest here (a_jump sp s ts rest p))
  statement-Ensures TokenKind.set sp = Ensures-within (there (token TokenKind.set sp) ts here) (
      Ensures-continue (expect_identifier-Ensures ts) λ s us p.
        Ensures-continue (parse_expr-Ensures us)
          λ e rest q. holds (NodeKind.set s e) rest here (a_set sp s e ts us rest p q))
  statement-Ensures TokenKind.discard sp =
      Ensures-within (there (token TokenKind.discard sp) ts here) (
        Ensures-continue (expect_identifier-Ensures ts) λ s us p.
          Ensures-continue (place-Ensures s us)
            λ e rest q. holds (NodeKind.discard e) rest here (a_discard sp s e ts us rest p q))
  statement-Ensures TokenKind.store sp = Ensures-within (there (token TokenKind.store sp) ts here) (
      Ensures-continue (expect_identifier-Ensures ts) λ s us p.
        Ensures-continue (parse_expr-Ensures us) λ e vs q.
          Ensures-continue (parse_integer-Ensures vs) λ n ws r.
            Ensures-continue (parse_offset-Ensures ws) λ o rest x.
              holds (NodeKind.store s e n o) rest here
                (a_store sp s e n o ts us vs ws rest p q r x))
  statement-Ensures TokenKind.free sp = Ensures-within (there (token TokenKind.free sp) ts here) (
      Ensures-continue (expect_identifier-Ensures ts)
        λ s rest p. holds (NodeKind.free s) rest here (a_free sp s ts rest p))
  statement-Ensures TokenKind.channel_send sp =
      Ensures-within (there (token TokenKind.channel_send sp) ts here) (
        Ensures-continue (expect_identifier-Ensures ts) λ s us p.
          Ensures-continue (parse_expr-Ensures us)
            λ e rest q. holds (NodeKind.channel_send s e) rest here (a_send sp s e ts us rest p q))
  statement-Ensures TokenKind.channel_close sp =
      Ensures-within (there (token TokenKind.channel_close sp) ts here) (
        Ensures-continue (expect_identifier-Ensures ts)
          λ s rest p. holds (NodeKind.channel_close s) rest here (a_close sp s ts rest p))
  statement-Ensures TokenKind.wait_all sp =
      Ensures-within (there (token TokenKind.wait_all sp) ts here) (
        Ensures-continue (parse_handles-Ensures ts)
          λ hs rest p. holds (NodeKind.wait_all [] hs) rest here (a_wait_all sp hs ts rest p))
  statement-Ensures TokenKind.call sp = Ensures-within (there (token TokenKind.call sp) ts here) (
      Ensures-continue (expect_identifier-Ensures ts) λ s us p.
        Ensures-continue (parse_args-Ensures true us) λ es vs q.
          Ensures-continue (parse_outputs-Ensures vs) λ os rest r.
            holds (NodeKind.call_node none s es os) rest here
              (a_call sp s es os ts us vs rest p q r))
  statement-Ensures (TokenKind.identifier s) sp =
      Ensures-within (there (token (TokenKind.identifier s) sp) ts here)
        (Ensures-map (binding-Ensures s ts) λ x rest p. a_binding sp s x ts rest p)
  statement-Ensures k sp = rejected (token k sp ∷ ts) (in_statement k) here

-- The same at any tokens, and after an indent.
module _ (nodes : (TokenKind → Bool) → Parser Nodes) where
  first-Ensures :
      (ts : List Token)
      → ((stop : TokenKind → Bool) (us : List Token)
          → length us < length ts
          → Ensures (λ ns rest. NodesTokens stop ns us rest) us (nodes stop us))
      → Ensures (λ x rest. StatementTokens x ts rest) ts (parse_statement nodes (peek ts).kind ts)
  unfolding parse_statement
  first-Ensures [] h = rejected [] _ here
  first-Ensures (t ∷ ts) h =
      statement-Ensures nodes ts (λ stop us l. h stop us (omega arith)) t.kind t.span

  body-Ensures :
      (ts : List Token)
      → ((stop : TokenKind → Bool) (us : List Token)
          → length us < length ts
          → Ensures (λ ns rest. NodesTokens stop ns us rest) us (nodes stop us))
      → Ensures
          (λ n rest. NodeTokens n ts rest)
          ts
          (continue
            (parse_statement nodes (peek (skip_indent ts)).kind (skip_indent ts))
            (λ kind rest. some (ok (node (peek (skip_indent ts)).span kind, rest))))
  unfolding skip_indent
  body-Ensures [] h =
      Ensures-continue (first-Ensures [] h)
        λ x rest p. holds (node (peek []).span x) rest here (plain x [] rest refl p)
  body-Ensures (t ∷ ts) h = go t.kind t.span
    where
      go :
          (k : TokenKind) (sp : Span)
          → Ensures
              (λ n rest. NodeTokens n (token k sp ∷ ts) rest)
              (token k sp ∷ ts)
              (continue
                (parse_statement nodes
                  (peek (skip_indent (token k sp ∷ ts))).kind
                  (skip_indent (token k sp ∷ ts)))
                (λ kind rest.
                  some (ok (node (peek (skip_indent (token k sp ∷ ts))).span kind, rest))))
      go (TokenKind.indent d) sp = Ensures-within (there (token (TokenKind.indent d) sp) ts here) (
          Ensures-continue (first-Ensures ts (λ stop us l. h stop us (omega arith)))
            λ x rest p. holds (node (peek ts).span x) rest here (indented d sp x ts rest p))
      go k sp =
          Ensures-continue (first-Ensures (token k sp ∷ ts) h)
            λ x rest p. holds (node sp x) rest here (plain x (token k sp ∷ ts) rest refl p)

mutual
  unfolding parse_node_within

  node-Ensures :
      (f : ℕ) (ts : List Token)
      → 2 * length ts < f
      → Ensures (λ n rest. NodeTokens n ts rest) ts (parse_node_within f ts)
  node-Ensures zero ts l = absurd (omega arith)
  node-Ensures (suc f) ts l =
      body-Ensures (parse_nodes_within f) ts (λ stop us h. nodes-Ensures f stop us (omega arith))

  nodes-Ensures :
      (f : ℕ) (stop : TokenKind → Bool) (ts : List Token)
      → 2 * length ts + 1 < f
      → Ensures (λ ns rest. NodesTokens stop ns ts rest) ts (parse_nodes_within f stop ts)
  nodes-Ensures zero stop ts l = absurd (omega arith)
  nodes-Ensures (suc f) stop ts l = elim (Bool-cases (stop (peek (skip_newlines ts)).kind)) [
    | inl h ↦
        rw (h, parse_nodes_within)
          (holds end (skip_newlines ts) (skip_newlines-Suffix ts) (no_more stop ts h))
    | inr h ↦
        rw (h, parse_nodes_within)
          (Ensures-within (skip_newlines-Suffix ts) (
            Ensures-continue
              (node-Ensures f (skip_newlines ts) (omega (arith, skip_newlines-length ts)))
              λ n us p.
                Ensures-continue
                  (nodes-Ensures f stop us
                    (omega (arith, skip_newlines-length ts, NodeTokens-length p)))
                  λ ns rest q. holds (next n ns) rest here (one_more stop n ns ts us rest h p q)))
  ]

pub parse_node-Ensures :
    (ts : List Token) → Ensures (λ n rest. NodeTokens n ts rest) ts (parse_node ts)
unfolding parse_node
parse_node-Ensures ts = node-Ensures (2 * length ts + 1) ts (omega arith)

pub parse_nodes-Ensures :
    (stop : TokenKind → Bool) (ts : List Token)
    → Ensures (λ ns rest. NodesTokens stop ns ts rest) ts (parse_nodes stop ts)
unfolding parse_nodes
parse_nodes-Ensures stop ts = nodes-Ensures (2 * length ts + 2) stop ts (omega arith)

-- The parser reads a statement off the front of the tokens exactly if the grammar derives it, with the
-- same tokens left.
pub parse_node_iff :
    (n : Node) (ts rest : List Token) → (parse_node ts ≡ some (ok (n, rest))) ↔ NodeTokens n ts rest
parse_node_iff n ts rest = (Ensures-ok (parse_node-Ensures ts), parse_node-NodeTokens)
