-- ===== src/Parser/Statements/Bindings.antt =====
-- What the parser reads within a statement, the grammar derives: places, and what follows a name.
use sigil_lang.Prelude.{◌≡◌, refl, some, List, [], ◌∷◌, Text, ok}
use sigil_lang.Ast.{Span, Expr, NodeKind, Nodes}
use sigil_lang.Lexer.Tokens.{Token, TokenKind}
use sigil_lang.Parser.Errors.{after_targets, wait_any_targets, after_identifier, expected_token}
use sigil_lang.Parser.Outcome.{
  continue, here, there, Ensures, holds, rejected, Ensures-continue, Ensures-within, Ensures-map,
}
use sigil_lang.Parser.Words.{token, expect, expect_identifier-Ensures}
use sigil_lang.Parser.Names.{names-Ensures, comma_names-Ensures, parse_handles-Ensures}
use sigil_lang.Parser.Exprs.{parse_place}
use sigil_lang.Parser.Exprs.Sound.{parse_expr-Ensures}
use sigil_lang.Parser.Statements.{
  is_equals, parse_value, parse_waits, wait_of, wait_any_of, parse_binding, binding_of, leave_scope,
}
use sigil_lang.Parser.Statements.Grammar.{
  PlaceTokens, whole, part, BindingTokens, assigned, waited, several, WaitsTokens, any_of, all_of,
  LeaveTokens, closed, unclosed,
}

pub place-Ensures :
    (s : Text) (ts : List Token) → Ensures (λ e rest. PlaceTokens s e ts rest) ts (parse_place s ts)
unfolding parse_place
place-Ensures s [] = holds (Expr.var s) [] here (whole [] refl)
place-Ensures s (t ∷ ts) = go t.kind t.span
  where
    go :
        (k : TokenKind) (sp : Span)
        → Ensures
            (λ e rest. PlaceTokens s e (token k sp ∷ ts) rest)
            (token k sp ∷ ts)
            (parse_place s (token k sp ∷ ts))
    go TokenKind.dot sp = Ensures-within (there (token TokenKind.dot sp) ts here) (
        Ensures-continue (expect_identifier-Ensures ts)
          λ f rest p. holds (Expr.field (Expr.var s) f) rest here (part f sp ts rest p))
    go k sp = holds (Expr.var s) (token k sp ∷ ts) here (whole (token k sp ∷ ts) refl)

-- The scope is left by at most one token.
pub leave_scope-Ensures :
    (ns : Nodes) (ts : List Token)
    → Ensures
        (λ k rest. (k ≡ NodeKind.scope ns) × LeaveTokens ts rest)
        ts
        (some (ok (NodeKind.scope ns, leave_scope ts)))
unfolding leave_scope
leave_scope-Ensures ns [] = holds (NodeKind.scope ns) [] here (refl, unclosed [] refl)
leave_scope-Ensures ns (t ∷ ts) = go t.kind t.span
  where
    go :
        (k : TokenKind) (sp : Span)
        → Ensures
            (λ x rest. (x ≡ NodeKind.scope ns) × LeaveTokens (token k sp ∷ ts) rest)
            (token k sp ∷ ts)
            (some (ok (NodeKind.scope ns, leave_scope (token k sp ∷ ts))))
    go TokenKind.end_scope sp =
        holds (NodeKind.scope ns) ts (there (token TokenKind.end_scope sp) ts here)
          (refl, closed sp ts)
    go k sp =
        holds (NodeKind.scope ns) (token k sp ∷ ts) here (refl, unclosed (token k sp ∷ ts) refl)

value-Ensures :
    (s : Text) (sp : Span) (ts : List Token)
    → Ensures
        (λ k rest. BindingTokens s k (token TokenKind.equals sp ∷ ts) rest)
        ts
        (parse_value s ts)
unfolding parse_value
value-Ensures s sp [] =
    Ensures-continue (parse_expr-Ensures [])
      λ e rest p. holds (NodeKind.assignment s e) rest here (assigned sp e [] rest refl p)
value-Ensures s sp (t ∷ ts) = go t.kind t.span
  where
    go :
        (k : TokenKind) (sq : Span)
        → Ensures
            (λ x rest. BindingTokens s x (token TokenKind.equals sp ∷ token k sq ∷ ts) rest)
            (token k sq ∷ ts)
            (parse_value s (token k sq ∷ ts))
    go TokenKind.wait_all sq = Ensures-within (there (token TokenKind.wait_all sq) ts here) (
        Ensures-continue (parse_handles-Ensures ts)
          λ hs rest p. holds (NodeKind.wait_all (s ∷ []) hs) rest here (waited sp sq hs ts rest p))
    go k sq = Ensures-continue (parse_expr-Ensures (token k sq ∷ ts)) λ e rest p.
        holds (NodeKind.assignment s e) rest here (assigned sp e (token k sq ∷ ts) rest refl p)

-- After `=` and several targets.
waits-Ensures :
    (s : Text) (ss : List Text) (sp : Span) (ts : List Token)
    → Ensures
        (λ k rest. WaitsTokens s ss k (token TokenKind.equals sp ∷ ts) rest)
        ts
        (parse_waits (s ∷ ss) ts)
unfolding parse_waits wait_of wait_any_of
waits-Ensures s ss sp [] = rejected [] after_targets here
waits-Ensures s ss sp (t ∷ ts) = go ss t.kind t.span
  where
    go :
        (ss : List Text) (k : TokenKind) (sq : Span)
        → Ensures
            (λ x rest. WaitsTokens s ss x (token TokenKind.equals sp ∷ token k sq ∷ ts) rest)
            (token k sq ∷ ts)
            (parse_waits (s ∷ ss) (token k sq ∷ ts))
    go (w ∷ []) TokenKind.wait_any sq =
        Ensures-within (there (token TokenKind.wait_any sq) ts here) (
          Ensures-continue (names-Ensures ts)
            λ hs rest p. holds (NodeKind.wait_any s w hs) rest here (any_of sp sq w hs ts rest p))
    go [] TokenKind.wait_any sq =
        rejected ts wait_any_targets (there (token TokenKind.wait_any sq) ts here)
    go (w ∷ u ∷ more) TokenKind.wait_any sq =
        rejected ts wait_any_targets (there (token TokenKind.wait_any sq) ts here)
    go ss TokenKind.wait_all sq = Ensures-within (there (token TokenKind.wait_all sq) ts here) (
        Ensures-continue (parse_handles-Ensures ts) λ hs rest p.
          holds (NodeKind.wait_all (s ∷ ss) hs) rest here (all_of sp sq ss hs ts rest p))
    go ss k sq = rejected (token k sq ∷ ts) after_targets here

equals-Ensures :
    (s : Text) (ss : List Text) (ts : List Token)
    → Ensures
        (λ k rest. WaitsTokens s ss k ts rest)
        ts
        (continue (expect is_equals TokenKind.equals ts) (λ _. parse_waits (s ∷ ss)))
unfolding expect
equals-Ensures s ss [] = rejected [] _ here
equals-Ensures s ss (t ∷ ts) = go t.kind t.span
  where
    go :
        (k : TokenKind) (sp : Span)
        → Ensures
            (λ x rest. WaitsTokens s ss x (token k sp ∷ ts) rest)
            (token k sp ∷ ts)
            (continue
              (expect is_equals TokenKind.equals (token k sp ∷ ts))
              (λ _. parse_waits (s ∷ ss)))
    go TokenKind.equals sp =
        Ensures-within (there (token TokenKind.equals sp) ts here) (waits-Ensures s ss sp ts)
    go k sp = rejected (token k sp ∷ ts) (expected_token TokenKind.equals k) here

pub binding-Ensures :
    (s : Text) (ts : List Token)
    → Ensures (λ k rest. BindingTokens s k ts rest) ts (parse_binding s ts)
unfolding parse_binding binding_of
binding-Ensures s [] = rejected [] _ here
binding-Ensures s (t ∷ ts) = go t.kind t.span
  where
    go :
        (k : TokenKind) (sp : Span)
        → Ensures
            (λ x rest. BindingTokens s x (token k sp ∷ ts) rest)
            (token k sp ∷ ts)
            (parse_binding s (token k sp ∷ ts))
    go TokenKind.equals sp =
        Ensures-within (there (token TokenKind.equals sp) ts here) (value-Ensures s sp ts)
    go TokenKind.comma sp =
        Ensures-continue (comma_names-Ensures (token TokenKind.comma sp ∷ ts))
          λ ss us p. Ensures-map (equals-Ensures s ss us) λ k rest q. several sp ss k ts us rest p q
    go k sp = rejected (token k sp ∷ ts) (after_identifier s k) here
