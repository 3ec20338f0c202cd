-- ===== src/Parser/Statements/Grammar.antt =====
-- The statements as a grammar: the tokens of a statement and those after it.
use sigil_lang.Prelude.{
  ℕ, ◌≤◌, ◌<◌, ◌≡◌, Bool, true, false, none, List, [], ◌∷◌, arith, Text, length,
}
use sigil_lang.Ast.{Span, Expr, Exprs, Offset, Node, node, NodeKind, Nodes, end, next}
use sigil_lang.Lexer.Tokens.{Token, TokenKind}
use sigil_lang.Parser.Cursor.{peek, skip_newlines}
use sigil_lang.Parser.Outcome.{Suffix-length, skip_newlines-Suffix}
use sigil_lang.Parser.Words.{
  token, NameTokens, NumberTokens, NameTokens-length, NumberTokens-length,
}
use sigil_lang.Parser.Names.{
  HandlesTokens, HandlesTokens-length, NamesTokens, CommasTokens, OutputsTokens, NamesTokens-length,
  CommasTokens-length, OutputsTokens-length,
}
use sigil_lang.Parser.Exprs.{is_dot}
use sigil_lang.Parser.Exprs.Grammar.{
  ExprTokens, OffsetTokens, ArgsTokens, ExprTokens-length, OffsetTokens-length, ArgsTokens-length,
}
use sigil_lang.Parser.Statements.{is_wait_all, is_indent, is_end_scope, ends_scope}

-- A name or a field of one, whose first name was `s`.
pub data PlaceTokens (s : Text) : Expr → List Token → List Token → Type 0 where
  whole : (ts : List Token) → is_dot (peek ts).kind ≡ false → PlaceTokens s (Expr.var s) ts ts
  part :
      (f : Text) (sp : Span) (ts rest : List Token)
      → NameTokens f ts rest
      → PlaceTokens s (Expr.field (Expr.var s) f) (token TokenKind.dot sp ∷ ts) rest

-- What follows several targets, `s` and `ss`.
pub data WaitsTokens (s : Text) : List Text → NodeKind → List Token → List Token → Type 0 where
  any_of :
      (sp sq : Span) (which : Text) (hs : List Text) (ts rest : List Token)
      → NamesTokens hs ts rest
      → WaitsTokens s
          (which ∷ [])
          (NodeKind.wait_any s which hs)
          (token TokenKind.equals sp ∷ token TokenKind.wait_any sq ∷ ts)
          rest
  all_of :
      (sp sq : Span) (ss hs : List Text) (ts rest : List Token)
      → HandlesTokens hs ts rest
      → WaitsTokens s ss
          (NodeKind.wait_all (s ∷ ss) hs)
          (token TokenKind.equals sp ∷ token TokenKind.wait_all sq ∷ ts)
          rest

-- What follows a name at the start of a statement: an assignment, or waiting.
pub data BindingTokens (s : Text) : NodeKind → List Token → List Token → Type 0 where
  assigned :
      (sp : Span) (e : Expr) (ts rest : List Token)
      → is_wait_all (peek ts).kind ≡ false
      → ExprTokens e ts rest
      → BindingTokens s (NodeKind.assignment s e) (token TokenKind.equals sp ∷ ts) rest
  waited :
      (sp sq : Span) (hs : List Text) (ts rest : List Token)
      → HandlesTokens hs ts rest
      → BindingTokens s
          (NodeKind.wait_all (s ∷ []) hs)
          (token TokenKind.equals sp ∷ token TokenKind.wait_all sq ∷ ts)
          rest
  several :
      (sp : Span) (ss : List Text) (k : NodeKind) (ts us rest : List Token)
      → CommasTokens ss (token TokenKind.comma sp ∷ ts) us
      → WaitsTokens s ss k us rest
      → BindingTokens s k (token TokenKind.comma sp ∷ ts) rest

-- The end of a scope, which may be left out before `END` and the end of the tokens.
pub data LeaveTokens : List Token → List Token → Type 0 where
  closed : (sp : Span) (ts : List Token) → LeaveTokens (token TokenKind.end_scope sp ∷ ts) ts
  unclosed : (ts : List Token) → is_end_scope (peek ts).kind ≡ false → LeaveTokens ts ts

mutual
  pub data StatementTokens : NodeKind → List Token → List Token → Type 0 where
    a_label :
        (sp : Span) (s : Text) (ts rest : List Token)
        → NameTokens s ts rest
        → StatementTokens (NodeKind.label s) (token TokenKind.label sp ∷ ts) rest
    a_scope :
        (sp : Span) (ns : Nodes) (ts us rest : List Token)
        → NodesTokens ends_scope ns (skip_newlines ts) us
        → LeaveTokens us rest
        → StatementTokens (NodeKind.scope ns) (token TokenKind.scope sp ∷ ts) rest
    a_branch :
        (sp : Span) (e : Expr) (s t : Text) (ts us vs rest : List Token)
        → ExprTokens e ts us
        → NameTokens s us vs
        → NameTokens t vs rest
        → StatementTokens (NodeKind.branch e s t) (token TokenKind.branch sp ∷ ts) rest
    a_jump :
        (sp : Span) (s : Text) (ts rest : List Token)
        → NameTokens s ts rest
        → StatementTokens (NodeKind.jump s) (token TokenKind.jump sp ∷ ts) rest
    a_set :
        (sp : Span) (s : Text) (e : Expr) (ts us rest : List Token)
        → NameTokens s ts us
        → ExprTokens e us rest
        → StatementTokens (NodeKind.set s e) (token TokenKind.set sp ∷ ts) rest
    a_discard :
        (sp : Span) (s : Text) (e : Expr) (ts us rest : List Token)
        → NameTokens s ts us
        → PlaceTokens s e us rest
        → StatementTokens (NodeKind.discard e) (token TokenKind.discard sp ∷ ts) rest
    a_store :
        (sp : Span) (s : Text) (e : Expr) (n : ℕ) (o : Offset) (ts us vs ws rest : List Token)
        → NameTokens s ts us
        → ExprTokens e us vs
        → NumberTokens n vs ws
        → OffsetTokens o ws rest
        → StatementTokens (NodeKind.store s e n o) (token TokenKind.store sp ∷ ts) rest
    a_free :
        (sp : Span) (s : Text) (ts rest : List Token)
        → NameTokens s ts rest
        → StatementTokens (NodeKind.free s) (token TokenKind.free sp ∷ ts) rest
    a_send :
        (sp : Span) (s : Text) (e : Expr) (ts us rest : List Token)
        → NameTokens s ts us
        → ExprTokens e us rest
        → StatementTokens (NodeKind.channel_send s e) (token TokenKind.channel_send sp ∷ ts) rest
    a_close :
        (sp : Span) (s : Text) (ts rest : List Token)
        → NameTokens s ts rest
        → StatementTokens (NodeKind.channel_close s) (token TokenKind.channel_close sp ∷ ts) rest
    a_wait_all :
        (sp : Span) (hs : List Text) (ts rest : List Token)
        → HandlesTokens hs ts rest
        → StatementTokens (NodeKind.wait_all [] hs) (token TokenKind.wait_all sp ∷ ts) rest
    a_call :
        (sp : Span) (s : Text) (es : Exprs) (os : List Text) (ts us vs rest : List Token)
        → NameTokens s ts us
        → ArgsTokens true es us vs
        → OutputsTokens os vs rest
        → StatementTokens (NodeKind.call_node none s es os) (token TokenKind.call sp ∷ ts) rest
    a_binding :
        (sp : Span) (s : Text) (k : NodeKind) (ts rest : List Token)
        → BindingTokens s k ts rest
        → StatementTokens k (token (TokenKind.identifier s) sp ∷ ts) rest

  -- The span of a statement is that of its first token, after an indent.
  pub data NodeTokens : Node → List Token → List Token → Type 0 where
    indented :
        (d : ℕ) (sp : Span) (k : NodeKind) (ts rest : List Token)
        → StatementTokens k ts rest
        → NodeTokens (node (peek ts).span k) (token (TokenKind.indent d) sp ∷ ts) rest
    plain :
        (k : NodeKind) (ts rest : List Token)
        → is_indent (peek ts).kind ≡ false
        → StatementTokens k ts rest
        → NodeTokens (node (peek ts).span k) ts rest

  -- Statements, up to a token that ends them.
  pub data NodesTokens : (TokenKind → Bool) → Nodes → List Token → List Token → Type 0 where
    no_more :
        (stop : TokenKind → Bool) (ts : List Token)
        → stop (peek (skip_newlines ts)).kind ≡ true
        → NodesTokens stop end ts (skip_newlines ts)
    one_more :
        (stop : TokenKind → Bool) (n : Node) (ns : Nodes) (ts us rest : List Token)
        → stop (peek (skip_newlines ts)).kind ≡ false
        → NodeTokens n (skip_newlines ts) us
        → NodesTokens stop ns us rest
        → NodesTokens stop (next n ns) ts rest

pub skip_newlines-length : (ts : List Token) → length (skip_newlines ts) ≤ length ts
skip_newlines-length ts = Suffix-length (skip_newlines-Suffix ts)

WaitsTokens-length :
    {s : Text} {ss : List Text} {k : NodeKind} {ts rest : List Token}
    → WaitsTokens s ss k ts rest
    → length rest < length ts
WaitsTokens-length (any_of sp sq w hs ts rest p) = omega (arith, NamesTokens-length p)
WaitsTokens-length (all_of sp sq ss hs ts rest p) = omega (arith, HandlesTokens-length p)

pub BindingTokens-length :
    {s : Text} {k : NodeKind} {ts rest : List Token}
    → BindingTokens s k ts rest
    → length rest < length ts
BindingTokens-length (assigned sp e ts rest h p) = omega (arith, ExprTokens-length p)
BindingTokens-length (waited sp sq hs ts rest p) = omega (arith, HandlesTokens-length p)
BindingTokens-length (several sp ss k ts us rest p q) =
    omega (arith, CommasTokens-length p, WaitsTokens-length q)

PlaceTokens-length :
    {s : Text} {e : Expr} {ts rest : List Token} → PlaceTokens s e ts rest → length rest ≤ length ts
PlaceTokens-length (whole ts h) = omega arith
PlaceTokens-length (part f sp ts rest p) = omega (arith, NameTokens-length p)

LeaveTokens-length : {ts rest : List Token} → LeaveTokens ts rest → length rest ≤ length ts
LeaveTokens-length (closed sp ts) = omega arith
LeaveTokens-length (unclosed ts h) = omega arith

mutual
  pub StatementTokens-length :
      {k : NodeKind} {ts rest : List Token} → StatementTokens k ts rest → length rest < length ts
  StatementTokens-length (a_label sp s ts rest p) = omega (arith, NameTokens-length p)
  StatementTokens-length (a_scope sp ns ts us rest p q) =
      omega (arith, skip_newlines-length ts, NodesTokens-length p, LeaveTokens-length q)
  StatementTokens-length (a_branch sp e s t ts us vs rest p q r) =
      omega (arith, ExprTokens-length p, NameTokens-length q, NameTokens-length r)
  StatementTokens-length (a_jump sp s ts rest p) = omega (arith, NameTokens-length p)
  StatementTokens-length (a_set sp s e ts us rest p q) =
      omega (arith, NameTokens-length p, ExprTokens-length q)
  StatementTokens-length (a_discard sp s e ts us rest p q) =
      omega (arith, NameTokens-length p, PlaceTokens-length q)
  StatementTokens-length (a_store sp s e n o ts us vs ws rest p q r x) = omega (
    arith,
    NameTokens-length p,
    ExprTokens-length q,
    NumberTokens-length r,
    OffsetTokens-length x,
  )
  StatementTokens-length (a_free sp s ts rest p) = omega (arith, NameTokens-length p)
  StatementTokens-length (a_send sp s e ts us rest p q) =
      omega (arith, NameTokens-length p, ExprTokens-length q)
  StatementTokens-length (a_close sp s ts rest p) = omega (arith, NameTokens-length p)
  StatementTokens-length (a_wait_all sp hs ts rest p) = omega (arith, HandlesTokens-length p)
  StatementTokens-length (a_call sp s es os ts us vs rest p q r) =
      omega (arith, NameTokens-length p, ArgsTokens-length q, OutputsTokens-length r)
  StatementTokens-length (a_binding sp s k ts rest p) = omega (arith, BindingTokens-length p)

  pub NodeTokens-length :
      {n : Node} {ts rest : List Token} → NodeTokens n ts rest → length rest < length ts
  NodeTokens-length (indented d sp k ts rest p) = omega (arith, StatementTokens-length p)
  NodeTokens-length (plain k ts rest h p) = omega (arith, StatementTokens-length p)

  pub NodesTokens-length :
      {stop : TokenKind → Bool} {ns : Nodes} {ts rest : List Token}
      → NodesTokens stop ns ts rest
      → length rest ≤ length ts
  NodesTokens-length (no_more stop ts e) = skip_newlines-length ts
  NodesTokens-length (one_more stop n ns ts us rest e p q) =
      omega (arith, skip_newlines-length ts, NodeTokens-length p, NodesTokens-length q)
