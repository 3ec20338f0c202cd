-- ===== src/Parser/Exprs.antt =====
-- compiler/src/parser.rs, `parse_expr`. The arms of its `match` are grouped by what they read after
-- their first token; the expression that an arm builds is a field of its group.
pub mod Grammar
pub mod Sound
pub mod Complete
use sigil_lang.Prelude.{
  ℕ, zero, suc, ◌+◌, ◌*◌, Bool, true, false, none, some, List, [], ◌∷◌, Text, length, ok,
}
use sigil_lang.Ast.{Ty, Expr, Exprs, nil, cons, Offset, no_offset, at_offset}
use sigil_lang.Lexer.Tokens.{Token, TokenKind}
use sigil_lang.Parser.Cursor.{peek, advance}
use sigil_lang.Parser.Errors.{in_expression}
use sigil_lang.Parser.Outcome.{Parser, ◌>>=◌, return, fail}
use sigil_lang.Parser.Words.{expect_identifier, parse_type, parse_integer}

pub data Head : Type 0 where
  literal : Expr → Head
  load alloc cas channel : Head
  unary : (Expr → ℕ → Expr) → Head
  binary : (Expr → Expr → ℕ → Expr) → Head
  convert : (Expr → ℕ → ℕ → Expr) → Head
  with_args : Bool → (Text → Exprs → Expr) → Head
  with_name : (Text → Expr) → Head
  named : Text → Head
  other : Head

-- `with_args` says whether `->` ends the arguments too.
unfoldable pub head_of : TokenKind → Head
head_of (TokenKind.integer n) = literal (Expr.int_lit n)
head_of (TokenKind.float_lit f) = literal (Expr.float_lit f)
head_of (TokenKind.string_lit s) = literal (Expr.string_lit s)
head_of TokenKind.load = load
head_of TokenKind.alloc = alloc
head_of TokenKind.iadd = binary Expr.iadd
head_of TokenKind.isub = binary Expr.isub
head_of TokenKind.imul = binary Expr.imul
head_of TokenKind.idiv = binary Expr.idiv
head_of TokenKind.imod = binary Expr.imod
head_of TokenKind.ieq = binary Expr.ieq
head_of TokenKind.ine = binary Expr.ine
head_of TokenKind.ilt = binary Expr.ilt
head_of TokenKind.igt = binary Expr.igt
head_of TokenKind.ile = binary Expr.ile
head_of TokenKind.ige = binary Expr.ige
head_of TokenKind.and = binary Expr.and
head_of TokenKind.or = binary Expr.or
head_of TokenKind.xor = binary Expr.xor
head_of TokenKind.shl = binary Expr.shl
head_of TokenKind.shr = binary Expr.shr
head_of TokenKind.sar = binary Expr.sar
head_of TokenKind.fadd = binary Expr.fadd
head_of TokenKind.fsub = binary Expr.fsub
head_of TokenKind.fmul = binary Expr.fmul
head_of TokenKind.fdiv = binary Expr.fdiv
head_of TokenKind.feq = binary Expr.feq
head_of TokenKind.fne = binary Expr.fne
head_of TokenKind.flt = binary Expr.flt
head_of TokenKind.fgt = binary Expr.fgt
head_of TokenKind.fle = binary Expr.fle
head_of TokenKind.fge = binary Expr.fge
head_of TokenKind.atomic_store = binary Expr.atomic_store
head_of TokenKind.atomic_add = binary Expr.atomic_add
head_of TokenKind.atomic_sub = binary Expr.atomic_sub
head_of TokenKind.ineg = unary Expr.ineg
head_of TokenKind.not = unary Expr.not
head_of TokenKind.fneg = unary Expr.fneg
head_of TokenKind.atomic_load = unary Expr.atomic_load
head_of TokenKind.cas = cas
head_of TokenKind.ftoi = convert Expr.ftoi
head_of TokenKind.itof = convert Expr.itof
head_of TokenKind.call = with_args true Expr.call
head_of TokenKind.spawn = with_args false Expr.spawn
head_of TokenKind.channel_receive = with_name Expr.channel_receive
head_of TokenKind.wait = with_name Expr.wait
head_of TokenKind.channel = channel
head_of (TokenKind.identifier s) = named s
head_of _ = other

-- The tests of `matches!`.
unfoldable pub starts_offset : TokenKind → Bool
starts_offset (TokenKind.integer _) = true
starts_offset (TokenKind.identifier _) = true
starts_offset _ = false

unfoldable pub ends_args : Bool → TokenKind → Bool
ends_args b TokenKind.newline = true
ends_args b TokenKind.eof = true
ends_args b TokenKind.arrow = b
ends_args b _ = false

abbrev pub is_dot : TokenKind → Bool
is_dot TokenKind.dot = true
is_dot _ = false

abbrev pub is_shared : TokenKind → Bool
is_shared TokenKind.shared = true
is_shared _ = false

unfoldable pub parse_shared : Parser Bool
unfolding peek advance
parse_shared ts = elim (is_shared (peek ts).kind) [
  | true ↦ some (ok (true, advance ts))
  | false ↦ some (ok (false, ts))
]

-- A name, or a field of it.
unfoldable pub parse_place : Text → Parser Expr
unfolding peek advance expect_identifier
parse_place s ts = elim (is_dot (peek ts).kind) [
  | true ↦ (expect_identifier >>= λ f. return (Expr.field (Expr.var s) f)) (advance ts)
  | false ↦ some (ok (Expr.var s, ts))
]

-- The arms, with the two recursive calls as arguments.
module _ (expr : Parser Expr) (args : Bool → Parser Exprs) where
  unfoldable pub parse_offset : Parser Offset
  unfolding peek
  parse_offset ts = elim (starts_offset (peek ts).kind) [
    | true ↦ (expr >>= λ e. return (at_offset e)) ts
    | false ↦ some (ok (no_offset, ts))
  ]

  unfoldable pub parse_arm : Head → Parser Expr
  unfolding parse_offset parse_shared parse_place expect_identifier parse_type parse_integer peek
      advance fail
  parse_arm (literal e) ts = some (ok (e, advance ts))
  parse_arm load ts =
      (do
        source ← expr
        size ← parse_integer
        offset ← parse_offset
        return (Expr.load source size offset))
        (advance ts)
  parse_arm alloc ts =
      (do size ← expr; typ ← parse_type; shared ← parse_shared; return (Expr.alloc size typ shared))
        (advance ts)
  parse_arm (unary c) ts = (do a ← expr; size ← parse_integer; return (c a size)) (advance ts)
  parse_arm (binary c) ts =
      (do a ← expr; b ← expr; size ← parse_integer; return (c a b size)) (advance ts)
  parse_arm cas ts =
      (do
        addr ← expr
        expected ← expr
        new ← expr
        size ← parse_integer
        return (Expr.cas addr expected new size))
        (advance ts)
  parse_arm (convert c) ts =
      (do value ← expr; from ← parse_integer; to ← parse_integer; return (c value from to))
        (advance ts)
  parse_arm (with_args b c) ts =
      (do name ← expect_identifier; es ← args b; return (c name es)) (advance ts)
  parse_arm (with_name c) ts = (do name ← expect_identifier; return (c name)) (advance ts)
  parse_arm channel ts =
      (do typ ← parse_type; capacity ← expr; return (Expr.channel typ capacity)) (advance ts)
  parse_arm (named s) ts = parse_place s (advance ts)
  parse_arm other ts = fail (in_expression (peek ts).kind) ts

-- Each call takes one unit of fuel.
unfoldable mutual
  unfolding head_of parse_arm ends_args peek

  pub parse_expr_within : ℕ → Parser Expr
  parse_expr_within zero ts = none
  parse_expr_within (suc fuel) ts =
      parse_arm (parse_expr_within fuel) (parse_args_within fuel) (head_of (peek ts).kind) ts

  -- The loops over arguments.
  pub parse_args_within : ℕ → Bool → Parser Exprs
  parse_args_within zero b ts = none
  parse_args_within (suc fuel) b ts = elim (ends_args b (peek ts).kind) [
    | true ↦ some (ok (nil, ts))
    | false ↦ (do e ← parse_expr_within fuel; es ← parse_args_within fuel b; return (cons e es)) ts
  ]

-- A token is read between a call and the next but one.
unfoldable pub parse_expr : Parser Expr
unfolding parse_expr_within
parse_expr ts = parse_expr_within (2 * length ts + 1) ts

-- The loop over the arguments of a statement.
unfoldable pub parse_args : Bool → Parser Exprs
unfolding parse_args_within
parse_args b ts = parse_args_within (2 * length ts + 2) b ts
