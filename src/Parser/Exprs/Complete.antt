-- ===== src/Parser/Exprs/Complete.antt =====
-- Whatever the grammar derives, the parser reads.
use sigil_lang.Prelude.{
  ℕ, zero, suc, ◌+◌, ◌*◌, ◌<◌, ◌≡◌, refl, ◌∙◌, Bool, true, false, some, List, ◌∷◌, arith, Text,
  length, ok,
}
use sigil_lang.Ast.{Span, Expr, Exprs, Offset}
use sigil_lang.Lexer.Tokens.{Token, TokenKind}
use sigil_lang.Parser.Cursor.{peek, advance}
use sigil_lang.Parser.Words.{
  token, NameTokens, NameTokens-length, NumberTokens-length, TypeTokens-length, expect_identifier,
  expect_identifier-NameTokens, parse_integer-NumberTokens, parse_type-TypeTokens, name,
}
use sigil_lang.Parser.Exprs.{
  Head, other, is_dot, parse_shared, parse_place, parse_offset, parse_expr_within,
  parse_args_within, parse_expr, parse_args,
}
use sigil_lang.Parser.Exprs.Grammar.{
  form_of, head_of-form_of, starts_offset-opens_offset, ends_args-stops_args, SharedTokens, shared,
  unshared, ExprTokens, a_literal, a_load, an_alloc, a_unary, a_binary, a_cas, a_conversion, a_call,
  a_use, a_channel, a_var, a_field, OffsetTokens, without_offset, an_offset, ArgsTokens, no_more,
  one_more, ExprTokens-length,
}

abbrev pub is_other : Head → Bool
is_other other = true
is_other _ = false

pub advance-head :
    (k : TokenKind) (sp : Span) (ts : List Token)
    → is_other (form_of k) ≡ false
    → advance (token k sp ∷ ts) ≡ ts
unfolding advance form_of
advance-head TokenKind.eof sp ts h = cc
advance-head k sp ts h = refl

parse_shared-SharedTokens :
    {b : Bool} {ts rest : List Token}
    → SharedTokens b ts rest
    → parse_shared ts ≡ some (ok (b, rest))
unfolding parse_shared
parse_shared-SharedTokens (shared sp ts) = refl
parse_shared-SharedTokens (unshared ts h) = rw (h, parse_shared) refl

pub parse_place-var :
    (s : Text) (ts : List Token)
    → is_dot (peek ts).kind ≡ false
    → parse_place s ts ≡ some (ok (Expr.var s, ts))
unfolding parse_place
parse_place-var s ts h = rw (h, parse_place) refl

pub parse_place-field :
    (s f : Text) (sq : Span) {ts rest : List Token}
    → NameTokens f ts rest
    → parse_place s (token TokenKind.dot sq ∷ ts) ≡ some (ok (Expr.field (Expr.var s) f, rest))
unfolding parse_place expect_identifier
parse_place-field s f sq (name sp ts) = refl

mutual
  unfolding parse_expr_within parse_offset

  parse_expr_within-ExprTokens :
      (f : ℕ) {e : Expr} {ts rest : List Token}
      → ExprTokens e ts rest
      → 2 * length ts < f
      → parse_expr_within f ts ≡ some (ok (e, rest))
  parse_expr_within-ExprTokens zero p l = absurd (omega arith)
  parse_expr_within-ExprTokens (suc f) (a_literal k sp e ts h) l =
      simp (head_of-form_of k, h, advance-head k sp ts (rw h refl))
  parse_expr_within-ExprTokens (suc f) (a_load sp e n o ts us vs rest p q r) l = simp (
    parse_expr_within-ExprTokens f p (omega arith),
    parse_integer-NumberTokens q,
    parse_offset-OffsetTokens f r (omega (arith, ExprTokens-length p, NumberTokens-length q)),
  )
  parse_expr_within-ExprTokens (suc f) (an_alloc sp e t b ts us vs rest p q r) l = simp (
    parse_expr_within-ExprTokens f p (omega arith),
    parse_type-TypeTokens t q,
    parse_shared-SharedTokens r,
  )
  parse_expr_within-ExprTokens (suc f) (a_unary k c sp a n ts us rest h p q) l = simp (
    head_of-form_of k,
    h,
    advance-head k sp ts (rw h refl),
    parse_expr_within-ExprTokens f p (omega arith),
    parse_integer-NumberTokens q,
  )
  parse_expr_within-ExprTokens (suc f) (a_binary k c sp a b n ts us vs rest h p q r) l = simp (
    head_of-form_of k,
    h,
    advance-head k sp ts (rw h refl),
    parse_expr_within-ExprTokens f p (omega arith),
    parse_expr_within-ExprTokens f q (omega (arith, ExprTokens-length p)),
    parse_integer-NumberTokens r,
  )
  parse_expr_within-ExprTokens (suc f) (a_cas sp a b c n ts us vs ws rest p q r s) l = simp (
    parse_expr_within-ExprTokens f p (omega arith),
    parse_expr_within-ExprTokens f q (omega (arith, ExprTokens-length p)),
    parse_expr_within-ExprTokens f r (omega (arith, ExprTokens-length p, ExprTokens-length q)),
    parse_integer-NumberTokens s,
  )
  parse_expr_within-ExprTokens (suc f) (a_conversion k c sp a m n ts us vs rest h p q r) l = simp (
    head_of-form_of k,
    h,
    advance-head k sp ts (rw h refl),
    parse_expr_within-ExprTokens f p (omega arith),
    parse_integer-NumberTokens q,
    parse_integer-NumberTokens r,
  )
  parse_expr_within-ExprTokens (suc f) (a_call k b c sp s es ts us rest h p q) l = simp (
    head_of-form_of k,
    h,
    advance-head k sp ts (rw h refl),
    expect_identifier-NameTokens p,
    parse_args_within-ArgsTokens f q (omega (arith, NameTokens-length p)),
  )
  parse_expr_within-ExprTokens (suc f) (a_use k c sp s ts rest h p) l =
      simp (head_of-form_of k, h, advance-head k sp ts (rw h refl), expect_identifier-NameTokens p)
  parse_expr_within-ExprTokens (suc f) (a_channel sp t e ts us rest p q) l = simp (
    parse_type-TypeTokens t p,
    parse_expr_within-ExprTokens f q (omega (arith, TypeTokens-length p)),
  )
  parse_expr_within-ExprTokens (suc f) (a_var s sp ts h) l = parse_place-var s ts h
  parse_expr_within-ExprTokens (suc f) (a_field s g sp sq ts rest p) l = parse_place-field s g sq p

  parse_offset-OffsetTokens :
      (f : ℕ) {o : Offset} {ts rest : List Token}
      → OffsetTokens o ts rest
      → 2 * length ts < f
      → parse_offset (parse_expr_within f) (parse_args_within f) ts ≡ some (ok (o, rest))
  parse_offset-OffsetTokens f (without_offset ts h) l =
      rw (starts_offset-opens_offset (peek ts).kind ∙ h, parse_offset) refl
  parse_offset-OffsetTokens f (an_offset e ts rest h p) l =
      rw (starts_offset-opens_offset (peek ts).kind ∙ h, parse_offset)
        (simp (parse_expr_within-ExprTokens f p l))

  parse_args_within-ArgsTokens :
      (f : ℕ) {b : Bool} {es : Exprs} {ts rest : List Token}
      → ArgsTokens b es ts rest
      → 2 * length ts + 1 < f
      → parse_args_within f b ts ≡ some (ok (es, rest))
  parse_args_within-ArgsTokens zero p l = absurd (omega arith)
  parse_args_within-ArgsTokens (suc f) (no_more b ts h) l =
      rw (ends_args-stops_args b (peek ts).kind ∙ h, parse_args_within) refl
  parse_args_within-ArgsTokens (suc f) (one_more b e es ts us rest h p q) l =
      rw (ends_args-stops_args b (peek ts).kind ∙ h, parse_args_within)
        (simp (
          parse_expr_within-ExprTokens f p (omega arith),
          parse_args_within-ArgsTokens f q (omega (arith, ExprTokens-length p)),
        ))

pub parse_expr-ExprTokens :
    {e : Expr} {ts rest : List Token} → ExprTokens e ts rest → parse_expr ts ≡ some (ok (e, rest))
unfolding parse_expr
parse_expr-ExprTokens {ts} p = parse_expr_within-ExprTokens (2 * length ts + 1) p (omega arith)

pub parse_args-ArgsTokens :
    {b : Bool} {es : Exprs} {ts rest : List Token}
    → ArgsTokens b es ts rest
    → parse_args b ts ≡ some (ok (es, rest))
unfolding parse_args
parse_args-ArgsTokens {ts} p = parse_args_within-ArgsTokens (2 * length ts + 2) p (omega arith)

pub parse_offset_lem :
    {o : Offset} {ts rest : List Token}
    → OffsetTokens o ts rest
    → parse_offset parse_expr parse_args ts ≡ some (ok (o, rest))
unfolding parse_offset
parse_offset_lem (without_offset ts h) =
    rw (starts_offset-opens_offset (peek ts).kind ∙ h, parse_offset) refl
parse_offset_lem (an_offset e ts rest h p) =
    rw (starts_offset-opens_offset (peek ts).kind ∙ h, parse_offset)
      (simp (parse_expr-ExprTokens p))
