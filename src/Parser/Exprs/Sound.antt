-- ===== src/Parser/Exprs/Sound.antt =====
-- Whatever the parser reads, the grammar derives, and the fuel of `parse_expr` suffices.
use sigil_lang.Prelude.{
  ℕ, zero, suc, ◌+◌, ◌*◌, ◌<◌, ◌≤◌, ◌↔◌, ◌≡◌, refl, sym, ◌∙◌, inl, inr, Bool, true, false,
  Bool-cases, some, List, [], ◌∷◌, arith, Text, length, ok,
}
use mathlib.Core.Path.{subst}
use sigil_lang.Ast.{Span, Expr, Exprs, nil, cons, no_offset, at_offset}
use sigil_lang.Lexer.Tokens.{Token, TokenKind}
use sigil_lang.Parser.Cursor.{peek}
use sigil_lang.Parser.Errors.{in_expression}
use sigil_lang.Parser.Outcome.{
  Outcome, Parser, here, there, Ensures, holds, rejected, Ensures-continue, Ensures-within,
  Ensures-ok,
}
use sigil_lang.Parser.Words.{
  token, NameTokens-length, NumberTokens-length, TypeTokens-length, expect_identifier-Ensures,
  parse_integer-Ensures, parse_type-Ensures,
}
use sigil_lang.Parser.Exprs.{
  Head, head_of, literal, load, alloc, cas, channel, named, other, unary, binary, convert,
  with_args, with_name, starts_offset, ends_args, parse_shared, parse_place, parse_offset,
  parse_arm, parse_expr_within, parse_args_within, parse_expr, parse_args,
}
use sigil_lang.Parser.Exprs.Grammar.{
  form_of, head_of-form_of, starts_offset-opens_offset, ends_args-stops_args, SharedTokens, shared,
  unshared, ExprTokens, a_literal, a_load, an_alloc, a_unary, a_binary, a_cas, a_conversion, a_call,
  a_use, a_channel, a_var, a_field, OffsetTokens, without_offset, an_offset, ArgsTokens, no_more,
  one_more, ExprTokens-length,
}
use sigil_lang.Parser.Exprs.Complete.{advance-head, parse_expr-ExprTokens}

-- What stands after the first token of the input.
first-Ensures :
    {A : Type 0} {P : A → List Token → Type 0} {r : Outcome A} (t : Token) (ts : List Token)
    → Ensures P ts r
    → Ensures P (t ∷ ts) r
first-Ensures t ts h = Ensures-within (there t ts here) h

parse_shared-Ensures :
    (ts : List Token) → Ensures (λ b rest. SharedTokens b ts rest) ts (parse_shared ts)
unfolding parse_shared
parse_shared-Ensures [] = holds false [] here (unshared [] refl)
parse_shared-Ensures (t ∷ ts) = go t.kind t.span ts
  where
    go :
        (k : TokenKind) (sp : Span) (us : List Token)
        → Ensures
            (λ b rest. SharedTokens b (token k sp ∷ us) rest)
            (token k sp ∷ us)
            (parse_shared (token k sp ∷ us))
    go TokenKind.shared sp us = holds true us (there _ us here) (shared sp us)
    go k sp us = holds false (token k sp ∷ us) here (unshared (token k sp ∷ us) refl)

place-Ensures :
    (s : Text) (sp : Span) (ts : List Token)
    → Ensures
        (λ e rest. ExprTokens e (token (TokenKind.identifier s) sp ∷ ts) rest)
        ts
        (parse_place s ts)
unfolding parse_place
place-Ensures s sp [] = holds (Expr.var s) [] here (a_var s sp [] refl)
place-Ensures s sp (t ∷ ts) = go t.kind t.span ts
  where
    go :
        (k : TokenKind) (sq : Span) (us : List Token)
        → Ensures
            (λ e rest. ExprTokens e (token (TokenKind.identifier s) sp ∷ token k sq ∷ us) rest)
            (token k sq ∷ us)
            (parse_place s (token k sq ∷ us))
    go TokenKind.dot sq us = first-Ensures (token TokenKind.dot sq) us (
        Ensures-continue (expect_identifier-Ensures us)
          λ f rest p. holds (Expr.field (Expr.var s) f) rest here (a_field s f sp sq us rest p))
    go k sq us = holds (Expr.var s) (token k sq ∷ us) here (a_var s sp (token k sq ∷ us) refl)

module _ (k : TokenKind) where
  form_of-load : form_of k ≡ load → k ≡ TokenKind.load
  unfolding form_of
  form_of-load h = ground arith

  form_of-alloc : form_of k ≡ alloc → k ≡ TokenKind.alloc
  unfolding form_of
  form_of-alloc h = ground arith

  form_of-cas : form_of k ≡ cas → k ≡ TokenKind.cas
  unfolding form_of
  form_of-cas h = ground arith

  form_of-channel : form_of k ≡ channel → k ≡ TokenKind.channel
  unfolding form_of
  form_of-channel h = ground arith

  form_of-named : (s : Text) → form_of k ≡ named s → k ≡ TokenKind.identifier s
  unfolding form_of
  form_of-named s h = ground arith

-- One call, where the recursive calls on what follows the first token do as the grammar says.
module _ (expr : Parser Expr) (args : Bool → Parser Exprs) (ts : List Token)
    (expr_sound : (us : List Token)
      → length us ≤ length ts
      → Ensures (λ e rest. ExprTokens e us rest) us (expr us))
    (args_sound : (b : Bool) (us : List Token)
      → length us < length ts
      → Ensures (λ es rest. ArgsTokens b es us rest) us (args b us)) where
  offset-Ensures :
      (us : List Token)
      → length us ≤ length ts
      → Ensures (λ o rest. OffsetTokens o us rest) us (parse_offset expr args us)
  unfolding parse_offset
  offset-Ensures us l = elim (Bool-cases (starts_offset (peek us).kind)) [
    | inl h ↦
        rw (h, parse_offset)
          (Ensures-continue (expr_sound us l) λ e rest p.
            holds (at_offset e) rest here
              (an_offset e us rest (sym (starts_offset-opens_offset (peek us).kind) ∙ h) p))
    | inr h ↦
        rw (h, parse_offset)
          (holds no_offset us here
            (without_offset us (sym (starts_offset-opens_offset (peek us).kind) ∙ h)))
  ]

  arm-Ensures :
      (k : TokenKind) (sp : Span) (h : Head)
      → form_of k ≡ h
      → Ensures
          (λ e rest. ExprTokens e (token k sp ∷ ts) rest)
          (token k sp ∷ ts)
          (parse_arm expr args h (token k sp ∷ ts))
  unfolding parse_arm
  arm-Ensures k sp (literal e) h =
      rw (advance-head k sp ts (rw h refl))
        (first-Ensures (token k sp) ts (holds e ts here (a_literal k sp e ts h)))
  arm-Ensures k sp (binary c) h = rw (advance-head k sp ts (rw h refl)) (
      first-Ensures (token k sp) ts (
        Ensures-continue (expr_sound ts (omega arith)) λ a us p.
          Ensures-continue (expr_sound us (omega (arith, ExprTokens-length p))) λ b vs q.
            Ensures-continue (parse_integer-Ensures vs)
              λ n rest r. holds (c a b n) rest here (a_binary k c sp a b n ts us vs rest h p q r)))
  arm-Ensures k sp load h = rw (form_of-load k h) (
      first-Ensures (token TokenKind.load sp) ts (
        Ensures-continue (expr_sound ts (omega arith)) λ a us p.
          Ensures-continue (parse_integer-Ensures us) λ n vs q.
            Ensures-continue
              (offset-Ensures vs (omega (arith, ExprTokens-length p, NumberTokens-length q)))
              λ o rest r. holds (Expr.load a n o) rest here (a_load sp a n o ts us vs rest p q r)))
  arm-Ensures k sp alloc h = rw (form_of-alloc k h) (
      first-Ensures (token TokenKind.alloc sp) ts (
        Ensures-continue (expr_sound ts (omega arith)) λ a us p.
          Ensures-continue (parse_type-Ensures us) λ t vs q.
            Ensures-continue (parse_shared-Ensures vs) λ b rest r.
              holds (Expr.alloc a t b) rest here (an_alloc sp a t b ts us vs rest p q r)))
  arm-Ensures k sp cas h = rw (form_of-cas k h) (
      first-Ensures (token TokenKind.cas sp) ts (
        Ensures-continue (expr_sound ts (omega arith)) λ a us p.
          Ensures-continue (expr_sound us (omega (arith, ExprTokens-length p))) λ b vs q.
            Ensures-continue
              (expr_sound vs (omega (arith, ExprTokens-length p, ExprTokens-length q)))
              λ c ws r. Ensures-continue (parse_integer-Ensures ws) λ n rest s.
                holds (Expr.cas a b c n) rest here (a_cas sp a b c n ts us vs ws rest p q r s)))
  arm-Ensures k sp (unary c) h = rw (advance-head k sp ts (rw h refl)) (
      first-Ensures (token k sp) ts (
        Ensures-continue (expr_sound ts (omega arith)) λ a us p.
          Ensures-continue (parse_integer-Ensures us)
            λ n rest q. holds (c a n) rest here (a_unary k c sp a n ts us rest h p q)))
  arm-Ensures k sp (convert c) h = rw (advance-head k sp ts (rw h refl)) (
      first-Ensures (token k sp) ts (
        Ensures-continue (expr_sound ts (omega arith)) λ a us p.
          Ensures-continue (parse_integer-Ensures us) λ m vs q.
            Ensures-continue (parse_integer-Ensures vs) λ n rest r.
              holds (c a m n) rest here (a_conversion k c sp a m n ts us vs rest h p q r)))
  arm-Ensures k sp (with_args b c) h = rw (advance-head k sp ts (rw h refl)) (
      first-Ensures (token k sp) ts (
        Ensures-continue (expect_identifier-Ensures ts) λ s us p.
          Ensures-continue (args_sound b us (omega (arith, NameTokens-length p)))
            λ es rest q. holds (c s es) rest here (a_call k b c sp s es ts us rest h p q)))
  arm-Ensures k sp (with_name c) h = rw (advance-head k sp ts (rw h refl)) (
      first-Ensures (token k sp) ts (
        Ensures-continue (expect_identifier-Ensures ts)
          λ s rest p. holds (c s) rest here (a_use k c sp s ts rest h p)))
  arm-Ensures k sp channel h = rw (form_of-channel k h) (
      first-Ensures (token TokenKind.channel sp) ts (
        Ensures-continue (parse_type-Ensures ts) λ t us p.
          Ensures-continue (expr_sound us (omega (arith, TypeTokens-length p)))
            λ e rest q. holds (Expr.channel t e) rest here (a_channel sp t e ts us rest p q)))
  arm-Ensures k sp (named s) h =
      subst
        (λ k'.
          Ensures (λ e rest. ExprTokens e (token k' sp ∷ ts) rest) (token k' sp ∷ ts)
            (parse_arm expr args (named s) (token k' sp ∷ ts)))
        (sym (form_of-named k s h))
        (first-Ensures (token (TokenKind.identifier s) sp) ts (place-Ensures s sp ts))
  arm-Ensures k sp other h = rejected (token k sp ∷ ts) (in_expression k) here

mutual
  unfolding parse_expr_within

  parse_expr_within-Ensures :
      (f : ℕ) (ts : List Token)
      → 2 * length ts < f
      → Ensures (λ e rest. ExprTokens e ts rest) ts (parse_expr_within f ts)
  parse_expr_within-Ensures zero ts l = absurd (omega arith)
  parse_expr_within-Ensures (suc f) [] l = rejected [] _ here
  parse_expr_within-Ensures (suc f) (t ∷ ts) l =
      arm-Ensures (parse_expr_within f) (parse_args_within f) ts
        (λ us h. parse_expr_within-Ensures f us (omega arith))
        (λ b us h. parse_args_within-Ensures f b us (omega arith)) t.kind t.span (head_of t.kind)
        (sym (head_of-form_of t.kind))

  parse_args_within-Ensures :
      (f : ℕ) (b : Bool) (ts : List Token)
      → 2 * length ts + 1 < f
      → Ensures (λ es rest. ArgsTokens b es ts rest) ts (parse_args_within f b ts)
  parse_args_within-Ensures zero b ts l = absurd (omega arith)
  parse_args_within-Ensures (suc f) b ts l = elim (Bool-cases (ends_args b (peek ts).kind)) [
    | inl h ↦
        rw (h, parse_args_within)
          (holds nil ts here (no_more b ts (sym (ends_args-stops_args b (peek ts).kind) ∙ h)))
    | inr h ↦
        rw (h, parse_args_within)
          (Ensures-continue (parse_expr_within-Ensures f ts (omega arith)) λ e us p.
            Ensures-continue (parse_args_within-Ensures f b us (omega (arith, ExprTokens-length p)))
              λ es rest q.
                holds (cons e es) rest here (
                  one_more b e es ts us rest (sym (ends_args-stops_args b (peek ts).kind) ∙ h) p q))
  ]

pub parse_expr-Ensures :
    (ts : List Token) → Ensures (λ e rest. ExprTokens e ts rest) ts (parse_expr ts)
unfolding parse_expr
parse_expr-Ensures ts = parse_expr_within-Ensures (2 * length ts + 1) ts (omega arith)

pub parse_args-Ensures :
    (b : Bool) (ts : List Token) → Ensures (λ es rest. ArgsTokens b es ts rest) ts (parse_args b ts)
unfolding parse_args
parse_args-Ensures b ts = parse_args_within-Ensures (2 * length ts + 2) b ts (omega arith)

pub parse_offset-Ensures :
    (ts : List Token)
    → Ensures (λ o rest. OffsetTokens o ts rest) ts (parse_offset parse_expr parse_args ts)
parse_offset-Ensures ts =
    offset-Ensures parse_expr parse_args ts (λ us l. parse_expr-Ensures us)
      (λ b us l. parse_args-Ensures b us) ts (omega arith)

-- The parser reads an expression off the front of the tokens exactly if the grammar, with its own table
-- of the words and of what ends arguments and begins offsets, derives it, with the same tokens left.
pub parse_expr_iff :
    (e : Expr) (ts rest : List Token) → (parse_expr ts ≡ some (ok (e, rest))) ↔ ExprTokens e ts rest
parse_expr_iff e ts rest = (Ensures-ok (parse_expr-Ensures ts), parse_expr-ExprTokens)
