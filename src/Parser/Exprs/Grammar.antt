-- ===== src/Parser/Exprs/Grammar.antt =====
-- The expressions as a grammar: the tokens of an expression and those after it. An expression has
-- its tokens in prefix order; where a part may be left out, the next token decides.
use sigil_lang.Prelude.{ℕ, ◌≤◌, ◌<◌, ◌≡◌, refl, Bool, true, false, List, ◌∷◌, arith, Text, length}
use sigil_lang.Ast.{Span, Ty, Expr, Exprs, nil, cons, Offset, no_offset, at_offset}
use sigil_lang.Lexer.Tokens.{Token, TokenKind}
use sigil_lang.Parser.Cursor.{peek}
use sigil_lang.Parser.Words.{
  token, NameTokens, NumberTokens, TypeTokens, NameTokens-length, NumberTokens-length,
  TypeTokens-length,
}
use sigil_lang.Parser.Exprs.{
  Head, head_of, literal, load, alloc, cas, channel, named, other, unary, binary, convert,
  with_args, with_name, starts_offset, ends_args, is_dot, is_shared,
}

-- The words of the language by what follows them: two operands and a size, one operand and a size,
-- an operand and two sizes, nothing, a name and arguments, or a name.
unfoldable pub form_of : TokenKind → Head
form_of TokenKind.iadd = binary Expr.iadd
form_of TokenKind.isub = binary Expr.isub
form_of TokenKind.imul = binary Expr.imul
form_of TokenKind.idiv = binary Expr.idiv
form_of TokenKind.imod = binary Expr.imod
form_of TokenKind.ieq = binary Expr.ieq
form_of TokenKind.ine = binary Expr.ine
form_of TokenKind.ilt = binary Expr.ilt
form_of TokenKind.igt = binary Expr.igt
form_of TokenKind.ile = binary Expr.ile
form_of TokenKind.ige = binary Expr.ige
form_of TokenKind.and = binary Expr.and
form_of TokenKind.or = binary Expr.or
form_of TokenKind.xor = binary Expr.xor
form_of TokenKind.shl = binary Expr.shl
form_of TokenKind.shr = binary Expr.shr
form_of TokenKind.sar = binary Expr.sar
form_of TokenKind.fadd = binary Expr.fadd
form_of TokenKind.fsub = binary Expr.fsub
form_of TokenKind.fmul = binary Expr.fmul
form_of TokenKind.fdiv = binary Expr.fdiv
form_of TokenKind.feq = binary Expr.feq
form_of TokenKind.fne = binary Expr.fne
form_of TokenKind.flt = binary Expr.flt
form_of TokenKind.fgt = binary Expr.fgt
form_of TokenKind.fle = binary Expr.fle
form_of TokenKind.fge = binary Expr.fge
form_of TokenKind.atomic_store = binary Expr.atomic_store
form_of TokenKind.atomic_add = binary Expr.atomic_add
form_of TokenKind.atomic_sub = binary Expr.atomic_sub
form_of TokenKind.ineg = unary Expr.ineg
form_of TokenKind.not = unary Expr.not
form_of TokenKind.fneg = unary Expr.fneg
form_of TokenKind.atomic_load = unary Expr.atomic_load
form_of TokenKind.ftoi = convert Expr.ftoi
form_of TokenKind.itof = convert Expr.itof
form_of (TokenKind.integer n) = literal (Expr.int_lit n)
form_of (TokenKind.float_lit f) = literal (Expr.float_lit f)
form_of (TokenKind.string_lit s) = literal (Expr.string_lit s)
form_of TokenKind.call = with_args true Expr.call
form_of TokenKind.spawn = with_args false Expr.spawn
form_of TokenKind.channel_receive = with_name Expr.channel_receive
form_of TokenKind.wait = with_name Expr.wait
form_of TokenKind.load = load
form_of TokenKind.alloc = alloc
form_of TokenKind.cas = cas
form_of TokenKind.channel = channel
form_of (TokenKind.identifier s) = named s
form_of _ = other

-- What a value may begin with that stands for an offset, and where a list of arguments stops.
unfoldable pub opens_offset : TokenKind → Bool
opens_offset (TokenKind.identifier _) = true
opens_offset (TokenKind.integer _) = true
opens_offset _ = false

unfoldable pub stops_args : Bool → TokenKind → Bool
stops_args to_arrow TokenKind.arrow = to_arrow
stops_args to_arrow TokenKind.eof = true
stops_args to_arrow TokenKind.newline = true
stops_args to_arrow _ = false

pub data SharedTokens : Bool → List Token → List Token → Type 0 where
  shared : (sp : Span) (ts : List Token) → SharedTokens true (token TokenKind.shared sp ∷ ts) ts
  unshared : (ts : List Token) → is_shared (peek ts).kind ≡ false → SharedTokens false ts ts

mutual
  pub data ExprTokens : Expr → List Token → List Token → Type 0 where
    a_literal :
        (k : TokenKind) (sp : Span) (e : Expr) (ts : List Token)
        → form_of k ≡ literal e
        → ExprTokens e (token k sp ∷ ts) ts
    a_load :
        (sp : Span) (e : Expr) (n : ℕ) (o : Offset) (ts us vs rest : List Token)
        → ExprTokens e ts us
        → NumberTokens n us vs
        → OffsetTokens o vs rest
        → ExprTokens (Expr.load e n o) (token TokenKind.load sp ∷ ts) rest
    an_alloc :
        (sp : Span) (e : Expr) (t : Ty) (b : Bool) (ts us vs rest : List Token)
        → ExprTokens e ts us
        → TypeTokens t us vs
        → SharedTokens b vs rest
        → ExprTokens (Expr.alloc e t b) (token TokenKind.alloc sp ∷ ts) rest
    a_unary :
        (k : TokenKind) (c : Expr → ℕ → Expr) (sp : Span) (a : Expr) (n : ℕ)
        (ts us rest : List Token)
        → form_of k ≡ unary c
        → ExprTokens a ts us
        → NumberTokens n us rest
        → ExprTokens (c a n) (token k sp ∷ ts) rest
    a_binary :
        (k : TokenKind) (c : Expr → Expr → ℕ → Expr) (sp : Span) (a b : Expr) (n : ℕ)
        (ts us vs rest : List Token)
        → form_of k ≡ binary c
        → ExprTokens a ts us
        → ExprTokens b us vs
        → NumberTokens n vs rest
        → ExprTokens (c a b n) (token k sp ∷ ts) rest
    a_cas :
        (sp : Span) (a b c : Expr) (n : ℕ) (ts us vs ws rest : List Token)
        → ExprTokens a ts us
        → ExprTokens b us vs
        → ExprTokens c vs ws
        → NumberTokens n ws rest
        → ExprTokens (Expr.cas a b c n) (token TokenKind.cas sp ∷ ts) rest
    a_conversion :
        (k : TokenKind) (c : Expr → ℕ → ℕ → Expr) (sp : Span) (a : Expr) (m n : ℕ)
        (ts us vs rest : List Token)
        → form_of k ≡ convert c
        → ExprTokens a ts us
        → NumberTokens m us vs
        → NumberTokens n vs rest
        → ExprTokens (c a m n) (token k sp ∷ ts) rest
    a_call :
        (k : TokenKind) (to_arrow : Bool) (c : Text → Exprs → Expr) (sp : Span) (s : Text)
        (es : Exprs) (ts us rest : List Token)
        → form_of k ≡ with_args to_arrow c
        → NameTokens s ts us
        → ArgsTokens to_arrow es us rest
        → ExprTokens (c s es) (token k sp ∷ ts) rest
    a_use :
        (k : TokenKind) (c : Text → Expr) (sp : Span) (s : Text) (ts rest : List Token)
        → form_of k ≡ with_name c
        → NameTokens s ts rest
        → ExprTokens (c s) (token k sp ∷ ts) rest
    a_channel :
        (sp : Span) (t : Ty) (e : Expr) (ts us rest : List Token)
        → TypeTokens t ts us
        → ExprTokens e us rest
        → ExprTokens (Expr.channel t e) (token TokenKind.channel sp ∷ ts) rest
    a_var :
        (s : Text) (sp : Span) (ts : List Token)
        → is_dot (peek ts).kind ≡ false
        → ExprTokens (Expr.var s) (token (TokenKind.identifier s) sp ∷ ts) ts
    a_field :
        (s f : Text) (sp sq : Span) (ts rest : List Token)
        → NameTokens f ts rest
        → ExprTokens
            (Expr.field (Expr.var s) f)
            (token (TokenKind.identifier s) sp ∷ token TokenKind.dot sq ∷ ts)
            rest

  pub data OffsetTokens : Offset → List Token → List Token → Type 0 where
    without_offset :
        (ts : List Token) → opens_offset (peek ts).kind ≡ false → OffsetTokens no_offset ts ts
    an_offset :
        (e : Expr) (ts rest : List Token)
        → opens_offset (peek ts).kind ≡ true
        → ExprTokens e ts rest
        → OffsetTokens (at_offset e) ts rest

  -- Arguments up to the end of the line, or to `->` where that ends them too.
  pub data ArgsTokens : Bool → Exprs → List Token → List Token → Type 0 where
    no_more :
        (b : Bool) (ts : List Token) → stops_args b (peek ts).kind ≡ true → ArgsTokens b nil ts ts
    one_more :
        (b : Bool) (e : Expr) (es : Exprs) (ts us rest : List Token)
        → stops_args b (peek ts).kind ≡ false
        → ExprTokens e ts us
        → ArgsTokens b es us rest
        → ArgsTokens b (cons e es) ts rest

-- The tables of the parser are those of the grammar.
pub head_of-form_of : (k : TokenKind) → head_of k ≡ form_of k
unfolding head_of form_of
head_of-form_of TokenKind.eof = refl
head_of-form_of k = refl

pub starts_offset-opens_offset : (k : TokenKind) → starts_offset k ≡ opens_offset k
unfolding starts_offset opens_offset
starts_offset-opens_offset TokenKind.eof = refl
starts_offset-opens_offset k = refl

pub ends_args-stops_args : (b : Bool) (k : TokenKind) → ends_args b k ≡ stops_args b k
unfolding ends_args stops_args
ends_args-stops_args b TokenKind.eof = refl
ends_args-stops_args b k = refl

pub SharedTokens-length :
    {b : Bool} {ts rest : List Token} → SharedTokens b ts rest → length rest ≤ length ts
SharedTokens-length (shared sp ts) = omega arith
SharedTokens-length (unshared ts h) = omega arith

mutual
  pub ExprTokens-length :
      {e : Expr} {ts rest : List Token} → ExprTokens e ts rest → length rest < length ts
  ExprTokens-length (a_literal k sp e ts h) = omega arith
  ExprTokens-length (a_load sp e n o ts us vs rest p q r) =
      omega (arith, ExprTokens-length p, NumberTokens-length q, OffsetTokens-length r)
  ExprTokens-length (an_alloc sp e t b ts us vs rest p q r) =
      omega (arith, ExprTokens-length p, TypeTokens-length q, SharedTokens-length r)
  ExprTokens-length (a_unary k c sp a n ts us rest h p q) =
      omega (arith, ExprTokens-length p, NumberTokens-length q)
  ExprTokens-length (a_binary k c sp a b n ts us vs rest h p q r) =
      omega (arith, ExprTokens-length p, ExprTokens-length q, NumberTokens-length r)
  ExprTokens-length (a_cas sp a b c n ts us vs ws rest p q r s) =
      omega (
        arith,
        ExprTokens-length p,
        ExprTokens-length q,
        ExprTokens-length r,
        NumberTokens-length s,
      )
  ExprTokens-length (a_conversion k c sp a m n ts us vs rest h p q r) =
      omega (arith, ExprTokens-length p, NumberTokens-length q, NumberTokens-length r)
  ExprTokens-length (a_call k b c sp s es ts us rest h p q) =
      omega (arith, NameTokens-length p, ArgsTokens-length q)
  ExprTokens-length (a_use k c sp s ts rest h p) = omega (arith, NameTokens-length p)
  ExprTokens-length (a_channel sp t e ts us rest p q) =
      omega (arith, TypeTokens-length p, ExprTokens-length q)
  ExprTokens-length (a_var s sp ts h) = omega arith
  ExprTokens-length (a_field s f sp sq ts rest p) = omega (arith, NameTokens-length p)

  pub OffsetTokens-length :
      {o : Offset} {ts rest : List Token} → OffsetTokens o ts rest → length rest ≤ length ts
  OffsetTokens-length (without_offset ts h) = omega arith
  OffsetTokens-length (an_offset e ts rest h p) = omega (arith, ExprTokens-length p)

  pub ArgsTokens-length :
      {b : Bool} {es : Exprs} {ts rest : List Token}
      → ArgsTokens b es ts rest
      → length rest ≤ length ts
  ArgsTokens-length (no_more b ts h) = omega arith
  ArgsTokens-length (one_more b e es ts us rest h p q) =
      omega (arith, ExprTokens-length p, ArgsTokens-length q)
