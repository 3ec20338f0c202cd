-- ===== src/Parser/Names.antt =====
-- compiler/src/parser.rs: the loops that read names, in statements and contracts.
use sigil_lang.Prelude.{
  ℕ, zero, suc, ◌+◌, ◌≤◌, ◌<◌, ◌≡◌, refl, Bool, true, false, none, some, List, [], ◌∷◌, arith, Text,
  length, ok,
}
use sigil_lang.Ast.{Span}
use sigil_lang.Lexer.Tokens.{Token, TokenKind, comma, arrow, identifier}
use sigil_lang.Parser.Cursor.{peek, advance}
use sigil_lang.Parser.References.{word_of}
use sigil_lang.Parser.Outcome.{
  Parser, ◌>>=◌, continue, return, here, there, Ensures, holds, Ensures-continue, Ensures-within,
}
use sigil_lang.Parser.Words.{
  token, NameTokens, expect_identifier, expect_identifier-Ensures, expect_identifier-NameTokens,
  NameTokens-length,
}

-- `while let Identifier(name) = self.peek_kind() { … }`.
unfoldable pub names : Parser (List Text)
names [] = some (ok ([], []))
names (t ∷ ts) =
    let more = names ts in
    elim (word_of t.kind) [
      | some s ↦ continue more (λ ss. return (s ∷ ss))
      | none ↦ some (ok ([], t ∷ ts))
    ]

-- One name, and all that follow it.
unfoldable pub parse_handles : Parser (List Text)
unfolding names expect_identifier
parse_handles = do first ← expect_identifier; more ← names; return (first ∷ more)

abbrev pub is_comma : TokenKind → Bool
is_comma comma = true
is_comma _ = false

abbrev pub is_arrow : TokenKind → Bool
is_arrow arrow = true
is_arrow _ = false

-- `while matches!(self.peek_kind(), Comma) { … }`. Each name takes one unit of fuel.
unfoldable pub comma_names_within : ℕ → Parser (List Text)
unfolding peek advance expect_identifier
comma_names_within zero ts = none
comma_names_within (suc fuel) ts = elim (is_comma (peek ts).kind) [
  | true ↦ (do s ← expect_identifier; ss ← comma_names_within fuel; return (s ∷ ss)) (advance ts)
  | false ↦ some (ok ([], ts))
]

unfoldable pub comma_names : Parser (List Text)
unfolding comma_names_within
comma_names ts = comma_names_within (length ts + 1) ts

-- `->` and names between commas, or nothing.
unfoldable pub parse_outputs : Parser (List Text)
unfolding peek advance expect_identifier comma_names
parse_outputs ts = elim (is_arrow (peek ts).kind) [
  | true ↦ (do first ← expect_identifier; more ← comma_names; return (first ∷ more)) (advance ts)
  | false ↦ some (ok ([], ts))
]

-- The tokens of names side by side; the token after them is no name.
pub data NamesTokens : List Text → List Token → List Token → Type 0 where
  no_names : (ts : List Token) → word_of (peek ts).kind ≡ none → NamesTokens [] ts ts
  one_name :
      (s : Text) (sp : Span) (ss : List Text) (ts rest : List Token)
      → NamesTokens ss ts rest
      → NamesTokens (s ∷ ss) (token (identifier s) sp ∷ ts) rest

-- At least one name.
pub data HandlesTokens : List Text → List Token → List Token → Type 0 where
  handles :
      (h : Text) (hs : List Text) (ts us rest : List Token)
      → NameTokens h ts us
      → NamesTokens hs us rest
      → HandlesTokens (h ∷ hs) ts rest

-- The tokens of names with a comma before each.
pub data CommasTokens : List Text → List Token → List Token → Type 0 where
  no_comma : (ts : List Token) → is_comma (peek ts).kind ≡ false → CommasTokens [] ts ts
  one_comma :
      (s : Text) (sp : Span) (ss : List Text) (ts us rest : List Token)
      → NameTokens s ts us
      → CommasTokens ss us rest
      → CommasTokens (s ∷ ss) (token comma sp ∷ ts) rest

pub data OutputsTokens : List Text → List Token → List Token → Type 0 where
  no_arrow : (ts : List Token) → is_arrow (peek ts).kind ≡ false → OutputsTokens [] ts ts
  an_arrow :
      (sp : Span) (s : Text) (ss : List Text) (ts us rest : List Token)
      → NameTokens s ts us
      → CommasTokens ss us rest
      → OutputsTokens (s ∷ ss) (token arrow sp ∷ ts) rest

pub names-NamesTokens :
    {ss : List Text} {ts rest : List Token}
    → NamesTokens ss ts rest
    → names ts ≡ some (ok (ss, rest))
unfolding names peek
names-NamesTokens (no_names [] h) = refl
names-NamesTokens (no_names (t ∷ ts) h) = ground (arith, h)
names-NamesTokens (one_name s sp ss ts rest p) = rw (names-NamesTokens p) refl

pub comma_names_within-CommasTokens :
    (f : ℕ) {ss : List Text} {ts rest : List Token}
    → CommasTokens ss ts rest
    → length ts < f
    → comma_names_within f ts ≡ some (ok (ss, rest))
unfolding comma_names_within
comma_names_within-CommasTokens zero p l = absurd (omega arith)
comma_names_within-CommasTokens (suc f) (no_comma ts h) l = rw (h, comma_names_within) refl
comma_names_within-CommasTokens (suc f) (one_comma s sp ss ts us rest p q) l = simp (
  expect_identifier-NameTokens p,
  comma_names_within-CommasTokens f q (omega (arith, NameTokens-length p)),
)

pub comma_names-CommasTokens :
    {ss : List Text} {ts rest : List Token}
    → CommasTokens ss ts rest
    → comma_names ts ≡ some (ok (ss, rest))
unfolding comma_names
comma_names-CommasTokens {ts} p = comma_names_within-CommasTokens (length ts + 1) p (omega arith)

pub parse_handles-HandlesTokens :
    {hs : List Text} {ts rest : List Token}
    → HandlesTokens hs ts rest
    → parse_handles ts ≡ some (ok (hs, rest))
unfolding parse_handles
parse_handles-HandlesTokens (handles h hs ts us rest p q) =
    simp (expect_identifier-NameTokens p, names-NamesTokens q)

pub parse_outputs-OutputsTokens :
    {ss : List Text} {ts rest : List Token}
    → OutputsTokens ss ts rest
    → parse_outputs ts ≡ some (ok (ss, rest))
unfolding parse_outputs
parse_outputs-OutputsTokens (no_arrow ts h) = rw (h, parse_outputs) refl
parse_outputs-OutputsTokens (an_arrow sp s ss ts us rest p q) =
    simp (expect_identifier-NameTokens p, comma_names-CommasTokens q)

pub names-Ensures : (ts : List Token) → Ensures (λ ss rest. NamesTokens ss ts rest) ts (names ts)
unfolding names peek
names-Ensures [] = holds [] [] here (no_names [] refl)
names-Ensures (t ∷ ts) = go t.kind t.span (names-Ensures ts)
  where
    go :
        (k : TokenKind) (sp : Span)
        → Ensures (λ ss rest. NamesTokens ss ts rest) ts (names ts)
        → Ensures
            (λ ss rest. NamesTokens ss (token k sp ∷ ts) rest)
            (token k sp ∷ ts)
            (names (token k sp ∷ ts))
    go (identifier s) sp ih =
        Ensures-continue (Ensures-within (there (token (identifier s) sp) ts here) ih)
          λ ss rest p. holds (s ∷ ss) rest here (one_name s sp ss ts rest p)
    go k sp ih = holds [] (token k sp ∷ ts) here (no_names (token k sp ∷ ts) refl)

pub parse_handles-Ensures :
    (ts : List Token) → Ensures (λ hs rest. HandlesTokens hs ts rest) ts (parse_handles ts)
unfolding parse_handles
parse_handles-Ensures ts = Ensures-continue (expect_identifier-Ensures ts) λ h us p.
    Ensures-continue (names-Ensures us)
      λ hs rest q. holds (h ∷ hs) rest here (handles h hs ts us rest p q)

comma_names_within-Ensures :
    (f : ℕ) (ts : List Token)
    → length ts < f
    → Ensures (λ ss rest. CommasTokens ss ts rest) ts (comma_names_within f ts)
unfolding comma_names_within
comma_names_within-Ensures zero ts l = absurd (omega arith)
comma_names_within-Ensures (suc f) [] l = holds [] [] here (no_comma [] refl)
comma_names_within-Ensures (suc f) (t ∷ ts) l =
    go t.kind t.span (λ us h. comma_names_within-Ensures f us (omega arith))
  where
    go :
        (k : TokenKind) (sp : Span)
        → ((us : List Token)
            → length us < length ts
            → Ensures (λ ss rest. CommasTokens ss us rest) us (comma_names_within f us))
        → Ensures
            (λ ss rest. CommasTokens ss (token k sp ∷ ts) rest)
            (token k sp ∷ ts)
            (comma_names_within (suc f) (token k sp ∷ ts))
    go comma sp ih = Ensures-within (there (token comma sp) ts here) (
        Ensures-continue (expect_identifier-Ensures ts) λ s us p.
          Ensures-continue (ih us (omega (arith, NameTokens-length p)))
            λ ss rest q. holds (s ∷ ss) rest here (one_comma s sp ss ts us rest p q))
    go k sp ih = holds [] (token k sp ∷ ts) here (no_comma (token k sp ∷ ts) refl)

pub comma_names-Ensures :
    (ts : List Token) → Ensures (λ ss rest. CommasTokens ss ts rest) ts (comma_names ts)
unfolding comma_names
comma_names-Ensures ts = comma_names_within-Ensures (length ts + 1) ts (omega arith)

pub parse_outputs-Ensures :
    (ts : List Token) → Ensures (λ ss rest. OutputsTokens ss ts rest) ts (parse_outputs ts)
unfolding parse_outputs
parse_outputs-Ensures [] = holds [] [] here (no_arrow [] refl)
parse_outputs-Ensures (t ∷ ts) = go t.kind t.span
  where
    go :
        (k : TokenKind) (sp : Span)
        → Ensures
            (λ ss rest. OutputsTokens ss (token k sp ∷ ts) rest)
            (token k sp ∷ ts)
            (parse_outputs (token k sp ∷ ts))
    go arrow sp = Ensures-within (there (token arrow sp) ts here) (
        Ensures-continue (expect_identifier-Ensures ts) λ s us p.
          Ensures-continue (comma_names-Ensures us)
            λ ss rest q. holds (s ∷ ss) rest here (an_arrow sp s ss ts us rest p q))
    go k sp = holds [] (token k sp ∷ ts) here (no_arrow (token k sp ∷ ts) refl)

pub NamesTokens-length :
    {ss : List Text} {ts rest : List Token} → NamesTokens ss ts rest → length rest ≤ length ts
NamesTokens-length (no_names ts h) = omega arith
NamesTokens-length (one_name s sp ss ts rest p) = omega (arith, NamesTokens-length p)

pub CommasTokens-length :
    {ss : List Text} {ts rest : List Token} → CommasTokens ss ts rest → length rest ≤ length ts
CommasTokens-length (no_comma ts h) = omega arith
CommasTokens-length (one_comma s sp ss ts us rest p q) =
    omega (arith, NameTokens-length p, CommasTokens-length q)

pub OutputsTokens-length :
    {ss : List Text} {ts rest : List Token} → OutputsTokens ss ts rest → length rest ≤ length ts
OutputsTokens-length (no_arrow ts h) = omega arith
OutputsTokens-length (an_arrow sp s ss ts us rest p q) =
    omega (arith, NameTokens-length p, CommasTokens-length q)

pub HandlesTokens-length :
    {hs : List Text} {ts rest : List Token} → HandlesTokens hs ts rest → length rest < length ts
HandlesTokens-length (handles h hs ts us rest p q) =
    omega (arith, NameTokens-length p, NamesTokens-length q)
