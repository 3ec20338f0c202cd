-- ===== src/Parser/Units/Total.antt =====
-- Every entry point of the parser ends, with a result or with an error that stands at a token.
use sigil_lang.Prelude.{
  ℕ, zero, suc, ◌+◌, ◌<◌, ◌≢◌, ◌==◌, text_eq, refl, inl, inr, Bool-cases, Option-cases, none, some,
  List, [], ◌∷◌, arith, Text, codes, length, ok,
}
use sigil_lang.Ast.{Span, Pattern, Library, Executable, Behavior}
use sigil_lang.Lexer.Tokens.{Token, TokenKind}
use sigil_lang.Parser.Cursor.{peek, skip_newlines}
use sigil_lang.Parser.Errors.{in_pattern, in_library, in_executable, uses_extension}
use sigil_lang.Parser.References.{word_of}
use sigil_lang.Parser.Outcome.{
  continue, here, there, skip_newlines-Suffix, Suffix-length, Ensures, holds, rejected,
  Ensures-continue, Ensures-within, Ensures-ne-none,
}
use sigil_lang.Parser.Words.{
  token, expect_identifier-Ensures, parse_type-Ensures, parse_integer-Ensures, NameTokens-length,
  TypeTokens-length, NumberTokens-length,
}
use sigil_lang.Parser.Sections.{Reads, Anything, shorter, parse_sections-Ensures}
use sigil_lang.Parser.Statements.Sound.{parse_nodes-Ensures}
use sigil_lang.Parser.Behaviors.{parse_behavior}
use sigil_lang.Parser.Behaviors.Total.{parse_behavior-Ensures, description-Suffix, expect-Ensures}
use sigil_lang.Parser.Units.{
  ends_on_create, ends_on_destroy, ends_entry, is_pattern, is_library, is_executable, is_dot,
  parse_memory_within, parse_memory, pattern_section, library_section, check_extension, parse_uses,
  executable_section, finish_pattern, finish_library, finish_executable, parse_pattern,
  parse_library, parse_executable,
}

memory-Ensures :
    (fuel : ℕ) (ts : List Token)
    → length ts < fuel
    → Ensures Anything ts (parse_memory_within fuel ts)
unfolding parse_memory_within
memory-Ensures zero ts l = absurd (omega arith)
memory-Ensures (suc fuel) ts l = elim (Option-cases (word_of (peek ts).kind)) [
  | inl h ↦ rw (h, parse_memory_within) (holds [] ts here tt)
  | inr (s, h) ↦
      rw (h, parse_memory_within)
        (Ensures-continue (expect_identifier-Ensures ts) λ name us p.
          Ensures-continue (parse_type-Ensures us) λ typ vs q.
            Ensures-continue (parse_integer-Ensures vs) λ size ws r.
              Ensures-continue
                (Ensures-within (skip_newlines-Suffix ws) (
                  memory-Ensures fuel (skip_newlines ws) (
                    omega (
                      arith,
                      NameTokens-length p,
                      TypeTokens-length q,
                      NumberTokens-length r,
                      Suffix-length (skip_newlines-Suffix ws),
                    ))))
                λ ds rest x.
                  holds (record { name = name; typ = typ; size = size } ∷ ds) rest here tt)
]

parse_memory-Ensures : (ts : List Token) → Ensures Anything ts (parse_memory ts)
unfolding parse_memory
parse_memory-Ensures ts = Ensures-within (skip_newlines-Suffix ts) (
    memory-Ensures (length ts + 1) (skip_newlines ts)
      (omega (arith, Suffix-length (skip_newlines-Suffix ts))))

-- A section that is a behavior.
behavior-Reads :
    {U : Type 0} (source : Text) (add : Behavior → U) (ts : List Token)
    → Ensures
        (λ u rest. length rest < length ts)
        ts
        (continue (parse_behavior source ts) (λ b rest. some (ok (add b, rest))))
behavior-Reads source add ts =
    Ensures-continue (parse_behavior-Ensures source ts) λ b rest l. holds (add b) rest here l

pattern_section-Reads :
    (source : Text) (p : Pattern) (ts : List Token)
    → Reads (pattern_section source p (peek ts).kind) ts
unfolding pattern_section
pattern_section-Reads source p [] = tt
pattern_section-Reads source p (t ∷ ts) = go t.kind t.span
  where
    go : (k : TokenKind) (sp : Span) → Reads (pattern_section source p k) (token k sp ∷ ts)
    go TokenKind.memory sp =
        shorter (token TokenKind.memory sp)
          (Ensures-continue (parse_memory-Ensures ts) λ ds rest q. holds _ rest here tt)
    go TokenKind.on_create sp =
        shorter (token TokenKind.on_create sp) (
          Ensures-continue (parse_nodes-Ensures ends_on_create ts)
            λ ns rest q. holds _ rest here tt)
    go TokenKind.behavior sp = behavior-Reads source _ (token TokenKind.behavior sp ∷ ts)
    go TokenKind.on_destroy sp = shorter (token TokenKind.on_destroy sp) (
        Ensures-continue (parse_nodes-Ensures ends_on_destroy ts) λ ns rest q. holds _ rest here tt)
    go k sp = tt

library_section-Reads :
    (source : Text) (l : Library) (ts : List Token)
    → Reads (library_section source l (peek ts).kind) ts
unfolding library_section
library_section-Reads source l [] = tt
library_section-Reads source l (t ∷ ts) = go t.kind t.span
  where
    go : (k : TokenKind) (sp : Span) → Reads (library_section source l k) (token k sp ∷ ts)
    go TokenKind.behavior sp = behavior-Reads source _ (token TokenKind.behavior sp ∷ ts)
    go k sp = tt

uses-Ensures : (ts : List Token) → Ensures Anything ts (parse_uses ts)
unfolding parse_uses check_extension
uses-Ensures ts = Ensures-continue (expect_identifier-Ensures ts) λ path us p.
    Ensures-continue (expect-Ensures is_dot TokenKind.dot refl us) λ sp vs q.
      Ensures-continue (expect_identifier-Ensures vs) λ ext ws r.
        elim (Bool-cases (ext == codes "pattern")) [
          | inl h ↦ rw (h, check_extension) (holds path ws here tt)
          | inr h ↦ rw (h, check_extension) (rejected ws (uses_extension ext) here)
        ]

executable_section-Reads :
    (source : Text) (x : Executable) (ts : List Token)
    → Reads (executable_section source x (peek ts).kind) ts
unfolding executable_section
executable_section-Reads source x [] = tt
executable_section-Reads source x (t ∷ ts) = go t.kind t.span
  where
    go : (k : TokenKind) (sp : Span) → Reads (executable_section source x k) (token k sp ∷ ts)
    go TokenKind.description sp =
        shorter (token TokenKind.description sp) (holds _ _ (description-Suffix ts) tt)
    go TokenKind.uses sp =
        shorter (token TokenKind.uses sp)
          (Ensures-continue (uses-Ensures ts) λ path rest q. holds _ rest here tt)
    go TokenKind.entry sp =
        shorter (token TokenKind.entry sp)
          (Ensures-continue (parse_nodes-Ensures ends_entry ts) λ ns rest q. holds _ rest here tt)
    go k sp = tt

finish_pattern-Ensures :
    (p : Pattern) (ts : List Token) → Ensures Anything ts (finish_pattern p (peek ts).kind ts)
unfolding finish_pattern
finish_pattern-Ensures p [] = holds p [] here tt
finish_pattern-Ensures p (t ∷ ts) = go t.kind t.span
  where
    go :
        (k : TokenKind) (sp : Span)
        → Ensures Anything (token k sp ∷ ts) (finish_pattern p k (token k sp ∷ ts))
    go TokenKind.end_pattern sp = holds p ts (there (token TokenKind.end_pattern sp) ts here) tt
    go TokenKind.eof sp = holds p (token TokenKind.eof sp ∷ ts) here tt
    go k sp = rejected (token k sp ∷ ts) (in_pattern k) here

finish_library-Ensures :
    (l : Library) (ts : List Token) → Ensures Anything ts (finish_library l (peek ts).kind ts)
unfolding finish_library
finish_library-Ensures l [] = holds l [] here tt
finish_library-Ensures l (t ∷ ts) = go t.kind t.span
  where
    go :
        (k : TokenKind) (sp : Span)
        → Ensures Anything (token k sp ∷ ts) (finish_library l k (token k sp ∷ ts))
    go TokenKind.end_library sp = holds l ts (there (token TokenKind.end_library sp) ts here) tt
    go TokenKind.eof sp = holds l (token TokenKind.eof sp ∷ ts) here tt
    go k sp = rejected (token k sp ∷ ts) (in_library k) here

finish_executable-Ensures :
    (x : Executable) (ts : List Token) → Ensures Anything ts (finish_executable x (peek ts).kind ts)
unfolding finish_executable
finish_executable-Ensures x [] = holds x [] here tt
finish_executable-Ensures x (t ∷ ts) = go t.kind t.span
  where
    go :
        (k : TokenKind) (sp : Span)
        → Ensures Anything (token k sp ∷ ts) (finish_executable x k (token k sp ∷ ts))
    go TokenKind.end_executable sp =
        holds x ts (there (token TokenKind.end_executable sp) ts here) tt
    go TokenKind.eof sp = holds x (token TokenKind.eof sp ∷ ts) here tt
    go k sp = rejected (token k sp ∷ ts) (in_executable k) here

parse_pattern-Ensures :
    (source : Text) (ts : List Token) → Ensures Anything ts (parse_pattern source ts)
unfolding parse_pattern
parse_pattern-Ensures source ts =
    Ensures-continue (expect-Ensures is_pattern TokenKind.pattern_keyword refl ts) λ sp us m.
      Ensures-continue (expect_identifier-Ensures us) λ name vs p.
        Ensures-within (skip_newlines-Suffix vs) (
          parse_sections-Ensures (pattern_section source) finish_pattern
            (pattern_section-Reads source) finish_pattern-Ensures _ (skip_newlines vs))

parse_library-Ensures :
    (source : Text) (ts : List Token) → Ensures Anything ts (parse_library source ts)
unfolding parse_library
parse_library-Ensures source ts =
    Ensures-continue (expect-Ensures is_library TokenKind.library refl ts) λ sp us m.
      Ensures-continue (expect_identifier-Ensures us) λ name vs p.
        Ensures-within (skip_newlines-Suffix vs) (
          parse_sections-Ensures (library_section source) finish_library
            (library_section-Reads source) finish_library-Ensures _ (skip_newlines vs))

parse_executable-Ensures :
    (source : Text) (ts : List Token) → Ensures Anything ts (parse_executable source ts)
unfolding parse_executable
parse_executable-Ensures source ts =
    Ensures-continue (expect-Ensures is_executable TokenKind.executable refl ts) λ sp us m.
      Ensures-continue (expect_identifier-Ensures us) λ name vs p.
        Ensures-within (skip_newlines-Suffix vs) (
          parse_sections-Ensures (executable_section source) finish_executable
            (executable_section-Reads source) finish_executable-Ensures _ (skip_newlines vs))

-- Whatever the tokens and the source are, none of the loops of the parser runs forever: each entry
-- point returns a unit or an error.
pub parse_total :
    (source : Text) (ts : List Token)
    → (parse_behavior source ts ≢ none)
      × (parse_pattern source ts ≢ none)
      × (parse_library source ts ≢ none)
      × (parse_executable source ts ≢ none)
parse_total source ts = (
  Ensures-ne-none (parse_behavior-Ensures source ts),
  Ensures-ne-none (parse_pattern-Ensures source ts),
  Ensures-ne-none (parse_library-Ensures source ts),
  Ensures-ne-none (parse_executable-Ensures source ts),
)
