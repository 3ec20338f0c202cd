-- ===== src/Parser/Behaviors/Total.antt =====
-- The parser of behaviors ends at an end of its tokens, with a behavior or an error.
use sigil_lang.Prelude.{
  suc, ◌&&◌, ◌<◌, ◌≡◌, refl, inl, inr, Bool, true, false, Bool-cases, Option-cases, Option, none,
  some, List, [], ◌∷◌, arith, Text, length,
}
use sigil_lang.Ast.{Span, Behavior, new_behavior}
use sigil_lang.Lexer.Tokens.{Token, TokenKind}
use sigil_lang.Parser.Cursor.{peek, advance, skip_newlines}
use sigil_lang.Parser.Errors.{expected_token, in_behavior, unexpected_eof}
use sigil_lang.Parser.Outcome.{
  Suffix, here, there, skip_newlines-Suffix, Suffix-length, Suffix-trans, Ensures, holds, rejected,
  Ensures-continue, Ensures-within,
}
use sigil_lang.Parser.Words.{token, expect, expect_identifier-Ensures, NameTokens-length}
use sigil_lang.Parser.Sections.{Reads, Anything, forget, shorter, bounded, parse_sections-Ensures}
use sigil_lang.Parser.Statements.{parse_implementation, ends_body}
use sigil_lang.Parser.Statements.Sound.{parse_nodes-Ensures}
use sigil_lang.Parser.Contracts.Total.{parse_contract-Ensures, expect_hex_string-Ensures}
use sigil_lang.Parser.Descriptions.{scan_description, scan_token, starts_section}
use sigil_lang.Parser.Behaviors.{
  is_behavior, is_right_bracket, parse_platform, pass_end, add_implementation, expect_hash,
  behavior_section, finish_behavior, parse_behavior,
}

-- A token that passes the test and is not the end is read.
pub expect-Ensures :
    (test : TokenKind → Bool) (k : TokenKind)
    → test TokenKind.eof ≡ false
    → (ts : List Token) → Ensures (λ sp rest. length rest < length ts) ts (expect test k ts)
unfolding expect
expect-Ensures test k e [] = rw (e, expect) (rejected [] (expected_token k TokenKind.eof) here)
expect-Ensures test k e (t ∷ ts) = elim (Bool-cases (test t.kind)) [
  | inl h ↦
      rw (h, expect) (holds t.span _ (advanced t.kind t.span h) (advanced_length t.kind t.span h))
  | inr h ↦ rw (h, expect) (rejected (t ∷ ts) (expected_token k t.kind) here)
]
  where
    advanced :
        (j : TokenKind) (sp : Span)
        → test j ≡ true
        → Suffix (advance (token j sp ∷ ts)) (token j sp ∷ ts)
    advanced TokenKind.eof sp h = here
    advanced j sp h = there (token j sp) ts here

    advanced_length :
        (j : TokenKind) (sp : Span)
        → test j ≡ true
        → length (advance (token j sp ∷ ts)) < suc (length ts)
    advanced_length TokenKind.eof sp h = cc (e, h)
    advanced_length j sp h = omega arith

scan-Suffix : (b : Bool) (last : Span) (ts : List Token) → Suffix (scan_description b last ts).1 ts
unfolding scan_description
scan-Suffix b last [] = here
scan-Suffix b last (t ∷ ts) = elim (Bool-cases (b && starts_section t.kind)) [
  | inl h ↦ rw (h, scan_description) here
  | inr h ↦ elim (Option-cases (scan_token t.kind t.span last b)) [
    | inl n ↦ rw (h, scan_description) (rw (n, scan_description) here)
    | inr ((last', start), n) ↦
        rw (h, scan_description)
          (rw (n, scan_description) (there t ts (scan-Suffix start last' ts)))
  ]
]

pub description-Suffix :
    (ts : List Token)
    → Suffix (scan_description true (peek (skip_newlines ts)).span (skip_newlines ts)).1 ts
description-Suffix ts =
    Suffix-trans _ (skip_newlines-Suffix ts)
      (scan-Suffix true (peek (skip_newlines ts)).span (skip_newlines ts))

platform-Ensures : (ts : List Token) → Ensures Anything ts (parse_platform ts)
unfolding parse_platform
platform-Ensures [] = holds none [] here tt
platform-Ensures (t ∷ ts) = go t.kind t.span
  where
    go :
        (k : TokenKind) (sp : Span)
        → Ensures Anything (token k sp ∷ ts) (parse_platform (token k sp ∷ ts))
    go TokenKind.left_bracket sp =
        Ensures-within (there (token TokenKind.left_bracket sp) ts here) (
          Ensures-continue (expect_identifier-Ensures ts) λ s us p.
            Ensures-continue (expect-Ensures is_right_bracket TokenKind.right_bracket refl us)
              λ sq rest q. holds (some s) rest here tt)
    go k sp = holds none (token k sp ∷ ts) here tt

pass_end-Suffix : (platform : Option Text) (ts : List Token) → Suffix (pass_end platform ts) ts
unfolding pass_end
pass_end-Suffix none ts = here
pass_end-Suffix (some s) [] = here
pass_end-Suffix (some s) (t ∷ ts) = go t.kind t.span
  where
    go :
        (k : TokenKind) (sp : Span) → Suffix (pass_end (some s) (token k sp ∷ ts)) (token k sp ∷ ts)
    go TokenKind.end sp = there (token TokenKind.end sp) ts here
    go k sp = here

implementation-Ensures : (ts : List Token) → Ensures Anything ts (parse_implementation ts)
unfolding parse_implementation
implementation-Ensures ts = forget (parse_nodes-Ensures ends_body ts)

section-Reads :
    (source : Text) (b : Behavior) (ts : List Token)
    → Reads (behavior_section source b (peek ts).kind) ts
unfolding behavior_section expect_hash add_implementation
section-Reads source b [] = tt
section-Reads source b (t ∷ ts) = go t.kind t.span
  where
    go : (k : TokenKind) (sp : Span) → Reads (behavior_section source b k) (token k sp ∷ ts)
    go TokenKind.description sp =
        shorter (token TokenKind.description sp) (holds _ _ (description-Suffix ts) tt)
    go TokenKind.contract sp = shorter (token TokenKind.contract sp) (
        Ensures-within (skip_newlines-Suffix ts) (
          Ensures-continue (parse_contract-Ensures (skip_newlines ts))
            λ c rest p. holds _ rest here tt))
    go TokenKind.hash sp =
        shorter (token TokenKind.hash sp)
          (Ensures-continue (expect_hex_string-Ensures ts) λ h rest p. holds _ rest here tt)
    go TokenKind.implementation sp = shorter (token TokenKind.implementation sp) (
        Ensures-continue (platform-Ensures ts) λ platform us p.
          Ensures-within (skip_newlines-Suffix us) (
            Ensures-continue (implementation-Ensures (skip_newlines us))
              λ body rest q. holds _ (pass_end platform rest) (pass_end-Suffix platform rest) tt))
    go TokenKind.composition sp = shorter (token TokenKind.composition sp) (
        Ensures-within (skip_newlines-Suffix ts) (
          Ensures-continue (implementation-Ensures (skip_newlines ts))
            λ ns rest p. holds _ rest here tt))
    go k sp = tt

end-Ensures :
    (b : Behavior) (ts : List Token) → Ensures Anything ts (finish_behavior b (peek ts).kind ts)
unfolding finish_behavior
end-Ensures b [] = rejected [] unexpected_eof here
end-Ensures b (t ∷ ts) = go t.kind t.span
  where
    go :
        (k : TokenKind) (sp : Span)
        → Ensures Anything (token k sp ∷ ts) (finish_behavior b k (token k sp ∷ ts))
    go TokenKind.native sp = holds _ ts (there (token TokenKind.native sp) ts here) tt
    go TokenKind.end sp = holds b ts (there (token TokenKind.end sp) ts here) tt
    go TokenKind.eof sp = rejected (token TokenKind.eof sp ∷ ts) unexpected_eof here
    go k sp = rejected (token k sp ∷ ts) (in_behavior k) here

-- At least `BEHAVIOR` is read.
pub parse_behavior-Ensures :
    (source : Text) (ts : List Token)
    → Ensures (λ b rest. length rest < length ts) ts (parse_behavior source ts)
unfolding parse_behavior
parse_behavior-Ensures source ts = Ensures-within (skip_newlines-Suffix ts) (
    Ensures-continue (expect-Ensures is_behavior TokenKind.behavior refl (skip_newlines ts))
      λ sp us m. Ensures-continue (expect_identifier-Ensures us) λ name vs p.
        Ensures-within (skip_newlines-Suffix vs) (
          bounded
            (omega (
              arith,
              Suffix-length (skip_newlines-Suffix ts),
              Suffix-length (skip_newlines-Suffix vs),
              NameTokens-length p,
            ))
            (parse_sections-Ensures (behavior_section source) finish_behavior (section-Reads source)
              end-Ensures (new_behavior name) (skip_newlines vs))))
