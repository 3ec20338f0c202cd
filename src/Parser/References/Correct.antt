-- ===== src/Parser/References/Correct.antt =====
-- Dependencies are read back from their tokens.
use sigil_lang.Prelude.{
  ℕ, zero, suc, ◌<◌, ◌≤◌, ◌≡◌, refl, Bool, true, false, none, some, List, [], ◌∷◌, arith, Text,
  length, ok,
}
use sigil_lang.Ast.{Span, BehaviorRef}
use sigil_lang.Lexer.Tokens.{Token, TokenKind, identifier, at}
use sigil_lang.Parser.Cursor.{peek, advance}
use sigil_lang.Parser.Hash.Correct.{
  IsHash, HashTokens, word, number, number_word, expect_hex_string-HashTokens,
}
use sigil_lang.Parser.References.{parse_pin, parse_refs_loop, word_of, parse_behavior_refs}

abbrev pub is_at : TokenKind → Bool
is_at at = true
is_at _ = false

-- The tokens of a list of dependencies, and those after it: a name, and for one that is pinned `@`
-- and the tokens of its hash. The list ends before a token that is no name.
pub data RefsTokens : List BehaviorRef → List Token → List Token → Type 0 where
  done : (rest : List Token) → word_of (peek rest).kind ≡ none → RefsTokens [] rest rest
  unpinned :
      (name : Text) (sp : Span) (rs : List BehaviorRef) (ts rest : List Token)
      → is_at (peek ts).kind ≡ false
      → RefsTokens rs ts rest
      → RefsTokens
          (record { name = name; hash = [] } ∷ rs)
          (record { kind = identifier name; span = sp } ∷ ts)
          rest
  pinned :
      (name h : Text) (sp sq : Span) (rs : List BehaviorRef) (hs ts rest : List Token)
      → IsHash h
      → HashTokens h hs ts
      → RefsTokens rs ts rest
      → RefsTokens
          (record { name = name; hash = h } ∷ rs)
          (record { kind = identifier name; span = sp } ∷ record { kind = at; span = sq } ∷ hs)
          rest

HashTokens-length :
    (h : Text) (ts rest : List Token) → HashTokens h ts rest → length rest ≤ length ts
HashTokens-length h ts rest (word w sp r) = omega arith
HashTokens-length h ts rest (number c ds n sp r a e s) = omega arith
HashTokens-length h ts rest (number_word c ds ls n sp sq r a e) = omega arith

RefsTokens-length :
    (rs : List BehaviorRef) (ts rest : List Token) → RefsTokens rs ts rest → length rs ≤ length ts
RefsTokens-length rs ts rest (done r h) = omega arith
RefsTokens-length rs ts rest (unpinned n sp qs us r h k) =
    omega (arith, RefsTokens-length qs us r k)
RefsTokens-length rs ts rest (pinned n h sp sq qs hs us r i t k) =
    omega (arith, RefsTokens-length qs us r k, HashTokens-length h hs us t)

parse_pin-unpinned :
    (k : TokenKind) (ts : List Token) → is_at k ≡ false → parse_pin k ts ≡ ok ([], ts)
unfolding parse_pin
parse_pin-unpinned at ts h = absurd (cc)
parse_pin-unpinned _ ts h = refl

-- The loop after a name whose pin was read.
parse_refs_loop-name :
    (fuel : ℕ) (name h : Text) (sp : Span) (ts later rest : List Token) (rs : List BehaviorRef)
    → parse_pin (peek ts).kind ts ≡ ok (h, later)
    → parse_refs_loop fuel later ≡ some (ok (rs, rest))
    → parse_refs_loop (suc fuel) (record { kind = identifier name; span = sp } ∷ ts)
      ≡ some (ok (record { name = name; hash = h } ∷ rs, rest))
unfolding parse_refs_loop advance peek
parse_refs_loop-name fuel name h sp ts later rest rs pin loop =
    rw (pin, parse_refs_loop) (simp loop)

parse_refs_loop-RefsTokens :
    (fuel : ℕ) (rs : List BehaviorRef) (ts rest : List Token)
    → length rs < fuel
    → RefsTokens rs ts rest
    → parse_refs_loop fuel ts ≡ some (ok (rs, rest))
unfolding parse_refs_loop parse_pin advance peek
parse_refs_loop-RefsTokens zero rs ts rest l h = absurd (omega arith)
parse_refs_loop-RefsTokens (suc fuel) rs ts rest l (done r h) = rw (h, parse_refs_loop) refl
parse_refs_loop-RefsTokens (suc fuel) rs ts rest l (unpinned n sp qs us r h k) =
    parse_refs_loop-name fuel n [] sp us us r qs (parse_pin-unpinned (peek us).kind us h)
      (parse_refs_loop-RefsTokens fuel qs us r (omega arith) k)
parse_refs_loop-RefsTokens (suc fuel) rs ts rest l (pinned n h sp sq qs hs us r i t k) =
    parse_refs_loop-name fuel n h sp (record { kind = at; span = sq } ∷ hs) us r qs
      (expect_hex_string-HashTokens h hs us i t)
      (parse_refs_loop-RefsTokens fuel qs us r (omega arith) k)

-- Dependencies, each without a pin or with one of eight digits and lower-case hexadecimal letters, are
-- read back from the tokens that they are written with, and the parser stops before the next token:
-- its fuel suffices. A pin that is all digits must not stand before a word of hexadecimal digits. Of
-- pins in other forms, shorter or with capital letters, nothing is said.
pub parse_behavior_refs-RefsTokens :
    (rs : List BehaviorRef) (ts rest : List Token)
    → RefsTokens rs ts rest
    → parse_behavior_refs ts ≡ some (ok (rs, rest))
unfolding parse_behavior_refs
parse_behavior_refs-RefsTokens rs ts rest h =
    parse_refs_loop-RefsTokens (suc (length ts)) rs ts rest
      (omega (arith, RefsTokens-length rs ts rest h)) h
