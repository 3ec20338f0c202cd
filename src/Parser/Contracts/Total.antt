-- ===== src/Parser/Contracts/Total.antt =====
-- The parser of contracts ends at an end of its tokens, with a contract or an error.
use sigil_lang.Prelude.{
  ℕ, zero, suc, ◌+◌, ◌&&◌, not, ◌<◌, ◌≤◌, ◌≡◌, ◌==◌, inl, inr, Bool-cases, Option-cases, some, List,
  [], ◌∷◌, arith, Text, length, all, ok,
}
use sigil_lang.Ast.{Span, Ty, ty_eq, BehaviorRef, Contract, empty_contract}
use sigil_lang.Chars.{is_ascii_hexdigit}
use sigil_lang.Lexer.Tokens.{Token, TokenKind}
use sigil_lang.Parser.Cursor.{peek, advance, skip_newlines}
use sigil_lang.Parser.Errors.{expected_hex}
use sigil_lang.Parser.Hash.{expect_hex_string, hex_of_kind, append_word, finish_hash, print_i64}
use sigil_lang.Parser.References.{word_of, parse_pin, parse_refs_loop, parse_behavior_refs}
use sigil_lang.Parser.Outcome.{
  here, there, skip_newlines-Suffix, Suffix-length, Ensures, holds, rejected, Ensures-continue,
  Ensures-within, Ensures-then,
}
use sigil_lang.Parser.Words.{
  token, expect_identifier-Ensures, parse_type-Ensures, parse_integer-Ensures,
}
use sigil_lang.Parser.Names.{names-Ensures}
use sigil_lang.Parser.Sections.{Reads, Anything, forget, shorter, parse_sections-Ensures}
use sigil_lang.Parser.Contracts.{
  is_integer, parse_size, parse_parameter, parse_requires_within, parse_requires, guarantee_of,
  parse_guarantees, contract_section, finish_contract, parse_contract,
}

append_word-Ensures :
    (r : Text) (ts : List Token)
    → Ensures Anything ts
        (let (w, rest) = append_word r (peek ts).kind ts in some (ok (finish_hash w, rest)))
unfolding append_word peek advance
append_word-Ensures r [] = holds (finish_hash r) [] here tt
append_word-Ensures r (t ∷ ts) = go t.kind t.span
  where
    go :
        (k : TokenKind) (sp : Span)
        → Ensures Anything
            (token k sp ∷ ts)
            (let (w, rest) = append_word r k (token k sp ∷ ts) in some (ok (finish_hash w, rest)))
    go (TokenKind.identifier s) sp = elim (Bool-cases (all is_ascii_hexdigit s)) [
      | inl h ↦ rw (h, append_word) (holds _ ts (there _ ts here) tt)
      | inr h ↦ rw (h, append_word) (holds _ (token (TokenKind.identifier s) sp ∷ ts) here tt)
    ]
    go k sp = holds (finish_hash r) (token k sp ∷ ts) here tt

pub expect_hex_string-Ensures :
    (ts : List Token) → Ensures Anything ts (some (expect_hex_string ts))
unfolding expect_hex_string hex_of_kind
expect_hex_string-Ensures [] = rejected [] _ here
expect_hex_string-Ensures (t ∷ ts) = go t.kind t.span
  where
    go :
        (k : TokenKind) (sp : Span)
        → Ensures Anything (token k sp ∷ ts) (some (expect_hex_string (token k sp ∷ ts)))
    go (TokenKind.identifier s) sp = holds (finish_hash s) ts (there _ ts here) tt
    go (TokenKind.integer n) sp =
        Ensures-within (there (token (TokenKind.integer n) sp) ts here)
          (append_word-Ensures (print_i64 n) ts)
    go k sp = rejected (token k sp ∷ ts) (expected_hex k) here

pin-Ensures : (ts : List Token) → Ensures Anything ts (some (parse_pin (peek ts).kind ts))
unfolding parse_pin
pin-Ensures [] = holds [] [] here tt
pin-Ensures (t ∷ ts) = go t.kind t.span
  where
    go :
        (k : TokenKind) (sp : Span)
        → Ensures Anything (token k sp ∷ ts) (some (parse_pin k (token k sp ∷ ts)))
    go TokenKind.at sp =
        Ensures-within (there (token TokenKind.at sp) ts here) (expect_hex_string-Ensures ts)
    go k sp = holds [] (token k sp ∷ ts) here tt

refs-Ensures :
    (fuel : ℕ) (ts : List Token) → length ts < fuel → Ensures Anything ts (parse_refs_loop fuel ts)
unfolding parse_refs_loop
refs-Ensures zero ts l = absurd (omega arith)
refs-Ensures (suc fuel) [] l = holds [] [] here tt
refs-Ensures (suc fuel) (t ∷ ts) l = go t.kind t.span (λ us m. refs-Ensures fuel us (omega arith))
  where
    go :
        (k : TokenKind) (sp : Span)
        → ((us : List Token)
            → length us ≤ length ts
            → Ensures Anything us (parse_refs_loop fuel us))
        → Ensures Anything (token k sp ∷ ts) (parse_refs_loop (suc fuel) (token k sp ∷ ts))
    go (TokenKind.identifier s) sp ih =
        Ensures-within (there (token (TokenKind.identifier s) sp) ts here) (
          Ensures-then (pin-Ensures ts) λ h us p m.
            Ensures-continue (ih us m)
              λ rs rest q. holds (record { name = s; hash = h } ∷ rs) rest here tt)
    go k sp ih = holds [] (token k sp ∷ ts) here tt

-- At a name, at least that is read.
refs-shorter :
    (ts : List Token) (s : Text)
    → word_of (peek ts).kind ≡ some s
    → Ensures (λ rs rest. length rest < length ts) ts (parse_behavior_refs ts)
unfolding parse_behavior_refs parse_refs_loop
refs-shorter [] s h = cc
refs-shorter (t ∷ ts) s h = go t.kind t.span h
  where
    go :
        (k : TokenKind) (sp : Span)
        → word_of k ≡ some s
        → Ensures
            (λ rs rest. length rest < suc (length ts))
            (token k sp ∷ ts)
            (parse_behavior_refs (token k sp ∷ ts))
    go (TokenKind.identifier n) sp e = shorter (token (TokenKind.identifier n) sp) (
        Ensures-then (pin-Ensures ts) λ h us p m.
          Ensures-continue
            (refs-Ensures (length (token (TokenKind.identifier n) sp ∷ ts)) us (omega arith))
            λ rs rest q. holds (record { name = n; hash = h } ∷ rs) rest here tt)
    go k sp e = cc

requires-Ensures :
    (fuel : ℕ) (refs : List BehaviorRef) (ts : List Token)
    → length ts < fuel
    → Ensures Anything ts (parse_requires_within fuel refs ts)
unfolding parse_requires_within
requires-Ensures zero refs ts l = absurd (omega arith)
requires-Ensures (suc fuel) refs ts l =
    elim (Option-cases (word_of (peek (skip_newlines ts)).kind)) [
      | inl h ↦
          rw (h, parse_requires_within) (holds refs (skip_newlines ts) (skip_newlines-Suffix ts) tt)
      | inr (s, h) ↦
          rw (h, parse_requires_within)
            (Ensures-within (skip_newlines-Suffix ts) (
              Ensures-continue (refs-shorter (skip_newlines ts) s h) λ rs rest m.
                requires-Ensures fuel rs rest
                  (omega (arith, Suffix-length (skip_newlines-Suffix ts)))))
    ]

parse_requires-Ensures : (ts : List Token) → Ensures Anything ts (parse_requires ts)
unfolding parse_requires
parse_requires-Ensures ts = Ensures-within (skip_newlines-Suffix ts) (
    Ensures-continue
      (requires-Ensures (length ts + 1) [] (skip_newlines ts)
        (omega (arith, Suffix-length (skip_newlines-Suffix ts))))
      λ refs rest p. holds (record { behaviors = refs; memory = [] }) rest here tt)

guarantees-Ensures : (ts : List Token) → Ensures Anything ts (parse_guarantees ts)
unfolding parse_guarantees
guarantees-Ensures [] = holds [] [] here tt
guarantees-Ensures (t ∷ ts) = elim (Option-cases (guarantee_of t.kind)) [
  | inl h ↦ rw (h, parse_guarantees) (holds [] (t ∷ ts) here tt)
  | inr (g, h) ↦
      rw (h, parse_guarantees)
        (Ensures-within (there t ts here)
          (Ensures-continue (guarantees-Ensures ts) λ gs rest p. holds (g ∷ gs) rest here tt))
]

size-Ensures : (t : Ty) (ts : List Token) → Ensures Anything ts (parse_size t ts)
unfolding parse_size
size-Ensures t ts = elim (Bool-cases (t == Ty.string && not (is_integer (peek ts).kind))) [
  | inl h ↦ rw (h, parse_size) (holds 0 ts here tt)
  | inr h ↦ rw (h, parse_size) (forget (parse_integer-Ensures ts))
]

parameter-Ensures : (ts : List Token) → Ensures Anything ts (parse_parameter ts)
unfolding parse_parameter
parameter-Ensures ts = Ensures-continue (expect_identifier-Ensures ts) λ s us p.
    Ensures-continue (parse_type-Ensures us) λ t vs q.
      Ensures-continue (size-Ensures t vs)
        λ n rest r. holds (record { name = s; typ = t; size = n }) rest here tt

section-Reads : (c : Contract) (ts : List Token) → Reads (contract_section c (peek ts).kind) ts
unfolding contract_section
section-Reads c [] = tt
section-Reads c (t ∷ ts) = go t.kind t.span
  where
    go : (k : TokenKind) (sp : Span) → Reads (contract_section c k) (token k sp ∷ ts)
    go TokenKind.input sp =
        shorter (token TokenKind.input sp)
          (Ensures-continue (parameter-Ensures ts) λ p rest q. holds _ rest here tt)
    go TokenKind.output sp =
        shorter (token TokenKind.output sp)
          (Ensures-continue (parameter-Ensures ts) λ p rest q. holds _ rest here tt)
    go TokenKind.requires sp = shorter (token TokenKind.requires sp) (
        Ensures-within (skip_newlines-Suffix ts) (
          Ensures-continue (parse_requires-Ensures (skip_newlines ts))
            λ r rest q. holds _ rest here tt))
    go TokenKind.guarantees sp =
        shorter (token TokenKind.guarantees sp)
          (Ensures-continue (guarantees-Ensures ts) λ gs rest q. holds _ rest here tt)
    go TokenKind.memory sp =
        shorter (token TokenKind.memory sp)
          (Ensures-continue (names-Ensures ts) λ ms rest q. holds _ rest here tt)
    go k sp = tt

pub parse_contract-Ensures : (ts : List Token) → Ensures Anything ts (parse_contract ts)
unfolding parse_contract finish_contract
parse_contract-Ensures ts =
    parse_sections-Ensures contract_section finish_contract section-Reads
      (λ c us. holds c us here tt) empty_contract ts
