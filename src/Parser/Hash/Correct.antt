-- ===== src/Parser/Hash/Correct.antt =====
-- A hash is read back from the tokens that it is lexed into.
use mathlib.Core.Path.{subst}
use mathlib.Core.List.{append_assoc, append-nil}
use mathlib.Core.Option.{some-injective}
use sigil_lang.Prelude.{
  ℕ, zero, suc, ◌+◌, ◌-◌, ◌<◌, ◌^◌, ◌≡◌, refl, sym, ap, ◌∙◌, inl, inr, Bool, true, false, ◌&&◌,
  ◌||◌, none, some, List, [], ◌∷◌, ◌++◌, map, arith, Text, length, length-append, all, All, All-map,
  ltb, leb, if◌then◌else◌, Bool-cases, ok, nat_eq, ◌==◌,
}
use sigil_lang.Ast.{Span}
use sigil_lang.Chars.{is_ascii_digit, is_ascii_hexdigit, utf8-ascii}
use sigil_lang.Decimal.{decimal, zeros}
use sigil_lang.Lexer.Tokens.{Token, TokenKind, identifier, integer}
use sigil_lang.Lexer.State.{byte_len}
use sigil_lang.Lexer.Numbers.{digits_value, parse_magnitude, positive, parse_i64, all_digits}
use sigil_lang.Lexer.Numbers.Digits.{AreDigits, decimal-digits_value, length-decimal}
use sigil_lang.Parser.Cursor.{peek, advance}
use sigil_lang.Parser.Hash.{
  print_i64, to_ascii_lowercase, is_nil, finish_hash, append_word, hex_of_kind, expect_hex_string,
}

-- The characters of a printed hash.
abbrev pub is_hash_char : ℕ → Bool
is_hash_char c = is_ascii_digit c || (leb b'a' c && leb c b'f')

abbrev pub AreHex : Text → Type 0
AreHex h = All (λ c. is_hash_char c ≡ true) h

-- What `hex::encode` makes of four bytes.
pub record IsHash (h : Text) : Type 0 where
  pub chars : AreHex h
  pub eight : length h ≡ 8

byte_len-hex : (h : Text) → AreHex h → byte_len h ≡ length h
byte_len-hex h a = ap length (utf8-ascii h (All-map (λ c e. ground (arith, e)) h a))

all-hex : (h : Text) → AreHex h → all is_ascii_hexdigit h ≡ true
all-hex [] a = refl
all-hex (c ∷ h) a = ground (arith, a.0, all-hex h a.1)

lowercase-hex : (h : Text) → AreHex h → map to_ascii_lowercase h ≡ h
lowercase-hex [] a = refl
lowercase-hex (c ∷ h) a = ground (arith, a.0, lowercase-hex h a.1)

All-tail : (P : ℕ → Type 0) (xs ys : Text) → All P (xs ++ ys) → All P ys
All-tail P [] ys a = a
All-tail P (x ∷ xs) ys a = All-tail P xs ys a.1

length-zeros : (k : ℕ) → length (zeros k) ≡ k
length-zeros zero = refl
length-zeros (suc k) = ap suc (length-zeros k)

is_nil-length : (r : Text) → 0 < length r → is_nil r ≡ false
is_nil-length [] h = absurd (omega arith)
is_nil-length (c ∷ r) h = refl

-- A hash that has lost zeros in front gets them back.
finish_hash-zeros :
    (h r : Text) (k : ℕ) → IsHash h → h ≡ zeros k ++ r → 0 < length r → finish_hash r ≡ h
unfolding finish_hash
finish_hash-zeros h r k i e full =
    let hex = All-tail _ (zeros k) r (subst AreHex e i.chars) in
    let len : k + length r ≡ 8 =
      omega (arith, i.eight, ap length e, length-append (zeros k) r, length-zeros k) in
    let bytes = byte_len-hex r hex in
    elim (Bool-cases (ltb (length r) 8)) [
      | inl short ↦
          let missing : 8 - length r ≡ k = omega (arith, len) in
          rw (is_nil-length r full, bytes, short, all-hex r hex, missing)
            (ap (map to_ascii_lowercase) (sym e) ∙ lowercase-hex h i.chars)
      | inr long ↦
          let none_lost : k ≡ 0 = ground (arith, len, long) in
          rw (is_nil-length r full, bytes, long)
            (lowercase-hex r hex ∙ sym (e ∙ ap (λ j. zeros j ++ r) none_lost))
    ]

-- Where a number token ends a hash, the next token is no word that would be appended.
abbrev pub continues_hex : TokenKind → Bool
continues_hex (identifier s) = all is_ascii_hexdigit s
continues_hex _ = false

-- The tokens of a hash: one word, or a number and, if a letter comes after the digits, a word.
pub data HashTokens : Text → List Token → List Token → Type 0 where
  word :
      (h : Text) (sp : Span) (rest : List Token)
      → HashTokens h (record { kind = identifier h; span = sp } ∷ rest) rest
  number :
      (c : ℕ) (ds : Text) (n : ℕ) (sp : Span) (rest : List Token)
      → AreDigits (c ∷ ds)
      → parse_i64 (c ∷ ds) ≡ some n
      → continues_hex (peek rest).kind ≡ false
      → HashTokens (c ∷ ds) (record { kind = integer n; span = sp } ∷ rest) rest
  number_word :
      (c : ℕ) (ds ls : Text) (n : ℕ) (sp sq : Span) (rest : List Token)
      → AreDigits (c ∷ ds)
      → parse_i64 (c ∷ ds) ≡ some n
      → HashTokens
          (c ∷ (ds ++ ls))
          (record { kind = integer n; span = sp }
            ∷ record { kind = identifier ls; span = sq }
            ∷ rest)
          rest

all_digits-AreDigits : (ds : Text) → AreDigits ds → all_digits is_ascii_digit ds ≡ true
all_digits-AreDigits [] a = refl
all_digits-AreDigits (c ∷ ds) a = ground (arith, a.0, all_digits-AreDigits ds a.1)

print_i64-parse_i64 :
    (c : ℕ) (ds : Text) (n : ℕ)
    → AreDigits (c ∷ ds)
    → parse_i64 (c ∷ ds) ≡ some n
    → print_i64 n ≡ decimal (digits_value 10 0 (c ∷ ds))
unfolding parse_i64 parse_magnitude positive print_i64
print_i64-parse_i64 c ds n a e =
    let minus : (c == b'-') ≡ false = ground (arith, a.0) in
    let plus : (c == b'+') ≡ false = ground (arith, a.0) in
    let v = digits_value 10 0 (c ∷ ds) in
    let e' : (if ltb v (2 ^ 63) then some v else none) ≡ some n =
      rw (minus, plus, all_digits-AreDigits (c ∷ ds) a) at e in
    elim (Bool-cases (ltb v (2 ^ 63))) [
      | inr big ↦ absurd (cc (rw big at e'))
      | inl small ↦
          let same : v ≡ n = some-injective v n (rw small at e') in rw (← same) (rw small refl)
    ]

hash_of_number :
    (c : ℕ) (ds ls : Text) (n : ℕ)
    → IsHash (c ∷ (ds ++ ls))
    → AreDigits (c ∷ ds)
    → parse_i64 (c ∷ ds) ≡ some n
    → finish_hash (print_i64 n ++ ls) ≡ c ∷ (ds ++ ls)
hash_of_number c ds ls n i a e =
    let (k, f) = decimal-digits_value c ds a in
    let v = digits_value 10 0 (c ∷ ds) in
    ap (λ t. finish_hash (t ++ ls)) (print_i64-parse_i64 c ds n a e)
    ∙ finish_hash-zeros (c ∷ (ds ++ ls)) (decimal v ++ ls) k i
        (ap (λ t. t ++ ls) f ∙ append_assoc (zeros k) (decimal v) ls)
        (omega (arith, length-decimal v, length-append (decimal v) ls))

append_word-stops :
    (r : Text) (k : TokenKind) (ts : List Token)
    → continues_hex k ≡ false
    → append_word r k ts ≡ (r, ts)
unfolding append_word
append_word-stops r (identifier s) ts h = rw h refl
append_word-stops r _ ts h = refl

-- The eight characters of a printed hash are read back from its tokens, whatever its leading zeros
-- and wherever its first letter stands, unless the hash is all digits and the next token is a word of
-- hexadecimal digits.
pub expect_hex_string-HashTokens :
    (h : Text) (ts rest : List Token)
    → IsHash h
    → HashTokens h ts rest
    → expect_hex_string ts ≡ ok (h, rest)
unfolding expect_hex_string hex_of_kind append_word advance peek
expect_hex_string-HashTokens h ts rest i (word w sp later) =
    ap (λ t. ok (t, later)) (finish_hash-zeros w w 0 i refl (omega (arith, i.eight)))
expect_hex_string-HashTokens h ts rest i (number c ds n sp later a e stops) =
    ap (λ x. ok (finish_hash x.0, x.1))
      (append_word-stops (print_i64 n) (peek later).kind later stops)
    ∙ ap (λ t. ok (t, later)) (alone i)
  where
    alone : IsHash (c ∷ ds) → finish_hash (print_i64 n) ≡ c ∷ ds
    alone j =
        ap finish_hash (sym (append-nil (print_i64 n)))
        ∙ hash_of_number c ds [] n (subst IsHash (sym (append-nil (c ∷ ds))) j) a e
        ∙ append-nil (c ∷ ds)
expect_hex_string-HashTokens h ts rest i (number_word c ds ls n sp sq later a e) =
    rw (all-hex ls (All-tail _ (c ∷ ds) ls i.chars))
      (ap (λ t. ok (t, later)) (hash_of_number c ds ls n i a e))
