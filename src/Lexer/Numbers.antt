-- ===== src/Lexer/Numbers.antt =====
-- The number parsers of Rust's standard library that the lexer calls, with results as 64-bit patterns.
pub mod Digits
use sigil_lang.Prelude.{
  ℕ, ◌+◌, ◌-◌, ◌*◌, ◌^◌, Bool, true, false, Option, none, some, [], ◌∷◌, Text, nat_eq, ◌==◌, ltb,
  leb, if◌then◌else◌,
}
use sigil_lang.Chars.{is_ascii_digit, is_ascii_hexdigit}

-- The value of a hexadecimal digit, either case.
unfoldable pub digit_value : ℕ → ℕ
digit_value c = if leb c b'9' then c - b'0' else if leb c b'F' then c - b'A' + 10 else c - b'a' + 10

-- The digits after a value that was read already.
unfoldable pub digits_value : ℕ → ℕ → Text → ℕ
unfolding digit_value
digits_value base n [] = n
digits_value base n (c ∷ cs) = digits_value base (n * base + digit_value c) cs

abbrev pub all_digits : (ℕ → Bool) → Text → Bool
all_digits p [] = true
all_digits p (c ∷ cs) = let rest = all_digits p cs in if p c then rest else false

-- `str::parse::<i64>`: a sign, then digits; the value is in range. A negative number is its two's
-- complement.
unfoldable pub parse_magnitude : Text → Option ℕ
unfolding digits_value
parse_magnitude [] = none
parse_magnitude (c ∷ cs) =
    if all_digits is_ascii_digit (c ∷ cs) then some (digits_value 10 0 (c ∷ cs)) else none

unfoldable pub positive : Option ℕ → Option ℕ
positive none = none
positive (some n) = if ltb n (2 ^ 63) then some n else none

unfoldable pub negative : Option ℕ → Option ℕ
negative none = none
negative (some n) = if n == 0 then some 0 else if leb n (2 ^ 63) then some (2 ^ 64 - n) else none

unfoldable pub parse_i64 : Text → Option ℕ
unfolding parse_magnitude positive negative
parse_i64 [] = none
parse_i64 (c ∷ cs) =
    if c == b'-'
    then negative (parse_magnitude cs)
    else if c == b'+'
    then positive (parse_magnitude cs)
    else positive (parse_magnitude (c ∷ cs))

-- `u64::from_str_radix(digits, 16)`, for digits that the lexer has read. Where it fails, for a value
-- of more than 64 bits, so does the source's `i64::from_str_radix` that is tried next.
unfoldable pub parse_u64_hex : Text → Option ℕ
unfolding digits_value
parse_u64_hex [] = none
parse_u64_hex (c ∷ cs) =
    let n = digits_value 16 0 (c ∷ cs) in
    if all_digits is_ascii_hexdigit (c ∷ cs)
    then (if ltb n (2 ^ 64) then some n else none)
    else none
