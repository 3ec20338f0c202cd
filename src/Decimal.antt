-- ===== src/Decimal.antt =====
-- `to_string` of an unsigned integer.
use sigil_lang.Prelude.{
  ℕ, zero, suc, ◌+◌, ◌/◌, ◌%◌, ◌≡◌, refl, [], ◌∷◌, Text, codes, if◌then◌else◌, nat_beq,
}

-- The digits in front of `acc`; fuel above the number is enough.
unfoldable pub decimal_digits : ℕ → ℕ → Text → Text
decimal_digits zero n acc = acc
decimal_digits (suc fuel) n acc =
    let here = (b'0' + n % 10) ∷ acc in
    let rest = decimal_digits fuel (n / 10) here in if nat_beq (n / 10) 0 then here else rest

unfoldable pub decimal : ℕ → Text
unfolding decimal_digits
decimal n = decimal_digits (n + 1) n []

decimal_runs : decimal 4553303 ≡ codes "4553303"
unfolding decimal
decimal_runs = refl

-- `n` zeros.
abbrev pub zeros : ℕ → Text
zeros zero = []
zeros (suc n) = b'0' ∷ zeros n
