-- ===== src/Lexer/Numbers/Digits.antt =====
-- Reading digits and printing the number gives the digits back, but for zeros in front.
use mathlib.Core.List.{append_assoc, append-nil}
use mathlib.Core.Path.{subst}
use sigil_lang.Prelude.{
  length, ◌≤◌, ℕ, zero, suc, ◌+◌, ◌*◌, ◌/◌, ◌%◌, ◌<◌, ◌≡◌, refl, sym, ap, ◌∙◌, ◌⊎◌, inl, inr, true,
  false, [], ◌∷◌, ◌++◌, arith, Text, All, nat_beq, Bool-cases, nat_beq_iff,
}
use sigil_lang.Chars.{is_ascii_digit}
use sigil_lang.Decimal.{decimal_digits, decimal, zeros}
use sigil_lang.Lexer.Numbers.{digit_value, digits_value}

decimal_digits-append :
    (fuel n : ℕ) (acc : Text) → decimal_digits fuel n acc ≡ decimal_digits fuel n [] ++ acc
unfolding decimal_digits
decimal_digits-append zero n acc = refl
decimal_digits-append (suc fuel) n acc = elim (Bool-cases (nat_beq (n / 10) 0)) [
  | inl e ↦ rw e refl
  | inr e ↦ rw e (
      decimal_digits-append fuel (n / 10) ((b'0' + n % 10) ∷ acc)
      ∙ sym (append_assoc (decimal_digits fuel (n / 10) []) ((b'0' + n % 10) ∷ []) acc)
      ∙ ap (λ xs. xs ++ acc) (sym (decimal_digits-append fuel (n / 10) ((b'0' + n % 10) ∷ []))))
]

decimal_digits-fuel :
    (f g n : ℕ) (acc : Text) → n < f → n < g → decimal_digits f n acc ≡ decimal_digits g n acc
unfolding decimal_digits
decimal_digits-fuel zero g n acc h k = absurd (omega arith)
decimal_digits-fuel (suc f) zero n acc h k = absurd (omega arith)
decimal_digits-fuel (suc f) (suc g) n acc h k = elim (Bool-cases (nat_beq (n / 10) 0)) [
  | inl e ↦ rw e refl
  | inr e ↦ rw e (decimal_digits-fuel f g (n / 10) _ (ground (arith, h)) (ground (arith, k)))
]

decimal-digit : (d : ℕ) → d < 10 → decimal d ≡ (b'0' + d) ∷ []
unfolding decimal decimal_digits
decimal-digit d h =
    decimal_digits-fuel (d + 1) (suc d) d [] (omega arith) (omega arith) ∙ ground (arith, h)

decimal-snoc : (n d : ℕ) → 0 < n → d < 10 → decimal (n * 10 + d) ≡ decimal n ++ ((b'0' + d) ∷ [])
unfolding decimal decimal_digits
decimal-snoc n d h k =
    let q : (n * 10 + d) / 10 ≡ n = omega arith in
    let r : (n * 10 + d) % 10 ≡ d = omega arith in
    let z : nat_beq n 0 ≡ false = ground arith in
    decimal_digits-fuel (n * 10 + d + 1) (suc (n * 10 + d)) (n * 10 + d) [] (omega arith)
      (omega arith)
    ∙ rw (q, r, z, decimal_digits)
        (decimal_digits-append (n * 10 + d) n ((b'0' + d) ∷ [])
          ∙ ap (λ xs. xs ++ ((b'0' + d) ∷ []))
              (decimal_digits-fuel (n * 10 + d) (n + 1) n [] (omega arith) (omega arith)))

zeros-snoc : (n : ℕ) → zeros n ++ (b'0' ∷ []) ≡ zeros (suc n)
zeros-snoc zero = refl
zeros-snoc (suc n) = ap (λ xs. b'0' ∷ xs) (zeros-snoc n)

abbrev pub AreDigits : Text → Type 0
AreDigits ds = All (λ c. is_ascii_digit c ≡ true) ds

-- What was read so far, and its value.
abbrev IsRead : Text → ℕ → Type 0
IsRead p n =
    ((n ≡ 0) × ((k : ℕ) × (p ≡ zeros k))) ⊎ ((0 < n) × ((k : ℕ) × (p ≡ zeros k ++ decimal n)))

digit_value-digit :
    (c : ℕ) → is_ascii_digit c ≡ true → (b'0' + digit_value c ≡ c) × (digit_value c < 10)
unfolding digit_value
digit_value-digit c h = ground (arith, h)

IsRead-snoc :
    (p : Text) (n c : ℕ)
    → is_ascii_digit c ≡ true
    → IsRead p n
    → IsRead (p ++ (c ∷ [])) (n * 10 + digit_value c)
IsRead-snoc p n c h (inl (z, (k, e))) =
    let (same, small) = digit_value-digit c h in
    let value : n * 10 + digit_value c ≡ digit_value c = omega (arith, z) in
    elim (Bool-cases (nat_beq (digit_value c) 0)) [
      | inl nought ↦
          let d : digit_value c ≡ 0 = (nat_beq_iff _ _).0 nought in
          let char : c ≡ b'0' = omega (arith, same, d) in
          inl (omega (arith, value, d), (suc k, rw (e, char) (zeros-snoc k)))
      | inr other ↦
          let positive : 0 < digit_value c = ground (arith, other) in
          inr (
            omega (arith, value, positive),
            (
              k,
              ap (λ xs. xs ++ (c ∷ [])) e
                  ∙ ap (λ xs. zeros k ++ xs)
                      (ap (λ x. x ∷ []) (sym same)
                        ∙ sym (decimal-digit (digit_value c) small)
                        ∙ ap decimal (sym value)),
            ),
          )
    ]
IsRead-snoc p n c h (inr (pos, (k, e))) =
    let (same, small) = digit_value-digit c h in
    inr (
      omega (arith, pos),
      (
        k,
        ap (λ xs. xs ++ (c ∷ [])) e
            ∙ append_assoc (zeros k) (decimal n) (c ∷ [])
            ∙ ap (λ xs. zeros k ++ xs)
                (ap (λ x. decimal n ++ (x ∷ [])) (sym same)
                  ∙ sym (decimal-snoc n (digit_value c) pos small)),
      ),
    )

digits_value-IsRead :
    (p ds : Text) (n : ℕ) → AreDigits ds → IsRead p n → IsRead (p ++ ds) (digits_value 10 n ds)
unfolding digits_value
digits_value-IsRead p [] n h r = subst (λ xs. IsRead xs n) (sym (append-nil p)) r
digits_value-IsRead p (c ∷ ds) n h r =
    subst (λ xs. IsRead xs (digits_value 10 (n * 10 + digit_value c) ds))
      (append_assoc p (c ∷ []) ds)
      (digits_value-IsRead (p ++ (c ∷ [])) ds (n * 10 + digit_value c) h.1
        (IsRead-snoc p n c h.0 r))

-- At least one digit is zeros and then the number, as it is printed.
pub decimal-digits_value :
    (c : ℕ) (ds : Text)
    → AreDigits (c ∷ ds)
    → (k : ℕ) × (c ∷ ds ≡ zeros k ++ decimal (digits_value 10 0 (c ∷ ds)))
decimal-digits_value c ds h = elim (digits_value-IsRead [] (c ∷ ds) 0 h (inl (refl, (0, refl)))) [
  | inr (_, found) ↦ found
  | inl (z, (k, e)) ↦ by_zeros k z e
]
  where
    by_zeros :
        (k : ℕ)
        → digits_value 10 0 (c ∷ ds) ≡ 0
        → c ∷ ds ≡ zeros k
        → (k : ℕ) × (c ∷ ds ≡ zeros k ++ decimal (digits_value 10 0 (c ∷ ds)))
    by_zeros zero z e = absurd (cc)
    by_zeros (suc k) z e = (
      k,
      e
          ∙ sym (zeros-snoc k)
          ∙ ap (λ xs. zeros k ++ xs) (sym (decimal-digit 0 (omega arith)) ∙ ap decimal (sym z)),
    )

decimal_digits-length : (fuel n : ℕ) (acc : Text) → length acc ≤ length (decimal_digits fuel n acc)
unfolding decimal_digits
decimal_digits-length zero n acc = omega arith
decimal_digits-length (suc fuel) n acc = elim (Bool-cases (nat_beq (n / 10) 0)) [
  | inl e ↦ rw e (omega arith)
  | inr e ↦ rw e (omega (arith, decimal_digits-length fuel (n / 10) ((b'0' + n % 10) ∷ acc)))
]

-- A number has a digit.
pub length-decimal : (n : ℕ) → 0 < length (decimal n)
unfolding decimal decimal_digits
length-decimal n =
    subst (λ t. 0 < length t) (decimal_digits-fuel (suc n) (n + 1) n [] (omega arith) (omega arith))
      (elim (Bool-cases (nat_beq (n / 10) 0)) [
        | inl e ↦ rw e (omega arith)
        | inr e ↦ rw e (omega (arith, decimal_digits-length n (n / 10) ((b'0' + n % 10) ∷ [])))
      ])
