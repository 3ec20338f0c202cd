-- ===== src/Lexer/Lines/Readers.antt =====
-- The readers never pass a line break: what each one consumes, in lines.
use sigil_lang.Prelude.{
  ℕ, suc, ◌+◌, ◌≤◌, ◌≡◌, refl, ap, inl, inr, Bool, true, false, not, ◌&&◌, some, [], ◌∷◌, arith,
  Text, nat_eq, ◌==◌, eq_iff, length, if◌then◌else◌, Result, ok, err, ◌>>=◌, Bool-cases,
  Option-cases,
}
use sigil_lang.Chars.{is_ascii_digit}
use sigil_lang.Lexer.Tokens.{TokenKind}
use sigil_lang.Lexer.State.{
  LexError, Lexer, step, scan, is_blank, skip_whitespace, is_ident_char, read_identifier,
}
use sigil_lang.Lexer.Readers.{
  read_decimal, after_x, starts_with_x, read_chars, read_string, escape, read_word, note_section,
  is_description, ends_description, skip_comment,
}

-- The line breaks of a text.
abbrev pub newlines : Text → ℕ
newlines [] = 0
newlines (c ∷ cs) = let rest = newlines cs in if c == b'\n' then suc rest else rest

-- From one state to a later one over `n` line breaks.
pub record Advances (s : Lexer) (n : ℕ) (s' : Lexer) : Type 0 where
  pub line : s'.line ≡ s.line + n
  pub breaks : newlines s.rest ≡ n + newlines s'.rest
  pub shorter : length s'.rest ≤ length s.rest

pub Advances-nowhere : (s : Lexer) → Advances s 0 s
Advances-nowhere s = record { line = omega arith; breaks = omega arith; shorter = omega arith }

pub Advances-then :
    {s t u : Lexer} {m n : ℕ} → Advances s m t → Advances t n u → Advances s (m + n) u
Advances-then a b = record {
  line = omega (arith, a.line, b.line);
  breaks = omega (arith, a.breaks, b.breaks);
  shorter = omega (arith, a.shorter, b.shorter);
}

abbrev pub break_of : ℕ → ℕ
break_of c = if c == b'\n' then 1 else 0

pub step-Advances :
    (c : ℕ) (cs : Text) (s : Lexer) → s.rest ≡ c ∷ cs → Advances s (break_of c) (step c cs s)
unfolding step
step-Advances c cs s h = record {
  line = ground arith;
  breaks = ground (arith, ap newlines h);
  shorter = ground (arith, ap length h);
}

pub step-rest : (c : ℕ) (cs : Text) (s : Lexer) → (step c cs s).rest ≡ cs
unfolding step
step-rest c cs s = ground arith

-- A step over a character that is no line break, after which comes more.
pub step-before :
    (c : ℕ) (cs : Text) (s : Lexer) {s' : Lexer}
    → s.rest ≡ c ∷ cs
    → (c == b'\n') ≡ false
    → Advances (step c cs s) 0 s'
    → Advances s 0 s'
step-before c cs s h other a =
    let b : break_of c ≡ 0 = rw other refl in
    let f = step-Advances c cs s h in
    record {
      line = omega (arith, f.line, a.line, b);
      breaks = omega (arith, f.breaks, a.breaks, b);
      shorter = omega (arith, f.shorter, a.shorter);
    }

-- A class of characters without the line break.
other_of : (p : ℕ → Bool) (c : ℕ) → p b'\n' ≡ false → p c ≡ true → (c == b'\n') ≡ false
other_of p c none_there h = elim (Bool-cases (c == b'\n')) [
  | inl e ↦ absurd (cc ((eq_iff c b'\n').0 e, none_there, h))
  | inr e ↦ e
]

pub scan-Advances :
    (p : ℕ → Bool)
    → p b'\n' ≡ false
    → (cs : Text) (s : Lexer) → s.rest ≡ cs
    → Advances s 0 (scan p cs s).1
unfolding scan
scan-Advances p stops [] s h = Advances-nowhere s
scan-Advances p stops (c ∷ cs) s h = elim (Bool-cases (p c)) [
  | inl e ↦
      rw (e, scan)
        (step-before c cs s h (other_of p c stops e)
          (scan-Advances p stops cs (step c cs s) (step-rest c cs s)))
  | inr e ↦ rw (e, scan) (Advances-nowhere s)
]

pub skip_whitespace-Advances : (s : Lexer) → Advances s 0 (skip_whitespace s)
unfolding skip_whitespace
skip_whitespace-Advances s = scan-Advances is_blank refl s.rest s refl

pub skip_comment-Advances : (s : Lexer) → Advances s 0 (skip_comment s)
unfolding skip_comment
skip_comment-Advances s = scan-Advances (λ c. not (c == b'\n')) refl s.rest s refl

pub read_decimal-Advances :
    (is_float : Bool) (cs : Text) (s : Lexer)
    → s.rest ≡ cs
    → Advances s 0 (read_decimal is_float cs s).2
unfolding read_decimal
read_decimal-Advances is_float [] s h = Advances-nowhere s
read_decimal-Advances is_float (c ∷ cs) s h = elim (Bool-cases (is_ascii_digit c)) [
  | inl e ↦
      rw (e, read_decimal)
        (step-before c cs s h (ground (arith, e))
          (read_decimal-Advances is_float cs (step c cs s) (step-rest c cs s)))
  | inr e ↦ elim (Bool-cases (c == b'.' && not is_float)) [
    | inl f ↦
        rw (e, f, read_decimal)
          (step-before c cs s h (ground (arith, f))
            (read_decimal-Advances true cs (step c cs s) (step-rest c cs s)))
    | inr f ↦ rw (e, f, read_decimal) (Advances-nowhere s)
  ]
]

pub after_x-Advances : (s : Lexer) → starts_with_x s.rest ≡ true → Advances s 0 (after_x s)
unfolding step
after_x-Advances s h = go s.rest refl h
  where
    go :
        (cs : Text)
        → s.rest ≡ cs
        → starts_with_x cs ≡ true
        → Advances s 0 (elim cs [ [] ↦ s | c ∷ cs' ↦ step c cs' s ])
    go [] e x = Advances-nowhere s
    go (c ∷ cs) e x = step-before c cs s e (ground (arith, x)) (Advances-nowhere (step c cs s))

note_section-Advances :
    (was : Bool) (k : TokenKind) {s s' : Lexer}
    → Advances s 0 s'
    → Advances s 0 (note_section was k s')
note_section-Advances was k {s} {s'} a = elim (Bool-cases (is_description k)) [
  | inl e ↦ rw e (record { line = a.line; breaks = a.breaks; shorter = a.shorter })
  | inr e ↦ elim (Bool-cases (ends_description k && was)) [
    | inl f ↦ rw (e, f) (record { line = a.line; breaks = a.breaks; shorter = a.shorter })
    | inr f ↦ rw (e, f) a
  ]
]

pub read_word-Advances : (was : Bool) (k c : ℕ) (s : Lexer) → Advances s 0 (read_word was k c s).1
unfolding read_word read_identifier
read_word-Advances was k c s =
    note_section-Advances was _ (scan-Advances is_ident_char refl s.rest s refl)

-- A reader that succeeds has passed no line break.
abbrev pub AdvancesOk {ℓ} : {A : Type ℓ} → Lexer → Result LexError (A × Lexer) → Type 0
AdvancesOk s (ok (a, s')) = Advances s 0 s'
AdvancesOk s (err e) = Unit

pub AdvancesOk-map {ℓ κ} :
    {A : Type ℓ} {B : Type κ} (s : Lexer) (f : A → B) (m : Result LexError (A × Lexer))
    → AdvancesOk s m
    → AdvancesOk s (m >>= λ (t, s'). ok (f t, s'))
AdvancesOk-map s f (ok (a, s')) h = h
AdvancesOk-map s f (err e) h = tt

AdvancesOk-before {ℓ} :
    {A : Type ℓ} (c : ℕ) (cs : Text) (s : Lexer) (m : Result LexError (A × Lexer))
    → s.rest ≡ c ∷ cs
    → (c == b'\n') ≡ false
    → AdvancesOk (step c cs s) m
    → AdvancesOk s m
AdvancesOk-before c cs s (ok (a, s')) h other r = step-before c cs s h other r
AdvancesOk-before c cs s (err e) h other r = tt

-- An escaped character is no line break.
escape-other : (d x : ℕ) → escape d ≡ some x → (d == b'\n') ≡ false
escape-other d x h = ground (arith, h)

-- The loop over the characters of a string literal.
pub read_chars-AdvancesOk :
    (l k : ℕ) (cs : Text) (s : Lexer) → s.rest ≡ cs → AdvancesOk s (read_chars l k cs s)
unfolding read_chars
read_chars-AdvancesOk l k [] s h = tt
read_chars-AdvancesOk l k (c ∷ []) s h = elim (Bool-cases (c == b'"')) [
  | inl q ↦
      rw (q, read_chars) (step-before c [] s h (ground (arith, q)) (Advances-nowhere (step c [] s)))
  | inr q ↦ elim (Bool-cases (c == b'\n')) [
    | inl n ↦ rw (q, n, read_chars) tt
    | inr n ↦ rw (q, n, read_chars) tt
  ]
]
read_chars-AdvancesOk l k (c ∷ d ∷ ds) s h = elim (Bool-cases (c == b'"')) [
  | inl q ↦
      rw (q, read_chars)
        (step-before c (d ∷ ds) s h (ground (arith, q)) (Advances-nowhere (step c (d ∷ ds) s)))
  | inr q ↦ elim (Bool-cases (c == b'\\')) [
    | inl b ↦ elim (Option-cases (escape d)) [
      | inl f ↦ rw (q, b, f, read_chars) tt
      | inr (x, f) ↦
          let s₁ = step c (d ∷ ds) s in
          rw (q, b, f, read_chars)
            (AdvancesOk-map s (λ t. x ∷ t) (read_chars l k ds (step d ds s₁))
              (AdvancesOk-before c (d ∷ ds) s _ h (ground (arith, b)) (
                AdvancesOk-before d ds s₁ _ (step-rest c (d ∷ ds) s) (escape-other d x f)
                  (read_chars-AdvancesOk l k ds (step d ds s₁) (step-rest d ds s₁)))))
    ]
    | inr b ↦ elim (Bool-cases (c == b'\n')) [
      | inl n ↦ rw (q, b, n, read_chars) tt
      | inr n ↦
          let s₁ = step c (d ∷ ds) s in
          rw (q, b, n, read_chars)
            (AdvancesOk-map s (λ t. c ∷ t) (read_chars l k (d ∷ ds) s₁)
              (AdvancesOk-before c (d ∷ ds) s _ h n
                (read_chars-AdvancesOk l k (d ∷ ds) s₁ (step-rest c (d ∷ ds) s))))
    ]
  ]
]

pub read_string-AdvancesOk : (k : ℕ) (s : Lexer) → AdvancesOk s (read_string k s)
unfolding read_string
read_string-AdvancesOk k s =
    AdvancesOk-map s _ (read_chars s.line k s.rest s) (read_chars-AdvancesOk s.line k s.rest s refl)

-- What a scan reads and what it leaves make up what was there.
pub scan-length :
    (p : ℕ → Bool) (cs : Text) (s : Lexer)
    → s.rest ≡ cs
    → length (scan p cs s).0 + length (scan p cs s).1.rest ≡ length cs
unfolding scan
scan-length p [] s h = omega (arith, ap length h)
scan-length p (c ∷ cs) s h = elim (Bool-cases (p c)) [
  | inl e ↦ rw (e, scan) (omega (arith, scan-length p cs (step c cs s) (step-rest c cs s)))
  | inr e ↦ rw (e, scan) (omega (arith, ap length h))
]
