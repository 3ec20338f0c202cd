-- ===== src/Source/Cuts.antt =====
-- Cutting a line out of the bytes of a text.
use native.Mathlib.Nat.{zero-add, add-zero}
use mathlib.Core.Path.{ap₂}
use sigil_lang.Prelude.{
  ℕ, zero, suc, ◌+◌, ◌-◌, ◌<◌, ◌≤◌, ◌≡◌, refl, sym, ap, ◌∙◌, inl, inr, Bool, false, ◌&&◌, none,
  some, List, [], ◌∷◌, ◌++◌, arith, nat_eq, ◌==◌, length, get_elem?, ltb, if◌then◌else◌, Bool-cases,
  ltb→lt, &&-true,
}
use sigil_lang.Source.{is_byte, drop, take, slice, line_end, before_cr}

-- A line without a carriage return at its end.
abbrev pub without_cr : List ℕ → List ℕ
without_cr l =
    if ltb 0 (length l) && is_byte l (length l - 1) b'\r' then take (length l - 1) l else l

drop-append : (pre bs : List ℕ) → drop (length pre) (pre ++ bs) ≡ bs
drop-append [] bs = refl
drop-append (x ∷ pre) bs = drop-append pre bs

take-append : (l bs : List ℕ) (n : ℕ) → n ≤ length l → take n (l ++ bs) ≡ take n l
take-append l bs zero h = refl
take-append [] bs (suc n) h = absurd (omega arith)
take-append (x ∷ l) bs (suc n) h = ap (λ ys. x ∷ ys) (take-append l bs n (omega arith))

take-all : (l : List ℕ) → take (length l) l ≡ l
take-all [] = refl
take-all (x ∷ l) = ap (λ ys. x ∷ ys) (take-all l)

get_elem?-append :
    (pre bs : List ℕ) (i : ℕ) → get_elem? (pre ++ bs) (length pre + i) ≡ get_elem? bs i
get_elem?-append [] bs i = ap (get_elem? bs) (zero-add i)
get_elem?-append (x ∷ pre) bs i =
    let e : suc (length pre) + i ≡ suc (length pre + i) = omega arith in
    ap (get_elem? (x ∷ (pre ++ bs))) e ∙ get_elem?-append pre bs i

get_elem?-inside : (l bs : List ℕ) (i : ℕ) → i < length l → get_elem? (l ++ bs) i ≡ get_elem? l i
get_elem?-inside [] bs i h = absurd (omega arith)
get_elem?-inside (x ∷ l) bs zero h = refl
get_elem?-inside (x ∷ l) bs (suc i) h = get_elem?-inside l bs i (omega arith)

slice-inside :
    (pre l rest : List ℕ) (n : ℕ)
    → n ≤ length l
    → slice (length pre) (length pre + n) (pre ++ (l ++ rest)) ≡ take n l
slice-inside pre l rest n h =
    let e : length pre + n - length pre ≡ n = omega arith in
    ap₂ take e (drop-append pre (l ++ rest)) ∙ take-append l rest n h

is_byte-inside :
    (pre l rest : List ℕ) (i b : ℕ)
    → i < length l
    → is_byte (pre ++ (l ++ rest)) (length pre + i) b ≡ is_byte l i b
is_byte-inside pre l rest i b h =
    ap (λ o. elim o as (λ _. Bool) [ some c ↦ c == b | none ↦ false ])
      (get_elem?-append pre (l ++ rest) i ∙ get_elem?-inside l rest i h)

-- The test for a carriage return, at the line's place and in the line itself.
ends_in_cr :
    (pre l rest : List ℕ)
    → (ltb (length pre) (length pre + length l)
        && is_byte (pre ++ (l ++ rest)) (length pre + length l - 1) b'\r')
      ≡ (ltb 0 (length l) && is_byte l (length l - 1) b'\r')
ends_in_cr pre l rest = elim (Bool-cases (ltb 0 (length l))) [
  | inl e ↦
      let some_char = ltb→lt 0 (length l) e in
      let same : length pre + length l - 1 ≡ length pre + (length l - 1) =
        omega (arith, some_char) in
      ground (
        arith,
        ap (λ k. is_byte (pre ++ (l ++ rest)) k b'\r') same,
        is_byte-inside pre l rest (length l - 1) b'\r' (omega (arith, some_char)),
      )
  | inr e ↦ ground arith
]

-- A line that stands in a text after `pre` and before `rest`, cut at the positions of the index.
pub before_cr-slice :
    (pre l rest : List ℕ)
    → slice
        (length pre)
        (before_cr (pre ++ (l ++ rest)) (length pre) (length pre + length l))
        (pre ++ (l ++ rest))
      ≡ without_cr l
unfolding before_cr
before_cr-slice pre l rest =
    elim (Bool-cases (ltb 0 (length l) && is_byte l (length l - 1) b'\r')) [
      | inl e ↦
          let some_char = ltb→lt 0 (length l) (&&-true _ _ e).0 in
          let same : length pre + length l - 1 ≡ length pre + (length l - 1) =
            omega (arith, some_char) in
          ap (λ stop. slice (length pre) stop (pre ++ (l ++ rest)))
            (rw (ends_in_cr pre l rest ∙ e) same)
          ∙ slice-inside pre l rest (length l - 1) (omega arith)
          ∙ rw e refl
      | inr e ↦
          ap (λ stop. slice (length pre) stop (pre ++ (l ++ rest)))
            (rw (ends_in_cr pre l rest ∙ e) refl)
          ∙ slice-inside pre l rest (length l) (omega arith)
          ∙ take-all l
          ∙ rw e refl
    ]

-- The end of the first of two lines is the line break between them.
pub line_end-break :
    (pre h rest : List ℕ) (starts : List ℕ)
    → line_end
        (pre ++ (h ++ (b'\n' ∷ rest)))
        (length pre ∷ ((length pre + length h + 1) ∷ starts))
        0
      ≡ length pre + length h
unfolding line_end
line_end-break pre h rest starts =
    let before : length pre + length h + 1 - 1 ≡ length pre + length h = omega arith in
    let at_break : get_elem? (pre ++ (h ++ (b'\n' ∷ rest))) (length pre + length h) ≡ some b'\n' =
      get_elem?-append pre (h ++ (b'\n' ∷ rest)) (length h)
      ∙ ap (get_elem? (h ++ (b'\n' ∷ rest))) (sym (add-zero (length h)))
      ∙ get_elem?-append h (b'\n' ∷ rest) 0 in
    rw before (rw (at_break, is_byte) (ground arith))
