-- ===== src/Source/Lines.antt =====
-- The index finds the lines that splitting the text finds.
use mathlib.Core.List.{append_assoc}
use mathlib.Core.Path.{ap₂}
use sigil_lang.Prelude.{
  ℕ, zero, suc, ◌+◌, ◌-◌, ◌≤◌, ◌≡◌, refl, sym, ap, ◌∙◌, inl, inr, true, false, ◌||◌, none, some,
  List, [], ◌∷◌, ◌++◌, arith, Text, nat_eq, ◌==◌, eq_iff, length, length-append, get_elem?, ltb,
  Bool-cases, ltb→lt,
}
use sigil_lang.Chars.{utf8_char, utf8}
use sigil_lang.Source.{
  starts_from, compute_line_starts, new_source, slice, line_end, before_cr, line_at, get_line,
}
use sigil_lang.Source.Cuts.{without_cr, before_cr-slice, line_end-break}

-- The first line of a text and the others, as bytes, split at the line breaks.
abbrev pub first_line : Text → List ℕ
first_line [] = []
first_line (c ∷ cs) =
    let rest = first_line cs in elim (c == b'\n') [ true ↦ [] | false ↦ utf8_char c ++ rest ]

abbrev pub later_lines : Text → List (List ℕ)
later_lines [] = []
later_lines (c ∷ cs) =
    let rest = later_lines cs in elim (c == b'\n') [ true ↦ first_line cs ∷ rest | false ↦ rest ]

abbrev pub lines : Text → List (List ℕ)
lines t = first_line t ∷ later_lines t

-- Where the lines after the first one start, if that ends at `p`.
abbrev offsets : ℕ → List (List ℕ) → List ℕ
offsets p [] = []
offsets p (l ∷ ls) = (p + 1) ∷ offsets (p + 1 + length l) ls

starts_from-offsets :
    (i : ℕ) (t : Text) → starts_from i t ≡ offsets (i + length (first_line t)) (later_lines t)
unfolding starts_from
starts_from-offsets i [] = refl
starts_from-offsets i (c ∷ cs) = elim (Bool-cases (c == b'\n')) [
  | inl e ↦
      let one : length (utf8_char c) ≡ 1 = ap (λ x. length (utf8_char x)) ((eq_iff c b'\n').0 e) in
      let z : i + 0 ≡ i = omega arith in
      rw (e, starts_from, first_line, later_lines)
        (rw (one, z) (ap (λ xs. (i + 1) ∷ xs) (starts_from-offsets (i + 1) cs)))
  | inr e ↦
      let shift : i + length (utf8_char c ++ first_line cs)
          ≡ i + length (utf8_char c) + length (first_line cs) =
        omega (arith, length-append (utf8_char c) (first_line cs)) in
      rw (e, starts_from, first_line, later_lines)
        (starts_from-offsets (i + length (utf8_char c)) cs
          ∙ ap (λ n. offsets n (later_lines cs)) (sym shift))
]

-- The bytes of the lines, joined.
abbrev joined : List (List ℕ) → List ℕ
joined [] = []
joined (l ∷ ls) = b'\n' ∷ (l ++ joined ls)

utf8-lines : (t : Text) → utf8 t ≡ first_line t ++ joined (later_lines t)
unfolding utf8
utf8-lines [] = refl
utf8-lines (c ∷ cs) = elim (Bool-cases (c == b'\n')) [
  | inl e ↦
      let one : utf8_char c ≡ b'\n' ∷ [] = ap utf8_char ((eq_iff c b'\n').0 e) in
      ap (λ xs. xs ++ utf8 cs) one ∙ ap (λ xs. b'\n' ∷ xs) (utf8-lines cs) ∙ sym (split e)
  | inr e ↦
      ap (λ xs. utf8_char c ++ xs) (utf8-lines cs)
      ∙ sym (append_assoc (utf8_char c) (first_line cs) _)
      ∙ sym (kept e)
]
  where
    split :
        (c == b'\n') ≡ true
        → first_line (c ∷ cs) ++ joined (later_lines (c ∷ cs))
          ≡ b'\n' ∷ (first_line cs ++ joined (later_lines cs))
    split e = rw (e, first_line, later_lines) refl

    kept :
        (c == b'\n') ≡ false
        → first_line (c ∷ cs) ++ joined (later_lines (c ∷ cs))
          ≡ (utf8_char c ++ first_line cs) ++ joined (later_lines cs)
    kept e = rw (e, first_line, later_lines) refl

-- The same for the line at an index, among the lines from `h` on, which start after `pre`.
line_at-lines :
    (i : ℕ) (pre h : List ℕ) (t : List (List ℕ))
    → line_at (pre ++ (h ++ joined t)) (length pre ∷ offsets (length pre + length h) t) i
      ≡ (elim (get_elem? (h ∷ t) i) [ some l ↦ some (without_cr l) | none ↦ none ])
unfolding line_at line_end
line_at-lines zero pre h [] =
    let e : length (pre ++ (h ++ [])) ≡ length pre + length h =
      omega (arith, length-append pre (h ++ []), length-append h []) in
    ap
      (λ stop.
        some
          (slice (length pre) (before_cr (pre ++ (h ++ [])) (length pre) stop) (pre ++ (h ++ []))))
      e
    ∙ ap some (before_cr-slice pre h [])
line_at-lines zero pre h (l ∷ t) =
    ap
      (λ stop. some (
        slice (length pre) (before_cr (pre ++ (h ++ joined (l ∷ t))) (length pre) stop)
          (pre ++ (h ++ joined (l ∷ t)))))
      (line_end-break pre h (l ++ joined t) (offsets (length pre + length h + 1 + length l) t))
    ∙ ap some (before_cr-slice pre h (joined (l ∷ t)))
line_at-lines (suc i) pre h [] = refl
line_at-lines (suc i) pre h (l ∷ t) =
    ap₂ (λ bs p. line_at bs (p ∷ offsets (p + length l) t) i) bytes len ∙ line_at-lines i pre' l t
  where
    pre' : List ℕ
    pre' = pre ++ (h ++ (b'\n' ∷ []))

    bytes : pre ++ (h ++ joined (l ∷ t)) ≡ pre' ++ (l ++ joined t)
    bytes =
        ap (λ xs. pre ++ xs) (sym (append_assoc h (b'\n' ∷ []) (l ++ joined t)))
        ∙ sym (append_assoc pre (h ++ (b'\n' ∷ [])) (l ++ joined t))

    len : length pre + length h + 1 ≡ length pre'
    len = omega (arith, length-append pre (h ++ (b'\n' ∷ [])), length-append h (b'\n' ∷ []))

count-lines : (p : ℕ) (t : List (List ℕ)) → length (offsets p t) ≡ length t
count-lines p [] = refl
count-lines p (l ∷ t) = ap suc (count-lines (p + 1 + length l) t)

get_elem?-past {ℓ} : {A : Type ℓ} (xs : List A) (i : ℕ) → length xs ≤ i → get_elem? xs i ≡ none
get_elem?-past [] i h = refl
get_elem?-past (x ∷ xs) zero h = absurd (omega arith)
get_elem?-past (x ∷ xs) (suc i) h = get_elem?-past xs i (omega arith)

-- `get_line` of a source file returns the line of its number, counted from 1, among the lines of the
-- text split at its line breaks, without a carriage return at the end; past the last line, and for
-- the number 0, it returns nothing.
pub get_line-lines :
    (path content : Text) (i : ℕ)
    → (get_line (new_source path content) 0 ≡ none)
      × (get_line (new_source path content) (suc i)
          ≡ (elim (get_elem? (lines content) i) [ some l ↦ some (without_cr l) | none ↦ none ]))
unfolding get_line new_source compute_line_starts
get_line-lines path content i = (refl, main)
  where
    starts : List ℕ
    starts = 0 ∷ starts_from 0 content

    indexed : starts ≡ 0 ∷ offsets (0 + length (first_line content)) (later_lines content)
    indexed = ap (λ xs. 0 ∷ xs) (starts_from-offsets 0 content)

    counted : length starts ≡ length (lines content)
    counted = ap length indexed ∙ ap suc (count-lines _ (later_lines content))

    back : suc i - 1 ≡ i
    back = omega arith

    found :
        line_at (utf8 content) starts i
        ≡ (elim (get_elem? (lines content) i) [ some l ↦ some (without_cr l) | none ↦ none ])
    found =
        ap₂ (λ bs xs. line_at bs xs i) (utf8-lines content) indexed
        ∙ line_at-lines i [] (first_line content) (later_lines content)

    tested : (suc i == 0 || ltb (length starts) (suc i)) ≡ ltb (length starts) (suc i)
    tested = ground arith

    main :
        get_line (new_source path content) (suc i)
        ≡ (elim (get_elem? (lines content) i) [ some l ↦ some (without_cr l) | none ↦ none ])
    main = elim (Bool-cases (ltb (length starts) (suc i))) [
      | inl past ↦
          let gone =
            get_elem?-past (lines content) i
              (omega (arith, ltb→lt (length starts) (suc i) past, counted)) in
          rw (tested ∙ past) (rw gone refl)
      | inr inside ↦ rw (tested ∙ inside, back) found
    ]
