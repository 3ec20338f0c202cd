-- ===== src/Source.antt =====
-- compiler/src/source.rs, `SourceFile`: the index of lines. A `&str` is its bytes.
pub mod Cuts
pub mod Lines
pub mod Numbering
use sigil_lang.Prelude.{
  ℕ, zero, suc, ◌+◌, ◌-◌, Bool, true, false, not, ◌&&◌, ◌||◌, Option, none, some, List, [], ◌∷◌,
  Text, nat_eq, ◌==◌, length, get_elem?, ltb, leb, if◌then◌else◌,
}
use sigil_lang.Ast.{Span}
use sigil_lang.Chars.{utf8_char, utf8}

pub record SourceFile : Type 0 where
  pub path : Text
  pub content : Text
  pub line_starts : List ℕ

-- The loop over `char_indices`, from the offset `i` on.
unfoldable pub starts_from : ℕ → Text → List ℕ
starts_from i [] = []
starts_from i (c ∷ cs) =
    let rest = starts_from (i + length (utf8_char c)) cs in
    elim (c == b'\n') [ true ↦ (i + 1) ∷ rest | false ↦ rest ]

unfoldable pub compute_line_starts : Text → List ℕ
unfolding starts_from
compute_line_starts content = 0 ∷ starts_from 0 content

-- `SourceFile::new`.
unfoldable pub new_source : Text → Text → SourceFile
unfolding compute_line_starts
new_source path content = record {
  path = path;
  content = content;
  line_starts = compute_line_starts content;
}

abbrev pub line_count : SourceFile → ℕ
line_count s = length s.line_starts

-- `bytes.get(i) == Some(&b)`.
abbrev pub is_byte : List ℕ → ℕ → ℕ → Bool
is_byte bs i b = elim (get_elem? bs i) [ some c ↦ c == b | none ↦ false ]

abbrev pub drop : ℕ → List ℕ → List ℕ
drop zero xs = xs
drop (suc n) [] = []
drop (suc n) (x ∷ xs) = drop n xs

abbrev pub take : ℕ → List ℕ → List ℕ
take zero xs = []
take (suc n) [] = []
take (suc n) (x ∷ xs) = x ∷ take n xs

-- `&bytes[a..b]`.
abbrev pub slice : ℕ → ℕ → List ℕ → List ℕ
slice a b bs = take (b - a) (drop a bs)

-- The end of the line at an index, without its line break.
unfoldable pub line_end : List ℕ → List ℕ → ℕ → ℕ
line_end bs starts i = elim (get_elem? starts (suc i)) [
  | some next ↦ if ltb 0 next && is_byte bs (next - 1) b'\n' then next - 1 else next
  | none ↦ length bs
]

-- A carriage return before the end is left out.
unfoldable pub before_cr : List ℕ → ℕ → ℕ → ℕ
before_cr bs start stop = if ltb start stop && is_byte bs (stop - 1) b'\r' then stop - 1 else stop

unfoldable pub line_at : List ℕ → List ℕ → ℕ → Option (List ℕ)
unfolding line_end before_cr
line_at bs starts i = elim (get_elem? starts i) [
  | some start ↦ some (slice start (before_cr bs start (line_end bs starts i)) bs)
  | none ↦ none
]

unfoldable pub get_line : SourceFile → ℕ → Option (List ℕ)
unfolding line_at
get_line s n =
    if n == 0 || ltb (length s.line_starts) n
    then none
    else line_at (utf8 s.content) s.line_starts (n - 1)

-- The lines of the `count` numbers from `n` on.
unfoldable pub lines_from : SourceFile → ℕ → ℕ → List (ℕ × List ℕ)
unfolding get_line
lines_from s zero n = []
lines_from s (suc count) n =
    let rest = lines_from s count (n + 1) in
    elim (get_line s n) [ some l ↦ (n, l) ∷ rest | none ↦ rest ]

unfoldable pub get_lines : SourceFile → ℕ → ℕ → List (ℕ × List ℕ)
unfolding lines_from
get_lines s start_line end_line = lines_from s (end_line + 1 - start_line) start_line

unfoldable pub line_byte_offset : SourceFile → ℕ → Option ℕ
line_byte_offset s n =
    if n == 0 || ltb (length s.line_starts) n then none else get_elem? s.line_starts (n - 1)

-- No slice of a `&str` starts or ends within a character.
abbrev pub is_char_boundary : List ℕ → ℕ → Bool
is_char_boundary bs i =
    i == 0
    || i == length bs
    || elim (get_elem? bs i) [ some b ↦ ltb b 0x80 || leb 0xc0 b | none ↦ false ]

-- `none` is the panic of a slice within a character.
unfoldable pub get_span_text : SourceFile → Span → Option (Option (List ℕ))
unfolding get_line
get_span_text s p = elim (get_line s p.line) [
  | none ↦ some none
  | some line ↦
      let col_start = p.col - 1 in
      let col_end = col_start + p.len in
      let actual_end = if ltb (length line) col_end then length line else col_end in
      if leb (length line) col_start
      then some none
      else if is_char_boundary line col_start && is_char_boundary line actual_end
      then some (some (slice col_start actual_end line))
      else none
]
