-- ===== src/Log/Lines.antt =====
-- The loop over the characters reads lines.
use ngx_lua_cpp.Prelude.{
  ℕ, ◌+◌, ◌≤◌, ◌<◌, ◌≢◌, ◌≡◌, refl, ap, sym, ◌∙◌, Bool, Option, none, some, List, [], ◌∷◌, ◌++◌,
  append-nil, append_assoc, All, leb, ◌==◌, if◌then◌else◌, arith, Bool-cases, inl, inr,
}
use ngx_lua_cpp.Prelude.Text.{Bytes}
use ngx_lua_cpp.Log.{Counts, Hit, parse_line, count_hit, read_line, read_chars}

-- A character of a line: neither the end of it nor what ends the reading.
abbrev pub IsInside : ℕ → Type 0
IsInside c = (c ≢ 10) × (c ≢ 255)

abbrev pub text_of : List Bytes → Bytes → Bytes
text_of [] tail = tail
text_of (line ∷ lines) tail = line ++ 10 ∷ text_of lines tail

-- Line by line.
abbrev pub read_lines : (ℕ → Bool) → List Bytes → Counts → Counts
read_lines is_enough [] c = c
read_lines is_enough (line ∷ lines) c =
    let c' = read_line line c in
    let next = read_lines is_enough lines c' in if is_enough c'.lines then c' else next

inside :
    (is_enough : ℕ → Bool) (ch : ℕ) (file line : Bytes) (c : Counts)
    → IsInside ch
    → read_chars is_enough (ch ∷ file) line c ≡ read_chars is_enough file (line ++ ch ∷ []) c
unfolding read_chars
inside is_enough ch file line c h = ground (arith, h)

read_chars-append :
    (is_enough : ℕ → Bool) (text file line : Bytes) (c : Counts)
    → All IsInside text
    → read_chars is_enough (text ++ file) line c ≡ read_chars is_enough file (line ++ text) c
read_chars-append is_enough [] file line c h =
    ap (λ l. read_chars is_enough file l c) (sym (append-nil line))
read_chars-append is_enough (ch ∷ text) file line c h =
    inside is_enough ch (text ++ file) line c h.0
    ∙ read_chars-append is_enough text file (line ++ ch ∷ []) c h.1
    ∙ ap (λ l. read_chars is_enough file l c) (append_assoc line (ch ∷ []) text)

newline :
    (is_enough : ℕ → Bool) (file line : Bytes) (c : Counts)
    → let c' = read_line line c in
      read_chars is_enough (10 ∷ file) line c
      ≡ (if is_enough c'.lines then c' else read_chars is_enough file [] c')
unfolding read_chars
newline is_enough file line c = refl

at_the_end : (is_enough : ℕ → Bool) (line : Bytes) (c : Counts) → read_chars is_enough [] line c ≡ c
unfolding read_chars
at_the_end is_enough line c = refl

-- On a text of whole lines without the byte 255, and a last part that no newline ends, the loop reads
-- each line once, in order, up to the one that is enough; the last part is not counted.
pub read_chars-text_of :
    (is_enough : ℕ → Bool) (lines : List Bytes) (tail : Bytes) (c : Counts)
    → All (All IsInside) lines
    → All IsInside tail
    → read_chars is_enough (text_of lines tail) [] c ≡ read_lines is_enough lines c
read_chars-text_of is_enough [] tail c h t =
    ap (λ s. read_chars is_enough s [] c) (sym (append-nil tail))
    ∙ read_chars-append is_enough tail [] [] c t
    ∙ at_the_end is_enough tail c
read_chars-text_of is_enough (line ∷ lines) tail c h t =
    let c' = read_line line c in
    let next = read_chars-text_of is_enough lines tail c' h.1 t in
    read_chars-append is_enough line (10 ∷ text_of lines tail) [] c h.0
    ∙ newline is_enough (text_of lines tail) line c
    ∙ ap (λ r. if is_enough c'.lines then c' else r) next

lines-count_hit :
    (found : Option Hit) (c : Counts)
    → let c' = record c { lines = c.lines + 1 } in
      let result : Counts = elim found [ none ↦ c' | some hit ↦ count_hit hit c' ] in
      result.lines ≡ c.lines + 1
unfolding count_hit
lines-count_hit none c = refl
lines-count_hit (some hit) c = refl

lines-read_line : (line : Bytes) (c : Counts) → (read_line line c).lines ≡ c.lines + 1
unfolding read_line
lines-read_line line c = lines-count_hit (parse_line line) c

-- With a whole number as `max_lines`, no more lines are read than that.
pub lines-read_chars :
    (max_lines : ℕ) (file line : Bytes) (c : Counts)
    → c.lines < max_lines
    → (read_chars (λ lines. leb max_lines lines) file line c).lines ≤ max_lines
unfolding read_chars
lines-read_chars max_lines [] line c h = omega arith
lines-read_chars max_lines (ch ∷ file) line c h =
    let c' = read_line line c in
    let one : c'.lines ≡ c.lines + 1 = lines-read_line line c in
    let more = lines-read_chars max_lines file (line ++ ch ∷ []) c h in
    elim (Bool-cases (ch == 255)) [
      | inl eof ↦ simp eof (omega arith)
      | inr other ↦ elim (Bool-cases (ch == 10)) [
        | inr inside ↦ simp (other, inside) more
        | inl newline ↦ elim (Bool-cases (leb max_lines c'.lines)) [
          | inl stop ↦ simp (other, newline, stop) (omega (arith, one, h))
          | inr go ↦
              let next = lines-read_chars max_lines file [] c' (ground (arith, go)) in
              simp (other, newline, go) next
        ]
      ]
    ]
