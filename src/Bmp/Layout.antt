-- ===== src/Bmp/Layout.antt =====
-- Where the pixels stand in the file.
use ngx_lua_cpp.Prelude.{
  ℕ, zero, suc, ◌+◌, ◌-◌, ◌*◌, ◌%◌, ◌≤◌, ◌<◌, ◌≡◌, refl, ap, sym, ◌∙◌, [], ◌∷◌, ◌++◌, append_assoc,
  length, length-append, length-replicate, take, drop, replicate, arith,
}
use ngx_lua_cpp.Prelude.Text.{Bytes}
use ngx_lua_cpp.Bmp.{row_size, header, bmp_row, bmp_rows, encode_bmp}
use ngx_lua_cpp.Bmp.Mask.{row_size_lem}

length-header : (width height : ℕ) → length (header width height) ≡ 54
unfolding header
length-header width height = refl

drop-append : (xs ys : Bytes) (n : ℕ) → drop (length xs + n) (xs ++ ys) ≡ drop n ys
drop-append [] ys n = let e : 0 + n ≡ n = omega arith in rw e
drop-append (x ∷ xs) ys n =
    let e : suc (length xs) + n ≡ suc (length xs + n) = omega arith in rw e (drop-append xs ys n)

take-append : (xs ys : Bytes) → take (length xs) (xs ++ ys) ≡ xs
take-append [] ys = refl
take-append (x ∷ xs) ys = ap (◌∷◌ x) (take-append xs ys)

length-slice : (n k : ℕ) (xs : Bytes) → k + n ≤ length xs → length (take n (drop k xs)) ≡ n
length-slice zero k xs h = refl
length-slice (suc n) zero [] h = absurd (omega arith)
length-slice (suc n) zero (x ∷ xs) h = omega (arith, length-slice n zero xs (omega arith))
length-slice (suc n) (suc k) [] h = absurd (omega arith)
length-slice (suc n) (suc k) (x ∷ xs) h = length-slice (suc n) k xs (omega arith)

row_fits : (h y w : ℕ) → y < h → (h - 1 - y) * w + w ≤ h * w
row_fits h y w lt = grind arith

-- A row of the pixels, as they are given.
abbrev pub pixels_of_row : ℕ → Bytes → ℕ → Bytes
pixels_of_row width rgb y = take (width * 3) (drop (y * (width * 3)) rgb)

module _ (width height : ℕ) (rgb : Bytes) (narrow : width ≤ 1600)
    (whole : length rgb ≡ height * (width * 3)) where
  length-pixels_of_row :
      (y : ℕ) → y < height → length (pixels_of_row width rgb (height - 1 - y)) ≡ width * 3
  length-pixels_of_row y lt =
      length-slice (width * 3) ((height - 1 - y) * (width * 3)) rgb
        (omega (arith, row_fits height y (width * 3) lt, whole))

  length-bmp_row : (y : ℕ) → y < height → length (bmp_row width height rgb y) ≡ row_size width
  unfolding bmp_row
  length-bmp_row y lt =
      let pad = row_size_lem width narrow in
      omega (
        arith,
        length-append (pixels_of_row width rgb (height - 1 - y))
            (replicate (row_size width - width * 3) 0),
        length-pixels_of_row y lt,
        length-replicate {A = ℕ} (row_size width - width * 3) 0,
        pad.1,
      )

  length-bmp_rows :
      (count y : ℕ)
      → y + count ≤ height
      → length (bmp_rows width height rgb count y) ≡ count * row_size width
  unfolding bmp_rows
  length-bmp_rows zero y h = omega arith
  length-bmp_rows (suc count) y h = omega (
    arith,
    length-append (bmp_row width height rgb y) (bmp_rows width height rgb count (suc y)),
    length-bmp_row y (omega arith),
    length-bmp_rows count (suc y) (omega arith),
  )

  first_row :
      (y : ℕ) (rest : Bytes)
      → y < height
      → take (width * 3) (bmp_row width height rgb y ++ rest)
        ≡ pixels_of_row width rgb (height - 1 - y)
  unfolding bmp_row
  first_row y rest lt =
      let slice = pixels_of_row width rgb (height - 1 - y) in
      ap (λ n. take n ((slice ++ replicate (row_size width - width * 3) 0) ++ rest))
        (sym (length-pixels_of_row y lt))
      ∙ ap (take (length slice))
          (append_assoc slice (replicate (row_size width - width * 3) 0) rest)
      ∙ take-append slice _

  bmp_rows_at :
      (count y j : ℕ)
      → j < count
      → y + count ≤ height
      → take (width * 3) (drop (j * row_size width) (bmp_rows width height rgb count y))
        ≡ pixels_of_row width rgb (height - 1 - (y + j))
  unfolding bmp_rows
  bmp_rows_at zero y j lt h = absurd (omega arith)
  bmp_rows_at (suc count) y zero lt h =
      let start : 0 * row_size width ≡ 0 = omega arith in
      let here : y + 0 ≡ y = omega arith in
      rw (start, here) (first_row y (bmp_rows width height rgb count (suc y)) (omega arith))
  bmp_rows_at (suc count) y (suc j) lt h =
      let row = bmp_row width height rgb y in
      let past : suc j * row_size width ≡ length row + j * row_size width =
        omega (arith, length-bmp_row y (omega arith)) in
      let there : y + suc j ≡ suc y + j = omega arith in
      rw
        (
          past,
          there,
          drop-append row (bmp_rows width height rgb count (suc y)) (j * row_size width),
        )
        (bmp_rows_at count (suc y) j (omega arith) (omega arith))

  -- The file of a picture up to 1600 pixels wide, with three bytes for each pixel, has the 54 bytes
  -- of its header and then its rows, the lowest row of the picture first: each starts at a multiple of four bytes behind the header and begins with the pixels of its row
  -- as they were given.
  pub encode_bmp_lem :
      (length (encode_bmp width height rgb) ≡ 54 + height * row_size width)
      × (row_size width % 4 ≡ 0)
      × ((y : ℕ)
          → y < height
          → take (width * 3) (drop (54 + y * row_size width) (encode_bmp width height rgb))
            ≡ pixels_of_row width rgb (height - 1 - y))
  unfolding encode_bmp
  encode_bmp_lem = (
    omega (
      arith,
      length-append (header width height) (bmp_rows width height rgb height 0),
      length-header width height,
      length-bmp_rows height 0 (omega arith),
    ),
    (row_size_lem width narrow).0,
    λ y lt.
        let body = bmp_rows width height rgb height 0 in
        let there : 0 + y ≡ y = omega arith in
        ap (λ n. take (width * 3) (drop (n + y * row_size width) (header width height ++ body)))
          (sym (length-header width height))
        ∙ ap (take (width * 3)) (drop-append (header width height) body (y * row_size width))
        ∙ bmp_rows_at height 0 y lt (omega arith)
        ∙ ap (λ k. pixels_of_row width rgb (height - 1 - k)) there,
  )
