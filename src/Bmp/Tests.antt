-- ===== src/Bmp/Tests.antt =====
-- A small picture, and the theorems at concrete inputs.
use ngx_lua_cpp.Prelude.{
  ℕ, ◌+◌, ◌-◌, ◌*◌, ◌%◌, ◌<◌, ◌≡◌, refl, [], ◌∷◌, ◌++◌, length, take, drop, arith,
}
use ngx_lua_cpp.Prelude.Text.{Bytes}
use ngx_lua_cpp.Bmp.{row_size, header, bmp_row, bmp_rows, encode_bmp}
use ngx_lua_cpp.Bmp.Layout
use ngx_lua_cpp.Bmp.Layout.{pixels_of_row}

abbrev picture : Bytes
picture = 1 ∷ 2 ∷ 3 ∷ 4 ∷ 5 ∷ 6 ∷ []

two_rows : encode_bmp 1 2 picture ≡ header 1 2 ++ 4 ∷ 5 ∷ 6 ∷ 0 ∷ 1 ∷ 2 ∷ 3 ∷ 0 ∷ []
unfolding encode_bmp bmp_rows bmp_row row_size
two_rows = refl

encode_bmp_lem_example :
    (length (encode_bmp 1 2 picture) ≡ 54 + 2 * row_size 1)
    × (row_size 1 % 4 ≡ 0)
    × ((y : ℕ)
        → y < 2
        → take 3 (drop (54 + y * row_size 1) (encode_bmp 1 2 picture))
          ≡ pixels_of_row 1 picture (2 - 1 - y))
encode_bmp_lem_example = Layout.encode_bmp_lem 1 2 picture (omega arith) refl
