-- ===== src/Bmp.antt =====
-- The image that `mandelbrot` returns: `encode_bmp` of src/ngx_lua_cpp.cpp.
pub mod Mask
pub mod Layout
mod Tests
use ngx_lua_cpp.Prelude.{
  ℕ, zero, suc, ◌+◌, ◌-◌, ◌*◌, ◌/◌, ◌%◌, ◌^◌, List, [], ◌∷◌, ◌++◌, length, take, drop, replicate,
  bit_and,
}
use ngx_lua_cpp.Prelude.Text.{Bytes}

-- `(width * 3 + 3) & ~(size_t)3`
unfoldable pub row_size : ℕ → ℕ
row_size width = bit_and ((width * 3 + 3) % 2 ^ 64) (2 ^ 64 - 4)

-- A `memcpy` of an integer on a little-endian machine.
abbrev pub little_endian16 : ℕ → Bytes
little_endian16 v = v % 256 ∷ v / 2 ^ 8 % 256 ∷ []

abbrev pub little_endian32 : ℕ → Bytes
little_endian32 v = v % 256 ∷ v / 2 ^ 8 % 256 ∷ v / 2 ^ 16 % 256 ∷ v / 2 ^ 24 % 256 ∷ []

-- The 54 bytes in front of the pixels; the last 16 keep the zeros that the string was made of.
unfoldable pub header : ℕ → ℕ → Bytes
header width height =
    let data_size = row_size width * height in
    b'B' ∷ b'M' ∷ little_endian32 (54 + data_size)
    ++ little_endian32 0
    ++ little_endian32 54
    ++ little_endian32 40
    ++ little_endian32 width
    ++ little_endian32 height
    ++ little_endian16 1
    ++ little_endian16 24
    ++ little_endian32 0
    ++ little_endian32 data_size
    ++ replicate 16 0

-- Row `y` of the file: a row of the pixels, and zeros up to the size of a row.
unfoldable pub bmp_row : ℕ → ℕ → Bytes → ℕ → Bytes
bmp_row width height rgb_topdown y =
    take (width * 3) (drop ((height - 1 - y) * (width * 3)) rgb_topdown)
    ++ replicate (row_size width - width * 3) 0

-- The loop over the rows from `y` on.
unfoldable pub bmp_rows : ℕ → ℕ → Bytes → ℕ → ℕ → Bytes
bmp_rows width height rgb_topdown zero y = []
bmp_rows width height rgb_topdown (suc count) y =
    bmp_row width height rgb_topdown y ++ bmp_rows width height rgb_topdown count (suc y)

unfoldable pub encode_bmp : ℕ → ℕ → Bytes → Bytes
encode_bmp width height rgb_topdown =
    header width height ++ bmp_rows width height rgb_topdown height 0
