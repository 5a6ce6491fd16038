-- ===== src/Bmp/Mask.antt =====
-- The size of a row, as arithmetic.
use ngx_lua_cpp.Prelude.{
  ℕ, ◌+◌, ◌-◌, ◌*◌, ◌/◌, ◌%◌, ◌^◌, ◌≤◌, ◌<◌, ◌≡◌, arith, bit_and, bit_and_mask, bit_and-half,
}
use ngx_lua_cpp.Bmp.{row_size}

-- `& ~3` clears the two lowest bits.
mask_four : (x : ℕ) → x < 2 ^ 64 → bit_and x (2 ^ 64 - 4) ≡ x - x % 4
mask_four x h = omega (
  arith,
  bit_and-half x (2 ^ 64 - 4),
  bit_and-half (x / 2) (2 ^ 63 - 2),
  bit_and_mask 62 (x / 2 / 2),
)

pub row_size_lem :
    (width : ℕ)
    → width ≤ 1600
    → (row_size width % 4 ≡ 0) × (width * 3 ≤ row_size width) × (row_size width < width * 3 + 4)
unfolding row_size
row_size_lem width h =
    let size : row_size width ≡ (width * 3 + 3) - (width * 3 + 3) % 4 =
      omega (arith, mask_four ((width * 3 + 3) % 2 ^ 64) (omega arith)) in
    (omega (arith, size), omega (arith, size), omega (arith, size))
