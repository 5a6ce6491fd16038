-- ===== src/Hmac/Hex.antt =====
-- Hexadecimal text and bytes are had from one another.
use ngx_lua_cpp.Prelude.{
  clamp, ℕ, zero, suc, min, max, ◌+◌, ◌*◌, ◌/◌, ◌%◌, ◌^◌, ◌<◌, ◌≡◌, refl, ap, sym, ◌∙◌, true, [],
  ◌∷◌, length, arith, all_below, all_below_sound, ◌==◌, ==_iff, bit_and, bit_or, bit_or_fields,
  bit_and_mask, All,
}
use ngx_lua_cpp.Prelude.Text.{Bytes}
use ngx_lua_cpp.Sha256.{nibble}
use ngx_lua_cpp.Sha256.Fips.{hex_character, hex_text}
use ngx_lua_cpp.Sha256.Printing.{nibble-hex_character, IsByte}
use ngx_lua_cpp.Hmac.{nib, unhex, hex_bytes, random_loop, random_hex}

nibbles_checked : all_below 16 (λ i. nib (nibble i) == i) ≡ true
unfolding all_below nib nibble
nibbles_checked = refl

pub nib-nibble : (i : ℕ) → i < 16 → nib (nibble i) ≡ i
nib-nibble i h = (==_iff _ i).0 (all_below_sound 16 (λ i. nib (nibble i) == i) i nibbles_checked h)

-- A hexadecimal digit is the character of a value below 16.
abbrev pub IsDigit : ℕ → Type 0
IsDigit c = (i : ℕ) × (c ≡ nibble i) × (i < 16)

nibble-IsDigit : (x : ℕ) → IsDigit (nibble (bit_and x 0xf))
nibble-IsDigit x = (bit_and x 0xf, refl, rw (bit_and_mask 4 x) (omega arith))

byte_of_pair : (i j : ℕ) → i < 16 → j < 16 → bit_or (i * 2 ^ 4) j % 256 ≡ i * 16 + j
byte_of_pair i j p q = rw (bit_or_fields 4 i j q) (omega arith)

-- Bytes that are printed are had back.
nib-hex_character : (i : ℕ) → i < 16 → nib (hex_character i) ≡ i
nib-hex_character i h = ap nib (sym (nibble-hex_character i h)) ∙ nib-nibble i h

pub unhex-hex_text : (bytes : Bytes) → All IsByte bytes → unhex (hex_text bytes) ≡ bytes
unfolding unhex hex_text
unhex-hex_text [] a = refl
unhex-hex_text (x ∷ xs) a =
    let less = a.0 in
    let whole : x / 16 * 16 + x % 16 ≡ x = omega arith in
    rw (
      nib-hex_character (x / 16) (omega arith),
      nib-hex_character (x % 16) (omega arith),
      byte_of_pair (x / 16) (x % 16) (omega arith) (omega arith),
      whole,
      unhex-hex_text xs a.1,
    )

pub hex_bytes-hex_text : (bytes : Bytes) → All IsByte bytes → hex_bytes bytes ≡ hex_text bytes
unfolding hex_bytes hex_text
hex_bytes-hex_text [] a = refl
hex_bytes-hex_text (x ∷ xs) a =
    let less = a.0 in
    let high : nibble (x / 2 ^ 4) ≡ hex_character (x / 16) =
      nibble-hex_character (x / 16) (omega arith) in
    let low : nibble (bit_and x 0xf) ≡ hex_character (x % 16) =
      ap nibble (bit_and_mask 4 x) ∙ nibble-hex_character (x % 16) (omega arith) in
    rw (high, low, hex_bytes-hex_text xs a.1)

random_loop_lem :
    (n : ℕ) (rng : ℕ → ℕ) (i : ℕ)
    → (length (random_loop n rng i) ≡ 2 * n) × All IsDigit (random_loop n rng i)
unfolding random_loop
random_loop_lem zero rng i = (refl, tt)
random_loop_lem (suc n) rng i =
    let (size, digits) = random_loop_lem n rng (i + 1) in
    (omega arith, (nibble-IsDigit (rng i), (nibble-IsDigit (rng i / 2 ^ 4), digits)))

-- Whatever the generator returns, `random_hex` gives two hexadecimal digits for each byte asked
-- for, the number of bytes being brought between 1 and 1024.
pub random_hex_lem :
    (rng : ℕ → ℕ) (n : ℕ)
    → (length (random_hex rng n) ≡ 2 * max 1 (min n 1024)) × All IsDigit (random_hex rng n)
unfolding random_hex
random_hex_lem rng n =
    let (size, digits) = random_loop_lem (clamp n 1 1024) rng 0 in
    let bound : clamp n 1 1024 ≡ max 1 (min n 1024) = ground arith in
    (size ∙ ap (λ k. 2 * k) bound, digits)
