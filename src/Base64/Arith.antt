-- ===== src/Base64/Arith.antt =====
-- The shifts and masks of the codec as arithmetic.
use ngx_lua_cpp.Prelude.{
  ℕ, ◌+◌, ◌*◌, ◌/◌, ◌%◌, ◌^◌, ◌<◌, ◌≡◌, refl, ◌∙◌, Bool, true, false, ◌&&◌, not, none, some, arith,
  all_below, all_below_sound, ◌==◌, bit_and, bit_or, bit_or_fields, bit_and_mask,
}
use ngx_lua_cpp.Base64.{digit, sextet, char_value}

abbrev is_value : ℕ → Bool
is_value i =
    not (digit i == b'=') && (elim (char_value (digit i)) [ none ↦ false | some v ↦ v == i ])

digits_checked : all_below 64 is_value ≡ true
unfolding all_below digit char_value
digits_checked = refl

-- A digit of the alphabet is not the padding, and has its own value.
pub char_value-digit :
    (i : ℕ) → i < 64 → ((digit i == b'=') ≡ false) × (char_value (digit i) ≡ some i)
char_value-digit i h =
    let good = all_below_sound 64 is_value i digits_checked h in (ground arith, ground arith)

pub sextet-digit : (v k : ℕ) → sextet v k ≡ digit (v / 2 ^ k % 64)
unfolding sextet
sextet-digit v k = rw (bit_and_mask 6 (v / 2 ^ k))

pub bits_three :
    (a b c : ℕ)
    → b < 256
    → c < 256
    → bit_or (bit_or (a * 2 ^ 16) (b * 2 ^ 8)) c ≡ a * 65536 + b * 256 + c
bits_three a b c hb hc =
    let top : bit_or (a * 2 ^ 16) (b * 2 ^ 8) ≡ (a * 256 + b) * 2 ^ 8 =
      bit_or_fields 16 a (b * 2 ^ 8) (omega arith) ∙ omega arith in
    rw top (bit_or_fields 8 (a * 256 + b) c (omega arith) ∙ omega arith)

pub bits_two : (a b : ℕ) → b < 256 → bit_or (a * 2 ^ 16) (b * 2 ^ 8) ≡ a * 65536 + b * 256
bits_two a b hb = bit_or_fields 16 a (b * 2 ^ 8) (omega arith) ∙ omega arith

-- The new buffer: the old one moved up six bits within 32, and the value below.
pub buffer_sum : (buf v : ℕ) → v < 64 → bit_or (buf * 2 ^ 6 % 2 ^ 32) v ≡ buf * 64 % 4294967296 + v
buffer_sum buf v h =
    let moved : buf * 2 ^ 6 % 2 ^ 32 ≡ (buf % 67108864) * 2 ^ 6 = omega arith in
    rw moved (bit_or_fields 6 (buf % 67108864) v h ∙ omega arith)

pub low_byte : (x k : ℕ) → bit_and (x / 2 ^ k) 0xff ≡ x / 2 ^ k % 256
low_byte x k = bit_and_mask 8 (x / 2 ^ k)
