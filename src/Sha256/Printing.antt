-- ===== src/Sha256/Printing.antt =====
-- The text that is printed of a digest, and its bytes.
use ngx_lua_cpp.Prelude.{
  ℕ, ◌*◌, ◌/◌, ◌%◌, ◌^◌, ◌<◌, ◌≡◌, refl, ap, ap₂, sym, ◌∙◌, true, List, [], ◌∷◌, ◌++◌, ◌==◌, ==_iff,
  all_below, all_below_sound, All, bit_and, bit_and_mask, length, arith,
}
use ngx_lua_cpp.Prelude.Text.{Bytes}
use ngx_lua_cpp.Sha256.{nibble, hex_word, hex_state, big_endian64}
use ngx_lua_cpp.Sha256.Transform.{Word}
use ngx_lua_cpp.Sha256.Fips.{number_bytes, words_bytes, hex_character, hex_text}

nibbles_checked : all_below 16 (λ i. nibble i == hex_character i) ≡ true
unfolding all_below nibble
nibbles_checked = refl

pub nibble-hex_character : (i : ℕ) → i < 16 → nibble i ≡ hex_character i
nibble-hex_character i h =
    (==_iff _ _).0 (all_below_sound 16 (λ i. nibble i == hex_character i) i nibbles_checked h)

-- A digit that the code prints.
nibble_lem : (x d : ℕ) → x % 16 ≡ d → nibble (bit_and x 0xf) ≡ hex_character d
nibble_lem x d h = ap nibble (bit_and_mask 4 x ∙ h) ∙ nibble-hex_character d (omega arith)

hex_text-append : (xs ys : Bytes) → hex_text (xs ++ ys) ≡ hex_text xs ++ hex_text ys
unfolding hex_text
hex_text-append [] ys = refl
hex_text-append (x ∷ xs) ys =
    ap (λ (r : Bytes). hex_character (x / 16) ∷ hex_character (x % 16) ∷ r) (hex_text-append xs ys)

hex_word_lem : (v : Word) → hex_word v ≡ hex_text (number_bytes 4 v)
unfolding hex_word hex_text
hex_word_lem v = rw (
  nibble_lem (v / 2 ^ 28) (v / 256 / 256 / 256 % 256 / 16) (omega arith),
  nibble_lem (v / 2 ^ 24) (v / 256 / 256 / 256 % 256 % 16) (omega arith),
  nibble_lem (v / 2 ^ 20) (v / 256 / 256 % 256 / 16) (omega arith),
  nibble_lem (v / 2 ^ 16) (v / 256 / 256 % 256 % 16) (omega arith),
  nibble_lem (v / 2 ^ 12) (v / 256 % 256 / 16) (omega arith),
  nibble_lem (v / 2 ^ 8) (v / 256 % 256 % 16) (omega arith),
  nibble_lem (v / 2 ^ 4) (v % 256 / 16) (omega arith),
  nibble_lem (v / 2 ^ 0) (v % 256 % 16) (omega arith),
)

pub hex_state_lem : (vs : List Word) → hex_state vs ≡ hex_text (words_bytes vs)
unfolding hex_state words_bytes hex_text
hex_state_lem [] = refl
hex_state_lem (v ∷ vs) =
    ap₂ (λ (a b : Bytes). a ++ b) (hex_word_lem v) (hex_state_lem vs)
    ∙ sym (hex_text-append (number_bytes 4 v) (words_bytes vs))

pub big_endian64_lem : (v : ℕ) → big_endian64 v ≡ number_bytes 8 v
big_endian64_lem v =
    let b7 : v / 2 ^ 56 ≡ v / 256 / 256 / 256 / 256 / 256 / 256 / 256 = omega arith in
    let b6 : v / 2 ^ 48 ≡ v / 256 / 256 / 256 / 256 / 256 / 256 = omega arith in
    let b5 : v / 2 ^ 40 ≡ v / 256 / 256 / 256 / 256 / 256 = omega arith in
    let b4 : v / 2 ^ 32 ≡ v / 256 / 256 / 256 / 256 = omega arith in
    let b3 : v / 2 ^ 24 ≡ v / 256 / 256 / 256 = omega arith in
    let b2 : v / 2 ^ 16 ≡ v / 256 / 256 = omega arith in
    let b1 : v / 2 ^ 8 ≡ v / 256 = omega arith in
    let b0 : v / 2 ^ 0 ≡ v = omega arith in rw (b7, b6, b5, b4, b3, b2, b1, b0)

-- The bytes of words are bytes.
abbrev pub IsByte : ℕ → Type 0
IsByte x = x < 256

pub words_bytes_lem :
    (vs : List Word) → (length (words_bytes vs) ≡ 4 * length vs) × All IsByte (words_bytes vs)
unfolding words_bytes
words_bytes_lem [] = (refl, tt)
words_bytes_lem (v ∷ vs) =
    let (size, bytes) = words_bytes_lem vs in
    (omega (arith, size), (omega arith, (omega arith, (omega arith, (omega arith, bytes)))))
