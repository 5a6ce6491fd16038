-- ===== src/Base64/RoundTrip.antt =====
-- Decoding what was encoded gives it back, whatever the buffer held.
use ngx_lua_cpp.Prelude.{
  ℕ, ◌+◌, ◌*◌, ◌/◌, ◌%◌, ◌^◌, ◌<◌, ◌≡◌, ◌∙◌, ap, true, [], ◌∷◌, ◌++◌, append_assoc, append-nil,
  arith, bit_or, All, length,
}
use ngx_lua_cpp.Prelude.Text.{Bytes}
use ngx_lua_cpp.Base64.{
  digit, sextet, encode, feed, decode_loop, base64url_encode, base64url_decode,
}
use ngx_lua_cpp.Base64.Arith.{
  char_value-digit, sextet-digit, bits_three, bits_two, buffer_sum, low_byte,
}

abbrev pub IsByte : ℕ → Type 0
IsByte x = x < 256

-- A digit of the alphabet feeds the decoder.
decode-digit :
    (i : ℕ) (rest : Bytes) (buf bits : ℕ) (out : Bytes)
    → i < 64
    → decode_loop (digit i ∷ rest) buf bits out
      ≡ (let s = feed i buf bits out in decode_loop rest s.buf s.bits s.out)
unfolding decode_loop
decode-digit i rest buf bits out h = let (plain, value) = char_value-digit i h in rw (plain, value)

-- The three bytes that four digits push, from the value that the digits spell.
module _ (v buf : ℕ) where
  abbrev after_one : ℕ
  after_one = bit_or (buf * 2 ^ 6 % 2 ^ 32) (v / 2 ^ 18 % 64)

  abbrev after_two : ℕ
  after_two = bit_or (after_one * 2 ^ 6 % 2 ^ 32) (v / 2 ^ 12 % 64)

  abbrev after_three : ℕ
  after_three = bit_or (after_two * 2 ^ 6 % 2 ^ 32) (v / 2 ^ 6 % 64)

  abbrev after_four : ℕ
  after_four = bit_or (after_three * 2 ^ 6 % 2 ^ 32) (v / 2 ^ 0 % 64)

  sum_one : after_one ≡ buf * 64 % 4294967296 + v / 262144 % 64
  sum_one = buffer_sum buf (v / 2 ^ 18 % 64) (omega arith)

  sum_two : after_two ≡ after_one * 64 % 4294967296 + v / 4096 % 64
  sum_two = buffer_sum after_one (v / 2 ^ 12 % 64) (omega arith)

  sum_three : after_three ≡ after_two * 64 % 4294967296 + v / 64 % 64
  sum_three = buffer_sum after_two (v / 2 ^ 6 % 64) (omega arith)

  sum_four : after_four ≡ after_three * 64 % 4294967296 + v % 64
  sum_four = buffer_sum after_three (v / 2 ^ 0 % 64) (omega arith) ∙ omega arith

  byte_two : v < 16777216 → after_two / 2 ^ 4 % 256 ≡ v / 65536
  byte_two h = omega (arith, sum_one, sum_two)

  byte_three : v < 16777216 → after_three / 2 ^ 2 % 256 ≡ v / 256 % 256
  byte_three h = omega (arith, sum_two, sum_three)

  byte_four : v < 16777216 → after_four / 2 ^ 0 % 256 ≡ v % 256
  byte_four h = omega (arith, sum_three, sum_four)

  -- Two digits from an empty buffer push one byte, a third and a fourth one more each.
  two_digits :
      (rest out : Bytes)
      → v < 16777216
      → decode_loop (sextet v 18 ∷ sextet v 12 ∷ rest) buf 0 out
        ≡ decode_loop rest after_two 4 (out ++ v / 65536 ∷ [])
  unfolding feed
  two_digits rest out h =
      rw (sextet-digit v 18, sextet-digit v 12)
        (decode-digit (v / 2 ^ 18 % 64) _ buf 0 out (omega arith)
          ∙ decode-digit (v / 2 ^ 12 % 64) rest after_one 6 out (omega arith)
          ∙ ap (λ x. decode_loop rest after_two 4 (out ++ x ∷ []))
              (low_byte after_two 4 ∙ byte_two h))

  third_digit :
      (rest out : Bytes)
      → v < 16777216
      → decode_loop (sextet v 6 ∷ rest) after_two 4 out
        ≡ decode_loop rest after_three 2 (out ++ v / 256 % 256 ∷ [])
  unfolding feed
  third_digit rest out h = rw (sextet-digit v 6) (
      decode-digit (v / 2 ^ 6 % 64) rest after_two 4 out (omega arith)
      ∙ ap (λ x. decode_loop rest after_three 2 (out ++ x ∷ []))
          (low_byte after_three 2 ∙ byte_three h))

  fourth_digit :
      (rest out : Bytes)
      → v < 16777216
      → decode_loop (sextet v 0 ∷ rest) after_three 2 out
        ≡ decode_loop rest after_four 0 (out ++ v % 256 ∷ [])
  unfolding feed
  fourth_digit rest out h = rw (sextet-digit v 0) (
      decode-digit (v / 2 ^ 0 % 64) rest after_three 2 out (omega arith)
      ∙ ap (λ x. decode_loop rest after_four 0 (out ++ x ∷ []))
          (low_byte after_four 0 ∙ byte_four h))

pub decode_loop-encode :
    (xs : Bytes) (buf : ℕ) (out : Bytes)
    → All IsByte xs
    → decode_loop (encode xs) buf 0 out ≡ (out ++ xs, true)
unfolding encode
decode_loop-encode [] buf out h = unfold decode_loop in rw (append-nil out)
decode_loop-encode (a ∷ []) buf out h =
    two_digits (a * 2 ^ 16) buf [] out (omega arith)
    ∙ unfold decode_loop in ap (λ x. (out ++ x ∷ [], true)) (omega arith)
decode_loop-encode (a ∷ b ∷ []) buf out h = rw (bits_two a b h.1.0) (
    two_digits v buf (sextet v 6 ∷ []) out (omega arith)
    ∙ third_digit v buf [] (out ++ v / 65536 ∷ []) (omega arith)
    ∙ unfold decode_loop in rw (top, mid) (simp append_assoc))
  where
    v : ℕ
    v = a * 65536 + b * 256

    top : v / 65536 ≡ a
    top = omega arith

    mid : v / 256 % 256 ≡ b
    mid = omega arith
decode_loop-encode (a ∷ b ∷ c ∷ rest) buf out h = rw (bits_three a b c h.1.0 h.1.1.0) (
    two_digits v buf (sextet v 6 ∷ sextet v 0 ∷ encode rest) out (omega arith)
    ∙ third_digit v buf (sextet v 0 ∷ encode rest) (out ++ v / 65536 ∷ []) (omega arith)
    ∙ fourth_digit v buf (encode rest) ((out ++ v / 65536 ∷ []) ++ v / 256 % 256 ∷ []) (omega arith)
    ∙ decode_loop-encode rest (after_four v buf)
        (((out ++ v / 65536 ∷ []) ++ v / 256 % 256 ∷ []) ++ v % 256 ∷ []) h.1.1.1
    ∙ rw (top, mid, low) (simp append_assoc))
  where
    v : ℕ
    v = a * 65536 + b * 256 + c

    top : v / 65536 ≡ a
    top = omega arith

    mid : v / 256 % 256 ≡ b
    mid = omega arith

    low : v % 256 ≡ c
    low = omega arith

-- Every string of bytes is had back from its encoding, with no error.
pub base64url_decode-base64url_encode :
    (xs : Bytes) → All IsByte xs → base64url_decode (base64url_encode xs) ≡ (xs, [])
unfolding base64url_decode base64url_encode
base64url_decode-base64url_encode xs h = rw (decode_loop-encode xs 0 [] h)

-- The encoding has no padding: four characters for three bytes, and two or three for what is left.
pub length-encode : (xs : Bytes) → length (encode xs) ≡ (length xs * 4 + 2) / 3
unfolding encode
length-encode [] = omega arith
length-encode (a ∷ []) = omega arith
length-encode (a ∷ b ∷ []) = omega arith
length-encode (a ∷ b ∷ c ∷ rest) = omega (arith, length-encode rest)
