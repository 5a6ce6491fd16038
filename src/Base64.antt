-- ===== src/Base64.antt =====
-- base64url: `base64url_encode_impl`, `base64url_decode_impl` and their two methods, of
-- src/ngx_lua_cpp.cpp. A `std::string` is the list of its bytes, as unsigned values.
pub mod Arith
pub mod RoundTrip
pub mod Errors
pub mod Canonical
pub mod Bijection
mod Tests
use ngx_lua_cpp.Prelude.{
  ℕ, ◌+◌, ◌-◌, ◌*◌, ◌/◌, ◌%◌, ◌^◌, Bool, true, false, ◌&&◌, Option, none, some, List, [], ◌∷◌, ◌++◌,
  leb, ◌==◌, get_or, bit_and, bit_or, if◌then◌else◌,
}
use ngx_lua_cpp.Prelude.Text.{Bytes, codes}

abbrev pub b64url_table : Bytes
b64url_table = codes "ABCDEFGHIJKLMNOPQRSTUVWXYZabcdefghijklmnopqrstuvwxyz0123456789-_"

unfoldable pub digit : ℕ → ℕ
digit i = get_or b64url_table i 0

-- `(v >> k) & 0x3f` selects a character.
unfoldable pub sextet : ℕ → ℕ → ℕ
sextet v k = digit (bit_and (v / 2 ^ k) 0x3f)

-- The loop takes three bytes a round; the last round may find one or two.
unfoldable pub encode : Bytes → Bytes
encode [] = []
encode (a ∷ []) = let v = a * 2 ^ 16 in sextet v 18 ∷ sextet v 12 ∷ []
encode (a ∷ b ∷ []) =
    let v = bit_or (a * 2 ^ 16) (b * 2 ^ 8) in sextet v 18 ∷ sextet v 12 ∷ sextet v 6 ∷ []
encode (a ∷ b ∷ c ∷ rest) =
    let v = bit_or (bit_or (a * 2 ^ 16) (b * 2 ^ 8)) c in
    sextet v 18 ∷ sextet v 12 ∷ sextet v 6 ∷ sextet v 0 ∷ encode rest

-- The value of a character; `none` for one that is not of the alphabet.
unfoldable pub char_value : ℕ → Option ℕ
char_value c =
    if leb b'A' c && leb c b'Z'
    then some (c - b'A')
    else if leb b'a' c && leb c b'z'
    then some (c - b'a' + 26)
    else if leb b'0' c && leb c b'9'
    then some (c - b'0' + 52)
    else if c == b'-'
    then some 62
    else if c == b'_'
    then some 63
    else none

-- One round of the decoder: the 32-bit buffer, the number of bits that wait in it, the output.
unfoldable pub feed : ℕ → ℕ → ℕ → Bytes → record { buf : ℕ; bits : ℕ; out : Bytes }
feed v buf bits out =
    let buf' = bit_or (buf * 2 ^ 6 % 2 ^ 32) v in
    if leb 8 (bits + 6)
    then (record {
      buf = buf';
      bits = bits + 6 - 8;
      out = out ++ bit_and (buf' / 2 ^ (bits + 6 - 8)) 0xff ∷ [];
    })
    else record { buf = buf'; bits = bits + 6; out = out }

-- The output and `ok`. An invalid character stops the loop with `ok` false, a '=' with `ok` true.
unfoldable pub decode_loop : Bytes → ℕ → ℕ → Bytes → Bytes × Bool
decode_loop [] buf bits out = (out, true)
decode_loop (c ∷ rest) buf bits out =
    let next = λ (v : ℕ). let s = feed v buf bits out in decode_loop rest s.buf s.bits s.out in
    if c == b'=' then (out, true) else elim (char_value c) [ none ↦ (out, false) | some v ↦ next v ]

unfoldable pub decode : Bytes → Bytes × Bool
decode in_ = decode_loop in_ 0 0 []

-- The methods: the decoded bytes with an empty error, or an error.
unfoldable pub base64url_encode : Bytes → Bytes
base64url_encode text = encode text

unfoldable pub base64url_decode : Bytes → Bytes × Bytes
unfolding decode
base64url_decode text =
    let r = decode text in if r.1 then (r.0, []) else ([], codes "invalid base64url input")
