-- ===== src/Base64/Tests.antt =====
-- Runs of the codec, and the theorems at concrete inputs.
use ngx_lua_cpp.Prelude.{◌≡◌, refl, false, true, [], ◌∷◌}
use ngx_lua_cpp.Prelude.Text.{codes}
use ngx_lua_cpp.Base64.{
  digit, sextet, encode, char_value, feed, decode_loop, base64url_encode, base64url_decode,
}
use ngx_lua_cpp.Base64.Errors
use ngx_lua_cpp.Base64.Errors.{valid_prefix}

program : Unit {0}
unfolding digit sextet encode char_value feed decode_loop base64url_encode base64url_decode
program = tt

encodes : base64url_encode (0xfb ∷ 0xff ∷ 0xfe ∷ 0x4d ∷ []) ≡ codes "-__-TQ"
unfolding program
encodes = refl

decodes : base64url_decode (codes "-__-TQ==") ≡ (0xfb ∷ 0xff ∷ 0xfe ∷ 0x4d ∷ [], [])
unfolding program
decodes = refl

refuses : base64url_decode (codes "ab+c") ≡ ([], codes "invalid base64url input")
unfolding program
refuses = refl

base64url_decode_error_example :
    (valid_prefix (codes "a+") ≡ false
      → base64url_decode (codes "a+") ≡ ([], codes "invalid base64url input"))
    × (valid_prefix (codes "a+") ≡ true → (base64url_decode (codes "a+")).1 ≡ [])
base64url_decode_error_example = Errors.base64url_decode_error (codes "a+")

-- The decoder is more lenient than the encoder is: bits that are left over are dropped.
lenient : base64url_decode (codes "TR") ≡ base64url_decode (codes "TQ")
unfolding program
lenient = refl
