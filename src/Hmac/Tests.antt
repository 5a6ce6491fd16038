-- ===== src/Hmac/Tests.antt =====
-- Runs of the HMAC on a test vector of RFC 4231, and the theorems at concrete inputs.
use ngx_lua_cpp.Prelude.{◌≡◌, refl, arith}
use ngx_lua_cpp.Prelude.Text.{codes}
use ngx_lua_cpp.Sha256.{init, absorb, update, nibble, hex_word, hex_state, final_hex, hex, sha256}
use ngx_lua_cpp.Sha256.Transform.{transform}
use ngx_lua_cpp.Hmac.{
  nib, unhex, xor_into, block_key, hmac_raw, hex_bytes, hmac_hex, hmac_sha256, hmac_sha256_raw,
}
use ngx_lua_cpp.Hmac.Rfc2104
use ngx_lua_cpp.Hmac.Rfc2104.{rfc_hmac}

program : Unit {0}
unfolding init absorb update nibble hex_word hex_state final_hex hex sha256 transform nib unhex
    xor_into block_key hmac_raw hex_bytes hmac_hex hmac_sha256
program = tt

jefe :
    hmac_sha256 (codes "Jefe") (codes "what do ya want for nothing?")
    ≡ codes "5bdcc146bf60754e6a042426089575c75a003f089d2739839dec58b964ec3843"
unfolding program
jefe = refl

hmac_sha256_raw-rfc_example :
    hmac_sha256_raw (codes "Jefe") (codes "text") ≡ rfc_hmac (codes "Jefe") (codes "text")
hmac_sha256_raw-rfc_example =
    Rfc2104.hmac_sha256_raw-rfc (codes "Jefe") (codes "text") (omega arith) (omega arith)
