-- ===== src/Sha256/Tests.antt =====
-- Runs of SHA-256 on the test vectors of FIPS 180-4, and the theorems at concrete inputs.
use ngx_lua_cpp.Prelude.{◌≡◌, refl, some, [], ◌∷◌, arith}
use ngx_lua_cpp.Prelude.Text.{codes}
use ngx_lua_cpp.Prelude.Double.{whole_double, whole-IsDouble}
use ngx_lua_cpp.Sha256.{init, absorb, update, nibble, hex_word, hex_state, final_hex, hex, sha256}
use ngx_lua_cpp.Sha256.Transform.{transform}
use ngx_lua_cpp.Sha256.Blocks
use ngx_lua_cpp.Sha256.Fips.{fips_digest, hex_text}
use ngx_lua_cpp.Sha256.Stream
use ngx_lua_cpp.Sha256.Stream.{file_sha256, joined}

program : Unit {0}
unfolding init absorb update nibble hex_word hex_state final_hex hex sha256 transform
program = tt

abc :
    sha256 (codes "abc") ≡ codes "ba7816bf8f01cfea414140de5dae2223b00361a396177a9cb410ff61f20015ad"
unfolding program
abc = refl

empty : sha256 [] ≡ codes "e3b0c44298fc1c149afbf4c8996fb92427ae41e4649b934ca495991b7852b855"
unfolding program
empty = refl

sha256-fips_example : sha256 (codes "abc") ≡ hex_text (fips_digest (codes "abc"))
sha256-fips_example = Blocks.sha256-fips (codes "abc") (omega arith)

file_sha256-sha256_example :
    file_sha256 whole_double (some (codes "ab" ∷ codes "c" ∷ [])) 7 ≡ (sha256 (codes "abc"), 3, 7)
file_sha256-sha256_example =
    Stream.file_sha256-sha256 whole_double whole-IsDouble (codes "ab" ∷ codes "c" ∷ []) 7
      (refl, (refl, tt)) (omega arith)
