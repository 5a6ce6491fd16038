-- ===== src/Hmac/Rfc2104.antt =====
-- The code computes the HMAC that RFC 2104 defines, over SHA-256 as FIPS 180-4 defines it.
use ngx_lua_cpp.Prelude.{
  ℕ, zero, suc, ◌+◌, ◌-◌, ◌*◌, ◌/◌, ◌^◌, ◌<◌, ◌≤◌, ◌≡◌, refl, ap, ap₂, ◌∙◌, [], ◌∷◌, ◌++◌, length,
  length-append, length-replicate, replicate, arith, bit_xor, ltb, if◌then◌else◌,
}
use ngx_lua_cpp.Prelude.Text.{Bytes}
use ngx_lua_cpp.Sha256.{init, update, final_hex, hex, sha256}
use ngx_lua_cpp.Sha256.Digest.{length-sha256}
use ngx_lua_cpp.Sha256.Stream.{update-append}
use ngx_lua_cpp.Hmac.{
  unhex, xor_into, block_key, hmac_raw, hmac_hex, hex_bytes, hmac_sha256, hmac_sha256_raw,
}
use ngx_lua_cpp.Sha256.Fips.{fips_digest, hex_text}
use ngx_lua_cpp.Sha256.Blocks.{sha256-fips}
use ngx_lua_cpp.Sha256.Printing.{words_bytes_lem}
use ngx_lua_cpp.Hmac.Hex.{unhex-hex_text, hex_bytes-hex_text}

abbrev pub xor_bytes : Bytes → Bytes → Bytes
xor_bytes (x ∷ xs) (y ∷ ys) = bit_xor x y ∷ xor_bytes xs ys
xor_bytes _ _ = []

-- The key, hashed if it is longer than the block of 64 bytes, with zeros up to that size.
abbrev pub padded_key : Bytes → Bytes
padded_key key =
    let k = if ltb 64 (length key) then fips_digest key else key in k ++ replicate (64 - length k) 0

abbrev pub rfc_hmac : Bytes → Bytes → Bytes
rfc_hmac key text =
    let k = padded_key key in
    fips_digest
      (xor_bytes (replicate 64 0x5c) k ++ fips_digest (xor_bytes (replicate 64 0x36) k ++ text))

xor_replicate :
    (n p : ℕ) → bit_xor p 0 ≡ p → replicate n p ≡ xor_bytes (replicate n p) (replicate n 0)
xor_replicate zero p h = refl
xor_replicate (suc n) p h = rw h (ap (◌∷◌ p) (xor_replicate n p h))

xor_into-xor_bytes :
    (n p : ℕ) (k : Bytes)
    → bit_xor p 0 ≡ p
    → length k ≤ n
    → xor_into (replicate n p) k ≡ xor_bytes (replicate n p) (k ++ replicate (n - length k) 0)
unfolding xor_into
xor_into-xor_bytes zero p [] z h = refl
xor_into-xor_bytes zero p (x ∷ k) z h = absurd (omega arith)
xor_into-xor_bytes (suc n) p [] z h =
    let all : suc n - 0 ≡ suc n = omega arith in rw all (xor_replicate (suc n) p z)
xor_into-xor_bytes (suc n) p (x ∷ k) z h =
    let left : suc n - suc (length k) ≡ n - length k = omega arith in
    rw left (ap (◌∷◌ (bit_xor p x)) (xor_into-xor_bytes n p k z (omega arith)))

length-unhex : (text : Bytes) → length (unhex text) ≡ length text / 2
unfolding unhex
length-unhex [] = omega arith
length-unhex (x ∷ []) = omega arith
length-unhex (x ∷ y ∷ rest) = omega (arith, length-unhex rest)

-- The key that the pads are mixed with fits a block.
length-block_key : (key : Bytes) → length (block_key key) ≤ 64
unfolding block_key sha256
length-block_key key = ground (arith, length-unhex (sha256 key), length-sha256 key)

-- The digest of a text that is hashed in two parts.
final_hex-update : (a b : Bytes) → final_hex (update (update init a) b) ≡ sha256 (a ++ b)
unfolding sha256 hex
final_hex-update a b = ap final_hex (update-append init a b (unfold init in omega arith))

length-xor_into : (ps k : Bytes) → length (xor_into ps k) ≡ length ps
unfolding xor_into
length-xor_into [] k = refl
length-xor_into (p ∷ ps) [] = refl
length-xor_into (p ∷ ps) (x ∷ k) = omega (arith, length-xor_into ps k)

length-pad : (p : ℕ) (k : Bytes) → length (xor_into (replicate 64 p) k) ≡ 64
length-pad p k = length-xor_into (replicate 64 p) k ∙ length-replicate {A = ℕ} 64 p

-- What the code reads back from a digest that it printed is the digest.
digest_lem : (m : Bytes) → length m * 8 < 2 ^ 64 → unhex (sha256 m) ≡ fips_digest m
unfolding fips_digest
digest_lem m h = ap unhex (sha256-fips m h) ∙ unhex-hex_text (fips_digest m) (words_bytes_lem _).1

block_key_lem :
    (key : Bytes)
    → length key * 8 < 2 ^ 64
    → block_key key ≡ (if ltb 64 (length key) then fips_digest key else key)
unfolding block_key sha256
block_key_lem key h = ap (λ (d : Bytes). if ltb 64 (length key) then d else key) (digest_lem key h)

pad_lem :
    (p : ℕ) (key : Bytes)
    → bit_xor p 0 ≡ p
    → length key * 8 < 2 ^ 64
    → xor_into (replicate 64 p) (block_key key) ≡ xor_bytes (replicate 64 p) (padded_key key)
pad_lem p key z h =
    xor_into-xor_bytes 64 p (block_key key) z (length-block_key key)
    ∙ ap (λ k. xor_bytes (replicate 64 p) (k ++ replicate (64 - length k) 0)) (block_key_lem key h)

-- `hmac_sha256_raw` is the HMAC of RFC 2104 over the SHA-256 of FIPS 180-4, for every key and every
-- message that the standard lets be hashed.
pub hmac_sha256_raw-rfc :
    (key text : Bytes)
    → length key * 8 < 2 ^ 64
    → (64 + length text) * 8 < 2 ^ 64
    → hmac_sha256_raw key text ≡ rfc_hmac key text
unfolding hmac_sha256_raw hmac_raw
hmac_sha256_raw-rfc key text short fits =
    let opad = xor_into (replicate 64 0x5c) (block_key key) in
    let ipad = xor_into (replicate 64 0x36) (block_key key) in
    let inner = unhex (sha256 (ipad ++ text)) in
    let inner_fits : length (ipad ++ text) * 8 < 2 ^ 64 =
      omega (arith, length-append ipad text, length-pad 0x36 (block_key key)) in
    let outer_fits : length (opad ++ inner) * 8 < 2 ^ 64 = omega (
      arith,
      length-append opad inner,
      length-pad 0x5c (block_key key),
      length-unhex (sha256 (ipad ++ text)),
      length-sha256 (ipad ++ text),
    ) in
    ap unhex (
      final_hex-update opad (unhex (final_hex (update (update init ipad) text)))
      ∙ ap (λ i. sha256 (opad ++ unhex i)) (final_hex-update ipad text))
    ∙ digest_lem (opad ++ inner) outer_fits
    ∙ ap (λ i. fips_digest (opad ++ i)) (digest_lem (ipad ++ text) inner_fits)
    ∙ ap₂ (λ o i. fips_digest (o ++ fips_digest (i ++ text))) (pad_lem 0x5c key refl short)
        (pad_lem 0x36 key refl short)

-- `hmac_sha256` is the hexadecimal text of that HMAC.
pub hmac_sha256-rfc :
    (key text : Bytes)
    → length key * 8 < 2 ^ 64
    → (64 + length text) * 8 < 2 ^ 64
    → hmac_sha256 key text ≡ hex_text (rfc_hmac key text)
unfolding hmac_sha256 hmac_hex hmac_sha256_raw fips_digest
hmac_sha256-rfc key text short fits =
    ap hex_bytes (hmac_sha256_raw-rfc key text short fits)
    ∙ hex_bytes-hex_text (rfc_hmac key text) (words_bytes_lem _).1
