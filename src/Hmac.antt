-- ===== src/Hmac.antt =====
-- HMAC-SHA256 and hexadecimal text: `hmac_sha256_raw_impl`, `hmac_sha256_hex_impl` and
-- `random_hex_impl` of src/ngx_lua_cpp.cpp, with their methods.
pub mod Hex
pub mod Rfc2104
mod Tests
use ngx_lua_cpp.Prelude.{
  clamp, ℕ, zero, suc, ◌+◌, ◌-◌, ◌*◌, ◌/◌, ◌%◌, ◌^◌, Bool, true, false, ◌&&◌, List, [], ◌∷◌, ◌++◌,
  length, replicate, leb, ltb, bit_and, bit_or, bit_xor, if◌then◌else◌,
}
use ngx_lua_cpp.Prelude.Text.{Bytes}
use ngx_lua_cpp.Sha256.{init, update, final_hex, hex, nibble}

-- The lambda `nib`: the value of a hexadecimal character, as a `uint8_t`.
unfoldable pub nib : ℕ → ℕ
nib c =
    if leb b'0' c && leb c b'9' then (c - b'0') % 256 else (bit_or c 0x20 + 256 - b'a' + 10) % 256

-- The loop that turns pairs of hexadecimal characters into bytes; an odd last one is dropped.
unfoldable pub unhex : Bytes → Bytes
unhex (a ∷ b ∷ rest) = bit_or (nib a * 2 ^ 4) (nib b) % 256 ∷ unhex rest
unhex _ = []

-- `pad[i] ^= k[i]` for the bytes of `k`.
unfoldable pub xor_into : Bytes → Bytes → Bytes
xor_into (p ∷ ps) (x ∷ k) = bit_xor p x ∷ xor_into ps k
xor_into ps _ = ps

-- A key that is longer than a block is replaced by its digest.
unfoldable pub block_key : Bytes → Bytes
unfolding unhex
block_key key = if ltb 64 (length key) then unhex (hex key) else key

unfoldable pub hmac_raw : Bytes → Bytes → Bytes
hmac_raw key data_ =
    let k = block_key key in
    let ipad = xor_into (replicate 64 0x36) k in
    let opad = xor_into (replicate 64 0x5c) k in
    let inner = final_hex (update (update init ipad) data_) in
    let inner_raw = unhex inner in
    let outer = final_hex (update (update init opad) inner_raw) in unhex outer

unfoldable pub hex_bytes : Bytes → Bytes
hex_bytes [] = []
hex_bytes (c ∷ raw) = nibble (c / 2 ^ 4) ∷ nibble (bit_and c 0xf) ∷ hex_bytes raw

unfoldable pub hmac_hex : Bytes → Bytes → Bytes
hmac_hex key data_ = hex_bytes (hmac_raw key data_)

-- The loop of `random_hex_impl`; `rng` lists what the generator returns.
unfoldable pub random_loop : ℕ → (ℕ → ℕ) → ℕ → Bytes
random_loop zero rng i = []
random_loop (suc n) rng i =
    nibble (bit_and (rng i) 0xf) ∷ nibble (bit_and (rng i / 2 ^ 4) 0xf) ∷ random_loop n rng (i + 1)

-- The methods.
unfoldable pub hmac_sha256 : Bytes → Bytes → Bytes
hmac_sha256 key data_ = hmac_hex key data_

unfoldable pub hmac_sha256_raw : Bytes → Bytes → Bytes
hmac_sha256_raw key data_ = hmac_raw key data_

unfoldable pub random_hex : (ℕ → ℕ) → ℕ → Bytes
random_hex rng nbytes = random_loop (clamp nbytes 1 1024) rng 0
