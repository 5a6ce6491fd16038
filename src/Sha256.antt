-- ===== src/Sha256.antt =====
-- SHA-256: `sha256_ctx_t` and the functions `sha256_*` of src/ngx_lua_cpp.cpp. A `uint32_t` is a
-- number below 2 ^ 32 with the wrap written out.
pub mod Transform
pub mod Absorb
pub mod Fips
pub mod Compression
pub mod Printing
pub mod Blocks
pub mod Digest
pub mod Stream
mod Tests
use Transform.{Word, transform}
use ngx_lua_cpp.Prelude.{
  ℕ, zero, suc, ◌+◌, ◌-◌, ◌*◌, ◌/◌, ◌%◌, ◌^◌, Bool, true, false, List, [], ◌∷◌, ◌++◌, length, take,
  drop, replicate, min, ltb, ◌==◌, get_or, bit_and, if◌then◌else◌,
}
use ngx_lua_cpp.Prelude.Text.{Bytes, codes}

-- `buffer` is the first `buffer_len` bytes of the array: the bytes behind them are never read.
pub record Context : Type 0 where
  pub state : List Word
  pub bit_len : ℕ
  pub buffer : Bytes

abbrev pub initial_state : List Word
initial_state =
    0x6a09e667 ∷ 0xbb67ae85 ∷ 0x3c6ef372 ∷ 0xa54ff53a ∷ 0x510e527f ∷ 0x9b05688c ∷ 0x1f83d9ab
    ∷ 0x5be0cd19 ∷ []

unfoldable pub init : Context
init = record { state = initial_state; bit_len = 0; buffer = [] }

-- A buffer that is full is hashed.
abbrev pub flush : Context → Context
flush c =
    if length c.buffer == 64
    then record c { state = transform c.state c.buffer; buffer = [] }
    else c

-- The loop that `update` and `final_hex` share: as much as fits goes into the buffer each round.
unfoldable pub absorb : ℕ → Context → Bytes → Context
absorb fuel c [] = c
absorb zero c (x ∷ xs) = c
absorb (suc fuel) c (x ∷ xs) =
    let len = length (x ∷ xs) in
    let n = min len (64 - length c.buffer) in
    absorb fuel (flush (record c { buffer = c.buffer ++ take n (x ∷ xs) })) (drop n (x ∷ xs))

-- Each round takes a byte at least, so as many rounds as there are bytes are enough.
unfoldable pub update : Context → Bytes → Context
update c data_ =
    absorb (length data_) (record c { bit_len = (c.bit_len + length data_ * 8 % 2 ^ 64) % 2 ^ 64 })
      data_

-- The eight bytes of a `uint64_t`, the highest first.
abbrev pub big_endian64 : ℕ → Bytes
big_endian64 bits =
    bits / 2 ^ 56 % 256
    ∷ bits / 2 ^ 48 % 256
    ∷ bits / 2 ^ 40 % 256
    ∷ bits / 2 ^ 32 % 256
    ∷ bits / 2 ^ 24 % 256
    ∷ bits / 2 ^ 16 % 256
    ∷ bits / 2 ^ 8 % 256
    ∷ bits / 2 ^ 0 % 256
    ∷ []

abbrev pub padding : Context → Bytes
padding c =
    let used = length c.buffer in
    let zeros = if ltb used 56 then 56 - used - 1 else 120 - used - 1 in
    0x80 ∷ replicate zeros 0 ++ big_endian64 c.bit_len

abbrev pub hex_digits : Bytes
hex_digits = codes "0123456789abcdef"

unfoldable pub nibble : ℕ → ℕ
nibble i = get_or hex_digits i 0

unfoldable pub hex_word : Word → Bytes
hex_word v =
    nibble (bit_and (v / 2 ^ 28) 0xf)
    ∷ nibble (bit_and (v / 2 ^ 24) 0xf)
    ∷ nibble (bit_and (v / 2 ^ 20) 0xf)
    ∷ nibble (bit_and (v / 2 ^ 16) 0xf)
    ∷ nibble (bit_and (v / 2 ^ 12) 0xf)
    ∷ nibble (bit_and (v / 2 ^ 8) 0xf)
    ∷ nibble (bit_and (v / 2 ^ 4) 0xf)
    ∷ nibble (bit_and (v / 2 ^ 0) 0xf)
    ∷ []

unfoldable pub hex_state : List Word → Bytes
hex_state [] = []
hex_state (v ∷ vs) = hex_word v ++ hex_state vs

unfoldable pub final_hex : Context → Bytes
final_hex c = hex_state (absorb (length (padding c)) c (padding c)).state

unfoldable pub hex : Bytes → Bytes
hex data_ = final_hex (update init data_)

-- The method `sha256`.
unfoldable pub sha256 : Bytes → Bytes
sha256 data_ = hex data_
