-- ===== src/Sha256/Fips.antt =====
-- SHA-256 as FIPS 180-4 defines it, written out from the standard (the numbers are of its sections),
-- with nothing of the code.
use ngx_lua_cpp.Prelude.{
  ℕ, zero, suc, ◌+◌, ◌-◌, ◌*◌, ◌/◌, ◌%◌, ◌^◌, List, [], ◌∷◌, ◌++◌, map, length, take, drop,
  replicate, get_or, leb, ltb, bit_and, bit_or, bit_xor, if◌then◌else◌,
}
use ngx_lua_cpp.Prelude.Text.{Bytes}

-- 4.2.2 and 5.3.3: the first 32 bits of the fractional parts of the square roots of the first eight
-- primes, and of the cube roots of the first sixty-four. `root` finds the largest number of `bits` bits
-- whose power is not above `n`, a bit at a time.
abbrev pub primes : List ℕ
primes =
    2 ∷ 3 ∷ 5 ∷ 7 ∷ 11 ∷ 13 ∷ 17 ∷ 19 ∷ 23 ∷ 29 ∷ 31 ∷ 37 ∷ 41 ∷ 43 ∷ 47 ∷ 53 ∷ 59 ∷ 61 ∷ 67 ∷ 71
    ∷ 73 ∷ 79 ∷ 83 ∷ 89 ∷ 97 ∷ 101 ∷ 103 ∷ 107 ∷ 109 ∷ 113 ∷ 127 ∷ 131 ∷ 137 ∷ 139 ∷ 149 ∷ 151 ∷ 157
    ∷ 163 ∷ 167 ∷ 173 ∷ 179 ∷ 181 ∷ 191 ∷ 193 ∷ 197 ∷ 199 ∷ 211 ∷ 223 ∷ 227 ∷ 229 ∷ 233 ∷ 239 ∷ 241
    ∷ 251 ∷ 257 ∷ 263 ∷ 269 ∷ 271 ∷ 277 ∷ 281 ∷ 283 ∷ 293 ∷ 307 ∷ 311 ∷ []

unfoldable pub root : ℕ → ℕ → ℕ → ℕ → ℕ
root power n zero r = r
root power n (suc bits) r =
    root power n bits (if leb ((r + 2 ^ bits) ^ power) n then r + 2 ^ bits else r)

abbrev pub fraction : ℕ → ℕ → ℕ
fraction power p = root power (p * 2 ^ (32 * power)) 36 0 % 2 ^ 32

abbrev pub initial_hash : List ℕ
initial_hash = map (fraction 2) (take 8 primes)

abbrev pub constants : List ℕ
constants = map (fraction 3) primes

-- 3.2 and 4.1.2: the operations on words, and the six functions.
abbrev pub rotate : ℕ → ℕ → ℕ
rotate n x = bit_or (x / 2 ^ n) (x * 2 ^ (32 - n) % 2 ^ 32)

abbrev pub choose : ℕ → ℕ → ℕ → ℕ
choose x y z = bit_xor (bit_and x y) (bit_and (2 ^ 32 - 1 - x) z)

abbrev pub majority : ℕ → ℕ → ℕ → ℕ
majority x y z = bit_xor (bit_xor (bit_and x y) (bit_and x z)) (bit_and y z)

abbrev pub big_sigma0 : ℕ → ℕ
big_sigma0 x = bit_xor (bit_xor (rotate 2 x) (rotate 13 x)) (rotate 22 x)

abbrev pub big_sigma1 : ℕ → ℕ
big_sigma1 x = bit_xor (bit_xor (rotate 6 x) (rotate 11 x)) (rotate 25 x)

abbrev pub small_sigma0 : ℕ → ℕ
small_sigma0 x = bit_xor (bit_xor (rotate 7 x) (rotate 18 x)) (x / 2 ^ 3)

abbrev pub small_sigma1 : ℕ → ℕ
small_sigma1 x = bit_xor (bit_xor (rotate 17 x) (rotate 19 x)) (x / 2 ^ 10)

-- 5.2.1: the sixteen words of a block.
abbrev pub block_word : Bytes → ℕ → ℕ
block_word block t =
    let byte = λ (j : ℕ). get_or block (t * 4 + j) 0 in
    bit_or (bit_or (bit_or (byte 0 * 2 ^ 24 % 2 ^ 32) (byte 1 * 2 ^ 16)) (byte 2 * 2 ^ 8)) (byte 3)

abbrev pub block_words : Bytes → List ℕ
block_words block =
    map (block_word block)
      (0 ∷ 1 ∷ 2 ∷ 3 ∷ 4 ∷ 5 ∷ 6 ∷ 7 ∷ 8 ∷ 9 ∷ 10 ∷ 11 ∷ 12 ∷ 13 ∷ 14 ∷ 15 ∷ [])

-- 6.2.2, step 1: the words that follow those of the block, `t` being the first.
unfoldable pub schedule : ℕ → List ℕ → List ℕ
schedule zero w = w
schedule (suc n) w =
    let word = λ (back : ℕ). get_or w (length w - back) 0 in
    let next = (small_sigma1 (word 2) + word 7 + small_sigma0 (word 15) + word 16) % 2 ^ 32 in
    schedule n (w ++ next ∷ [])

-- 6.2.2, steps 2 and 3: the working variables through the rounds.
unfoldable pub compress : List ℕ → List ℕ → ℕ → ℕ → ℕ → ℕ → ℕ → ℕ → ℕ → ℕ → List ℕ
compress (k ∷ ks) (w ∷ ws) a b c d e f g h =
    let t1 = h + big_sigma1 e + choose e f g + k + w in
    let t2 = big_sigma0 a + majority a b c in
    compress ks ws ((t1 + t2) % 2 ^ 32) a b c ((d + t1) % 2 ^ 32) e f g
compress [] _ a b c d e f g h = a ∷ b ∷ c ∷ d ∷ e ∷ f ∷ g ∷ h ∷ []
compress (_ ∷ _) [] a b c d e f g h = a ∷ b ∷ c ∷ d ∷ e ∷ f ∷ g ∷ h ∷ []

-- 6.2.2, step 4: the next hash value.
abbrev pub add_words : List ℕ → List ℕ → List ℕ
add_words (x ∷ xs) (y ∷ ys) = (x + y) % 2 ^ 32 ∷ add_words xs ys
add_words _ _ = []

abbrev pub hash_block : List ℕ → Bytes → List ℕ
hash_block state block =
    let s = λ (i : ℕ). get_or state i 0 in
    add_words (s 0 ∷ s 1 ∷ s 2 ∷ s 3 ∷ s 4 ∷ s 5 ∷ s 6 ∷ s 7 ∷ []) (
      compress constants (schedule 48 (block_words block)) (s 0) (s 1) (s 2) (s 3) (s 4) (s 5) (s 6)
        (s 7))

-- `n` blocks of 64 bytes.
unfoldable pub hash_blocks : ℕ → List ℕ → Bytes → List ℕ
hash_blocks zero state bytes = state
hash_blocks (suc n) state bytes = hash_blocks n (hash_block state (take 64 bytes)) (drop 64 bytes)

-- The `n` bytes of a number, the highest first.
abbrev pub number_bytes : ℕ → ℕ → Bytes
number_bytes zero v = []
number_bytes (suc n) v = number_bytes n (v / 256) ++ v % 256 ∷ []

-- 5.1.1: a one bit, the fewest zero bits that leave room for the length in whole blocks, and the length
-- of the message in bits.
abbrev pub fips_padding : ℕ → Bytes
fips_padding len = 0x80 ∷ replicate ((119 - len % 64) % 64) 0 ++ number_bytes 8 (len * 8)

abbrev pub fips_message : Bytes → Bytes
fips_message bytes = bytes ++ fips_padding (length bytes)

unfoldable pub words_bytes : List ℕ → Bytes
words_bytes [] = []
words_bytes (v ∷ vs) = number_bytes 4 v ++ words_bytes vs

-- The digest, as 32 bytes.
unfoldable pub fips_digest : Bytes → Bytes
fips_digest bytes =
    words_bytes (hash_blocks (length (fips_message bytes) / 64) initial_hash (fips_message bytes))

-- Bytes as hexadecimal text.
abbrev pub hex_character : ℕ → ℕ
hex_character d = if ltb d 10 then b'0' + d else b'a' + (d - 10)

unfoldable pub hex_text : Bytes → Bytes
hex_text [] = []
hex_text (x ∷ xs) = hex_character (x / 16) ∷ hex_character (x % 16) ∷ hex_text xs
