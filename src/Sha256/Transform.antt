-- ===== src/Sha256/Transform.antt =====
-- The compression function `sha256_transform`.
use ngx_lua_cpp.Prelude.{
  ℕ, zero, suc, ◌+◌, ◌-◌, ◌*◌, ◌/◌, ◌%◌, ◌^◌, List, [], ◌∷◌, ◌++◌, get_or, bit_and, bit_or, bit_xor,
}
use ngx_lua_cpp.Prelude.Text.{Bytes}

-- A `uint32_t`.
abbrev pub Word : Type 0
Word = ℕ

abbrev pub sha256_k : List Word
sha256_k =
    0x428a2f98 ∷ 0x71374491 ∷ 0xb5c0fbcf ∷ 0xe9b5dba5 ∷ 0x3956c25b ∷ 0x59f111f1 ∷ 0x923f82a4
    ∷ 0xab1c5ed5 ∷ 0xd807aa98 ∷ 0x12835b01 ∷ 0x243185be ∷ 0x550c7dc3 ∷ 0x72be5d74 ∷ 0x80deb1fe
    ∷ 0x9bdc06a7 ∷ 0xc19bf174 ∷ 0xe49b69c1 ∷ 0xefbe4786 ∷ 0x0fc19dc6 ∷ 0x240ca1cc ∷ 0x2de92c6f
    ∷ 0x4a7484aa ∷ 0x5cb0a9dc ∷ 0x76f988da ∷ 0x983e5152 ∷ 0xa831c66d ∷ 0xb00327c8 ∷ 0xbf597fc7
    ∷ 0xc6e00bf3 ∷ 0xd5a79147 ∷ 0x06ca6351 ∷ 0x14292967 ∷ 0x27b70a85 ∷ 0x2e1b2138 ∷ 0x4d2c6dfc
    ∷ 0x53380d13 ∷ 0x650a7354 ∷ 0x766a0abb ∷ 0x81c2c92e ∷ 0x92722c85 ∷ 0xa2bfe8a1 ∷ 0xa81a664b
    ∷ 0xc24b8b70 ∷ 0xc76c51a3 ∷ 0xd192e819 ∷ 0xd6990624 ∷ 0xf40e3585 ∷ 0x106aa070 ∷ 0x19a4c116
    ∷ 0x1e376c08 ∷ 0x2748774c ∷ 0x34b0bcb5 ∷ 0x391c0cb3 ∷ 0x4ed8aa4a ∷ 0x5b9cca4f ∷ 0x682e6ff3
    ∷ 0x748f82ee ∷ 0x78a5636f ∷ 0x84c87814 ∷ 0x8cc70208 ∷ 0x90befffa ∷ 0xa4506ceb ∷ 0xbef9a3f7
    ∷ 0xc67178f2 ∷ []

unfoldable pub rotr : Word → ℕ → Word
rotr x n = bit_or (x / 2 ^ n) (x * 2 ^ (32 - n) % 2 ^ 32)

abbrev pub add32 : Word → Word → Word
add32 a b = (a + b) % 2 ^ 32

-- `~x`
abbrev pub complement : Word → Word
complement x = 2 ^ 32 - 1 - x

-- The sixteen words of a block, big-endian.
unfoldable pub load_words : ℕ → ℕ → Bytes → List Word
load_words zero i block = []
load_words (suc n) i block =
    bit_or
      (bit_or
        (bit_or (get_or block (i * 4) 0 * 2 ^ 24 % 2 ^ 32) (get_or block (i * 4 + 1) 0 * 2 ^ 16))
        (get_or block (i * 4 + 2) 0 * 2 ^ 8))
      (get_or block (i * 4 + 3) 0)
    ∷ load_words n (i + 1) block

-- The loop that extends the schedule: `n` rounds from the index `i`.
unfoldable pub extend : ℕ → ℕ → List Word → List Word
extend zero i w = w
extend (suc n) i w =
    let w15 = get_or w (i - 15) 0 in
    let w2 = get_or w (i - 2) 0 in
    let s0 = bit_xor (bit_xor (rotr w15 7) (rotr w15 18)) (w15 / 2 ^ 3) in
    let s1 = bit_xor (bit_xor (rotr w2 17) (rotr w2 19)) (w2 / 2 ^ 10) in
    let next = add32 (add32 (add32 (get_or w (i - 16) 0) s0) (get_or w (i - 7) 0)) s1 in
    extend n (i + 1) (w ++ next ∷ [])

pub record Vars : Type 0 where
  pub a : Word
  pub b : Word
  pub c : Word
  pub d : Word
  pub e : Word
  pub f : Word
  pub g : Word
  pub h : Word

unfoldable pub round : Word → Word → Vars → Vars
unfolding rotr
round k w v =
    let s1 = bit_xor (bit_xor (rotr v.e 6) (rotr v.e 11)) (rotr v.e 25) in
    let ch = bit_xor (bit_and v.e v.f) (bit_and (complement v.e) v.g) in
    let temp1 = add32 (add32 (add32 (add32 v.h s1) ch) k) w in
    let s0 = bit_xor (bit_xor (rotr v.a 2) (rotr v.a 13)) (rotr v.a 22) in
    let maj = bit_xor (bit_xor (bit_and v.a v.b) (bit_and v.a v.c)) (bit_and v.b v.c) in
    let temp2 = add32 s0 maj in
    record {
      a = add32 temp1 temp2;
      b = v.a;
      c = v.b;
      d = v.c;
      e = add32 v.d temp1;
      f = v.e;
      g = v.f;
      h = v.g;
    }

-- The 64 rounds: the constants and the schedule word by word.
unfoldable pub rounds : List Word → List Word → Vars → Vars
rounds (k ∷ ks) (w ∷ ws) v = rounds ks ws (round k w v)
rounds _ _ v = v

unfoldable pub transform : List Word → Bytes → List Word
unfolding load_words extend rounds round
transform state block =
    let s = λ (i : ℕ). get_or state i 0 in
    let w = extend 48 16 (load_words 16 0 block) in
    let v =
      rounds sha256_k w
        (record { a = s 0; b = s 1; c = s 2; d = s 3; e = s 4; f = s 5; g = s 6; h = s 7 }) in
    add32 (s 0) v.a
    ∷ add32 (s 1) v.b
    ∷ add32 (s 2) v.c
    ∷ add32 (s 3) v.d
    ∷ add32 (s 4) v.e
    ∷ add32 (s 5) v.f
    ∷ add32 (s 6) v.g
    ∷ add32 (s 7) v.h
    ∷ []
