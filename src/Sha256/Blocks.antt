-- ===== src/Sha256/Blocks.antt =====
-- The code is equivalent to the standard: the buffering to the blocks of the padded message, and the
-- text that is printed to the bytes of the digest.
use ngx_lua_cpp.Prelude.{
  ℕ, zero, suc, ◌+◌, ◌-◌, ◌*◌, ◌/◌, ◌%◌, ◌^◌, ◌<◌, ◌≡◌, refl, sym, ap, ◌∙◌, List, [], ◌∷◌, length,
  length-append, length-take, length-drop, length-replicate, take, drop, take-append-drop,
  replicate, arith, ltb, if◌then◌else◌,
}
use ngx_lua_cpp.Prelude.Text.{Bytes}
use ngx_lua_cpp.Sha256.{
  Context, initial_state, init, absorb, update, padding, final_hex, hex, hex_state, sha256,
}
use ngx_lua_cpp.Sha256.Transform.{Word, transform}
use ngx_lua_cpp.Sha256.Fips.{
  initial_hash, hash_block, hash_blocks, fips_padding, fips_message, number_bytes, fips_digest,
  hex_text,
}
use ngx_lua_cpp.Sha256.Compression.{initial_state-roots, transform-hash_block}
use ngx_lua_cpp.Sha256.Printing.{hex_state_lem, big_endian64_lem}
use ngx_lua_cpp.Sha256.Absorb.{
  absorb_all, absorb_all-append, absorb_all_fill, absorb-absorb_all, length-absorb_all,
  bit_len-absorb_all,
}

-- Whole blocks from an empty buffer leave it empty.
absorb_transform :
    (state : List Word) (bits : ℕ) (bytes : Bytes)
    → length bytes ≡ 64
    → absorb_all (record { state = state; bit_len = bits; buffer = [] }) bytes
      ≡ record { state = transform state bytes; bit_len = bits; buffer = [] }
absorb_transform state bits [] h = absurd (omega arith)
absorb_transform state bits (x ∷ xs) h =
    absorb_all_fill (record { state = state; bit_len = bits; buffer = [] }) x xs (omega arith)
    ∙ ground arith

absorb_block :
    (state : List Word) (bits : ℕ) (bytes : Bytes)
    → length bytes ≡ 64
    → absorb_all (record { state = state; bit_len = bits; buffer = [] }) bytes
      ≡ record { state = hash_block state bytes; bit_len = bits; buffer = [] }
absorb_block state bits bytes h =
    absorb_transform state bits bytes h
    ∙ ap (λ (t : List Word). record { state = t; bit_len = bits; buffer = [] })
        (transform-hash_block state bytes)

absorb_blocks :
    (n : ℕ) (state : List Word) (bits : ℕ) (bytes : Bytes)
    → length bytes ≡ 64 * n
    → absorb_all (record { state = state; bit_len = bits; buffer = [] }) bytes
      ≡ record { state = hash_blocks n state bytes; bit_len = bits; buffer = [] }
unfolding hash_blocks
absorb_blocks zero state bits [] h = unfold absorb_all in refl
absorb_blocks zero state bits (x ∷ xs) h = absurd (omega arith)
absorb_blocks (suc n) state bits bytes h =
    let c : Context = record { state = state; bit_len = bits; buffer = [] } in
    ap (absorb_all c) (sym (take-append-drop 64 bytes))
    ∙ absorb_all-append c (take 64 bytes) (drop 64 bytes)
    ∙ ap (λ s. absorb_all s (drop 64 bytes))
        (absorb_block state bits (take 64 bytes) (omega (arith, length-take 64 bytes)))
    ∙ absorb_blocks n (hash_block state (take 64 bytes)) bits (drop 64 bytes)
        (omega (arith, length-drop 64 bytes))

length-fips_message : (bytes : Bytes) → length (fips_message bytes) % 64 ≡ 0
length-fips_message bytes =
    let zeros : Bytes = replicate ((119 - length bytes % 64) % 64) 0 in
    omega (
      arith,
      length-append bytes (fips_padding (length bytes)),
      length-append zeros (number_bytes 8 (length bytes * 8)),
      length-replicate {A = ℕ} ((119 - length bytes % 64) % 64) 0,
    )

-- The context after the whole message.
abbrev after : Bytes → Context
after bytes =
    absorb_all (record { state = initial_state; bit_len = length bytes * 8; buffer = [] }) bytes

update-init : (bytes : Bytes) → length bytes * 8 < 2 ^ 64 → update init bytes ≡ after bytes
unfolding update init
update-init bytes h =
    let bits : (0 + length bytes * 8 % 2 ^ 64) % 2 ^ 64 ≡ length bytes * 8 = omega arith in
    rw bits (absorb-absorb_all (length bytes) _ bytes (omega arith) (omega arith))

zeros_lem :
    (used : ℕ)
    → used < 64
    → (if ltb used 56 then 56 - used - 1 else 120 - used - 1) ≡ (119 - used) % 64
zeros_lem used h = ground arith

padding-fips : (bytes : Bytes) → padding (after bytes) ≡ fips_padding (length bytes)
padding-fips bytes =
    let start : Context = record {
      state = initial_state;
      bit_len = length bytes * 8;
      buffer = [];
    } in
    let left : length (after bytes).buffer ≡ length bytes % 64 =
      length-absorb_all start bytes (omega arith) ∙ omega arith in
    rw (
      left,
      bit_len-absorb_all start bytes,
      zeros_lem (length bytes % 64) (omega arith),
      big_endian64_lem (length bytes * 8),
    )

-- The code prints the digest that FIPS 180-4 defines, in hexadecimal, for every message that the
-- standard admits.
pub sha256-fips :
    (bytes : Bytes) → length bytes * 8 < 2 ^ 64 → sha256 bytes ≡ hex_text (fips_digest bytes)
unfolding sha256 hex final_hex fips_digest
sha256-fips bytes h =
    let start : Context = record {
      state = initial_state;
      bit_len = length bytes * 8;
      buffer = [];
    } in
    let message = fips_message bytes in
    let n = length message / 64 in
    let room : length (after bytes).buffer < 64 =
      omega (arith, length-absorb_all start bytes (omega arith)) in
    let whole : length message ≡ 64 * n = omega (arith, length-fips_message bytes) in
    ap (λ c. hex_state (absorb (length (padding c)) c (padding c)).state) (update-init bytes h)
    ∙ ap (λ c. hex_state c.state)
        (absorb-absorb_all (length (padding (after bytes))) (after bytes) (padding (after bytes))
            (omega arith) room
          ∙ ap (absorb_all (after bytes)) (padding-fips bytes)
          ∙ sym (absorb_all-append start bytes (fips_padding (length bytes)))
          ∙ absorb_blocks n initial_state (length bytes * 8) message whole)
    ∙ ap (λ (h0 : List Word). hex_state (hash_blocks n h0 message)) initial_state-roots
    ∙ hex_state_lem (hash_blocks n initial_hash message)
