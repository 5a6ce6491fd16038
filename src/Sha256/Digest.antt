-- ===== src/Sha256/Digest.antt =====
-- The shape of a digest: 64 hexadecimal characters.
use ngx_lua_cpp.Prelude.{
  ℕ, zero, suc, ◌+◌, ◌*◌, ◌≡◌, refl, List, [], ◌∷◌, ◌++◌, length, ◌==◌, arith, Bool-cases, inl, inr,
  ◌^◌, ◌%◌, ◌-◌, min, take, drop,
}
use ngx_lua_cpp.Prelude.Text.{Bytes}
use ngx_lua_cpp.Sha256.{
  Context, flush, init, absorb, update, padding, final_hex, hex, hex_word, hex_state, sha256,
}
use ngx_lua_cpp.Sha256.Transform.{Word, transform}

length-hex_state : (vs : List Word) → length (hex_state vs) ≡ 8 * length vs
unfolding hex_state hex_word
length-hex_state [] = omega arith
length-hex_state (v ∷ vs) = omega (arith, length-hex_state vs)

length-transform : (state : List Word) (block : Bytes) → length (transform state block) ≡ 8
unfolding transform
length-transform state block = omega arith

flush_state : (c : Context) → length c.state ≡ 8 → length (flush c).state ≡ 8
flush_state c h = elim (Bool-cases (length c.buffer == 64)) [
  | inl full ↦ rw full (length-transform c.state c.buffer)
  | inr short ↦ rw short h
]

absorb_state :
    (fuel : ℕ) (c : Context) (xs : Bytes) → length c.state ≡ 8 → length (absorb fuel c xs).state ≡ 8
unfolding absorb
absorb_state zero c [] h = h
absorb_state (suc fuel) c [] h = h
absorb_state zero c (x ∷ xs) h = h
absorb_state (suc fuel) c (x ∷ xs) h =
    let n = min (suc (length xs)) (64 - length c.buffer) in
    let c' : Context = record c { buffer = c.buffer ++ take n (x ∷ xs) } in
    absorb_state fuel (flush c') (drop n (x ∷ xs)) (flush_state c' h)

pub length-sha256 : (bytes : Bytes) → length (sha256 bytes) ≡ 64
unfolding sha256 hex final_hex update init
length-sha256 bytes =
    let c : Context = update init bytes in
    let h : length c.state ≡ 8 =
      absorb_state (length bytes)
        (record init { bit_len = (0 + length bytes * 8 % 2 ^ 64) % 2 ^ 64 }) bytes refl in
    let end : length (absorb (length (padding c)) c (padding c)).state ≡ 8 =
      absorb_state (length (padding c)) c (padding c) h in
    omega (arith, end, length-hex_state (absorb (length (padding c)) c (padding c)).state)
