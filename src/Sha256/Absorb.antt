-- ===== src/Sha256/Absorb.antt =====
-- The buffering loop is a left fold over the bytes, in whatever pieces they come.
use ngx_lua_cpp.Prelude.{
  ℕ, zero, suc, ◌+◌, ◌-◌, ◌%◌, ◌≤◌, ◌<◌, ◌≡◌, refl, sym, ap, ◌∙◌, [], ◌∷◌, ◌++◌, append_assoc,
  length, length-append, length-take, length-drop, take, drop, take-append-drop, min, ◌==◌, arith,
  Bool-cases, inl, inr,
}
use ngx_lua_cpp.Prelude.Text.{Bytes}
use ngx_lua_cpp.Sha256.{Context, flush, absorb}

-- One byte at a time.
abbrev pub absorb_byte : Context → ℕ → Context
absorb_byte c x = flush (record c { buffer = c.buffer ++ x ∷ [] })

unfoldable pub absorb_all : Context → Bytes → Context
absorb_all c [] = c
absorb_all c (x ∷ xs) = absorb_all (absorb_byte c x) xs

pub absorb_all-append :
    (c : Context) (xs ys : Bytes) → absorb_all c (xs ++ ys) ≡ absorb_all (absorb_all c xs) ys
unfolding absorb_all
absorb_all-append c [] ys = refl
absorb_all-append c (x ∷ xs) ys = absorb_all-append (absorb_byte c x) xs ys

pub flush_short : (c : Context) → length c.buffer < 64 → flush c ≡ c
flush_short c h = ground arith

flush_room : (c : Context) → length c.buffer ≤ 64 → length (flush c).buffer < 64
flush_room c h = ground arith

-- What fits the buffer is copied at once.
pub absorb_all_fill :
    (c : Context) (x : ℕ) (xs : Bytes)
    → length c.buffer + length (x ∷ xs) ≤ 64
    → absorb_all c (x ∷ xs) ≡ flush (record c { buffer = c.buffer ++ x ∷ xs })
unfolding absorb_all
absorb_all_fill c x [] h = refl
absorb_all_fill c x (y ∷ ys) h =
    let c' : Context = record c { buffer = c.buffer ++ x ∷ [] } in
    let short : flush c' ≡ c' = flush_short c' (omega (arith, length-append c.buffer (x ∷ []))) in
    rw short (
      absorb_all_fill c' y ys (omega (arith, length-append c.buffer (x ∷ [])))
      ∙ rw (append_assoc c.buffer (x ∷ []) (y ∷ ys)))

-- A round that takes `m + 1` bytes.
absorb_round :
    (fuel : ℕ) (c : Context) (x : ℕ) (xs : Bytes) (m : ℕ)
    → min (suc (length xs)) (64 - length c.buffer) ≡ suc m
    → absorb (suc fuel) c (x ∷ xs)
      ≡ absorb fuel (flush (record c { buffer = c.buffer ++ x ∷ take m xs })) (drop m xs)
unfolding absorb
absorb_round fuel c x xs m h =
    ap
      (λ n.
        absorb fuel (flush (record c { buffer = c.buffer ++ take n (x ∷ xs) })) (drop n (x ∷ xs)))
      h

-- As many rounds as there are bytes are enough, and the loop is the fold.
pub absorb-absorb_all :
    (fuel : ℕ) (c : Context) (xs : Bytes)
    → length xs ≤ fuel
    → length c.buffer < 64
    → absorb fuel c xs ≡ absorb_all c xs
unfolding absorb absorb_all
absorb-absorb_all fuel c [] h room = refl
absorb-absorb_all zero c (x ∷ xs) h room = absurd (omega arith)
absorb-absorb_all (suc fuel) c (x ∷ xs) h room =
    let n = min (suc (length xs)) (64 - length c.buffer) in
    let m = n - 1 in
    let some_room : n ≡ suc m = omega arith in
    let c' : Context = flush (record c { buffer = c.buffer ++ x ∷ take m xs }) in
    let rest = absorb-absorb_all fuel c' (drop m xs) (omega (arith, length-drop m xs)) (
      flush_room (record c { buffer = c.buffer ++ x ∷ take m xs })
        (omega (arith, length-append c.buffer (x ∷ take m xs), length-take m xs))) in
    let filled : absorb_all c (x ∷ take m xs) ≡ c' =
      absorb_all_fill c x (take m xs) (omega (arith, length-take m xs)) in
    absorb_round fuel c x xs m some_room
    ∙ rest
    ∙ ap (λ s. absorb_all s (drop m xs)) (sym filled)
    ∙ sym (absorb_all-append c (x ∷ take m xs) (drop m xs))
    ∙ ap (λ l. absorb_all c (x ∷ l)) (take-append-drop m xs)

length-flush :
    (c : Context) (xs : Bytes) (n : ℕ)
    → length c.buffer ≡ n + 1
    → (length (flush c).buffer + length xs) % 64 ≡ (n + suc (length xs)) % 64
length-flush c xs n h = elim (Bool-cases (length c.buffer == 64)) [
  | inl full ↦ rw full (ground arith)
  | inr short ↦ rw short (omega arith)
]

-- The buffer holds what is left over from whole blocks.
pub length-absorb_all :
    (c : Context) (xs : Bytes)
    → length c.buffer < 64
    → length (absorb_all c xs).buffer ≡ (length c.buffer + length xs) % 64
unfolding absorb_all
length-absorb_all c [] room = ground arith
length-absorb_all c (x ∷ xs) room =
    let c' : Context = record c { buffer = c.buffer ++ x ∷ [] } in
    let grows = length-append c.buffer (x ∷ []) in
    length-absorb_all (absorb_byte c x) xs (flush_room c' (omega arith))
    ∙ length-flush c' xs (length c.buffer) grows

pub bit_len-absorb_all : (c : Context) (xs : Bytes) → (absorb_all c xs).bit_len ≡ c.bit_len
unfolding absorb_all
bit_len-absorb_all c [] = refl
bit_len-absorb_all c (x ∷ xs) = bit_len-absorb_all (absorb_byte c x) xs ∙ ground arith

pub flush_bits :
    (c : Context) (bits : ℕ)
    → flush (record c { bit_len = bits }) ≡ record (flush c) { bit_len = bits }
flush_bits c bits = ground arith
