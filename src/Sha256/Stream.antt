-- ===== src/Sha256/Stream.antt =====
-- Hashing in pieces: `update` over any split of the data, and the method `file_sha256`, which feeds
-- the chunks that `fread` returns.
use ngx_lua_cpp.Prelude.{
  ℕ, ◌+◌, ◌*◌, ◌%◌, ◌^◌, ◌≤◌, ◌<◌, ◌≡◌, refl, sym, ap, ◌∙◌, false, Option, none, some, List, [],
  ◌∷◌, ◌++◌, append_assoc, append-nil, length, length-append, ◌==◌, arith, All, if◌then◌else◌,
}
use ngx_lua_cpp.Prelude.Text.{Bytes, codes}
use ngx_lua_cpp.Prelude.Double.{Double, IsDouble}
use ngx_lua_cpp.Sha256.{Context, init, absorb, update, final_hex, hex, sha256}
use ngx_lua_cpp.Sha256.Absorb.{
  absorb_byte, absorb_all, absorb_all-append, absorb-absorb_all, length-absorb_all, flush_bits,
}

absorb_all_bits :
    (c : Context) (bits : ℕ) (xs : Bytes)
    → absorb_all (record c { bit_len = bits }) xs ≡ record (absorb_all c xs) { bit_len = bits }
unfolding absorb_all
absorb_all_bits c bits [] = refl
absorb_all_bits c bits (x ∷ xs) =
    let c' : Context = record c { buffer = c.buffer ++ x ∷ [] } in
    rw (flush_bits c' bits) (absorb_all_bits (absorb_byte c x) bits xs)

abbrev count_bits : Context → Bytes → ℕ
count_bits c xs = (c.bit_len + length xs * 8 % 2 ^ 64) % 2 ^ 64

pub update_lem :
    (c : Context) (xs : Bytes)
    → length c.buffer < 64
    → update c xs ≡ record (absorb_all c xs) { bit_len = count_bits c xs }
unfolding update
update_lem c xs room =
    absorb-absorb_all (length xs) (record c { bit_len = count_bits c xs }) xs (omega arith) room
    ∙ absorb_all_bits c (count_bits c xs) xs

pub update_room :
    (c : Context) (xs : Bytes) → length c.buffer < 64 → length (update c xs).buffer < 64
update_room c xs room = rw (update_lem c xs room) (omega (arith, length-absorb_all c xs room))

-- Hashing two pieces one after the other is hashing them joined.
pub update-append :
    (c : Context) (xs ys : Bytes)
    → length c.buffer < 64
    → update (update c xs) ys ≡ update c (xs ++ ys)
update-append c xs ys room =
    update_lem (update c xs) ys (update_room c xs room)
    ∙ rw (update_lem c xs room) (
        ap (λ (s : Context). record s { bit_len = count_bits (after_first) ys })
          (absorb_all_bits (absorb_all c xs) (count_bits c xs) ys)
        ∙ rw bits (
            ap (λ (s : Context). record s { bit_len = count_bits c (xs ++ ys) })
              (sym (absorb_all-append c xs ys))))
    ∙ sym (update_lem c (xs ++ ys) room)
  where
    after_first : Context
    after_first = record (absorb_all c xs) { bit_len = count_bits c xs }

    bits : count_bits after_first ys ≡ count_bits c (xs ++ ys)
    bits = omega (arith, length-append xs ys)

module _ {D : Type 0} (d : Double D) where
  -- The loop of `file_sha256`: the context and the size, until a read returns nothing.
  unfoldable pub read_loop : List Bytes → Context → D → Context × D
  read_loop [] ctx size = (ctx, size)
  read_loop (chunk ∷ rest) ctx size =
      let more = read_loop rest (update ctx chunk) (d.add size (d.of_nat (length chunk))) in
      if length chunk == 0 then (ctx, size) else more

  -- `file` is what the file system answers: no file, or the results of the reads. `elapsed` is what
  -- the clock measures.
  unfoldable pub file_sha256 : Option (List Bytes) → D → Bytes × D × D
  file_sha256 none elapsed = (codes "file not found", d.of_nat 0, elapsed)
  file_sha256 (some chunks) elapsed =
      let r = read_loop chunks init (d.of_nat 0) in (final_hex r.0, r.1, elapsed)

  abbrev pub joined : List Bytes → Bytes
  joined [] = []
  joined (chunk ∷ rest) = chunk ++ joined rest

  read_loop-update :
      (laws : IsDouble d) (chunks : List Bytes) (prior : Bytes)
      → All (λ chunk. (length chunk == 0) ≡ false) chunks
      → length (prior ++ joined chunks) ≤ 2 ^ 53
      → read_loop chunks (update init prior) (d.of_nat (length prior))
        ≡ (update init (prior ++ joined chunks), d.of_nat (length (prior ++ joined chunks)))
  unfolding read_loop
  read_loop-update laws [] prior h top = rw (append-nil prior)
  read_loop-update laws (chunk ∷ rest) prior h top =
      rw
        (
          h.0,
          update-append init prior chunk (unfold init in omega arith),
          laws.add_exact (length prior) (length chunk) (
              omega (
                arith,
                length-append prior (chunk ++ joined rest),
                length-append chunk (joined rest),
              )),
          ← length-append prior chunk,
          ← append_assoc prior chunk (joined rest),
        )
        (read_loop-update laws rest (prior ++ chunk) h.1
          (rw (append_assoc prior chunk (joined rest)) top))

  -- A file that can be opened is hashed as one message, whatever chunks its reads return (none of
  -- them empty), and its size is the number of its bytes, up to 2 ^ 53 of them.
  pub file_sha256-sha256 :
      (laws : IsDouble d) (chunks : List Bytes) (elapsed : D)
      → All (λ chunk. (length chunk == 0) ≡ false) chunks
      → length (joined chunks) ≤ 2 ^ 53
      → file_sha256 (some chunks) elapsed
        ≡ (sha256 (joined chunks), d.of_nat (length (joined chunks)), elapsed)
  unfolding file_sha256 sha256 hex
  file_sha256-sha256 laws chunks elapsed h top =
      ap (λ (r : Context × D). (final_hex r.0, r.1, elapsed))
        (start ∙ read_loop-update laws chunks [] h top)
    where
      start : read_loop chunks init (d.of_nat 0) ≡ read_loop chunks (update init []) (d.of_nat 0)
      start = unfold init update absorb in refl
