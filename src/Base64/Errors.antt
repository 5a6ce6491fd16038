-- ===== src/Base64/Errors.antt =====
-- Which inputs the decoder accepts.
use ngx_lua_cpp.Prelude.{
  ℕ, ◌<◌, ◌≡◌, refl, ◌∙◌, sym, Bool, true, false, [], ◌∷◌, ◌==◌, ltb, if◌then◌else◌, has,
  Option-cases, Bool-cases, inl, inr, all_below, all_below_sound, arith, ◌||◌, ◌&&◌, not,
}
use ngx_lua_cpp.Prelude.Text.{Bytes, codes}
use ngx_lua_cpp.Base64.{char_value, feed, decode_loop, base64url_decode}

-- The alphabet of RFC 4648, section 5, and whether a character is in it.
abbrev pub alphabet : Bytes
alphabet = codes "ABCDEFGHIJKLMNOPQRSTUVWXYZabcdefghijklmnopqrstuvwxyz0123456789-_"

unfoldable pub contains : ℕ → Bytes → Bool
contains c [] = false
contains c (x ∷ xs) = c == x || contains c xs

-- Every character before the first '=' is of the alphabet.
abbrev pub valid_prefix : Bytes → Bool
valid_prefix [] = true
valid_prefix (c ∷ rest) =
    if c == b'=' then true else if contains c alphabet then valid_prefix rest else false

abbrev agree : ℕ → Bool
agree c = if has (char_value c) then contains c alphabet else not (contains c alphabet)

agree_checked : all_below 128 agree ≡ true
unfolding all_below char_value contains
agree_checked = refl

&&-true : (b b' : Bool) → b && b' ≡ true → (b ≡ true) × (b' ≡ true)
&&-true true b' h = (refl, h)
&&-true false b' h = absurd (ground (arith, h))

agree_lem : (b b' : Bool) → (if b then b' else not b') ≡ true → b ≡ b'
agree_lem true b' h = sym h
agree_lem false true h = h
agree_lem false false h = refl

all_small : Bytes → Bool
all_small [] = true
all_small (x ∷ xs) = ltb x 128 && all_small xs

contains-large : (c : ℕ) (xs : Bytes) → 127 < c → all_small xs ≡ true → contains c xs ≡ false
unfolding contains all_small
contains-large c [] h a = refl
contains-large c (x ∷ xs) h a =
    let split = &&-true (ltb x 128) (all_small xs) a in
    let other : (c == x) ≡ false = let less = split.0 in ground arith in
    rw other (contains-large c xs h split.1)

char_value-large : (c : ℕ) → 127 < c → has (char_value c) ≡ false
unfolding char_value
char_value-large c h = ground arith

char_value-contains : (c : ℕ) → has (char_value c) ≡ contains c alphabet
char_value-contains c = elim (Bool-cases (ltb c 128)) [
  | inl small ↦
      agree_lem (has (char_value c)) (contains c alphabet)
        (all_below_sound 128 agree c agree_checked (ground arith))
  | inr large ↦
      let h : 127 < c = ground arith in
      char_value-large c h ∙ sym (contains-large c alphabet h (unfold all_small in refl))
]

decode_loop-valid_prefix :
    (text : Bytes) (buf bits : ℕ) (out : Bytes)
    → (decode_loop text buf bits out).1 ≡ valid_prefix text
unfolding decode_loop
decode_loop-valid_prefix [] buf bits out = refl
decode_loop-valid_prefix (c ∷ rest) buf bits out = elim (Bool-cases (c == b'=')) [
  | inl pad ↦ rw pad
  | inr plain ↦
      rw (plain, sym (char_value-contains c))
        (elim (Option-cases (char_value c)) [
          | inl bad ↦ rw bad
          | inr (v, good) ↦
              let s = feed v buf bits out in
              rw good (decode_loop-valid_prefix rest s.buf s.bits s.out)
        ])
]

-- Decoding reports an error exactly when a character before the first '=' is not of the alphabet of
-- RFC 4648, section 5, and then returns no bytes.
pub base64url_decode_error :
    (text : Bytes)
    → (valid_prefix text ≡ false → base64url_decode text ≡ ([], codes "invalid base64url input"))
      × (valid_prefix text ≡ true → (base64url_decode text).1 ≡ [])
unfolding base64url_decode
base64url_decode_error text = (
  λ bad. rw (decode_loop-valid_prefix text 0 0 [], bad),
  λ good. rw (decode_loop-valid_prefix text 0 0 [], good),
)
