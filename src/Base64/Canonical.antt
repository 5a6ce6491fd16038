-- ===== src/Base64/Canonical.antt =====
-- The texts that the encoder produces.
use ngx_lua_cpp.Prelude.{
  ℕ, ◌+◌, ◌*◌, ◌/◌, ◌%◌, ◌^◌, ◌<◌, ◌≡◌, refl, ◌∙◌, ap, ap₂, Bool, true, false, ◌&&◌, none, some,
  Option-cases, inl, inr, [], ◌∷◌, arith, All, ltb, ◌==◌, all_below, all_below_sound,
}
use ngx_lua_cpp.Prelude.Text.{Bytes}
use ngx_lua_cpp.Base64.{digit, sextet, encode, char_value}
use ngx_lua_cpp.Base64.Arith.{char_value-digit, sextet-digit, bits_three, bits_two}
use ngx_lua_cpp.Base64.RoundTrip.{IsByte}

-- A character that has a value is the digit of that value.
abbrev is_digit_of : ℕ → Bool
is_digit_of c = elim (char_value c) [ none ↦ true | some i ↦ ltb i 64 && digit i == c ]

digits_of_values : all_below 128 is_digit_of ≡ true
unfolding all_below digit char_value
digits_of_values = refl

char_value-lt : (c i : ℕ) → char_value c ≡ some i → c < 128
unfolding char_value
char_value-lt c i h = ground arith

digit-char_value : (c i : ℕ) → char_value c ≡ some i → (i < 64) × (digit i ≡ c)
digit-char_value c i h =
    let test = all_below_sound 128 is_digit_of c digits_of_values (char_value-lt c i h) in
    ground (arith, h)

-- Characters of the alphabet, four to a group; a last group of two or three has no bits left over.
abbrev has_value : ℕ → ℕ → Bool
has_value d c = elim (char_value c) [ none ↦ false | some i ↦ i % d == 0 ]

abbrev pub is_canonical : Bytes → Bool
is_canonical [] = true
is_canonical (a ∷ []) = false
is_canonical (a ∷ b ∷ []) = has_value 1 a && has_value 16 b
is_canonical (a ∷ b ∷ c ∷ []) = has_value 1 a && (has_value 1 b && has_value 4 c)
is_canonical (a ∷ b ∷ c ∷ d ∷ rest) =
    has_value 1 a && (has_value 1 b && (has_value 1 c && (has_value 1 d && is_canonical rest)))

abbrev HasValue : ℕ → ℕ → Type 0
HasValue d c = (i : ℕ) × (char_value c ≡ some i) × (i % d ≡ 0) × (i < 64)

value_of : (d c : ℕ) → has_value d c ≡ true → HasValue d c
value_of d c h = elim (Option-cases (char_value c)) [
  | inl other ↦ absurd (ground arith)
  | inr (i, value) ↦ (i, value, ground (arith, value), (digit-char_value c i value).0)
]

both : {a b : Bool} → (a && b) ≡ true → (a ≡ true) × (b ≡ true)
both {a} {b} h = ground arith

and : {a b : Bool} → a ≡ true → b ≡ true → (a && b) ≡ true
and {a} {b} h k = ground arith

sextet-value : (d v k : ℕ) → (v / 2 ^ k % 64) % d ≡ 0 → has_value d (sextet v k) ≡ true
sextet-value d v k h =
    let value = (char_value-digit (v / 2 ^ k % 64) (omega arith)).1 in
    rw (sextet-digit v k, has_value, value) (ground (arith, h))

pub encode-canonical : (xs : Bytes) → All IsByte xs → is_canonical (encode xs) ≡ true
unfolding encode
encode-canonical [] h = refl
encode-canonical (a ∷ []) h =
    let v = a * 2 ^ 16 in
    and (sextet-value 1 v 18 (omega arith)) (sextet-value 16 v 12 (omega arith))
encode-canonical (a ∷ b ∷ []) h = rw (bits_two a b h.1.0) (
    let v = a * 65536 + b * 256 in
    and (sextet-value 1 v 18 (omega arith))
      (and (sextet-value 1 v 12 (omega arith)) (sextet-value 4 v 6 (omega arith))))
encode-canonical (a ∷ b ∷ c ∷ rest) h = rw (bits_three a b c h.1.0 h.1.1.0) (
    let v = a * 65536 + b * 256 + c in
    and (sextet-value 1 v 18 (omega arith)) (
      and (sextet-value 1 v 12 (omega arith)) (
        and (sextet-value 1 v 6 (omega arith))
          (and (sextet-value 1 v 0 (omega arith)) (encode-canonical rest h.1.1.1)))))

-- The other way: the bytes of a canonical text.
spells : (v k i c : ℕ) → char_value c ≡ some i → v / 2 ^ k % 64 ≡ i → sextet v k ≡ c
spells v k i c value at = sextet-digit v k ∙ ap digit at ∙ (digit-char_value c i value).1

abbrev pub Encoded : Bytes → Type 0
Encoded text = (xs : Bytes) × All IsByte xs × (encode xs ≡ text)

two-Encoded : (a b : ℕ) → HasValue 1 a → HasValue 16 b → Encoded (a ∷ b ∷ [])
unfolding encode
two-Encoded a b (i, value_a, _, i_lt) (j, value_b, even, j_lt) =
    let x : ℕ = i * 4 + j / 16 in
    (
      x ∷ [],
      (omega arith, tt),
      ap₂ (λ u v. u ∷ v ∷ []) (spells (x * 2 ^ 16) 18 i a value_a (omega arith))
          (spells (x * 2 ^ 16) 12 j b value_b (omega arith)),
    )

three-Encoded : (a b c : ℕ) → HasValue 1 a → HasValue 1 b → HasValue 4 c → Encoded (a ∷ b ∷ c ∷ [])
unfolding encode
three-Encoded a b c (i, value_a, _, i_lt) (j, value_b, _, j_lt) (k, value_c, even, k_lt) =
    let x : ℕ = i * 4 + j / 16 in
    let y : ℕ = j % 16 * 16 + k / 4 in
    let v : ℕ = x * 65536 + y * 256 in
    (
      x ∷ y ∷ [],
      (omega arith, (omega arith, tt)),
      rw (bits_two x y (omega arith)) (
          ap₂ (λ u w. u ∷ w) (spells v 18 i a value_a (omega arith))
            (ap₂ (λ u w. u ∷ w ∷ []) (spells v 12 j b value_b (omega arith))
              (spells v 6 k c value_c (omega arith)))),
    )

four-Encoded :
    (a b c d : ℕ) (rest : Bytes)
    → HasValue 1 a
    → HasValue 1 b
    → HasValue 1 c
    → HasValue 1 d
    → Encoded rest
    → Encoded (a ∷ b ∷ c ∷ d ∷ rest)
unfolding encode
four-Encoded a b c d rest (i, value_a, _, i_lt) (j, value_b, _, j_lt) (k, value_c, _, k_lt)
      (l, value_d, _, l_lt) (xs, bytes, same) =
    let x : ℕ = i * 4 + j / 16 in
    let y : ℕ = j % 16 * 16 + k / 4 in
    let z : ℕ = k % 4 * 64 + l in
    let v : ℕ = x * 65536 + y * 256 + z in
    (
      x ∷ y ∷ z ∷ xs,
      (omega arith, (omega arith, (omega arith, bytes))),
      rw (bits_three x y z (omega arith) (omega arith)) (
          ap₂ (λ u w. u ∷ w) (spells v 18 i a value_a (omega arith))
            (ap₂ (λ u w. u ∷ w) (spells v 12 j b value_b (omega arith))
              (ap₂ (λ u w. u ∷ w) (spells v 6 k c value_c (omega arith))
                (ap₂ (λ u w. u ∷ w) (spells v 0 l d value_d (omega arith)) same)))),
    )

pub canonical-Encoded : (text : Bytes) → is_canonical text ≡ true → Encoded text
canonical-Encoded [] h = ([], tt, unfold encode in refl)
canonical-Encoded (a ∷ []) h = absurd (ground arith)
canonical-Encoded (a ∷ b ∷ []) h =
    let (ha, hb) = both h in two-Encoded a b (value_of 1 a ha) (value_of 16 b hb)
canonical-Encoded (a ∷ b ∷ c ∷ []) h =
    let (ha, h') = both h in
    let (hb, hc) = both h' in
    three-Encoded a b c (value_of 1 a ha) (value_of 1 b hb) (value_of 4 c hc)
canonical-Encoded (a ∷ b ∷ c ∷ d ∷ rest) h =
    let (ha, h₁) = both h in
    let (hb, h₂) = both h₁ in
    let (hc, h₃) = both h₂ in
    let (hd, more) = both h₃ in
    four-Encoded a b c d rest (value_of 1 a ha) (value_of 1 b hb) (value_of 1 c hc)
      (value_of 1 d hd) (canonical-Encoded rest more)
