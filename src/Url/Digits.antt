-- ===== src/Url/Digits.antt =====
-- A printed number is read back.
use ngx_lua_cpp.Prelude.{
  ℕ, zero, suc, ◌+◌, ◌-◌, ◌*◌, ◌/◌, ◌%◌, ◌^◌, ◌≤◌, ◌<◌, ◌≡◌, refl, ap, ◌∙◌, true, false, [], ◌∷◌,
  All, ◌==◌, arith, Bool-cases, inl, inr,
}
use native.Mathlib.Nat.{pow-suc}
use ngx_lua_cpp.Prelude.Text.{Bytes, decimal, decimal_loop}
use ngx_lua_cpp.Url.{is_digit, is_space, read_digits, skip_spaces, read_long}

abbrev pub IsDigit : ℕ → Type 0
IsDigit c = (b'0' ≤ c) × (c ≤ b'9')

digits_of_loop :
    (fuel n : ℕ) (digits : Bytes) → All IsDigit digits → All IsDigit (decimal_loop fuel n digits)
unfolding decimal_loop
digits_of_loop zero n digits h = h
digits_of_loop (suc fuel) n digits h =
    let h' : All IsDigit ((b'0' + n % 10) ∷ digits) = ((omega arith, omega arith), h) in
    elim (Bool-cases (n / 10 == 0)) [
      | inl last ↦ rw last h'
      | inr more ↦ rw more (digits_of_loop fuel (n / 10) ((b'0' + n % 10) ∷ digits) h')
    ]

read_digits-decimal_loop :
    (fuel n : ℕ) (digits : Bytes)
    → n < 10 ^ fuel
    → read_digits 0 (decimal_loop fuel n digits) ≡ read_digits n digits
unfolding decimal_loop read_digits
read_digits-decimal_loop zero n digits h = let e : n ≡ 0 = omega arith in rw e
read_digits-decimal_loop (suc fuel) n digits h =
    let d = b'0' + n % 10 in
    let digit : is_digit d ≡ true = ground arith in
    let step : (value : ℕ)
        → read_digits value (d ∷ digits) ≡ read_digits (value * 10 + (d - b'0')) digits =
      λ value. rw (read_digits, digit) in
    elim (Bool-cases (n / 10 == 0)) [
      | inl last ↦
          let all : 0 * 10 + (d - b'0') ≡ n = ground arith in
          rw last (step 0 ∙ ap (λ v. read_digits v digits) all)
      | inr more ↦
          let all : n / 10 * 10 + (d - b'0') ≡ n = omega arith in
          rw more (
            read_digits-decimal_loop fuel (n / 10) (d ∷ digits) (omega (arith, pow-suc 10 fuel))
            ∙ step (n / 10)
            ∙ ap (λ v. read_digits v digits) all)
    ]

pub decimal_digits : (n : ℕ) → All IsDigit (decimal n)
unfolding decimal
decimal_digits n = digits_of_loop 20 n [] tt

read_long_digits :
    (s : Bytes)
    → All IsDigit s
    → read_digits 0 s < 2 ^ 63
    → read_long (skip_spaces s) ≡ read_digits 0 s
unfolding read_long skip_spaces read_digits
read_long_digits [] h small = refl
read_long_digits (c ∷ s) h small =
    let solid : is_space c ≡ false = ground (arith, h.0.0, h.0.1) in
    let positive : (c == b'-') ≡ false = ground (arith, h.0.0) in
    let unsigned : (c == b'+') ≡ false = ground (arith, h.0.0) in
    rw (skip_spaces, solid, read_long, positive, unsigned) (omega arith)

pub read_long-decimal : (n : ℕ) → n ≤ 65535 → read_long (skip_spaces (decimal n)) ≡ n
unfolding decimal read_digits
read_long-decimal n h =
    let value : read_digits 0 (decimal n) ≡ n = read_digits-decimal_loop 20 n [] (omega arith) in
    read_long_digits (decimal n) (decimal_digits n) (omega (arith, value)) ∙ value
