-- ===== src/Prelude/Bits/Step.antt =====
-- What `&` and `|` do to the lowest binary digit of their arguments. The native operations stand
-- for a recursion on digits, `bitwise`, whose fuel is the first argument.
use Prim.Native.Nat.{
  ℕ, zero, suc, ◌+◌, ◌-◌, ◌*◌, ◌/◌, ◌%◌, ◌≤◌, min, max, digits, bitwise, bit_and, bit_or,
  bit_and-bitwise, bit_or-bitwise,
}
use mathlib.Core.Path.{◌≡◌, refl, sym, ap, ◌∙◌}
use native.Mathlib.Omega.{arith}

module _ (base : ℕ → ℕ) (op : ℕ → ℕ → ℕ) where
  one_more : (n a b : ℕ) → a ≤ n → digits base op (suc n) a b ≡ digits base op n a b
  one_more zero zero b h = refl
  one_more (suc n) zero b h = refl
  one_more zero (suc a) b h = absurd (omega arith)
  one_more (suc n) (suc a) b h = rw (one_more n (suc a / 2) (b / 2) (omega arith))

  more_fuel : (k n a b : ℕ) → a ≤ n → digits base op (k + n) a b ≡ digits base op n a b
  more_fuel zero n a b h = let same : 0 + n ≡ n = omega arith in rw same
  more_fuel (suc k) n a b h =
      let next : suc k + n ≡ suc (k + n) = omega arith in
      rw next (one_more (k + n) a b (omega arith) ∙ more_fuel k n a b h)

  -- The hypothesis is the law at 0, where the recursion ends.
  bitwise-half :
      ((b : ℕ) → base b ≡ base (b / 2) * 2 + op 0 (b % 2))
      → (a b : ℕ) → bitwise base op a b ≡ bitwise base op (a / 2) (b / 2) * 2 + op (a % 2) (b % 2)
  bitwise-half end zero b = end b
  bitwise-half end (suc a) b =
      let half = suc a / 2 in
      let fuel : (a - half) + half ≡ a = omega arith in
      let cut : digits base op a half (b / 2) ≡ digits base op half half (b / 2) =
        sym (ap (λ k. digits base op k half (b / 2)) fuel)
        ∙ more_fuel (a - half) half half (b / 2) (omega arith) in
      omega (arith, cut)

pub bit_or-half : (a b : ℕ) → bit_or a b ≡ bit_or (a / 2) (b / 2) * 2 + max (a % 2) (b % 2)
bit_or-half a b = simp bit_or-bitwise (bitwise-half (λ b. b) max (λ b. omega arith) a b)

pub bit_and-half : (a b : ℕ) → bit_and a b ≡ bit_and (a / 2) (b / 2) * 2 + min (a % 2) (b % 2)
bit_and-half a b = simp bit_and-bitwise (bitwise-half (λ b. 0) min (λ b. omega arith) a b)
