-- ===== src/Prelude/Double.antt =====
-- What the program does with `double`: conversions, comparisons and arithmetic of IEEE 754 binary64.
use ngx_lua_cpp.Prelude.{
  ℕ, ◌+◌, ◌-◌, ◌*◌, ◌/◌, ◌≤◌, ◌^◌, ◌≡◌, refl, Bool, true, false, arith, if◌then◌else◌, ltb, leb,
}

pub record Double (D : Type 0) : Type 0 where
  pub of_nat : ℕ → D
  pub to_nat : D → ℕ
  pub lt : D → D → Bool
  pub le : D → D → Bool
  pub add : D → D → D
  pub sub : D → D → D
  pub mul : D → D → D
  pub div : D → D → D

-- The integers up to 2 ^ 53 are represented exactly, and sums of them that stay in that range are
-- exact. `<` is a strict order on every value, not-a-number included (which is below nothing).
pub record IsDouble {D : Type 0} (d : Double D) : Type 0 where
  pub lt_exact : (a b : ℕ) → a ≤ 2 ^ 53 → b ≤ 2 ^ 53 → d.lt (d.of_nat a) (d.of_nat b) ≡ ltb a b
  pub add_exact : (a b : ℕ) → a + b ≤ 2 ^ 53 → d.add (d.of_nat a) (d.of_nat b) ≡ d.of_nat (a + b)
  pub lt_irrefl : (x : D) → d.lt x x ≡ false
  pub lt_trans : (x y z : D) → d.lt x y ≡ true → d.lt y z ≡ true → d.lt x z ≡ true

-- `std::clamp`
abbrev pub clamp_double : {D : Type 0} → Double D → D → D → D → D
clamp_double d x lo hi = if d.lt x lo then lo else if d.lt hi x then hi else x

-- The laws can be met: the whole numbers, where nothing is rounded.
abbrev pub whole_double : Double ℕ
whole_double = record {
  of_nat = λ n. n;
  to_nat = λ n. n;
  lt = ltb;
  le = leb;
  add = λ a b. a + b;
  sub = λ a b. a - b;
  mul = λ a b. a * b;
  div = λ a b. a / b;
}

pub whole-IsDouble : IsDouble whole_double
whole-IsDouble = record {
  lt_exact = λ a b p q. refl;
  add_exact = λ a b p. refl;
  lt_irrefl = λ x. ground arith;
  lt_trans = λ x y z p q. ground arith;
}
