-- ===== src/Jobs/Ids.antt =====
-- The order of the identifiers: that of the numbers, as long as these have five digits.
use Prim.Native.Nat.{Ordering}
use ngx_lua_cpp.Prelude.{
  ℕ, ◌+◌, ◌/◌, ◌%◌, ◌<◌, ◌≡◌, true, [], ◌∷◌, ◌==◌, arith, Bool-cases, inl, inr,
}
use ngx_lua_cpp.Prelude.Order.{compare_bytes}
use ngx_lua_cpp.Prelude.Text.{Bytes, decimal, decimal_loop}
use ngx_lua_cpp.Jobs.{job_id}

abbrev pub five_digits : ℕ → Bytes
five_digits n =
    b'J'
    ∷ (b'0' + n / 10000 % 10)
    ∷ (b'0' + n / 1000 % 10)
    ∷ (b'0' + n / 100 % 10)
    ∷ (b'0' + n / 10 % 10)
    ∷ (b'0' + n % 10)
    ∷ []

pub job_id-five_digits : (n : ℕ) → n < 100000 → job_id n ≡ five_digits n
unfolding job_id decimal decimal_loop
job_id-five_digits n h = elim (Bool-cases (n / 10 == 0)) [
  | inl one ↦ rw one (ground arith)
  | inr m1 ↦ elim (Bool-cases (n / 10 / 10 == 0)) [
    | inl two ↦ rw (m1, two) (ground arith)
    | inr m2 ↦ elim (Bool-cases (n / 10 / 10 / 10 == 0)) [
      | inl three ↦ rw (m1, m2, three) (ground arith)
      | inr m3 ↦ elim (Bool-cases (n / 10 / 10 / 10 / 10 == 0)) [
        | inl four ↦ rw (m1, m2, m3, four) (ground arith)
        | inr m4 ↦
            let five : (n / 10 / 10 / 10 / 10 / 10 == 0) ≡ true = ground arith in
            rw (m1, m2, m3, m4, five) (ground arith)
      ]
    ]
  ]
]

five_digits_order :
    (a b : ℕ) → a < b → b < 100000 → compare_bytes (five_digits a) (five_digits b) ≡ Ordering.lt
unfolding compare_bytes
five_digits_order a b h top = ground arith

-- Identifiers are ordered as their numbers, up to the last one of five digits.
pub job_id_order :
    (a b : ℕ) → a < b → b < 100000 → compare_bytes (job_id a) (job_id b) ≡ Ordering.lt
job_id_order a b h top =
    rw (job_id-five_digits a (omega arith), job_id-five_digits b top) (five_digits_order a b h top)
