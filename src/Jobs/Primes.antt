-- ===== src/Jobs/Primes.antt =====
-- What a chunk of the sieve counts.
use ngx_lua_cpp.Prelude.{
  ℕ, zero, suc, ◌+◌, ◌-◌, ◌*◌, ◌/◌, ◌≤◌, ◌<◌, ◌≡◌, ◌≢◌, refl, ap, sym, ◌∙◌, ◌⊎◌, inl, inr, List, [],
  ◌∷◌, replicate, modify, get_or, max, ltb, leb, ◌==◌, if_cases, All, length, arith, Bool-cases,
  leb→le, length-replicate,
}
use ngx_lua_cpp.Jobs.Sieve.{strike, strike_all, sum, count_chunk}
use native.Mathlib.Nat

-- `k + i * p` is `x` for some `i`.
abbrev pub Hits : ℕ → ℕ → ℕ → Type 0
Hits k p x = (i : ℕ) × (k + i * p ≡ x)

get_or-modify_self :
    (xs : List ℕ) (i : ℕ) (f : ℕ → ℕ)
    → i < length xs
    → get_or (modify i f xs) i 1 ≡ f (get_or xs i 1)
get_or-modify_self [] i f h = absurd (omega arith)
get_or-modify_self (x ∷ xs) zero f h = refl
get_or-modify_self (x ∷ xs) (suc i) f h = get_or-modify_self xs i f (omega arith)

pub get_or-modify_other :
    (xs : List ℕ) (i j : ℕ) (f : ℕ → ℕ) → i ≢ j → get_or (modify i f xs) j 1 ≡ get_or xs j 1
get_or-modify_other [] i j f h = refl
get_or-modify_other (x ∷ xs) zero zero f h = absurd (h refl)
get_or-modify_other (x ∷ xs) zero (suc j) f h = refl
get_or-modify_other (x ∷ xs) (suc i) zero f h = refl
get_or-modify_other (x ∷ xs) (suc i) (suc j) f h = get_or-modify_other xs i j f (λ e. h (ap suc e))

pub length-modify : (xs : List ℕ) (i : ℕ) (f : ℕ → ℕ) → length (modify i f xs) ≡ length xs
length-modify [] i f = refl
length-modify (x ∷ xs) zero f = refl
length-modify (x ∷ xs) (suc i) f = ap suc (length-modify xs i f)

pub length-strike :
    (fuel lo hi k p : ℕ) (mark : List ℕ) → length (strike fuel lo hi k p mark) ≡ length mark
unfolding strike
length-strike zero lo hi k p mark = refl
length-strike (suc fuel) lo hi k p mark =
    let rest = length-strike fuel lo hi (k + p) p (modify (k - lo) (λ flag. 0) mark) in
    if_cases (λ (m : List ℕ). length m ≡ length mark) (ltb k hi) _ _
      (λ _. rest ∙ length-modify mark (k - lo) (λ flag. 0)) (λ _. refl)

pub zero-modify :
    (xs : List ℕ) (i j : ℕ) → get_or xs j 1 ≡ 0 → get_or (modify i (λ flag. 0) xs) j 1 ≡ 0
zero-modify [] i j h = h
zero-modify (x ∷ xs) zero zero h = refl
zero-modify (x ∷ xs) zero (suc j) h = h
zero-modify (x ∷ xs) (suc i) zero h = h
zero-modify (x ∷ xs) (suc i) (suc j) h = zero-modify xs i j h

next_or_here : (i k p x : ℕ) → k + i * p ≡ x → (k ≡ x) ⊎ Hits (k + p) p x
next_or_here zero k p x at = inl (grind (arith, at))
next_or_here (suc i) k p x at = inr (i, grind (arith, at))

-- The flag of `x` after the loop over the multiples is 0 if it was, or if one of them is `x`, and else
-- what it was.
pub zero_stays :
    (fuel lo hi k p j : ℕ) (mark : List ℕ)
    → get_or mark j 1 ≡ 0
    → get_or (strike fuel lo hi k p mark) j 1 ≡ 0
unfolding strike
zero_stays zero lo hi k p j mark h = h
zero_stays (suc fuel) lo hi k p j mark h =
    let rest =
      zero_stays fuel lo hi (k + p) p j (modify (k - lo) (λ flag. 0) mark)
        (zero-modify mark (k - lo) j h) in
    if_cases (λ (m : List ℕ). get_or m j 1 ≡ 0) (ltb k hi) _ _ (λ _. rest) (λ _. h)

pub struck :
    (fuel lo hi k p x : ℕ) (mark : List ℕ)
    → 1 ≤ p
    → hi ≤ k + fuel
    → lo ≤ k
    → x < hi
    → hi - lo ≤ length mark
    → Hits k p x
    → get_or (strike fuel lo hi k p mark) (x - lo) 1 ≡ 0
unfolding strike
struck zero lo hi k p x mark pos enough low xh size (i, at) = absurd (grind (arith, at))
struck (suc fuel) lo hi k p x mark pos enough low xh size (i, at) =
    let mark' = modify (k - lo) (λ flag. 0) mark in
    if_cases (λ (m : List ℕ). get_or m (x - lo) 1 ≡ 0) (ltb k hi) _ _
      (λ inside. elim (next_or_here i k p x at) [
        | inl here ↦
            let set : get_or mark' (x - lo) 1 ≡ 0 =
              rw⁻¹ here (get_or-modify_self mark (k - lo) (λ flag. 0) (omega arith)) in
            zero_stays fuel lo hi (k + p) p (x - lo) mark' set
        | inr later ↦
            let size' = length-modify mark (k - lo) (λ flag. 0) in
            struck fuel lo hi (k + p) p x mark' pos (omega arith) (omega arith) xh
              (omega (arith, size', size)) later
      ])
      (λ out. absurd (grind (arith, at, out)))

pub missed :
    (fuel lo hi k p x : ℕ) (mark : List ℕ)
    → lo ≤ k
    → lo ≤ x
    → (get_or (strike fuel lo hi k p mark) (x - lo) 1 ≡ get_or mark (x - lo) 1) ⊎ Hits k p x
unfolding strike
missed zero lo hi k p x mark low lx = inl refl
missed (suc fuel) lo hi k p x mark low lx =
    let mark' = modify (k - lo) (λ flag. 0) mark in
    if_cases (λ (m : List ℕ). (get_or m (x - lo) 1 ≡ get_or mark (x - lo) 1) ⊎ Hits k p x)
      (ltb k hi) _ _
      (λ inside. elim (missed fuel lo hi (k + p) p x mark' (omega arith) lx) [
        | inr (i, at) ↦ inr (suc i, grind (arith, at))
        | inl same ↦ elim (Bool-cases (k == x)) [
          | inl here ↦ inr (0, grind (arith, here))
          | inr apart ↦ inl (
              same
              ∙ get_or-modify_other mark (k - lo) (x - lo) (λ flag. 0)
                  (λ e. ground (arith, apart, e, low, lx)))
        ]
      ])
      (λ _. inl refl)

-- Where the loop over the multiples of `p` starts in a chunk.
abbrev start_of : ℕ → ℕ → ℕ
start_of lo p = max (p * p) ((lo + p - 1) / p * p)

-- A prime of the list, whose square is not above `x`, divides it.
abbrev pub IsStruck : List ℕ → ℕ → Type 0
IsStruck [] x = ⊥
IsStruck (p ∷ primes) x = ((p * p ≤ x) × ((m : ℕ) × (m * p ≡ x))) ⊎ IsStruck primes x

least_multiple : (lo p : ℕ) → 1 ≤ p → (m : ℕ) → lo ≤ m * p → (lo + p - 1) / p ≤ m
least_multiple lo p pos m reach = elim (Bool-cases (leb ((lo + p - 1) / p) m)) [
  | inl within ↦ leb→le ((lo + p - 1) / p) m within
  | inr beyond ↦
      let over : suc m ≤ (lo + p - 1) / p = ground (arith, beyond) in
      let step : suc m * p ≤ (lo + p - 1) / p * p = Nat.mul-le-mul_right p over in
      let floor = Nat.div-mul-le_self (lo + p - 1) p in absurd (grind (arith, step, floor))
]

-- The start is a multiple of `p` by at least `p`, the least that is not below `lo`.
start-lem :
    (lo p : ℕ)
    → 1 ≤ p
    → (s : ℕ) × (start_of lo p ≡ s * p)
      × (p ≤ s)
      × (lo ≤ s * p)
      × ((m : ℕ) → p ≤ m → lo ≤ m * p → s ≤ m)
start-lem lo p pos =
    let c = (lo + p - 1) / p in
    let least : (m : ℕ) → lo ≤ m * p → c ≤ m = least_multiple lo p pos in
    let above : lo ≤ c * p =
      let next : lo + p - 1 < (lo + p - 1) / p * p + p = Nat.lt-div-mul-add pos in
      omega (arith, next) in
    elim (Bool-cases (leb p c)) [
      | inl far ↦
          let below : p ≤ c = leb→le p c far in
          let square : p * p ≤ c * p = Nat.mul-le-mul_right p below in
          (c, omega (arith, square), below, above, λ m low reach. least m reach)
      | inr near ↦
          let below : c ≤ p = ground (arith, near) in
          let square : c * p ≤ p * p = Nat.mul-le-mul_right p below in
          (p, omega (arith, square), omega arith, omega (arith, square, above), λ m low reach. low)
    ]

sum_of_multiples : (s m p : ℕ) → s ≤ m → s * p + (m - s) * p ≡ m * p
sum_of_multiples s m p h = let split : s + (m - s) ≡ m = omega arith in grind (arith, split)

Hits-start :
    (lo p x : ℕ) → 1 ≤ p → lo ≤ x → p * p ≤ x → (m : ℕ) → m * p ≡ x → Hits (start_of lo p) p x
Hits-start lo p x pos lx square m at =
    let (s, start, low, reach, least) = start-lem lo p pos in
    let within : p * p ≤ m * p = omega (arith, at, square) in
    let enough : p ≤ m = Nat.le_of_mul-le-mul_right within pos in
    let order : s ≤ m = least m enough (omega (arith, at)) in
    (m - s, ap (λ a. a + (m - s) * p) start ∙ sum_of_multiples s m p order ∙ at)

of_Hits : (lo p x : ℕ) → 1 ≤ p → Hits (start_of lo p) p x → (p * p ≤ x) × ((m : ℕ) × (m * p ≡ x))
of_Hits lo p x pos (i, at) =
    let (s, start, low, reach, least) = start-lem lo p pos in
    let square : p * p ≤ s * p = Nat.mul-le-mul_right p low in
    (omega (arith, at, start, square), (s + i, grind (arith, at, start)))

ones : (n i : ℕ) → get_or {A = ℕ} (replicate n 1) i 1 ≡ 1
ones zero i = refl
ones (suc n) zero = refl
ones (suc n) (suc i) = ones n i

one_not_zero : {A : Type 0} → ◌≡◌ {A = ℕ} 1 0 → A
one_not_zero e = absurd (omega (arith, e))

module _ (lo hi : ℕ) where
  zeros_stay :
      (primes : List ℕ) (mark : List ℕ) (j : ℕ)
      → get_or mark j 1 ≡ 0
      → get_or (strike_all lo hi primes mark) j 1 ≡ 0
  unfolding strike_all
  zeros_stay [] mark j h = h
  zeros_stay (p ∷ primes) mark j h =
      zeros_stay primes (strike hi lo hi (start_of lo p) p mark) j
        (zero_stays hi lo hi (start_of lo p) p j mark h)

  length-strike_all :
      (primes : List ℕ) (mark : List ℕ) → length (strike_all lo hi primes mark) ≡ length mark
  unfolding strike_all
  length-strike_all [] mark = refl
  length-strike_all (p ∷ primes) mark =
      length-strike_all primes (strike hi lo hi (start_of lo p) p mark)
      ∙ length-strike hi lo hi (start_of lo p) p mark

  struck_all :
      (primes : List ℕ) (mark : List ℕ) (x : ℕ)
      → All (λ p. 1 ≤ p) primes
      → lo ≤ x
      → x < hi
      → hi - lo ≤ length mark
      → IsStruck primes x
      → get_or (strike_all lo hi primes mark) (x - lo) 1 ≡ 0
  unfolding strike_all
  struck_all [] mark x pos lx xh size h = absurd h
  struck_all (p ∷ primes) mark x pos lx xh size (inl (square, (m, at))) =
      let (s, start, low, reach, least) = start-lem lo p pos.0 in
      zeros_stay primes (strike hi lo hi (start_of lo p) p mark) (x - lo) (
        struck hi lo hi (start_of lo p) p x mark pos.0 (omega arith) (omega (arith, start, reach))
          xh size (Hits-start lo p x pos.0 lx square m at))
  struck_all (p ∷ primes) mark x pos lx xh size (inr later) =
      struck_all primes (strike hi lo hi (start_of lo p) p mark) x pos.1 lx xh
        (omega (arith, length-strike hi lo hi (start_of lo p) p mark, size)) later

  missed_all :
      (primes : List ℕ) (mark : List ℕ) (x : ℕ)
      → All (λ p. 1 ≤ p) primes
      → lo ≤ x
      → (get_or (strike_all lo hi primes mark) (x - lo) 1 ≡ get_or mark (x - lo) 1)
        ⊎ IsStruck primes x
  unfolding strike_all
  missed_all [] mark x pos lx = inl refl
  missed_all (p ∷ primes) mark x pos lx =
      let (s, start, low, reach, least) = start-lem lo p pos.0 in
      elim (missed_all primes (strike hi lo hi (start_of lo p) p mark) x pos.1 lx) [
        | inr later ↦ inr (inr later)
        | inl same ↦
            elim (missed hi lo hi (start_of lo p) p x mark (omega (arith, start, reach)) lx) [
              | inr hit ↦ inr (inl (of_Hits lo p x pos.0 hit))
              | inl same' ↦ inl (same ∙ same')
            ]
      ]

  -- Each value of the chunk has a flag, which tells whether it counts.
  abbrev pub IsSieve : List ℕ → List ℕ → Type 0
  IsSieve primes flags =
      (length flags ≡ hi - lo)
      × ((x : ℕ)
          → lo ≤ x
          → x < hi
          → ((get_or flags (x - lo) 1 ≡ 1) × (IsStruck primes x → ⊥))
            ⊎ ((get_or flags (x - lo) 1 ≡ 0) × IsStruck primes x))

  -- What a chunk adds to the count is the number of its values, from `lo` to below `hi`, that are no
  -- multiple of a number of the list whose square they reach: with all the primes up to the root of
  -- `hi` in the list, the number of the primes. It is the sum of the flags of the values.
  pub count_chunk-IsSieve :
      (primes : List ℕ)
      → All (λ p. 1 ≤ p) primes
      → (flags : List ℕ) × (count_chunk lo hi primes ≡ sum flags) × IsSieve primes flags
  unfolding count_chunk
  count_chunk-IsSieve primes pos =
      let mark : List ℕ = replicate (hi - lo) 1 in
      let size = length-replicate {A = ℕ} (hi - lo) 1 in
      (
        strike_all lo hi primes mark,
        refl,
        (
          length-strike_all primes mark ∙ size,
          λ x lx xh.
              let zero_if = struck_all primes mark x pos lx xh (omega (arith, size)) in
              elim (missed_all primes mark x pos lx) [
                | inr hit ↦ inr (zero_if hit, hit)
                | inl same ↦ inl (
                  same ∙ ones (hi - lo) (x - lo),
                  λ hit. one_not_zero (sym (same ∙ ones (hi - lo) (x - lo)) ∙ zero_if hit),
                )
              ],
        ),
      )
