-- ===== src/Jobs/PrimeCounts.antt =====
-- A chunk counts its primes.
use ngx_lua_cpp.Prelude.{
  ℕ, zero, suc, ◌+◌, ◌-◌, ◌*◌, ◌≤◌, ◌<◌, ◌≡◌, ap, sym, ◌∙◌, ◌⊎◌, inl, inr, List, get_or, ◌==◌,
  ==_iff, if_cases, All, length, arith, Bool-cases, subst,
}
use ngx_lua_cpp.Jobs.Sieve.{sieve_base, collect, base_primes, count_chunk, sum}
use ngx_lua_cpp.Jobs.Primes.{IsStruck, count_chunk-IsSieve}
use ngx_lua_cpp.Jobs.BasePrimes.{
  IsComposite, IsBase, first_flags, first_Inv, sieve_base-IsBase, get_or_default, assoc, le_product,
  smaller_factor,
}
use native.Mathlib.Nat

collected :
    (count i : ℕ) (base : List ℕ) (x p m : ℕ)
    → i ≤ p
    → p < i + count
    → get_or base p 0 ≡ 1
    → p * p ≤ x
    → m * p ≡ x
    → IsStruck (collect count i base) x
unfolding collect
collected zero i base x p m low high set square at = absurd (omega arith)
collected (suc count) i base x p m low high set square at =
    if_cases (λ (ps : List ℕ). IsStruck ps x) (get_or base i 0 == 0) _ _
      (λ unset. elim (Bool-cases (i == p)) [
        | inl here ↦ absurd (ground (arith, here, unset, set))
        | inr apart ↦
            collected count (i + 1) base x p m (ground (arith, apart, low)) (omega arith) set square
              at
      ])
      (λ is_set. elim (Bool-cases (i == p)) [
        | inl here ↦
            let same : p ≡ i = sym ((==_iff i p).0 here) in
            inl (subst (λ (q : ℕ). (q * q ≤ x) × ((n : ℕ) × (n * q ≡ x))) same (square, (m, at)))
        | inr apart ↦ inr (
            collected count (i + 1) base x p m (ground (arith, apart, low)) (omega arith) set square
              at)
      ])

from_collect :
    (count i : ℕ) (base : List ℕ) (x : ℕ)
    → IsStruck (collect count i base) x
    → (p : ℕ) × (m : ℕ) × (i ≤ p) × (p * p ≤ x) × (m * p ≡ x)
unfolding collect
from_collect zero i base x = λ h. absurd h
from_collect (suc count) i base x =
    let later : IsStruck (collect count (i + 1) base) x
        → (p : ℕ) × (m : ℕ) × (i ≤ p) × (p * p ≤ x) × (m * p ≡ x) =
      λ h.
        let (p, m, low, square, at) = from_collect count (i + 1) base x h in
        (p, m, omega (arith, low), square, at) in
    if_cases
      (λ (ps : List ℕ). IsStruck ps x → (p : ℕ) × (m : ℕ) × (i ≤ p) × (p * p ≤ x) × (m * p ≡ x))
      (get_or base i 0 == 0) _ _ (λ unset. later)
      (λ set h. elim h [
        | inl (square, (m, at)) ↦ (i, m, omega arith, square, at)
        | inr h' ↦ later h'
      ])

positive : (count i : ℕ) (base : List ℕ) → 1 ≤ i → All (λ p. 1 ≤ p) (collect count i base)
unfolding collect
positive zero i base h = tt
positive (suc count) i base h =
    let rest = positive count (i + 1) base (omega arith) in
    if_cases (All (λ p. 1 ≤ p)) (get_or base i 0 == 0) _ _ (λ unset. rest) (λ set. (h, rest))

-- A composite number has a prime factor up to its root.
prime_factor :
    (n root : ℕ) (base : List ℕ) (x a b : ℕ)
    → IsBase root base
    → a ≤ n
    → 2 ≤ a
    → a ≤ b
    → a * b ≡ x
    → x < (root + 1) * (root + 1)
    → IsStruck (collect (root - 1) 2 base) x
prime_factor zero root base x a b known small la ab at past = absurd (omega arith)
prime_factor (suc n) root base x a b known small la ab at past =
    let square : a * a ≤ a * b = Nat.mul-le-mul_left a ab in
    let fits : a ≤ root =
      let below = smaller_factor a b (root + 1) (omega (arith, at, past)) ab in
      omega (arith, below) in
    elim (known.1 a la fits) [
      | inr (one, prime) ↦
          let set : get_or base a 0 ≡ 1 =
            get_or_default base a 0 1 (omega (arith, known.0, fits)) ∙ one in
          let swapped : b * a ≡ x = Nat.mul_comm b a ∙ at in
          collected (root - 1) 2 base x a b la (omega (arith, fits, la)) set
            (omega (arith, square, at)) swapped
      | inl (z, (c, d, lc, cd, product)) ↦
          let grown = le_product d b (omega (arith, la, ab)) in
          let same : c * (d * b) ≡ x = assoc c d b ∙ ap (λ k. k * b) product ∙ at in
          let twice : c * 2 ≤ c * d = Nat.mul-le-mul_left c (omega (arith, lc, cd)) in
          let smaller : c < a = omega (arith, twice, product, lc) in
          prime_factor n root base x c (d * b) known (omega (arith, smaller, small)) lc
            (omega (arith, cd, grown)) same past
    ]

-- The flags of a chunk, by the primes.
abbrev pub IsPrimeCount : ℕ → ℕ → List ℕ → Type 0
IsPrimeCount lo hi flags =
    (length flags ≡ hi - lo)
    × ((x : ℕ)
        → lo ≤ x
        → x < hi
        → ((get_or flags (x - lo) 1 ≡ 1) × (IsComposite x → ⊥))
          ⊎ ((get_or flags (x - lo) 1 ≡ 0) × IsComposite x))

-- With the base primes up to `root`, what a chunk adds to the count is the number of its primes: it is
-- the sum of the flags of its values, of which that of a prime is 1 and that of a product is 0. The
-- chunk starts at 2 or later, and ends below the square of `root + 1`, as the chunks of the limit do,
-- of which `root` is not below the square root.
pub count_chunk-IsPrimeCount :
    (root lo hi : ℕ)
    → 2 ≤ lo
    → hi ≤ (root + 1) * (root + 1)
    → (flags : List ℕ) × (count_chunk lo hi (base_primes root) ≡ sum flags)
      × IsPrimeCount lo hi flags
unfolding base_primes first_flags
count_chunk-IsPrimeCount root lo hi low high =
    let base = sieve_base root root 2 (first_flags root) in
    let known =
      sieve_base-IsBase root root 2 (first_flags root) (omega arith) (omega arith)
        (first_Inv root) in
    let primes = collect (root - 1) 2 base in
    let (flags, total, (size, each)) =
      count_chunk-IsSieve lo hi primes (positive (root - 1) 2 base (omega arith)) in
    (
      flags,
      total,
      (
        size,
        λ x lx xh. elim (each x lx xh) [
          | inl (one, free) ↦ inl (
            one,
            λ (composite : IsComposite x).
                let (a, b, la, ab, at) = composite in
                free (
                  prime_factor a root base x a b known (omega arith) la ab at
                    (omega (arith, high))),
          )
          | inr (z, hit) ↦
              let (p, m, lp, square, at) = from_collect (root - 1) 2 base x hit in
              let within : p * p ≤ m * p = omega (arith, square, at) in
              let order : p ≤ m = Nat.le_of_mul-le-mul_right within (omega (arith, lp)) in
              inr (z, (p, m, lp, order, Nat.mul_comm p m ∙ at))
        ],
      ),
    )
