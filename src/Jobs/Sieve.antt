-- ===== src/Jobs/Sieve.antt =====
-- The sieve of `run_job` in src/ngx_lua_cpp.cpp: primes up to the root of the limit, and the count
-- of the primes of one chunk. A flag is 1 or 0, as in the `std::vector<uint8_t>` of the code.
use ngx_lua_cpp.Prelude.{
  ℕ, zero, suc, ◌+◌, ◌-◌, ◌*◌, ◌/◌, List, [], ◌∷◌, replicate, modify, get_or, min, max, ltb, leb,
  ◌==◌, if◌then◌else◌,
}

-- `for (k = start; k < hi; k += p) mark[k - lo] = 0;`
unfoldable pub strike : ℕ → ℕ → ℕ → ℕ → ℕ → List ℕ → List ℕ
strike zero lo hi k p mark = mark
strike (suc fuel) lo hi k p mark =
    let rest = strike fuel lo hi (k + p) p (modify (k - lo) (λ flag. 0) mark) in
    if ltb k hi then rest else mark

-- The loop over `i` with `i * i <= root`; `k <= root` is `k < root + 1`.
unfoldable pub sieve_base : ℕ → ℕ → ℕ → List ℕ → List ℕ
sieve_base zero root i base = base
sieve_base (suc fuel) root i base =
    let struck =
      if get_or base i 0 == 0 then base else strike (root + 1) 0 (root + 1) (i * i) i base in
    let rest = sieve_base fuel root (i + 1) struck in if leb (i * i) root then rest else base

-- `if (base[i]) primes.push_back(i);` for `count` values from `i` on
unfoldable pub collect : ℕ → ℕ → List ℕ → List ℕ
collect zero i base = []
collect (suc count) i base =
    let rest = collect count (i + 1) base in if get_or base i 0 == 0 then rest else i ∷ rest

unfoldable pub base_primes : ℕ → List ℕ
base_primes root =
    let base = modify 0 (λ flag. 0) (modify 1 (λ flag. 0) (replicate (root + 1) 1)) in
    collect (root - 1) 2 (sieve_base root root 2 base)

unfoldable pub strike_all : ℕ → ℕ → List ℕ → List ℕ → List ℕ
strike_all lo hi [] mark = mark
strike_all lo hi (p ∷ primes) mark =
    let start = max (p * p) ((lo + p - 1) / p * p) in
    strike_all lo hi primes (strike hi lo hi start p mark)

abbrev pub sum : List ℕ → ℕ
sum [] = 0
sum (m ∷ mark) = m + sum mark

-- What one chunk adds to `count`.
unfoldable pub count_chunk : ℕ → ℕ → List ℕ → ℕ
count_chunk lo hi primes = sum (strike_all lo hi primes (replicate (hi - lo) 1))

unfoldable pub chunk_lo : ℕ → ℕ → ℕ
chunk_lo limit c = max (c * max (limit / 40) 1) 2

unfoldable pub chunk_hi : ℕ → ℕ → ℕ
unfolding chunk_lo
chunk_hi limit c = min (chunk_lo limit c + max (limit / 40) 1) limit
