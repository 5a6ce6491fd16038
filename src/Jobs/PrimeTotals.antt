-- ===== src/Jobs/PrimeTotals.antt =====
-- How many primes a range holds, by trial division, and what the forty chunks count together.
use ngx_lua_cpp.Prelude.{
  ℕ, zero, suc, ◌+◌, ◌-◌, ◌*◌, ◌/◌, ◌%◌, ◌≤◌, ◌<◌, ◌≡◌, refl, ap, ap₂, sym, ◌∙◌, ◌⊎◌, inl, inr,
  Bool, true, false, not, ◌&&◌, List, [], ◌∷◌, get_or, ◌==◌, leb, length, arith, Bool-cases,
  if◌then◌else◌, max,
}
use ngx_lua_cpp.Jobs.Sieve.{sum, chunk_lo, chunk_hi, count_chunk, base_primes}
use ngx_lua_cpp.Jobs.BasePrimes.{IsComposite}
use ngx_lua_cpp.Jobs.PrimeCounts.{count_chunk-IsPrimeCount}
use ngx_lua_cpp.Jobs.Chunks.{seg_size}
use native.Mathlib.Nat

-- Whether one of the numbers from 2 to `n` divides `x`.
unfoldable pub divided : ℕ → ℕ → Bool
divided zero x = false
divided (suc d) x = if leb 2 (suc d) && (x % suc d == 0) then true else divided d x

unfoldable pub is_prime : ℕ → Bool
unfolding divided
is_prime x = leb 2 x && not (divided (x - 1) x)

-- The primes among the `n` numbers from `lo` on.
unfoldable pub primes_in : ℕ → ℕ → ℕ
primes_in lo zero = 0
primes_in lo (suc n) = (if is_prime lo then 1 else 0) + primes_in (lo + 1) n

divided_sound : (n x : ℕ) → divided n x ≡ true → (d : ℕ) × (2 ≤ d) × (d ≤ n) × (x % d ≡ 0)
unfolding divided
divided_sound zero x h = absurd (ground arith)
divided_sound (suc n) x h = elim (Bool-cases (leb 2 (suc n) && (x % suc n == 0))) [
  | inl here ↦ (suc n, ground (arith, here), omega arith, ground (arith, here))
  | inr other ↦
      let (d, low, high, divides) = divided_sound n x (ground (arith, h, other)) in
      (d, low, omega (arith, high), divides)
]

divided_complete : (n x d : ℕ) → 2 ≤ d → d ≤ n → x % d ≡ 0 → divided n x ≡ true
unfolding divided
divided_complete zero x d low high h = absurd (omega arith)
divided_complete (suc n) x d low high h = elim (Bool-cases (d == suc n)) [
  | inl here ↦
      let same : d ≡ suc n = ground arith in
      let divides : x % suc n ≡ 0 = ap (λ k. x % k) (sym same) ∙ h in ground (arith, divides)
  | inr below ↦ let rest = divided_complete n x d low (ground arith) h in ground (arith, rest)
]

-- A divisor between 1 and the number gives two factors, the smaller one first.
ordered : (a b x : ℕ) → 2 ≤ a → 2 ≤ b → a * b ≡ x → IsComposite x
ordered a b x ha hb at = elim (Bool-cases (leb a b)) [
  | inl le ↦ (a, b, ha, ground (arith, le), at)
  | inr gt ↦ (b, a, hb, ground (arith, gt), Nat.mul_comm b a ∙ at)
]

divided-IsComposite : (x : ℕ) → 2 ≤ x → divided (x - 1) x ≡ true → IsComposite x
divided-IsComposite x two h =
    let (d, low, high, divides) = divided_sound (x - 1) x h in
    let parts : x / d * d + x % d ≡ x = Nat.div-add-mod' x d in
    let whole : x / d * d ≡ x = omega (arith, parts, divides) in
    let more : 2 ≤ x / d = elim (Bool-cases (leb 2 (x / d))) [
      | inl fine ↦ ground (arith, fine)
      | inr small ↦
          let one : x / d ≤ 1 = ground (arith, small) in
          let below : x / d * d ≤ 1 * d = Nat.mul-le-mul_right d one in
          absurd (omega (arith, below, whole, high, two))
    ] in
    ordered (x / d) d x more low whole

IsComposite-divided : (x : ℕ) → IsComposite x → divided (x - 1) x ≡ true
IsComposite-divided x (a, b, low, order, at) =
    let twice : a * 2 ≤ a * b = Nat.mul-le-mul_left a (omega (arith, low, order)) in
    let divides : x % a ≡ 0 = ap (λ n. n % a) (sym at) ∙ Nat.mul-mod_right a b in
    divided_complete (x - 1) x a low (omega (arith, twice, at, low)) divides

flag_lem :
    (flag x : ℕ)
    → 2 ≤ x
    → ((flag ≡ 1) × (IsComposite x → ⊥)) ⊎ ((flag ≡ 0) × IsComposite x)
    → flag ≡ (if is_prime x then 1 else 0)
unfolding is_prime
flag_lem flag x two (inr (unset, composite)) =
    let test = IsComposite-divided x composite in ground (arith, test, unset)
flag_lem flag x two (inl (set, prime)) = elim (Bool-cases (divided (x - 1) x)) [
  | inl composite ↦ absurd (prime (divided-IsComposite x two composite))
  | inr free ↦ ground (arith, free, set)
]

sum-primes_in :
    (flags : List ℕ) (lo : ℕ)
    → ((i : ℕ) → i < length flags → get_or flags i 1 ≡ (if is_prime (lo + i) then 1 else 0))
    → sum flags ≡ primes_in lo (length flags)
unfolding primes_in
sum-primes_in [] lo h = refl
sum-primes_in (flag ∷ flags) lo h =
    let first : flag ≡ (if is_prime lo then 1 else 0) =
      let zero_more : lo + 0 ≡ lo = omega arith in
      h 0 (omega arith) ∙ ap (λ x. if is_prime x then 1 else 0) zero_more in
    let rest = sum-primes_in flags (lo + 1) (λ i less.
      let moved : lo + suc i ≡ lo + 1 + i = omega arith in
      h (suc i) (omega (arith, less)) ∙ ap (λ x. if is_prime x then 1 else 0) moved) in
    ap₂ ◌+◌ first rest

-- What a chunk counts is the number of its primes.
pub count_chunk-primes_in :
    (root lo hi : ℕ)
    → 2 ≤ lo
    → hi ≤ (root + 1) * (root + 1)
    → count_chunk lo hi (base_primes root) ≡ primes_in lo (hi - lo)
count_chunk-primes_in root lo hi low high =
    let (flags, total, (size, each)) = count_chunk-IsPrimeCount root lo hi low high in
    total
    ∙ sum-primes_in flags lo (λ i less.
      let here : lo + i - lo ≡ i = omega arith in
      ap (λ k. get_or flags k 1) (sym here)
      ∙ flag_lem _ (lo + i) (omega (arith, low))
          (each (lo + i) (omega arith) (omega (arith, less, size))))
    ∙ ap (primes_in lo) size

primes_in-add : (m lo n : ℕ) → primes_in lo (m + n) ≡ primes_in lo m + primes_in (lo + m) n
unfolding primes_in
primes_in-add zero lo n =
    let none_yet : 0 + n ≡ n = omega arith in
    let same : lo ≡ lo + 0 = omega arith in
    ap (primes_in lo) none_yet ∙ ap (λ l. primes_in l n) same ∙ omega arith
primes_in-add (suc m) lo n =
    let next : suc m + n ≡ suc (m + n) = omega arith in
    let same : lo + 1 + m ≡ lo + suc m = omega arith in
    let rest = primes_in-add m (lo + 1) n ∙ ap (λ l. primes_in (lo + 1) m + primes_in l n) same in
    ap (primes_in lo) next ∙ omega (arith, rest)

-- What the chunks before number `c` count.
unfoldable pub counted_before : ℕ → ℕ → ℕ
counted_before limit zero = 0
counted_before limit (suc c) =
    counted_before limit c + primes_in (chunk_lo limit c) (chunk_hi limit c - chunk_lo limit c)

module _ (limit : ℕ) (big : 1000 ≤ limit) where
  first_chunk :
      primes_in (chunk_lo limit 0) (chunk_hi limit 0 - chunk_lo limit 0)
      ≡ primes_in 2 (seg_size limit)
  unfolding chunk_lo chunk_hi
  first_chunk =
      let low : max (0 * seg_size limit) 2 ≡ 2 = omega arith in
      ap₂ primes_in low (omega (arith, big))

  later_chunk :
      (c : ℕ)
      → suc c < 40
      → primes_in (chunk_lo limit (suc c)) (chunk_hi limit (suc c) - chunk_lo limit (suc c))
        ≡ primes_in (suc c * seg_size limit) (seg_size limit)
  unfolding chunk_lo chunk_hi
  later_chunk c small =
      let seg = seg_size limit in
      let one : 1 * seg ≤ suc c * seg = Nat.mul-le-mul_right seg (omega arith) in
      let last : (suc c + 1) * seg ≤ 40 * seg = Nat.mul-le-mul_right seg (omega arith) in
      let split : (suc c + 1) * seg ≡ suc c * seg + seg = grind arith in
      let low : max (suc c * seg) 2 ≡ suc c * seg = omega (arith, one, big) in
      ap₂ primes_in low (omega (arith, one, last, split, big))

  counted_before-primes_in :
      (c : ℕ)
      → c < 40
      → counted_before limit (suc c)
        ≡ primes_in 2 (seg_size limit) + primes_in (seg_size limit) (c * seg_size limit)
  unfolding counted_before primes_in
  counted_before-primes_in zero small =
      let nothing : 0 * seg_size limit ≡ 0 = omega arith in
      omega (arith, first_chunk, ap (primes_in (seg_size limit)) nothing)
  counted_before-primes_in (suc c) small =
      let seg = seg_size limit in
      let before = counted_before-primes_in c (omega arith) in
      let chunk = later_chunk c small in
      let joined = primes_in-add (c * seg) seg seg in
      let from : seg + c * seg ≡ suc c * seg = grind arith in
      let upto : c * seg + seg ≡ suc c * seg = grind arith in
      let moved = ap (λ l. primes_in l seg) from in
      let longer = ap (primes_in seg) upto in omega (arith, before, chunk, joined, moved, longer)

  -- Together the chunks count the primes below forty times the size of a chunk, and those of the two
  -- values that the first chunk shares with the second once more.
  pub counted_before-all :
      counted_before limit 40 ≡ primes_in 2 (40 * seg_size limit - 2) + primes_in (seg_size limit) 2
  counted_before-all =
      let seg = seg_size limit in
      let all = counted_before-primes_in 39 (omega arith) in
      let start = primes_in-add (seg - 2) 2 2 in
      let whole = primes_in-add (seg - 2) 2 (39 * seg) in
      let size : seg - 2 + 2 ≡ seg = omega (arith, big) in
      let sizes : seg - 2 + 39 * seg ≡ 40 * seg - 2 = omega (arith, big) in
      let at : 2 + (seg - 2) ≡ seg = omega (arith, big) in
      omega (
        arith,
        all,
        start,
        whole,
        ap (primes_in 2) size,
        ap (primes_in 2) sizes,
        ap (λ l. primes_in l 2) at,
        ap (λ l. primes_in l (39 * seg)) at,
      )
