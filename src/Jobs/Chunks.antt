-- ===== src/Jobs/Chunks.antt =====
-- Which values the chunks of the sieve hold.
use ngx_lua_cpp.Prelude.{
  ℕ, ◌+◌, ◌*◌, ◌/◌, ◌≤◌, ◌<◌, ◌≡◌, inl, inr, max, arith, Bool-cases, ◌==◌, ==_iff,
}
use ngx_lua_cpp.Jobs.Sieve.{chunk_lo, chunk_hi}
use native.Mathlib.Nat

abbrev pub IsIn : ℕ → ℕ → ℕ → Type 0
IsIn limit c x = (chunk_lo limit c ≤ x) × (x < chunk_hi limit c)

abbrev pub seg_size : ℕ → ℕ
seg_size limit = max (limit / 40) 1

-- A chunk after the first.
later :
    (limit c x : ℕ)
    → 1000 ≤ limit
    → 1 ≤ c
    → c * seg_size limit ≤ x
    → x < c * seg_size limit + seg_size limit
    → x < limit
    → IsIn limit c x
unfolding chunk_lo chunk_hi
later limit c x big pos low high less =
    let one : seg_size limit ≤ c * seg_size limit = grind (arith, pos) in
    (omega (arith, one), omega (arith, one))

first : (limit x : ℕ) → 1000 ≤ limit → 2 ≤ x → x < seg_size limit + 2 → IsIn limit 0 x
unfolding chunk_lo chunk_hi
first limit x big low high = (omega arith, omega arith)

outside : (limit c x : ℕ) → 1000 ≤ limit → c < 40 → 40 * seg_size limit ≤ x → IsIn limit c x → ⊥
unfolding chunk_lo chunk_hi
outside limit c x big small far (low, high) =
    let last : c * seg_size limit + seg_size limit ≤ 40 * seg_size limit = grind (arith, small) in
    omega (arith, low, high, last)

covered :
    (limit x : ℕ)
    → 1000 ≤ limit
    → 2 ≤ x
    → x < 40 * seg_size limit
    → (c : ℕ) × (c < 40) × IsIn limit c x
covered limit x big low high =
    let seg = seg_size limit in
    let pos : 0 < seg = omega arith in
    let floor : x / seg * seg ≤ x = Nat.div-mul-le_self x seg in
    let next : x < x / seg * seg + seg = Nat.lt-div-mul-add pos in
    let few : x / seg < 40 = (Nat.div-lt_iff_lt-mul pos).1 high in
    elim (Bool-cases (x / seg == 0)) [
      | inl start ↦
          let zero_index : x / seg ≡ 0 = (==_iff (x / seg) 0).0 start in
          let near : x < seg = grind (arith, next, zero_index) in
          (0, omega arith, first limit x big low (omega (arith, near)))
      | inr behind ↦
          let index : 1 ≤ x / seg = ground (arith, behind) in
          let less : x < limit = omega arith in
          (x / seg, few, later limit (x / seg) x big index floor next less)
    ]

-- The forty chunks hold every value from 2 to below forty times the size of a chunk, the two values at
-- the size of a chunk and after it twice, in the first chunk and in the second one; and no value from
-- forty times the size on, though it may be below the limit.
pub chunks_lem :
    (limit : ℕ)
    → 1000 ≤ limit
    → ((x : ℕ) → 2 ≤ x → x < 40 * seg_size limit → (c : ℕ) × (c < 40) × IsIn limit c x)
      × ((x : ℕ) → seg_size limit ≤ x → x < seg_size limit + 2 → IsIn limit 0 x × IsIn limit 1 x)
      × ((x c : ℕ) → 40 * seg_size limit ≤ x → c < 40 → IsIn limit c x → ⊥)
chunks_lem limit big = (
  λ x low high. covered limit x big low high,
  λ x low high. (
    first limit x big (omega arith) high,
    later limit 1 x big (omega arith) (omega arith) (omega arith) (omega arith),
  ),
  λ x c far small inside. outside limit c x big small far inside,
)
