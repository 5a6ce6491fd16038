-- ===== src/Jobs/BasePrimes.antt =====
-- The sieve of the base primes.
use ngx_lua_cpp.Prelude.{
  ℕ, zero, suc, ◌+◌, ◌-◌, ◌*◌, ◌≤◌, ◌<◌, ◌≡◌, refl, ap, sym, ◌∙◌, ◌⊎◌, inl, inr, List, [], ◌∷◌,
  replicate, modify, get_or, leb, ◌==◌, ==_iff, if◌then◌else◌, if_cases, length, length-replicate,
  arith, Bool-cases, leb→le, subst,
}
use ngx_lua_cpp.Jobs.Sieve.{strike, sieve_base}
use ngx_lua_cpp.Jobs.Primes.{
  Hits, zero_stays, struck, missed, length-strike, length-modify, get_or-modify_other,
}
use native.Mathlib.Nat

-- A product of two numbers from 2 on, the smaller one first.
abbrev pub IsComposite : ℕ → Type 0
IsComposite x = (a : ℕ) × (b : ℕ) × (2 ≤ a) × (a ≤ b) × (a * b ≡ x)

-- A zero stands only at composite numbers, and at all of those with a factor below `i`.
abbrev Inv : ℕ → ℕ → List ℕ → Type 0
Inv root i base =
    (length base ≡ root + 1)
    × ((x : ℕ) → 2 ≤ x → get_or base x 1 ≡ 0 → IsComposite x)
    × ((x : ℕ) → 2 ≤ x → x ≤ root → (get_or base x 1 ≡ 0) ⊎ (get_or base x 1 ≡ 1))
    × ((a b : ℕ) → 2 ≤ a → a < i → a ≤ b → a * b ≤ root → get_or base (a * b) 1 ≡ 0)

pub get_or_default : (xs : List ℕ) (i d e : ℕ) → i < length xs → get_or xs i d ≡ get_or xs i e
get_or_default [] i d e h = absurd (omega arith)
get_or_default (x ∷ xs) zero d e h = refl
get_or_default (x ∷ xs) (suc i) d e h = get_or_default xs i d e (omega arith)

pub assoc : (a b c : ℕ) → a * (b * c) ≡ a * b * c
assoc a b c = grind arith

pub le_product : (a b : ℕ) → 1 ≤ b → a ≤ a * b
le_product a b h = grind arith

-- The loop over the multiples, where the flags are those of the values from 0 on.
abbrev strike_from : ℕ → ℕ → List ℕ → List ℕ
strike_from root i base = strike (root + 1) 0 (root + 1) (i * i) i base

minus_zero : (x : ℕ) → x - 0 ≡ x
minus_zero x = omega arith

missed_base :
    (root i x : ℕ) (base : List ℕ)
    → (get_or (strike_from root i base) x 1 ≡ get_or base x 1) ⊎ Hits (i * i) i x
missed_base root i x base =
    subst (λ (y : ℕ). (get_or (strike_from root i base) y 1 ≡ get_or base y 1) ⊎ Hits (i * i) i x)
      (minus_zero x) (missed (root + 1) 0 (root + 1) (i * i) i x base (omega arith) (omega arith))

struck_base :
    (root i x : ℕ) (base : List ℕ)
    → 1 ≤ i
    → length base ≡ root + 1
    → x ≤ root
    → Hits (i * i) i x
    → get_or (strike_from root i base) x 1 ≡ 0
struck_base root i x base pos size fits hit =
    subst (λ (y : ℕ). get_or (strike_from root i base) y 1 ≡ 0) (minus_zero x)
      (struck (root + 1) 0 (root + 1) (i * i) i x base pos (omega arith) (omega arith) (omega arith)
        (omega (arith, size)) hit)

-- A composite index: its multiples have a smaller factor.
skip_Inv :
    (root i : ℕ) (base : List ℕ)
    → 2 ≤ i
    → Inv root i base
    → get_or base i 1 ≡ 0
    → Inv root (i + 1) base
skip_Inv root i base low (size, only, bits, all) zero_here = (
  size,
  only,
  bits,
  λ a b la lt ab fits. elim (Bool-cases (a == i)) [
    | inr below ↦ all a b la (ground (arith, below, lt)) ab fits
    | inl here ↦
        let at : a ≡ i = (==_iff a i).0 here in
        let (c, d, lc, cd, product) = only i low zero_here in
        let smaller : c < i = grind (arith, product) in
        let same : c * (d * b) ≡ a * b = assoc c d b ∙ ap (λ n. n * b) (product ∙ sym at) in
        let reach : c ≤ d * b =
          let grown = le_product d b (omega (arith, la, ab)) in omega (arith, cd, grown) in
        let fits' : c * (d * b) ≤ root = omega (arith, same, fits) in
        ap (λ x. get_or base x 1) (sym same) ∙ all c (d * b) lc smaller reach fits'
  ],
)

shared_factor : (i d : ℕ) → i * i + d * i ≡ i * (i + d)
shared_factor i d = grind arith

rest_of_product : (i b : ℕ) → i ≤ b → i * i + (b - i) * i ≡ i * b
rest_of_product i b h =
    let split : i + (b - i) ≡ b = omega arith in shared_factor i (b - i) ∙ ap (λ n. i * n) split

one_not_zero : {A : Type 0} → ◌≡◌ {A = ℕ} 1 0 → A
one_not_zero e = absurd (omega (arith, e))

strike-Inv :
    (root i : ℕ) (base : List ℕ)
    → 2 ≤ i
    → i * i ≤ root
    → Inv root i base
    → Inv root (i + 1) (strike (root + 1) 0 (root + 1) (i * i) i base)
strike-Inv root i base low square (size, only, bits, all) = (
  length-strike (root + 1) 0 (root + 1) (i * i) i base ∙ size,
  λ x lx zero_now. elim (missed_base root i x base) [
    | inl same ↦ only x lx (sym same ∙ zero_now)
    | inr (j, at) ↦ (i, i + j, low, omega arith, grind (arith, at))
  ],
  λ x lx fits. elim (missed_base root i x base) [
    | inr hit ↦ inl (struck_base root i x base (omega arith) size fits hit)
    | inl same ↦ elim (bits x lx fits) [ inl z ↦ inl (same ∙ z) | inr o ↦ inr (same ∙ o) ]
  ],
  λ a b la lt ab fits. elim (Bool-cases (a == i)) [
    | inr below ↦
        zero_stays (root + 1) 0 (root + 1) (i * i) i (a * b) base
          (all a b la (ground (arith, below, lt)) ab fits)
    | inl here ↦
        let at : a ≡ i = (==_iff a i).0 here in
        let order : i ≤ b = omega (arith, at, ab) in
        let hit : i * i + (b - i) * i ≡ a * b =
          rest_of_product i b order ∙ ap (λ n. n * b) (sym at) in
        struck_base root i (a * b) base (omega arith) size fits (b - i, hit)
  ],
)

-- After the loop: a zero stands at the composite numbers, and only there.
abbrev pub IsBase : ℕ → List ℕ → Type 0
IsBase root base =
    (length base ≡ root + 1)
    × ((x : ℕ)
        → 2 ≤ x
        → x ≤ root
        → ((get_or base x 1 ≡ 0) × IsComposite x) ⊎ ((get_or base x 1 ≡ 1) × (IsComposite x → ⊥)))

pub smaller_factor : (a b i : ℕ) → a * b < i * i → a ≤ b → a < i
smaller_factor a b i less ab = elim (Bool-cases (leb i a)) [
  | inr below ↦ ground (arith, below)
  | inl above ↦
      let ia : i ≤ a = leb→le i a above in
      let products : i * i ≤ a * b = Nat.mul-le-mul ia (omega (arith, ia, ab)) in
      absurd (omega (arith, products, less))
]

Inv-IsBase : (root i : ℕ) (base : List ℕ) → root < i * i → Inv root i base → IsBase root base
Inv-IsBase root i base past (size, only, bits, all) = (
  size,
  λ x lx fits. elim (bits x lx fits) [
    | inl z ↦ inl (z, only x lx z)
    | inr o ↦ inr (
      o,
      λ composite.
          let (a, b, la, ab, product) = composite in
          let small : a < i = smaller_factor a b i (omega (arith, product, fits, past)) ab in
          one_not_zero (
            sym o
            ∙ ap (λ y. get_or base y 1) (sym product)
            ∙ all a b la small ab (omega (arith, product, fits))),
    )
  ],
)

pub sieve_base-IsBase :
    (fuel root i : ℕ) (base : List ℕ)
    → 2 ≤ i
    → root < i + fuel
    → Inv root i base
    → IsBase root (sieve_base fuel root i base)
unfolding sieve_base
sieve_base-IsBase zero root i base low enough h =
    Inv-IsBase root i base (grind (arith, low, enough)) h
sieve_base-IsBase (suc fuel) root i base low enough h =
    let next : List ℕ = if get_or base i 0 == 0 then base else strike_from root i base in
    if_cases (IsBase root) (leb (i * i) root) _ _
      (λ inside.
        let square : i * i ≤ root = leb→le (i * i) root inside in
        let grown = le_product i i (omega (arith, low)) in
        let same : get_or base i 0 ≡ get_or base i 1 =
          get_or_default base i 0 1 (omega (arith, h.0, square, grown)) in
        let h' : Inv root (i + 1) next =
          if_cases (Inv root (i + 1)) (get_or base i 0 == 0) _ _
            (λ zero_here.
              skip_Inv root i base low h (sym same ∙ (==_iff (get_or base i 0) 0).0 zero_here))
            (λ set. strike-Inv root i base low square h) in
        sieve_base-IsBase fuel root (i + 1) next (omega arith) (omega arith) h')
      (λ past. Inv-IsBase root i base (ground (arith, past)) h)

-- The flags at first.
unfoldable pub first_flags : ℕ → List ℕ
first_flags root = modify 0 (λ flag. 0) (modify 1 (λ flag. 0) (replicate (root + 1) 1))

ones : (n i : ℕ) → get_or {A = ℕ} (replicate n 1) i 1 ≡ 1
ones zero i = refl
ones (suc n) zero = refl
ones (suc n) (suc i) = ones n i

first_flag : (root x : ℕ) → 2 ≤ x → get_or (first_flags root) x 1 ≡ 1
unfolding first_flags
first_flag root x low =
    get_or-modify_other (modify 1 (λ flag. 0) (replicate (root + 1) 1)) 0 x (λ flag. 0)
      (λ e. omega (arith, e, low))
    ∙ get_or-modify_other (replicate (root + 1) 1) 1 x (λ flag. 0) (λ e. omega (arith, e, low))
    ∙ ones (root + 1) x

pub first_Inv : (root : ℕ) → Inv root 2 (first_flags root)
unfolding first_flags
first_Inv root = (
  length-modify (modify 1 (λ flag. 0) (replicate (root + 1) 1)) 0 (λ flag. 0)
      ∙ length-modify (replicate (root + 1) 1) 1 (λ flag. 0)
      ∙ length-replicate (root + 1) 1,
  λ x lx z. one_not_zero (sym (first_flag root x lx) ∙ z),
  λ x lx fits. inr (first_flag root x lx),
  λ a b la lt ab fits. absurd (omega (arith, la, lt)),
)
