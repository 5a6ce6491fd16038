-- ===== src/Sha256/Compression.antt =====
-- The compression function of the code is that of FIPS 180-4.
use ngx_lua_cpp.Prelude.{
  ℕ, zero, suc, ◌+◌, ◌-◌, ◌%◌, ◌^◌, ◌≡◌, refl, sym, ap, ap₂, ◌∙◌, List, [], ◌∷◌, ◌++◌, length,
  length-append, get_or, arith,
}
use ngx_lua_cpp.Prelude.Text.{Bytes}
use ngx_lua_cpp.Sha256.{initial_state}
use ngx_lua_cpp.Sha256.Transform.{
  Word, sha256_k, rotr, load_words, extend, Vars, round, rounds, transform,
}
use ngx_lua_cpp.Sha256.Fips.{
  root, initial_hash, constants, small_sigma0, small_sigma1, big_sigma0, big_sigma1, choose,
  majority, block_words, schedule, compress, add_words, hash_block,
}

pub initial_state-roots : initial_state ≡ initial_hash
unfolding root
initial_state-roots = refl

constants_lem : sha256_k ≡ constants
unfolding root
constants_lem = refl

-- Sums that are cut to 32 bits at each step, or once.
sum4 : (a b c d : ℕ) → (((a + b) % 2 ^ 32 + c) % 2 ^ 32 + d) % 2 ^ 32 ≡ (d + c + b + a) % 2 ^ 32
sum4 a b c d = omega arith

sum5 :
    (a b c d e : ℕ)
    → ((((a + b) % 2 ^ 32 + c) % 2 ^ 32 + d) % 2 ^ 32 + e) % 2 ^ 32 ≡ (a + b + c + d + e) % 2 ^ 32
sum5 a b c d e = omega arith

cut_both : (a b : ℕ) → (a % 2 ^ 32 + b % 2 ^ 32) % 2 ^ 32 ≡ (a + b) % 2 ^ 32
cut_both a b = omega arith

cut_right : (a b : ℕ) → (a + b % 2 ^ 32) % 2 ^ 32 ≡ (a + b) % 2 ^ 32
cut_right a b = omega arith

extend-schedule : (n i : ℕ) (w : List Word) → length w ≡ i → extend n i w ≡ schedule n w
unfolding extend schedule rotr
extend-schedule zero i w h = refl
extend-schedule (suc n) i w h =
    let s0 = small_sigma0 (get_or w (i - 15) 0) in
    let s1 = small_sigma1 (get_or w (i - 2) 0) in
    let next = (s1 + get_or w (i - 7) 0 + s0 + get_or w (i - 16) 0) % 2 ^ 32 in
    ap (λ (x : Word). extend n (i + 1) (w ++ x ∷ []))
      (sum4 (get_or w (i - 16) 0) s0 (get_or w (i - 7) 0) s1)
    ∙ extend-schedule n (i + 1) (w ++ next ∷ []) (omega (arith, length-append w (next ∷ [])))
    ∙ ap
        (λ (j : ℕ). schedule n (
          w
          ++ (small_sigma1 (get_or w (j - 2) 0)
                + get_or w (j - 7) 0
                + small_sigma0 (get_or w (j - 15) 0)
                + get_or w (j - 16) 0)
              % 2 ^ 32
            ∷ []))
        (sym h)

abbrev variables : Vars → List Word
variables v = v.a ∷ v.b ∷ v.c ∷ v.d ∷ v.e ∷ v.f ∷ v.g ∷ v.h ∷ []

rounds-compress :
    (ks ws : List Word) (v : Vars)
    → variables (rounds ks ws v) ≡ compress ks ws v.a v.b v.c v.d v.e v.f v.g v.h
unfolding rounds round compress rotr
rounds-compress [] ws v = refl
rounds-compress (k ∷ ks) [] v = refl
rounds-compress (k ∷ ks) (w ∷ ws) v =
    let s1 = big_sigma1 v.e in
    let ch = choose v.e v.f v.g in
    let t1 = v.h + s1 + ch + k + w in
    let t2 = big_sigma0 v.a + majority v.a v.b v.c in
    rounds-compress ks ws (round k w v)
    ∙ ap₂ (λ (a e : Word). compress ks ws a v.a v.b v.c e v.e v.f v.g)
        (ap (λ (t : Word). (t + t2 % 2 ^ 32) % 2 ^ 32) (sum5 v.h s1 ch k w) ∙ cut_both t1 t2)
        (ap (λ (t : Word). (v.d + t) % 2 ^ 32) (sum5 v.h s1 ch k w) ∙ cut_right v.d t1)

load_words_lem : (block : Bytes) → load_words 16 0 block ≡ block_words block
unfolding load_words
load_words_lem block = refl

pub transform-hash_block :
    (state : List Word) (block : Bytes) → transform state block ≡ hash_block state block
unfolding transform
transform-hash_block state block =
    let s = λ (i : ℕ). get_or state i 0 in
    let start : Vars = record {
      a = s 0;
      b = s 1;
      c = s 2;
      d = s 3;
      e = s 4;
      f = s 5;
      g = s 6;
      h = s 7;
    } in
    let w = extend 48 16 (load_words 16 0 block) in
    let same : w ≡ schedule 48 (block_words block) =
      ap (extend 48 16) (load_words_lem block) ∙ extend-schedule 48 16 (block_words block) refl in
    ap (add_words (s 0 ∷ s 1 ∷ s 2 ∷ s 3 ∷ s 4 ∷ s 5 ∷ s 6 ∷ s 7 ∷ [])) (
      rounds-compress sha256_k w start
      ∙ ap₂ (λ (ks ws : List Word). compress ks ws (s 0) (s 1) (s 2) (s 3) (s 4) (s 5) (s 6) (s 7))
          constants_lem same)
