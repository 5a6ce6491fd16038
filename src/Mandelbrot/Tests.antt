-- ===== src/Mandelbrot/Tests.antt =====
-- The theorem about the modes at a concrete order of tasks, with whole numbers for the doubles.
use ngx_lua_cpp.Prelude.{
  ℕ, ◌≡◌, sym, true, List, [], ◌∷◌, ◌++◌, ◌==◌, ==_iff, Bool-cases, inl, inr, arith,
}
use ngx_lua_cpp.Prelude.Double.{whole_double}
use ngx_lua_cpp.Mandelbrot.{mandelbrot}
use ngx_lua_cpp.Mandelbrot.Schedule
use ngx_lua_cpp.Mandelbrot.Schedule.{is_run, RunsAll}

-- The last task first.
abbrev backwards : List ℕ → List ℕ
backwards [] = []
backwards (y ∷ tasks) = backwards tasks ++ y ∷ []

is_run-last : (y : ℕ) (tasks : List ℕ) → is_run y (tasks ++ y ∷ []) ≡ true
is_run-last y [] = ground arith
is_run-last y (z ∷ tasks) = elim (Bool-cases (z == y)) [
  | inl here ↦ rw here
  | inr other ↦ rw other (is_run-last y tasks)
]

is_run-before :
    (y z : ℕ) (tasks : List ℕ) → is_run y tasks ≡ true → is_run y (tasks ++ z ∷ []) ≡ true
is_run-before y z [] run = absurd (ground (arith, run))
is_run-before y z (x ∷ tasks) run = elim (Bool-cases (x == y)) [
  | inl here ↦ rw here
  | inr other ↦ rw other (is_run-before y z tasks (rw other at run))
]

backwards-RunsAll : RunsAll backwards
backwards-RunsAll [] y run = run
backwards-RunsAll (z ∷ tasks) y run = elim (Bool-cases (z == y)) [
  | inl here ↦ rw (sym ((==_iff z y).0 here)) (is_run-last z (backwards tasks))
  | inr other ↦ is_run-before y z (backwards tasks) (backwards-RunsAll tasks y (rw other at run))
]

mandelbrot_parallel_example :
    mandelbrot whole_double (λ x. x) (λ x. x) 16 16 4 0 0 1 0 backwards
    ≡ mandelbrot whole_double (λ x. x) (λ x. x) 16 16 4 0 0 1 1 (λ tasks. tasks)
mandelbrot_parallel_example =
    Schedule.mandelbrot_parallel whole_double (λ x. x) (λ x. x) 16 16 4 0 0 0 1 backwards
      (λ tasks. tasks) backwards-RunsAll
