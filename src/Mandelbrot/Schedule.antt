-- ===== src/Mandelbrot/Schedule.antt =====
-- The order in which the tasks run does not show in the picture.
use ngx_lua_cpp.Prelude.{
  clamp, ℕ, zero, suc, ◌+◌, ◌*◌, ◌≤◌, ◌<◌, ◌≡◌, refl, ap, sym, ◌∙◌, ◌≢◌, ◌⊎◌, Bool, true, false,
  some, List, [], ◌∷◌, length, length-replicate, replicate, modify, get_elem?,
  get_elem?-modify_self, get_elem?-modify_other, drop_at, ltb, ◌==◌, ==_iff, arith, if◌then◌else◌,
  Bool-cases, inl, inr,
}
use ngx_lua_cpp.Prelude.Text.{Bytes}
use ngx_lua_cpp.Prelude.Double.{Double}
use ngx_lua_cpp.Bmp.{encode_bmp}
use ngx_lua_cpp.Mandelbrot.{
  dispatch_tasks, run_tasks, render_serial, render_rows, view_row, joined, mandelbrot,
}

-- Whether the task of a row is in the list.
abbrev pub is_run : ℕ → List ℕ → Bool
is_run y [] = false
is_run y (z ∷ order) = if z == y then true else is_run y order

-- The pool runs every task that is dispatched, in any order.
abbrev pub RunsAll : (List ℕ → List ℕ) → Type 0
RunsAll pool = (tasks : List ℕ) (y : ℕ) → is_run y tasks ≡ true → is_run y (pool tasks) ≡ true

is_run-dispatch_tasks :
    (count y z : ℕ) → y ≤ z → z < y + count → is_run z (dispatch_tasks count y) ≡ true
unfolding dispatch_tasks
is_run-dispatch_tasks zero y z low high = absurd (omega arith)
is_run-dispatch_tasks (suc count) y z low high = elim (Bool-cases (y == z)) [
  | inl here ↦ rw here
  | inr other ↦
      let past : y + 1 ≤ z = ground arith in
      rw other (is_run-dispatch_tasks count (y + 1) z past (omega arith))
]

length-modify :
    (rows : List Bytes) (i : ℕ) (f : Bytes → Bytes) → length (modify i f rows) ≡ length rows
length-modify [] i f = refl
length-modify (row ∷ rows) zero f = refl
length-modify (row ∷ rows) (suc i) f = ap suc (length-modify rows i f)

-- Two lists of the same length with the same elements at every place are equal.
same_elements :
    (xs ys : List Bytes)
    → length xs ≡ length ys
    → ((i : ℕ) → i < length xs → get_elem? xs i ≡ get_elem? ys i)
    → xs ≡ ys
same_elements [] [] h same = refl
same_elements [] (y ∷ ys) h same = absurd (omega arith)
same_elements (x ∷ xs) [] h same = absurd (omega arith)
same_elements (x ∷ xs) (y ∷ ys) h same =
    let head : x ≡ y = ground (arith, same 0 (omega arith)) in
    let tail : xs ≡ ys = same_elements xs ys (omega arith) (λ i lt. same (suc i) (omega arith)) in
    rw (head, tail)

module _ {D : Type 0} (d : Double D) (log log2 : D → D) where
  length-run_tasks :
      (render : ℕ → Bytes) (order : List ℕ) (rows : List Bytes)
      → length (run_tasks d log log2 render order rows) ≡ length rows
  unfolding run_tasks
  length-run_tasks render [] rows = refl
  length-run_tasks render (y ∷ order) rows =
      length-run_tasks render order (modify y (λ old. render y) rows) ∙ length-modify rows y _

  -- A row that was written, or whose task is still to run, is the rendered one in the end.
  run_tasks_at :
      (render : ℕ → Bytes) (order : List ℕ) (rows : List Bytes) (y : ℕ)
      → y < length rows
      → (is_run y order ≡ true) ⊎ (get_elem? rows y ≡ some (render y))
      → get_elem? (run_tasks d log log2 render order rows) y ≡ some (render y)
  unfolding run_tasks
  run_tasks_at render [] rows y lt (inl run) = ground arith
  run_tasks_at render [] rows y lt (inr written) = written
  run_tasks_at render (z ∷ order) rows y lt h =
      let rows' = modify z (λ old. render z) rows in
      let lt' : y < length rows' = omega (arith, length-modify rows z (λ old. render z)) in
      run_tasks_at render order rows' y lt' (elim (Bool-cases (z == y)) [
        | inl here ↦
            let at : z ≡ y = (==_iff z y).0 here in
            let (old, found, left) = drop_at rows y lt in
            inr (rw at (get_elem?-modify_self rows y (λ old. render y) old found))
        | inr other ↦
            let differ : z ≢ y = (λ e. absurd (ground arith)) in
            elim h [
              | inl run ↦ inl (ground arith)
              | inr written ↦ inr (get_elem?-modify_other rows z y _ differ ∙ written)
            ]
      ])

  render_serial-run_tasks :
      (render : ℕ → Bytes) (count y : ℕ) (rows : List Bytes)
      → render_serial d log log2 render count y rows
        ≡ run_tasks d log log2 render (dispatch_tasks count y) rows
  unfolding render_serial run_tasks dispatch_tasks
  render_serial-run_tasks render zero y rows = refl
  render_serial-run_tasks render (suc count) y rows =
      render_serial-run_tasks render count (y + 1) (modify y (λ old. render y) rows)

  -- Any order of tasks that runs every row, some of them more than once perhaps, gives the rows of
  -- the serial loop.
  run_tasks-render_serial :
      (render : ℕ → Bytes) (order : List ℕ) (rows : List Bytes)
      → ((y : ℕ) → y < length rows → is_run y order ≡ true)
      → run_tasks d log log2 render order rows
        ≡ render_serial d log log2 render (length rows) 0 rows
  run_tasks-render_serial render order rows all =
      same_elements _ _
        (length-run_tasks render order rows ∙ sym (length-run_tasks render every rows))
        (λ y lt.
          let inside : y < length rows = omega (arith, length-run_tasks render order rows) in
          let run = is_run-dispatch_tasks (length rows) 0 y (omega arith) (omega arith) in
          run_tasks_at render order rows y inside (inl (all y inside))
          ∙ sym (run_tasks_at render every rows y inside (inl run)))
      ∙ sym (render_serial-run_tasks render (length rows) 0 rows)
    where
      every : List ℕ
      every = dispatch_tasks (length rows) 0

  render_rows_parallel :
      (render : ℕ → Bytes) (h mode : ℕ) (pool pool' : List ℕ → List ℕ) (rows : List Bytes)
      → 1 < h
      → length rows ≡ h
      → RunsAll pool
      → render_rows d log log2 render h 0 pool rows
        ≡ render_rows d log log2 render h (suc mode) pool' rows
  unfolding render_rows
  render_rows_parallel render h mode pool pool' rows high size all =
      let many : ltb 1 h ≡ true = ground arith in
      let other : (suc mode == 0) ≡ false = ground arith in
      rw (many, other)
        (run_tasks-render_serial render (pool (dispatch_tasks h 0)) rows (λ y lt.
            all (dispatch_tasks h 0) y
              (is_run-dispatch_tasks h 0 y (omega arith) (omega (arith, size))))
          ∙ ap (λ k. render_serial d log log2 render k 0 rows) size)

  -- The parallel mode gives the picture of the serial mode, whatever order the worker threads run
  -- the dispatched tasks in, as long as they run each of them.
  pub mandelbrot_parallel :
      (width height iterations mode : ℕ) (cx cy zoom : D) (pool pool' : List ℕ → List ℕ)
      → RunsAll pool
      → mandelbrot d log log2 width height iterations cx cy zoom 0 pool
        ≡ mandelbrot d log log2 width height iterations cx cy zoom (suc mode) pool'
  unfolding mandelbrot
  mandelbrot_parallel width height iterations mode cx cy zoom pool pool' all =
      let w = clamp width 16 1600 in
      let h = clamp height 16 1200 in
      let n = clamp iterations 4 100000 in
      let high : 1 < h = ground arith in
      ap (λ rows. encode_bmp w h (joined rows))
        (render_rows_parallel (view_row d log log2 w n cx cy zoom) h mode pool pool'
          (replicate h (replicate (w * 3) 0)) high (length-replicate h (replicate (w * 3) 0)) all)
