-- ===== src/Mandelbrot.antt =====
-- The method `mandelbrot` of src/ngx_lua_cpp.cpp, with `palette_color` and `render_mandelbrot_row`.
-- The rows of the pixels are disjoint parts of one array: here a list of rows. `std::log` and
-- `std::log2` are parameters, as is what `double` is; a literal like 0.16 is a quotient, which IEEE
-- 754 rounds to the same value.
pub mod Schedule
mod Tests
use ngx_lua_cpp.Prelude.{
  clamp, ℕ, zero, suc, ◌+◌, ◌-◌, ◌*◌, ◌/◌, ◌%◌, Bool, true, false, List, [], ◌∷◌, ◌++◌, replicate,
  modify, ltb, ◌==◌, if◌then◌else◌,
}
use ngx_lua_cpp.Prelude.Text.{Bytes}
use ngx_lua_cpp.Prelude.Double.{Double, clamp_double}
use ngx_lua_cpp.Bmp.{encode_bmp}

-- The pixels of all rows, one after the other.
abbrev pub joined : List Bytes → Bytes
joined [] = []
joined (row ∷ rows) = row ++ joined rows

-- The loop that dispatches a task for each of the `count` rows from `y` on.
unfoldable pub dispatch_tasks : ℕ → ℕ → List ℕ
dispatch_tasks zero y = []
dispatch_tasks (suc count) y = y ∷ dispatch_tasks count (y + 1)

module _ {D : Type 0} (d : Double D) (log log2 : D → D) where
  abbrev pub hundredths : ℕ → D
  hundredths n = d.div (d.of_nat n) (d.of_nat 100)

  pub record PaletteStop : Type 0 where
    pub t : D
    pub r : ℕ
    pub g : ℕ
    pub b : ℕ

  abbrev pub stop : ℕ → ℕ → ℕ → ℕ → PaletteStop
  stop t r g b = record { t = hundredths t; r = r; g = g; b = b }

  abbrev pub first_stop : PaletteStop
  first_stop = stop 0 0 7 100

  abbrev pub later_stops : List PaletteStop
  later_stops = stop 16 32 107 203 ∷ stop 42 237 255 255 ∷ stop 64 255 170 0 ∷ stop 86 0 2 0 ∷ []

  abbrev pub last_stop : PaletteStop
  last_stop = stop 86 0 2 0

  -- `(uint8_t)(a + (p - a) * k)`
  abbrev pub blend : ℕ → ℕ → D → ℕ
  blend a p k = d.to_nat (d.add (d.of_nat a) (d.mul (d.sub (d.of_nat p) (d.of_nat a)) k)) % 256

  -- The loop over the stops, with the one before.
  unfoldable pub palette_loop : D → PaletteStop → List PaletteStop → ℕ × ℕ × ℕ
  palette_loop t a [] = (last_stop.r, last_stop.g, last_stop.b)
  palette_loop t a (p ∷ stops) =
      let k = d.div (d.sub t a.t) (d.sub p.t a.t) in
      let later = palette_loop t p stops in
      if d.le t p.t then (blend a.r p.r k, blend a.g p.g k, blend a.b p.b k) else later

  unfoldable pub palette_color : D → ℕ × ℕ × ℕ
  palette_color t =
      if d.le t (d.of_nat 0)
      then (first_stop.r, first_stop.g, first_stop.b)
      else if d.le (d.of_nat 1) t
      then (last_stop.r, last_stop.g, last_stop.b)
      else palette_loop t first_stop later_stops

  -- The escape loop: `n`, and `zr2 + zi2`, where it stops.
  unfoldable pub escape : ℕ → ℕ → D → D → D → D → D → D → ℕ × D
  escape zero n cr ci zr zi zr2 zi2 = (n, d.add zr2 zi2)
  escape (suc fuel) n cr ci zr zi zr2 zi2 =
      let zi' = d.add (d.mul (d.mul (d.of_nat 2) zr) zi) ci in
      let zr' = d.add (d.sub zr2 zi2) cr in
      let rest = escape fuel (n + 1) cr ci zr' zi' (d.mul zr' zr') (d.mul zi' zi') in
      if d.lt (d.of_nat 4) (d.add zr2 zi2) then (n, d.add zr2 zi2) else rest

  -- A pixel in the order blue, green, red.
  unfoldable pub render_pixel : ℕ → D → D → Bytes
  render_pixel iterations cr ci =
      let zero' = d.of_nat 0 in
      let e = escape iterations 0 cr ci zero' zero' zero' zero' in
      let mu = d.sub (d.add (d.of_nat e.0) (d.of_nat 1)) (log2 (d.mul (log e.1) (hundredths 50))) in
      let rgb =
        palette_color (clamp_double d (d.div mu (d.of_nat iterations)) (d.of_nat 0) (d.of_nat 1)) in
      if e.0 == iterations then 0 ∷ 0 ∷ 0 ∷ [] else rgb.2 ∷ rgb.1 ∷ rgb.0 ∷ []

  -- The loop over `x`, for `count` pixels.
  unfoldable pub render_pixels : ℕ → ℕ → ℕ → D → D → D → Bytes
  render_pixels zero x iterations ci re_min pixel_size = []
  render_pixels (suc count) x iterations ci re_min pixel_size =
      render_pixel iterations (d.add re_min (d.mul (d.of_nat x) pixel_size)) ci
      ++ render_pixels count (x + 1) iterations ci re_min pixel_size

  unfoldable pub render_mandelbrot_row : ℕ → ℕ → ℕ → D → D → D → Bytes
  render_mandelbrot_row y width iterations re_min im_max pixel_size =
      render_pixels width 0 iterations (d.sub im_max (d.mul (d.of_nat y) pixel_size)) re_min
        pixel_size

  -- A row's task writes its row. The tasks run in the order of the list, as rows are disjoint parts of
  -- the picture.
  unfoldable pub run_tasks : (ℕ → Bytes) → List ℕ → List Bytes → List Bytes
  run_tasks render [] rows = rows
  run_tasks render (y ∷ order) rows = run_tasks render order (modify y (λ old. render y) rows)

  -- The serial loop over the rows from `y` on.
  unfoldable pub render_serial : (ℕ → Bytes) → ℕ → ℕ → List Bytes → List Bytes
  render_serial render zero y rows = rows
  render_serial render (suc count) y rows =
      render_serial render count (y + 1) (modify y (λ old. render y) rows)

  -- A row of the view that the arguments describe.
  abbrev pub view_row : ℕ → ℕ → D → D → D → ℕ → Bytes
  view_row w n cx cy zoom y =
      let least = d.div (d.of_nat 1) (d.of_nat 1000000) in
      let span = d.div (d.of_nat 3) (if d.lt zoom least then least else zoom) in
      let half = d.mul span (hundredths 50) in
      render_mandelbrot_row y w n (d.sub cx half) (d.add cy half) (d.div span (d.of_nat w))

  -- The rows in the order of `y`, in both modes. `pool` gives the order in which the worker threads run
  -- the tasks that are dispatched to them, up to the end of the loop that awaits the tasks.
  unfoldable pub render_rows : (ℕ → Bytes) → ℕ → ℕ → (List ℕ → List ℕ) → List Bytes → List Bytes
  render_rows render h mode pool rows =
      let parallel = run_tasks render (pool (dispatch_tasks h 0)) rows in
      let serial = render_serial render h 0 rows in
      if mode == 0 then (if ltb 1 h then parallel else serial) else serial

  unfoldable pub mandelbrot : ℕ → ℕ → ℕ → D → D → D → ℕ → (List ℕ → List ℕ) → Bytes
  mandelbrot width height iterations cx cy zoom mode pool =
      let w = clamp width 16 1600 in
      let h = clamp height 16 1200 in
      let n = clamp iterations 4 100000 in
      let blank = replicate h (replicate (w * 3) 0) in
      encode_bmp w h (joined (render_rows (view_row w n cx cy zoom) h mode pool blank))
