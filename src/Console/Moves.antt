-- ===== src/Console/Moves.antt =====
-- What kernel/console/console.c does to the cells and the cursor, against the screen.
use tinyshell_os.Base.{
  ℕ, ◌+◌, ◌-◌, ◌*◌, ◌/◌, ◌%◌, ◌<◌, ◌≡◌, refl, ap, ◌∙◌, inl, inr, true, false, List, [], ◌∷◌, ◌++◌,
  arith, Array, write, Bool-cases, ltb, ◌==◌, if◌then◌else◌,
}
use tinyshell_os.Console.{
  Console, width, height, buffer_cells, vga_entry, vga_put_cell, scrolled, blank_at,
  vga_advance_line, vga_backspace, vga_put_printable,
}
use tinyshell_os.Console.Cells.{cell, scrolled-cell}
use tinyshell_os.Console.Screen.{
  Screen, blank, light_grey, rolled, moved_to, printed, new_line, erased, says,
}

pub record Shows (s : Console) (t : Screen) : Type 0 where
  pub row_fits : s.vga_row < height
  pub column_fits : s.vga_column < width
  pub same_position : t.position ≡ s.vga_row * width + s.vga_column
  pub same_cells : (i : ℕ) → i < buffer_cells → s.vga_buffer i ≡ light_grey (t.cells i)
  pub same_line : s.sent ≡ t.line

-- A cell by its index
pub by_index : (b : Array ℕ) (i : ℕ) → b i ≡ cell b (i / width) (i % width)
by_index b i = ap b (omega arith)

put_cell_at :
    (row column entry : ℕ) (b : Array ℕ) (i : ℕ)
    → row < height
    → column < width
    → vga_put_cell row column entry b i ≡ write b (row * width + column) entry i
unfolding vga_put_cell
put_cell_at row column entry b i lr lc = ground arith

rolled_at :
    (b a : Array ℕ) (i : ℕ)
    → ((i : ℕ) → i < buffer_cells → b i ≡ light_grey (a i))
    → i < buffer_cells
    → scrolled b i ≡ light_grey (rolled a i)
rolled_at b a i same lt =
    by_index (scrolled b) i
    ∙ scrolled-cell b (i / width) (i % width) (omega arith) (omega arith)
    ∙ elim (Bool-cases (ltb i 1920)) [
      | inl above ↦
          let e : (i / width == height - 1) ≡ false = ground arith in
          rw (above, e) (ap b (omega arith) ∙ same (i + width) (ground arith))
      | inr last ↦ let e : (i / width == height - 1) ≡ true = ground arith in rw (last, e) refl
    ]

advance-Shows :
    (s : Console) (t : Screen) (p : ℕ)
    → s.vga_row < height
    → p ≡ (s.vga_row + 1) * width
    → ((i : ℕ) → i < buffer_cells → s.vga_buffer i ≡ light_grey (t.cells i))
    → s.sent ≡ t.line
    → Shows (vga_advance_line s) (moved_to p t)
unfolding vga_advance_line
advance-Shows s t p lr e same line = elim (Bool-cases (s.vga_row + 1 == height)) [
  | inl last ↦
      let over : ltb p buffer_cells ≡ false = ground arith in
      simp (last, over)
        (record {
          row_fits = omega arith;
          column_fits = omega arith;
          same_position = refl;
          same_cells = λ i lt. rolled_at s.vga_buffer t.cells i same lt;
          same_line = line;
        })
  | inr other ↦
      let fits : ltb p buffer_cells ≡ true = ground arith in
      simp (other, fits)
        (record {
          row_fits = ground arith;
          column_fits = omega arith;
          same_position = omega arith;
          same_cells = same;
          same_line = line;
        })
]

-- The cell at the position takes a character.
put_cell-same :
    (s : Console) (t : Screen) (row column c p i : ℕ)
    → row < height
    → column < width
    → p ≡ row * width + column
    → ((i : ℕ) → i < buffer_cells → s.vga_buffer i ≡ light_grey (t.cells i))
    → i < buffer_cells
    → vga_put_cell row column (light_grey c) s.vga_buffer i ≡ light_grey (write t.cells p c i)
put_cell-same s t row column c p i lr lc e same lt =
    put_cell_at row column (light_grey c) s.vga_buffer i lr lc ∙ elim (Bool-cases (i == p)) [
      | inl here ↦
          let here' : (i == row * width + column) ≡ true = ground arith in rw (here, here') refl
      | inr other ↦
          let other' : (i == row * width + column) ≡ false = ground arith in
          rw (other, other') (same i lt)
    ]

pub printed-Shows :
    (c : ℕ) (s : Console) (t : Screen) → Shows s t → Shows (vga_put_printable c s) (printed c t)
unfolding vga_put_printable
printed-Shows c s t sh = elim (Bool-cases (s.vga_column + 1 == width)) [
  | inl full ↦ simp full (
      advance-Shows
        (record s {
          vga_buffer = vga_put_cell s.vga_row s.vga_column (vga_entry c) s.vga_buffer;
          vga_column = s.vga_column + 1;
        })
        (record t { cells = write t.cells t.position c }) (t.position + 1) sh.row_fits
        (ground (arith, sh.same_position))
        (λ i lt.
          put_cell-same s t s.vga_row s.vga_column c t.position i sh.row_fits sh.column_fits
            sh.same_position sh.same_cells lt)
        sh.same_line)
  | inr room ↦
      let fits : ltb (t.position + 1) buffer_cells ≡ true =
        ground (arith, sh.same_position, sh.row_fits, sh.column_fits) in
      simp (room, fits)
        (record {
          row_fits = sh.row_fits;
          column_fits = ground (arith, sh.column_fits);
          same_position = omega (arith, sh.same_position);
          same_cells = λ i lt.
              put_cell-same s t s.vga_row s.vga_column c t.position i sh.row_fits sh.column_fits
                sh.same_position sh.same_cells lt;
          same_line = sh.same_line;
        })
]

pub new_line-Shows :
    (s : Console) (t : Screen) → Shows s t → Shows (vga_advance_line s) (new_line t)
new_line-Shows s t sh =
    advance-Shows s t ((t.position / width + 1) * width) sh.row_fits
      (omega (arith, sh.same_position, sh.column_fits)) sh.same_cells sh.same_line

blank_at-Shows :
    (row column : ℕ) (s : Console) (t : Screen)
    → Shows s t
    → row < height
    → column < width
    → t.position - 1 ≡ row * width + column
    → Shows (blank_at row column s) (erased t)
blank_at-Shows row column s t sh lr lc e = record {
  row_fits = lr;
  column_fits = lc;
  same_position = e;
  same_cells =
      λ i lt. put_cell-same s t row column blank (t.position - 1) i lr lc e sh.same_cells lt;
  same_line = sh.same_line;
}

pub says-Shows :
    (s : Console) (t : Screen) (text : List ℕ)
    → Shows s t
    → Shows (record s { sent = s.sent ++ text }) (says text t)
says-Shows s t text sh = record {
  row_fits = sh.row_fits;
  column_fits = sh.column_fits;
  same_position = sh.same_position;
  same_cells = sh.same_cells;
  same_line = ap (λ l. l ++ text) sh.same_line;
}

pub backspace-Shows :
    (s : Console) (t : Screen)
    → Shows s t
    → Shows
        (let (moved, s') = vga_backspace s in
          if moved then record s' { sent = s'.sent ++ (8 ∷ b' ' ∷ 8 ∷ []) } else s')
        (if t.position == 0 then t else says (8 ∷ b' ' ∷ 8 ∷ []) (erased t))
unfolding vga_backspace
backspace-Shows s t sh = elim (Bool-cases (ltb 0 s.vga_column)) [
  | inl right ↦
      let e : (t.position == 0) ≡ false = ground (arith, sh.same_position) in
      rw (right, e)
        (says-Shows _ _ _ (
          blank_at-Shows s.vga_row (s.vga_column - 1) s t sh sh.row_fits
            (omega (arith, sh.column_fits)) (ground (arith, sh.same_position))))
  | inr left ↦ elim (Bool-cases (ltb 0 s.vga_row)) [
    | inl low ↦
        let e : (t.position == 0) ≡ false = ground (arith, sh.same_position) in
        rw (left, low, e)
          (says-Shows _ _ _ (
            blank_at-Shows (s.vga_row - 1) (width - 1) s t sh (omega (arith, sh.row_fits))
              (omega arith) (ground (arith, sh.same_position))))
    | inr top ↦
        let e : (t.position == 0) ≡ true = ground (arith, sh.same_position) in rw (left, top, e) sh
  ]
]
