-- ===== src/Console.antt =====
-- kernel/console/console.c with kernel/serial.c: the text screen of 25 rows of 80 cells and the
-- serial line. The static variables, the screen's memory and the bytes that COM1 has sent are the
-- state; the waiting for the transmitter is left out. A function that only touches the screen's
-- memory takes that memory. A string is the list of its bytes before the NUL.
pub mod Cells
pub mod Screen
pub mod Moves
pub mod Run
pub mod Digits
pub mod Numbers
mod Examples
use tinyshell_os.Base.{
  ℕ, zero, suc, ◌+◌, ◌-◌, ◌*◌, ◌/◌, ◌%◌, ◌^◌, Bool, true, false, ◌||◌, not, Option, none, some,
  List, [], ◌∷◌, ◌++◌, Array, write, loop, ltb, leb, ◌==◌, if◌then◌else◌,
}

-- VGA_WIDTH, VGA_HEIGHT and VGA_BUFFER_CELLS
abbrev pub width : ℕ
width = 80

abbrev pub height : ℕ
height = 25

abbrev pub buffer_cells : ℕ
buffer_cells = 2000

pub record Console : Type 0 where
  pub vga_buffer : Array ℕ
  pub vga_row : ℕ
  pub vga_column : ℕ
  pub sent : List ℕ

-- Of a byte
abbrev pub vga_entry : ℕ → ℕ
vga_entry value = value + 0x07 * 2 ^ 8

abbrev pub vga_blank : ℕ
vga_blank = vga_entry b' '

unfoldable pub vga_put_cell : ℕ → ℕ → ℕ → Array ℕ → Array ℕ
vga_put_cell row column entry b =
    if leb buffer_cells (row * width + column) then b else write b (row * width + column) entry

-- `for (column = 0; column < VGA_WIDTH; ++column) vga_put_cell(row, column, entry(column));`
unfoldable pub put_row : ℕ → (ℕ → Array ℕ → ℕ) → ℕ → Array ℕ → Array ℕ
put_row row entry n b = loop n (λ column b. vga_put_cell row column (entry column b) b) b

unfoldable pub scrolled : Array ℕ → Array ℕ
scrolled b =
    put_row (height - 1) (λ _ _. vga_blank) width
      (loop (height - 1) (λ row b. put_row row (λ column b. b ((row + 1) * width + column)) width b)
        b)

abbrev pub vga_scroll : Console → Console
vga_scroll s = record s { vga_buffer = scrolled s.vga_buffer; vga_row = height - 1 }

unfoldable pub vga_advance_line : Console → Console
vga_advance_line s =
    if s.vga_row + 1 == height
    then vga_scroll (record s { vga_column = 0; vga_row = s.vga_row + 1 })
    else record s { vga_column = 0; vga_row = s.vga_row + 1 }

abbrev pub blank_at : ℕ → ℕ → Console → Console
blank_at row column s = record s {
  vga_row = row;
  vga_column = column;
  vga_buffer = vga_put_cell row column vga_blank s.vga_buffer;
}

unfoldable pub vga_backspace : Console → Bool × Console
vga_backspace s =
    if ltb 0 s.vga_column
    then (true, blank_at s.vga_row (s.vga_column - 1) s)
    else if ltb 0 s.vga_row
    then (true, blank_at (s.vga_row - 1) (width - 1) s)
    else (false, s)

unfoldable pub vga_put_printable : ℕ → Console → Console
vga_put_printable value s = if s.vga_column + 1 == width then vga_advance_line put else put
  where
    put : Console
    put = record s {
      vga_buffer = vga_put_cell s.vga_row s.vga_column (vga_entry value) s.vga_buffer;
      vga_column = s.vga_column + 1;
    }

-- What `serial_write` transmits
abbrev pub transmitted : List ℕ → List ℕ
transmitted [] = []
transmitted (c ∷ text) = if c == 10 then 13 ∷ c ∷ transmitted text else c ∷ transmitted text

abbrev pub serial_write : List ℕ → Console → Console
serial_write text s = record s { sent = s.sent ++ transmitted text }

-- Of a byte that is not NUL
abbrev pub serial_putc : ℕ → Console → Console
serial_putc value = serial_write (value ∷ [])

unfoldable pub cleared : Array ℕ → Array ℕ
cleared b = loop height (λ row b. put_row row (λ _ _. vga_blank) width b) b

unfoldable pub clear : Console → Console
clear s = record s { vga_buffer = cleared s.vga_buffer; vga_row = 0; vga_column = 0 }

-- `serial_init` writes COM1's control registers, which are not part of the state.
unfoldable pub init : Console → Console
unfolding clear
init s = clear s

unfoldable pub putc : ℕ → Console → Console
putc value s =
    if value == 10
    then serial_putc value (vga_advance_line s)
    else if value == 13
    then serial_putc value (record s { vga_column = 0 })
    else if value == 8
    then (let (moved, s') = vga_backspace s in
        if moved then serial_write (8 ∷ b' ' ∷ 8 ∷ []) s' else s')
    else if ltb value 0x20 || ltb 0x7E value
    then s
    else serial_putc value (vga_put_printable value s)

unfoldable pub put_all : List ℕ → Console → Console
put_all [] s = s
put_all (c ∷ text) s = put_all text (putc c s)

unfoldable pub write_text : Option (List ℕ) → Console → Console
write_text none s = s
write_text (some text) s = put_all text s
