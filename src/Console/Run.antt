-- ===== src/Console/Run.antt =====
-- The text calls of kernel/console/console.c against the screen.
use tinyshell_os.Base.{
  ℕ, ◌-◌, ◌/◌, ◌%◌, ◌≡◌, refl, ◌∙◌, inl, inr, true, false, ◌&&◌, ◌||◌, some, List, [], ◌∷◌, arith,
  Bool-cases, ltb, leb, ◌==◌,
}
use tinyshell_os.Console.{Console, width, cleared, clear, putc, put_all, write_text}
use tinyshell_os.Console.Cells.{cleared-cell}
use tinyshell_os.Console.Screen.{Screen, feed, feed_all, blank_screen}
use tinyshell_os.Console.Moves.{
  Shows, by_index, printed-Shows, new_line-Shows, says-Shows, backspace-Shows,
}

feed-Shows : (c : ℕ) (s : Console) (t : Screen) → Shows s t → Shows (putc c s) (feed c t)
unfolding putc feed
feed-Shows c s t sh = elim (Bool-cases (c == 10)) [
  | inl lf ↦
      let e : c ≡ 10 = ground arith in rw e (says-Shows _ _ (13 ∷ 10 ∷ []) (new_line-Shows s t sh))
  | inr l ↦ elim (Bool-cases (c == 13)) [
    | inl cr ↦
        let e : c ≡ 13 = ground arith in
        rw e (
          says-Shows (record s { vga_column = 0 })
            (record t { position = t.position - t.position % width }) (13 ∷ [])
            (record {
              row_fits = sh.row_fits;
              column_fits = omega arith;
              same_position = omega (arith, sh.same_position, sh.column_fits);
              same_cells = sh.same_cells;
              same_line = sh.same_line;
            }))
    | inr r ↦ elim (Bool-cases (c == 8)) [
      | inl bs ↦ let e : c ≡ 8 = ground arith in rw e (backspace-Shows s t sh)
      | inr b ↦ elim (Bool-cases (ltb c 0x20 || ltb 0x7E c)) [
        | inl hidden ↦
            let e : (leb 0x20 c && leb c 0x7E) ≡ false = ground arith in rw (l, r, b, hidden, e) sh
        | inr shown ↦
            let e : (leb 0x20 c && leb c 0x7E) ≡ true = ground arith in
            rw (l, r, b, shown, e) (says-Shows _ _ (c ∷ []) (printed-Shows c s t sh))
      ]
    ]
  ]
]

feed_all-Shows :
    (text : List ℕ) (s : Console) (t : Screen)
    → Shows s t
    → Shows (put_all text s) (feed_all text t)
unfolding put_all feed_all
feed_all-Shows [] s t sh = sh
feed_all-Shows (c ∷ text) s t sh = feed_all-Shows text (putc c s) (feed c t) (feed-Shows c s t sh)

clear-Shows : (s : Console) → Shows (clear s) (blank_screen s.sent)
unfolding clear
clear-Shows s = record {
  row_fits = omega arith;
  column_fits = omega arith;
  same_position = refl;
  same_cells = λ i lt.
      by_index (cleared s.vga_buffer) i
      ∙ cleared-cell s.vga_buffer (i / width) (i % width) (omega arith) (omega arith);
  same_line = refl;
}

-- Text that is written behind `console_clear`, whatever the screen and the cursor held before,
-- leaves the screen, the position and the serial line that a terminal of 2000 characters has which
-- is fed the same bytes: a printable byte is the character at the position, which moves on; a newline
-- moves to the next row and a carriage return to the row's start; a backspace steps back and blanks
-- the cell, and at the first cell does nothing; behind the last cell the screen rolls up by one row;
-- other bytes are ignored. Each cell of the screen's memory holds the terminal's character there with
-- the attribute of light grey on black. The cursor's row is below 25 and its column below 80.
pub write_text-clear-Shows :
    (s : Console) (text : List ℕ)
    → Shows (write_text (some text) (clear s)) (feed_all text (blank_screen s.sent))
unfolding write_text
write_text-clear-Shows s text = feed_all-Shows text (clear s) (blank_screen s.sent) (clear-Shows s)
