-- ===== src/Console/Screen.antt =====
-- What kernel/console/console.c promises: a screen of 2000 characters with one position on it, and
-- a serial line that gets the same text.
use tinyshell_os.Base.{
  ℕ, ◌+◌, ◌-◌, ◌*◌, ◌/◌, ◌%◌, ◌&&◌, List, [], ◌∷◌, ◌++◌, Array, write, ltb, leb, ◌==◌,
  if◌then◌else◌,
}
use tinyshell_os.Console.{width, buffer_cells}

pub record Screen : Type 0 where
  pub cells : Array ℕ
  pub position : ℕ
  pub line : List ℕ

-- The character of a cell without text
abbrev pub blank : ℕ
blank = b' '

-- The two bytes of the cell that shows a character in light grey on black
abbrev pub light_grey : ℕ → ℕ
light_grey c = c + 0x0700

abbrev pub rolled : Array ℕ → Array ℕ
rolled a i = if ltb i 1920 then a (i + width) else blank

-- The position moves to a later cell, behind the last one the screen rolls up by a row.
abbrev pub moved_to : ℕ → Screen → Screen
moved_to p t =
    if ltb p buffer_cells
    then record t { position = p }
    else record t { cells = rolled t.cells; position = 1920 }

abbrev pub printed : ℕ → Screen → Screen
printed c t = moved_to (t.position + 1) (record t { cells = write t.cells t.position c })

abbrev pub new_line : Screen → Screen
new_line t = moved_to ((t.position / width + 1) * width) t

abbrev pub erased : Screen → Screen
erased t = record t { position = t.position - 1; cells = write t.cells (t.position - 1) blank }

abbrev pub says : List ℕ → Screen → Screen
says text t = record t { line = t.line ++ text }

unfoldable pub feed : ℕ → Screen → Screen
feed c t =
    if c == 10
    then says (13 ∷ 10 ∷ []) (new_line t)
    else if c == 13
    then says (13 ∷ []) (record t { position = t.position - t.position % width })
    else if c == 8
    then (if t.position == 0 then t else says (8 ∷ b' ' ∷ 8 ∷ []) (erased t))
    else if leb 0x20 c && leb c 0x7E
    then says (c ∷ []) (printed c t)
    else t

unfoldable pub feed_all : List ℕ → Screen → Screen
feed_all [] t = t
feed_all (c ∷ text) t = feed_all text (feed c t)

abbrev pub blank_screen : List ℕ → Screen
blank_screen sent = record { cells = λ _. blank; position = 0; line = sent }
