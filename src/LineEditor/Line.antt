-- ===== src/LineEditor/Line.antt =====
-- The abstract line of kernel/shell/line_editor.c: the characters typed and not erased, whether the
-- line is submitted, and how many characters did not fit.
use tinyshell_os.Base.{
  ℕ, ◌+◌, ◌-◌, Bool, true, false, not, ◌||◌, Option, none, some, Array, slice, List, [], ◌∷◌, ◌++◌,
  length, add32, leb, ◌==◌, if◌then◌else◌,
}
use tinyshell_os.LineEditor.{
  line_max, Event, line_none, line_echo, line_erase, line_ready, line_full, backspace, newline,
  carriage_return, is_printable_ascii,
}

pub record Line : Type 0 where
  pub typed : List ℕ
  pub overflows : ℕ
  pub submitted : Bool

abbrev pub drop_last : List ℕ → List ℕ
drop_last [] = []
drop_last (x ∷ []) = []
drop_last (x ∷ y ∷ xs) = x ∷ drop_last (y ∷ xs)

abbrev pub is_empty : List ℕ → Bool
is_empty [] = true
is_empty (x ∷ xs) = false

-- A character typed on an open line.
unfoldable pub type_open : ℕ → Line → Event × Line
type_open c l =
    if c == backspace
    then if is_empty l.typed
      then (line_none, l)
      else (line_erase, record l { typed = drop_last l.typed })
    else if (c == newline) || (c == carriage_return)
    then (line_ready, record l { submitted = true })
    else if not (is_printable_ascii c)
    then (line_none, l)
    else if leb line_max (length l.typed)
    then (line_full, record l { overflows = add32 l.overflows 1 })
    else (line_echo, record l { typed = l.typed ++ (c ∷ []) })

-- A submitted line waits to be taken.
unfoldable pub type_character : ℕ → Line → Event × Line
type_character c l = if l.submitted then (line_none, l) else type_open c l

-- What the caller's buffer of `capacity` bytes holds after a submitted line is copied into it: the
-- line, a NUL, and what stood behind.
abbrev pub taken_bytes : ℕ → List ℕ → Array ℕ → List ℕ
taken_bytes capacity typed line =
    typed ++ (0 ∷ slice line (length typed + 1) (capacity - (length typed + 1)))

unfoldable pub take_line : ℕ → Option (Array ℕ) → Line → Bool × Option (List ℕ) × Line
take_line capacity none l = (false, none, l)
take_line capacity (some line) l =
    if not l.submitted || leb capacity (length l.typed)
    then (false, some (slice line 0 capacity), l)
    else (
      true,
      some (taken_bytes capacity l.typed line),
      record l { typed = []; submitted = false },
    )
