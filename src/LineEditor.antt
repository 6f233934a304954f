-- ===== src/LineEditor.antt =====
-- kernel/shell/line_editor.c with include/shell/line_editor.h: the line that the user is typing. A
-- pointer that the code compares with NULL is an Option: of the editor, or of the caller's buffer.
-- A character is its byte.
pub mod Line
pub mod Refine
pub mod Run
mod Examples
use tinyshell_os.Base.{
  ℕ, suc, ◌+◌, ◌-◌, Bool, true, false, not, ◌&&◌, ◌||◌, Option, none, some, Array, write, each,
  add32, ltb, leb, ◌==◌, if◌then◌else◌,
}

-- SHELL_LINE_MAX
abbrev pub line_max : ℕ
line_max = 127

-- `enum shell_line_event`
pub data Event : Type 0 where
  line_none line_echo line_erase line_ready line_full : Event

pub record Editor : Type 0 where
  pub buffer : Array ℕ
  pub length : ℕ
  pub overflow_count : ℕ
  pub ready : Bool

-- '\b', '\n' and '\r'
abbrev pub backspace : ℕ
backspace = 8

abbrev pub newline : ℕ
newline = 10

abbrev pub carriage_return : ℕ
carriage_return = 13

abbrev pub is_printable_ascii : ℕ → Bool
is_printable_ascii byte = leb 0x20 byte && leb byte 0x7e

unfoldable pub clear_line_buffer : Editor → Editor
clear_line_buffer editor = record editor {
  buffer = each (suc line_max) (λ _ _. 0) editor.buffer;
  length = 0;
  ready = false;
}

unfoldable pub init : Option Editor → Option Editor
init none = none
init (some editor) = some (record (clear_line_buffer editor) { overflow_count = 0 })

-- `buffer[length] = character; length += 1; buffer[length] = '\0';`
unfoldable pub put : ℕ → Editor → Editor
put character editor = record editor {
  buffer = write (write editor.buffer editor.length character) (add32 editor.length 1) 0;
  length = add32 editor.length 1;
}

-- `length -= 1; buffer[length] = '\0';` behind the test that the line is not empty
unfoldable pub erase : Editor → Editor
erase editor = record editor {
  buffer = write editor.buffer (editor.length - 1) 0;
  length = editor.length - 1;
}

-- `shell_line_editor_feed` behind its tests of the editor
unfoldable pub feed_character : ℕ → Editor → Event × Editor
feed_character character editor =
    if character == backspace
    then if editor.length == 0 then (line_none, editor) else (line_erase, erase editor)
    else if (character == newline) || (character == carriage_return)
    then (line_ready, record editor { ready = true })
    else if not (is_printable_ascii character)
    then (line_none, editor)
    else if leb line_max editor.length
    then (line_full, record editor { overflow_count = add32 editor.overflow_count 1 })
    else (line_echo, put character editor)

unfoldable pub feed : ℕ → Option Editor → Event × Option Editor
feed character none = (line_none, none)
feed character (some editor) =
    if editor.ready
    then (line_none, some editor)
    else let (event, editor') = feed_character character editor in (event, some editor')

unfoldable pub take : ℕ → Option Editor → Option (Array ℕ) → Bool × Option Editor × Option (Array ℕ)
take capacity none line = (false, none, line)
take capacity (some editor) none = (false, some editor, none)
take capacity (some editor) (some line) =
    if not editor.ready || (ltb line_max editor.length || leb capacity editor.length)
    then (false, some editor, some line)
    else (
      true,
      some (clear_line_buffer editor),
      some (each (suc editor.length) (λ i _. editor.buffer i) line),
    )

unfoldable pub overflow_count : Option Editor → ℕ
overflow_count none = 0
overflow_count (some editor) = editor.overflow_count
