-- ===== src/LineEditor/Examples.antt =====
-- kernel/shell/line_editor.c on concrete characters.
use tinyshell_os.Base.{◌≡◌, refl, true, some, List, [], ◌∷◌}
use tinyshell_os.LineEditor.{
  Editor, backspace, newline, init, line_echo, line_erase, line_ready, line_none,
}
use tinyshell_os.LineEditor.Line.{type_character, type_open, take_line}
use tinyshell_os.LineEditor.Run.{
  Call, feeds, takes, asks_overflow, event, taken, counted, run, line_step, line_run, blank,
  run-init-line,
}

abbrev stale : Editor
stale = record { buffer = λ _. b'#'; length = 9; overflow_count = 2; ready = true }

abbrev script : List Call
script =
    feeds b'l'
    ∷ feeds b'x'
    ∷ feeds backspace
    ∷ feeds b's'
    ∷ feeds newline
    ∷ feeds b'z'
    ∷ takes 4 (some (λ _. 7))
    ∷ asks_overflow
    ∷ []

run-init-line_example : run (init (some stale)) script ≡ line_run blank script
run-init-line_example = run-init-line stale script

script_replies :
    line_run blank script
    ≡ event line_echo
      ∷ event line_echo
      ∷ event line_erase
      ∷ event line_echo
      ∷ event line_ready
      ∷ event line_none
      ∷ taken true (some (b'l' ∷ b's' ∷ 0 ∷ 7 ∷ []))
      ∷ counted 0
      ∷ []
unfolding line_run line_step type_character type_open take_line
script_replies = refl
