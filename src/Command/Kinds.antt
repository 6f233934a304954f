-- ===== src/Command/Kinds.antt =====
-- `strings_equal` and `command_kind` of kernel/shell/command.c on arrays that spell a word.
use tinyshell_os.Base.{
  ℕ, suc, ◌≡◌, ◌≢◌, Bool, true, false, ◌&&◌, List, [], ◌∷◌, Array, arith, ◌==◌, if◌then◌else◌,
}
use tinyshell_os.Command.{
  Kind, help, clear, echo, ls, cat, touch, write_file, append_file, rm, status, about, unknown,
  codes, strings_equal, command_kind,
}
use tinyshell_os.Command.Words.{Spells}

abbrev pub same_text : List ℕ → List ℕ → Bool
same_text [] [] = true
same_text [] (d ∷ ds) = false
same_text (c ∷ cs) [] = false
same_text (c ∷ cs) (d ∷ ds) = c == d && same_text cs ds

-- No byte of a literal is its NUL.
abbrev Nonzero : List ℕ → Type 0
Nonzero [] = Unit {0}
Nonzero (c ∷ cs) = (c ≢ 0) × Nonzero cs

pub strings_equal-same_text :
    (a : Array ℕ) (i : ℕ) (w : List ℕ) (literal : List ℕ)
    → Spells a i w
    → Nonzero literal
    → strings_equal a i literal ≡ same_text w literal
unfolding strings_equal
strings_equal-same_text a i [] [] s z = ground arith
strings_equal-same_text a i [] (d ∷ ds) s z = ground arith
strings_equal-same_text a i (c ∷ cs) [] s z = ground arith
strings_equal-same_text a i (c ∷ cs) (d ∷ ds) s z =
    ground (arith, strings_equal-same_text a (suc i) cs ds s.2 z.1)

abbrev pub find_name : List ℕ → List (List ℕ × Kind) → Kind
find_name w [] = unknown
find_name w ((name, kind) ∷ names) = if same_text w name then kind else find_name w names

-- The names of the commands.
abbrev pub names : List (List ℕ × Kind)
names =
    (codes "help", help)
    ∷ (codes "clear", clear)
    ∷ (codes "echo", echo)
    ∷ (codes "ls", ls)
    ∷ (codes "cat", cat)
    ∷ (codes "touch", touch)
    ∷ (codes "write", write_file)
    ∷ (codes "append", append_file)
    ∷ (codes "rm", rm)
    ∷ (codes "status", status)
    ∷ (codes "about", about)
    ∷ []

pub command_kind-find_name :
    (a : Array ℕ) (w : List ℕ) → Spells a 0 w → command_kind a ≡ find_name w names
unfolding command_kind
command_kind-find_name a w s = simp (
  strings_equal-same_text a 0 w (codes "help") s (omega arith),
  strings_equal-same_text a 0 w (codes "clear") s (omega arith),
  strings_equal-same_text a 0 w (codes "echo") s (omega arith),
  strings_equal-same_text a 0 w (codes "ls") s (omega arith),
  strings_equal-same_text a 0 w (codes "cat") s (omega arith),
  strings_equal-same_text a 0 w (codes "touch") s (omega arith),
  strings_equal-same_text a 0 w (codes "write") s (omega arith),
  strings_equal-same_text a 0 w (codes "append") s (omega arith),
  strings_equal-same_text a 0 w (codes "rm") s (omega arith),
  strings_equal-same_text a 0 w (codes "status") s (omega arith),
  strings_equal-same_text a 0 w (codes "about") s (omega arith),
)
