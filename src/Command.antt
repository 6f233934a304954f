-- ===== src/Command.antt =====
-- kernel/shell/command.c with include/shell/command.h: a command line becomes a command with at
-- most eight arguments. A line is the list of its bytes; behind its end, and at a zero byte, stands
-- the NUL. The pointers that the code compares with 0 are Options. What a local variable holds
-- before it is cleared is a parameter.
pub mod Words
pub mod Tokens
pub mod Kinds
pub mod Parse
pub mod Line
pub mod RoundTrip
pub mod Arity
mod Examples
use Prim.Native.String
use Prim.Native.String.{String}
use Prim.Native.Char.{code}
use tinyshell_os.Base.{
  ℕ, zero, suc, ◌+◌, ◌≡◌, refl, Bool, true, false, ◌||◌, ◌&&◌, Option, none, some, List, [], ◌∷◌,
  Array, write, each, leb, ◌==◌, if◌then◌else◌,
}

-- SHELL_COMMAND_MAX_ARGS
abbrev pub max_args : ℕ
max_args = 8

-- SHELL_COMMAND_ARG_MAX
abbrev pub arg_max : ℕ
arg_max = 31

-- `enum shell_command_kind`
pub data Kind : Type 0 where
  help clear echo ls cat touch write_file append_file rm status about unknown : Kind

-- `enum shell_parse_result`
pub data ParseResult : Type 0 where
  parse_ok parse_empty parse_invalid_argument : ParseResult
  parse_too_many_arguments parse_argument_too_long : ParseResult

pub record Command : Type 0 where
  pub kind : Kind
  pub name : Array ℕ
  pub argument_count : ℕ
  pub arguments : Array (Array ℕ)

abbrev pub is_separator : ℕ → Bool
is_separator c = c == b' ' || c == 9

-- The bytes of a literal, without its NUL.
abbrev pub codes : String → List ℕ
codes String.[] = []
codes (String.◌∷◌ c s) = code c ∷ codes s

-- From index `i` on; `right` is what is left of a literal, whose end is its NUL.
unfoldable pub strings_equal : Array ℕ → ℕ → List ℕ → Bool
strings_equal left i [] = left i == 0
strings_equal left i (c ∷ right) =
    let rest = strings_equal left (suc i) right in
    if left i == c then if c == 0 then true else rest else false

unfoldable pub command_kind : Array ℕ → Kind
command_kind name =
    if strings_equal name 0 (codes "help")
    then help
    else if strings_equal name 0 (codes "clear")
    then clear
    else if strings_equal name 0 (codes "echo")
    then echo
    else if strings_equal name 0 (codes "ls")
    then ls
    else if strings_equal name 0 (codes "cat")
    then cat
    else if strings_equal name 0 (codes "touch")
    then touch
    else if strings_equal name 0 (codes "write")
    then write_file
    else if strings_equal name 0 (codes "append")
    then append_file
    else if strings_equal name 0 (codes "rm")
    then rm
    else if strings_equal name 0 (codes "status")
    then status
    else if strings_equal name 0 (codes "about")
    then about
    else unknown

unfoldable pub command_clear : Command → Command
command_clear command = record {
  kind = unknown;
  name = each (suc arg_max) (λ _ _. 0) command.name;
  argument_count = 0;
  arguments =
      each max_args (λ _ argument. each (suc arg_max) (λ _ _. 0) argument) command.arguments;
}

-- `copy_token` with `length` bytes copied: the result, the cursor and the destination.
unfoldable pub copy_token : ℕ → List ℕ → Array ℕ → ParseResult × List ℕ × Array ℕ
copy_token length [] destination = (parse_ok, [], write destination length 0)
copy_token length (c ∷ cs) destination =
    let rest = copy_token (suc length) cs (write destination length c) in
    if c == 0 || is_separator c
    then (parse_ok, c ∷ cs, write destination length 0)
    else if leb arg_max length
    then (parse_argument_too_long, c ∷ cs, destination)
    else rest

-- `while (is_separator(*cursor)) cursor += 1;`
unfoldable pub skip_separators : List ℕ → List ℕ
skip_separators [] = []
skip_separators (c ∷ cs) = if is_separator c then skip_separators cs else c ∷ cs

-- `*cursor == '\0'`
abbrev pub at_end : List ℕ → Bool
at_end [] = true
at_end (c ∷ cs) = c == 0

-- The loop over the arguments; `none` means that the rounds ran out.
unfoldable pub take_arguments : ℕ → List ℕ → Command → Option (ParseResult × Command)
take_arguments zero cursor parsed = none
take_arguments (suc rounds) cursor parsed =
    let start = skip_separators cursor in
    let (result, behind, destination) =
      copy_token 0 start (parsed.arguments parsed.argument_count) in
    let next = take_arguments rounds behind (record parsed {
      argument_count = parsed.argument_count + 1;
      arguments = write parsed.arguments parsed.argument_count destination;
    }) in
    if at_end start
    then some (parse_ok, parsed)
    else if leb max_args parsed.argument_count
    then some (parse_too_many_arguments, parsed)
    else elim result [ parse_ok ↦ next | other ↦ some (other, parsed) ]

-- `*command = parsed` on success
abbrev pub finish : Command → Option (ParseResult × Command) → Option (ParseResult × Command)
finish command none = none
finish command (some (parse_ok, parsed)) = some (parse_ok, parsed)
finish command (some (result, parsed)) = some (result, command)

-- Nine rounds are enough: each but the last takes an argument.
unfoldable pub parse_line : Command → List ℕ → Command → Option (ParseResult × Command)
parse_line uncleared line command =
    let start = skip_separators line in
    let parsed = command_clear uncleared in
    let (result, behind, name) = copy_token 0 start parsed.name in
    if at_end start then some (parse_empty, command) else elim result [
      | parse_ok ↦ finish command (
          take_arguments (suc max_args) behind
            (record parsed { name = name; kind = command_kind name }))
      | other ↦ some (other, command)
    ]

unfoldable pub parse :
    Command → Option (List ℕ) → Option Command → Option (ParseResult × Option Command)
parse uncleared none command = some (parse_invalid_argument, command)
parse uncleared (some line) none = some (parse_invalid_argument, none)
parse uncleared (some line) (some command) = elim (parse_line uncleared line command) [
  | none ↦ none
  | some (result, command) ↦ some (result, some command)
]

-- The `switch` of `shell_command_has_valid_arity`
abbrev pub arity_fits : Kind → ℕ → Bool
arity_fits help n = n == 0
arity_fits clear n = n == 0
arity_fits ls n = n == 0
arity_fits status n = n == 0
arity_fits about n = n == 0
arity_fits cat n = n == 1
arity_fits touch n = n == 1
arity_fits rm n = n == 1
arity_fits write_file n = leb 2 n && leb n max_args
arity_fits append_file n = leb 2 n && leb n max_args
arity_fits echo n = leb n max_args
arity_fits unknown n = false

unfoldable pub has_valid_arity : Option Command → Bool
has_valid_arity none = false
has_valid_arity (some command) = arity_fits command.kind command.argument_count

unfoldable pub usage : Kind → Option String
usage help = some "help"
usage clear = some "clear"
usage echo = some "echo [text ...]"
usage ls = some "ls"
usage cat = some "cat <name>"
usage touch = some "touch <name>"
usage write_file = some "write <name> <text ...>"
usage append_file = some "append <name> <text ...>"
usage rm = some "rm <name>"
usage status = some "status"
usage about = some "about"
usage unknown = none

unfoldable pub help_text : String
help_text =
    "help\nclear\necho [text ...]\nls\ncat <name>\ntouch <name>\nwrite <name> <text ...>\nappend <name> <text ...>\nrm <name>\nstatus\nabout"
