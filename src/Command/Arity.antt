-- ===== src/Command/Arity.antt =====
-- `shell_command_has_valid_arity` of kernel/shell/command.c agrees with the usage texts.
use tinyshell_os.Base.{
  ℕ, ◌+◌, ◌≡◌, refl, Bool, false, ◌||◌, ◌&&◌, Option, none, some, List, [], ◌∷◌, arith, leb, ◌==◌,
  if◌then◌else◌,
}
use Prim.Native.String.{String}
use tinyshell_os.Command.{
  Command, Kind, help, clear, echo, ls, cat, touch, write_file, append_file, rm, status, about,
  unknown, codes, max_args, arity_fits, has_valid_arity, usage,
}

-- How many arguments a usage text asks for: each `<` begins one.
abbrev pub asked : List ℕ → ℕ
asked [] = 0
asked (c ∷ cs) = (if c == b'<' then 1 else 0) + asked cs

-- An ellipsis allows more.
abbrev pub is_open : List ℕ → Bool
is_open [] = false
is_open (c ∷ cs) = c == b'.' || is_open cs

-- The counts that a usage text allows, up to what the parser takes.
abbrev pub allowed : Option String → ℕ → Bool
allowed none n = false
allowed (some text) n =
    leb (asked (codes text)) n
    && leb n (if is_open (codes text) then max_args else asked (codes text))

arity_fits-allowed : (kind : Kind) (n : ℕ) → arity_fits kind n ≡ allowed (usage kind) n
unfolding usage
arity_fits-allowed help n = ground arith
arity_fits-allowed clear n = ground arith
arity_fits-allowed echo n = ground arith
arity_fits-allowed ls n = ground arith
arity_fits-allowed cat n = ground arith
arity_fits-allowed touch n = ground arith
arity_fits-allowed write_file n = ground arith
arity_fits-allowed append_file n = ground arith
arity_fits-allowed rm n = ground arith
arity_fits-allowed status n = ground arith
arity_fits-allowed about n = ground arith
arity_fits-allowed unknown n = refl

-- A command's number of arguments is valid exactly if its usage text allows it: at least one for
-- each `<`, and no more unless the text has an ellipsis, which allows up to eight; a command with
-- no usage text has no valid number.
pub has_valid_arity-usage :
    (command : Command)
    → has_valid_arity (some command) ≡ allowed (usage command.kind) command.argument_count
unfolding has_valid_arity
has_valid_arity-usage command = arity_fits-allowed command.kind command.argument_count
