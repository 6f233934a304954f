-- ===== src/Command/Line.antt =====
-- What `shell_command_parse` of kernel/shell/command.c returns for a line, and for a printed one.
use mathlib.Core.Path.{subst}
use tinyshell_os.Base.{
  ℕ, suc, ◌≡◌, refl, ap, ◌∙◌, sym, inl, inr, true, false, Option, some, List, [], ◌∷◌, Array, arith,
  length, leb, Bool-cases,
}
use tinyshell_os.Command.{
  Command, ParseResult, parse_ok, parse_empty, parse_invalid_argument, parse_too_many_arguments,
  parse_argument_too_long, arg_max, max_args, at_end, skip_separators, copy_token, take_arguments,
  command_clear, command_kind, finish, parse_line, parse,
}
use tinyshell_os.Command.Words.{split, words, Spells, SpellAll, words-at_end, words-not_at_end}
use tinyshell_os.Command.Tokens.{Copied, copy_token-Copied, copy_token_too_long}
use tinyshell_os.Command.Kinds.{find_name, names, command_kind-find_name}
use tinyshell_os.Command.Parse.{check_arguments, check_words, take_arguments-Taken}

-- The command with the given name and arguments.
pub record IsCommandOf (w : List ℕ) (ws : List (List ℕ)) (out : Command) : Type 0 where
  pub kind_found : out.kind ≡ find_name w names
  pub named : Spells out.name 0 w
  pub counted : out.argument_count ≡ length ws
  pub spelled : SpellAll out.arguments 0 ws

-- What the caller's command holds: the parsed one on success, and else what it held.
abbrev pub Holds : List (List ℕ) → Command → ParseResult → Command → Type 0
Holds [] command result out = out ≡ command
Holds (w ∷ ws) command parse_ok out = IsCommandOf w ws out
Holds (w ∷ ws) command _ out = out ≡ command

pub record ParsesTo (ls : List (List ℕ)) (command : Command) (o : Option (ParseResult × Command))
    : Type 0 where
  pub out : Command
  pub returns : o ≡ some (check_words ls, out)
  pub holds : Holds ls command (check_words ls) out

finish_lem :
    (command out : Command) (w : List ℕ) (ws : List (List ℕ)) (r : ParseResult)
    → (r ≡ parse_ok → IsCommandOf w ws out)
    → (out' : Command) × (finish command (some (r, out)) ≡ some (r, out'))
      × Holds (w ∷ ws) command r out'
finish_lem command out w ws parse_ok h = (out, refl, h refl)
finish_lem command out w ws parse_empty h = (command, refl, refl)
finish_lem command out w ws parse_invalid_argument h = (command, refl, refl)
finish_lem command out w ws parse_too_many_arguments h = (command, refl, refl)
finish_lem command out w ws parse_argument_too_long h = (command, refl, refl)

named : Command → Array ℕ → Command
named cleared name = record cleared { name = name; kind = command_kind name }

module _ (uncleared : Command) (line : List ℕ) (command : Command) where
  abbrev cleared : Command
  cleared = command_clear uncleared

  abbrev token : ParseResult × List ℕ × Array ℕ
  token = copy_token 0 (skip_separators line) cleared.name

  parse_line_end :
      at_end (skip_separators line) ≡ true
      → parse_line uncleared line command ≡ some (parse_empty, command)
  unfolding parse_line
  parse_line_end e = rw e

  parse_line_long :
      at_end (skip_separators line) ≡ false
      → token.0 ≡ parse_argument_too_long
      → parse_line uncleared line command ≡ some (parse_argument_too_long, command)
  unfolding parse_line
  parse_line_long e long = rw (e, long)

  parse_line_named :
      at_end (skip_separators line) ≡ false
      → token.0 ≡ parse_ok
      → parse_line uncleared line command
        ≡ finish command (take_arguments (suc max_args) token.1 (named cleared token.2))
  unfolding parse_line named
  parse_line_named e fits = rw (e, fits)

  -- The name is a word that fits, and the loop takes the others.
  name_taken :
      (w : List ℕ) (ws : List (List ℕ))
      → at_end (skip_separators line) ≡ false
      → Copied 0 w ws cleared.name token
      → (out : Command) × (parse_line uncleared line command ≡ some (check_arguments 0 ws, out))
        × Holds (w ∷ ws) command (check_arguments 0 ws) out
  unfolding named command_clear
  name_taken w ws e c =
      let t =
        take_arguments-Taken (suc max_args) token.1 (named cleared token.2) (omega arith)
          (omega arith) in
      let (out, returns, holds) =
        finish_lem command t.out w (words token.1) (check_arguments 0 (words token.1)) (λ ok.
          let x = t.extends ok in
          record {
            kind_found = x.same_kind ∙ command_kind-find_name token.2 w c.spelled;
            named = subst (λ a. Spells a 0 w) (sym x.same_name) c.spelled;
            counted = omega (arith, x.counted);
            spelled = x.spelled;
          }) in
      rw (← c.behind)
        (out, parse_line_named e c.result ∙ ap (finish command) t.returns ∙ returns, holds)

word_first :
    (uncleared : Command) (line : List ℕ) (command : Command)
    → at_end (skip_separators line) ≡ false
    → let (w, ws) = split (skip_separators line) in
      ParsesTo (w ∷ ws) command (parse_line uncleared line command)
unfolding check_words
word_first uncleared line command e =
    let (w, ws) = split (skip_separators line) in
    elim (Bool-cases (leb (length w) arg_max)) [
      | inr long ↦ record {
        out = command;
        returns = rw long (
            parse_line_long uncleared line command e (
              copy_token_too_long 0 (skip_separators line) (command_clear uncleared).name
                (omega arith) (ground arith)));
        holds = rw long;
      }
      | inl fits ↦
          let c =
            copy_token-Copied 0 (skip_separators line) (command_clear uncleared).name
              (ground arith) in
          let (out, returns, holds) = name_taken uncleared line command w ws e c in
          record { out = out; returns = rw fits returns; holds = rw fits holds }
    ]

parse_line-ParsesTo :
    (uncleared : Command) (line : List ℕ) (command : Command)
    → ParsesTo (words line) command (parse_line uncleared line command)
unfolding check_words
parse_line-ParsesTo uncleared line command = elim (Bool-cases (at_end (skip_separators line))) [
  | inl e ↦
      rw (words-at_end line e)
        (record { out = command; returns = parse_line_end uncleared line command e; holds = refl })
  | inr e ↦ rw (words-not_at_end line e) (word_first uncleared line command e)
]

-- `shell_command_parse` of any line into any command, whatever its local variable held before: the
-- result is the one that the words of the line call for, read in order (empty without a word, the
-- first word longer than 31 bytes or behind eight arguments is refused), on success the command
-- spells the first word as its name and the others as its arguments, with the kind that the name
-- has in the table, and on failure it is what it was. The nine rounds are always enough.
pub parse-words :
    (uncleared : Command) (line : List ℕ) (command : Command)
    → (out : Command) × (parse uncleared (some line) (some command)
        ≡ some (check_words (words line), some out))
      × Holds (words line) command (check_words (words line)) out
unfolding parse
parse-words uncleared line command =
    let p = parse_line-ParsesTo uncleared line command in (p.out, rw (p.returns, parse), p.holds)
