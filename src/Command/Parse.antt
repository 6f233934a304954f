-- ===== src/Command/Parse.antt =====
-- `shell_command_parse` of kernel/shell/command.c parses the words of the line.
use mathlib.Core.Path.{subst}
use tinyshell_os.Base.{
  ℕ, zero, suc, ◌+◌, ◌≤◌, ◌<◌, ◌≡◌, refl, ◌∙◌, sym, inl, inr, true, false, Option, some, List, [],
  ◌∷◌, Array, write, arith, length, leb, if◌then◌else◌, Bool-cases,
}
use tinyshell_os.Command.{
  Command, ParseResult, parse_ok, parse_empty, parse_too_many_arguments, parse_argument_too_long,
  arg_max, max_args, at_end, skip_separators, copy_token, take_arguments,
}
use tinyshell_os.Command.Words.{split, words, Spells, SpellAll, words-at_end, words-not_at_end}
use tinyshell_os.Command.Tokens.{copy_token-Copied, copy_token_too_long}

-- The result for the words behind `n` arguments: the first word that does not fit decides.
unfoldable pub check_arguments : ℕ → List (List ℕ) → ParseResult
check_arguments n [] = parse_ok
check_arguments n (w ∷ ws) =
    if leb max_args n
    then parse_too_many_arguments
    else if leb (length w) arg_max
    then check_arguments (n + 1) ws
    else parse_argument_too_long

unfoldable pub check_words : List (List ℕ) → ParseResult
unfolding check_arguments
check_words [] = parse_empty
check_words (w ∷ ws) =
    if leb (length w) arg_max then check_arguments 0 ws else parse_argument_too_long

-- The command behind the loop: the words are appended to its arguments.
pub record Extends (parsed : Command) (ws : List (List ℕ)) (out : Command) : Type 0 where
  pub same_kind : out.kind ≡ parsed.kind
  pub same_name : out.name ≡ parsed.name
  pub counted : out.argument_count ≡ parsed.argument_count + length ws
  pub kept : (j : ℕ) → j < parsed.argument_count → out.arguments j ≡ parsed.arguments j
  pub spelled : SpellAll out.arguments parsed.argument_count ws

pub record Taken (parsed : Command) (ws : List (List ℕ)) (o : Option (ParseResult × Command))
    : Type 0 where
  pub out : Command
  pub returns : o ≡ some (check_arguments parsed.argument_count ws, out)
  pub extends : check_arguments parsed.argument_count ws ≡ parse_ok → Extends parsed ws out

with_argument : Command → Array ℕ → Command
with_argument parsed destination = record parsed {
  argument_count = parsed.argument_count + 1;
  arguments = write parsed.arguments parsed.argument_count destination;
}

-- One more argument in front of those that the rest of the loop takes.
Extends-with_argument :
    (parsed : Command) (destination : Array ℕ) (w : List ℕ) (ws : List (List ℕ)) (out : Command)
    → Spells destination 0 w
    → Extends (with_argument parsed destination) ws out
    → Extends parsed (w ∷ ws) out
unfolding with_argument
Extends-with_argument parsed destination w ws out s e =
    let n = parsed.argument_count in
    let here : out.arguments n ≡ destination = e.kept n (omega arith) ∙ ground arith in
    let next : n + 1 ≡ suc n = omega arith in
    record {
      same_kind = e.same_kind;
      same_name = e.same_name;
      counted = omega (arith, e.counted);
      kept = λ j lt. e.kept j (omega arith) ∙ ground arith;
      spelled = (
        subst (λ a. Spells a 0 w) (sym here) s,
        subst (λ k. SpellAll out.arguments k ws) next e.spelled,
      );
    }

-- The rounds of the loop, by the words that are left.
module _ (rounds : ℕ) (cursor : List ℕ) (parsed : Command) where
  abbrev start : List ℕ
  start = skip_separators cursor

  abbrev token : ParseResult × List ℕ × Array ℕ
  token = copy_token 0 start (parsed.arguments parsed.argument_count)

  round_end :
      at_end start ≡ true → take_arguments (suc rounds) cursor parsed ≡ some (parse_ok, parsed)
  unfolding take_arguments
  round_end e = rw e

  round_full :
      at_end start ≡ false
      → leb max_args parsed.argument_count ≡ true
      → take_arguments (suc rounds) cursor parsed ≡ some (parse_too_many_arguments, parsed)
  unfolding take_arguments
  round_full e full = rw (e, full)

  round_long :
      at_end start ≡ false
      → leb max_args parsed.argument_count ≡ false
      → token.0 ≡ parse_argument_too_long
      → take_arguments (suc rounds) cursor parsed ≡ some (parse_argument_too_long, parsed)
  unfolding take_arguments
  round_long e room long = rw (e, room, long)

  round_next :
      at_end start ≡ false
      → leb max_args parsed.argument_count ≡ false
      → token.0 ≡ parse_ok
      → take_arguments (suc rounds) cursor parsed
        ≡ take_arguments rounds token.1 (with_argument parsed token.2)
  unfolding take_arguments with_argument
  round_next e room fits = rw (e, room, fits)

-- The loop behind one word, given what the rounds behind it do.
abbrev pub RoundsTake : ℕ → Type 0
RoundsTake rounds =
    (cursor : List ℕ) (parsed : Command)
    → max_args < rounds + parsed.argument_count
    → parsed.argument_count ≤ max_args
    → Taken parsed (words cursor) (take_arguments rounds cursor parsed)

word-Taken :
    (rounds : ℕ) (cursor : List ℕ) (parsed : Command)
    → RoundsTake rounds
    → max_args < suc rounds + parsed.argument_count
    → at_end (skip_separators cursor) ≡ false
    → let (w, ws) = split (skip_separators cursor) in
      Taken parsed (w ∷ ws) (take_arguments (suc rounds) cursor parsed)
unfolding check_arguments with_argument
word-Taken rounds cursor parsed ih enough e =
    let (w, ws) = split (skip_separators cursor) in
    let t = token rounds cursor parsed in
    elim (Bool-cases (leb max_args parsed.argument_count)) [
      | inl full ↦ record {
        out = parsed;
        returns = rw full (round_full rounds cursor parsed e full);
        extends = λ ok. absurd (ground arith);
      }
      | inr room ↦ elim (Bool-cases (leb (length w) arg_max)) [
        | inr long ↦ record {
          out = parsed;
          returns =
              rw (room, long)
                (round_long rounds cursor parsed e room (
                  copy_token_too_long 0 (skip_separators cursor)
                    (parsed.arguments parsed.argument_count) (omega arith) (ground arith)));
          extends = λ ok. absurd (ground arith);
        }
        | inl fits ↦
            let c =
              copy_token-Copied 0 (skip_separators cursor) (parsed.arguments parsed.argument_count)
                (ground arith) in
            let rest = ih t.1 (with_argument parsed t.2) (omega arith) (ground arith) in
            rw (← c.behind) (record {
              out = rest.out;
              returns =
                  rw (room, fits) (round_next rounds cursor parsed e room c.result ∙ rest.returns);
              extends = λ ok.
                  Extends-with_argument parsed t.2 w (words t.1) rest.out c.spelled
                    (rest.extends (rw (room, fits) at ok));
            })
      ]
    ]

pub take_arguments-Taken : (rounds : ℕ) → RoundsTake rounds
unfolding check_arguments
take_arguments-Taken zero cursor parsed enough le = absurd (omega arith)
take_arguments-Taken (suc rounds) cursor parsed enough le =
    elim (Bool-cases (at_end (skip_separators cursor))) [
      | inl e ↦ rw (words-at_end cursor e) (record {
        out = parsed;
        returns = round_end rounds cursor parsed e;
        extends = λ _. record {
          same_kind = refl;
          same_name = refl;
          counted = omega arith;
          kept = λ j lt. refl;
          spelled = tt;
        };
      })
      | inr e ↦
          rw (words-not_at_end cursor e)
            (word-Taken rounds cursor parsed (take_arguments-Taken rounds) enough e)
    ]
