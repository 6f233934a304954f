-- ===== src/Command/Examples.antt =====
-- kernel/shell/command.c on concrete lines.
use tinyshell_os.Base.{ℕ, ◌≡◌, refl, some, List, [], ◌∷◌, arith}
use tinyshell_os.Command.{
  Command, unknown, write_file, codes, parse_ok, parse_too_many_arguments, parse_argument_too_long,
  has_valid_arity, usage, parse,
}
use tinyshell_os.Command.Words.{words, split}
use tinyshell_os.Command.Parse.{check_words}
use tinyshell_os.Command.Line.{Holds, IsCommandOf, parse-words}
use tinyshell_os.Command.RoundTrip.{join, parse-join}
use tinyshell_os.Command.Arity.{allowed, has_valid_arity-usage}

abbrev stale : Command
stale = record { kind = unknown; name = λ _. 9; argument_count = 5; arguments = λ _ _. 8 }

abbrev line : List ℕ
line = codes "  write note  hello world "

line_words : words line ≡ codes "write" ∷ codes "note" ∷ codes "hello" ∷ codes "world" ∷ []
unfolding split
line_words = refl

line_result : check_words (words line) ≡ parse_ok
unfolding split check_words
line_result = refl

long_result :
    check_words (words (codes "cat 01234567890123456789012345678901")) ≡ parse_argument_too_long
unfolding split check_words
long_result = refl

many_result : check_words (words (codes "echo 1 2 3 4 5 6 7 8 9")) ≡ parse_too_many_arguments
unfolding split check_words
many_result = refl

parse-words_example :
    (out : Command) × (parse stale (some line) (some stale)
      ≡ some (check_words (words line), some out))
    × Holds (words line) stale (check_words (words line)) out
parse-words_example = parse-words stale line stale

parse-join_example :
    (out : Command) × (parse stale (some (join (codes "rm") (codes "note" ∷ []))) (some stale)
      ≡ some (parse_ok, some out))
    × IsCommandOf (codes "rm") (codes "note" ∷ []) out
parse-join_example =
    parse-join stale (codes "rm") (codes "note" ∷ []) stale
      (λ e. cc, (omega arith, refl, (omega arith, refl, tt)), omega arith)
      (
        (
          λ e. cc,
          (omega arith, refl, (omega arith, refl, (omega arith, refl, (omega arith, refl, tt)))),
          omega arith,
        ),
        tt,
      )
      (omega arith)

has_valid_arity-usage_example :
    has_valid_arity (some (record stale { kind = write_file })) ≡ allowed (usage write_file) 5
has_valid_arity-usage_example = has_valid_arity-usage (record stale { kind = write_file })
