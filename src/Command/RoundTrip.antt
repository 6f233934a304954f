-- ===== src/Command/RoundTrip.antt =====
-- Printing a command as a line and parsing it by `shell_command_parse` of kernel/shell/command.c.
use tinyshell_os.Base.{
  ℕ, ◌+◌, ◌≤◌, ◌≡◌, ◌≢◌, refl, ap, ◌∙◌, true, false, some, List, [], ◌∷◌, ◌++◌, arith, length, leb,
}
use tinyshell_os.Command.{Command, parse_ok, arg_max, max_args, is_separator, parse}
use tinyshell_os.Command.Words.{with_word, split, words}
use tinyshell_os.Command.Parse.{check_arguments, check_words}
use tinyshell_os.Command.Line.{IsCommandOf, parse-words}

-- A word's characters.
abbrev pub Letters : List ℕ → Type 0
Letters [] = Unit {0}
Letters (c ∷ w) = (c ≢ 0) × (is_separator c ≡ false) × Letters w

-- A word that `shell_command_parse` takes
abbrev pub IsWord : List ℕ → Type 0
IsWord w = (w ≢ []) × Letters w × (length w ≤ arg_max)

abbrev pub AllWords : List (List ℕ) → Type 0
AllWords [] = Unit {0}
AllWords (w ∷ ws) = IsWord w × AllWords ws

-- The words with a space between each two.
abbrev pub join : List ℕ → List (List ℕ) → List ℕ
join w [] = w
join w (v ∷ ws) = w ++ (b' ' ∷ join v ws)

split-append : (w r : List ℕ) → Letters w → (split r).0 ≡ [] → split (w ++ r) ≡ (w, (split r).1)
unfolding split
split-append [] r l e = ground arith
split-append (c ∷ w) r l e = ground (arith, split-append w r l.2 e)

with_word_lem : (w : List ℕ) (ws : List (List ℕ)) → w ≢ [] → with_word w ws ≡ w ∷ ws
with_word_lem [] ws ne = absurd (ne refl)
with_word_lem (c ∷ w) ws ne = refl

split-nil-append : (w : List ℕ) → Letters w → split w ≡ (w, [])
unfolding split
split-nil-append [] l = refl
split-nil-append (c ∷ w) l = ground (arith, split-nil-append w l.2)

split-join :
    (w : List ℕ) (ws : List (List ℕ)) → IsWord w → AllWords ws → split (join w ws) ≡ (w, ws)
unfolding split
split-join w [] h all = split-nil-append w h.1
split-join w (v ∷ ws) h all =
    split-append w (b' ' ∷ join v ws) h.1 refl
    ∙ ap (λ (p : List ℕ × List (List ℕ)). (w, with_word p.0 p.1)) (split-join v ws all.0 all.1)
    ∙ ap (λ t. (w, t)) (with_word_lem v ws all.0.0)

check_arguments-ok :
    (n : ℕ) (ws : List (List ℕ))
    → AllWords ws
    → n + length ws ≤ max_args
    → check_arguments n ws ≡ parse_ok
unfolding check_arguments
check_arguments-ok n [] all le = refl
check_arguments-ok n (w ∷ ws) all le =
    let room : leb max_args n ≡ false = ground arith in
    let fits : leb (length w) arg_max ≡ true = ground (arith, all.0.2) in
    rw (room, fits) (check_arguments-ok (n + 1) ws all.1 (omega arith))

-- Printing and parsing: a name and at most eight arguments, each of 1 to 31 bytes other than NUL,
-- space and tab, joined by spaces, parse to the command of that name and those arguments.
pub parse-join :
    (uncleared : Command) (w : List ℕ) (ws : List (List ℕ)) (command : Command)
    → IsWord w
    → AllWords ws
    → length ws ≤ max_args
    → (out : Command) × (parse uncleared (some (join w ws)) (some command)
        ≡ some (parse_ok, some out))
      × IsCommandOf w ws out
unfolding check_words
parse-join uncleared w ws command h all le =
    let (out, returns, holds) = parse-words uncleared (join w ws) command in
    let e : words (join w ws) ≡ w ∷ ws =
      ap (λ (p : List ℕ × List (List ℕ)). with_word p.0 p.1) (split-join w ws h all)
      ∙ with_word_lem w ws h.0 in
    let fits : leb (length w) arg_max ≡ true = ground (arith, h.2) in
    let ok : check_words (w ∷ ws) ≡ parse_ok =
      rw fits (check_arguments-ok 0 ws all (omega arith)) in
    (out, rw (e, ok) at returns, rw (e, ok) at holds)
