-- ===== src/Command/Tokens.antt =====
-- `copy_token` of kernel/shell/command.c copies one word.
use mathlib.Core.Path.{subst}
use tinyshell_os.Base.{
  ℕ, suc, ◌+◌, ◌≤◌, ◌<◌, ◌≡◌, ◌≢◌, refl, ◌∙◌, inl, inr, true, false, ◌||◌, List, [], ◌∷◌, Array,
  write, arith, length, leb, ◌==◌, Bool-cases,
}
use tinyshell_os.Command.{
  ParseResult, parse_ok, parse_argument_too_long, arg_max, is_separator, copy_token,
}
use tinyshell_os.Command.Words.{split, words, Spells}

-- One round, and the words of the line that begins there.
module _ (n c : ℕ) (cs : List ℕ) (destination : Array ℕ) where
  copy_token_stop :
      (c == 0 || is_separator c) ≡ true
      → copy_token n (c ∷ cs) destination ≡ (parse_ok, c ∷ cs, write destination n 0)
  unfolding copy_token
  copy_token_stop e = rw e

  copy_token_long :
      (c == 0 || is_separator c) ≡ false
      → leb arg_max n ≡ true
      → copy_token n (c ∷ cs) destination ≡ (parse_argument_too_long, c ∷ cs, destination)
  unfolding copy_token
  copy_token_long e long = rw (e, long)

  copy_token_next :
      (c == 0 || is_separator c) ≡ false
      → leb arg_max n ≡ false
      → copy_token n (c ∷ cs) destination ≡ copy_token (suc n) cs (write destination n c)
  unfolding copy_token
  copy_token_next e room = rw (e, room)

  split_stop :
      (c == 0 || is_separator c) ≡ true
      → ((split (c ∷ cs)).0 ≡ []) × (words (c ∷ cs) ≡ (split (c ∷ cs)).1)
  unfolding split
  split_stop e = elim (Bool-cases (c == 0)) [
    | inl nul ↦ rw nul (refl, refl)
    | inr other ↦ let space : is_separator c ≡ true = ground arith in rw (other, space) (refl, refl)
  ]

  split_next :
      (c == 0 || is_separator c) ≡ false
      → (split (c ∷ cs) ≡ (c ∷ (split cs).0, (split cs).1)) × (c ≢ 0)
  unfolding split
  split_next e =
      let nonzero : (c == 0) ≡ false = ground arith in
      let letter : is_separator c ≡ false = ground arith in (rw (nonzero, letter), ground arith)

-- A word that fits is copied behind the `n` bytes that stand, and the cursor stands behind it.
pub record Copied (n : ℕ) (w : List ℕ) (ws : List (List ℕ)) (destination : Array ℕ)
    (r : ParseResult × List ℕ × Array ℕ) : Type 0 where
  pub result : r.0 ≡ parse_ok
  pub behind : words r.1 ≡ ws
  pub kept : (j : ℕ) → j < n → r.2 j ≡ destination j
  pub spelled : Spells r.2 n w

pub copy_token-Copied :
    (n : ℕ) (cs : List ℕ) (destination : Array ℕ)
    → n + length (split cs).0 ≤ arg_max
    → Copied n (split cs).0 (split cs).1 destination (copy_token n cs destination)
unfolding copy_token split
copy_token-Copied n [] destination fits = record {
  result = refl;
  behind = refl;
  kept = λ j lt. ground arith;
  spelled = ground arith;
}
copy_token-Copied n (c ∷ cs) destination fits = elim (Bool-cases (c == 0 || is_separator c)) [
  | inl stop ↦
      let (e, behind) = split_stop n c cs destination stop in
      rw (copy_token_stop n c cs destination stop, e)
        (record {
          result = refl;
          behind = behind;
          kept = λ j lt. ground arith;
          spelled = ground arith;
        })
  | inr go ↦
      let (e, nonzero) = split_next n c cs destination go in
      let longer : n + length (c ∷ (split cs).0) ≤ arg_max =
        subst (λ (p : List ℕ × List (List ℕ)). n + length p.0 ≤ arg_max) e fits in
      let rest = copy_token-Copied (suc n) cs (write destination n c) (omega arith) in
      rw (copy_token_next n c cs destination go (ground arith), e)
        (record {
          result = rest.result;
          behind = rest.behind;
          kept = λ j lt. rest.kept j (omega arith) ∙ ground arith;
          spelled = (rest.kept n (omega arith) ∙ ground arith, nonzero, rest.spelled);
        })
]

-- A longer word is refused.
pub copy_token_too_long :
    (n : ℕ) (cs : List ℕ) (destination : Array ℕ)
    → n ≤ arg_max
    → arg_max < n + length (split cs).0
    → (copy_token n cs destination).0 ≡ parse_argument_too_long
unfolding split
copy_token_too_long n [] destination le long = absurd (omega arith)
copy_token_too_long n (c ∷ cs) destination le long = elim (Bool-cases (c == 0 || is_separator c)) [
  | inl stop ↦
      let (e, behind) = split_stop n c cs destination stop in
      absurd (
        let l : arg_max < n + length {A = ℕ} [] = subst (λ w. arg_max < n + length w) e long in
        omega arith)
  | inr go ↦
      let (e, nonzero) = split_next n c cs destination go in
      let longer : arg_max < n + length (c ∷ (split cs).0) =
        subst (λ (p : List ℕ × List (List ℕ)). arg_max < n + length p.0) e long in
      elim (Bool-cases (leb arg_max n)) [
        | inl full ↦ rw (copy_token_long n c cs destination go full)
        | inr room ↦
            rw (copy_token_next n c cs destination go room)
              (copy_token_too_long (suc n) cs (write destination n c) (ground arith) (omega arith))
      ]
]
