-- ===== src/Command/Words.antt =====
-- A command line as its words, and C strings in arrays: what kernel/shell/command.c is to find.
use tinyshell_os.Base.{
  ℕ, suc, ◌≡◌, ◌≢◌, refl, ap, ◌∙◌, sym, inl, inr, true, false, List, [], ◌∷◌, Array, arith, ◌==◌,
  if◌then◌else◌, Bool-cases,
}
use tinyshell_os.Command.{is_separator, at_end, skip_separators}

abbrev pub with_word : List ℕ → List (List ℕ) → List (List ℕ)
with_word [] ws = ws
with_word (c ∷ w) ws = (c ∷ w) ∷ ws

-- The characters before the first separator, and the words behind it. A zero byte ends the line.
unfoldable pub split : List ℕ → List ℕ × List (List ℕ)
split [] = ([], [])
split (c ∷ cs) =
    let (w, ws) = split cs in
    if c == 0 then ([], []) else if is_separator c then ([], with_word w ws) else (c ∷ w, ws)

-- The words of a line
abbrev pub words : List ℕ → List (List ℕ)
words cs = with_word (split cs).0 (split cs).1

-- The array holds the word from index `i` on, with a NUL behind it; no byte of it is zero.
abbrev pub Spells : Array ℕ → ℕ → List ℕ → Type 0
Spells a i [] = a i ≡ 0
Spells a i (c ∷ w) = (a i ≡ c) × (c ≢ 0) × Spells a (suc i) w

-- Arrays from index `n` on hold the words.
abbrev pub SpellAll : Array (Array ℕ) → ℕ → List (List ℕ) → Type 0
SpellAll arguments n [] = Unit {0}
SpellAll arguments n (w ∷ ws) = Spells (arguments n) 0 w × SpellAll arguments (suc n) ws

skip_separators_stop :
    (c : ℕ) (cs : List ℕ) → is_separator c ≡ false → skip_separators (c ∷ cs) ≡ c ∷ cs
unfolding skip_separators
skip_separators_stop c cs other = rw other

pub words-skip_separators : (cs : List ℕ) → words (skip_separators cs) ≡ words cs
unfolding skip_separators split
words-skip_separators [] = refl
words-skip_separators (c ∷ cs) = elim (Bool-cases (is_separator c)) [
  | inl space ↦
      let nonzero : (c == 0) ≡ false = ground arith in
      rw (space, nonzero) (words-skip_separators cs)
  | inr other ↦ ap words (skip_separators_stop c cs other)
]

-- Behind the separators stands the end of the line or a word.
pub words-at_end : (cs : List ℕ) → at_end (skip_separators cs) ≡ true → words cs ≡ []
unfolding split
words-at_end cs e = sym (words-skip_separators cs) ∙ ended (skip_separators cs) e
  where
    ended : (cs : List ℕ) → at_end cs ≡ true → words cs ≡ []
    ended [] e = refl
    ended (c ∷ cs) e = rw e

skip_separators-head :
    (cs : List ℕ) (c : ℕ) (r : List ℕ) → skip_separators cs ≡ c ∷ r → is_separator c ≡ false
unfolding skip_separators
skip_separators-head [] c r e = cc
skip_separators-head (d ∷ cs) c r e = elim (Bool-cases (is_separator d)) [
  | inl space ↦ skip_separators-head cs c r (rw space at e)
  | inr other ↦
      let e' : d ∷ cs ≡ c ∷ r = rw other at e in let same : d ≡ c = cc in rw (← same) other
]

pub words-not_at_end :
    (cs : List ℕ)
    → at_end (skip_separators cs) ≡ false
    → words cs ≡ (split (skip_separators cs)).0 ∷ (split (skip_separators cs)).1
words-not_at_end cs e =
    sym (words-skip_separators cs) ∙ begun (skip_separators cs) e (skip_separators-head cs)
  where
    begun :
        (d : List ℕ)
        → at_end d ≡ false
        → ((c : ℕ) (r : List ℕ) → d ≡ c ∷ r → is_separator c ≡ false)
        → words d ≡ (split d).0 ∷ (split d).1
    begun [] e h = cc
    begun (c ∷ r) e h = let s = h c r refl in unfold split in rw (e, s)
