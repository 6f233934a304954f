-- ===== src/Keyboard/Layout.antt =====
-- The keys of the Set 1 keyboard that kernel/arch/x86/keyboard.c delivers, row by row, with the
-- characters that they have in the US layout: the letters, the digits, Enter, Backspace and Space.
-- The other keys, as those of the punctuation marks, give nothing.
use tinyshell_os.Base.{
  ℕ, ◌-◌, ◌<◌, ◌≡◌, refl, ap, ◌∙◌, inl, inr, Bool-cases, Bool, true, false, not, Option, none, some,
  List, [], ◌∷◌, arith, get_elem?, leb, ◌==◌, if◌then◌else◌, find_first, no_counterexample,
  same_option, same_option_sound,
}
use tinyshell_os.Keyboard.{
  Keyboard, letter_for_scancode, digit_for_scancode, queue_push, feed_key, enter, backspace, space,
  differs,
}

-- A row of keys, numbered from `start` on.
unfoldable pub row : ℕ → List ℕ → ℕ → Option ℕ
row start keys code = if leb start code then get_elem? keys (code - start) else none

abbrev or_else : Option ℕ → Option ℕ → Option ℕ
or_else none b = b
or_else (some a) b = some a

unfoldable pub letter_key : ℕ → Option ℕ
unfolding row
letter_key code =
    or_else
      (row 0x10 (b'q' ∷ b'w' ∷ b'e' ∷ b'r' ∷ b't' ∷ b'y' ∷ b'u' ∷ b'i' ∷ b'o' ∷ b'p' ∷ []) code)
      (or_else (row 0x1E (b'a' ∷ b's' ∷ b'd' ∷ b'f' ∷ b'g' ∷ b'h' ∷ b'j' ∷ b'k' ∷ b'l' ∷ []) code)
        (row 0x2C (b'z' ∷ b'x' ∷ b'c' ∷ b'v' ∷ b'b' ∷ b'n' ∷ b'm' ∷ []) code))

unfoldable pub digit_key : Bool → ℕ → Option ℕ
unfolding row
digit_key false = row 2 (b'1' ∷ b'2' ∷ b'3' ∷ b'4' ∷ b'5' ∷ b'6' ∷ b'7' ∷ b'8' ∷ b'9' ∷ b'0' ∷ [])
digit_key true = row 2 (b'!' ∷ b'@' ∷ b'#' ∷ b'$' ∷ b'%' ∷ b'^' ∷ b'&' ∷ b'*' ∷ b'(' ∷ b')' ∷ [])

-- Line feed, backspace and space.
unfoldable pub control_key : ℕ → Option ℕ
control_key code =
    if code == 0x1C
    then some 10
    else if code == 0x0E
    then some 8
    else if code == 0x39
    then some 32
    else none

-- Shift and caps lock cancel on letters, and caps lock leaves all else alone.
abbrev pub cased : Bool → Bool → Option ℕ → Option ℕ → Option ℕ
cased true false (some letter) other = some (letter - 32)
cased false true (some letter) other = some (letter - 32)
cased true true (some letter) other = some letter
cased false false (some letter) other = some letter
cased shifted caps none other = other

-- The character of a key, none for the keys that are not delivered
unfoldable pub layout : ℕ → Bool → Bool → Option ℕ
unfolding letter_key digit_key control_key
layout code shifted caps =
    cased shifted caps (letter_key code) (or_else (digit_key shifted code) (control_key code))

-- The character that the ladder of `keyboard_feed_scancode` pushes, if any.
unfoldable pub key_character : ℕ → Bool → Bool → Option ℕ
unfolding letter_for_scancode digit_for_scancode
key_character code shifted caps =
    if not (letter_for_scancode code == 0)
    then some
        (if differs shifted caps then letter_for_scancode code - 32 else letter_for_scancode code)
    else if not (digit_for_scancode code shifted == 0)
    then some (digit_for_scancode code shifted)
    else if code == enter
    then some 10
    else if code == backspace
    then some 8
    else if code == space
    then some 32
    else none

abbrev same_key : Bool → Bool → ℕ → Bool
same_key shifted caps code =
    same_option (key_character code shifted caps) (layout code shifted caps)

unfoldable pub push_key : Option ℕ → Keyboard → Bool × Keyboard
push_key none k = (false, k)
push_key (some character) k = queue_push character k

table : (shifted caps : Bool) → find_first (λ code. not (same_key shifted caps code)) 0x80 0 ≡ none
unfolding find_first key_character layout
table true true = refl
table true false = refl
table false true = refl
table false false = refl

key_character-layout :
    (code : ℕ) (shifted caps : Bool)
    → code < 0x80
    → key_character code shifted caps ≡ layout code shifted caps
key_character-layout code shifted caps lt =
    same_option_sound _ _ (no_counterexample 0x80 (same_key shifted caps) (table shifted caps) lt)

feed_key-key_character :
    (code : ℕ) (shifted : Bool) (k : Keyboard)
    → feed_key code shifted k ≡ push_key (key_character code shifted k.caps_lock_enabled) k
unfolding feed_key key_character push_key
feed_key-key_character code shifted k = elim (Bool-cases (letter_for_scancode code == 0)) [
  | inr letter ↦ rw (letter, push_key)
  | inl e ↦ elim (Bool-cases (digit_for_scancode code shifted == 0)) [
    | inr digit ↦ rw (e, digit, push_key)
    | inl e' ↦ rw (e, e') (ground arith)
  ]
]

-- Whichever key is pressed, the ladder pushes what the layout says.
pub feed_key-layout :
    (code : ℕ) (shifted : Bool) (k : Keyboard)
    → code < 0x80
    → feed_key code shifted k ≡ push_key (layout code shifted k.caps_lock_enabled) k
feed_key-layout code shifted k lt =
    feed_key-key_character code shifted k
    ∙ ap (λ c. push_key c k) (key_character-layout code shifted k.caps_lock_enabled lt)
