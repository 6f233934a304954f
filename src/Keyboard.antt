-- ===== src/Keyboard.antt =====
-- kernel/arch/x86/keyboard.c with include/arch/x86/keyboard.h: the decoder of Set 1 scan codes and
-- the queue of 64 characters between the interrupt and the main loop. The static variables are
-- the state. A character is its byte; the bytes that the two ports give are parameters of the
-- interrupt handler. The caller's pointer for `keyboard_pop_char` is an Option.
pub mod Layout
pub mod Decode
pub mod Queue
pub mod Run
pub mod Interleave
mod Examples
use tinyshell_os.Base.{
  ℕ, ◌-◌, ◌%◌, ◌/◌, Bool, true, false, not, ◌&&◌, ◌||◌, Option, none, some, List, [], ◌∷◌, Array,
  write, get_elem?, add32, sub32, ltb, leb, ◌==◌, if◌then◌else◌,
}

-- KEYBOARD_QUEUE_CAPACITY; the mask `& KEYBOARD_QUEUE_MASK` is the remainder by it
abbrev pub queue_capacity : ℕ
queue_capacity = 64

abbrev pub status_port : ℕ
status_port = 0x64

abbrev pub data_port : ℕ
data_port = 0x60

abbrev pub extended_prefix : ℕ
extended_prefix = 0xE0

abbrev pub left_shift : ℕ
left_shift = 0x2A

abbrev pub right_shift : ℕ
right_shift = 0x36

abbrev pub caps_lock : ℕ
caps_lock = 0x3A

abbrev pub enter : ℕ
enter = 0x1C

abbrev pub backspace : ℕ
backspace = 0x0E

abbrev pub space : ℕ
space = 0x39

pub record Keyboard : Type 0 where
  pub character_queue : Array ℕ
  pub write_sequence : ℕ
  pub read_sequence : ℕ
  pub dropped_characters : ℕ
  pub left_shift_down : Bool
  pub right_shift_down : Bool
  pub caps_lock_enabled : Bool
  pub extended_prefix_pending : Bool

unfoldable pub letter_for_scancode : ℕ → ℕ
letter_for_scancode code =
    if code == 0x1E
    then b'a'
    else if code == 0x30
    then b'b'
    else if code == 0x2E
    then b'c'
    else if code == 0x20
    then b'd'
    else if code == 0x12
    then b'e'
    else if code == 0x21
    then b'f'
    else if code == 0x22
    then b'g'
    else if code == 0x23
    then b'h'
    else if code == 0x17
    then b'i'
    else if code == 0x24
    then b'j'
    else if code == 0x25
    then b'k'
    else if code == 0x26
    then b'l'
    else if code == 0x32
    then b'm'
    else if code == 0x31
    then b'n'
    else if code == 0x18
    then b'o'
    else if code == 0x19
    then b'p'
    else if code == 0x10
    then b'q'
    else if code == 0x13
    then b'r'
    else if code == 0x1F
    then b's'
    else if code == 0x14
    then b't'
    else if code == 0x16
    then b'u'
    else if code == 0x2F
    then b'v'
    else if code == 0x11
    then b'w'
    else if code == 0x2D
    then b'x'
    else if code == 0x15
    then b'y'
    else if code == 0x2C
    then b'z'
    else 0

abbrev unshifted_digits : List ℕ
unshifted_digits = b'1' ∷ b'2' ∷ b'3' ∷ b'4' ∷ b'5' ∷ b'6' ∷ b'7' ∷ b'8' ∷ b'9' ∷ b'0' ∷ 0 ∷ []

abbrev shifted_digits : List ℕ
shifted_digits = b'!' ∷ b'@' ∷ b'#' ∷ b'$' ∷ b'%' ∷ b'^' ∷ b'&' ∷ b'*' ∷ b'(' ∷ b')' ∷ 0 ∷ []

-- `text[index]`; the only caller's index is at most nine
abbrev byte_at : List ℕ → ℕ → ℕ
byte_at text index = elim (get_elem? text index) [ none ↦ 0 | some byte ↦ byte ]

unfoldable pub digit_for_scancode : ℕ → Bool → ℕ
digit_for_scancode code shifted =
    if ltb code 0x02 || ltb 0x0B code
    then 0
    else if shifted
    then byte_at shifted_digits (code - 0x02)
    else byte_at unshifted_digits (code - 0x02)

unfoldable pub queue_push : ℕ → Keyboard → Bool × Keyboard
queue_push character k =
    if leb queue_capacity (sub32 k.write_sequence k.read_sequence)
    then (false, record k { dropped_characters = add32 k.dropped_characters 1 })
    else (
      true,
      record k {
        character_queue = write k.character_queue (k.write_sequence % queue_capacity) character;
        write_sequence = add32 k.write_sequence 1;
      },
    )

unfoldable pub init : Keyboard → Keyboard
init k = record k {
  write_sequence = 0;
  read_sequence = 0;
  dropped_characters = 0;
  left_shift_down = false;
  right_shift_down = false;
  caps_lock_enabled = false;
  extended_prefix_pending = false;
}

-- `a != b` on bool
abbrev pub differs : Bool → Bool → Bool
differs true b = not b
differs false b = b

-- `keyboard_feed_scancode` from the letters on: the key `code` is pressed.
unfoldable pub feed_key : ℕ → Bool → Keyboard → Bool × Keyboard
feed_key code shifted k =
    if not (letter_for_scancode code == 0)
    then queue_push
        (if differs shifted k.caps_lock_enabled
          then letter_for_scancode code - (b'a' - b'A')
          else letter_for_scancode code)
        k
    else if not (digit_for_scancode code shifted == 0)
    then queue_push (digit_for_scancode code shifted) k
    else if code == enter
    then queue_push 10 k
    else if code == backspace
    then queue_push 8 k
    else if code == space
    then queue_push b' ' k
    else (false, k)

-- `keyboard_feed_scancode` behind the extended prefix.
unfoldable pub feed_code : Bool → ℕ → Keyboard → Bool × Keyboard
feed_code released code k =
    if code == left_shift
    then (false, record k { left_shift_down = not released })
    else if code == right_shift
    then (false, record k { right_shift_down = not released })
    else if released
    then (false, k)
    else if code == caps_lock
    then (false, record k { caps_lock_enabled = not k.caps_lock_enabled })
    else feed_key code (k.left_shift_down || k.right_shift_down) k

-- `scancode & 0x80` and `scancode & ~0x80`, of a byte
unfoldable pub feed_scancode : ℕ → Keyboard → Bool × Keyboard
feed_scancode scancode k =
    if scancode == extended_prefix
    then (false, record k { extended_prefix_pending = true })
    else if k.extended_prefix_pending
    then (false, record k { extended_prefix_pending = false })
    else feed_code (leb 0x80 scancode) (scancode % 0x80) k

-- `inb` gives the byte that a port holds; `status & 1` is the bit "output full".
unfoldable pub handle_irq : (ℕ → ℕ) → Keyboard → Keyboard
handle_irq inb k = if inb status_port % 2 == 0 then k else (feed_scancode (inb data_port) k).1

-- The caller's character comes back beside the result.
unfoldable pub pop_char : Option ℕ → Keyboard → Bool × Option ℕ × Keyboard
pop_char none k = (false, none, k)
pop_char (some character) k =
    if k.read_sequence == k.write_sequence then (false, some character, k) else (
      true,
      some (k.character_queue (k.read_sequence % queue_capacity)),
      record k { read_sequence = add32 k.read_sequence 1 },
    )

unfoldable pub dropped_count : Keyboard → ℕ
dropped_count k = k.dropped_characters
