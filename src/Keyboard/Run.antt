-- ===== src/Keyboard/Run.antt =====
-- No caller of kernel/arch/x86/keyboard.c can tell the driver from a list of decoded characters.
use tinyshell_os.Base.{
  ℕ, ◌%◌, ◌<◌, ◌≡◌, refl, ap, ap₂, ◌∙◌, inl, inr, Bool, true, false, Option, none, some, List, [],
  ◌∷◌, arith, Bool-cases, ◌==◌, if◌then◌else◌,
}
use tinyshell_os.Keyboard.{Keyboard, init, feed_scancode, handle_irq, pop_char, dropped_count}
use tinyshell_os.Keyboard.Decode.{classify, decode, modifiers, with_modifiers, feed_scancode-decode}
use tinyshell_os.Keyboard.Queue.{
  Keys, IsBounded, view, enqueue, push_key-enqueue, waiting-take, waiting-none, take-IsBounded,
}

-- The scan code and the bytes at the ports are `uint8_t`.
pub data Call : Type 0 where
  feeds : ℕ → Call
  interrupts : (ℕ → ℕ) → Call
  pops : Option ℕ → Call
  asks_dropped : Call

pub data Reply : Type 0 where
  fed : Bool → Reply
  handled : Reply
  popped : Bool → Option ℕ → Reply
  counted : ℕ → Reply

unfoldable pub step : Keyboard → Call → Reply × Keyboard
step k (feeds byte) = let (b, k') = feed_scancode (byte % 256) k in (fed b, k')
step k (interrupts bytes) = (handled, handle_irq (λ port. bytes port % 256) k)
step k (pops out) = let (b, out', k') = pop_char out k in (popped b out', k')
step k asks_dropped = (counted (dropped_count k), k)

unfoldable pub run : Keyboard → List Call → List Reply
run k [] = []
run k (c ∷ cs) = let (r, k') = step k c in r ∷ run k' cs

-- A byte from the keyboard: its event is decoded, and what it types is queued.
unfoldable pub type_byte : ℕ → Keys → Bool × Keys
type_byte byte s =
    let (typed, m) = decode (classify byte) s.held_keys in
    enqueue typed (record s { held_keys = m })

abbrev pub pop_first : ℕ → Keys → List ℕ → Bool × Option ℕ × Keys
pop_first buffer s [] = (false, some buffer, s)
pop_first buffer s (c ∷ cs) = (true, some c, record s { queue = cs })

unfoldable pub keys_step : Keys → Call → Reply × Keys
keys_step s (feeds byte) = let (b, s') = type_byte (byte % 256) s in (fed b, s')
keys_step s (interrupts bytes) =
    (handled, if (bytes 0x64 % 256) % 2 == 0 then s else (type_byte (bytes 0x60 % 256) s).1)
keys_step s (pops none) = (popped false none, s)
keys_step s (pops (some buffer)) =
    let (b, out, s') = pop_first buffer s s.queue in (popped b out, s')
keys_step s asks_dropped = (counted s.dropped, s)

unfoldable pub keys_run : Keys → List Call → List Reply
keys_run s [] = []
keys_run s (c ∷ cs) = let (r, s') = keys_step s c in r ∷ keys_run s' cs

-- A byte fed to the driver.
pub feed_scancode-type_byte :
    (byte : ℕ) (k : Keyboard)
    → byte < 256
    → IsBounded k
    → ((feed_scancode byte k).0 ≡ (type_byte byte (view k)).0)
      × (view (feed_scancode byte k).1 ≡ (type_byte byte (view k)).1)
      × IsBounded (feed_scancode byte k).1
unfolding type_byte
feed_scancode-type_byte byte k lt v =
    let m = (decode (classify byte) (modifiers k)).1 in
    rw (feed_scancode-decode byte k lt) (
      push_key-enqueue (decode (classify byte) (modifiers k)).0 (with_modifiers m k)
        (record { write_word = v.write_word; read_word = v.read_word; fits = v.fits }))

record Agrees (k : Keyboard) (c : Call) : Type 0 where
  reply : (step k c).0 ≡ (keys_step (view k) c).0
  shows : view (step k c).1 ≡ (keys_step (view k) c).1
  bounded : IsBounded (step k c).1

byte_range : (n : ℕ) → n % 256 < 256
byte_range n = omega arith

steps : (k : Keyboard) (c : Call) → IsBounded k → Agrees k c
unfolding step keys_step handle_irq pop_char dropped_count
steps k (feeds byte) v =
    let (b, s, v') = feed_scancode-type_byte (byte % 256) k (byte_range byte) v in
    record { reply = ap fed b; shows = s; bounded = v' }
steps k (interrupts bytes) v = elim (Bool-cases ((bytes 0x64 % 256) % 2 == 0)) [
  | inl idle ↦ record { reply = refl; shows = rw idle; bounded = rw idle v }
  | inr ready ↦
      let (b, s, v') = feed_scancode-type_byte (bytes 0x60 % 256) k (byte_range (bytes 0x60)) v in
      record { reply = refl; shows = rw ready s; bounded = rw ready v' }
]
steps k (pops none) v = record { reply = refl; shows = refl; bounded = v }
steps k (pops (some buffer)) v = elim (Bool-cases (k.read_sequence == k.write_sequence)) [
  | inl drained ↦
      let e = waiting-none k v (ground arith) in
      record { reply = rw (drained, e); shows = rw (drained, e); bounded = rw drained v }
  | inr more ↦
      let e = waiting-take k v (ground arith) in
      record {
        reply = rw (more, e);
        shows = rw (more, e);
        bounded = rw more (take-IsBounded k v (ground arith));
      }
]
steps k asks_dropped v = record { reply = refl; shows = refl; bounded = v }

run_agrees : (k : Keyboard) (cs : List Call) → IsBounded k → run k cs ≡ keys_run (view k) cs
unfolding run keys_run
run_agrees k [] v = refl
run_agrees k (c ∷ cs) v =
    let s = steps k c v in
    ap₂ ◌∷◌ s.reply (run_agrees (step k c).1 cs s.bounded ∙ ap (λ s. keys_run s cs) s.shows)

abbrev pub idle_keys : Keys
idle_keys = record {
  held_keys = record { left = false; right = false; caps = false; extended = false };
  queue = [];
  dropped = 0;
}

pub init-IsBounded : (k : Keyboard) → IsBounded (init k)
unfolding init
init-IsBounded k = record { write_word = omega arith; read_word = omega arith; fits = omega arith }

pub view-init : (k : Keyboard) → view (init k) ≡ idle_keys
unfolding init
view-init k = refl

-- After `keyboard_init`, whatever the driver held before, every sequence of scan codes fed,
-- interrupts with any bytes at the two ports, pops and queries of the drop count gets the replies
-- of a list of characters: each byte is read as a press, a release or a prefix; a press of a letter,
-- a digit, Enter, Backspace or Space types its character of the US layout under the shift and caps
-- lock keys then held, and a press of any other key, or of a key behind a prefix, types nothing; up
-- to 64 characters wait and others are counted as dropped, and a pop delivers the oldest or leaves
-- the caller's character.
pub run-init-keys : (k : Keyboard) (cs : List Call) → run (init k) cs ≡ keys_run idle_keys cs
run-init-keys k cs =
    run_agrees (init k) cs (init-IsBounded k) ∙ ap (λ s. keys_run s cs) (view-init k)
