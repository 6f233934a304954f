-- ===== src/Keyboard/Examples.antt =====
-- kernel/arch/x86/keyboard.c on concrete scan codes.
use tinyshell_os.Base.{
  ◌≡◌, ◌≤◌, refl, true, false, some, List, [], ◌∷◌, ◌++◌, ◌==◌, if◌then◌else◌, length,
}
use tinyshell_os.Keyboard.{Keyboard, init, queue_capacity}
use tinyshell_os.Keyboard.Layout.{layout}
use tinyshell_os.Keyboard.Decode.{classify, decode}
use tinyshell_os.Keyboard.Queue.{enqueue, waiting}
use tinyshell_os.Keyboard.Run.{
  Call, feeds, interrupts, pops, asks_dropped, fed, handled, popped, counted, run, type_byte,
  keys_step, keys_run, idle_keys, run-init-keys,
}
use tinyshell_os.Keyboard.Interleave.{Event, irq, main_loop, schedule, started, delivered-in-order}

abbrev stale : Keyboard
stale = record {
  character_queue = λ _. b'?';
  write_sequence = 5;
  read_sequence = 2;
  dropped_characters = 1;
  left_shift_down = true;
  right_shift_down = false;
  caps_lock_enabled = true;
  extended_prefix_pending = true;
}

-- Shift down, "a", shift up, an interrupt with "1" ready, an extended key, and three pops.
abbrev script : List Call
script =
    feeds 0x2A
    ∷ feeds 0x1E
    ∷ feeds 0xAA
    ∷ interrupts (λ port. if port == 0x64 then 1 else 2)
    ∷ feeds 0xE0
    ∷ feeds 0x1C
    ∷ pops (some 7)
    ∷ pops (some 7)
    ∷ pops (some 7)
    ∷ asks_dropped
    ∷ []

run-init-keys_example : run (init stale) script ≡ keys_run idle_keys script
run-init-keys_example = run-init-keys stale script

script_replies :
    keys_run idle_keys script
    ≡ fed false
      ∷ fed true
      ∷ fed false
      ∷ handled
      ∷ fed false
      ∷ fed false
      ∷ popped true (some b'A')
      ∷ popped true (some b'1')
      ∷ popped false (some 7)
      ∷ counted 0
      ∷ []
unfolding keys_run keys_step type_byte classify decode layout enqueue
script_replies = refl

-- A pop that is interrupted between its loads.
abbrev events : List Event
events =
    irq 0x1E ∷ main_loop ∷ irq 0x30 ∷ main_loop ∷ irq 0x2E ∷ main_loop ∷ irq 0x20 ∷ main_loop ∷ []

delivered-in-order_example :
    let m = schedule events (started stale) in
    (m.delivered ++ waiting m.driver ≡ m.accepted) × (length (waiting m.driver) ≤ queue_capacity)
delivered-in-order_example = delivered-in-order stale events
