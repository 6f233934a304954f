-- ===== src/Ipc/Examples.antt =====
-- kernel/ipc/ipc.c on concrete calls.
use tinyshell_os.Base.{ℕ, ◌*◌, ◌≡◌, refl, true, false, some, List, [], ◌∷◌, find_first}
use tinyshell_os.Ipc.{Message, EndpointState, Endpoints, init}
use tinyshell_os.Ipc.Bounds.{AllBounded}
use tinyshell_os.Ipc.Fifo.{open_first, post}
use tinyshell_os.Ipc.Refine.{packet}
use tinyshell_os.Ipc.Calls.{
  Call, creates, sends, receives, asks_pending, asks_rejected, created, sent, received, counted,
  run,
}
use tinyshell_os.Ipc.Channels
use tinyshell_os.Ipc.Inside.{IsInside}
use tinyshell_os.Ipc.Run.{all_closed, after, run-init-Channels, after-init-AllBounded}

abbrev note : Message
note = record { sender = 3; type = 1; length = 2; payload = λ i. i * 10 }

abbrev too_long : Message
too_long = record note { length = 33 }

abbrev stale : EndpointState
stale = record {
  allocated = true;
  read_sequence = 7;
  write_sequence = 9;
  rejected_messages = 4;
  queue = λ _. note;
}

abbrev boot : Endpoints
boot _ = stale

abbrev script : List Call
script =
    creates
    ∷ sends 0 (some note)
    ∷ sends 0 (some too_long)
    ∷ sends 1 (some note)
    ∷ asks_pending 0
    ∷ receives 0 (some note)
    ∷ receives 0 (some note)
    ∷ asks_rejected 0
    ∷ []

run-init-Channels_example : run (init boot) script ≡ Channels.run all_closed script
run-init-Channels_example = run-init-Channels boot script

after-init-AllBounded_example :
    AllBounded (after (init boot) script) × IsInside boot (after (init boot) script)
after-init-AllBounded_example = after-init-AllBounded boot script

abbrev zeros : List ℕ
zeros =
    0 ∷ 0 ∷ 0 ∷ 0 ∷ 0 ∷ 0 ∷ 0 ∷ 0 ∷ 0 ∷ 0 ∷ 0 ∷ 0 ∷ 0 ∷ 0 ∷ 0 ∷ 0 ∷ 0 ∷ 0 ∷ 0 ∷ 0 ∷ 0 ∷ 0 ∷ 0 ∷ 0
    ∷ 0 ∷ 0 ∷ 0 ∷ 0 ∷ 0 ∷ 0 ∷ []

-- The second receive finds the queue empty and leaves the buffer with the bytes it had.
script_replies :
    Channels.run all_closed script
    ≡ created 0
      ∷ sent true
      ∷ sent false
      ∷ sent false
      ∷ counted 1
      ∷ received true (some (record (packet note) { bytes = 0 ∷ 10 ∷ zeros }))
      ∷ received false (some (packet note))
      ∷ counted 0
      ∷ []
unfolding Channels.run Channels.step open_first post find_first
script_replies = refl
