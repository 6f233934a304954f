-- ===== src/Ipc/Calls.antt =====
-- Sequences of calls of kernel/ipc/ipc.c, on the endpoints and on the abstract table.
use mathlib.Core.Option
use tinyshell_os.Base.{ℕ, Bool, Option, List, [], ◌∷◌}
use tinyshell_os.Ipc.{Message, Endpoints, create, send, receive, pending, rejected_count}
use tinyshell_os.Ipc.Fifo.{Packet}
use tinyshell_os.Ipc.Refine.{packet}

pub data Call : Type 0 where
  creates : Call
  sends : ℕ → Option Message → Call
  receives : ℕ → Option Message → Call
  asks_pending : ℕ → Call
  asks_rejected : ℕ → Call

-- What a client sees of a call. A received buffer is seen as a packet, also where it is unchanged.
pub data Reply : Type 0 where
  created : ℕ → Reply
  sent : Bool → Reply
  received : Bool → Option Packet → Reply
  counted : ℕ → Reply

unfoldable pub step : Endpoints → Call → Reply × Endpoints
step s creates = let (e, s') = create s in (created e, s')
step s (sends e m) = let (b, s') = send e m s in (sent b, s')
step s (receives e buffer) =
    let (b, out, s') = receive e buffer s in (received b (Option.map packet out), s')
step s (asks_pending e) = (counted (pending e s), s)
step s (asks_rejected e) = (counted (rejected_count e s), s)

unfoldable pub run : Endpoints → List Call → List Reply
run s [] = []
run s (c ∷ cs) = let (r, s') = step s c in r ∷ run s' cs
