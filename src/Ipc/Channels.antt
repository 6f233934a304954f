-- ===== src/Ipc/Channels.antt =====
-- The operations of the abstract table, one for each call of kernel/ipc/ipc.c.
use tinyshell_os.Base.{
  ℕ, Bool, true, false, Option, none, some, List, [], ◌∷◌, write, length, ltb, if◌then◌else◌,
}
use tinyshell_os.Ipc.{Message, queue_depth, max_endpoints, payload_max}
use tinyshell_os.Ipc.Fifo.{Packet, Channel, Table, open_first, post}
use tinyshell_os.Ipc.Refine.{packet, posted}
use tinyshell_os.Ipc.Calls.{
  Call, creates, sends, receives, asks_pending, asks_rejected, Reply, created, sent, received,
  counted,
}

-- An endpoint outside the table is closed.
abbrev pub at : Table → ℕ → Option Channel
at t e = if ltb e max_endpoints then t e else none

unfoldable pub post_at : ℕ → Message → Table → Option Channel → Bool × Table
post_at e m t none = (false, t)
post_at e m t (some c) =
    if ltb payload_max m.length
    then (false, t)
    else let (b, c') = post queue_depth (posted m) c in (b, write t e (some c'))

unfoldable pub send : ℕ → Option Message → Table → Bool × Table
unfolding post_at
send e none t = (false, t)
send e (some m) t = post_at e m t (at t e)

unfoldable pub fetch_at : ℕ → Message → Table → ℕ → List Packet → Bool × Packet × Table
fetch_at e buffer t rejected [] = (false, packet buffer, t)
fetch_at e buffer t rejected (p ∷ ps) =
    (true, p, write t e (some (record { waiting = ps; rejected = rejected })))

unfoldable pub receive_at : ℕ → Message → Table → Option Channel → Bool × Packet × Table
unfolding fetch_at
receive_at e buffer t none = (false, packet buffer, t)
receive_at e buffer t (some c) = fetch_at e buffer t c.rejected c.waiting

abbrev pub waiting_at : Option Channel → ℕ
waiting_at none = 0
waiting_at (some c) = length c.waiting

abbrev pub rejected_at : Option Channel → ℕ
rejected_at none = 0
rejected_at (some c) = c.rejected

unfoldable pub step : Table → Call → Reply × Table
unfolding send receive_at open_first
step t creates = let (e, t') = open_first max_endpoints t in (created e, t')
step t (sends e m) = let (b, t') = send e m t in (sent b, t')
step t (receives e none) = (received false none, t)
step t (receives e (some buffer)) =
    let (b, p, t') = receive_at e buffer t (at t e) in (received b (some p), t')
step t (asks_pending e) = (counted (waiting_at (at t e)), t)
step t (asks_rejected e) = (counted (rejected_at (at t e)), t)

unfoldable pub run : Table → List Call → List Reply
run t [] = []
run t (c ∷ cs) = let (r, t') = step t c in r ∷ run t' cs
