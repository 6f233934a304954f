-- ===== src/Ipc/Fifo.antt =====
-- The abstract view of kernel/ipc/ipc.c: a table of channels, each open or not, an open one with
-- the packets that wait in it, oldest first.
use tinyshell_os.Base.{
  ℕ, Bool, true, false, Option, none, some, List, [], ◌∷◌, ◌++◌, Array, write, length, find_first,
  add32, word_max, leb, if◌then◌else◌,
}

-- A message by its header and all bytes of its payload.
pub record Packet : Type 0 where
  pub sender : ℕ
  pub type : ℕ
  pub size : ℕ
  pub bytes : List ℕ

pub record Channel : Type 0 where
  pub waiting : List Packet
  pub rejected : ℕ

abbrev pub Table : Type 0
Table = Array (Option Channel)

abbrev pub is_closed : Option Channel → Bool
is_closed none = true
is_closed (some c) = false

unfoldable pub open_first : ℕ → Table → ℕ × Table
open_first slots t = elim (find_first (λ e. is_closed (t e)) slots 0) [
  | none ↦ (word_max, t)
  | some e ↦ (e, write t e (some (record { waiting = []; rejected = 0 })))
]

-- A full channel refuses the packet and counts it.
unfoldable pub post : ℕ → Packet → Channel → Bool × Channel
post depth p c =
    if leb depth (length c.waiting)
    then (false, record c { rejected = add32 c.rejected 1 })
    else (true, record c { waiting = c.waiting ++ (p ∷ []) })
