-- ===== src/Ipc.antt =====
-- kernel/ipc/ipc.c with include/ipc/ipc.h: eight static endpoints, each a queue of eight copied
-- messages behind two free-running sequence numbers. The array `endpoints` is the state that each
-- function takes and returns. A pointer that the code compares with 0 is an Option: of the
-- message for `ipc_send`, of the caller's buffer for `ipc_receive`.
pub mod Fifo
pub mod Bounds
pub mod Refine
pub mod Calls
pub mod Channels
pub mod Inside
pub mod Run
mod Examples
use tinyshell_os.Base.{
  ℕ, suc, ◌%◌, ◌≡◌, Bool, true, false, not, ◌&&◌, ◌||◌, Option, none, some, Array, write, each,
  find_first, add32, sub32, word_max, ltb, leb, ◌==◌, if◌then◌else◌,
}

abbrev pub max_endpoints : ℕ
max_endpoints = 8

abbrev pub queue_depth : ℕ
queue_depth = 8

abbrev pub payload_max : ℕ
payload_max = 32

-- IPC_INVALID_ENDPOINT
abbrev pub invalid_endpoint : ℕ
invalid_endpoint = word_max

pub record Message : Type 0 where
  pub sender : ℕ
  pub type : ℕ
  pub length : ℕ
  pub payload : Array ℕ

pub record EndpointState : Type 0 where
  pub allocated : Bool
  pub read_sequence : ℕ
  pub write_sequence : ℕ
  pub rejected_messages : ℕ
  pub queue : Array Message

abbrev pub Endpoints : Type 0
Endpoints = Array EndpointState

pub message_clear : Message → Message
message_clear m = record {
  sender = 0;
  type = 0;
  length = 0;
  payload = each payload_max (λ _ _. 0) m.payload;
}

pub endpoint_is_valid : Endpoints → ℕ → Bool
endpoint_is_valid s e = ltb e max_endpoints && (s e).allocated

-- One round of the loop of `ipc_init`.
pub endpoint_reset : EndpointState → EndpointState
endpoint_reset state = record {
  allocated = false;
  read_sequence = 0;
  write_sequence = 0;
  rejected_messages = 0;
  queue = each queue_depth (λ _ m. message_clear m) state.queue;
}

pub init : Endpoints → Endpoints
init s = each max_endpoints (λ _ state. endpoint_reset state) s

pub create : Endpoints → ℕ × Endpoints
create s = elim (find_first (λ e. not (s e).allocated) max_endpoints 0) [
  | none ↦ (invalid_endpoint, s)
  | some e ↦ (
    e,
    write s e (record (s e) {
      allocated = true;
      read_sequence = 0;
      write_sequence = 0;
      rejected_messages = 0;
    }),
  )
]

-- What `ipc_send` writes into the slot `destination`.
pub copy_in : Message → Message → Message
copy_in m destination = record {
  sender = m.sender;
  type = m.type;
  length = m.length;
  payload = each payload_max (λ i _. if ltb i m.length then m.payload i else 0) destination.payload;
}

-- `ipc_send` behind its argument checks, on the endpoint's state.
pub deliver : Message → EndpointState → Bool × EndpointState
deliver m state =
    if leb queue_depth (sub32 state.write_sequence state.read_sequence)
    then (false, record state { rejected_messages = add32 state.rejected_messages 1 })
    else (
      true,
      record state {
        queue = write state.queue slot (copy_in m (state.queue slot));
        write_sequence = add32 state.write_sequence 1;
      },
    )
  where
    slot : ℕ
    slot = state.write_sequence % queue_depth

pub send : ℕ → Option Message → Endpoints → Bool × Endpoints
send e none s = (false, s)
send e (some m) s =
    if not (endpoint_is_valid s e) || ltb payload_max m.length
    then (false, s)
    else let (sent, state) = deliver m (s e) in (sent, write s e state)

-- What `ipc_receive` writes into the caller's buffer.
pub copy_out : Message → Message → Message
copy_out source buffer = record {
  sender = source.sender;
  type = source.type;
  length = source.length;
  payload = each payload_max (λ i _. source.payload i) buffer.payload;
}

-- The caller's buffer comes back beside the result.
pub receive : ℕ → Option Message → Endpoints → Bool × Option Message × Endpoints
receive e none s = (false, none, s)
receive e (some buffer) s =
    if not (endpoint_is_valid s e) || (state.read_sequence == state.write_sequence)
    then (false, some buffer, s)
    else (
      true,
      some (copy_out (state.queue (state.read_sequence % queue_depth)) buffer),
      write s e (record state { read_sequence = add32 state.read_sequence 1 }),
    )
  where
    state : EndpointState
    state = s e

pub pending : ℕ → Endpoints → ℕ
pending e s = if endpoint_is_valid s e then sub32 (s e).write_sequence (s e).read_sequence else 0

pub rejected_count : ℕ → Endpoints → ℕ
rejected_count e s = if endpoint_is_valid s e then (s e).rejected_messages else 0
