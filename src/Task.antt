-- ===== src/Task.antt =====
-- kernel/task/task.c with include/task/task.h and boot/context_switch.S: the cooperative scheduler
-- of eight tasks. The static variables, the memory that holds the stacks and the EFLAGS register
-- are one record. EFLAGS is the array of its bits. A pointer that the code compares with NULL is
-- an Option. The kernel's build is modelled, not the one under TINYOS_TASK_TEST_USER_MODE.
pub mod Frames
pub mod Calls
pub mod Next
pub mod Invariant
pub mod Switches
pub mod Dispatch
pub mod Handover
pub mod System
pub mod Yields
pub mod Leaves
pub mod Runs
pub mod Creates
pub mod Sound
pub mod Fairness
mod Examples
use tinyshell_os.Base.{
  ℕ, ◌+◌, ◌-◌, ◌%◌, Bool, true, false, not, ◌||◌, ◌&&◌, Option, none, some, Array, write,
  find_first, add32, word_max, leb, ◌==◌, if◌then◌else◌,
}

-- TASK_MAX_TASKS
abbrev pub max_tasks : ℕ
max_tasks = 8

-- TASK_STACK_SIZE
abbrev pub stack_size : ℕ
stack_size = 16384

-- TASK_INVALID_ID
abbrev pub invalid_id : ℕ
invalid_id = word_max

pub data State : Type 0 where
  unused ready running finished : State

abbrev pub is_ready : State → Bool
is_ready ready = true
is_ready _ = false

abbrev pub is_running : State → Bool
is_running running = true
is_running _ = false

abbrev pub is_unused : State → Bool
is_unused unused = true
is_unused _ = false

-- `struct task_control_block`; an entry function is known by its address.
pub record Tcb : Type 0 where
  pub state : State
  pub entry : Option ℕ
  pub argument : ℕ
  pub stack_pointer : ℕ

abbrev pub Flags : Type 0
Flags = Array Bool

-- The places in the code to which a `ret` of the context switch can lead: the start of a task,
-- the end of a task, and behind each call of the context switch.
pub data Code : Type 0 where
  trampoline task_exit run_resumes yield_resumes exit_resumes : Code

-- What a memory word holds.
pub data Word : Type 0 where
  number : ℕ → Word
  flags_word : Flags → Word
  code : Code → Word

pub record Scheduler : Type 0 where
  pub tasks : Array Tcb
  pub memory : Array Word
  pub bootstrap_stack_pointer : ℕ
  pub current_task_id : ℕ
  pub round_robin_cursor : ℕ
  pub remaining_dispatches : ℕ
  pub switch_count : ℕ
  pub finished_count : ℕ
  pub scheduler_initialized : Bool
  pub scheduler_running : Bool
  pub eflags : Flags

-- The bits EFLAGS_RESERVED, EFLAGS_TRAP, EFLAGS_INTERRUPT, EFLAGS_DIRECTION, EFLAGS_NESTED_TASK
-- and EFLAGS_VIRTUAL_8086.
abbrev pub reserved_bit : ℕ
reserved_bit = 1

abbrev pub trap_bit : ℕ
trap_bit = 8

abbrev pub interrupt_bit : ℕ
interrupt_bit = 9

abbrev pub direction_bit : ℕ
direction_bit = 10

abbrev pub nested_task_bit : ℕ
nested_task_bit = 14

abbrev pub virtual_8086_bit : ℕ
virtual_8086_bit = 17

-- `cli` behind the read of the flags
unfoldable pub interrupt_state_save_and_disable : Scheduler → Flags × Scheduler
interrupt_state_save_and_disable s =
    (s.eflags, record s { eflags = write s.eflags interrupt_bit false })

-- `sti` or `cli`
unfoldable pub interrupt_state_restore : Flags → Scheduler → Scheduler
interrupt_state_restore flags s =
    if flags interrupt_bit
    then record s { eflags = write s.eflags interrupt_bit true }
    else record s { eflags = write s.eflags interrupt_bit false }

abbrev pub search_start : ℕ → ℕ
search_start after = if after == invalid_id then 0 else add32 after 1 % max_tasks

abbrev pub candidate : ℕ → ℕ → ℕ
candidate after offset = (search_start after + offset) % max_tasks

unfoldable pub find_next_ready : ℕ → Scheduler → ℕ
find_next_ready after s =
    elim (find_first (λ offset. is_ready (s.tasks (candidate after offset)).state) max_tasks 0) [
      | none ↦ invalid_id
      | some offset ↦ candidate after offset
    ]

abbrev pub set_state : ℕ → State → Scheduler → Scheduler
set_state id state s = record s { tasks = write s.tasks id (record (s.tasks id) { state = state }) }

unfoldable pub activate_task : ℕ → Scheduler → Bool × Scheduler
activate_task id s =
    if leb max_tasks id || (not (is_ready (s.tasks id).state) || s.remaining_dispatches == 0)
    then (false, s)
    else (
      true,
      record (set_state id running s) {
        current_task_id = id;
        round_robin_cursor = id;
        remaining_dispatches = s.remaining_dispatches - 1;
        switch_count = add32 s.switch_count 1;
      },
    )

unfoldable pub initial_task_eflags : Flags → Flags
initial_task_eflags creator bit =
    (creator bit || bit == reserved_bit)
    && not (
        bit == trap_bit
        || (bit == direction_bit || (bit == nested_task_bit || bit == virtual_8086_bit)))
