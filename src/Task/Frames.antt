-- ===== src/Task/Frames.antt =====
-- The stack frames of kernel/task/task.c: `prepare_initial_stack`, and the context switch of
-- boot/context_switch.S as it acts on memory, stack pointers and EFLAGS. Memory is addressed by
-- bytes and read and written by words; the address of `task_stacks` is a parameter.
use tinyshell_os.Base.{ℕ, ◌+◌, ◌-◌, ◌*◌, ◌%◌, false, Array, write}
use tinyshell_os.Task.{
  Scheduler, Flags, Word, number, flags_word, Code, code, trampoline, task_exit, stack_size,
  initial_task_eflags,
}

-- The stack pointer behind the five pushes of the context switch, and the registers pushed.
pub record Cpu : Type 0 where
  pub stack_pointer : ℕ
  pub ebp : ℕ
  pub ebx : ℕ
  pub esi : ℕ
  pub edi : ℕ

-- Six words from `base` on: what the context switch pops.
abbrev pub push_frame : ℕ → Cpu → Flags → Code → Array Word → Array Word
push_frame sp cpu flags return_address m =
    write
      (write
        (write
          (write (write (write m (sp + 20) (code return_address)) (sp + 16) (flags_word flags))
            (sp + 12) (number cpu.ebp))
          (sp + 8) (number cpu.ebx))
        (sp + 4) (number cpu.esi))
      sp (number cpu.edi)

abbrev pub zeroed : ℕ → Cpu
zeroed sp = record { stack_pointer = sp; ebp = 0; ebx = 0; esi = 0; edi = 0 }

-- The end of the stack of task `id`, rounded down to 16 bytes
abbrev pub stack_top : ℕ → ℕ → ℕ
stack_top task_stacks id =
    (task_stacks + (id + 1) * stack_size) - (task_stacks + (id + 1) * stack_size) % 16

unfoldable pub prepare_initial_stack : ℕ → ℕ → Flags → Scheduler → Scheduler
prepare_initial_stack task_stacks id creator_flags s = record s {
  memory =
      push_frame (top - 28) (zeroed (top - 28)) (initial_task_eflags creator_flags) trampoline
        (write s.memory (top - 4) (code task_exit));
  tasks = write s.tasks id (record (s.tasks id) { stack_pointer = top - 28 });
}
  where
    top : ℕ
    top = stack_top task_stacks id

-- What a pop reads; a word of another kind is not read by the scheduler's frames.
abbrev pub flags_of : Word → Flags
flags_of (flags_word flags) = flags
flags_of (number n) = λ _. false
flags_of (code c) = λ _. false

-- How a call ends: it returns, control goes to another context by the given stack pointer and the
-- word that `ret` pops, or the processor is halted.
pub data Outcome (A : Type 0) : Type 0 where
  returned : A → Outcome A
  jumped : ℕ → Word → Outcome A
  stopped : Outcome A

-- `task_context_switch(&old, new, flags)`, called with `return_address` behind the call. `store`
-- writes the old stack pointer.
unfoldable pub task_context_switch :
    {A : Type 0}
    → Cpu
    → Code
    → (ℕ → Scheduler → Scheduler)
    → ℕ
    → Flags
    → Scheduler
    → Outcome A × Scheduler
task_context_switch cpu return_address store new flags s = (
  jumped new (memory (new + 20)),
  store cpu.stack_pointer (record s { memory = memory; eflags = flags_of (memory (new + 16)) }),
)
  where
    memory : Array Word
    memory = push_frame cpu.stack_pointer cpu flags return_address s.memory

abbrev pub store_bootstrap : ℕ → Scheduler → Scheduler
store_bootstrap sp s = record s { bootstrap_stack_pointer = sp }

abbrev pub store_task : ℕ → ℕ → Scheduler → Scheduler
store_task id sp s = record s {
  tasks = write s.tasks id (record (s.tasks id) { stack_pointer = sp });
}
