-- ===== src/Task/System.antt =====
-- The contexts that kernel/task/task.c switches between, as a machine: the bootstrap context and
-- the tasks call the scheduler in any order, and control goes where the popped words lead. The
-- context that executes is the owner of the stack that the switch loaded.
use tinyshell_os.Base.{
  ℕ, ◌+◌, ◌-◌, ◌*◌, ◌/◌, ◌≡◌, Bool, true, false, ◌&&◌, Option, none, some, ltb, leb, if◌then◌else◌,
}
use tinyshell_os.Task.{
  Scheduler, Word, number, flags_word, code, trampoline as start_point, task_exit as exit_entry,
  run_resumes as run_point, yield_resumes as yield_point, exit_resumes as exit_point, max_tasks,
  stack_size,
}
use tinyshell_os.Task.Frames.{Cpu, Outcome, returned, jumped, stopped}
use tinyshell_os.Task.Calls.{system_init, create, run, run_resumes, yield, exit, trampoline}
use tinyshell_os.Task.Invariant.{InStack, OutsideStacks, InBootstrap, InTask}

-- `halted` holds the context that halted the processor, and `lost` is a `ret` to a word that is no
-- return address of a stopped context.
pub data Place : Type 0 where
  bootstrap : Place
  in_task : ℕ → Place
  halted : Place → Place
  lost : Place

pub record System : Type 0 where
  pub scheduler : Scheduler
  pub place : Place

abbrev pub owner : ℕ → ℕ → Place
owner base sp =
    if leb base sp && ltb sp (base + max_tasks * stack_size)
    then in_task ((sp - base) / stack_size)
    else bootstrap

-- Behind the `ret` of the context switch, on the stack at `sp`.
unfoldable pub land : ℕ → ℕ → Word → Scheduler → System
land base sp (number n) s = record { scheduler = s; place = lost }
land base sp (flags_word f) s = record { scheduler = s; place = lost }
land base sp (code start_point) s = record {
  scheduler = s;
  place = elim (trampoline s) [ none ↦ halted (owner base sp) | some call ↦ owner base sp ];
}
land base sp (code exit_entry) s = record { scheduler = s; place = lost }
land base sp (code run_point) s = record { scheduler = (run_resumes s).1; place = owner base sp }
land base sp (code yield_point) s = record { scheduler = s; place = owner base sp }
land base sp (code exit_point) s = record { scheduler = s; place = halted (owner base sp) }

abbrev pub settle : {A : Type 0} → ℕ → Place → Outcome A × Scheduler → System
settle base place (returned a, s) = record { scheduler = s; place = place }
settle base place (jumped sp w, s) = land base sp w s
settle base place (stopped, s) = record { scheduler = s; place = halted place }

-- The calls that the executing context may make. A task whose entry function returns exits.
pub data Event : Type 0 where
  inits : Event
  creates : Option ℕ → ℕ → Event
  runs : Cpu → ℕ → Event
  yields : Cpu → Event
  exits : Cpu → Event

unfoldable pub call : ℕ → Event → System → System
call base inits y = record y { scheduler = system_init y.scheduler }
call base (creates entry argument) y = record y {
  scheduler = (create base entry argument y.scheduler).1;
}
call base (runs cpu budget) y = settle base y.place (run cpu budget y.scheduler)
call base (yields cpu) y = settle base y.place (yield cpu y.scheduler)
call base (exits cpu) y = settle base y.place (exit cpu y.scheduler)

-- A processor that is halted, or lost, makes no call.
abbrev pub executes : Place → Bool
executes bootstrap = true
executes (in_task id) = true
executes (halted place) = false
executes lost = false

unfoldable pub step : ℕ → Event → System → System
step base e y = if executes y.place then call base e y else y

-- The stack pointer of a call lies in the stack of the context that executes.
abbrev pub OnStack : ℕ → Place → ℕ → Type 0
OnStack base bootstrap sp = OutsideStacks base sp
OnStack base (in_task id) sp = InStack base id sp
OnStack base (halted place) sp = Unit {0}
OnStack base lost sp = Unit {0}

abbrev pub Fits : ℕ → Place → Event → Type 0
Fits base place inits = Unit {0}
Fits base place (creates entry argument) = Unit {0}
Fits base place (runs cpu budget) = OnStack base place cpu.stack_pointer
Fits base place (yields cpu) = OnStack base place cpu.stack_pointer
Fits base place (exits cpu) = OnStack base place cpu.stack_pointer

-- What can be reached from `y` by calls made on the caller's own stack.
pub data Reach (base : ℕ) (y : System) : System → Type 0 where
  here : Reach base y y
  next :
      {u : System}
      → Reach base y u
      → (e : Event) → Fits base u.place e
      → {v : System} → step base e u ≡ v
      → Reach base y v

-- The context that executes is the one that the scheduler's state names; control is never lost,
-- and the processor is halted by no context but the bootstrap context.
abbrev pub SoundAt : ℕ → Place → Scheduler → Type 0
SoundAt base bootstrap s = InBootstrap base s
SoundAt base (in_task id) s = InTask base id s
SoundAt base (halted bootstrap) s = InBootstrap base s
SoundAt base (halted (in_task id)) s = ⊥
SoundAt base (halted (halted place)) s = ⊥
SoundAt base (halted lost) s = ⊥
SoundAt base lost s = ⊥
