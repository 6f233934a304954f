-- ===== src/Task/Sound.antt =====
-- The states that calls of kernel/task/task.c lead to, and the contexts that execute in them.
use mathlib.Core.Path.{subst}
use tinyshell_os.Base.{ℕ, ◌-◌, ◌/◌, ◌%◌, ◌<◌, ◌≡◌, ◌⊎◌, inl, inr, false, some, arith, write}
use tinyshell_os.Task.{
  Scheduler, Code, code, trampoline as start_point, run_resumes as run_point,
  yield_resumes as yield_point, interrupt_bit, max_tasks, stack_size,
  interrupt_state_save_and_disable,
}
use tinyshell_os.Task.Frames.{Cpu, Outcome}
use tinyshell_os.Task.Calls.{system_init, run_resumes, yield, exit, trampoline}
use tinyshell_os.Task.Invariant.{InStack, OutsideStacks, InBootstrap, InTask}
use tinyshell_os.Task.Yields.{InBootstrap-eflags, InBootstrap-restore, outside_task-InBootstrap}
use tinyshell_os.Task.Leaves.{
  Continues, stays, to_task, to_bootstrap, yield-Continues, exit-Continues,
}
use tinyshell_os.Task.Runs.{run-InBootstrap, run-InTask}
use tinyshell_os.Task.Creates.{
  create-InBootstrap, create-InTask, system_init-InBootstrap, system_init-InTask,
}
use tinyshell_os.Task.System.{
  Place, bootstrap, in_task, halted, lost, System, owner, land, settle, Event, inits, creates, runs,
  yields, exits, call, step, Fits, Reach, here, next, SoundAt,
}

abbrev Sound : ℕ → System → Type 0
Sound base y = SoundAt base y.place y.scheduler

owner-task : (base id sp : ℕ) → id < max_tasks → InStack base id sp → owner base sp ≡ in_task id
owner-task base id sp lt h =
    let e : (sp - base) / stack_size ≡ id = omega arith in rw e (ground arith)

owner-bootstrap : (base sp : ℕ) → OutsideStacks base sp → owner base sp ≡ bootstrap
owner-bootstrap base sp h = ground arith

-- A task that is entered at its start has an entry function to call.
trampoline-InTask :
    (base id entry : ℕ) (s : Scheduler)
    → InTask base id s
    → (s.tasks id).entry ≡ some entry
    → trampoline s ≡ some (entry, (s.tasks id).argument)
unfolding trampoline
trampoline-InTask base id entry s h e =
    rw h.current (ground (arith, h.alone id h.in_range, h.in_range, e))

land-task :
    (base id sp : ℕ) (target : Code) (s : Scheduler)
    → (target ≡ start_point) ⊎ (target ≡ yield_point)
    → InStack base id sp
    → InTask base id s
    → Sound base (land base sp (code target) s)
unfolding land
land-task base id sp target s (inl e) own h =
    rw
      (
        e,
        land,
        trampoline-InTask base id h.entry s h h.has_entry,
        owner-task base id sp h.in_range own,
      )
      h
land-task base id sp target s (inr e) own h = rw (e, land, owner-task base id sp h.in_range own) h

run_resumes-InBootstrap :
    (base : ℕ) (s : Scheduler) → InBootstrap base s → InBootstrap base (run_resumes s).1
unfolding run_resumes interrupt_state_save_and_disable
run_resumes-InBootstrap base s h =
    InBootstrap-restore base s.eflags _
      (InBootstrap-eflags base (write s.eflags interrupt_bit false) s h)

land-bootstrap :
    (base sp : ℕ) (s : Scheduler)
    → OutsideStacks base sp
    → InBootstrap base s
    → Sound base (land base sp (code run_point) s)
unfolding land
land-bootstrap base sp s out h = rw (owner-bootstrap base sp out) (run_resumes-InBootstrap base s h)

-- However a call ends, what executes next fits the scheduler's state.
settle-Sound :
    {A : Type 0} (base : ℕ) (place : Place) (P : Scheduler → Type 0) (o : Outcome A) (s : Scheduler)
    → (P s → SoundAt base place s)
    → Continues base P o s
    → Sound base (settle base place (o, s))
settle-Sound base place P o s keep (stays a e h) = rw e (keep h)
settle-Sound base place P o s keep (to_task id e) =
    rw e.leads (land-task base id e.sp e.target s e.starts_or_returns e.own_stack e.runs)
settle-Sound base place P o s keep (to_bootstrap e) =
    rw e.leads (land-bootstrap base e.sp s e.outside e.stands)

-- `task_yield` does nothing in the bootstrap context, and `task_exit` halts.
idle_yield :
    (base : ℕ) (cpu : Cpu) (s : Scheduler)
    → InBootstrap base s
    → Sound base (settle base bootstrap (yield cpu s))
unfolding yield interrupt_state_save_and_disable
idle_yield base cpu s h =
    let h' = InBootstrap-eflags base (write s.eflags interrupt_bit false) s h in
    rw (outside_task-InBootstrap base (record s { eflags = write s.eflags interrupt_bit false }) h')
      (InBootstrap-restore base s.eflags _ h')

idle_exit :
    (base : ℕ) (cpu : Cpu) (s : Scheduler)
    → InBootstrap base s
    → Sound base (settle base bootstrap (exit cpu s))
unfolding exit interrupt_state_save_and_disable
idle_exit base cpu s h =
    let h' = InBootstrap-eflags base (write s.eflags interrupt_bit false) s h in
    rw (outside_task-InBootstrap base (record s { eflags = write s.eflags interrupt_bit false }) h')
      h'

bootstrap_call :
    (base : ℕ) (e : Event) (s : Scheduler)
    → base % 16 ≡ 0
    → Fits base bootstrap e
    → InBootstrap base s
    → Sound base (call base e (record { scheduler = s; place = bootstrap }))
unfolding call
bootstrap_call base inits s aligned f h = system_init-InBootstrap base s h.stands
bootstrap_call base (creates entry argument) s aligned f h =
    create-InBootstrap base entry argument s aligned h
bootstrap_call base (runs cpu budget) s aligned f h =
    settle-Sound base bootstrap (InBootstrap base) _ _ (λ h. h)
      (run-InBootstrap base cpu budget s h f)
bootstrap_call base (yields cpu) s aligned f h = idle_yield base cpu s h
bootstrap_call base (exits cpu) s aligned f h = idle_exit base cpu s h

task_call :
    (base id : ℕ) (e : Event) (s : Scheduler)
    → Fits base (in_task id) e
    → InTask base id s
    → Sound base (call base e (record { scheduler = s; place = in_task id }))
unfolding call
task_call base id inits s f h = system_init-InTask base id s h
task_call base id (creates entry argument) s f h = create-InTask base id entry argument s h
task_call base id (runs cpu budget) s f h =
    settle-Sound base (in_task id) (InTask base id) _ _ (λ h. h) (run-InTask base id cpu budget s h)
task_call base id (yields cpu) s f h =
    settle-Sound base (in_task id) (InTask base id) _ _ (λ h. h) (yield-Continues base id cpu s h f)
task_call base id (exits cpu) s f h =
    settle-Sound base (in_task id) (λ _. ⊥) _ _ (λ h. absurd h) (exit-Continues base id cpu s h f)

step-Sound :
    (base : ℕ) (place : Place) (s : Scheduler) (e : Event)
    → base % 16 ≡ 0
    → Fits base place e
    → SoundAt base place s
    → Sound base (step base e (record { scheduler = s; place = place }))
unfolding step
step-Sound base bootstrap s e aligned f h = bootstrap_call base e s aligned f h
step-Sound base (in_task id) s e aligned f h = task_call base id e s f h
step-Sound base (halted place) s e aligned f h = h
step-Sound base lost s e aligned f h = h

abbrev pub booted : Scheduler → System
booted s = record { scheduler = system_init s; place = bootstrap }

Reach-Sound :
    {base : ℕ} {u v : System} → base % 16 ≡ 0 → Sound base u → Reach base u v → Sound base v
Reach-Sound aligned h here = h
Reach-Sound {base} aligned h (next {u = w} r e f {v} p) =
    subst (Sound base) p (step-Sound base w.place w.scheduler e aligned f (Reach-Sound aligned h r))

-- After `task_system_init` outside a run, on stacks aligned to 16 bytes, in every state that calls
-- of the scheduler lead to, each made on the stack of the context that executes: either the
-- bootstrap context executes, the scheduler stands, no task is marked running and the current task
-- is invalid; or a task below 8 executes, the scheduler runs, it alone is marked running and it is
-- the current task, and `task_run` has a frame outside the tasks' stacks to return to; or the
-- bootstrap context has halted the processor, with the scheduler standing. In each case every ready task that does not
-- execute has an entry and, in its own stack, a frame that starts it or returns from its
-- `task_yield`, and the finished count is the number of finished tasks. So no switch pops a word
-- that is not a return address, and no task's call halts the processor.
pub reachable-SoundAt :
    (base : ℕ) (s : Scheduler) {y : System}
    → base % 16 ≡ 0
    → s.scheduler_running ≡ false
    → Reach base (booted s) y
    → SoundAt base y.place y.scheduler
reachable-SoundAt base s aligned idle r =
    Reach-Sound aligned (system_init-InBootstrap base s idle) r
