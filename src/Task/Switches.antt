-- ===== src/Task/Switches.antt =====
-- The context switches of kernel/task/task.c: from a task to the next, from a task to the
-- bootstrap context, and from there to a task.
use tinyshell_os.Base.{
  ℕ, ◌+◌, ◌-◌, ◌*◌, ◌≤◌, ◌<◌, ◌≡◌, ◌≢◌, refl, sym, ◌⊎◌, inl, inr, true, false, some, Array, arith,
  add32,
}
use tinyshell_os.Task.{
  Scheduler, Tcb, State, running, finished, is_ready, is_running, Flags, Word, Code, code,
  trampoline, run_resumes, yield_resumes, max_tasks, stack_size, activate_task, set_state,
}
use tinyshell_os.Task.Frames.{Cpu, Outcome, jumped, push_frame, store_task, task_context_switch}
use tinyshell_os.Task.Invariant.{
  Frame, InStack, OutsideStacks, Waiting, OthersWait, BootWaits, InBootstrap, InTask, finished_in,
  Frame-push_frame, push_frame-Frame, Waiting-push_frame,
}

-- Control goes to task `id`, to its start or behind its `task_yield`.
pub record EntersTask {A : Type 0} (base id : ℕ) (o : Outcome A) (s : Scheduler) : Type 0 where
  pub sp : ℕ
  pub target : Code
  pub leads : o ≡ jumped sp (code target)
  pub own_stack : InStack base id sp
  pub starts_or_returns : (target ≡ trampoline) ⊎ (target ≡ yield_resumes)
  pub runs : InTask base id s

-- Control goes back to `task_run`.
pub record EntersBootstrap {A : Type 0} (base : ℕ) (o : Outcome A) (s : Scheduler) : Type 0 where
  pub sp : ℕ
  pub leads : o ≡ jumped sp (code run_resumes)
  pub outside : OutsideStacks base sp
  pub stands : InBootstrap base s

-- A task has just stopped running, and none runs.
pub record Vacant (base previous : ℕ) (s : Scheduler) : Type 0 where
  pub initialized : s.scheduler_initialized ≡ true
  pub runs : s.scheduler_running ≡ true
  pub in_range : previous < max_tasks
  pub none_runs : (j : ℕ) → j < max_tasks → is_running (s.tasks j).state ≡ false
  pub others_wait : OthersWait base previous s
  pub boot_waits : BootWaits base s
  pub counted : s.finished_count ≡ finished_in s.tasks max_tasks

abbrev pub dispatched : ℕ → Scheduler → Scheduler
dispatched next s = record (set_state next running s) {
  current_task_id = next;
  round_robin_cursor = next;
  remaining_dispatches = s.remaining_dispatches - 1;
  switch_count = add32 s.switch_count 1;
}

pub activate_task-dispatched :
    (next : ℕ) (s : Scheduler)
    → next < max_tasks
    → is_ready (s.tasks next).state ≡ true
    → s.remaining_dispatches ≢ 0
    → activate_task next s ≡ (true, dispatched next s)
unfolding activate_task
activate_task-dispatched next s lt r some_left = ground arith

-- What a push from outside its stack leaves of a waiting task's frame.
pub frame_target :
    (base id sp : ℕ) (cpu : Cpu) (flags : Flags) (c : Code) (m : Array Word) (t : Tcb)
    → (sp + 24 ≤ base + id * stack_size) ⊎ (base + id * stack_size + stack_size ≤ sp)
    → Waiting base m id t
    → (target : Code) × (push_frame sp cpu flags c m (t.stack_pointer + 20) ≡ code target)
      × ((target ≡ trampoline) ⊎ (target ≡ yield_resumes))
frame_target base id sp cpu flags c m t away w =
    elim (Waiting-push_frame base id sp cpu flags c m t away w).frame [
      | inl f ↦ (trampoline, f.code_at, inl refl)
      | inr f ↦ (yield_resumes, f.code_at, inr refl)
    ]

-- The stacks of two tasks do not meet.
pub stacks_apart :
    (base i j sp : ℕ)
    → i ≢ j
    → InStack base i sp
    → (sp + 24 ≤ base + j * stack_size) ⊎ (base + j * stack_size + stack_size ≤ sp)
stacks_apart base i j sp ne h = omega arith

pub outside_apart :
    (base j sp : ℕ)
    → j < max_tasks
    → OutsideStacks base sp
    → (sp + 24 ≤ base + j * stack_size) ⊎ (base + j * stack_size + stack_size ≤ sp)
outside_apart base j sp lt h = omega arith

pub not_finished : (t : State) → is_ready t ≡ true → t ≢ finished
not_finished t r = ground arith

module _ (base previous next : ℕ) (cpu : Cpu) (flags : Flags) (point : Code) (s : Scheduler)
    (vacant : Vacant base previous s) (own : InStack base previous cpu.stack_pointer) where
  abbrev after_switch : Scheduler
  after_switch =
      (task_context_switch {A = Unit {0}} cpu point (store_task previous)
        (s.tasks next).stack_pointer flags (dispatched next s)).1

  -- The boot context's frame survives a push into a task's stack.
  pub boot-Frame :
      Frame
        (push_frame cpu.stack_pointer cpu flags point s.memory)
        s.bootstrap_stack_pointer
        run_resumes
  boot-Frame =
      Frame-push_frame cpu.stack_pointer cpu flags point s.memory s.bootstrap_stack_pointer
        run_resumes (omega (arith, own, vacant.in_range, vacant.boot_waits.outside))
        vacant.boot_waits.frame

  -- A task that waits in another stack goes on waiting.
  pub Waiting-stays :
      (j : ℕ)
      → j < max_tasks
      → j ≢ previous
      → is_ready (s.tasks j).state ≡ true
      → Waiting base (push_frame cpu.stack_pointer cpu flags point s.memory) j (s.tasks j)
  Waiting-stays j lt ne r =
      Waiting-push_frame base j cpu.stack_pointer cpu flags point s.memory (s.tasks j)
        (stacks_apart base previous j cpu.stack_pointer (λ e. ne (sym e)) own)
        (vacant.others_wait j lt ne r)

  -- The task that stopped waits with the frame just pushed.
  pub previous_waits :
      (entry : ℕ)
      → (s.tasks previous).entry ≡ some entry
      → point ≡ yield_resumes
      → Waiting base
          (push_frame cpu.stack_pointer cpu flags point s.memory)
          previous
          (record (s.tasks previous) { stack_pointer = cpu.stack_pointer })
  previous_waits entry e p = record {
    entry = entry;
    has_entry = e;
    own_stack = own;
    frame = inr (rw p (push_frame-Frame cpu.stack_pointer cpu flags yield_resumes s.memory));
  }
