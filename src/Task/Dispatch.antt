-- ===== src/Task/Dispatch.antt =====
-- Each way in which kernel/task/task.c leaves a context ends in a context that can go on.
use tinyshell_os.Base.{
  ℕ, ◌<◌, ◌≡◌, ◌≢◌, refl, ap, sym, ◌∙◌, inl, inr, true, false, some, Array, arith, write, ◌==◌,
  Bool-cases,
}
use mathlib.Core.Path.{subst}
use tinyshell_os.Task.{
  Scheduler, Tcb, running, is_ready, is_running, Flags, Code, yield_resumes, max_tasks,
}
use tinyshell_os.Task.Frames.{Cpu, push_frame, store_task, task_context_switch}
use tinyshell_os.Task.Invariant.{InStack, Waiting, finished_in, finished_in-ext, finished_in-write}
use tinyshell_os.Task.Switches.{
  EntersTask, Vacant, dispatched, frame_target, stacks_apart, not_finished, boot-Frame,
  Waiting-stays, previous_waits,
}

-- Starting a task that is ready changes no count of finished tasks, whatever else its slots hold.
pub start_counted :
    (tasks tasks' : Array Tcb) (next : ℕ)
    → is_ready (tasks next).state ≡ true
    → ((j : ℕ)
        → (tasks' j).state ≡ (write tasks next (record (tasks next) { state = running }) j).state)
    → finished_in tasks' max_tasks ≡ finished_in tasks max_tasks
start_counted tasks tasks' next r same =
    finished_in-ext tasks' (write tasks next (record (tasks next) { state = running })) max_tasks
      (λ j lt. same j)
    ∙ finished_in-write tasks next (record (tasks next) { state = running }) max_tasks
        (not_finished (tasks next).state r) (λ e. cc)

-- The task table after `previous` has given way to `next`.
abbrev pub started : ℕ → Array Tcb → Array Tcb
started next tasks = write tasks next (record (tasks next) { state = running })

abbrev switched : ℕ → ℕ → ℕ → Array Tcb → Array Tcb
switched previous next sp tasks =
    write (started next tasks) previous
      (record (started next tasks previous) { stack_pointer = sp })

module _ (previous next sp : ℕ) (tasks : Array Tcb) where
  switched_next :
      next ≢ previous
      → switched previous next sp tasks next ≡ record (tasks next) { state = running }
  switched_next ne = ground arith

  switched_previous :
      next ≢ previous
      → switched previous next sp tasks previous ≡ record (tasks previous) { stack_pointer = sp }
  switched_previous ne = ground arith

  switched_other : (j : ℕ) → j ≢ next → j ≢ previous → switched previous next sp tasks j ≡ tasks j
  switched_other j p q = ground arith

  switched_state :
      (j : ℕ)
      → (switched previous next sp tasks j).state
        ≡ (write tasks next (record (tasks next) { state = running }) j).state
  switched_state j = ground arith

  switched_alone :
      (j : ℕ)
      → is_running (tasks j).state ≡ false
      → is_running (switched previous next sp tasks j).state ≡ (j == next)
  switched_alone j h = rw (switched_state j) (ground arith)

  switched_entry : (switched previous next sp tasks next).entry ≡ (tasks next).entry
  switched_entry = ground arith

module _ (base previous next : ℕ) (cpu : Cpu) (flags : Flags) (point : Code) (s : Scheduler)
    (vacant : Vacant base previous s) (own : InStack base previous cpu.stack_pointer) where
  -- What a task that yields leaves to go on with; a finished task is not ready.
  abbrev pub CanGoOn : Type 0
  CanGoOn =
      is_ready (s.tasks previous).state ≡ true
      → (entry : ℕ) × ((s.tasks previous).entry ≡ some entry) × (point ≡ yield_resumes)

  others_go_on :
      next ≢ previous
      → CanGoOn
      → (j : ℕ) → j < max_tasks
      → j ≢ next
      → is_ready (switched previous next cpu.stack_pointer s.tasks j).state ≡ true
      → Waiting base
          (push_frame cpu.stack_pointer cpu flags point s.memory)
          j
          (switched previous next cpu.stack_pointer s.tasks j)
  others_go_on ne go_on j ltj nej rj = elim (Bool-cases (j == previous)) [
    | inl same ↦
        let e : j ≡ previous = ground arith in
        let at = switched_previous previous next cpu.stack_pointer s.tasks ne in
        let (entry, has, p) = go_on (
          ap is_ready (
            ap (λ (t : Tcb). t.state)
              (sym at ∙ ap (switched previous next cpu.stack_pointer s.tasks) (sym e)))
          ∙ rj) in
        subst
          (λ i.
            Waiting base (push_frame cpu.stack_pointer cpu flags point s.memory) i
              (switched previous next cpu.stack_pointer s.tasks i))
          (sym e)
          (subst
            (λ t. Waiting base (push_frame cpu.stack_pointer cpu flags point s.memory) previous t)
            (sym at) (previous_waits base previous next cpu flags point s vacant own entry has p))
    | inr other ↦
        let nep : j ≢ previous = ground arith in
        let at = switched_other previous next cpu.stack_pointer s.tasks j nej nep in
        subst (λ t. Waiting base (push_frame cpu.stack_pointer cpu flags point s.memory) j t)
          (sym at)
          (Waiting-stays base previous next cpu flags point s vacant own j ltj nep
            (ap is_ready (ap (λ (t : Tcb). t.state) (sym at)) ∙ rj))
  ]

  -- From a task to the next one.
  pub task_to_task :
      next < max_tasks
      → next ≢ previous
      → is_ready (s.tasks next).state ≡ true
      → CanGoOn
      → let (o, s') =
          task_context_switch {A = Unit {0}} cpu point
            (store_task previous)
            ((dispatched next s).tasks next).stack_pointer
            flags
            (dispatched next s) in
        EntersTask base next o s'
  unfolding task_context_switch
  task_to_task lt ne r go_on =
      let w = vacant.others_wait next lt ne r in
      let (target, at, kind) =
        frame_target base next cpu.stack_pointer cpu flags point s.memory (s.tasks next)
          (stacks_apart base previous next cpu.stack_pointer (λ e. ne (sym e)) own) w in
      let e : ((dispatched next s).tasks next).stack_pointer ≡ (s.tasks next).stack_pointer =
        ground arith in
      record {
        sp = (s.tasks next).stack_pointer;
        target = target;
        leads = rw (e, at);
        own_stack = w.own_stack;
        starts_or_returns = kind;
        runs = record {
          initialized = vacant.initialized;
          runs = vacant.runs;
          current = refl;
          in_range = lt;
          alone = λ j ltj.
              switched_alone previous next cpu.stack_pointer s.tasks j (vacant.none_runs j ltj);
          entry = w.entry;
          has_entry = switched_entry previous next cpu.stack_pointer s.tasks ∙ w.has_entry;
          others_wait = λ j ltj nej rj. others_go_on ne go_on j ltj nej rj;
          boot_waits = record {
            outside = vacant.boot_waits.outside;
            frame = boot-Frame base previous next cpu flags point s vacant own;
          };
          counted =
              vacant.counted
              ∙ sym (
                  start_counted s.tasks (switched previous next cpu.stack_pointer s.tasks) next r
                    (switched_state previous next cpu.stack_pointer s.tasks));
        };
      }
