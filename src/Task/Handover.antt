-- ===== src/Task/Handover.antt =====
-- The switches of kernel/task/task.c between a task and the bootstrap context.
use tinyshell_os.Base.{
  ℕ, ◌<◌, ◌≡◌, refl, ap, sym, ◌∙◌, inl, inr, Bool, true, false, Array, arith, write, ◌==◌,
  Bool-cases,
}
use tinyshell_os.Task.{Scheduler, Tcb, is_ready, is_running, Flags, Code, run_resumes, max_tasks}
use tinyshell_os.Task.Frames.{Cpu, push_frame, store_bootstrap, task_context_switch}
use tinyshell_os.Task.Calls.{switch_to_bootstrap}
use tinyshell_os.Task.Invariant.{
  InStack, OutsideStacks, Waiting, InBootstrap, finished_in-ext, push_frame-Frame,
  Waiting-push_frame,
}
use tinyshell_os.Task.Switches.{
  EntersTask, EntersBootstrap, Vacant, dispatched, frame_target, outside_apart, boot-Frame,
  Waiting-stays, previous_waits,
}
use tinyshell_os.Task.Dispatch.{CanGoOn, started, start_counted}

abbrev given_back : ℕ → ℕ → Array Tcb → Array Tcb
given_back previous sp tasks = write tasks previous (record (tasks previous) { stack_pointer = sp })

given_back_state :
    (previous sp : ℕ) (tasks : Array Tcb) (j : ℕ)
    → (given_back previous sp tasks j).state ≡ (tasks j).state
given_back_state previous sp tasks j = ground arith

module _ (base previous : ℕ) (cpu : Cpu) (flags : Flags) (point : Code) (s : Scheduler)
    (vacant : Vacant base previous s) (own : InStack base previous cpu.stack_pointer) where
  all_go_on :
      CanGoOn base previous previous cpu flags point s vacant own
      → (j : ℕ) → j < max_tasks
      → is_ready (given_back previous cpu.stack_pointer s.tasks j).state ≡ true
      → Waiting base
          (push_frame cpu.stack_pointer cpu flags point s.memory)
          j
          (given_back previous cpu.stack_pointer s.tasks j)
  all_go_on go_on j ltj rj =
      let r : is_ready (s.tasks j).state ≡ true =
        ap is_ready (sym (given_back_state previous cpu.stack_pointer s.tasks j)) ∙ rj in
      elim (Bool-cases (j == previous)) [
        | inl same ↦
            let e : j ≡ previous = ground arith in
            let (entry, has, p) = go_on (ap (λ i. is_ready (s.tasks i).state) (sym e) ∙ r) in
            let w =
              previous_waits base previous previous cpu flags point s vacant own entry has p in
            rw e (ground (arith, w))
        | inr other ↦ rw other (
            Waiting-stays base previous previous cpu flags point s vacant own j ltj (ground arith)
              r)
      ]

  -- From a task back to `task_run`.
  pub task_to_bootstrap :
      CanGoOn base previous previous cpu flags point s vacant own
      → let (o, s') = switch_to_bootstrap cpu point previous flags s in EntersBootstrap base o s'
  unfolding switch_to_bootstrap task_context_switch
  task_to_bootstrap go_on =
      let f = boot-Frame base previous previous cpu flags point s vacant own in
      record {
        sp = s.bootstrap_stack_pointer;
        leads = rw f.code_at;
        outside = vacant.boot_waits.outside;
        stands = record {
          initialized = vacant.initialized;
          stands = refl;
          no_current = refl;
          none_runs = λ j lt.
              ap is_running (given_back_state previous cpu.stack_pointer s.tasks j)
              ∙ vacant.none_runs j lt;
          all_wait = λ j lt r. all_go_on go_on j lt r;
          counted =
              vacant.counted
              ∙ sym (
                  finished_in-ext (given_back previous cpu.stack_pointer s.tasks) s.tasks max_tasks
                    λ j lt. given_back_state previous cpu.stack_pointer s.tasks j);
        };
      }

abbrev pub budgeted : ℕ → Scheduler → Scheduler
budgeted budget s = record s { remaining_dispatches = budget; scheduler_running = true }

started_alone :
    (next : ℕ) (tasks : Array Tcb) (j : ℕ)
    → is_running (tasks j).state ≡ false
    → is_running (started next tasks j).state ≡ (j == next)
started_alone next tasks j h = ground arith

-- From `task_run` to the first task.
pub bootstrap_to_task :
    (base next budget : ℕ) (cpu : Cpu) (flags : Flags) (s : Scheduler)
    → InBootstrap base s
    → OutsideStacks base cpu.stack_pointer
    → next < max_tasks
    → is_ready (s.tasks next).state ≡ true
    → let (o, s') =
        task_context_switch {A = Bool} cpu run_resumes store_bootstrap
          ((dispatched next (budgeted budget s)).tasks next).stack_pointer
          flags
          (dispatched next (budgeted budget s)) in
      EntersTask base next o s'
unfolding task_context_switch
bootstrap_to_task base next budget cpu flags s b out lt r =
    let w = b.all_wait next lt r in
    let (target, at, kind) =
      frame_target base next cpu.stack_pointer cpu flags run_resumes s.memory (s.tasks next)
        (outside_apart base next cpu.stack_pointer lt out) w in
    let e : ((dispatched next (budgeted budget s)).tasks next).stack_pointer
        ≡ (s.tasks next).stack_pointer =
      ground arith in
    record {
      sp = (s.tasks next).stack_pointer;
      target = target;
      leads = rw (e, at);
      own_stack = w.own_stack;
      starts_or_returns = kind;
      runs = record {
        initialized = b.initialized;
        runs = refl;
        current = refl;
        in_range = lt;
        alone = λ j ltj. started_alone next s.tasks j (b.none_runs j ltj);
        entry = w.entry;
        has_entry = ground (arith, w.has_entry);
        others_wait = λ j ltj nej rj.
            let e : (j == next) ≡ false = ground arith in
            rw e (
              Waiting-push_frame base j cpu.stack_pointer cpu flags run_resumes s.memory (s.tasks j)
                (outside_apart base j cpu.stack_pointer ltj out) (b.all_wait j ltj (rw e at rj)));
        boot_waits = record {
          outside = out;
          frame = push_frame-Frame cpu.stack_pointer cpu flags run_resumes s.memory;
        };
        counted = b.counted ∙ sym (start_counted s.tasks (started next s.tasks) next r λ j. refl);
      };
    }
