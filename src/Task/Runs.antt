-- ===== src/Task/Runs.antt =====
-- Every call of `task_run` of kernel/task/task.c returns or enters a task.
use tinyshell_os.Base.{either_way, ℕ, refl, Bool, true, false, not, ◌||◌, arith, write, ◌==◌}
use tinyshell_os.Task.{
  Scheduler, interrupt_bit, invalid_id, interrupt_state_save_and_disable, find_next_ready,
}
use tinyshell_os.Task.Frames.{Cpu, Outcome}
use tinyshell_os.Task.Calls.{run_first, run}
use tinyshell_os.Task.Next.{find_next_ready_some}
use tinyshell_os.Task.Invariant.{OutsideStacks, InBootstrap, InTask}
use tinyshell_os.Task.Switches.{activate_task-dispatched}
use tinyshell_os.Task.Handover.{budgeted, bootstrap_to_task}
use tinyshell_os.Task.Yields.{
  InTask-eflags, InBootstrap-eflags, InTask-restore, InBootstrap-restore,
}
use tinyshell_os.Task.Leaves.{Continues, stays, to_task}

-- `task_run` of the bootstrap context.
pub run-InBootstrap :
    (base : ℕ) (cpu : Cpu) (budget : ℕ) (s : Scheduler)
    → InBootstrap base s
    → OutsideStacks base cpu.stack_pointer
    → let (o, s') = run cpu budget s in Continues base (InBootstrap base) o s'
unfolding run run_first interrupt_state_save_and_disable
run-InBootstrap base cpu budget s b out =
    let masked = record s { eflags = write s.eflags interrupt_bit false } in
    let b' = InBootstrap-eflags base (write s.eflags interrupt_bit false) s b in
    let next = find_next_ready s.round_robin_cursor masked in
    either_way (λ (r : Outcome Bool × Scheduler). Continues base (InBootstrap base) r.0 r.1)
      (not s.scheduler_initialized || s.scheduler_running) _ _
      (λ e. stays false refl (InBootstrap-restore base s.eflags masked b'))
      (λ e.
        either_way (λ (r : Outcome Bool × Scheduler). Continues base (InBootstrap base) r.0 r.1)
          (next == invalid_id) _ _
          (λ e. stays true refl (InBootstrap-restore base s.eflags masked b'))
          (λ some_ready.
            either_way (λ (r : Outcome Bool × Scheduler). Continues base (InBootstrap base) r.0 r.1)
              (budget == 0) _ _
              (λ e. stays false refl (InBootstrap-restore base s.eflags masked b'))
              (λ positive.
                let n = find_next_ready_some s.round_robin_cursor masked (ground arith) in
                rw
                  (activate_task-dispatched next (budgeted budget masked) n.in_range n.now_ready
                    (ground arith))
                  (to_task next (
                    bootstrap_to_task base next budget cpu s.eflags masked b' out n.in_range
                      n.now_ready)))))

-- A task's `task_run` is refused.
pub run-InTask :
    (base id : ℕ) (cpu : Cpu) (budget : ℕ) (s : Scheduler)
    → InTask base id s
    → let (o, s') = run cpu budget s in Continues base (InTask base id) o s'
unfolding run interrupt_state_save_and_disable
run-InTask base id cpu budget s h =
    either_way (λ (r : Outcome Bool × Scheduler). Continues base (InTask base id) r.0 r.1)
      (not s.scheduler_initialized || s.scheduler_running) _ _
      (λ e. stays false refl (
        InTask-restore base id s.eflags _
          (InTask-eflags base id (write s.eflags interrupt_bit false) s h)))
      (λ e. absurd (ground (arith, h.runs)))
