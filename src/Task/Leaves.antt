-- ===== src/Task/Leaves.antt =====
-- The calls of `task_yield` and `task_exit` of kernel/task/task.c by a task return to it, or enter a
-- context that can go on.
use tinyshell_os.Base.{ℕ, ◌≡◌, ◌≢◌, refl, ◌∙◌, false, arith, write, add32, ◌==◌, either_way}
use mathlib.Core.Path.{subst}
use tinyshell_os.Task.{
  Scheduler, ready, finished, Flags, interrupt_bit, yield_resumes, exit_resumes, max_tasks,
  set_state, interrupt_state_save_and_disable, find_next_ready,
}
use tinyshell_os.Task.Frames.{Cpu, Outcome, returned}
use tinyshell_os.Task.Calls.{can_dispatch, yield_to, yield_from, yield, exit_to, exit_from, exit}
use tinyshell_os.Task.Next.{IsNearest, find_next_ready_some}
use tinyshell_os.Task.Invariant.{InStack, InTask, finished_in-ext}
use tinyshell_os.Task.Switches.{EntersTask, EntersBootstrap, dispatched, activate_task-dispatched}
use tinyshell_os.Task.Dispatch.{CanGoOn, task_to_task}
use tinyshell_os.Task.Handover.{task_to_bootstrap}
use tinyshell_os.Task.Yields.{
  InTask-eflags, InTask-restore, outside_task-InTask, ready_Vacant, finished_Vacant, stopped_entry,
}

pub data Continues (base : ℕ) (P : Scheduler → Type 0) {A : Type 0} (o : Outcome A) (s : Scheduler)
    : Type 0 where
  stays : (a : A) → o ≡ returned a → P s → Continues base P o s
  to_task : (id : ℕ) → EntersTask base id o s → Continues base P o s
  to_bootstrap : EntersBootstrap base o s → Continues base P o s

-- A task that yields and is the nearest ready one goes on at once.
self_dispatched :
    (base id : ℕ) (s : Scheduler)
    → InTask base id s
    → InTask base id (dispatched id (set_state id ready s))
self_dispatched base id s h = record {
  initialized = h.initialized;
  runs = h.runs;
  current = refl;
  in_range = h.in_range;
  alone = λ j lt. ground (arith, h.alone j lt);
  entry = h.entry;
  has_entry = ground (arith, h.has_entry);
  others_wait = λ j lt ne r.
      let e : (j == id) ≡ false = ground arith in rw e (h.others_wait j lt ne (rw e at r));
  boot_waits = record { outside = h.boot_waits.outside; frame = h.boot_waits.frame };
  counted =
      h.counted
      ∙ finished_in-ext s.tasks (dispatched id (set_state id ready s)).tasks max_tasks
          (λ j lt. ground (arith, h.alone j lt));
}

module _ (base id : ℕ) (cpu : Cpu) (flags : Flags) (s : Scheduler) (h : InTask base id s)
    (own : InStack base id cpu.stack_pointer) where
  abbrev yielding : Scheduler
  yielding = set_state id ready s

  abbrev exiting : Scheduler
  exiting = record (set_state id finished s) { finished_count = add32 s.finished_count 1 }

  yield_goes_on :
      (next : ℕ)
      → CanGoOn base id next cpu flags yield_resumes yielding (ready_Vacant base id s h) own
  yield_goes_on next r = (h.entry, stopped_entry base id s h ready, refl)

  exit_goes_on :
      (next : ℕ)
      → CanGoOn base id next cpu flags exit_resumes exiting (finished_Vacant base id s h) own
  exit_goes_on next r = absurd (ground arith)

  yield_to-Continues :
      (next : ℕ)
      → IsNearest id yielding next
      → yielding.remaining_dispatches ≢ 0
      → let (o, s') = yield_to cpu id next flags yielding in Continues base (InTask base id) o s'
  unfolding yield_to
  yield_to-Continues next n some_left =
      rw (activate_task-dispatched next yielding n.in_range n.now_ready some_left, yield_to)
        (either_way
          (λ (r : Outcome (Unit {0}) × Scheduler). Continues base (InTask base id) r.0 r.1)
          (next == id) _ _
          (λ same.
            let e : id ≡ next = ground arith in
            stays tt refl (
              InTask-restore base id flags (dispatched next yielding) (
                subst (λ n. InTask base id (dispatched n yielding)) e
                  (self_dispatched base id s h))))
          (λ other. to_task next (
            task_to_task base id next cpu flags yield_resumes yielding (ready_Vacant base id s h)
              own n.in_range (ground arith) n.now_ready (yield_goes_on next))))

  pub yield_from-Continues :
      let (o, s') = yield_from cpu id flags yielding in Continues base (InTask base id) o s'
  unfolding yield_from
  yield_from-Continues =
      either_way (λ (r : Outcome (Unit {0}) × Scheduler). Continues base (InTask base id) r.0 r.1)
        (can_dispatch (find_next_ready id yielding) yielding) _ _
        (λ go.
          yield_to-Continues (find_next_ready id yielding)
            (find_next_ready_some id yielding (ground arith)) (ground arith))
        (λ back. to_bootstrap (
          task_to_bootstrap base id cpu flags yield_resumes yielding (ready_Vacant base id s h) own
            (yield_goes_on id)))

  exit_to-Continues :
      (next : ℕ)
      → IsNearest id exiting next
      → exiting.remaining_dispatches ≢ 0
      → next ≢ id
      → let (o, s') = exit_to cpu id next flags exiting in Continues base (λ _. ⊥) o s'
  unfolding exit_to
  exit_to-Continues next n some_left ne =
      rw (activate_task-dispatched next exiting n.in_range n.now_ready some_left, exit_to)
        (to_task next (
          task_to_task base id next cpu flags exit_resumes exiting (finished_Vacant base id s h) own
            n.in_range ne n.now_ready (exit_goes_on next)))

  exiting_other : (next : ℕ) → IsNearest id exiting next → next ≢ id
  exiting_other next n e = let r = n.now_ready in ground arith

  pub exit_from-Continues :
      let (o, s') = exit_from cpu id flags exiting in Continues base (λ _. ⊥) o s'
  unfolding exit_from
  exit_from-Continues =
      either_way (λ (r : Outcome (Unit {0}) × Scheduler). Continues base (λ _. ⊥) r.0 r.1)
        (can_dispatch (find_next_ready id exiting) exiting) _ _
        (λ go.
          let n = find_next_ready_some id exiting (ground arith) in
          exit_to-Continues (find_next_ready id exiting) n (ground arith)
            (exiting_other (find_next_ready id exiting) n))
        (λ back. to_bootstrap (
          task_to_bootstrap base id cpu flags exit_resumes exiting (finished_Vacant base id s h) own
            (exit_goes_on id)))

yield_current :
    (base : ℕ) (cpu : Cpu) (s : Scheduler)
    → InTask base s.current_task_id s
    → InStack base s.current_task_id cpu.stack_pointer
    → let (o, s') = yield cpu s in Continues base (InTask base s.current_task_id) o s'
unfolding yield interrupt_state_save_and_disable
yield_current base cpu s h own =
    let masked = record s { eflags = write s.eflags interrupt_bit false } in
    let h' = InTask-eflags base s.current_task_id (write s.eflags interrupt_bit false) s h in
    rw (outside_task-InTask base s.current_task_id masked h')
      (yield_from-Continues base s.current_task_id cpu s.eflags masked h' own)

-- A task's `task_yield`.
pub yield-Continues :
    (base id : ℕ) (cpu : Cpu) (s : Scheduler)
    → InTask base id s
    → InStack base id cpu.stack_pointer
    → let (o, s') = yield cpu s in Continues base (InTask base id) o s'
yield-Continues base id cpu s h own =
    subst
      (λ i.
        InTask base i s
        → InStack base i cpu.stack_pointer
        → let (o, s') = yield cpu s in Continues base (InTask base i) o s')
      h.current (yield_current base cpu s) h own

exit_current :
    (base : ℕ) (cpu : Cpu) (s : Scheduler)
    → InTask base s.current_task_id s
    → InStack base s.current_task_id cpu.stack_pointer
    → let (o, s') = exit cpu s in Continues base (λ _. ⊥) o s'
unfolding exit interrupt_state_save_and_disable
exit_current base cpu s h own =
    let masked = record s { eflags = write s.eflags interrupt_bit false } in
    let h' = InTask-eflags base s.current_task_id (write s.eflags interrupt_bit false) s h in
    rw (outside_task-InTask base s.current_task_id masked h')
      (exit_from-Continues base s.current_task_id cpu s.eflags masked h' own)

-- A task's `task_exit` never returns to the task.
pub exit-Continues :
    (base id : ℕ) (cpu : Cpu) (s : Scheduler)
    → InTask base id s
    → InStack base id cpu.stack_pointer
    → let (o, s') = exit cpu s in Continues base (λ _. ⊥) o s'
exit-Continues base id cpu s h own =
    subst
      (λ i.
        InTask base i s
        → InStack base i cpu.stack_pointer
        → let (o, s') = exit cpu s in Continues base (λ _. ⊥) o s')
      h.current (exit_current base cpu s) h own
