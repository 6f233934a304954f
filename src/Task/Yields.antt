-- ===== src/Task/Yields.antt =====
-- `task_yield`, `task_exit` and `task_run` of kernel/task/task.c keep the scheduler sound.
use tinyshell_os.Base.{
  ℕ, ◌<◌, ◌≡◌, ◌≢◌, refl, sym, ◌∙◌, inl, inr, true, false, some, arith, write, add32, ◌==◌,
  Bool-cases,
}
use tinyshell_os.Task.{
  Scheduler, State, ready, finished, is_running, Flags, interrupt_bit, max_tasks, set_state,
  interrupt_state_restore,
}
use tinyshell_os.Task.Calls.{outside_task}
use tinyshell_os.Task.Invariant.{
  InBootstrap, InTask, finished_in-write, finished_in-write_finished, finished_in-le,
}
use tinyshell_os.Task.Switches.{Vacant}

-- Nothing depends on EFLAGS.
pub InTask-eflags :
    (base id : ℕ) (flags : Flags) (s : Scheduler)
    → InTask base id s
    → InTask base id (record s { eflags = flags })
InTask-eflags base id flags s h = record {
  initialized = h.initialized;
  runs = h.runs;
  current = h.current;
  in_range = h.in_range;
  alone = h.alone;
  entry = h.entry;
  has_entry = h.has_entry;
  others_wait = h.others_wait;
  boot_waits = record { outside = h.boot_waits.outside; frame = h.boot_waits.frame };
  counted = h.counted;
}

pub InBootstrap-eflags :
    (base : ℕ) (flags : Flags) (s : Scheduler)
    → InBootstrap base s
    → InBootstrap base (record s { eflags = flags })
InBootstrap-eflags base flags s h = record {
  initialized = h.initialized;
  stands = h.stands;
  no_current = h.no_current;
  none_runs = h.none_runs;
  all_wait = h.all_wait;
  counted = h.counted;
}

pub InTask-restore :
    (base id : ℕ) (flags : Flags) (s : Scheduler)
    → InTask base id s
    → InTask base id (interrupt_state_restore flags s)
unfolding interrupt_state_restore
InTask-restore base id flags s h = elim (Bool-cases (flags interrupt_bit)) [
  | inl e ↦ rw e (InTask-eflags base id (write s.eflags interrupt_bit true) s h)
  | inr e ↦ rw e (InTask-eflags base id (write s.eflags interrupt_bit false) s h)
]

pub InBootstrap-restore :
    (base : ℕ) (flags : Flags) (s : Scheduler)
    → InBootstrap base s
    → InBootstrap base (interrupt_state_restore flags s)
unfolding interrupt_state_restore
InBootstrap-restore base flags s h = elim (Bool-cases (flags interrupt_bit)) [
  | inl e ↦ rw e (InBootstrap-eflags base (write s.eflags interrupt_bit true) s h)
  | inr e ↦ rw e (InBootstrap-eflags base (write s.eflags interrupt_bit false) s h)
]

-- The running task passes the test of `task_yield` and `task_exit`, the bootstrap context fails it.
pub outside_task-InTask : (base id : ℕ) (s : Scheduler) → InTask base id s → outside_task s ≡ false
outside_task-InTask base id s h =
    ground (arith, h.alone id h.in_range, h.initialized, h.runs, h.current, h.in_range)

pub outside_task-InBootstrap :
    (base : ℕ) (s : Scheduler) → InBootstrap base s → outside_task s ≡ true
outside_task-InBootstrap base s h = ground (arith, h.stands)

running_state : (t : State) → is_running t ≡ true → t ≢ finished
running_state t r = ground arith

-- The running task has become ready, or finished.
module _ (base id : ℕ) (s : Scheduler) (h : InTask base id s) where
  stopped_none :
      (t : State)
      → is_running t ≡ false
      → (j : ℕ) → j < max_tasks
      → is_running ((set_state id t s).tasks j).state ≡ false
  stopped_none t e j lt = ground (arith, h.alone j lt)

  pub stopped_entry : (t : State) → ((set_state id t s).tasks id).entry ≡ some h.entry
  stopped_entry t = ground (arith, h.has_entry)

  stopped_state : (t : State) → ((set_state id t s).tasks id).state ≡ t
  stopped_state t = ground arith

  stopped_other : (t : State) (j : ℕ) → j ≢ id → (set_state id t s).tasks j ≡ s.tasks j
  stopped_other t j ne = ground arith

  not_done : (s.tasks id).state ≢ finished
  not_done = running_state (s.tasks id).state (ground (arith, h.alone id h.in_range))

  pub ready_Vacant : Vacant base id (set_state id ready s)
  ready_Vacant = record {
    initialized = h.initialized;
    runs = h.runs;
    in_range = h.in_range;
    none_runs = stopped_none ready refl;
    others_wait = λ j lt ne r.
        let e : (j == id) ≡ false = ground arith in rw e (h.others_wait j lt ne (rw e at r));
    boot_waits = record { outside = h.boot_waits.outside; frame = h.boot_waits.frame };
    counted =
        h.counted
        ∙ sym (
            finished_in-write s.tasks id (record (s.tasks id) { state = ready }) max_tasks not_done
              (λ e. cc));
  }

  pub finished_Vacant :
      Vacant base id
        (record (set_state id finished s) { finished_count = add32 s.finished_count 1 })
  finished_Vacant = record {
    initialized = h.initialized;
    runs = h.runs;
    in_range = h.in_range;
    none_runs = stopped_none finished refl;
    others_wait = λ j lt ne r.
        let e : (j == id) ≡ false = ground arith in rw e (h.others_wait j lt ne (rw e at r));
    boot_waits = record { outside = h.boot_waits.outside; frame = h.boot_waits.frame };
    counted = ground (
      arith,
      h.counted,
      h.in_range,
      finished_in-le s.tasks max_tasks,
      finished_in-write_finished s.tasks id (record (s.tasks id) { state = finished }) max_tasks
          not_done refl,
    );
  }
