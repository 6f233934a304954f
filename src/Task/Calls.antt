-- ===== src/Task/Calls.antt =====
-- The functions that kernel/task/task.c exports. A call that switches contexts ends where control
-- leaves it; `run_resumes` is the rest of `task_run`, and `task_yield` only returns behind its
-- switch. `cpu` is the processor's state behind the pushes of the context switch.
use tinyshell_os.Base.{
  ℕ, Bool, true, false, not, ◌||◌, ◌&&◌, Option, none, some, each, find_first, write, add32, leb,
  ◌==◌, if◌then◌else◌,
}
use tinyshell_os.Task.{
  Scheduler, Tcb, unused, ready, finished, Flags, Code, max_tasks, invalid_id, is_running,
  is_unused, interrupt_state_save_and_disable, interrupt_state_restore, find_next_ready,
  activate_task, set_state, run_resumes as run_point, yield_resumes as yield_point,
  exit_resumes as exit_point,
}
use tinyshell_os.Task.Frames.{
  Cpu, Outcome, returned, stopped, prepare_initial_stack, task_context_switch, store_bootstrap,
  store_task,
}

abbrev pub empty_tcb : Tcb
empty_tcb = record { state = unused; entry = none; argument = 0; stack_pointer = 0 }

unfoldable pub system_init : Scheduler → Scheduler
system_init s =
    if s.scheduler_running
    then interrupt_state_restore flags s'
    else interrupt_state_restore flags (record s' {
      tasks = each max_tasks (λ _ _. empty_tcb) s'.tasks;
      bootstrap_stack_pointer = 0;
      current_task_id = invalid_id;
      round_robin_cursor = invalid_id;
      remaining_dispatches = 0;
      switch_count = 0;
      finished_count = 0;
      scheduler_running = false;
      scheduler_initialized = true;
    })
  where
    flags : Flags
    flags = (interrupt_state_save_and_disable s).0

    s' : Scheduler
    s' = (interrupt_state_save_and_disable s).1

-- The slot `id` takes the new task.
unfoldable pub create_at : ℕ → ℕ → ℕ → ℕ → Flags → Scheduler → Scheduler
create_at task_stacks id entry argument flags s = set_state id ready (
    prepare_initial_stack task_stacks id flags (record s {
      tasks = write s.tasks id (record (s.tasks id) { entry = some entry; argument = argument });
    }))

unfoldable pub create : ℕ → Option ℕ → ℕ → Scheduler → ℕ × Scheduler
create task_stacks none argument s =
    let (flags, s') = interrupt_state_save_and_disable s in
    (invalid_id, interrupt_state_restore flags s')
create task_stacks (some entry) argument s =
    let (flags, s') = interrupt_state_save_and_disable s in
    if not s'.scheduler_initialized || s'.scheduler_running
    then (invalid_id, interrupt_state_restore flags s')
    else elim (find_first (λ id. is_unused (s'.tasks id).state) max_tasks 0) [
      | none ↦ (invalid_id, interrupt_state_restore flags s')
      | some id ↦
          (id, interrupt_state_restore flags (create_at task_stacks id entry argument flags s'))
    ]

-- `task_run` from the assignment of the budget on
unfoldable pub run_first : Cpu → ℕ → ℕ → Flags → Scheduler → Outcome Bool × Scheduler
run_first cpu switch_budget next flags s =
    let (activated, s') =
      activate_task next
        (record s { remaining_dispatches = switch_budget; scheduler_running = true }) in
    if not activated
    then (returned false, interrupt_state_restore flags (record s' { scheduler_running = false }))
    else task_context_switch cpu run_point store_bootstrap (s'.tasks next).stack_pointer flags s'

unfoldable pub run : Cpu → ℕ → Scheduler → Outcome Bool × Scheduler
run cpu switch_budget s =
    let (flags, s') = interrupt_state_save_and_disable s in
    if not s'.scheduler_initialized || s'.scheduler_running
    then (returned false, interrupt_state_restore flags s')
    else if find_next_ready s'.round_robin_cursor s' == invalid_id
    then (returned true, interrupt_state_restore flags s')
    else if switch_budget == 0
    then (returned false, interrupt_state_restore flags s')
    else run_first cpu switch_budget (find_next_ready s'.round_robin_cursor s') flags s'

-- `task_run` behind its context switch
unfoldable pub run_resumes : Scheduler → Bool × Scheduler
run_resumes s =
    let (flags, s') = interrupt_state_save_and_disable s in
    (find_next_ready s'.round_robin_cursor s' == invalid_id, interrupt_state_restore flags s')

unfoldable pub switch_to_bootstrap :
    Cpu → Code → ℕ → Flags → Scheduler → Outcome (Unit {0}) × Scheduler
switch_to_bootstrap cpu point previous flags s =
    task_context_switch cpu point (store_task previous) s.bootstrap_stack_pointer flags
      (record s { current_task_id = invalid_id; scheduler_running = false })

-- The test that `task_yield` and `task_exit` begin with
abbrev pub outside_task : Scheduler → Bool
outside_task s =
    not s.scheduler_initialized
    || (not s.scheduler_running
        || (leb max_tasks s.current_task_id || not (is_running (s.tasks s.current_task_id).state)))

abbrev pub can_dispatch : ℕ → Scheduler → Bool
can_dispatch next s = not (next == invalid_id) && not (s.remaining_dispatches == 0)

-- The next task is dispatched by `task_yield`.
unfoldable pub yield_to : Cpu → ℕ → ℕ → Flags → Scheduler → Outcome (Unit {0}) × Scheduler
yield_to cpu previous next flags s =
    let (activated, s') = activate_task next s in
    if not activated
    then (stopped, s')
    else if next == previous
    then (returned tt, interrupt_state_restore flags s')
    else task_context_switch cpu yield_point (store_task previous) (s'.tasks next).stack_pointer
        flags s'

-- `task_yield` behind its test: the state of `previous` is READY already.
unfoldable pub yield_from : Cpu → ℕ → Flags → Scheduler → Outcome (Unit {0}) × Scheduler
yield_from cpu previous flags s =
    let next = find_next_ready previous s in
    if can_dispatch next s
    then yield_to cpu previous next flags s
    else switch_to_bootstrap cpu yield_point previous flags s

unfoldable pub yield : Cpu → Scheduler → Outcome (Unit {0}) × Scheduler
yield cpu s =
    let (flags, s') = interrupt_state_save_and_disable s in
    if outside_task s'
    then (returned tt, interrupt_state_restore flags s')
    else yield_from cpu s'.current_task_id flags (set_state s'.current_task_id ready s')

-- The next task is dispatched by `task_exit`.
unfoldable pub exit_to : Cpu → ℕ → ℕ → Flags → Scheduler → Outcome (Unit {0}) × Scheduler
exit_to cpu previous next flags s =
    let (activated, s') = activate_task next s in
    if not activated
    then (stopped, s')
    else task_context_switch cpu exit_point (store_task previous) (s'.tasks next).stack_pointer
        flags s'

-- `task_exit` behind its test: `previous` is FINISHED and counted already.
unfoldable pub exit_from : Cpu → ℕ → Flags → Scheduler → Outcome (Unit {0}) × Scheduler
exit_from cpu previous flags s =
    let next = find_next_ready previous s in
    if can_dispatch next s
    then exit_to cpu previous next flags s
    else switch_to_bootstrap cpu exit_point previous flags s

unfoldable pub exit : Cpu → Scheduler → Outcome (Unit {0}) × Scheduler
exit cpu s =
    let (flags, s') = interrupt_state_save_and_disable s in
    if outside_task s'
    then (stopped, s')
    else exit_from cpu s'.current_task_id flags (record (set_state s'.current_task_id finished s') {
      finished_count = add32 s'.finished_count 1;
    })

-- `task_trampoline`: the entry function and its argument, or the processor is halted. `task_exit`
-- is called behind the entry function.
unfoldable pub trampoline : Scheduler → Option (ℕ × ℕ)
trampoline s =
    let id = s.current_task_id in
    if leb max_tasks id || not (is_running (s.tasks id).state)
    then none
    else elim (s.tasks id).entry [ none ↦ none | some entry ↦ some (entry, (s.tasks id).argument) ]

unfoldable pub current_id : Scheduler → ℕ
current_id s =
    if not s.scheduler_running || leb max_tasks s.current_task_id
    then invalid_id
    else s.current_task_id

unfoldable pub total_switches : Scheduler → ℕ
total_switches s = s.switch_count

unfoldable pub total_finished : Scheduler → ℕ
total_finished s = s.finished_count
