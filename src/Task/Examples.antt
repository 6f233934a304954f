-- ===== src/Task/Examples.antt =====
-- kernel/task/task.c on two tasks.
use mathlib.Core.Path.{subst}
use tinyshell_os.Base.{
  sym, Bool, ℕ, ◌≡◌, ◌≤◌, ◌<◌, ◌↔◌, refl, inl, true, false, some, arith, find_first, each,
}
use tinyshell_os.Task.{
  Scheduler, ready, finished, number, is_ready, max_tasks, find_next_ready, activate_task,
  interrupt_state_save_and_disable, interrupt_state_restore,
}
use tinyshell_os.Task.Frames.{Cpu, returned, prepare_initial_stack, task_context_switch}
use tinyshell_os.Task.Calls.{
  system_init, create_at, create, run_first, run, run_resumes, yield_to, yield_from, yield,
  trampoline,
}
use tinyshell_os.Task.System.{
  System, in_task, creates, runs, yields, land, call, step, Reach, here, next, SoundAt, OnStack,
}
use tinyshell_os.Task.Sound.{booted, reachable-SoundAt}
use tinyshell_os.Task.Fairness.{
  PassedOver, start, again, PassedOver-le, run-result, run_resumes_complete,
}

abbrev stale : Scheduler
stale = record {
  tasks = λ id. record { state = finished; entry = some id; argument = 3; stack_pointer = 4 };
  memory = λ a. number a;
  bootstrap_stack_pointer = 8;
  current_task_id = 2;
  round_robin_cursor = 5;
  remaining_dispatches = 6;
  switch_count = 7;
  finished_count = 1;
  scheduler_initialized = false;
  scheduler_running = false;
  eflags = λ bit. false;
}

-- `task_stacks` stands at 0x100000.
abbrev stacks : ℕ
stacks = 0x100000

abbrev boot_cpu : Cpu
boot_cpu = record { stack_pointer = 0x90000; ebp = 1; ebx = 2; esi = 3; edi = 4 }

abbrev first_cpu : Cpu
first_cpu = record { stack_pointer = 0x103f00; ebp = 5; ebx = 6; esi = 7; edi = 8 }

abbrev one_task : System
one_task = step stacks (creates (some 100) 1) (booted stale)

abbrev two_tasks : System
two_tasks = step stacks (creates (some 200) 2) one_task

abbrev first_runs : System
first_runs = step stacks (runs boot_cpu 3) two_tasks

abbrev second_runs : System
second_runs = step stacks (yields first_cpu) first_runs

first_place : first_runs.place ≡ in_task 0
unfolding step call land system_init create_at create run_first run trampoline find_next_ready
    activate_task prepare_initial_stack task_context_switch interrupt_state_save_and_disable
    interrupt_state_restore find_first each
first_place = refl

second_place : second_runs.place ≡ in_task 1
unfolding step call land system_init create_at create run_first run yield_to yield_from yield
    trampoline find_next_ready activate_task prepare_initial_stack task_context_switch
    interrupt_state_save_and_disable interrupt_state_restore find_first each
second_place = refl

two_created : Reach stacks (booted stale) two_tasks
unfolding step call
two_created = next (next here (creates (some 100) 1) tt refl) (creates (some 200) 2) tt refl

reached : Reach stacks (booted stale) second_runs
unfolding step call
reached =
    next (next two_created (runs boot_cpu 3) (inl (omega arith)) refl) (yields first_cpu)
      (subst (λ p. OnStack stacks p first_cpu.stack_pointer) (sym first_place) (omega arith)) refl

reachable-SoundAt_example : SoundAt stacks second_runs.place second_runs.scheduler
reachable-SoundAt_example = reachable-SoundAt stacks stale refl refl reached

-- Task 1 is ready while task 0 is dispatched behind cursor 5.
waiting_pair : Scheduler
waiting_pair = record stale {
  tasks = λ id. record { state = ready; entry = some id; argument = 3; stack_pointer = 4 };
}

passed_once : PassedOver 1 6 1
unfolding waiting_pair activate_task find_next_ready find_first
passed_once = again (start 5) waiting_pair 6 refl refl refl (omega arith)

PassedOver-le_example : 1 ≤ 7
PassedOver-le_example = PassedOver-le 1 6 1 (omega arith) passed_once

abbrev standing : Scheduler
standing = record stale { scheduler_initialized = true }

no_task : (run boot_cpu 3 standing).0 ≡ returned true
unfolding run find_next_ready find_first interrupt_state_save_and_disable
no_task = refl

run-result_example :
    (◌≡◌ {A = Bool} true true)
    ↔ ((id : ℕ) → id < max_tasks → is_ready (standing.tasks id).state ≡ false)
run-result_example = run-result boot_cpu 3 standing true refl refl no_task

run_resumes_complete_example :
    ((run_resumes standing).0 ≡ true)
    ↔ ((id : ℕ) → id < max_tasks → is_ready (standing.tasks id).state ≡ false)
run_resumes_complete_example = run_resumes_complete standing
