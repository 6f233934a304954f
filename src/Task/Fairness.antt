-- ===== src/Task/Fairness.antt =====
-- The order in which kernel/task/task.c dispatches, and what the result of `task_run` says.
use mathlib.Core.Path.{subst}
use tinyshell_os.Base.{
  either_way, ℕ, suc, ◌+◌, ◌-◌, ◌%◌, ◌≤◌, ◌<◌, ◌≡◌, ◌≢◌, ◌↔◌, refl, sym, ◌∙◌, inl, inr, Bool, true,
  false, not, ◌||◌, arith, write, ◌==◌,
}
use tinyshell_os.Task.{
  Scheduler, is_ready, max_tasks, invalid_id, search_start, find_next_ready, activate_task,
  interrupt_bit, interrupt_state_save_and_disable, interrupt_state_restore,
}
use tinyshell_os.Task.Frames.{Cpu, Outcome, returned}
use tinyshell_os.Task.Calls.{run, run_first, run_resumes}
use tinyshell_os.Task.Frames.{task_context_switch}
use tinyshell_os.Task.Switches.{activate_task-dispatched}
use tinyshell_os.Task.Handover.{budgeted}
use tinyshell_os.Task.Next.{places_behind, find_next_ready-cases, find_next_ready_some}

-- Task `id` was passed over `n` times in a row, and the cursor stands at the second index: each
-- time it was ready, and `activate_task` dispatched what `find_next_ready` found behind the cursor.
pub data PassedOver (id : ℕ) : ℕ → ℕ → Type 0 where
  start : (cursor : ℕ) → PassedOver id cursor 0
  again :
      {cursor n : ℕ}
      → PassedOver id cursor n
      → (s : Scheduler) (cursor' : ℕ) → is_ready (s.tasks id).state ≡ true
      → (activate_task (find_next_ready cursor s) s).0 ≡ true
      → (activate_task (find_next_ready cursor s) s).1.round_robin_cursor ≡ cursor'
      → cursor' ≢ id
      → PassedOver id cursor' (suc n)

-- A dispatch puts the cursor at the task that was found.
activate_task-cursor :
    (next : ℕ) (s : Scheduler)
    → (activate_task next s).0 ≡ true
    → ((activate_task next s).1.round_robin_cursor ≡ next) × (next < max_tasks)
unfolding activate_task
activate_task-cursor next s h = ground arith

-- The task that is passed over comes nearer.
cyclic_nearer :
    (k next id : ℕ)
    → k < 8
    → next < 8
    → id < 8
    → next ≢ id
    → (next + 8 - k) % 8 ≤ (id + 8 - k) % 8
    → (id + 8 - (next + 1) % 8) % 8 < (id + 8 - k) % 8
cyclic_nearer k next id lk ln li ne le = omega arith

nearer :
    (cursor next id : ℕ)
    → next < max_tasks
    → id < max_tasks
    → next ≢ id
    → places_behind cursor next ≤ places_behind cursor id
    → places_behind next id < places_behind cursor id
nearer cursor next id lt lt' ne le =
    let e : search_start next ≡ (next + 1) % 8 = ground arith in
    rw e (cyclic_nearer (search_start cursor) next id (ground arith) lt lt' ne le)

passes :
    {id cursor n : ℕ}
    → id < max_tasks
    → PassedOver id cursor n
    → places_behind cursor id + n < max_tasks
passes lt (start cursor) = omega arith
passes {id} lt (again {cursor = c} {n = n} p s cursor' r done at ne) =
    let (e, lt') = activate_task-cursor (find_next_ready c s) s done in
    let near = find_next_ready_some c s (omega arith) in
    let e' : find_next_ready c s ≡ cursor' = sym e ∙ at in
    let closer =
      nearer c (find_next_ready c s) id lt' lt (λ e''. ne (sym e' ∙ e'')) (near.nearest id lt r) in
    subst (λ k. places_behind k id + suc n < max_tasks) e' (omega (arith, passes lt p, closer))

-- A task below 8 that stays ready is passed over by at most seven dispatches in a row, whatever
-- else the scheduler's states are when `activate_task` dispatches what `find_next_ready` found
-- behind the cursor: the eighth dispatch at the latest is its own.
pub PassedOver-le : (id cursor n : ℕ) → id < max_tasks → PassedOver id cursor n → n ≤ 7
PassedOver-le id cursor n lt p = omega (arith, passes lt p)

complete_iff :
    (after : ℕ) (s : Scheduler)
    → ((find_next_ready after s == invalid_id) ≡ true)
      ↔ ((id : ℕ) → id < max_tasks → is_ready (s.tasks id).state ≡ false)
complete_iff after s = elim (find_next_ready-cases after s) [
  | inl (e, h) ↦ (λ t. h, λ all. ground arith)
  | inr n ↦ (
    λ t. absurd (ground (arith, n.in_range)),
    λ all. absurd (ground (arith, n.now_ready, all (find_next_ready after s) n.in_range)),
  )
]

-- When control comes back to `task_run`, it returns true exactly if no task is ready.
pub run_resumes_complete :
    (s : Scheduler)
    → ((run_resumes s).0 ≡ true) ↔ ((id : ℕ) → id < max_tasks → is_ready (s.tasks id).state ≡ false)
unfolding run_resumes interrupt_state_save_and_disable
run_resumes_complete s =
    complete_iff s.round_robin_cursor (record s { eflags = write s.eflags interrupt_bit false })

abbrev NoneReady : Scheduler → Type 0
NoneReady s = (id : ℕ) → id < max_tasks → is_ready (s.tasks id).state ≡ false

-- What a result `b` of `task_run` says.
abbrev Tells : Scheduler → Outcome Bool × Scheduler → Type 0
Tells s r = (b : Bool) → r.0 ≡ returned b → (b ≡ true) ↔ NoneReady s

Tells-true : (s s' : Scheduler) → NoneReady s → Tells s (returned true, s')
Tells-true s s' h true e = (λ t. h, λ all. refl)
Tells-true s s' h false e = cc

Tells-false : (s s' : Scheduler) → ¬ NoneReady s → Tells s (returned false, s')
Tells-false s s' h true e = cc
Tells-false s s' h false e = (λ t. cc, λ all. absurd (h all))

some_ready :
    (after : ℕ) (s : Scheduler) → (find_next_ready after s == invalid_id) ≡ false → ¬ NoneReady s
some_ready after s e all = let t = (complete_iff after s).1 all in cc

-- A `task_run` that returns without a switch, in a scheduler that is initialized and stands,
-- returns true exactly if no task is ready: a budget of zero with a ready task gives false.
pub run-result :
    (cpu : Cpu) (budget : ℕ) (s : Scheduler) (b : Bool)
    → s.scheduler_initialized ≡ true
    → s.scheduler_running ≡ false
    → (run cpu budget s).0 ≡ returned b
    → (b ≡ true) ↔ ((id : ℕ) → id < max_tasks → is_ready (s.tasks id).state ≡ false)
unfolding run run_first interrupt_state_save_and_disable task_context_switch
run-result cpu budget s b init stands =
    let masked = record s { eflags = write s.eflags interrupt_bit false } in
    let next = find_next_ready s.round_robin_cursor masked in
    either_way (Tells s) (not s.scheduler_initialized || s.scheduler_running) _ _
      (λ e. absurd (ground arith))
      (λ e.
        either_way (Tells s) (next == invalid_id) _ _
          (λ e.
            Tells-true s (interrupt_state_restore s.eflags masked)
              ((complete_iff s.round_robin_cursor masked).0 e))
          (λ found.
            either_way (Tells s) (budget == 0) _ _
              (λ e.
                Tells-false s (interrupt_state_restore s.eflags masked)
                  (some_ready s.round_robin_cursor masked found))
              (λ positive.
                let n = find_next_ready_some s.round_robin_cursor masked (ground arith) in
                rw
                  (activate_task-dispatched next (budgeted budget masked) n.in_range n.now_ready
                    (ground arith))
                  (λ b e. cc))))
      b
