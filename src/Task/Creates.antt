-- ===== src/Task/Creates.antt =====
-- `task_create` and `task_system_init` of kernel/task/task.c keep the scheduler sound.
use mathlib.Core.Path.{subst}
use tinyshell_os.Base.{
  either_way, ℕ, ◌+◌, ◌-◌, ◌*◌, ◌%◌, ◌≤◌, ◌<◌, ◌≡◌, ◌≢◌, refl, ap, sym, ◌∙◌, ◌⊎◌, inl, inr, true,
  false, not, ◌||◌, Option, none, some, Array, arith, write, each, each_lem, find_first,
  find_first-some, Option-cases, ◌==◌, Bool-cases,
}
use tinyshell_os.Task.{
  Scheduler, Tcb, ready, is_ready, is_running, is_unused, Flags, Word, code, task_exit, trampoline,
  interrupt_bit, max_tasks, stack_size, interrupt_state_save_and_disable, initial_task_eflags,
}
use tinyshell_os.Task.Frames.{stack_top, zeroed, push_frame, prepare_initial_stack}
use tinyshell_os.Task.Calls.{empty_tcb, system_init, create_at, create}
use tinyshell_os.Task.Invariant.{
  Waiting, InBootstrap, InTask, finished_in-ext, finished_in-write, push_frame-Frame,
  Waiting-push_frame,
}
use tinyshell_os.Task.Yields.{
  InTask-eflags, InTask-restore, InBootstrap-eflags, InBootstrap-restore,
}

stack_top_lem :
    (base id : ℕ) → base % 16 ≡ 0 → stack_top base id ≡ base + id * stack_size + stack_size
stack_top_lem base id aligned = omega arith

-- A word outside its stack leaves a task's frame alone.
Waiting-write :
    (base id a : ℕ) (w : Word) (m : Array Word) (t : Tcb)
    → (a < base + id * stack_size) ⊎ (base + id * stack_size + stack_size ≤ a)
    → Waiting base m id t
    → Waiting base (write m a w) id t
Waiting-write base id a w m t away h = record {
  entry = h.entry;
  has_entry = h.has_entry;
  own_stack = h.own_stack;
  frame = elim h.frame [
    | inl f ↦ inl (record {
      flags = f.flags;
      flags_at = ground (arith, f.flags_at, h.own_stack);
      code_at = ground (arith, f.code_at, h.own_stack);
    })
    | inr f ↦ inr (record {
      flags = f.flags;
      flags_at = ground (arith, f.flags_at, h.own_stack);
      code_at = ground (arith, f.code_at, h.own_stack);
    })
  ];
}

module _ (base id entry argument : ℕ) (flags : Flags) (s : Scheduler)
    (aligned : base % 16 ≡ 0) where
  abbrev sp : ℕ
  sp = stack_top base id - 28

  abbrev new_tcb : Tcb
  new_tcb = record { state = ready; entry = some entry; argument = argument; stack_pointer = sp }

  abbrev new_memory : Array Word
  new_memory =
      push_frame sp (zeroed sp) (initial_task_eflags flags) trampoline
        (write s.memory (stack_top base id - 4) (code task_exit))

  created_tasks :
      (j : ℕ) → (create_at base id entry argument flags s).tasks j ≡ write s.tasks id new_tcb j
  unfolding create_at prepare_initial_stack
  created_tasks j = ground arith

  new_waits : Waiting base new_memory id new_tcb
  new_waits = record {
    entry = entry;
    has_entry = refl;
    own_stack = omega (arith, stack_top_lem base id aligned);
    frame = inl (
        push_frame-Frame sp (zeroed sp) (initial_task_eflags flags) trampoline
          (write s.memory (stack_top base id - 4) (code task_exit)));
  }

  old_waits :
      (j : ℕ) → j ≢ id → Waiting base s.memory j (s.tasks j) → Waiting base new_memory j (s.tasks j)
  old_waits j ne w =
      Waiting-push_frame base j sp (zeroed sp) (initial_task_eflags flags) trampoline
        (write s.memory (stack_top base id - 4) (code task_exit)) (s.tasks j)
        (omega (arith, stack_top_lem base id aligned))
        (Waiting-write base j (stack_top base id - 4) (code task_exit) s.memory (s.tasks j)
          (omega (arith, stack_top_lem base id aligned)) w)

  created_waits :
      ((j : ℕ)
        → j < max_tasks
        → is_ready (s.tasks j).state ≡ true
        → Waiting base s.memory j (s.tasks j))
      → (j : ℕ) → j < max_tasks
      → is_ready (write s.tasks id new_tcb j).state ≡ true
      → Waiting base new_memory j (write s.tasks id new_tcb j)
  created_waits all j lt r = elim (Bool-cases (j == id)) [
    | inl same ↦ let e : j ≡ id = ground arith in rw e (ground (arith, new_waits))
    | inr other ↦ rw other (old_waits j (ground arith) (all j lt (rw other at r)))
  ]

  create_at-InBootstrap :
      InBootstrap base s
      → id < max_tasks
      → is_unused (s.tasks id).state ≡ true
      → InBootstrap base (create_at base id entry argument flags s)
  unfolding create_at prepare_initial_stack
  create_at-InBootstrap b lt u = record {
    initialized = b.initialized;
    stands = b.stands;
    no_current = b.no_current;
    none_runs = λ j ltj. rw (created_tasks j) (ground (arith, b.none_runs j ltj));
    all_wait = λ j ltj r.
        subst (λ t. Waiting base new_memory j t) (sym (created_tasks j))
          (created_waits b.all_wait j ltj
            (ap (λ (t : Tcb). is_ready t.state) (sym (created_tasks j)) ∙ r));
    counted =
        b.counted
        ∙ sym (finished_in-write s.tasks id new_tcb max_tasks (λ e. ground arith) (λ e. cc))
        ∙ finished_in-ext (write s.tasks id new_tcb)
            (create_at base id entry argument flags s).tasks max_tasks
            (λ j ltj. ap (λ (t : Tcb). t.state) (sym (created_tasks j)));
  }

-- `task_create` called from the bootstrap context.
pub create-InBootstrap :
    (base : ℕ) (entry : Option ℕ) (argument : ℕ) (s : Scheduler)
    → base % 16 ≡ 0
    → InBootstrap base s
    → InBootstrap base (create base entry argument s).1
unfolding create interrupt_state_save_and_disable
create-InBootstrap base none argument s aligned b =
    InBootstrap-restore base s.eflags _
      (InBootstrap-eflags base (write s.eflags interrupt_bit false) s b)
create-InBootstrap base (some entry) argument s aligned b =
    let flags = s.eflags in
    let masked = record s { eflags = write s.eflags interrupt_bit false } in
    let b' = InBootstrap-eflags base (write s.eflags interrupt_bit false) s b in
    either_way (λ (r : ℕ × Scheduler). InBootstrap base r.1)
      (not s.scheduler_initialized || s.scheduler_running) _ _
      (λ refused. InBootstrap-restore base flags masked b')
      (λ taken. elim (Option-cases (find_first (λ id. is_unused (s.tasks id).state) max_tasks 0)) [
        | inl full ↦ rw full (InBootstrap-restore base flags masked b')
        | inr (id, found) ↦
            let (lo, hi, hit) =
              find_first-some (λ id. is_unused (s.tasks id).state) max_tasks 0 id found in
            rw found (
              InBootstrap-restore base flags (create_at base id entry argument flags masked) (
                create_at-InBootstrap base id entry argument flags masked aligned b' (omega arith)
                  hit))
      ])

-- A task's `task_create` is refused.
pub create-InTask :
    (base id : ℕ) (entry : Option ℕ) (argument : ℕ) (s : Scheduler)
    → InTask base id s
    → InTask base id (create base entry argument s).1
unfolding create interrupt_state_save_and_disable
create-InTask base id none argument s h =
    InTask-restore base id s.eflags _
      (InTask-eflags base id (write s.eflags interrupt_bit false) s h)
create-InTask base id (some entry) argument s h =
    let masked = record s { eflags = write s.eflags interrupt_bit false } in
    either_way (λ (r : ℕ × Scheduler). InTask base id r.1)
      (not s.scheduler_initialized || s.scheduler_running) _ _
      (λ refused.
        InTask-restore base id s.eflags masked
          (InTask-eflags base id (write s.eflags interrupt_bit false) s h))
      (λ taken. absurd (ground (arith, h.runs)))

cleared :
    (tasks : Array Tcb) (j : ℕ)
    → j < max_tasks
    → each max_tasks (λ _ _. empty_tcb) tasks j ≡ empty_tcb
cleared tasks j lt = ground (arith, each_lem max_tasks (λ _ _. empty_tcb) tasks j)

-- `task_system_init` resets the scheduler, whatever it held, unless tasks run.
pub system_init-InBootstrap :
    (base : ℕ) (s : Scheduler) → s.scheduler_running ≡ false → InBootstrap base (system_init s)
unfolding system_init interrupt_state_save_and_disable
system_init-InBootstrap base s idle =
    either_way (λ (s : Scheduler). InBootstrap base s) s.scheduler_running _ _
      (λ e. absurd (ground arith))
      (λ e. InBootstrap-restore base s.eflags _ (record {
        initialized = refl;
        stands = refl;
        no_current = refl;
        none_runs = λ j lt. ap (λ (t : Tcb). is_running t.state) (cleared s.tasks j lt);
        all_wait = λ j lt r. absurd (
            let e : false ≡ true =
              ap (λ (t : Tcb). is_ready t.state) (sym (cleared s.tasks j lt)) ∙ r in
            ground arith);
        counted = sym (
            finished_in-ext (each max_tasks (λ _ _. empty_tcb) s.tasks) (λ _. empty_tcb) max_tasks
              (λ j lt. ap (λ (t : Tcb). t.state) (cleared s.tasks j lt)));
      }))

pub system_init-InTask :
    (base id : ℕ) (s : Scheduler) → InTask base id s → InTask base id (system_init s)
unfolding system_init interrupt_state_save_and_disable
system_init-InTask base id s h =
    either_way (λ (s : Scheduler). InTask base id s) s.scheduler_running _ _
      (λ e.
        InTask-restore base id s.eflags _
          (InTask-eflags base id (write s.eflags interrupt_bit false) s h))
      (λ e. absurd (ground (arith, h.runs)))
