-- ===== src/Task/Invariant.antt =====
-- What holds of the scheduler of kernel/task/task.c between the calls: which task runs, where the
-- stopped contexts go on, and how many tasks are finished.
use tinyshell_os.Base.{
  ℕ, zero, suc, ◌+◌, ◌*◌, ◌≤◌, ◌<◌, ◌≡◌, ◌≢◌, refl, ◌⊎◌, inl, inr, true, false, some, Array, arith,
  write, ◌==◌, ltb, ◌∙◌,
}
use tinyshell_os.Task.{
  Scheduler, Tcb, finished, is_ready, is_running, Flags, Word, flags_word, Code, code, trampoline,
  run_resumes, yield_resumes, max_tasks, stack_size, invalid_id,
}
use tinyshell_os.Task.Frames.{Cpu, push_frame}

-- A frame at `sp` that leads to `c`.
pub record Frame (m : Array Word) (sp : ℕ) (c : Code) : Type 0 where
  pub flags : Flags
  pub flags_at : m (sp + 16) ≡ flags_word flags
  pub code_at : m (sp + 20) ≡ code c

-- A frame inside the stack of task `id`, and outside all of them.
abbrev pub InStack : ℕ → ℕ → ℕ → Type 0
InStack base id sp = (base + id * stack_size ≤ sp) × (sp + 24 ≤ base + id * stack_size + stack_size)

abbrev pub OutsideStacks : ℕ → ℕ → Type 0
OutsideStacks base sp = (sp + 24 ≤ base) ⊎ (base + max_tasks * stack_size ≤ sp)

-- A task that is ready has an entry, and a frame in its stack that starts it or returns from its
-- `task_yield`.
pub record Waiting (base : ℕ) (m : Array Word) (id : ℕ) (t : Tcb) : Type 0 where
  pub entry : ℕ
  pub has_entry : t.entry ≡ some entry
  pub own_stack : InStack base id t.stack_pointer
  pub frame : Frame m t.stack_pointer trampoline ⊎ Frame m t.stack_pointer yield_resumes

abbrev pub finished_in : Array Tcb → ℕ → ℕ
finished_in tasks zero = 0
finished_in tasks (suc n) = (elim (tasks n).state [ finished ↦ 1 | _ ↦ 0 ]) + finished_in tasks n

-- Every ready task but `id` can go on.
abbrev pub OthersWait : ℕ → ℕ → Scheduler → Type 0
OthersWait base id s =
    (j : ℕ)
    → j < max_tasks
    → j ≢ id
    → is_ready (s.tasks j).state ≡ true
    → Waiting base s.memory j (s.tasks j)

-- `task_run` can go on.
pub record BootWaits (base : ℕ) (s : Scheduler) : Type 0 where
  pub outside : OutsideStacks base s.bootstrap_stack_pointer
  pub frame : Frame s.memory s.bootstrap_stack_pointer run_resumes

-- No task runs: the bootstrap context does.
pub record InBootstrap (base : ℕ) (s : Scheduler) : Type 0 where
  pub initialized : s.scheduler_initialized ≡ true
  pub stands : s.scheduler_running ≡ false
  pub no_current : s.current_task_id ≡ invalid_id
  pub none_runs : (j : ℕ) → j < max_tasks → is_running (s.tasks j).state ≡ false
  pub all_wait :
      (j : ℕ)
      → j < max_tasks
      → is_ready (s.tasks j).state ≡ true
      → Waiting base s.memory j (s.tasks j)
  pub counted : s.finished_count ≡ finished_in s.tasks max_tasks

-- Task `id` runs, and no other does.
pub record InTask (base id : ℕ) (s : Scheduler) : Type 0 where
  pub initialized : s.scheduler_initialized ≡ true
  pub runs : s.scheduler_running ≡ true
  pub current : s.current_task_id ≡ id
  pub in_range : id < max_tasks
  pub alone : (j : ℕ) → j < max_tasks → is_running (s.tasks j).state ≡ (j == id)
  pub entry : ℕ
  pub has_entry : (s.tasks id).entry ≡ some entry
  pub others_wait : OthersWait base id s
  pub boot_waits : BootWaits base s
  pub counted : s.finished_count ≡ finished_in s.tasks max_tasks

pub finished_in-le : (tasks : Array Tcb) (n : ℕ) → finished_in tasks n ≤ n
finished_in-le tasks zero = omega arith
finished_in-le tasks (suc n) = ground (arith, finished_in-le tasks n)

pub finished_in-ext :
    (a b : Array Tcb) (n : ℕ)
    → ((j : ℕ) → j < n → (a j).state ≡ (b j).state)
    → finished_in a n ≡ finished_in b n
finished_in-ext a b zero h = refl
finished_in-ext a b (suc n) h =
    ground (arith, h n (omega arith), finished_in-ext a b n (λ j lt. h j (omega arith)))

-- A write that neither starts nor ends with a finished task.
pub finished_in-write :
    (tasks : Array Tcb) (i : ℕ) (t : Tcb) (n : ℕ)
    → (tasks i).state ≢ finished
    → t.state ≢ finished
    → finished_in (write tasks i t) n ≡ finished_in tasks n
finished_in-write tasks i t zero p q = refl
finished_in-write tasks i t (suc n) p q = ground (arith, finished_in-write tasks i t n p q)

-- A task finishes.
pub finished_in-write_finished :
    (tasks : Array Tcb) (i : ℕ) (t : Tcb) (n : ℕ)
    → (tasks i).state ≢ finished
    → t.state ≡ finished
    → finished_in (write tasks i t) n
      ≡ finished_in tasks n + (elim (ltb i n) [ true ↦ 1 | false ↦ 0 ])
finished_in-write_finished tasks i t zero p q = ground arith
finished_in-write_finished tasks i t (suc n) p q =
    ground (arith, finished_in-write_finished tasks i t n p q)

-- Words outside the six that are pushed stay.
pub push_frame-other :
    (sp : ℕ) (cpu : Cpu) (flags : Flags) (c : Code) (m : Array Word) (a : ℕ)
    → (a < sp) ⊎ (sp + 20 < a)
    → push_frame sp cpu flags c m a ≡ m a
push_frame-other sp cpu flags c m a h = ground arith

-- A frame survives a push elsewhere.
pub Frame-push_frame :
    (sp : ℕ) (cpu : Cpu) (flags : Flags) (c : Code) (m : Array Word) (sp' : ℕ) (c' : Code)
    → (sp' + 24 ≤ sp) ⊎ (sp + 24 ≤ sp')
    → Frame m sp' c'
    → Frame (push_frame sp cpu flags c m) sp' c'
Frame-push_frame sp cpu flags c m sp' c' h f = record {
  flags = f.flags;
  flags_at = push_frame-other sp cpu flags c m (sp' + 16) (omega arith) ∙ f.flags_at;
  code_at = push_frame-other sp cpu flags c m (sp' + 20) (omega arith) ∙ f.code_at;
}

-- What is pushed is a frame.
pub push_frame-Frame :
    (sp : ℕ) (cpu : Cpu) (flags : Flags) (c : Code) (m : Array Word)
    → Frame (push_frame sp cpu flags c m) sp c
push_frame-Frame sp cpu flags c m = record {
  flags = flags;
  flags_at = ground arith;
  code_at = ground arith;
}

-- A task's frame survives a push outside its stack.
pub Waiting-push_frame :
    (base id sp : ℕ) (cpu : Cpu) (flags : Flags) (c : Code) (m : Array Word) (t : Tcb)
    → (sp + 24 ≤ base + id * stack_size) ⊎ (base + id * stack_size + stack_size ≤ sp)
    → Waiting base m id t
    → Waiting base (push_frame sp cpu flags c m) id t
Waiting-push_frame base id sp cpu flags c m t away w = record {
  entry = w.entry;
  has_entry = w.has_entry;
  own_stack = w.own_stack;
  frame = elim w.frame [
    | inl f ↦ inl (
        Frame-push_frame sp cpu flags c m t.stack_pointer trampoline (omega (arith, w.own_stack)) f)
    | inr f ↦ inr (
        Frame-push_frame sp cpu flags c m t.stack_pointer yield_resumes (omega (arith, w.own_stack))
          f)
  ];
}
