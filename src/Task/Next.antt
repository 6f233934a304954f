-- ===== src/Task/Next.antt =====
-- `find_next_ready` of kernel/task/task.c finds the ready task that is nearest behind the cursor.
use tinyshell_os.Base.{
  ℕ, ◌+◌, ◌-◌, ◌%◌, ◌≤◌, ◌<◌, ◌≡◌, ◌≢◌, sym, ap, ◌∙◌, inl, inr, ◌⊎◌, true, false, some, arith,
  find_first, find_first-some, find_first-before, find_first-none, Option-cases, Bool-cases, ltb→lt,
  Bool, ltb,
}
use tinyshell_os.Task.{
  Scheduler, is_ready, max_tasks, invalid_id, search_start, candidate, find_next_ready,
}

-- How many places behind the cursor's successor a task stands.
abbrev pub places_behind : ℕ → ℕ → ℕ
places_behind after id = (id + max_tasks - search_start after) % max_tasks

start_range : (after : ℕ) → search_start after < max_tasks
start_range after = ground arith

candidate-places_behind :
    (after id : ℕ) → id < max_tasks → candidate after (places_behind after id) ≡ id
candidate-places_behind after id lt = omega (arith, start_range after)

places_behind-candidate :
    (after o : ℕ) → o < max_tasks → places_behind after (candidate after o) ≡ o
places_behind-candidate after o lt = omega (arith, start_range after)

places_range : (after id : ℕ) → places_behind after id < max_tasks
places_range after id = omega arith

-- The task that is found is ready, and every ready task stands as far behind or farther.
pub record IsNearest (after : ℕ) (s : Scheduler) (next : ℕ) : Type 0 where
  pub in_range : next < max_tasks
  pub now_ready : is_ready (s.tasks next).state ≡ true
  pub nearest :
      (id : ℕ)
      → id < max_tasks
      → is_ready (s.tasks id).state ≡ true
      → places_behind after next ≤ places_behind after id

abbrev ready_at : ℕ → Scheduler → ℕ → Bool
ready_at after s offset = is_ready (s.tasks (candidate after offset)).state

ready_at-places_behind :
    (after : ℕ) (s : Scheduler) (id : ℕ)
    → id < max_tasks
    → ready_at after s (places_behind after id) ≡ is_ready (s.tasks id).state
ready_at-places_behind after s id lt =
    ap (λ c. is_ready (s.tasks c).state) (candidate-places_behind after id lt)

found-IsNearest :
    (after : ℕ) (s : Scheduler) (o : ℕ)
    → find_first (ready_at after s) max_tasks 0 ≡ some o
    → IsNearest after s (candidate after o)
found-IsNearest after s o e =
    let (lo, hi, hit) = find_first-some (ready_at after s) max_tasks 0 o e in
    record {
      in_range = omega arith;
      now_ready = hit;
      nearest = λ id lt r.
          rw (places_behind-candidate after o (omega arith))
            (elim (Bool-cases (ltb (places_behind after id) o)) [
              | inl before ↦ cc (
                find_first-before (ready_at after s) max_tasks 0 o (places_behind after id) e
                    (omega arith) (ltb→lt _ _ before),
                ready_at-places_behind after s id lt,
              )
              | inr behind ↦ ground arith
            ]);
    }

-- Either no task is ready, or the nearest one is found.
pub find_next_ready-cases :
    (after : ℕ) (s : Scheduler)
    → ((find_next_ready after s ≡ invalid_id)
        × ((id : ℕ) → id < max_tasks → is_ready (s.tasks id).state ≡ false))
      ⊎ IsNearest after s (find_next_ready after s)
unfolding find_next_ready
find_next_ready-cases after s = elim (Option-cases (find_first (ready_at after s) max_tasks 0)) [
  | inl e ↦ inl (
    rw (e, find_next_ready),
    λ id lt.
        sym (ready_at-places_behind after s id lt)
        ∙ find_first-none (ready_at after s) max_tasks 0 (places_behind after id) e (omega arith)
            (omega (arith, places_range after id)),
  )
  | inr (o, e) ↦ inr (rw (e, find_next_ready) (found-IsNearest after s o e))
]

-- `find_next_ready` fails exactly if no task is ready.
pub find_next_ready_none :
    (after : ℕ) (s : Scheduler)
    → find_next_ready after s ≡ invalid_id
    → (id : ℕ) → id < max_tasks
    → is_ready (s.tasks id).state ≡ false
find_next_ready_none after s e = elim (find_next_ready-cases after s) [
  | inl (e', h) ↦ h
  | inr n ↦ λ id lt. absurd (omega (arith, n.in_range))
]

pub find_next_ready_some :
    (after : ℕ) (s : Scheduler)
    → find_next_ready after s ≢ invalid_id
    → IsNearest after s (find_next_ready after s)
find_next_ready_some after s ne = elim (find_next_ready-cases after s) [
  | inl (e, h) ↦ absurd (ne e)
  | inr n ↦ n
]
