-- ===== src/Keyboard/Interleave.antt =====
-- `keyboard_pop_char` of kernel/arch/x86/keyboard.c with interrupts between its loads and stores:
-- the main loop is the only consumer and may be interrupted anywhere, the handler of IRQ1 is the
-- only producer and runs to its end.
use mathlib.Core.List.{append_assoc}
use tinyshell_os.Base.{
  ℕ, ◌%◌, ◌≤◌, ◌<◌, ◌≡◌, ◌≢◌, refl, sym, ap, ◌∙◌, inl, inr, Bool, true, false, Option, none, some,
  List, [], ◌∷◌, ◌++◌, arith, Bool-cases, add32, leb, length, ◌==◌, if◌then◌else◌,
}
use tinyshell_os.Keyboard.{Keyboard, queue_capacity, init, feed_scancode, queue_push}
use tinyshell_os.Keyboard.Layout.{push_key}
use tinyshell_os.Keyboard.Decode.{classify, decode, modifiers, with_modifiers, feed_scancode-decode}
use tinyshell_os.Keyboard.Queue.{
  IsBounded, view, count, waiting, enqueue, Keys, push_key-enqueue, length-waiting, waiting-take,
  take-IsBounded,
}
use tinyshell_os.Keyboard.Run.{init-IsBounded, view-init}

-- How far a call of `keyboard_pop_char` with a buffer has come, with its local variables.
pub data Progress : Type 0 where
  idle : Progress
  read_loaded : (read : ℕ) → Progress
  both_loaded : (read write : ℕ) → Progress
  fetched : (read character : ℕ) → Progress

-- The driver, the pop under way, and what was accepted and delivered so far.
pub record Machine : Type 0 where
  pub driver : Keyboard
  pub pop : Progress
  pub accepted : List ℕ
  pub delivered : List ℕ

-- The next load or store of the pop.
unfoldable pub pop_step : Progress → Machine → Machine
pop_step idle m = record m { pop = read_loaded m.driver.read_sequence }
pop_step (read_loaded read) m = record m { pop = both_loaded read m.driver.write_sequence }
pop_step (both_loaded read write) m =
    if read == write
    then record m { pop = idle }
    else record m { pop = fetched read (m.driver.character_queue (read % queue_capacity)) }
pop_step (fetched read character) m = record m {
  driver = record m.driver { read_sequence = add32 read 1 };
  pop = idle;
  delivered = m.delivered ++ (character ∷ []);
}

abbrev pub joined : Bool → Option ℕ → List ℕ → List ℕ
joined true (some c) cs = cs ++ (c ∷ [])
joined true none cs = cs
joined false typed cs = cs

-- The character that a byte types when the driver's modifiers are held.
abbrev pub typed_by : ℕ → Keyboard → Option ℕ
typed_by byte k = (decode (classify byte) (modifiers k)).0

unfoldable pub interrupt : ℕ → Machine → Machine
interrupt byte m =
    let (fed, driver) = feed_scancode byte m.driver in
    record m { driver = driver; accepted = joined fed (typed_by byte m.driver) m.accepted }

pub data Event : Type 0 where
  irq : ℕ → Event
  main_loop : Event

unfoldable pub schedule : List Event → Machine → Machine
schedule [] m = m
schedule (irq byte ∷ es) m = schedule es (interrupt (byte % 256) m)
schedule (main_loop ∷ es) m = schedule es (pop_step m.pop m)

-- What the local variables of a pop say of the driver.
abbrev Holds : Progress → Keyboard → Type 0
Holds idle k = k.read_sequence ≡ k.read_sequence
Holds (read_loaded read) k = read ≡ k.read_sequence
Holds (both_loaded read write) k =
    (read ≡ k.read_sequence) × (read ≢ write → k.read_sequence ≢ k.write_sequence)
Holds (fetched read character) k =
    (read ≡ k.read_sequence)
    × (k.read_sequence ≢ k.write_sequence)
    × (character ≡ k.character_queue (k.read_sequence % queue_capacity))

record IsSound (m : Machine) : Type 0 where
  bounded : IsBounded m.driver
  in_order : m.delivered ++ waiting m.driver ≡ m.accepted
  holds : Holds m.pop m.driver

-- The producer leaves the consumer's sequence number and the oldest waiting character alone.
record Keeps (k k' : Keyboard) : Type 0 where
  same_read : k'.read_sequence ≡ k.read_sequence
  still_some : k.read_sequence ≢ k.write_sequence → k'.read_sequence ≢ k'.write_sequence
  same_first :
      k.read_sequence ≢ k.write_sequence
      → k'.character_queue (k.read_sequence % queue_capacity)
        ≡ k.character_queue (k.read_sequence % queue_capacity)

push_key-Keeps : (typed : Option ℕ) (k : Keyboard) → IsBounded k → Keeps k (push_key typed k).1
unfolding push_key queue_push
push_key-Keeps none k v = record { same_read = refl; still_some = λ h. h; same_first = λ h. refl }
push_key-Keeps (some c) k v = elim (Bool-cases (leb queue_capacity (count k))) [
  | inl full ↦ rw full (record { same_read = refl; still_some = λ h. h; same_first = λ h. refl })
  | inr room ↦
      rw room (record {
        same_read = refl;
        still_some = λ h. ground arith;
        same_first = λ h. ground arith;
      })
]

Keeps-Holds : (p : Progress) (k k' : Keyboard) → Keeps k k' → Holds p k → Holds p k'
Keeps-Holds idle k k' keeps h = refl
Keeps-Holds (read_loaded read) k k' keeps h = h ∙ sym keeps.same_read
Keeps-Holds (both_loaded read write) k k' keeps (e, some_left) =
    (e ∙ sym keeps.same_read, λ ne. keeps.still_some (some_left ne))
Keeps-Holds (fetched read character) k k' keeps (e, some_left, c) = (
  e ∙ sym keeps.same_read,
  keeps.still_some some_left,
  c
      ∙ sym (keeps.same_first some_left)
      ∙ ap (λ r. k'.character_queue (r % queue_capacity)) (sym keeps.same_read),
)

-- What is queued grows by what is accepted.
enqueue-joined :
    (typed : Option ℕ) (s : Keys)
    → (enqueue typed s).1.queue ≡ joined (enqueue typed s).0 typed s.queue
unfolding enqueue
enqueue-joined none s = refl
enqueue-joined (some c) s = ground arith

joined-append :
    (b : Bool) (typed : Option ℕ) (cs ds : List ℕ)
    → cs ++ joined b typed ds ≡ joined b typed (cs ++ ds)
joined-append true none cs ds = refl
joined-append true (some c) cs ds = sym (append_assoc cs ds (c ∷ []))
joined-append false typed cs ds = refl

push-waiting :
    (typed : Option ℕ) (k : Keyboard)
    → IsBounded k
    → waiting (push_key typed k).1 ≡ joined (push_key typed k).0 typed (waiting k)
push-waiting typed k v =
    let (b, s, v') = push_key-enqueue typed k v in
    ap (λ s. s.queue) s
    ∙ enqueue-joined typed (view k)
    ∙ ap (λ b. joined b typed (waiting k)) (sym b)

interrupt-IsSound : (byte : ℕ) (m : Machine) → byte < 256 → IsSound m → IsSound (interrupt byte m)
unfolding interrupt
interrupt-IsSound byte m lt h =
    let typed = typed_by byte m.driver in
    let k = with_modifiers (decode (classify byte) (modifiers m.driver)).1 m.driver in
    let v : IsBounded k = record {
      write_word = h.bounded.write_word;
      read_word = h.bounded.read_word;
      fits = h.bounded.fits;
    } in
    let keeps = push_key-Keeps typed k v in
    let step : Keeps m.driver (push_key typed k).1 = record {
      same_read = keeps.same_read;
      still_some = keeps.still_some;
      same_first = keeps.same_first;
    } in
    rw (feed_scancode-decode byte m.driver lt) (record {
      bounded = (push_key-enqueue typed k v).2;
      in_order =
          ap (λ ds. m.delivered ++ ds) (push-waiting typed k v)
          ∙ joined-append (push_key typed k).0 typed m.delivered (waiting m.driver)
          ∙ ap (joined (push_key typed k).0 typed) h.in_order;
      holds = Keeps-Holds m.pop m.driver (push_key typed k).1 step h.holds;
    })

pop_step-IsSound :
    (p : Progress) (m : Machine)
    → IsBounded m.driver
    → m.delivered ++ waiting m.driver ≡ m.accepted
    → Holds p m.driver
    → IsSound (pop_step p m)
unfolding pop_step
pop_step-IsSound idle m v o h = record { bounded = v; in_order = o; holds = refl }
pop_step-IsSound (read_loaded read) m v o h = record {
  bounded = v;
  in_order = o;
  holds = (h, λ ne e. ne (h ∙ e));
}
pop_step-IsSound (both_loaded read write) m v o (e, some_left) = elim (Bool-cases (read == write)) [
  | inl same ↦ rw same (record { bounded = v; in_order = o; holds = refl })
  | inr other ↦ rw other (record {
    bounded = v;
    in_order = o;
    holds =
        (e, some_left (ground arith), ap (λ r. m.driver.character_queue (r % queue_capacity)) e);
  })
]
pop_step-IsSound (fetched read character) m v o (e, some_left, c) =
    rw (e, c)
      (record {
        bounded = take-IsBounded m.driver v some_left;
        in_order =
            append_assoc m.delivered _ _
            ∙ ap (λ w. m.delivered ++ w) (sym (waiting-take m.driver v some_left))
            ∙ o;
        holds = refl;
      })

schedule-IsSound : (es : List Event) (m : Machine) → IsSound m → IsSound (schedule es m)
unfolding schedule
schedule-IsSound [] m h = h
schedule-IsSound (irq byte ∷ es) m h =
    schedule-IsSound es _ (interrupt-IsSound (byte % 256) m (omega arith) h)
schedule-IsSound (main_loop ∷ es) m h =
    schedule-IsSound es _ (pop_step-IsSound m.pop m h.bounded h.in_order h.holds)

abbrev pub started : Keyboard → Machine
started k = record { driver = init k; pop = idle; accepted = []; delivered = [] }

-- After `keyboard_init`, for every interleaving of interrupts with the loads and stores of the
-- main loop's pops, the characters delivered, followed by those that still wait, are exactly the
-- characters typed by the bytes that the feed reported as queued, in their order, and at most
-- 64 wait: none is lost, repeated or changed by an interrupt in the middle of a pop.
pub delivered-in-order :
    (k : Keyboard) (es : List Event)
    → let m = schedule es (started k) in
      (m.delivered ++ waiting m.driver ≡ m.accepted) × (length (waiting m.driver) ≤ queue_capacity)
delivered-in-order k es =
    let h = schedule-IsSound es (started k) (record {
      bounded = init-IsBounded k;
      in_order = ap (λ s. s.queue) (view-init k);
      holds = refl;
    }) in
    (h.in_order, rw (length-waiting (schedule es (started k)).driver) (h.bounded.fits))
