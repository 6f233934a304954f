-- ===== src/Keyboard/Queue.antt =====
-- The character queue of kernel/arch/x86/keyboard.c as a list of at most 64 characters.
use tinyshell_os.Base.{
  ℕ, suc, ◌+◌, ◌%◌, ◌≤◌, ◌<◌, ◌≡◌, ◌≢◌, refl, sym, ap, inl, inr, Bool, true, false, Option, none,
  some, List, [], ◌∷◌, ◌++◌, arith, write, length, Bool-cases, add32, sub32, word_mod, Slots,
  window, window-mod, window-write, length-window, leb, if◌then◌else◌,
}
use tinyshell_os.Keyboard.{Keyboard, queue_capacity, queue_push}
use tinyshell_os.Keyboard.Layout.{push_key}
use tinyshell_os.Keyboard.Decode.{Modifiers, modifiers}

pub record IsBounded (k : Keyboard) : Type 0 where
  pub write_word : k.write_sequence < word_mod
  pub read_word : k.read_sequence < word_mod
  pub fits : sub32 k.write_sequence k.read_sequence ≤ queue_capacity

pub slots_wrap : (s k : ℕ) → (s % word_mod + k) % queue_capacity ≡ (s + k) % queue_capacity
slots_wrap s k = omega arith

pub slots_apart :
    (s j : ℕ) → j < queue_capacity → 0 < j → (s + j) % queue_capacity ≢ s % queue_capacity
slots_apart s j lt pos = omega arith

pub slots_in_range : (s : ℕ) → s % queue_capacity < queue_capacity
slots_in_range s = omega arith

abbrev pub slots : Slots
slots = record {
  index = λ s. s % queue_capacity;
  depth = queue_capacity;
  wrap = slots_wrap;
  apart = slots_apart;
  in_range = slots_in_range;
}

abbrev pub count : Keyboard → ℕ
count k = sub32 k.write_sequence k.read_sequence

-- The characters that wait, oldest first.
abbrev pub waiting : Keyboard → List ℕ
waiting k = window slots k.character_queue k.read_sequence (count k)

pub length-waiting : (k : Keyboard) → length (waiting k) ≡ count k
length-waiting k = length-window slots k.character_queue k.read_sequence (count k)

-- What a client of the driver can observe.
pub record Keys : Type 0 where
  pub held_keys : Modifiers
  pub queue : List ℕ
  pub dropped : ℕ

abbrev pub view : Keyboard → Keys
view k = record { held_keys = modifiers k; queue = waiting k; dropped = k.dropped_characters }

-- Nothing typed; a character for which there is room; a character that is dropped.
unfoldable pub enqueue : Option ℕ → Keys → Bool × Keys
enqueue none s = (false, s)
enqueue (some c) s =
    if leb queue_capacity (length s.queue)
    then (false, record s { dropped = add32 s.dropped 1 })
    else (true, record s { queue = s.queue ++ (c ∷ []) })

waiting-write :
    (c : ℕ) (k : Keyboard)
    → IsBounded k
    → count k < queue_capacity
    → window slots
        (write k.character_queue (k.write_sequence % queue_capacity) c)
        k.read_sequence
        (sub32 (add32 k.write_sequence 1) k.read_sequence)
      ≡ waiting k ++ (c ∷ [])
waiting-write c k v room =
    let one_more : sub32 (add32 k.write_sequence 1) k.read_sequence ≡ suc (count k) = omega arith in
    rw one_more
      (window-write slots k.character_queue c k.read_sequence (count k) _ room (omega arith))

pub push_key-enqueue :
    (typed : Option ℕ) (k : Keyboard)
    → IsBounded k
    → ((push_key typed k).0 ≡ (enqueue typed (view k)).0)
      × (view (push_key typed k).1 ≡ (enqueue typed (view k)).1)
      × IsBounded (push_key typed k).1
unfolding push_key queue_push enqueue
push_key-enqueue none k v = (refl, refl, v)
push_key-enqueue (some c) k v = elim (Bool-cases (leb queue_capacity (count k))) [
  | inl full ↦
      rw (length-waiting k, full)
        (refl, refl, record { write_word = v.write_word; read_word = v.read_word; fits = v.fits })
  | inr room ↦
      rw (length-waiting k, room)
        (
          refl,
          ap (λ q. record { held_keys = modifiers k; queue = q; dropped = k.dropped_characters })
              (waiting-write c k v (ground arith)),
          record { write_word = omega arith; read_word = v.read_word; fits = ground arith },
        )
]

-- The oldest character leaves the queue.
pub waiting-take :
    (k : Keyboard)
    → IsBounded k
    → k.read_sequence ≢ k.write_sequence
    → waiting k
      ≡ k.character_queue (k.read_sequence % queue_capacity)
        ∷ waiting (record k { read_sequence = add32 k.read_sequence 1 })
waiting-take k v some_left =
    let n = sub32 k.write_sequence (add32 k.read_sequence 1) in
    let e : count k ≡ suc n = omega arith in
    rw e (
      ap (λ cs. k.character_queue (k.read_sequence % queue_capacity) ∷ cs)
        (sym (window-mod slots k.character_queue k.read_sequence n)))

pub waiting-none :
    (k : Keyboard) → IsBounded k → k.read_sequence ≡ k.write_sequence → waiting k ≡ []
waiting-none k v e = let z : count k ≡ 0 = omega arith in rw z

pub take-IsBounded :
    (k : Keyboard)
    → IsBounded k
    → k.read_sequence ≢ k.write_sequence
    → IsBounded (record k { read_sequence = add32 k.read_sequence 1 })
take-IsBounded k v some_left = record {
  write_word = v.write_word;
  read_word = omega arith;
  fits = omega (arith, v.fits);
}
