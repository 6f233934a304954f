-- ===== src/Ramfs/Invariant.antt =====
-- The invariant of kernel/fs/ramfs.c that `ramfs_validate` tests: live slots have distinct valid
-- names and fit, dead slots are cleared, and the counter counts the live ones.
use tinyshell_os.Base.{
  ℕ, zero, suc, ◌+◌, ◌≤◌, ◌<◌, ◌≡◌, ◌≢◌, refl, ◌∙◌, sym, inl, inr, Bool, true, false, some, arith,
  Array, write, Bool-cases, ◌==◌, ltb, if◌then◌else◌, each_lem,
}
use tinyshell_os.Ramfs.{Slot, Ramfs, max_files, file_max_bytes, clear_slot, init}
use tinyshell_os.Ramfs.Names.{name_max, name_is_valid, names_equal}
use tinyshell_os.Ramfs.NameLaws.{names_equal_comm}

pub record IsCleared (slot : Slot) : Type 0 where
  pub empty : slot.length ≡ 0
  pub name_zero : (k : ℕ) → k < suc name_max → slot.name k ≡ 0
  pub content_zero : (k : ℕ) → k < file_max_bytes → slot.content k ≡ 0

pub record IsSlot (slot : Slot) : Type 0 where
  pub named : slot.alive ≡ true → name_is_valid (some slot.name) ≡ true
  pub short : slot.alive ≡ true → slot.length ≤ file_max_bytes
  pub cleared : slot.alive ≡ false → IsCleared slot

abbrev pub Distinct : Slot → Slot → Type 0
Distinct s t = s.alive ≡ true → t.alive ≡ true → names_equal s.name t.name ≡ false

abbrev pub one_if : Bool → ℕ
one_if true = 1
one_if false = 0

-- The live slots below index `n`.
unfoldable pub alive_below : Array Slot → ℕ → ℕ
alive_below slots zero = 0
alive_below slots (suc n) = alive_below slots n + one_if (slots n).alive

pub record IsValid (fs : Ramfs) : Type 0 where
  pub each_slot : (i : ℕ) → i < max_files → IsSlot (fs.slots i)
  pub distinct :
      (i j : ℕ) → i < max_files → j < max_files → i ≢ j → Distinct (fs.slots i) (fs.slots j)
  pub counted : fs.live_file_count ≡ alive_below fs.slots max_files

alive_below-write :
    (slots : Array Slot) (k : ℕ) (slot : Slot) (n : ℕ)
    → alive_below (write slots k slot) n + (if ltb k n then one_if (slots k).alive else 0)
      ≡ alive_below slots n + (if ltb k n then one_if slot.alive else 0)
unfolding alive_below
alive_below-write slots k slot zero = ground arith
alive_below-write slots k slot (suc n) = elim (Bool-cases (n == k)) [
  | inl e ↦ let e' : n ≡ k = ground arith in ground (arith, alive_below-write slots k slot n)
  | inr ne ↦ ground (arith, alive_below-write slots k slot n)
]

pub alive_below-le : (slots : Array Slot) (n : ℕ) → alive_below slots n ≤ n
unfolding alive_below
alive_below-le slots zero = omega arith
alive_below-le slots (suc n) = ground (arith, alive_below-le slots n)

-- An operation that puts a proper slot, distinct from the others, at index `k`.
pub write-IsValid :
    (fs : Ramfs) (k : ℕ) (slot : Slot) (count : ℕ)
    → IsValid fs
    → k < max_files
    → IsSlot slot
    → ((j : ℕ) → j < max_files → j ≢ k → Distinct slot (fs.slots j))
    → count + one_if (fs.slots k).alive ≡ fs.live_file_count + one_if slot.alive
    → IsValid (record { slots = write fs.slots k slot; live_file_count = count })
write-IsValid fs k slot count v lt good apart counts = record {
  each_slot =
      λ i li. elim (Bool-cases (i == k)) [ inl e ↦ rw e good | inr ne ↦ rw ne (v.each_slot i li) ];
  distinct = λ i j li lj ne. elim (Bool-cases (i == k)) [
    | inl ei ↦ elim (Bool-cases (j == k)) [
      | inl ej ↦ absurd (ne (ground arith))
      | inr nj ↦ rw (ei, nj) (apart j lj (ground arith))
    ]
    | inr ni ↦ elim (Bool-cases (j == k)) [
      | inl ej ↦ rw (ni, ej) (λ a b. names_equal_comm _ _ ∙ apart i li (ground arith) b a)
      | inr nj ↦ rw (ni, nj) (v.distinct i j li lj ne)
    ]
  ];
  counted = ground (arith, alive_below-write fs.slots k slot max_files, v.counted);
}

pub clear_slot-IsSlot : (slot : Slot) → IsSlot (clear_slot slot)
unfolding clear_slot
clear_slot-IsSlot slot = record {
  named = λ a. cc;
  short = λ a. cc;
  cleared = λ d. record {
    empty = refl;
    name_zero = λ k lt. ground (arith, each_lem (suc name_max) (λ _ _. 0) slot.name k);
    content_zero = λ k lt. ground (arith, each_lem file_max_bytes (λ _ _. 0) slot.content k);
  };
}

pub clear_slot-alive : (slot : Slot) → (clear_slot slot).alive ≡ false
unfolding clear_slot
clear_slot-alive slot = refl

alive_below-none :
    (slots : Array Slot) (n : ℕ)
    → ((i : ℕ) → i < n → (slots i).alive ≡ false)
    → alive_below slots n ≡ 0
unfolding alive_below
alive_below-none slots zero h = refl
alive_below-none slots (suc n) h =
    ground (arith, h n (omega arith), alive_below-none slots n λ i lt. h i (omega arith))

init_slot : (fs : Ramfs) (i : ℕ) → i < max_files → (init fs).slots i ≡ clear_slot (fs.slots i)
unfolding init
init_slot fs i lt = ground (arith, each_lem max_files (λ _ slot. clear_slot slot) fs.slots i)

pub init-dead : (fs : Ramfs) (i : ℕ) → i < max_files → ((init fs).slots i).alive ≡ false
init-dead fs i lt = rw (init_slot fs i lt) (clear_slot-alive (fs.slots i))

pub init-count : (fs : Ramfs) → (init fs).live_file_count ≡ 0
unfolding init
init-count fs = refl

pub init-IsValid : (fs : Ramfs) → IsValid (init fs)
init-IsValid fs = record {
  each_slot = λ i lt. rw (init_slot fs i lt) (clear_slot-IsSlot (fs.slots i));
  distinct = λ i j li lj ne a b. ground (arith, init-dead fs i li);
  counted = init-count fs ∙ sym (alive_below-none (init fs).slots max_files (init-dead fs));
}
