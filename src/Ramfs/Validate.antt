-- ===== src/Ramfs/Validate.antt =====
-- `ramfs_validate` of kernel/fs/ramfs.c accepts exactly the valid states.
use tinyshell_os.Base.{
  ℕ, zero, suc, ◌+◌, ◌-◌, ◌≤◌, ◌<◌, ◌≡◌, ◌≢◌, ◌↔◌, List, refl, ◌∙◌, ap, sym, inl, inr, Bool-cases,
  Option-cases, Bool, true, false, not, ◌&&◌, Option, none, some, arith, Array, ◌==◌, find_first,
  find_first-none, find_first-eq-none, ltb, leb, if◌then◌else◌,
}
use tinyshell_os.Ramfs.{Slot, Ramfs, max_files, file_max_bytes, init}
use tinyshell_os.Ramfs.Names.{name_max, name_is_valid, names_equal}
use tinyshell_os.Ramfs.NameLaws.{names_equal_comm}
use tinyshell_os.Ramfs.Invariant.{IsValid, IsSlot, Distinct, one_if, alive_below}
use tinyshell_os.Ramfs.Counts.{count-le}
use tinyshell_os.Ramfs.Calls.{Call, after}
use tinyshell_os.Ramfs.Run.{after-init-IsValid}

abbrev fails : Option ℕ → Bool
fails none = false
fails (some _) = true

-- A loop that returns false at the first field that is not zero.
all_zero : Array ℕ → ℕ → Bool
all_zero a n = not (fails (find_first (λ i. not (a i == 0)) n 0))

-- The inner loop over the slots behind `index`.
later_duplicate : Ramfs → ℕ → Bool
later_duplicate fs index = fails (
    find_first
      (λ other. (fs.slots other).alive && names_equal (fs.slots index).name (fs.slots other).name)
      (max_files - suc index) (suc index))

-- What one round of the outer loop asks of its slot.
slot_is_sound : Ramfs → ℕ → Bool
slot_is_sound fs index =
    if not slot.alive
    then (slot.length == 0)
      && (all_zero slot.name (suc name_max) && all_zero slot.content file_max_bytes)
    else name_is_valid (some slot.name)
      && (leb slot.length file_max_bytes && not (later_duplicate fs index))
  where
    slot : Slot
    slot = fs.slots index

-- `n` rounds of the outer loop, from `index` on
validate_from : Ramfs → ℕ → ℕ → ℕ → Bool
validate_from fs zero index alive_count = alive_count == fs.live_file_count
validate_from fs (suc n) index alive_count = elim (slot_is_sound fs index) [
  | false ↦ false
  | true ↦ validate_from fs n (suc index) (alive_count + one_if (fs.slots index).alive)
]

pub validate : Ramfs → Bool
validate fs = if ltb max_files fs.live_file_count then false else validate_from fs max_files 0 0

all_zero_of : (a : Array ℕ) (n : ℕ) → ((k : ℕ) → k < n → a k ≡ 0) → all_zero a n ≡ true
unfolding all_zero
all_zero_of a n h =
    rw (find_first-eq-none (λ i. not (a i == 0)) n 0 λ j lo hi. ground (arith, h j (omega arith)))

zero_of_all_zero : (a : Array ℕ) (n k : ℕ) → all_zero a n ≡ true → k < n → a k ≡ 0
unfolding all_zero
zero_of_all_zero a n k h lt = elim (Option-cases (find_first (λ i. not (a i == 0)) n 0)) [
  | inl e ↦
      ground (arith, find_first-none (λ i. not (a i == 0)) n 0 k e (omega arith) (omega arith))
  | inr (j, e) ↦ ground arith
]

sound_of_valid : (fs : Ramfs) (i : ℕ) → IsValid fs → i < max_files → slot_is_sound fs i ≡ true
unfolding slot_is_sound later_duplicate
sound_of_valid fs i v lt = elim (Bool-cases (fs.slots i).alive) [
  | inl live ↦
      rw
        (
          live,
          (v.each_slot i lt).named live,
          find_first-eq-none
              (λ other.
                (fs.slots other).alive && names_equal (fs.slots i).name (fs.slots other).name)
              (max_files - suc i) (suc i)
              λ j lo hi. ground (arith, v.distinct i j lt (omega arith) (omega arith) live),
        )
        (ground (arith, (v.each_slot i lt).short live))
  | inr dead ↦
      let c = (v.each_slot i lt).cleared dead in
      rw (
        dead,
        c.empty,
        all_zero_of (fs.slots i).name (suc name_max) c.name_zero,
        all_zero_of (fs.slots i).content file_max_bytes c.content_zero,
      )
]

IsSlot-of_sound : (fs : Ramfs) (i : ℕ) → slot_is_sound fs i ≡ true → IsSlot (fs.slots i)
unfolding slot_is_sound
IsSlot-of_sound fs i h = record {
  named = λ live. ground arith;
  short = λ live. ground arith;
  cleared = λ dead. record {
    empty = ground arith;
    name_zero = λ k lt. zero_of_all_zero (fs.slots i).name (suc name_max) k (ground arith) lt;
    content_zero = λ k lt. zero_of_all_zero (fs.slots i).content file_max_bytes k (ground arith) lt;
  };
}

apart_of_sound :
    (fs : Ramfs) (i j : ℕ)
    → slot_is_sound fs i ≡ true
    → i < j
    → j < max_files
    → (fs.slots i).alive ≡ true
    → (fs.slots j).alive ≡ true
    → names_equal (fs.slots i).name (fs.slots j).name ≡ false
unfolding slot_is_sound later_duplicate
apart_of_sound fs i j h lo hi a b =
    elim (Option-cases (find_first same (max_files - suc i) (suc i))) [
      | inl e ↦
          ground (
            arith,
            find_first-none same (max_files - suc i) (suc i) j e (omega arith) (omega arith),
          )
      | inr (k, e) ↦ ground arith
    ]
  where
    same : ℕ → Bool
    same other = (fs.slots other).alive && names_equal (fs.slots i).name (fs.slots other).name

validate_from-true :
    (fs : Ramfs) (n i e : ℕ)
    → i + n ≡ e
    → ((j : ℕ) → i ≤ j → j < e → slot_is_sound fs j ≡ true)
    → alive_below fs.slots e ≡ fs.live_file_count
    → validate_from fs n i (alive_below fs.slots i) ≡ true
unfolding validate_from alive_below
validate_from-true fs zero i e end sound counted =
    let e' : i ≡ e = omega arith in ground (arith, ap (alive_below fs.slots) e')
validate_from-true fs (suc n) i e end sound counted =
    rw (sound i (omega arith) (omega arith), validate_from)
      (validate_from-true fs n (suc i) e (omega arith) (λ j lo hi. sound j (omega arith) hi)
        counted)

true-validate_from :
    (fs : Ramfs) (n i e : ℕ)
    → i + n ≡ e
    → validate_from fs n i (alive_below fs.slots i) ≡ true
    → ((j : ℕ) → i ≤ j → j < e → slot_is_sound fs j ≡ true)
      × (alive_below fs.slots e ≡ fs.live_file_count)
unfolding validate_from alive_below
true-validate_from fs zero i e end h =
    let e' : i ≡ e = omega arith in
    (λ j lo hi. absurd (omega arith), ground (arith, ap (alive_below fs.slots) e'))
true-validate_from fs (suc n) i e end h = elim (Bool-cases (slot_is_sound fs i)) [
  | inr bad ↦ ground arith
  | inl good ↦
      let (rest, counted) = true-validate_from fs n (suc i) e (omega arith) (ground arith) in
      (
        λ j lo hi. elim (Bool-cases (j == i)) [
          | inl here ↦ let e' : j ≡ i = ground arith in rw e' good
          | inr there ↦ rest j (ground arith) hi
        ],
        counted,
      )
]

Distinct-of_sound :
    (fs : Ramfs)
    → ((j : ℕ) → 0 ≤ j → j < max_files → slot_is_sound fs j ≡ true)
    → (i j : ℕ) → i < max_files
    → j < max_files
    → i ≢ j
    → Distinct (fs.slots i) (fs.slots j)
Distinct-of_sound fs good i j li lj ne a b = elim (Bool-cases (ltb i j)) [
  | inl lt ↦ apart_of_sound fs i j (good i (omega arith) li) (ground arith) lj a b
  | inr ge ↦
      names_equal_comm (fs.slots i).name (fs.slots j).name
      ∙ apart_of_sound fs j i (good j (omega arith) lj) (ground arith) li b a
]

-- `ramfs_validate` returns true exactly in the states where every live slot has a valid name and at
-- most 512 bytes, no two live slots have equal names, every dead slot is all zero, and the counter
-- equals the number of live slots.
pub validate_iff : (fs : Ramfs) → (validate fs ≡ true) ↔ IsValid fs
unfolding validate alive_below
validate_iff fs = (sound, complete)
  where
    complete : IsValid fs → validate fs ≡ true
    complete v =
        let small : ltb max_files fs.live_file_count ≡ false = ground (arith, count-le fs v) in
        rw small (
          validate_from-true fs max_files 0 max_files refl (λ j lo hi. sound_of_valid fs j v hi)
            (sym v.counted))

    sound : validate fs ≡ true → IsValid fs
    sound h =
        let (good, counted) = true-validate_from fs max_files 0 max_files refl (ground arith) in
        record {
          each_slot = λ i lt. IsSlot-of_sound fs i (good i (omega arith) lt);
          distinct = Distinct-of_sound fs good;
          counted = sym counted;
        }

-- After `ramfs_init` and any sequence of calls, `ramfs_validate` returns true.
pub validate-after-init : (fs : Ramfs) (cs : List Call) → validate (after (init fs) cs) ≡ true
validate-after-init fs cs = (validate_iff (after (init fs) cs)).1 (after-init-IsValid fs cs)
