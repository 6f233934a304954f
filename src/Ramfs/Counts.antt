-- ===== src/Ramfs/Counts.antt =====
-- The counter of kernel/fs/ramfs.c against its slots: `find_empty_slot` fails exactly when sixteen
-- files live.
use tinyshell_os.Base.{
  ℕ, zero, suc, ◌≤◌, ◌<◌, ◌≡◌, refl, inl, inr, Bool-cases, true, false, not, none, some, arith,
  Array, ◌==◌, find_first-none, find_first-some,
}
use tinyshell_os.Ramfs.{Slot, Ramfs, max_files, find_empty_slot}
use tinyshell_os.Ramfs.Invariant.{IsValid, alive_below, alive_below-le}

alive_below-all :
    (slots : Array Slot) (n : ℕ)
    → ((i : ℕ) → i < n → (slots i).alive ≡ true)
    → alive_below slots n ≡ n
unfolding alive_below
alive_below-all slots zero h = refl
alive_below-all slots (suc n) h =
    ground (arith, h n (omega arith), alive_below-all slots n λ i lt. h i (omega arith))

alive_below-lt :
    (slots : Array Slot) (n k : ℕ) → k < n → (slots k).alive ≡ false → alive_below slots n < n
unfolding alive_below
alive_below-lt slots zero k lt dead = absurd (omega arith)
alive_below-lt slots (suc n) k lt dead = elim (Bool-cases (k == n)) [
  | inl e ↦
      let e' : k ≡ n = ground arith in
      let d : (slots n).alive ≡ false = rw (← e') dead in ground (arith, alive_below-le slots n)
  | inr ne ↦ ground (arith, alive_below-lt slots n k (ground arith) dead)
]

alive_below-pos :
    (slots : Array Slot) (n k : ℕ) → k < n → (slots k).alive ≡ true → 0 < alive_below slots n
unfolding alive_below
alive_below-pos slots zero k lt live = absurd (omega arith)
alive_below-pos slots (suc n) k lt live = elim (Bool-cases (k == n)) [
  | inl e ↦
      let e' : k ≡ n = ground arith in
      let d : (slots n).alive ≡ true = rw (← e') live in ground arith
  | inr ne ↦ ground (arith, alive_below-pos slots n k (ground arith) live)
]

pub count-le : (fs : Ramfs) → IsValid fs → fs.live_file_count ≤ max_files
count-le fs v = omega (arith, alive_below-le fs.slots max_files)

pub count-pos :
    (fs : Ramfs) (k : ℕ)
    → IsValid fs
    → k < max_files
    → (fs.slots k).alive ≡ true
    → 0 < fs.live_file_count
count-pos fs k v lt a = omega (arith, alive_below-pos fs.slots max_files k lt a)

pub find_empty_slot-none :
    (fs : Ramfs) → IsValid fs → find_empty_slot fs ≡ none → fs.live_file_count ≡ max_files
unfolding find_empty_slot
find_empty_slot-none fs v h = omega (
  arith,
  alive_below-all fs.slots max_files λ i lt.
      ground (arith, find_first-none (λ i. not (fs.slots i).alive) max_files 0 i h (omega arith)),
)

pub find_empty_slot-some :
    (fs : Ramfs) (k : ℕ)
    → IsValid fs
    → find_empty_slot fs ≡ some k
    → (k < max_files) × ((fs.slots k).alive ≡ false) × (fs.live_file_count < max_files)
unfolding find_empty_slot
find_empty_slot-some fs k v h =
    let (_, lt, dead) = find_first-some (λ i. not (fs.slots i).alive) max_files 0 k h in
    let off : (fs.slots k).alive ≡ false = ground arith in
    (omega arith, off, omega (arith, alive_below-lt fs.slots max_files k (omega arith) off))
