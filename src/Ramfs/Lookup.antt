-- ===== src/Ramfs/Lookup.antt =====
-- The slot that `find_slot` of kernel/fs/ramfs.c finds, in a valid state.
use tinyshell_os.Base.{
  ℕ, ◌<◌, ◌≡◌, ◌∙◌, sym, inl, inr, true, false, ◌&&◌, none, some, arith, find_first-some,
  find_first-none, find_first-eq-none, find_first_unique, find_first-congr, Bool-cases, ◌==◌,
}
use tinyshell_os.Ramfs.{Ramfs, max_files, find_slot}
use tinyshell_os.Ramfs.Names.{Name, names_equal}
use tinyshell_os.Ramfs.NameLaws.{names_equal_comm, names_equal_trans}
use tinyshell_os.Ramfs.Invariant.{IsValid}

-- Facts about a slot that `find_slot` returns.
pub find_slot-some :
    (name : Name) (fs : Ramfs) (k : ℕ)
    → find_slot name fs ≡ some k
    → (k < max_files) × ((fs.slots k).alive ≡ true) × (names_equal (fs.slots k).name name ≡ true)
unfolding find_slot
find_slot-some name fs k h = ground (
  arith,
  find_first-some (λ i. (fs.slots i).alive && names_equal (fs.slots i).name name) max_files 0 k h,
)

pub find_slot-none :
    (name : Name) (fs : Ramfs) (k : ℕ)
    → find_slot name fs ≡ none
    → k < max_files
    → (fs.slots k).alive ≡ true
    → names_equal (fs.slots k).name name ≡ false
unfolding find_slot
find_slot-none name fs k h lt a = ground (
  arith,
  find_first-none (λ i. (fs.slots i).alive && names_equal (fs.slots i).name name) max_files 0 k h,
)

-- A live slot of that name is the one that is found.
pub find_slot-hit :
    (name : Name) (fs : Ramfs) (k : ℕ)
    → IsValid fs
    → k < max_files
    → (fs.slots k).alive ≡ true
    → names_equal (fs.slots k).name name ≡ true
    → find_slot name fs ≡ some k
unfolding find_slot
find_slot-hit name fs k v lt a e = find_first_unique _ max_files k lt (rw (a, e)) λ j lj h.
    elim (Bool-cases (j == k)) [
      | inl same ↦ ground arith
      | inr other ↦ ground (
        arith,
        v.distinct j k lj lt (ground arith),
        names_equal_trans (fs.slots j).name name (fs.slots k).name,
        names_equal_comm name (fs.slots k).name,
      )
    ]

pub find_slot-miss :
    (name : Name) (fs : Ramfs)
    → ((k : ℕ)
        → k < max_files
        → (fs.slots k).alive ≡ true
        → names_equal (fs.slots k).name name ≡ false)
    → find_slot name fs ≡ none
unfolding find_slot
find_slot-miss name fs h =
    find_first-eq-none _ max_files 0 λ j lo hi. ground (arith, h j (omega arith))

-- States whose slots answer alike to a name find the same slot.
pub find_slot-congr :
    (name : Name) (fs gs : Ramfs)
    → ((k : ℕ)
        → k < max_files
        → ((fs.slots k).alive && names_equal (fs.slots k).name name)
          ≡ ((gs.slots k).alive && names_equal (gs.slots k).name name))
    → find_slot name fs ≡ find_slot name gs
unfolding find_slot
find_slot-congr name fs gs h = find_first-congr _ _ max_files 0 λ j lo hi. h j (omega arith)

-- An equal name finds the same slot, and a slot answers to equal names only.
pub find_slot-equal :
    (name other : Name) (fs : Ramfs) (k : ℕ)
    → IsValid fs
    → find_slot name fs ≡ some k
    → names_equal name other ≡ true
    → find_slot other fs ≡ some k
find_slot-equal name other fs k v found e =
    let (lt, a, at) = find_slot-some name fs k found in
    find_slot-hit other fs k v lt a (names_equal_trans _ name other at ∙ e)

pub find_slot-both :
    (name other : Name) (fs : Ramfs) (k : ℕ)
    → find_slot name fs ≡ some k
    → find_slot other fs ≡ some k
    → names_equal name other ≡ true
find_slot-both name other fs k p q =
    let (lt, a, at) = find_slot-some name fs k p in
    let (lt', a', at') = find_slot-some other fs k q in
    sym (names_equal_trans (fs.slots k).name name other at) ∙ at'
