-- ===== src/Ramfs/Reads.antt =====
-- `ramfs_read` of kernel/fs/ramfs.c returns the file of the abstract file system, and leaves the
-- rest of the buffer alone.
use tinyshell_os.Base.{
  ℕ, ◌+◌, ◌-◌, ◌≤◌, ◌≡◌, refl, ◌∙◌, ap, ap₂, inl, inr, Bool-cases, Option-cases, Option, none, some,
  arith, Array, ◌++◌, slice, length-slice, each, each_lem, slice-append, slice-ext, slice-eq-slice,
  ltb,
}
use tinyshell_os.Ramfs.{Slot, Ramfs, find_slot, read, lacks_buffer, filled, ok}
use tinyshell_os.Ramfs.Names.{Name, name_is_valid}
use tinyshell_os.Ramfs.Files.{contents}
use tinyshell_os.Ramfs.Agree.{Shows}
use tinyshell_os.Ramfs.Steps.{file-some, file-none}
use tinyshell_os.Ramfs.Calls.{got, seen}
use tinyshell_os.Ramfs.Model
use tinyshell_os.Ramfs.Model.{Files}

overlay :
    (slot : Slot) (bytes : Array ℕ) (capacity : ℕ)
    → slot.length ≤ capacity
    → slice (each slot.length (λ i _. slot.content i) bytes) 0 capacity
      ≡ contents slot ++ slice bytes slot.length (capacity - slot.length)
overlay slot bytes capacity fits =
    let after = each slot.length (λ i _. slot.content i) bytes in
    let total : capacity ≡ slot.length + (capacity - slot.length) = omega arith in
    ap (slice after 0) total
    ∙ slice-append after 0 slot.length (capacity - slot.length)
    ∙ ap₂ ◌++◌
        (slice-ext after slot.content 0 slot.length
          λ j lt. ground (arith, each_lem slot.length (λ i _. slot.content i) bytes (0 + j)))
        (slice-eq-slice after bytes (0 + slot.length) slot.length (capacity - slot.length)
          λ j lt. behind j)
  where
    behind :
        (j : ℕ)
        → each slot.length (λ i _. slot.content i) bytes (0 + slot.length + j)
          ≡ bytes (slot.length + j)
    behind j =
        let e : 0 + slot.length + j ≡ slot.length + j = omega arith in
        rw e (ground (arith, each_lem slot.length (λ i _. slot.content i) bytes (slot.length + j)))

seen-filled :
    (slot : Slot) (bytes : Option (Array ℕ)) (capacity : ℕ)
    → slot.length ≤ capacity
    → seen capacity (filled slot bytes) ≡ Model.overlaid capacity (contents slot) bytes
seen-filled slot none capacity fits = refl
seen-filled slot (some bytes) capacity fits =
    rw (length-slice slot.content 0 slot.length) (ap some (overlay slot bytes capacity fits))

pub read_agrees :
    (fs : Ramfs) (m : Files) (name : Option Name) (bytes : Option (Array ℕ)) (capacity : ℕ)
    (out : Option ℕ)
    → Shows fs m
    → let r = read name bytes capacity out fs in
      got r.result (seen capacity r.bytes) r.length ≡ Model.read name bytes capacity out m
unfolding read Model.read Model.read_entry
read_agrees fs m none bytes capacity out sh = refl
read_agrees fs m (some name) bytes capacity none sh = refl
read_agrees fs m (some name) bytes capacity (some old) sh =
    elim (Bool-cases (name_is_valid (some name))) [
      | inr bad ↦ rw bad
      | inl good ↦ elim (Option-cases (find_slot name fs)) [
        | inl missing ↦ rw (good, missing, file-none fs m name sh missing)
        | inr (k, found) ↦
            let slot = fs.slots k in
            let size = length-slice slot.content 0 slot.length in
            let entry = file-some fs m name k sh found in
            elim (Bool-cases (lacks_buffer bytes slot.length capacity)) [
              | inl lacking ↦ rw (good, found, entry, size, lacking)
              | inr given ↦ elim (Bool-cases (ltb capacity slot.length)) [
                | inl small ↦ rw (good, found, entry, size, given, small)
                | inr fits ↦
                    rw (good, found, entry, size, given, fits)
                      (rw size at (
                        ap (λ b. got ok b (some slot.length))
                          (seen-filled slot bytes capacity (ground arith))))
              ]
            ]
      ]
    ]
