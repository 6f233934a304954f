-- ===== src/Ramfs/Steps.antt =====
-- Each operation of kernel/fs/ramfs.c returns what the abstract file system returns.
use tinyshell_os.Base.{
  ℕ, ◌+◌, ◌≤◌, ◌≡◌, refl, ◌∙◌, sym, inl, inr, Bool-cases, Option-cases, true, false, Option, none,
  some, arith, Array, ◌++◌, write, slice, length, length-slice, sub32, ltb, leb,
}
use tinyshell_os.Ramfs.{
  Ramfs, max_files, file_max_bytes, find_slot, find_empty_slot, written_slot, appended_slot, create,
  write_file, append, remove, lacks_data, memory,
}
use tinyshell_os.Ramfs.Names.{Name, name_is_valid}
use tinyshell_os.Ramfs.Lookup.{find_slot-some}
use tinyshell_os.Ramfs.Files.{contents, lookup-some, lookup-none}
use tinyshell_os.Ramfs.Slots.{
  written_slot-alive, written_slot-name, appended_slot-alive, appended_slot-name,
  written_slot-IsSlot, written_slot-contents, appended_slot-IsSlot, appended_slot-contents,
}
use tinyshell_os.Ramfs.Counts.{find_empty_slot-none, find_empty_slot-some}
use tinyshell_os.Ramfs.Agree.{Shows, Agrees, replace_agrees, add_agrees, drop_agrees}
use tinyshell_os.Ramfs.Model
use tinyshell_os.Ramfs.Model.{Files}

pub file-some :
    (fs : Ramfs) (m : Files) (name : Name) (k : ℕ)
    → Shows fs m
    → find_slot name fs ≡ some k
    → m.file name ≡ some (contents (fs.slots k))
file-some fs m name k sh found = sym (sh.same_files name) ∙ lookup-some name fs k found

pub file-none :
    (fs : Ramfs) (m : Files) (name : Name)
    → Shows fs m
    → find_slot name fs ≡ none
    → m.file name ≡ none
file-none fs m name sh missing = sym (sh.same_files name) ∙ lookup-none name fs missing

pub create-Agrees :
    (fs : Ramfs) (m : Files) (name : Option Name)
    → Shows fs m
    → Agrees (create name fs) (Model.create name m)
unfolding create Model.create Model.create_entry
create-Agrees fs m none sh = (refl, sh)
create-Agrees fs m (some name) sh = elim (Bool-cases (name_is_valid (some name))) [
  | inr bad ↦ rw bad (refl, sh)
  | inl good ↦ elim (Option-cases (find_slot name fs)) [
    | inr (k, found) ↦
        rw (good, found, file-some fs m name k sh found, Model.create_entry) (refl, sh)
    | inl missing ↦ elim (Option-cases (find_empty_slot fs)) [
      | inl full ↦
          let at_limit : leb max_files m.number ≡ true =
            ground (arith, sh.same_number, find_empty_slot-none fs sh.valid full) in
          rw (good, missing, full, file-none fs m name sh missing, Model.create_entry, at_limit)
            (refl, sh)
      | inr (k, free) ↦
          let below : leb max_files m.number ≡ false =
            ground (arith, sh.same_number, find_empty_slot-some fs k sh.valid free) in
          rw (good, missing, free, file-none fs m name sh missing, Model.create_entry, below)
            (refl, add_agrees fs m name k sh good missing free)
    ]
  ]
]

pub remove-Agrees :
    (fs : Ramfs) (m : Files) (name : Option Name)
    → Shows fs m
    → Agrees (remove name fs) (Model.remove name m)
unfolding remove Model.remove Model.remove_entry
remove-Agrees fs m none sh = (refl, sh)
remove-Agrees fs m (some name) sh = elim (Bool-cases (name_is_valid (some name))) [
  | inr bad ↦ rw bad (refl, sh)
  | inl good ↦ elim (Option-cases (find_slot name fs)) [
    | inl missing ↦ rw (good, missing, file-none fs m name sh missing) (refl, sh)
    | inr (k, found) ↦
        rw (good, found, file-some fs m name k sh found) (refl, drop_agrees fs m name k sh found)
  ]
]

-- The file that `ramfs_write` overwrites.
overwrite_agrees :
    (fs : Ramfs) (m : Files) (name : Name) (bytes : Array ℕ) (n k : ℕ)
    → Shows fs m
    → n ≤ file_max_bytes
    → find_slot name fs ≡ some k
    → Shows
        (record fs { slots = write fs.slots k (written_slot bytes n (fs.slots k)) })
        (Model.assign m name (some (slice bytes 0 n)) m.number)
overwrite_agrees fs m name bytes n k sh fits found =
    let (lt, a, at) = find_slot-some name fs k found in
    replace_agrees fs m name k (written_slot bytes n (fs.slots k)) (slice bytes 0 n) sh found
      (written_slot-IsSlot bytes n (fs.slots k) fits a (sh.valid.each_slot k lt))
      (written_slot-alive bytes n (fs.slots k) ∙ a) (written_slot-name bytes n (fs.slots k))
      (written_slot-contents bytes n (fs.slots k) fits)

pub write_file-Agrees :
    (fs : Ramfs) (m : Files) (name : Option Name) (bytes : Option (Array ℕ)) (n : ℕ)
    → Shows fs m
    → Agrees (write_file name bytes n fs) (Model.write_file name bytes n m)
unfolding write_file Model.write_file Model.write_entry
write_file-Agrees fs m none bytes n sh = (refl, sh)
write_file-Agrees fs m (some name) bytes n sh = elim (Bool-cases (lacks_data bytes n)) [
  | inl lacking ↦ rw lacking (refl, sh)
  | inr given ↦ elim (Bool-cases (name_is_valid (some name))) [
    | inr bad ↦ rw (given, bad) (refl, sh)
    | inl good ↦ elim (Option-cases (find_slot name fs)) [
      | inl missing ↦ rw (given, good, missing, file-none fs m name sh missing) (refl, sh)
      | inr (k, found) ↦ elim (Bool-cases (ltb file_max_bytes n)) [
        | inl large ↦ rw (given, good, found, file-some fs m name k sh found, large) (refl, sh)
        | inr fits ↦
            rw (given, good, found, file-some fs m name k sh found, fits)
              (refl, overwrite_agrees fs m name (memory bytes) n k sh (ground arith) found)
      ]
    ]
  ]
]

extend_agrees :
    (fs : Ramfs) (m : Files) (name : Name) (bytes : Array ℕ) (n k : ℕ)
    → Shows fs m
    → (fs.slots k).length + n ≤ file_max_bytes
    → find_slot name fs ≡ some k
    → Shows
        (record fs { slots = write fs.slots k (appended_slot bytes n (fs.slots k)) })
        (Model.assign m name (some (contents (fs.slots k) ++ slice bytes 0 n)) m.number)
extend_agrees fs m name bytes n k sh fits found =
    let (lt, a, at) = find_slot-some name fs k found in
    replace_agrees fs m name k (appended_slot bytes n (fs.slots k))
      (contents (fs.slots k) ++ slice bytes 0 n) sh found
      (appended_slot-IsSlot bytes n (fs.slots k) fits a (sh.valid.each_slot k lt))
      (appended_slot-alive bytes n (fs.slots k) ∙ a) (appended_slot-name bytes n (fs.slots k))
      (appended_slot-contents bytes n (fs.slots k) fits)

pub append-Agrees :
    (fs : Ramfs) (m : Files) (name : Option Name) (bytes : Option (Array ℕ)) (n : ℕ)
    → Shows fs m
    → Agrees (append name bytes n fs) (Model.append name bytes n m)
unfolding append Model.append Model.append_entry
append-Agrees fs m none bytes n sh = (refl, sh)
append-Agrees fs m (some name) bytes n sh = elim (Bool-cases (lacks_data bytes n)) [
  | inl lacking ↦ rw lacking (refl, sh)
  | inr given ↦ elim (Bool-cases (name_is_valid (some name))) [
    | inr bad ↦ rw (given, bad) (refl, sh)
    | inl good ↦ elim (Option-cases (find_slot name fs)) [
      | inl missing ↦ rw (given, good, missing, file-none fs m name sh missing) (refl, sh)
      | inr (k, found) ↦
          let (lt, a, at) = find_slot-some name fs k found in
          let short = (sh.valid.each_slot k lt).short a in
          let size = length-slice (fs.slots k).content 0 (fs.slots k).length in
          elim (Bool-cases (ltb (sub32 file_max_bytes (fs.slots k).length) n)) [
            | inl large ↦
                let over : ltb file_max_bytes (length (contents (fs.slots k)) + n) ≡ true =
                  rw size (ground arith) in
                rw (given, good, found, file-some fs m name k sh found, large, over) (refl, sh)
            | inr fits ↦
                let under : ltb file_max_bytes (length (contents (fs.slots k)) + n) ≡ false =
                  rw size (ground arith) in
                rw (given, good, found, file-some fs m name k sh found, fits, under)
                  (refl, extend_agrees fs m name (memory bytes) n k sh (ground arith) found)
          ]
    ]
  ]
]
