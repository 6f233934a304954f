-- ===== src/Ramfs.antt =====
-- kernel/fs/ramfs.c with include/fs/ramfs.h: sixteen static slots, each dead or a named file of at
-- most 512 bytes. The static variables `slots` and `live_file_count` are the state that each
-- function takes and returns. A pointer that the code compares with 0 is an Option: of the memory
-- behind it, or of the value that the code may overwrite.
pub mod Names
pub mod NameLaws
pub mod Invariant
pub mod Lookup
pub mod Files
pub mod Slots
pub mod Calls
pub mod Model
pub mod Counts
pub mod Agree
pub mod Steps
pub mod Reads
pub mod Run
pub mod Validate
pub mod Listing
mod Examples
use tinyshell_os.Base.{
  ℕ, zero, suc, ◌+◌, ◌-◌, Bool, true, false, not, ◌&&◌, ◌||◌, Option, none, some, Array, write,
  each, loop, find_first, add32, sub32, ltb, leb, ◌==◌, if◌then◌else◌,
}
use Names.{Name, name_max, name_is_valid, names_equal, copy_name}

abbrev pub max_files : ℕ
max_files = 16

abbrev pub file_max_bytes : ℕ
file_max_bytes = 512

-- `enum ramfs_result`
pub data Result : Type 0 where
  ok invalid_argument invalid_name not_found already_exists no_space too_large : Result

-- `content` is the field `data` of the source.
pub record Slot : Type 0 where
  pub alive : Bool
  pub name : Name
  pub content : Array ℕ
  pub length : ℕ

pub record Ramfs : Type 0 where
  pub slots : Array Slot
  pub live_file_count : ℕ

pub record FileInfo : Type 0 where
  pub name : Name
  pub size : ℕ

pub clear_slot : Slot → Slot
clear_slot slot = record {
  alive = false;
  name = each (suc name_max) (λ _ _. 0) slot.name;
  content = each file_max_bytes (λ _ _. 0) slot.content;
  length = 0;
}

-- The slot that a pointer to it stands for is named by its index.
pub find_slot : Name → Ramfs → Option ℕ
find_slot name fs =
    find_first (λ i. (fs.slots i).alive && names_equal (fs.slots i).name name) max_files 0

pub find_empty_slot : Ramfs → Option ℕ
find_empty_slot fs = find_first (λ i. not (fs.slots i).alive) max_files 0

pub init : Ramfs → Ramfs
init fs = record {
  slots = each max_files (λ _ slot. clear_slot slot) fs.slots;
  live_file_count = 0;
}

-- The slot that `ramfs_create` leaves in place of an empty one.
pub created_slot : Name → Slot → Slot
created_slot name slot =
    let cleared = clear_slot slot in
    record cleared { alive = true; name = copy_name name (suc name_max) 0 cleared.name }

pub create : Option Name → Ramfs → Result × Ramfs
create none fs = (invalid_argument, fs)
create (some name) fs =
    if not (name_is_valid (some name)) then (invalid_name, fs) else elim (find_slot name fs) [
      | some _ ↦ (already_exists, fs)
      | none ↦ elim (find_empty_slot fs) [
        | none ↦ (no_space, fs)
        | some i ↦ (
          ok,
          record {
            slots = write fs.slots i (created_slot name (fs.slots i));
            live_file_count = add32 fs.live_file_count 1;
          },
        )
      ]
    ]

-- `data == 0 && length != 0`
abbrev pub lacks_data : Option (Array ℕ) → ℕ → Bool
lacks_data none length = not (length == 0)
lacks_data (some _) length = false

-- The memory behind a pointer that is read at no index if it is 0.
abbrev pub memory : Option (Array ℕ) → Array ℕ
memory none = λ _. 0
memory (some bytes) = bytes

pub written_slot : Array ℕ → ℕ → Slot → Slot
written_slot bytes length slot = record slot {
  content = each file_max_bytes (λ i _. if ltb i length then bytes i else 0) slot.content;
  length = length;
}

pub write_file : Option Name → Option (Array ℕ) → ℕ → Ramfs → Result × Ramfs
write_file none bytes length fs = (invalid_argument, fs)
write_file (some name) bytes length fs =
    if lacks_data bytes length
    then (invalid_argument, fs)
    else if not (name_is_valid (some name))
    then (invalid_name, fs)
    else elim (find_slot name fs) [
      | none ↦ (not_found, fs)
      | some i ↦ if ltb file_max_bytes length then (too_large, fs) else (
        ok,
        record fs { slots = write fs.slots i (written_slot (memory bytes) length (fs.slots i)) },
      )
    ]

pub appended_slot : Array ℕ → ℕ → Slot → Slot
appended_slot bytes length slot = record slot {
  content = loop length (λ i content. write content (slot.length + i) (bytes i)) slot.content;
  length = add32 slot.length length;
}

pub append : Option Name → Option (Array ℕ) → ℕ → Ramfs → Result × Ramfs
append none bytes length fs = (invalid_argument, fs)
append (some name) bytes length fs =
    if lacks_data bytes length
    then (invalid_argument, fs)
    else if not (name_is_valid (some name))
    then (invalid_name, fs)
    else elim (find_slot name fs) [
      | none ↦ (not_found, fs)
      | some i ↦
          if ltb (sub32 file_max_bytes (fs.slots i).length) length then (too_large, fs) else (
            ok,
            record fs {
              slots = write fs.slots i (appended_slot (memory bytes) length (fs.slots i));
            },
          )
    ]

-- What `ramfs_read` leaves in the caller's `data` and `*length`, beside its result.
pub record Read : Type 0 where
  pub result : Result
  pub bytes : Option (Array ℕ)
  pub length : Option ℕ

-- `data == 0 && (slot->length != 0 || capacity != 0)`
abbrev pub lacks_buffer : Option (Array ℕ) → ℕ → ℕ → Bool
lacks_buffer none length capacity = not (length == 0) || not (capacity == 0)
lacks_buffer (some _) length capacity = false

-- The copying loop; it has no rounds where the buffer is 0.
abbrev pub filled : Slot → Option (Array ℕ) → Option (Array ℕ)
filled slot none = none
filled slot (some bytes) = some (each slot.length (λ i _. slot.content i) bytes)

pub read : Option Name → Option (Array ℕ) → ℕ → Option ℕ → Ramfs → Read
read none bytes capacity length fs = record {
  result = invalid_argument;
  bytes = bytes;
  length = length;
}
read (some name) bytes capacity none fs = record {
  result = invalid_argument;
  bytes = bytes;
  length = none;
}
read (some name) bytes capacity (some length) fs =
    if not (name_is_valid (some name)) then fail invalid_name else elim (find_slot name fs) [
      | none ↦ fail not_found
      | some i ↦
          if lacks_buffer bytes (fs.slots i).length capacity
          then fail invalid_argument
          else if ltb capacity (fs.slots i).length
          then fail too_large
          else record {
            result = ok;
            bytes = filled (fs.slots i) bytes;
            length = some (fs.slots i).length;
          }
    ]
  where
    fail : Result → Read
    fail e = record { result = e; bytes = bytes; length = some length }

pub remove : Option Name → Ramfs → Result × Ramfs
remove none fs = (invalid_argument, fs)
remove (some name) fs =
    if not (name_is_valid (some name)) then (invalid_name, fs) else elim (find_slot name fs) [
      | none ↦ (not_found, fs)
      | some i ↦ (
        ok,
        record {
          slots = write fs.slots i (clear_slot (fs.slots i));
          live_file_count = sub32 fs.live_file_count 1;
        },
      )
    ]

abbrev pub count : Ramfs → ℕ
count fs = fs.live_file_count
