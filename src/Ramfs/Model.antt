-- ===== src/Ramfs/Model.antt =====
-- The abstract file system that kernel/fs/ramfs.c implements: a map from names to byte strings and
-- the number of files, with the same results.
use mathlib.Core.Option as Opt
use tinyshell_os.Base.{
  ℕ, ◌+◌, ◌-◌, not, Option, none, some, List, [], ◌∷◌, ◌++◌, Array, slice, length, ltb, leb,
  if◌then◌else◌,
}
use tinyshell_os.Ramfs.{
  Result, ok, invalid_argument, invalid_name, not_found, already_exists, no_space, too_large,
  max_files, file_max_bytes, lacks_data, lacks_buffer, memory,
}
use tinyshell_os.Ramfs.Names.{Name, name_is_valid, names_equal}
use tinyshell_os.Ramfs.Calls.{
  Call, creates, writes, appends, reads, removes, counts, Reply, done, got, counted, seen,
}

pub record Files : Type 0 where
  pub file : Name → Option (List ℕ)
  pub number : ℕ

-- The map with the entry of one name replaced, for every name that is equal to it.
abbrev pub assign : Files → Name → Option (List ℕ) → ℕ → Files
assign m name entry n = record {
  file = λ o. if names_equal name o then entry else m.file o;
  number = n;
}

unfoldable pub create_entry : Name → Files → Option (List ℕ) → Result × Files
create_entry name m (some _) = (already_exists, m)
create_entry name m none =
    if leb max_files m.number then (no_space, m) else (ok, assign m name (some []) (m.number + 1))

unfoldable pub create : Option Name → Files → Result × Files
create none m = (invalid_argument, m)
create (some name) m =
    if not (name_is_valid (some name)) then (invalid_name, m) else create_entry name m (m.file name)

unfoldable pub write_entry : Name → Array ℕ → ℕ → Files → Option (List ℕ) → Result × Files
write_entry name bytes n m none = (not_found, m)
write_entry name bytes n m (some _) =
    if ltb file_max_bytes n
    then (too_large, m)
    else (ok, assign m name (some (slice bytes 0 n)) m.number)

unfoldable pub write_file : Option Name → Option (Array ℕ) → ℕ → Files → Result × Files
write_file none bytes n m = (invalid_argument, m)
write_file (some name) bytes n m =
    if lacks_data bytes n
    then (invalid_argument, m)
    else if not (name_is_valid (some name))
    then (invalid_name, m)
    else write_entry name (memory bytes) n m (m.file name)

unfoldable pub append_entry : Name → Array ℕ → ℕ → Files → Option (List ℕ) → Result × Files
append_entry name bytes n m none = (not_found, m)
append_entry name bytes n m (some old) =
    if ltb file_max_bytes (length old + n)
    then (too_large, m)
    else (ok, assign m name (some (old ++ slice bytes 0 n)) m.number)

unfoldable pub append : Option Name → Option (Array ℕ) → ℕ → Files → Result × Files
append none bytes n m = (invalid_argument, m)
append (some name) bytes n m =
    if lacks_data bytes n
    then (invalid_argument, m)
    else if not (name_is_valid (some name))
    then (invalid_name, m)
    else append_entry name (memory bytes) n m (m.file name)

-- A successful read puts the file in front of what the buffer held behind it.
abbrev pub overlaid : ℕ → List ℕ → Option (Array ℕ) → Option (List ℕ)
overlaid capacity file = Opt.map λ bytes. file ++ slice bytes (length file) (capacity - length file)

unfoldable pub read_entry : Option (Array ℕ) → ℕ → ℕ → Option (List ℕ) → Reply
read_entry bytes capacity old none = got not_found (seen capacity bytes) (some old)
read_entry bytes capacity old (some file) =
    if lacks_buffer bytes (length file) capacity
    then got invalid_argument (seen capacity bytes) (some old)
    else if ltb capacity (length file)
    then got too_large (seen capacity bytes) (some old)
    else got ok (overlaid capacity file bytes) (some (length file))

unfoldable pub read : Option Name → Option (Array ℕ) → ℕ → Option ℕ → Files → Reply
read none bytes capacity out m = got invalid_argument (seen capacity bytes) out
read (some name) bytes capacity none m = got invalid_argument (seen capacity bytes) none
read (some name) bytes capacity (some old) m =
    if not (name_is_valid (some name))
    then got invalid_name (seen capacity bytes) (some old)
    else read_entry bytes capacity old (m.file name)

unfoldable pub remove_entry : Name → Files → Option (List ℕ) → Result × Files
remove_entry name m none = (not_found, m)
remove_entry name m (some _) = (ok, assign m name none (m.number - 1))

unfoldable pub remove : Option Name → Files → Result × Files
remove none m = (invalid_argument, m)
remove (some name) m =
    if not (name_is_valid (some name)) then (invalid_name, m) else remove_entry name m (m.file name)

unfoldable pub step : Files → Call → Reply × Files
step m (creates name) = let (r, m') = create name m in (done r, m')
step m (writes name bytes n) = let (r, m') = write_file name bytes n m in (done r, m')
step m (appends name bytes n) = let (r, m') = append name bytes n m in (done r, m')
step m (reads name bytes capacity out) = (read name bytes capacity out m, m)
step m (removes name) = let (r, m') = remove name m in (done r, m')
step m counts = (counted m.number, m)

unfoldable pub run : Files → List Call → List Reply
run m [] = []
run m (c ∷ cs) = let (r, m') = step m c in r ∷ run m' cs

abbrev pub empty : Files
empty = record { file = λ _. none; number = 0 }
