-- ===== src/Ramfs/Agree.antt =====
-- Each operation of kernel/fs/ramfs.c keeps the invariant and acts as the abstract file system.
use tinyshell_os.Base.{
  ℕ, ◌+◌, ◌-◌, ◌≡◌, ◌∙◌, ap, ap₂, sym, true, none, some, arith, List, [], write, add32, sub32,
  if◌then◌else◌,
}
use tinyshell_os.Ramfs.{Slot, Ramfs, Result, find_slot, find_empty_slot, clear_slot, created_slot}
use tinyshell_os.Ramfs.Names.{Name, name_is_valid, names_equal}
use tinyshell_os.Ramfs.Invariant.{
  IsValid, IsSlot, write-IsValid, clear_slot-IsSlot, clear_slot-alive,
}
use tinyshell_os.Ramfs.Lookup.{find_slot-some, find_slot-none}
use tinyshell_os.Ramfs.NameLaws.{names_equal_trans, names_equal_comm}
use tinyshell_os.Ramfs.Files.{contents, lookup, lookup-replace, lookup-add, lookup-drop}
use tinyshell_os.Ramfs.Slots.{
  created_slot-alive, created_slot-name, created_slot-contents, created_slot-IsSlot,
}
use tinyshell_os.Ramfs.Counts.{count-le, count-pos, find_empty_slot-some}
use tinyshell_os.Ramfs.Model
use tinyshell_os.Ramfs.Model.{Files}

-- The state is valid and shows the files of `m`.
pub record Shows (fs : Ramfs) (m : Files) : Type 0 where
  pub valid : IsValid fs
  pub same_files : (o : Name) → lookup o fs ≡ m.file o
  pub same_number : fs.live_file_count ≡ m.number

-- An operation that returns the same result, and states that go on showing the same.
abbrev pub Agrees : Result × Ramfs → Result × Files → Type 0
Agrees (r, fs) (r', m) = (r ≡ r') × Shows fs m

-- The names of live slots other than the found one differ from it.
replaced-IsValid :
    (fs : Ramfs) (name : Name) (k : ℕ) (slot : Slot)
    → IsValid fs
    → find_slot name fs ≡ some k
    → IsSlot slot
    → slot.alive ≡ true
    → slot.name ≡ (fs.slots k).name
    → IsValid (record { slots = write fs.slots k slot; live_file_count = fs.live_file_count })
replaced-IsValid fs name k slot v found good alive same_name =
    let (lt, a, at) = find_slot-some name fs k found in
    write-IsValid fs k slot fs.live_file_count v lt good
      (λ j lj ne al bl. rw same_name (v.distinct k j lt lj (λ e. ne (sym e)) a bl)) (ground arith)

pub replace_agrees :
    (fs : Ramfs) (m : Files) (name : Name) (k : ℕ) (slot : Slot) (bytes : List ℕ)
    → Shows fs m
    → find_slot name fs ≡ some k
    → IsSlot slot
    → slot.alive ≡ true
    → slot.name ≡ (fs.slots k).name
    → contents slot ≡ bytes
    → Shows
        (record { slots = write fs.slots k slot; live_file_count = fs.live_file_count })
        (Model.assign m name (some bytes) m.number)
replace_agrees fs m name k slot bytes sh found good alive same_name holds = record {
  valid = replaced-IsValid fs name k slot sh.valid found good alive same_name;
  same_files = λ o.
      lookup-replace fs name k slot o sh.valid found alive same_name
      ∙ ap₂ (λ b l. if names_equal name o then some b else l) holds (sh.same_files o);
  same_number = sh.same_number;
}

pub add_agrees :
    (fs : Ramfs) (m : Files) (name : Name) (k : ℕ)
    → Shows fs m
    → name_is_valid (some name) ≡ true
    → find_slot name fs ≡ none
    → find_empty_slot fs ≡ some k
    → Shows
        (record {
          slots = write fs.slots k (created_slot name (fs.slots k));
          live_file_count = add32 fs.live_file_count 1;
        })
        (Model.assign m name (some []) (m.number + 1))
add_agrees fs m name k sh good missing free =
    let (lt, dead, room) = find_empty_slot-some fs k sh.valid free in
    let slot = created_slot name (fs.slots k) in
    let alive = created_slot-alive name (fs.slots k) in
    let count_eq : add32 fs.live_file_count 1 ≡ m.number + 1 = omega (arith, sh.same_number) in
    let v =
      write-IsValid fs k slot (add32 fs.live_file_count 1) sh.valid lt
        (created_slot-IsSlot name (fs.slots k) good)
        (λ j lj ne al bl.
          names_equal_trans slot.name name (fs.slots j).name
            (created_slot-name name (fs.slots k) good)
          ∙ names_equal_comm name (fs.slots j).name
          ∙ find_slot-none name fs j missing lj bl)
        (ground arith) in
    record {
      valid = v;
      same_files = λ o.
          lookup-add fs name k slot (add32 fs.live_file_count 1) o lt v missing dead alive
            (created_slot-name name (fs.slots k) good)
          ∙ ap₂ (λ b l. if names_equal name o then some b else l)
              (created_slot-contents name (fs.slots k)) (sh.same_files o);
      same_number = count_eq;
    }

pub drop_agrees :
    (fs : Ramfs) (m : Files) (name : Name) (k : ℕ)
    → Shows fs m
    → find_slot name fs ≡ some k
    → Shows
        (record {
          slots = write fs.slots k (clear_slot (fs.slots k));
          live_file_count = sub32 fs.live_file_count 1;
        })
        (Model.assign m name none (m.number - 1))
drop_agrees fs m name k sh found =
    let (lt, a, at) = find_slot-some name fs k found in
    let pos = count-pos fs k sh.valid lt a in
    let small = count-le fs sh.valid in
    let dead = clear_slot-alive (fs.slots k) in
    record {
      valid =
          write-IsValid fs k (clear_slot (fs.slots k)) (sub32 fs.live_file_count 1) sh.valid lt
            (clear_slot-IsSlot (fs.slots k)) (λ j lj ne al bl. cc dead) (ground arith);
      same_files = λ o.
          lookup-drop fs name k (clear_slot (fs.slots k)) (sub32 fs.live_file_count 1) o sh.valid
            found dead
          ∙ ap (λ l. if names_equal name o then none else l) (sh.same_files o);
      same_number = omega (arith, sh.same_number);
    }
