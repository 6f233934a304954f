-- ===== src/Ramfs/Run.antt =====
-- No client of kernel/fs/ramfs.c can tell it from the abstract file system.
use tinyshell_os.Base.{◌≡◌, refl, ap, ap₂, arith, List, [], ◌∷◌}
use tinyshell_os.Ramfs.{Ramfs, init}
use tinyshell_os.Ramfs.Invariant.{IsValid, init-IsValid, init-dead, init-count}
use tinyshell_os.Ramfs.Lookup.{find_slot-miss}
use tinyshell_os.Ramfs.Files.{lookup-none}
use tinyshell_os.Ramfs.Agree.{Shows}
use tinyshell_os.Ramfs.Steps.{create-Agrees, write_file-Agrees, append-Agrees, remove-Agrees}
use tinyshell_os.Ramfs.Reads.{read_agrees}
use tinyshell_os.Ramfs.Calls.{
  Call, creates, writes, appends, reads, removes, counts, done, counted, step, run, after,
}
use tinyshell_os.Ramfs.Model
use tinyshell_os.Ramfs.Model.{Files, empty}

init-Shows : (fs : Ramfs) → Shows (init fs) empty
init-Shows fs = record {
  valid = init-IsValid fs;
  same_files = λ o.
      lookup-none o (init fs)
        (find_slot-miss o (init fs) λ k lt a. ground (arith, init-dead fs k lt));
  same_number = init-count fs;
}

step_agrees :
    (fs : Ramfs) (m : Files) (c : Call)
    → Shows fs m
    → ((step fs c).0 ≡ (Model.step m c).0) × Shows (step fs c).1 (Model.step m c).1
unfolding step Model.step
step_agrees fs m (creates name) sh = let (r, sh') = create-Agrees fs m name sh in (ap done r, sh')
step_agrees fs m (writes name bytes n) sh =
    let (r, sh') = write_file-Agrees fs m name bytes n sh in (ap done r, sh')
step_agrees fs m (appends name bytes n) sh =
    let (r, sh') = append-Agrees fs m name bytes n sh in (ap done r, sh')
step_agrees fs m (reads name bytes capacity out) sh =
    (read_agrees fs m name bytes capacity out sh, sh)
step_agrees fs m (removes name) sh = let (r, sh') = remove-Agrees fs m name sh in (ap done r, sh')
step_agrees fs m counts sh = (ap counted sh.same_number, sh)

run_agrees : (fs : Ramfs) (m : Files) (cs : List Call) → Shows fs m → run fs cs ≡ Model.run m cs
unfolding run Model.run
run_agrees fs m [] sh = refl
run_agrees fs m (c ∷ cs) sh =
    let (r, sh') = step_agrees fs m c sh in
    ap₂ ◌∷◌ r (run_agrees (step fs c).1 (Model.step m c).1 cs sh')

after_agrees : (fs : Ramfs) (m : Files) (cs : List Call) → Shows fs m → IsValid (after fs cs)
unfolding after
after_agrees fs m [] sh = sh.valid
after_agrees fs m (c ∷ cs) sh =
    after_agrees (step fs c).1 (Model.step m c).1 cs (step_agrees fs m c sh).1

-- After `ramfs_init`, whatever the slots held before, every sequence of ramfs_create, ramfs_write,
-- ramfs_append, ramfs_read, ramfs_remove and ramfs_count calls returns what a map from names to
-- byte strings with at most sixteen entries returns, names being equal when `names_equal` says so:
-- each call has the same result code, a read leaves the same bytes and length with its caller, and
-- the count is the number of entries.
pub run-init-Model : (fs : Ramfs) (cs : List Call) → run (init fs) cs ≡ Model.run empty cs
run-init-Model fs cs = run_agrees (init fs) empty cs (init-Shows fs)

pub after-init-IsValid : (fs : Ramfs) (cs : List Call) → IsValid (after (init fs) cs)
after-init-IsValid fs cs = after_agrees (init fs) empty cs (init-Shows fs)
