-- ===== src/Ramfs/Calls.antt =====
-- Sequences of calls of kernel/fs/ramfs.c, and what a client sees of each.
use mathlib.Core.Option as Opt
use tinyshell_os.Base.{ℕ, Option, List, [], ◌∷◌, Array, slice}
use tinyshell_os.Ramfs.{Ramfs, Result, create, write_file, append, read, remove, count}
use tinyshell_os.Ramfs.Names.{Name}

pub data Call : Type 0 where
  creates : Option Name → Call
  writes : Option Name → Option (Array ℕ) → ℕ → Call
  appends : Option Name → Option (Array ℕ) → ℕ → Call
  reads : Option Name → Option (Array ℕ) → ℕ → Option ℕ → Call
  removes : Option Name → Call
  counts : Call

-- Of a read a client sees the first `capacity` bytes of its buffer and its `*length`.
pub data Reply : Type 0 where
  done : Result → Reply
  got : Result → Option (List ℕ) → Option ℕ → Reply
  counted : ℕ → Reply

abbrev pub seen : ℕ → Option (Array ℕ) → Option (List ℕ)
seen capacity = Opt.map λ bytes. slice bytes 0 capacity

unfoldable pub step : Ramfs → Call → Reply × Ramfs
step fs (creates name) = let (r, fs') = create name fs in (done r, fs')
step fs (writes name bytes length) = let (r, fs') = write_file name bytes length fs in (done r, fs')
step fs (appends name bytes length) = let (r, fs') = append name bytes length fs in (done r, fs')
step fs (reads name bytes capacity length) =
    let out = read name bytes capacity length fs in
    (got out.result (seen capacity out.bytes) out.length, fs)
step fs (removes name) = let (r, fs') = remove name fs in (done r, fs')
step fs counts = (counted (count fs), fs)

unfoldable pub run : Ramfs → List Call → List Reply
run fs [] = []
run fs (c ∷ cs) = let (r, fs') = step fs c in r ∷ run fs' cs

unfoldable pub after : Ramfs → List Call → Ramfs
after fs [] = fs
after fs (c ∷ cs) = after (step fs c).1 cs
