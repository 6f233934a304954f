-- ===== src/Heap/Answers.antt =====
-- The replies that a list of blocks gives to the calls of kernel/mm/heap.c.
use tinyshell_os.Base.{ℕ, ◌≡◌, true, false, Option, none, some, List, [], ◌∷◌}
use tinyshell_os.Heap.{HeapStats}
use tinyshell_os.Heap.Layout.{Layout, stats_of}
use tinyshell_os.Heap.Chains.{live}
use tinyshell_os.Heap.Model.{malloc, calloc, free}
use tinyshell_os.Heap.Calls.{
  Call, mallocs, callocs, frees, asks_stats, validates, stores, Reply, pointer, told, measured,
  stored, word32,
}

abbrev pub stats_into : Option HeapStats → Layout → Reply
stats_into none ls = measured false none
stats_into (some _) ls = measured true (some (stats_of ls))

unfoldable pub answer : ℕ → Layout → Call → Reply × Layout
answer arena ls (mallocs size) = let (a, ls') = malloc arena (word32 size) ls in (pointer a, ls')
answer arena ls (callocs count size) =
    let (a, ls') = calloc arena (word32 count) (word32 size) ls in (pointer a, ls')
answer arena ls (frees address) = let (b, ls') = free arena (word32 address) ls in (told b, ls')
answer arena ls (asks_stats stats) = (stats_into stats ls, ls)
answer arena ls validates = (told true, ls)
answer arena ls (stores address value) = (stored, ls)

unfoldable pub answers : ℕ → Layout → List Call → List Reply
answers arena ls [] = []
answers arena ls (c ∷ cs) = let (r, ls') = answer arena ls c in r ∷ answers arena ls' cs

-- The blocks after the calls
unfoldable pub blocks_after : ℕ → Layout → List Call → Layout
blocks_after arena ls [] = ls
blocks_after arena ls (c ∷ cs) = blocks_after arena (answer arena ls c).1 cs

-- A client writes into allocated payloads only.
abbrev pub Owns : ℕ → Layout → Call → Type 0
Owns arena ls (stores address value) = live arena ls address ≡ true
Owns arena ls _ = Unit {0}

abbrev pub Obeys : ℕ → Layout → List Call → Type 0
Obeys arena ls [] = Unit {0}
Obeys arena ls (c ∷ cs) = Owns arena ls c × Obeys arena (answer arena ls c).1 cs
