-- ===== src/Heap/Calls.antt =====
-- The calls that kernel/mm/heap.c takes, its clients' writes, and the replies.
use tinyshell_os.Base.{ℕ, ◌%◌, Bool, Option, none, some, List, [], ◌∷◌, write, word_mod}
use tinyshell_os.Heap.{HeapStats, Heap, kmalloc, kcalloc, kfree, get_stats, validate}

-- The numbers are taken as uint32_t. `stores` is a client's write of a byte.
pub data Call : Type 0 where
  mallocs : (size : ℕ) → Call
  callocs : (count size : ℕ) → Call
  frees : (address : ℕ) → Call
  asks_stats : Option HeapStats → Call
  validates : Call
  stores : (address value : ℕ) → Call

pub data Reply : Type 0 where
  pointer : ℕ → Reply
  told : Bool → Reply
  measured : Bool → Option HeapStats → Reply
  stored : Reply

abbrev pub word32 : ℕ → ℕ
word32 x = x % word_mod

abbrev reply : {A : Type 0} → (A → Reply) → Option (A × Heap) → Option (Reply × Heap)
reply f none = none
reply f (some (a, s)) = some (f a, s)

-- `none` if a loop of the call does not end
unfoldable pub step : ℕ → Heap → Call → Option (Reply × Heap)
step arena s (mallocs size) = reply pointer (kmalloc arena (word32 size) s)
step arena s (callocs count size) = reply pointer (kcalloc arena (word32 count) (word32 size) s)
step arena s (frees address) = reply told (kfree arena (word32 address) s)
step arena s (asks_stats stats) = let (b, out) = get_stats arena stats s in some (measured b out, s)
step arena s validates = some (told (validate arena s), s)
step arena s (stores address value) =
    some (stored, record s { memory = write s.memory address value })

abbrev consed : Reply → Option (List Reply × Heap) → Option (List Reply × Heap)
consed r none = none
consed r (some (rs, s)) = some (r ∷ rs, s)

-- The replies and the heap that is left
unfoldable pub run : ℕ → Heap → List Call → Option (List Reply × Heap)
run arena s [] = some ([], s)
run arena s (c ∷ cs) = elim (step arena s c) [
  | none ↦ none
  | some (r, s') ↦ consed r (run arena s' cs)
]
