-- ===== src/Heap/Run.antt =====
-- No client of kernel/mm/heap.c can tell it from the list of blocks.
use tinyshell_os.Base.{
  ℕ, ◌≡◌, refl, subst, inl, inr, true, false, none, some, List, [], ◌∷◌, arith, write, Bool-cases,
  ◌==◌,
}
use tinyshell_os.Heap.{HeapStats, Heap, get_stats, validate, init}
use tinyshell_os.Heap.Layout.{Layout, IsArena, IsHeap, stats_of}
use tinyshell_os.Heap.Inspected.{inspect_heap-IsHeap}
use tinyshell_os.Heap.Chains.{live}
use tinyshell_os.Heap.Operations.{passes-IsHeap, kmalloc-malloc}
use tinyshell_os.Heap.Frees.{kfree-free, whole_arena, init-IsHeap}
use tinyshell_os.Heap.Zeroed.{IsHeap-live, kcalloc-calloc}
use tinyshell_os.Heap.Calls.{
  Call, mallocs, callocs, frees, asks_stats, validates, stores, word32, step, run,
}
use tinyshell_os.Heap.Answers.{answer, answers, blocks_after, Owns, Obeys}

get_stats_lem :
    (arena : ℕ) (s : Heap) (ls : Layout) (stats : HeapStats)
    → IsArena arena
    → IsHeap arena s ls
    → get_stats arena (some stats) s ≡ (true, some (stats_of ls))
unfolding get_stats
get_stats_lem arena s ls stats a h = rw (get_stats, inspect_heap-IsHeap arena s ls a h) refl

-- One call
step-answer :
    (arena : ℕ) (s : Heap) (ls : Layout) (c : Call)
    → IsArena arena
    → IsHeap arena s ls
    → Owns arena ls c
    → (s' : Heap) × (step arena s c ≡ some ((answer arena ls c).0, s'))
      × IsHeap arena s' (answer arena ls c).1
unfolding step answer
step-answer arena s ls (mallocs size) a h o =
    let (s', e, l) = kmalloc-malloc arena (word32 size) s ls a (omega arith) h in
    (s', rw e refl, l.heap)
step-answer arena s ls (callocs count size) a h o =
    let (s', e, l) = kcalloc-calloc arena (word32 count) (word32 size) s ls a h in
    (s', rw e refl, l.leaves.heap)
step-answer arena s ls (frees address) a h o =
    let (s', e, l) = kfree-free arena (word32 address) s ls a h in (s', rw e refl, l.heap)
step-answer arena s ls (asks_stats none) a h o = (s, unfold get_stats in refl, h)
step-answer arena s ls (asks_stats (some stats)) a h o =
    (s, rw (get_stats_lem arena s ls stats a h) refl, h)
step-answer arena s ls validates a h o =
    (s, unfold validate in rw (passes-IsHeap arena s ls a h) refl, h)
step-answer arena s ls (stores address value) a h o = (
  record s { memory = write s.memory address value },
  refl,
  IsHeap-live arena s (write s.memory address value) ls
      (λ x dead. elim (Bool-cases (x == address)) [
        | inl same ↦
            let e : x ≡ address = ground arith in
            absurd (
              let t : live arena ls address ≡ false = subst (λ y. live arena ls y ≡ false) e dead in
              cc)
        | inr other ↦ rw other refl
      ])
      h,
)

run-answers :
    (arena : ℕ) (s : Heap) (ls : Layout) (cs : List Call)
    → IsArena arena
    → IsHeap arena s ls
    → Obeys arena ls cs
    → (s' : Heap) × (run arena s cs ≡ some (answers arena ls cs, s'))
      × IsHeap arena s' (blocks_after arena ls cs)
unfolding run answers blocks_after
run-answers arena s ls [] a h o = (s, refl, h)
run-answers arena s ls (c ∷ cs) a h (o, os) =
    let (s1, e, h1) = step-answer arena s ls c a h o in
    let (s', k, h') = run-answers arena s1 (answer arena ls c).1 cs a h1 os in
    (s', rw (run, e, k) refl, h')

-- For an aligned arena that is not at address 0 and ends below 2^32: after `kheap_init`, whatever
-- the memory held before, any calls of kmalloc, kcalloc, kfree, kheap_get_stats and kheap_validate,
-- between which the clients write bytes into the payloads of allocated blocks only, all end, and get
-- the replies of a list of blocks. Of that list a request takes the first free block that is large
-- enough, cut to a multiple of sixteen bytes if what is left can be a block, and gets NULL if there
-- is none or for 0 bytes or too many; a release of the payload of an allocated block frees it and
-- joins it with its free neighbours, any other is refused; the statistics are those of the list,
-- and validation succeeds. The memory that is left holds the list's blocks.
pub run-init-answers :
    (arena : ℕ) (s : Heap) (cs : List Call)
    → IsArena arena
    → Obeys arena whole_arena cs
    → ((init arena s).0 ≡ true)
      × ((s' : Heap) × (run arena (init arena s).1 cs ≡ some (answers arena whole_arena cs, s'))
          × IsHeap arena s' (blocks_after arena whole_arena cs))
run-init-answers arena s cs a o =
    let (made, h) = init-IsHeap arena s a in
    (made, run-answers arena (init arena s).1 whole_arena cs a h o)
