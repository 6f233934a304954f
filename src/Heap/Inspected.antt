-- ===== src/Heap/Inspected.antt =====
-- The outcome of `inspect_heap` of kernel/mm/heap.c on a list of blocks.
use tinyshell_os.Base.{
  ℕ, ◌+◌, ◌-◌, ◌*◌, ◌≤◌, ◌≡◌, ◌∙◌, true, false, some, [], ◌∷◌, length, arith, add32, word_max, ltb,
  ◌==◌,
}
use tinyshell_os.Heap.{
  arena_size, alignment, header_size, Heap, Inspection, max_of, inspect_blocks, totals_agree,
  fresh_inspection, checked, inspect_heap,
}
use tinyshell_os.Heap.Bytes.{Memory}
use tinyshell_os.Heap.Layout.{Piece, Layout, Chain, IsArena, IsHeap, stats_of}
use tinyshell_os.Heap.Inspect.{inspect_blocks-Chain, Finished, Reached, Tallied}

pub Chain-length :
    (m : Memory) (end prev p : ℕ) (ls : Layout)
    → Chain m end prev p ls
    → p + (header_size + alignment) * length ls ≤ end
Chain-length m end prev p [] c = omega arith
Chain-length m end prev p (b ∷ bs) (is, c) =
    omega (arith, Chain-length m end p (p + header_size + b.size) bs c, is.enough)

fresh-Tallied : (arena : ℕ) → Tallied arena (fresh_inspection arena)
fresh-Tallied arena = record {
  passed = omega arith;
  free_within = omega arith;
  largest_within = omega arith;
  blocks_within = omega arith;
}

checked_lem :
    (arena : ℕ) (b : Piece) (bs : Layout) (i : Inspection)
    → IsArena arena
    → Finished arena (arena + arena_size) i
    → Reached (fresh_inspection arena) (b ∷ bs) i
    → checked i ≡ some (stats_of (b ∷ bs))
unfolding checked totals_agree stats_of max_of
checked_lem arena b bs i a f r = ground (
  arith, f.all_passed, f.some_block, f.free_in_all, f.largest_in_all, r.total_same, r.free_after,
  r.largest_after, r.used_after,
)

inspect_heap-checked :
    (arena : ℕ) (s : Heap) (i : Inspection)
    → IsArena arena
    → s.heap_initialized ≡ true
    → s.first_block ≡ arena
    → inspect_blocks (arena + arena_size) 8192 s.memory (fresh_inspection arena) ≡ some i
    → inspect_heap arena s ≡ checked i
unfolding inspect_heap
inspect_heap-checked arena s i a ready first e =
    let end : add32 arena arena_size ≡ arena + arena_size = omega (arith, a.ends) in
    let high : ltb (word_max - arena_size) arena ≡ false = ground (arith, a.ends) in
    let same : (arena == arena) ≡ true = ground arith in simp (ready, first, same, high, end, e)

-- A heap passes the inspection, which measures its blocks.
pub inspect_heap-IsHeap :
    (arena : ℕ) (s : Heap) (ls : Layout)
    → IsArena arena
    → IsHeap arena s ls
    → inspect_heap arena s ≡ some (stats_of ls)
inspect_heap-IsHeap arena s [] a h = absurd (omega (arith, h.chain))
inspect_heap-IsHeap arena s (b ∷ bs) a h =
    let (i, e, r, f) =
      inspect_blocks-Chain arena (arena + arena_size) s.memory a.ends 8192 (fresh_inspection arena)
        b bs (fresh-Tallied arena) a.lines_up
        (omega (arith, Chain-length s.memory (arena + arena_size) 0 arena (b ∷ bs) h.chain))
        h.apart_free h.chain in
    inspect_heap-checked arena s i a h.ready h.first e ∙ checked_lem arena b bs i a f r
