-- ===== src/Heap/Sound.antt =====
-- What `inspect_heap` accepts is a heap.
use tinyshell_os.Base.{
  ℕ, zero, suc, ◌+◌, ◌-◌, ◌%◌, ◌≤◌, ◌<◌, ◌≡◌, refl, ap, sym, ◌∙◌, ◌↔◌, inl, inr, true, false, not,
  ◌&&◌, ◌||◌, none, some, [], ◌∷◌, arith, Bool-cases, Option-cases, add32, word_mod, word_max, ltb,
  ◌==◌, if◌then◌else◌,
}
use tinyshell_os.Heap.{
  arena_size, alignment, block_free, block_allocated, block_magic, header_size, Block, HeapStats,
  Heap, block_at, Inspection, is_free, block_is_sound, counters_fit, advanced, Round, refused,
  broken, continued, inspect_block, inspect_blocks, fresh_inspection, inspect_heap,
}
use tinyshell_os.Heap.Bytes.{Memory}
use tinyshell_os.Heap.Blocks.{Block-eq}
use tinyshell_os.Heap.Layout.{
  Piece, Layout, link, header_of, Chain, separated, IsArena, IsHeap, stats_of,
}
use tinyshell_os.Heap.Inspected.{inspect_heap-IsHeap}

abbrev piece_of : Block → Piece
piece_of b = record { free = is_free b; size = b.payload_size }

-- What the tests on a block say
record Passed (end : ℕ) (b : Block) (i : Inspection) : Type 0 where
  magic_right : b.magic ≡ block_magic
  state_right : b.state ≡ (if is_free b then block_free else block_allocated)
  previous_right : b.previous ≡ i.preceding
  size_enough : alignment ≤ b.payload_size
  size_whole : b.payload_size % alignment ≡ 0
  size_fits : i.cursor + header_size + b.payload_size ≤ end
  no_two_free : (i.preceding_was_free && is_free b) ≡ false

passed :
    (end : ℕ) (b : Block) (i : Inspection)
    → end < word_mod
    → arena_size ≤ end
    → block_is_sound end b i ≡ true
    → counters_fit b i ≡ true
    → Passed end b i
unfolding block_is_sound counters_fit
passed end b i top low h k = ground arith

inspect_block-broken :
    (end : ℕ) (b : Block) (i : Inspection)
    → inspect_block end b i ≡ broken
    → (block_is_sound end b i ≡ true)
      × (counters_fit b i ≡ true)
      × (b.next ≡ 0)
      × (add32 (add32 i.cursor header_size) b.payload_size ≡ end)
unfolding inspect_block
inspect_block-broken end b i h = ground arith

inspect_block-continued :
    (end : ℕ) (b : Block) (i : Inspection)
    → inspect_block end b i ≡ continued
    → (block_is_sound end b i ≡ true)
      × (counters_fit b i ≡ true)
      × (add32 (add32 i.cursor header_size) b.payload_size < end)
      × (b.next ≡ add32 (add32 i.cursor header_size) b.payload_size)
unfolding inspect_block
inspect_block-continued end b i h = ground arith

header-eq :
    (end : ℕ) (b : Block) (i : Inspection)
    → Passed end b i
    → b.next ≡ link end (i.cursor + header_size + b.payload_size)
    → b ≡ header_of end i.preceding i.cursor (piece_of b)
header-eq end b i p e =
    Block-eq b (header_of end i.preceding i.cursor (piece_of b)) p.magic_right p.state_right refl
      p.previous_right e

abbrev Passes : ℕ → Memory → Inspection → Type 0
Passes end m i =
    (ls : Layout) × Chain m end i.preceding i.cursor ls × (separated i.preceding_was_free ls ≡ true)

-- A round, and what is known of the rounds behind it
round_sound :
    (end n : ℕ) (m : Memory) (i i' : Inspection) (r : Round)
    → end < word_mod
    → arena_size ≤ end
    → inspect_block end (block_at m i.cursor) i ≡ r
    → (inspect_blocks end n m (advanced (block_at m i.cursor) i) ≡ some i'
        → Passes end m (advanced (block_at m i.cursor) i))
    → inspect_blocks end (suc n) m i ≡ some i'
    → Passes end m i
unfolding inspect_blocks advanced
round_sound end n m i i' refused top low e rest h =
    absurd (let t : none ≡ some i' = rw (inspect_blocks, e) at h in cc)
round_sound end n m i i' broken top low e rest h =
    let b = block_at m i.cursor in
    let (s, k, nx, q) = inspect_block-broken end b i e in
    let p = passed end b i top low s k in
    let at_end : i.cursor + header_size + b.payload_size ≡ end = omega (arith, p.size_fits) in
    (
      piece_of b ∷ [],
      (
        record {
          header = header-eq end b i p (nx ∙ ground arith);
          enough = p.size_enough;
          whole = p.size_whole;
        },
        at_end,
      ),
      rw p.no_two_free refl,
    )
round_sound end n m i i' continued top low e rest h =
    let b = block_at m i.cursor in
    let (s, k, q, nx) = inspect_block-continued end b i e in
    let p = passed end b i top low s k in
    let on : add32 (add32 i.cursor header_size) b.payload_size
        ≡ i.cursor + header_size + b.payload_size =
      omega (arith, p.size_fits) in
    let (ls, c, apart) = rest (rw (inspect_blocks, e) at h) in
    (
      piece_of b ∷ ls,
      (
        record {
          header = header-eq end b i p (nx ∙ ground arith);
          enough = p.size_enough;
          whole = p.size_whole;
        },
        rw on at c,
      ),
      rw p.no_two_free apart,
    )

-- The blocks that the loop has passed from here on
inspect_blocks_sound :
    (end n : ℕ) (m : Memory) (i i' : Inspection)
    → end < word_mod
    → arena_size ≤ end
    → inspect_blocks end n m i ≡ some i'
    → Passes end m i
unfolding inspect_blocks
inspect_blocks_sound end zero m i i' top low h = cc
inspect_blocks_sound end (suc n) m i i' top low h =
    round_sound end n m i i' (inspect_block end (block_at m i.cursor) i) top low refl
      (inspect_blocks_sound end n m (advanced (block_at m i.cursor) i) i' top low) h

started :
    (arena : ℕ) (s : Heap) (st : HeapStats)
    → IsArena arena
    → inspect_heap arena s ≡ some st
    → (s.heap_initialized ≡ true)
      × (s.first_block ≡ arena)
      × ((i : Inspection) × (inspect_blocks
              (arena + arena_size)
              8192
              s.memory
              (fresh_inspection arena)
            ≡ some i))
unfolding inspect_heap
started arena s st a h =
    let end : add32 arena arena_size ≡ arena + arena_size = omega (arith, a.ends) in
    elim (Bool-cases (
      not s.heap_initialized
      || (not (s.first_block == arena) || ltb (word_max - arena_size) arena))) [
        | inl bad ↦ absurd (let t : none ≡ some st = rw (bad) at h in cc)
        | inr good ↦
            elim (Option-cases
              (inspect_blocks (arena + arena_size) 8192 s.memory (fresh_inspection arena))) [
                | inl e ↦ absurd (let t : none ≡ some st = rw (good, end, e) at h in cc)
                | inr (i, e) ↦ (ground arith, ground arith, (i, e))
              ]
      ]

-- An accepted memory holds a heap of blocks, with the statistics that it gets.
pub inspect_heap_sound :
    (arena : ℕ) (s : Heap) (st : HeapStats)
    → IsArena arena
    → inspect_heap arena s ≡ some st
    → (ls : Layout) × IsHeap arena s ls × (st ≡ stats_of ls)
inspect_heap_sound arena s st a h =
    let (ready, first, (i, e)) = started arena s st a h in
    let (ls, c, apart) =
      inspect_blocks_sound (arena + arena_size) 8192 s.memory (fresh_inspection arena) i a.ends
        (omega arith) e in
    let is : IsHeap arena s ls = record {
      ready = ready;
      first = first;
      chain = c;
      apart_free = apart;
    } in
    (ls, is, some_eq (sym h ∙ inspect_heap-IsHeap arena s ls a is))
  where
    some_eq : {x y : HeapStats} → some x ≡ some y → x ≡ y
    some_eq e = cc

-- For an aligned arena that is not at address 0 and ends below 2^32, `inspect_heap` succeeds with
-- the statistics `st` exactly if the memory holds a heap of blocks and `st` are its statistics: the
-- blocks follow one another from the arena's start to its end, each with the right header and links
-- and a positive multiple of 16 bytes, no two free blocks are neighbours, and `st` has the sum and
-- the largest of the free sizes and the number of allocated blocks.
pub inspect_heap_iff :
    (arena : ℕ) (s : Heap) (st : HeapStats)
    → IsArena arena
    → (inspect_heap arena s ≡ some st) ↔ ((ls : Layout) × IsHeap arena s ls × (st ≡ stats_of ls))
inspect_heap_iff arena s st a = (
  inspect_heap_sound arena s st a,
  λ (ls, h, e). inspect_heap-IsHeap arena s ls a h ∙ ap some (sym e),
)
