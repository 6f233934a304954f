-- ===== src/Heap/Layout.antt =====
-- The heap of kernel/mm/heap.c as the list of its blocks, in the order of their addresses.
use tinyshell_os.Base.{
  ℕ, ◌+◌, ◌%◌, ◌≤◌, ◌<◌, ◌≡◌, Bool, true, false, not, ◌&&◌, List, [], ◌∷◌, arith, word_mod, ltb,
  ◌==◌, if◌then◌else◌,
}
use tinyshell_os.Heap.{
  arena_size, alignment, block_free, block_allocated, block_magic, header_size, Block, HeapStats,
  Heap, block_at,
}
use tinyshell_os.Heap.Bytes.{Memory}

pub record Piece : Type 0 where
  pub free : Bool
  pub size : ℕ

abbrev pub Layout : Type 0
Layout = List Piece

-- The pointer to what begins at `q`
abbrev pub link : ℕ → ℕ → ℕ
link end q = if q == end then 0 else q

abbrev pub header_of : ℕ → ℕ → ℕ → Piece → Block
header_of end prev p b = record {
  magic = block_magic;
  state = if b.free then block_free else block_allocated;
  payload_size = b.size;
  previous = prev;
  next = link end (p + header_size + b.size);
}

pub record IsBlock (m : Memory) (end prev p : ℕ) (b : Piece) : Type 0 where
  pub header : block_at m p ≡ header_of end prev p b
  pub enough : alignment ≤ b.size
  pub whole : b.size % alignment ≡ 0

-- The blocks follow one another from `p` up to `end`; `prev` is the block before the first one.
abbrev pub Chain : Memory → ℕ → ℕ → ℕ → Layout → Type 0
Chain m end prev p [] = p ≡ end
Chain m end prev p (b ∷ bs) = IsBlock m end prev p b × Chain m end p (p + header_size + b.size) bs

-- No free block follows a free block.
abbrev pub separated : Bool → Layout → Bool
separated was_free [] = true
separated was_free (b ∷ bs) = not (was_free && b.free) && separated b.free bs

-- The arena is aligned, not at address 0 and does not reach the end of the address space.
pub record IsArena (arena : ℕ) : Type 0 where
  pub nonnull : 0 < arena
  pub lines_up : arena % alignment ≡ 0
  pub ends : arena + arena_size < word_mod

pub record IsHeap (arena : ℕ) (s : Heap) (ls : Layout) : Type 0 where
  pub ready : s.heap_initialized ≡ true
  pub first : s.first_block ≡ arena
  pub chain : Chain s.memory (arena + arena_size) 0 arena ls
  pub apart_free : separated false ls ≡ true

pub Chain-le : (m : Memory) (end prev p : ℕ) (ls : Layout) → Chain m end prev p ls → p ≤ end
Chain-le m end prev p [] c = omega arith
Chain-le m end prev p (b ∷ bs) (is, c) =
    omega (arith, Chain-le m end p (p + header_size + b.size) bs c)

-- What kheap_get_stats tells of the blocks
unfoldable pub free_sum : Layout → ℕ
free_sum [] = 0
free_sum (b ∷ bs) = (if b.free then b.size else 0) + free_sum bs

unfoldable pub largest : Layout → ℕ
largest [] = 0
largest (b ∷ bs) = let rest = largest bs in if b.free && ltb rest b.size then b.size else rest

unfoldable pub used : Layout → ℕ
used [] = 0
used (b ∷ bs) = (if b.free then 0 else 1) + used bs

unfoldable pub stats_of : Layout → HeapStats
stats_of ls = record {
  total_bytes = 262112;
  free_bytes = free_sum ls;
  largest_free_block = largest ls;
  allocated_blocks = used ls;
}
