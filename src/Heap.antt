-- ===== src/Heap.antt =====
-- kernel/mm/heap.c with include/mm/heap.h: the boot heap of 256 KiB. The memory is an array of
-- bytes by address, a pointer is an address and 0 is NULL; a `struct heap_block` is the five words
-- at its address, and takes 32 bytes since it is aligned to 16. The arena's address is a parameter.
-- `none` stands for a loop that has not ended within its rounds.
pub mod Bytes
pub mod Blocks
pub mod Layout
pub mod Inspect
pub mod Inspected
pub mod Sound
pub mod Chains
pub mod Model
pub mod Allocate
pub mod Allocated
pub mod Merge
pub mod Release
pub mod Released
pub mod Found
pub mod Lists
pub mod Fresh
pub mod Calls
pub mod Answers
pub mod Operations
pub mod Frees
pub mod Zeroed
pub mod Run
pub mod Safe
pub mod Lost
mod Examples
use tinyshell_os.Base.{
  ℕ, zero, suc, ◌+◌, ◌-◌, ◌*◌, ◌/◌, ◌%◌, ◌^◌, Bool, true, false, not, ◌&&◌, ◌||◌, Option, none,
  some, Array, write, loop, add32, sub32, word_max, ltb, leb, ◌==◌, if◌then◌else◌,
}
use Bytes.{Memory, load32, store32}

-- KHEAP_ARENA_SIZE
abbrev pub arena_size : ℕ
arena_size = 256 * 1024

-- KHEAP_ALIGNMENT
abbrev pub alignment : ℕ
alignment = 16

abbrev pub block_free : ℕ
block_free = 1

abbrev pub block_allocated : ℕ
block_allocated = 2

abbrev pub block_magic : ℕ
block_magic = 0x48454150

-- `sizeof(struct heap_block)`
abbrev pub header_size : ℕ
header_size = 32

-- `struct heap_block`
pub record Block : Type 0 where
  pub magic : ℕ
  pub state : ℕ
  pub payload_size : ℕ
  pub previous : ℕ
  pub next : ℕ

pub record HeapStats : Type 0 where
  pub total_bytes : ℕ
  pub free_bytes : ℕ
  pub largest_free_block : ℕ
  pub allocated_blocks : ℕ

pub record Heap : Type 0 where
  pub memory : Memory
  pub first_block : ℕ
  pub heap_initialized : Bool

-- `*block`
unfoldable pub block_at : Memory → ℕ → Block
block_at m p = record {
  magic = load32 m p;
  state = load32 m (p + 4);
  payload_size = load32 m (p + 8);
  previous = load32 m (p + 12);
  next = load32 m (p + 16);
}

unfoldable pub set_state : ℕ → ℕ → Memory → Memory
set_state p v = store32 (p + 4) v

unfoldable pub set_payload_size : ℕ → ℕ → Memory → Memory
set_payload_size p v = store32 (p + 8) v

unfoldable pub set_previous : ℕ → ℕ → Memory → Memory
set_previous p v = store32 (p + 12) v

unfoldable pub set_next : ℕ → ℕ → Memory → Memory
set_next p v = store32 (p + 16) v

-- The five assignments to the fields of a block
unfoldable pub put_block : ℕ → Block → Memory → Memory
put_block p b m = set_next p b.next (
    set_previous p b.previous
      (set_payload_size p b.payload_size (set_state p b.state (store32 p b.magic m))))

abbrev pub block_payload : ℕ → ℕ
block_payload p = add32 p header_size

-- `(size + mask) & ~mask`
unfoldable pub align_request : ℕ → Option ℕ
align_request size =
    if size == 0 || ltb (word_max - 15) size
    then none
    else some (add32 size 15 - add32 size 15 % alignment)

abbrev total_capacity : ℕ
total_capacity = arena_size - header_size

abbrev maximum_blocks : ℕ
maximum_blocks = arena_size / header_size

-- The variables of the loop of `inspect_heap`
pub record Inspection : Type 0 where
  pub preceding : ℕ
  pub cursor : ℕ
  pub payload_bytes : ℕ
  pub block_count : ℕ
  pub preceding_was_free : Bool
  pub measured : HeapStats

unfoldable pub max_of : ℕ → ℕ → ℕ
max_of a b = if ltb b a then a else b

abbrev pub is_free : Block → Bool
is_free b = b.state == block_free

-- A block in the heap, up to the tests on the counters
unfoldable pub block_is_sound : ℕ → Block → Inspection → Bool
block_is_sound end b i =
    (i.cursor % alignment == 0)
    && (leb i.cursor (sub32 end header_size)
        && ((b.magic == block_magic)
            && ((is_free b || (b.state == block_allocated))
                && ((b.previous == i.preceding)
                    && (leb alignment b.payload_size
                        && ((b.payload_size % alignment == 0)
                            && leb b.payload_size (sub32 end (add32 i.cursor header_size))))))))

-- The tests on the counters
unfoldable pub counters_fit : Block → Inspection → Bool
counters_fit b i =
    leb i.payload_bytes (word_max - b.payload_size)
    && (if is_free b
        then not i.preceding_was_free && leb i.measured.free_bytes (word_max - b.payload_size)
        else not (i.measured.allocated_blocks == word_max))

unfoldable pub counted : Block → Inspection → Inspection
counted b i = record i {
  payload_bytes = add32 i.payload_bytes b.payload_size;
  block_count = add32 i.block_count 1;
  measured =
      if is_free b
      then record i.measured {
        free_bytes = add32 i.measured.free_bytes b.payload_size;
        largest_free_block = max_of b.payload_size i.measured.largest_free_block;
      }
      else record i.measured { allocated_blocks = add32 i.measured.allocated_blocks 1 };
}

abbrev pub block_end : Block → Inspection → ℕ
block_end b i = add32 (add32 i.cursor header_size) b.payload_size

unfoldable pub advanced : Block → Inspection → Inspection
advanced b i = record (counted b i) {
  preceding = i.cursor;
  cursor = block_end b i;
  preceding_was_free = is_free b;
}

-- How a round of the loop of `inspect_heap` ends
pub data Round : Type 0 where
  refused broken continued : Round

unfoldable pub inspect_block : ℕ → Block → Inspection → Round
inspect_block end b i =
    if not (block_is_sound end b i) || not (counters_fit b i)
    then refused
    else if b.next == 0
    then if block_end b i == end then broken else refused
    else if leb end (block_end b i) || not (b.next == block_end b i)
    then refused
    else continued

-- The loop of `inspect_heap`: with no rounds left, `block_count` is `maximum_blocks`.
unfoldable pub inspect_blocks : ℕ → ℕ → Memory → Inspection → Option Inspection
inspect_blocks end zero m i = none
inspect_blocks end (suc n) m i = elim (inspect_block end (block_at m i.cursor) i) [
  | refused ↦ none
  | broken ↦ some (counted (block_at m i.cursor) i)
  | continued ↦ inspect_blocks end n m (advanced (block_at m i.cursor) i)
]

-- The tests behind the loop
unfoldable pub totals_agree : Inspection → Bool
totals_agree i =
    not (i.block_count == 0)
    && (leb (i.block_count - 1) (word_max / header_size)
        && (leb i.payload_bytes total_capacity
            && ((((i.block_count - 1) * header_size) == total_capacity - i.payload_bytes)
                && (leb i.measured.free_bytes total_capacity
                    && leb i.measured.largest_free_block i.measured.free_bytes))))

abbrev pub fresh_inspection : ℕ → Inspection
fresh_inspection arena = record {
  preceding = 0;
  cursor = arena;
  payload_bytes = 0;
  block_count = 0;
  preceding_was_free = false;
  measured = record {
    total_bytes = total_capacity;
    free_bytes = 0;
    largest_free_block = 0;
    allocated_blocks = 0;
  };
}

unfoldable pub checked : Inspection → Option HeapStats
checked i = if totals_agree i then some i.measured else none

-- What `stats` is left with
unfoldable pub inspect_heap : ℕ → Heap → Option HeapStats
inspect_heap arena s =
    if not s.heap_initialized || (not (s.first_block == arena) || ltb (word_max - arena_size) arena)
    then none
    else elim (inspect_blocks (add32 arena arena_size) maximum_blocks s.memory
        (fresh_inspection arena)) [ none ↦ none | some i ↦ checked i ]

abbrev pub passes : ℕ → Heap → Bool
passes arena s = elim (inspect_heap arena s) [ none ↦ false | some _ ↦ true ]

abbrev pub invalid_block : Block
invalid_block = record { magic = 0; state = 0; payload_size = 0; previous = 0; next = 0 }

-- `if (block != NULL) block->previous = value;`
abbrev pub relink : ℕ → ℕ → Memory → Memory
relink p value m = if p == 0 then m else set_previous p value m

unfoldable pub merge_with_next : ℕ → Memory → Memory
merge_with_next left m =
    let right = (block_at m left).next in
    let behind = (block_at m right).next in
    put_block right invalid_block (
      relink behind left (
        set_next left behind (
          set_payload_size left
            (add32 (block_at m left).payload_size
              (add32 header_size (block_at m right).payload_size))
            m)))

abbrev pub first_header : Block
first_header = record {
  magic = block_magic;
  state = block_free;
  payload_size = total_capacity;
  previous = 0;
  next = 0;
}

unfoldable pub init : ℕ → Heap → Bool × Heap
init arena s =
    if passes arena made
    then (true, made)
    else (false, record made { heap_initialized = false; first_block = 0 })
  where
    made : Heap
    made = record {
      memory =
          put_block arena first_header
            (loop arena_size (λ index m. write m (arena + index) 0) s.memory);
      first_block = arena;
      heap_initialized = true;
    }

-- `for (block = p; block != NULL; block = block->next) if (test(block)) break;`
unfoldable pub find_block : ℕ → (ℕ → Bool) → ℕ → Memory → Option ℕ
find_block zero test p m = none
find_block (suc n) test p m =
    let rest = find_block n test (block_at m p).next m in
    if p == 0 then some 0 else if test p then some p else rest

-- The block is split where a block fits behind the request.
unfoldable pub split_block : ℕ → ℕ → Memory → Memory
split_block p aligned_size m =
    let b = block_at m p in
    let remaining = sub32 b.payload_size aligned_size in
    let split = add32 (block_payload p) aligned_size in
    if leb (header_size + alignment) remaining
    then set_next p split (
        set_payload_size p aligned_size (
          relink b.next split (
            put_block split
              (record {
                magic = block_magic;
                state = block_free;
                payload_size = sub32 remaining header_size;
                previous = p;
                next = b.next;
              })
              m)))
    else m

abbrev pub fits : ℕ → Memory → ℕ → Bool
fits aligned_size m p = is_free (block_at m p) && leb aligned_size (block_at m p).payload_size

unfoldable pub place : ℕ → ℕ → Heap → ℕ × Heap
place aligned_size p s = if p == 0 then (0, s) else (
  block_payload p,
  record s { memory = set_state p block_allocated (split_block p aligned_size s.memory) },
)

-- The loop's search and the work on the block that it finds
unfoldable pub allocate : ℕ → Heap → Option (ℕ × Heap)
allocate aligned_size s =
    elim (find_block maximum_blocks (fits aligned_size s.memory) s.first_block s.memory) [
      | none ↦ none
      | some p ↦ some (place aligned_size p s)
    ]

unfoldable pub kmalloc : ℕ → ℕ → Heap → Option (ℕ × Heap)
kmalloc arena size s = elim (align_request size) [
  | none ↦ some (0, s)
  | some aligned_size ↦ if passes arena s then allocate aligned_size s else some (0, s)
]

-- `memory[index] = 0U` for each byte
unfoldable pub zeroed : ℕ → ℕ × Heap → ℕ × Heap
zeroed total (p, s) =
    if p == 0
    then (0, s)
    else (p, record s { memory = loop total (λ index m. write m (p + index) 0) s.memory })

unfoldable pub kcalloc : ℕ → ℕ → ℕ → Heap → Option (ℕ × Heap)
kcalloc arena count size s =
    if count == 0 || ((size == 0) || ltb (word_max / count) size)
    then some (0, s)
    else elim (kmalloc arena (count * size) s) [
      | none ↦ none
      | some result ↦ some (zeroed (count * size) result)
    ]

-- The merges of `kfree`: what is left of them when the block is marked free.
abbrev pub merge_free_next : ℕ → Memory → Memory
merge_free_next p m =
    let right = (block_at m p).next in
    if not (right == 0) && is_free (block_at m right) then merge_with_next p m else m

unfoldable pub merge_neighbours : ℕ → Memory → Memory
merge_neighbours p m =
    let left = (block_at m p).previous in
    if not (left == 0) && is_free (block_at m left)
    then merge_free_next left (merge_with_next left m)
    else merge_free_next p m

unfoldable pub release : ℕ → Heap → Bool × Heap
release p s =
    if (p == 0) || not ((block_at s.memory p).state == block_allocated)
    then (false, s)
    else (true, record s { memory = merge_neighbours p (set_state p block_free s.memory) })

unfoldable pub kfree : ℕ → ℕ → Heap → Option (Bool × Heap)
kfree arena address s =
    if address == 0
      || (ltb address (add32 arena header_size)
          || (leb (add32 arena arena_size) address
              || (not (address % alignment == 0) || not (passes arena s))))
    then some (false, s)
    else elim (find_block maximum_blocks (λ p. block_payload p == address) s.first_block s.memory) [
      | none ↦ none
      | some p ↦ some (release p s)
    ]

unfoldable pub get_stats : ℕ → Option HeapStats → Heap → Bool × Option HeapStats
get_stats arena none s = (false, none)
get_stats arena (some stats) s = elim (inspect_heap arena s) [
  | none ↦ (false, some stats)
  | some measured ↦ (true, some measured)
]

unfoldable pub validate : ℕ → Heap → Bool
validate arena s = passes arena s
