-- ===== src/Heap/Model.antt =====
-- What kernel/mm/heap.c promises: a list of blocks between the arena's ends, allocated by first
-- fit, and joined with their free neighbours when they are released.
use mathlib.Core.Option as Opt
use tinyshell_os.Base.{
  ℕ, ◌+◌, ◌-◌, ◌*◌, ◌/◌, Bool, true, false, ◌&&◌, ◌||◌, Option, none, some, [], ◌∷◌, word_mod, leb,
  ◌==◌, if◌then◌else◌,
}
use tinyshell_os.Heap.{header_size}
use tinyshell_os.Heap.Layout.{Piece, Layout}

abbrev pub free_piece : ℕ → Piece
free_piece n = record { free = true; size = n }

abbrev pub used_piece : ℕ → Piece
used_piece n = record { free = false; size = n }

-- A request's size, rounded up to sixteen; none if it is 0 or too large.
unfoldable pub rounded : ℕ → Option ℕ
rounded size = if size == 0 || leb (word_mod - 15) size then none else some ((size + 15) / 16 * 16)

-- The first `n` bytes of a free block are taken, and the rest is a block if it can hold sixteen.
unfoldable pub carve : ℕ → Piece → Layout → Layout
carve n b bs =
    if leb (n + 48) b.size
    then used_piece n ∷ free_piece (b.size - n - header_size) ∷ bs
    else used_piece b.size ∷ bs

abbrev pub keep : Piece → Option (ℕ × Layout) → Option (ℕ × Layout)
keep b none = none
keep b (some (a, ls)) = some (a, b ∷ ls)

-- The first free block that is large enough; the address is that of its payload.
unfoldable pub allocate : ℕ → ℕ → Layout → Option (ℕ × Layout)
allocate n p [] = none
allocate n p (b ∷ bs) =
    let rest = keep b (allocate n (p + header_size + b.size) bs) in
    if b.free && leb n b.size then some (p + header_size, carve n b bs) else rest

-- A free block swallows a free block behind it.
unfoldable pub join : Piece → Layout → Layout
join b [] = b ∷ []
join b (c ∷ cs) =
    if b.free && c.free then free_piece (b.size + header_size + c.size) ∷ cs else b ∷ c ∷ cs

-- The allocated block whose payload begins at `a` is freed, and joined with its neighbours.
unfoldable pub release : ℕ → ℕ → Layout → Option Layout
release a p [] = none
release a p (b ∷ bs) =
    let rest = Opt.map (join b) (release a (p + header_size + b.size) bs) in
    if p + header_size == a
    then if b.free then none else some (join (free_piece b.size) bs)
    else rest

unfoldable pub malloc : ℕ → ℕ → Layout → ℕ × Layout
malloc arena size ls = elim (rounded size) [
  | none ↦ (0, ls)
  | some n ↦ elim (allocate n arena ls) [ none ↦ (0, ls) | some result ↦ result ]
]

-- A product that is no 32-bit number is refused.
unfoldable pub calloc : ℕ → ℕ → ℕ → Layout → ℕ × Layout
calloc arena count size ls =
    if leb word_mod (count * size) then (0, ls) else malloc arena (count * size) ls

unfoldable pub free : ℕ → ℕ → Layout → Bool × Layout
free arena a ls = elim (release a arena ls) [ none ↦ (false, ls) | some ls' ↦ (true, ls') ]
