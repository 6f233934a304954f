-- ===== src/Pmm.antt =====
-- kernel/mm/pmm.c with include/mm/pmm.h: the allocator of physical pages. A word of a bitmap is
-- the array of its 32 bits, so that `|= mask` and `&= ~mask` write one bit, and `__builtin_ctz`
-- finds the lowest bit that is set. The static variables are the state. The internal functions'
-- result pointers, which are never NULL, are results here.
pub mod Spans
pub mod Pages
pub mod Marks
pub mod Ranges
pub mod Loops
pub mod Search
pub mod Calls
pub mod Model
pub mod Agree
pub mod Regions
pub mod Run
mod Examples
use tinyshell_os.Base.{
  ℕ, suc, ◌+◌, ◌-◌, ◌*◌, ◌/◌, ◌%◌, ◌^◌, Bool, true, false, not, ◌&&◌, ◌||◌, Option, none, some,
  Array, write, each, loop, find_first, add32, sub32, word_mod, ltb, leb, ◌==◌, if◌then◌else◌,
}

-- PMM_PAGE_SIZE
abbrev pub page_size : ℕ
page_size = 4096

-- PMM_PAGE_COUNT
abbrev pub page_count : ℕ
page_count = 1048576

-- PMM_BITMAP_WORDS
abbrev pub bitmap_words : ℕ
bitmap_words = 32768

-- PMM_PHYSICAL_LIMIT
abbrev pub physical_limit : ℕ
physical_limit = 2 ^ 32

-- UINT64_MAX
abbrev pub word64_max : ℕ
word64_max = 2 ^ 64 - 1

abbrev pub Bitmap : Type 0
Bitmap = Array (Array Bool)

pub record Pmm : Type 0 where
  pub managed_pages : Bitmap
  pub allocated_pages : Bitmap
  pub total_pages : ℕ
  pub free_pages : ℕ
  pub ownership_frozen : Bool

abbrev pub bitmap_word : ℕ → ℕ
bitmap_word page = page / 32

-- The bit that `bitmap_mask` has
abbrev pub bitmap_bit : ℕ → ℕ
bitmap_bit page = page % 32

abbrev pub page_is_managed : ℕ → Pmm → Bool
page_is_managed page s = s.managed_pages (bitmap_word page) (bitmap_bit page)

abbrev pub page_is_allocated : ℕ → Pmm → Bool
page_is_allocated page s = s.allocated_pages (bitmap_word page) (bitmap_bit page)

abbrev pub page_is_reserved : ℕ → Pmm → Bool
page_is_reserved page s = not (page_is_managed page s) && page_is_allocated page s

abbrev pub set_bit : ℕ → Bool → Bitmap → Bitmap
set_bit page value pages =
    write pages (bitmap_word page) (write (pages (bitmap_word page)) (bitmap_bit page) value)

abbrev pub set_managed : ℕ → Bool → Pmm → Pmm
set_managed page value s = record s { managed_pages = set_bit page value s.managed_pages }

abbrev pub set_allocated : ℕ → Bool → Pmm → Pmm
set_allocated page value s = record s { allocated_pages = set_bit page value s.allocated_pages }

unfoldable pub mark_page_reserved : ℕ → Pmm → Pmm
mark_page_reserved page s =
    if page_is_reserved page s
    then s
    else if page_is_managed page s
    then if page_is_allocated page s
      then s
      else record (set_allocated page true (set_managed page false s)) {
        total_pages = sub32 s.total_pages 1;
        free_pages = sub32 s.free_pages 1;
      }
    else set_allocated page true s

unfoldable pub mark_page_usable : ℕ → Pmm → Pmm
mark_page_usable page s =
    if page == 0 || (page_is_reserved page s || page_is_managed page s)
    then s
    else record (set_allocated page false (set_managed page true s)) {
      total_pages = add32 s.total_pages 1;
      free_pages = add32 s.free_pages 1;
    }

-- The clipped base and end
unfoldable pub clip_to_physical : ℕ → ℕ → Option (ℕ × ℕ)
clip_to_physical base length =
    if length == 0
    then some (0, 0)
    else if ltb (word64_max - length) base
    then none
    else if leb physical_limit base
    then some (0, 0)
    else if ltb physical_limit (base + length)
    then some (base, physical_limit)
    else some (base, base + length)

-- `x & ~PMM_PAGE_MASK` on uint64_t
abbrev pub page_floor : ℕ → ℕ
page_floor x = x - x % page_size

-- `(x + PMM_PAGE_MASK) & ~PMM_PAGE_MASK` on uint64_t
abbrev pub page_ceiling : ℕ → ℕ
page_ceiling x = page_floor ((x + 4095) % 2 ^ 64)

-- `(uint32_t)(x >> PMM_PAGE_SHIFT)`
abbrev pub page_of : ℕ → ℕ
page_of x = x / page_size % word_mod

abbrev pub span : ℕ → ℕ → ℕ × ℕ
span start_page end_page = if leb end_page start_page then (0, 0) else (start_page, end_page)

unfoldable pub inward_page_span : ℕ → ℕ → ℕ × ℕ
inward_page_span base end =
    if leb (page_floor end) (page_ceiling base)
    then (0, 0)
    else span (if page_of (page_ceiling base) == 0 then 1 else page_of (page_ceiling base))
        (page_of (page_floor end))

abbrev pub aligned_end : ℕ → ℕ
aligned_end end = if not (end % page_size == 0) then page_ceiling end else end

unfoldable pub outward_page_span : ℕ → ℕ → ℕ × ℕ
outward_page_span base end =
    if leb end base
    then (0, 0)
    else span (page_of (page_floor base))
        (if leb physical_limit (aligned_end end) then page_count else page_of (aligned_end end))

unfoldable pub reset : Pmm → Pmm
reset s = mark_page_reserved 0 (record {
  managed_pages = each bitmap_words (λ _ _. λ _. false) s.managed_pages;
  allocated_pages = each bitmap_words (λ _ _. λ _. false) s.allocated_pages;
  total_pages = 0;
  free_pages = 0;
  ownership_frozen = false;
})

-- `for (page = first; page < last_excl; ++page) mark(page);`
unfoldable pub mark_span : (ℕ → Pmm → Pmm) → ℕ × ℕ → Pmm → Pmm
mark_span mark (first, last_excl) s = loop (last_excl - first) (λ i s. mark (first + i) s) s

unfoldable pub add_usable_region : ℕ → ℕ → Pmm → Bool × Pmm
add_usable_region base length s =
    if s.ownership_frozen then (false, s) else elim (clip_to_physical base length) [
      | none ↦ (false, s)
      | some (clipped_base, clipped_end) ↦
          (true, mark_span mark_page_usable (inward_page_span clipped_base clipped_end) s)
    ]

unfoldable pub reserve_region : ℕ → ℕ → Pmm → Bool × Pmm
reserve_region base length s =
    if s.ownership_frozen then (false, s) else elim (clip_to_physical base length) [
      | none ↦ (false, s)
      | some (clipped_base, clipped_end) ↦
          (true, mark_span mark_page_reserved (outward_page_span clipped_base clipped_end) s)
    ]

-- `managed_pages[word] & ~allocated_pages[word]`
abbrev pub free_mask : Pmm → ℕ → Array Bool
free_mask s word bit = s.managed_pages word bit && not (s.allocated_pages word bit)

abbrev pub is_nonzero : Array Bool → Bool
is_nonzero mask = elim (find_first mask 32 0) [ none ↦ false | some bit ↦ true ]

-- `__builtin_ctz`, of a mask that is not zero
abbrev pub count_trailing_zeros : Array Bool → ℕ
count_trailing_zeros mask = elim (find_first mask 32 0) [ none ↦ 0 | some bit ↦ bit ]

unfoldable pub take_page : ℕ → Pmm → ℕ × Pmm
take_page page s = (
  page * page_size % word_mod,
  record (set_allocated page true s) { free_pages = sub32 s.free_pages 1 },
)

unfoldable pub alloc_page : Pmm → ℕ × Pmm
alloc_page s =
    if s.free_pages == 0
    then (0, record s { ownership_frozen = true })
    else elim (find_first (λ word. is_nonzero (free_mask s word)) bitmap_words 0) [
      | none ↦ (0, record s { ownership_frozen = true })
      | some word ↦
          take_page (word * 32 + count_trailing_zeros (free_mask s word))
            (record s { ownership_frozen = true })
    ]

unfoldable pub free_page : ℕ → Pmm → Bool × Pmm
free_page physical_address s =
    if physical_address == 0
      || (not (physical_address % page_size == 0)
          || ltb ((page_count - 1) * page_size) physical_address)
    then (false, s)
    else if not (page_is_managed page s) || not (page_is_allocated page s)
    then (false, s)
    else (true, record (set_allocated page false s) { free_pages = add32 s.free_pages 1 })
  where
    page : ℕ
    page = page_of physical_address

unfoldable pub free_page_count : Pmm → ℕ
free_page_count s = s.free_pages

unfoldable pub total_page_count : Pmm → ℕ
total_page_count s = s.total_pages
