-- ===== src/Pmm/Model.antt =====
-- What kernel/mm/pmm.c promises: every page is in one of four states.
use tinyshell_os.Base.{
  ℕ, ◌+◌, ◌*◌, ◌/◌, ◌%◌, ◌^◌, Bool, true, false, ◌&&◌, none, some, List, [], ◌∷◌, write, find_first,
  leb, ◌==◌, if◌then◌else◌,
}
use tinyshell_os.Pmm.{page_size, page_count}
use tinyshell_os.Base.Counts.{count}
use tinyshell_os.Pmm.Pages.{PageState, unknown, free, allocated, reserved, is_free, is_managed}
use tinyshell_os.Pmm.Spans.{inside, meets}
use tinyshell_os.Pmm.Search.{is_allocated}
use tinyshell_os.Pmm.Calls.{
  Call, adds, reserves, allocs, frees, asks_free, asks_total, Reply, told, page_at, counted, word64,
  word32,
}

pub record Pages : Type 0 where
  pub states : ℕ → PageState
  pub fixed : Bool

-- Page 0 is reserved from the start, nothing is known of the others.
abbrev pub unknown_pages : Pages
unknown_pages = record { states = λ page. if page == 0 then reserved else unknown; fixed = false }

abbrev pub usable : PageState → PageState
usable unknown = free
usable t = t

abbrev pub unusable : PageState → PageState
unusable unknown = reserved
unusable free = reserved
unusable t = t

-- The pages that pass the test change.
abbrev pub turn : (ℕ → Bool) → (PageState → PageState) → Pages → Pages
turn test f t = record t { states = λ page. if test page then f (t.states page) else t.states page }

-- Regions are taken until the first allocation, if they end below 2^64.
unfoldable pub region : ℕ → ℕ → (ℕ → Bool) → (PageState → PageState) → Pages → Bool × Pages
region base length test f t =
    if t.fixed
    then (false, t)
    else if leb (2 ^ 64) (base + length)
    then (false, t)
    else (true, turn test f t)

unfoldable pub alloc : Pages → ℕ × Pages
alloc t = elim (find_first (λ page. is_free (t.states page)) page_count 0) [
  | none ↦ (0, record t { fixed = true })
  | some page ↦ (page * page_size, record { states = write t.states page allocated; fixed = true })
]

unfoldable pub give_back : ℕ → Pages → Bool × Pages
give_back address t =
    if address % page_size == 0 && is_allocated (t.states (address / page_size))
    then (true, record t { states = write t.states (address / page_size) free })
    else (false, t)

unfoldable pub step : Pages → Call → Reply × Pages
step t (adds base length) =
    let (b, t') =
      region (word64 base) (word64 length) (inside (word64 base) (word64 base + word64 length))
        usable t in
    (told b, t')
step t (reserves base length) =
    let (b, t') =
      region (word64 base) (word64 length) (meets (word64 base) (word64 base + word64 length))
        unusable t in
    (told b, t')
step t allocs = let (address, t') = alloc t in (page_at address, t')
step t (frees address) = let (b, t') = give_back (word32 address) t in (told b, t')
step t asks_free = (counted (count (λ page. is_free (t.states page)) page_count), t)
step t asks_total = (counted (count (λ page. is_managed (t.states page)) page_count), t)

unfoldable pub run : Pages → List Call → List Reply
run t [] = []
run t (c ∷ cs) = let (r, t') = step t c in r ∷ run t' cs
