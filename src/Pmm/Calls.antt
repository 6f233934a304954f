-- ===== src/Pmm/Calls.antt =====
-- The calls that kernel/mm/pmm.c takes, and its replies.
use tinyshell_os.Base.{ℕ, ◌%◌, ◌^◌, Bool, List, [], ◌∷◌}
use tinyshell_os.Pmm.{
  Pmm, add_usable_region, reserve_region, alloc_page, free_page, free_page_count, total_page_count,
}

-- The arguments are taken as uint64_t, or as uintptr_t for an address.
pub data Call : Type 0 where
  adds : (base length : ℕ) → Call
  reserves : (base length : ℕ) → Call
  allocs : Call
  frees : (address : ℕ) → Call
  asks_free asks_total : Call

pub data Reply : Type 0 where
  told : Bool → Reply
  page_at : ℕ → Reply
  counted : ℕ → Reply

abbrev pub word64 : ℕ → ℕ
word64 x = x % 2 ^ 64

abbrev pub word32 : ℕ → ℕ
word32 x = x % 2 ^ 32

unfoldable pub step : Pmm → Call → Reply × Pmm
step s (adds base length) =
    let (b, s') = add_usable_region (word64 base) (word64 length) s in (told b, s')
step s (reserves base length) =
    let (b, s') = reserve_region (word64 base) (word64 length) s in (told b, s')
step s allocs = let (address, s') = alloc_page s in (page_at address, s')
step s (frees address) = let (b, s') = free_page (word32 address) s in (told b, s')
step s asks_free = (counted (free_page_count s), s)
step s asks_total = (counted (total_page_count s), s)

unfoldable pub run : Pmm → List Call → List Reply
run s [] = []
run s (c ∷ cs) = let (r, s') = step s c in r ∷ run s' cs

unfoldable pub after : Pmm → List Call → Pmm
after s [] = s
after s (c ∷ cs) = after (step s c).1 cs
