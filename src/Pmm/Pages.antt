-- ===== src/Pmm/Pages.antt =====
-- The four states of a page, as the two bitmaps of kernel/mm/pmm.c encode them.
use tinyshell_os.Base.{
  ℕ, ◌/◌, ◌%◌, ◌≡◌, ◌≢◌, inl, inr, Bool, true, false, arith, Bool-cases, ◌==◌, if◌then◌else◌,
}
use tinyshell_os.Pmm.{Pmm, Bitmap, page_count, page_is_managed, page_is_allocated, set_bit}
use tinyshell_os.Base.Counts.{count}

pub data PageState : Type 0 where
  unknown free allocated reserved : PageState

abbrev pub encoded : Bool → Bool → PageState
encoded false false = unknown
encoded true false = free
encoded true true = allocated
encoded false true = reserved

abbrev pub state_of : ℕ → Pmm → PageState
state_of page s = encoded (page_is_managed page s) (page_is_allocated page s)

abbrev pub is_free : PageState → Bool
is_free free = true
is_free _ = false

abbrev pub is_managed : PageState → Bool
is_managed free = true
is_managed allocated = true
is_managed _ = false

-- The counters are right, and page 0 is never handed out.
pub record IsCounted (s : Pmm) : Type 0 where
  pub total : s.total_pages ≡ count (λ p. is_managed (state_of p s)) page_count
  pub frees : s.free_pages ≡ count (λ p. is_free (state_of p s)) page_count
  pub zero_reserved : state_of 0 s ≡ reserved

-- A page's bit after a write of another page's, or of its own.
pub set_bit_lem :
    (page : ℕ) (value : Bool) (pages : Bitmap) (j : ℕ)
    → set_bit page value pages (j / 32) (j % 32)
      ≡ (if j == page then value else pages (j / 32) (j % 32))
set_bit_lem page value pages j = elim (Bool-cases (j == page)) [
  | inl same ↦ let e : j ≡ page = ground arith in rw e (ground arith)
  | inr other ↦
      let ne : j ≢ page = ground arith in
      elim (Bool-cases (j / 32 == page / 32)) [
        | inl word ↦
            let bit : (j % 32 == page % 32) ≡ false = ground arith in
            let w : j / 32 ≡ page / 32 = ground arith in rw (other, w) (ground arith)
        | inr word ↦ rw (other, word)
      ]
]
