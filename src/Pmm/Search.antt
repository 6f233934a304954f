-- ===== src/Pmm/Search.antt =====
-- `pmm_alloc_page` and `pmm_free_page` of kernel/mm/pmm.c find and change one page.
use tinyshell_os.Base.{
  ℕ, ◌+◌, ◌*◌, ◌/◌, ◌%◌, ◌<◌, ◌≡◌, refl, ap, ap₂, sym, ◌∙◌, inl, inr, Bool, true, false, ◌&&◌,
  Option, none, some, arith, Array, find_first, find_first-some, find_first-before, find_first-none,
  find_first-eq-some, find_first-eq-none, Option-cases, Bool-cases, either_way, add32, word_mod,
  ◌==◌, if◌then◌else◌,
}
use tinyshell_os.Pmm.{
  Pmm, page_size, page_count, bitmap_words, page_is_managed, page_is_allocated, set_allocated,
  page_of, free_mask, is_nonzero, count_trailing_zeros, take_page, alloc_page, free_page,
}
use tinyshell_os.Base.Counts.{count-zero, count-le}
use tinyshell_os.Pmm.Pages.{PageState, free, allocated, state_of, is_free, is_managed, IsCounted}
use tinyshell_os.Pmm.Marks.{allocated_set}
use tinyshell_os.Pmm.Ranges.{free_in, Changes, count_up, count_same, flip, zero_stays}

free_in_mask : (s : Pmm) (p : ℕ) → free_in s p ≡ free_mask s (p / 32) (p % 32)
free_in_mask s p = elim (Bool-cases (page_is_managed p s)) [
  | inl m ↦ elim (Bool-cases (page_is_allocated p s)) [ inl a ↦ rw (m, a) | inr a ↦ rw (m, a) ]
  | inr m ↦ elim (Bool-cases (page_is_allocated p s)) [ inl a ↦ rw (m, a) | inr a ↦ rw (m, a) ]
]

mask_none : (mask : Array Bool) → is_nonzero mask ≡ false → find_first mask 32 0 ≡ none
mask_none mask h = elim (Option-cases (find_first mask 32 0)) [
  | inl e ↦ e
  | inr (bit, e) ↦ absurd (let t : true ≡ false = rw (e, is_nonzero) at h in cc)
]

mask_some :
    (mask : Array Bool)
    → is_nonzero mask ≡ true
    → find_first mask 32 0 ≡ some (count_trailing_zeros mask)
mask_some mask h = elim (Option-cases (find_first mask 32 0)) [
  | inl e ↦ absurd (let t : false ≡ true = rw (e, is_nonzero) at h in cc)
  | inr (bit, e) ↦ rw (e, count_trailing_zeros)
]

abbrev pub words_search : Pmm → Option ℕ
words_search s = find_first (λ word. is_nonzero (free_mask s word)) bitmap_words 0

-- A word without a free page
pub page_not_free :
    (s : Pmm) (j : ℕ) → is_nonzero (free_mask s (j / 32)) ≡ false → free_in s j ≡ false
page_not_free s j h =
    free_in_mask s j
    ∙ find_first-none (free_mask s (j / 32)) 32 0 (j % 32) (mask_none (free_mask s (j / 32)) h)
        (omega arith) (omega arith)

pub search-none : (s : Pmm) → words_search s ≡ none → find_first (free_in s) page_count 0 ≡ none
search-none s e = find_first-eq-none (free_in s) page_count 0 λ j lo hi. page_not_free s j (
    find_first-none (λ word. is_nonzero (free_mask s word)) bitmap_words 0 (j / 32) e (omega arith)
      (omega arith))

-- The lowest bit of the first word is the first free page.
pub search-some :
    (s : Pmm) (word : ℕ)
    → words_search s ≡ some word
    → find_first (free_in s) page_count 0
      ≡ some (word * 32 + count_trailing_zeros (free_mask s word))
search-some s word e =
    let (lo, hi, hit) =
      find_first-some (λ word. is_nonzero (free_mask s word)) bitmap_words 0 word e in
    let mask = free_mask s word in
    let bit = count_trailing_zeros mask in
    let found = mask_some mask hit in
    let (lo', hi', hit') = find_first-some mask 32 0 bit found in
    let page = word * 32 + bit in
    let w : page / 32 ≡ word = omega arith in
    let b : page % 32 ≡ bit = omega arith in
    find_first-eq-some (free_in s) page_count 0 page (omega arith) (omega arith)
      (free_in_mask s page ∙ ap₂ (free_mask s) w b ∙ hit')
      λ j lo'' below. elim (Bool-cases (j / 32 == word)) [
        | inl same ↦
            let e' : j / 32 ≡ word = ground arith in
            free_in_mask s j
            ∙ ap (λ k. free_mask s k (j % 32)) e'
            ∙ find_first-before mask 32 0 bit (j % 32) found (omega arith) (omega arith)
        | inr other ↦ page_not_free s j (
            find_first-before (λ word. is_nonzero (free_mask s word)) bitmap_words 0 word (j / 32) e
              (omega arith) (ground arith))
      ]

abbrev pub frozen : Pmm → Pmm
frozen s = record s { ownership_frozen = true }

-- `pmm_alloc_page` takes the first free page, or fails if there is none.
pub alloc_page-first :
    (s : Pmm)
    → IsCounted s
    → alloc_page s ≡ (elim (find_first (free_in s) page_count 0) [
      | none ↦ (0, frozen s)
      | some page ↦ take_page page (frozen s)
    ])
unfolding alloc_page
alloc_page-first s c =
    either_way
      (λ (r : ℕ × Pmm). r ≡ (elim (find_first (free_in s) page_count 0) [
        | none ↦ (0, frozen s)
        | some page ↦ take_page page (frozen s)
      ]))
      (s.free_pages == 0) _ _
      (λ none_free.
        let e : find_first (free_in s) page_count 0 ≡ none =
          find_first-eq-none (free_in s) page_count 0 λ j lo hi.
            count-zero (free_in s) page_count j (sym c.frees ∙ ground arith) (omega arith) in
        rw e)
      (λ some_free. elim (Option-cases (words_search s)) [
        | inl e ↦ rw (e, search-none s e)
        | inr (word, e) ↦ rw (e, search-some s word e)
      ])

-- The page that is taken was free, and is allocated now.
pub take_page-Changes :
    (page : ℕ) (s : Pmm)
    → state_of page s ≡ free
    → Changes page free allocated s (take_page page s).1
unfolding take_page
take_page-Changes page s h = record {
  was = h;
  is_now = allocated_set page s page true ∙ ground arith;
  others = λ j ne. sym (allocated_set page s j true ∙ ground arith);
}

pub take_page-IsCounted :
    (page : ℕ) (s : Pmm)
    → page < page_count
    → state_of page s ≡ free
    → IsCounted s
    → IsCounted (take_page page s).1
unfolding take_page
take_page-IsCounted page s lt h c =
    let change = take_page-Changes page s h in
    let s' = (take_page page s).1 in
    record {
      total = c.total ∙ sym (count_same is_managed page s s' change refl);
      frees = omega (
        arith,
        c.frees,
        count_up is_free page s' s (flip page change) lt refl refl,
        count-le (free_in s) page_count,
      );
      zero_reserved = zero_stays page s s' change (λ e. cc) c.zero_reserved;
    }

abbrev pub given_back : ℕ → Pmm → Pmm
given_back page s = record (set_allocated page false s) { free_pages = add32 s.free_pages 1 }

pub given_back-Changes :
    (page : ℕ) (s : Pmm)
    → state_of page s ≡ allocated
    → Changes page allocated free s (given_back page s)
given_back-Changes page s h = record {
  was = h;
  is_now = allocated_set page s page false ∙ ground arith;
  others = λ j ne. sym (allocated_set page s j false ∙ ground arith);
}

pub given_back-IsCounted :
    (page : ℕ) (s : Pmm)
    → page < page_count
    → state_of page s ≡ allocated
    → IsCounted s
    → IsCounted (given_back page s)
given_back-IsCounted page s lt h c =
    let change = given_back-Changes page s h in
    let s' = given_back page s in
    record {
      total = c.total ∙ sym (count_same is_managed page s s' change refl);
      frees = omega (
        arith,
        c.frees,
        count_up is_free page s s' change lt refl refl,
        count-le (free_in s) page_count,
        count-le (free_in s') page_count,
      );
      zero_reserved = zero_stays page s s' change (λ e. cc) c.zero_reserved;
    }

abbrev pub is_allocated : PageState → Bool
is_allocated allocated = true
is_allocated _ = false

-- `pmm_free_page` frees the page of the address if it is one, and is allocated.
pub free_page_lem :
    (address : ℕ) (s : Pmm)
    → address < word_mod
    → IsCounted s
    → free_page address s ≡ (
        if address % page_size == 0 && is_allocated (state_of (address / page_size) s)
        then (true, given_back (address / page_size) s)
        else (false, s))
unfolding free_page
free_page_lem address s lt c =
    let e : page_of address ≡ address / page_size = omega arith in
    rw e (elim (Bool-cases (address == 0)) [
      | inl zero_address ↦
          let z : address / page_size ≡ 0 = ground arith in rw z (ground (arith, c.zero_reserved))
      | inr other ↦ elim (Bool-cases (page_is_managed (address / page_size) s)) [
        | inl m ↦ elim (Bool-cases (page_is_allocated (address / page_size) s)) [
          | inl a ↦ rw (m, a) (ground arith)
          | inr a ↦ rw (m, a) (ground arith)
        ]
        | inr m ↦ elim (Bool-cases (page_is_allocated (address / page_size) s)) [
          | inl a ↦ rw (m, a) (ground arith)
          | inr a ↦ rw (m, a) (ground arith)
        ]
      ]
    ])
