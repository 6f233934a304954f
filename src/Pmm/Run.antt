-- ===== src/Pmm/Run.antt =====
-- No client of kernel/mm/pmm.c can tell it from the pages' states.
use tinyshell_os.Base.{
  ℕ, ◌/◌, ◌%◌, ◌<◌, ◌≡◌, refl, ap, ap₂, sym, ◌∙◌, inl, inr, Bool, false, List, [], ◌∷◌, arith,
  Array, each, each_lem, Bool-cases, ◌==◌,
}
use tinyshell_os.Pmm.{
  Pmm, page_count, bitmap_words, mark_page_reserved, reset, free_page_count, total_page_count,
}
use tinyshell_os.Base.Counts.{count-none, count-ext}
use tinyshell_os.Pmm.Pages.{state_of, is_free, is_managed, IsCounted}
use tinyshell_os.Pmm.Marks.{mark_page_reserved-state}
use tinyshell_os.Pmm.Calls.{
  Call, adds, reserves, allocs, frees, asks_free, asks_total, told, page_at, counted, word64,
  word32, step, run, after,
}
use tinyshell_os.Pmm.Model
use tinyshell_os.Pmm.Model.{Pages, unknown_pages, usable, unusable, turn}
use tinyshell_os.Pmm.Agree.{Shows, alloc-Agree, give_back-Agree}
use tinyshell_os.Pmm.Regions.{add-Agree, reserve-Agree}

-- The bitmaps are cleared before page 0 is reserved.
cleared_word :
    (b : Array (Array Bool)) (page : ℕ)
    → page < page_count
    → each bitmap_words (λ _ _. λ _. false) b (page / 32) (page % 32) ≡ false
cleared_word b page lt =
    ap (λ (w : Array Bool). w (page % 32)) (each_lem bitmap_words (λ _ _. λ _. false) b (page / 32))
    ∙ ground arith

reset-state :
    (s : Pmm) (page : ℕ) → page < page_count → state_of page (reset s) ≡ unknown_pages.states page
unfolding reset
reset-state s page lt = mark_page_reserved-state 0 _ page ∙ elim (Bool-cases (page == 0)) [
  | inl same ↦
      rw
        (
          same,
          cleared_word s.managed_pages 0 (omega arith),
          cleared_word s.allocated_pages 0 (omega arith),
        )
        refl
  | inr other ↦
      rw (other, cleared_word s.managed_pages page lt, cleared_word s.allocated_pages page lt) refl
]

reset_rest :
    (s : Pmm)
    → ((reset s).total_pages ≡ 0)
      × ((reset s).free_pages ≡ 0)
      × ((reset s).ownership_frozen ≡ false)
unfolding reset mark_page_reserved
reset_rest s =
    rw
      (cleared_word s.managed_pages 0 (omega arith), cleared_word s.allocated_pages 0 (omega arith))
      (refl, refl, refl)

no_managed : (page : ℕ) → is_managed (unknown_pages.states page) ≡ false
no_managed page = elim (Bool-cases (page == 0)) [
  | inl same ↦ rw same refl
  | inr other ↦ rw other refl
]

no_free : (page : ℕ) → is_free (unknown_pages.states page) ≡ false
no_free page = elim (Bool-cases (page == 0)) [ inl same ↦ rw same refl | inr other ↦ rw other refl ]

reset-Shows : (s : Pmm) → Shows (reset s) unknown_pages
reset-Shows s =
    let (none_managed, none_free, fixes) = reset_rest s in
    record {
      same_states = reset-state s;
      same_fixed = fixes;
      right_counts = record {
        total =
            none_managed
            ∙ sym (
                count-none _ page_count
                  λ page lt. ap is_managed (reset-state s page lt) ∙ no_managed page);
        frees =
            none_free
            ∙ sym (
                count-none _ page_count
                  λ page lt. ap is_free (reset-state s page lt) ∙ no_free page);
        zero_reserved = reset-state s 0 (omega arith);
      };
    }

step-Agree :
    (s : Pmm) (t : Pages) (c : Call)
    → Shows s t
    → ((step s c).0 ≡ (Model.step t c).0) × Shows (step s c).1 (Model.step t c).1
unfolding step Model.step free_page_count total_page_count
step-Agree s t (adds base length) sh =
    let (b, sh') = add-Agree (word64 base) (word64 length) s t (omega arith) (omega arith) sh in
    (ap told b, sh')
step-Agree s t (reserves base length) sh =
    let (b, sh') = reserve-Agree (word64 base) (word64 length) s t (omega arith) (omega arith) sh in
    (ap told b, sh')
step-Agree s t allocs sh = let (a, sh') = alloc-Agree s t sh in (ap page_at a, sh')
step-Agree s t (frees address) sh =
    let (b, sh') = give_back-Agree (word32 address) s t (omega arith) sh in (ap told b, sh')
step-Agree s t asks_free sh = (
  ap counted (
      sh.right_counts.frees
      ∙ count-ext _ _ page_count λ page lt. ap is_free (sh.same_states page lt)),
  sh,
)
step-Agree s t asks_total sh = (
  ap counted (
      sh.right_counts.total
      ∙ count-ext _ _ page_count λ page lt. ap is_managed (sh.same_states page lt)),
  sh,
)

run_agrees : (s : Pmm) (t : Pages) (cs : List Call) → Shows s t → run s cs ≡ Model.run t cs
unfolding run Model.run
run_agrees s t [] sh = refl
run_agrees s t (c ∷ cs) sh =
    let (r, sh') = step-Agree s t c sh in
    ap₂ ◌∷◌ r (run_agrees (step s c).1 (Model.step t c).1 cs sh')

after_agrees : (s : Pmm) (t : Pages) (cs : List Call) → Shows s t → IsCounted (after s cs)
unfolding after
after_agrees s t [] sh = sh.right_counts
after_agrees s t (c ∷ cs) sh =
    after_agrees (step s c).1 (Model.step t c).1 cs (step-Agree s t c sh).1

-- After `pmm_reset`, whatever the bitmaps held before, every sequence of calls of the allocator
-- gets the replies of a table of 2^20 pages, each unknown, free, allocated or reserved, page 0
-- reserved and the others unknown at first. A usable region frees the unknown pages that lie wholly
-- inside it, a reserved region reserves the unknown and free pages that it meets, both are refused
-- once a page was asked for or if the region does not end below 2^64; an allocation takes the first
-- free page and returns its address, or 0 if there is none; a release of the address of an
-- allocated page frees it, any other is refused; the counts are those of the free pages, and of the
-- free and allocated pages.
pub run-reset-Pages : (s : Pmm) (cs : List Call) → run (reset s) cs ≡ Model.run unknown_pages cs
run-reset-Pages s cs = run_agrees (reset s) unknown_pages cs (reset-Shows s)

-- After `pmm_reset` and any calls, the counters of managed and of free pages are the numbers of
-- pages that the two bitmaps give these states, and page 0 is reserved.
pub after-reset-IsCounted : (s : Pmm) (cs : List Call) → IsCounted (after (reset s) cs)
after-reset-IsCounted s cs = after_agrees (reset s) unknown_pages cs (reset-Shows s)
