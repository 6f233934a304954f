-- ===== src/Pmm/Agree.antt =====
-- When the allocator's state shows a table of page states, and the calls on one page.
use tinyshell_os.Base.{
  ℕ, ◌/◌, ◌%◌, ◌<◌, ◌≡◌, refl, ap, sym, ◌∙◌, inl, inr, Bool, true, false, ◌&&◌, arith, write,
  find_first, find_first-some, find_first-congr, Option-cases, Bool-cases, word_mod, ◌==◌,
}
use tinyshell_os.Pmm.{Pmm, page_size, page_count, take_page, alloc_page, free_page}
use tinyshell_os.Pmm.Pages.{
  PageState, unknown, free, allocated, reserved, state_of, is_free, IsCounted,
}
use tinyshell_os.Pmm.Ranges.{Changes, free_in}
use tinyshell_os.Pmm.Search.{
  alloc_page-first, take_page-Changes, take_page-IsCounted, frozen, given_back, given_back-Changes,
  given_back-IsCounted, is_allocated, free_page_lem,
}
use tinyshell_os.Pmm.Calls.{after}
use tinyshell_os.Pmm.Model
use tinyshell_os.Pmm.Model.{Pages, unknown_pages, usable, unusable, turn}

pub record Shows (s : Pmm) (t : Pages) : Type 0 where
  pub same_states : (page : ℕ) → page < page_count → state_of page s ≡ t.states page
  pub same_fixed : s.ownership_frozen ≡ t.fixed
  pub right_counts : IsCounted s

-- One call agrees: the same reply, and states that still show the same.
abbrev pub Agree {ℓ} : {R : Type ℓ} → R × Pmm → R × Pages → Type ℓ
Agree a b = (a.0 ≡ b.0) × Shows a.1 b.1

find_first-shown :
    (s : Pmm) (t : Pages)
    → Shows s t
    → find_first (free_in s) page_count 0
      ≡ find_first (λ page. is_free (t.states page)) page_count 0
find_first-shown s t sh =
    find_first-congr _ _ page_count 0 λ page lo hi. ap is_free (sh.same_states page (omega arith))

frozen-IsCounted : (s : Pmm) → IsCounted s → IsCounted (frozen s)
frozen-IsCounted s c = record { total = c.total; frees = c.frees; zero_reserved = c.zero_reserved }

-- One page changes on both sides.
Changes-Shows :
    (page : ℕ) (before after : PageState) (s s' : Pmm) (t t' : Pages)
    → Shows s t
    → Changes page before after s s'
    → IsCounted s'
    → s'.ownership_frozen ≡ t'.fixed
    → t'.states ≡ write t.states page after
    → Shows s' t'
Changes-Shows page before after s s' t t' sh c counts fixes e = record {
  same_states = λ j lt. elim (Bool-cases (j == page)) [
    | inl same ↦
        let k : j ≡ page = ground arith in
        ap (λ i. state_of i s') k ∙ c.is_now ∙ sym (rw (e, same) refl)
    | inr other ↦ sym (c.others j (ground arith)) ∙ sh.same_states j lt ∙ sym (rw (e, other) refl)
  ];
  same_fixed = fixes;
  right_counts = counts;
}

pub alloc-Agree : (s : Pmm) (t : Pages) → Shows s t → Agree (alloc_page s) (Model.alloc t)
unfolding Model.alloc take_page
alloc-Agree s t sh =
    rw (alloc_page-first s sh.right_counts)
      (elim (Option-cases (find_first (free_in s) page_count 0)) [
        | inl e ↦
            rw (e, Model.alloc, sym (find_first-shown s t sh) ∙ e)
              (
                refl,
                record {
                  same_states = sh.same_states;
                  same_fixed = refl;
                  right_counts = frozen-IsCounted s sh.right_counts;
                },
              )
        | inr (page, e) ↦
            let (lo, hi, hit) = find_first-some (free_in s) page_count 0 page e in
            let is : state_of page (frozen s) ≡ free = free_lem (state_of page s) hit in
            rw (e, Model.alloc, sym (find_first-shown s t sh) ∙ e)
              (
                omega arith,
                Changes-Shows page free allocated (frozen s) (take_page page (frozen s)).1
                    (record t { fixed = true }) _
                    (record {
                      same_states = sh.same_states;
                      same_fixed = refl;
                      right_counts = frozen-IsCounted s sh.right_counts;
                    })
                    (take_page-Changes page (frozen s) is)
                    (take_page-IsCounted page (frozen s) (omega arith) is
                      (frozen-IsCounted s sh.right_counts))
                    refl refl,
              )
      ])
  where
    free_lem : (u : PageState) → is_free u ≡ true → u ≡ free
    free_lem unknown h = cc
    free_lem free h = refl
    free_lem allocated h = cc
    free_lem reserved h = cc

pub give_back-Agree :
    (address : ℕ) (s : Pmm) (t : Pages)
    → address < word_mod
    → Shows s t
    → Agree (free_page address s) (Model.give_back address t)
unfolding Model.give_back
give_back-Agree address s t lt sh =
    rw
      (
        free_page_lem address s lt sh.right_counts,
        ← sh.same_states (address / page_size) (omega arith),
      )
      (elim (Bool-cases
        (address % page_size == 0 && is_allocated (state_of (address / page_size) s))) [
          | inl good ↦
              let is : state_of (address / page_size) s ≡ allocated =
                allocated_lem (address % page_size == 0) (state_of (address / page_size) s) good in
              rw good (
                refl,
                Changes-Shows (address / page_size) allocated free s
                    (given_back (address / page_size) s) t _ sh
                    (given_back-Changes (address / page_size) s is)
                    (given_back-IsCounted (address / page_size) s (omega arith) is sh.right_counts)
                    sh.same_fixed refl,
              )
          | inr bad ↦ rw bad (refl, sh)
        ])
  where
    allocated_lem : (b : Bool) (u : PageState) → (b && is_allocated u) ≡ true → u ≡ allocated
    allocated_lem true unknown h = cc
    allocated_lem true free h = cc
    allocated_lem true allocated h = refl
    allocated_lem true reserved h = cc
    allocated_lem false u h = cc
