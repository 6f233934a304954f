-- ===== src/Pmm/Loops.antt =====
-- The loops of kernel/mm/pmm.c over a span of pages.
use tinyshell_os.Base.{
  ℕ, zero, suc, ◌+◌, ◌-◌, ◌≤◌, ◌<◌, ◌≡◌, refl, ◌∙◌, inl, inr, Bool, ◌&&◌, arith, loop, loop_inv,
  Bool-cases, ltb, leb, ◌==◌, if◌then◌else◌,
}
use tinyshell_os.Pmm.{Pmm, page_count, mark_page_usable, mark_page_reserved, mark_span}
use tinyshell_os.Pmm.Pages.{PageState, state_of, IsCounted}
use tinyshell_os.Pmm.Marks.{
  made_usable, made_reserved, mark_page_usable-state, mark_page_reserved-state,
}
use tinyshell_os.Pmm.Ranges.{
  mark_page_usable-IsCounted, mark_page_reserved-IsCounted, mark_page_usable_frozen,
  mark_page_reserved_frozen,
}

abbrev pub in_span : ℕ × ℕ → ℕ → Bool
in_span (first, last_excl) j = leb first j && ltb j last_excl

-- What a function does to one page, its loop does to each page of the span once.
pub record Marks (mark : ℕ → Pmm → Pmm) (made : ℕ → PageState → PageState) : Type 0 where
  pub one_page :
      (page : ℕ) (s : Pmm) (j : ℕ)
      → state_of j (mark page s) ≡ (if j == page then made page (state_of page s) else state_of j s)
  pub keeps_counts :
      (page : ℕ) (s : Pmm) → page < page_count → IsCounted s → IsCounted (mark page s)
  pub keeps_frozen : (page : ℕ) (s : Pmm) → (mark page s).ownership_frozen ≡ s.ownership_frozen

pub mark_page_usable-Marks : Marks mark_page_usable made_usable
mark_page_usable-Marks = record {
  one_page = mark_page_usable-state;
  keeps_counts = mark_page_usable-IsCounted;
  keeps_frozen = mark_page_usable_frozen;
}

pub mark_page_reserved-Marks : Marks mark_page_reserved made_reserved
mark_page_reserved-Marks = record {
  one_page = mark_page_reserved-state;
  keeps_counts = mark_page_reserved-IsCounted;
  keeps_frozen = mark_page_reserved_frozen;
}

module _ (mark : ℕ → Pmm → Pmm) (made : ℕ → PageState → PageState) (m : Marks mark made) where
  loop-state :
      (first n : ℕ) (s : Pmm) (j : ℕ)
      → state_of j (loop n (λ i s. mark (first + i) s) s)
        ≡ (if leb first j && ltb j (first + n) then made j (state_of j s) else state_of j s)
  unfolding loop
  loop-state first zero s j = ground arith
  loop-state first (suc n) s j =
      m.one_page (first + n) (loop n (λ i s. mark (first + i) s) s) j
      ∙ elim (Bool-cases (j == first + n)) [
        | inl same ↦
            let e : j ≡ first + n = ground arith in
            rw (same, ← e) (ground (arith, loop-state first n s j))
        | inr other ↦ rw other (ground (arith, loop-state first n s j))
      ]

  pub mark_span-state :
      (first last_excl : ℕ) (s : Pmm) (j : ℕ)
      → state_of j (mark_span mark (first, last_excl) s)
        ≡ (if in_span (first, last_excl) j then made j (state_of j s) else state_of j s)
  unfolding mark_span
  mark_span-state first last_excl s j = loop-state first (last_excl - first) s j ∙ ground arith

  pub mark_span-IsCounted :
      (first last_excl : ℕ) (s : Pmm)
      → last_excl ≤ page_count
      → IsCounted s
      → IsCounted (mark_span mark (first, last_excl) s)
  unfolding mark_span
  mark_span-IsCounted first last_excl s le c =
      loop_inv (λ i s. IsCounted s) (λ i s. mark (first + i) s) (last_excl - first)
        (λ i s lt c. m.keeps_counts (first + i) s (omega arith) c) s c

  pub mark_span_frozen :
      (first last_excl : ℕ) (s : Pmm)
      → (mark_span mark (first, last_excl) s).ownership_frozen ≡ s.ownership_frozen
  unfolding mark_span
  mark_span_frozen first last_excl s =
      loop_inv (λ i (t : Pmm). t.ownership_frozen ≡ s.ownership_frozen) (λ i s. mark (first + i) s)
        (last_excl - first) (λ i t lt e. m.keeps_frozen (first + i) t ∙ e) s refl
