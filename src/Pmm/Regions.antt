-- ===== src/Pmm/Regions.antt =====
-- The region calls of kernel/mm/pmm.c against the pages' states.
use tinyshell_os.Base.{
  ℕ, ◌+◌, ◌^◌, ◌≤◌, ◌<◌, ◌≡◌, ◌≢◌, refl, ap, sym, ◌∙◌, inl, inr, Bool, true, false, none, some,
  arith, Bool-cases, ◌==◌, if◌then◌else◌,
}
use tinyshell_os.Pmm.{
  Pmm, page_count, mark_page_usable, mark_page_reserved, mark_span, inward_page_span,
  outward_page_span, clip_to_physical, add_usable_region, reserve_region,
}
use tinyshell_os.Pmm.Pages.{PageState, unknown, free, allocated, reserved, state_of}
use tinyshell_os.Pmm.Marks.{made_usable, made_reserved}
use tinyshell_os.Pmm.Loops.{
  in_span, Marks, mark_page_usable-Marks, mark_page_reserved-Marks, mark_span-state,
  mark_span-IsCounted, mark_span_frozen,
}
use tinyshell_os.Pmm.Spans.{
  inside, meets, inward_page_span-inside, outward_page_span-meets, inward_page_span-le,
  outward_page_span-le, IsClipped, clip_to_physical-cases,
}
use tinyshell_os.Pmm.Model
use tinyshell_os.Pmm.Model.{Pages, unknown_pages, usable, unusable, turn}
use tinyshell_os.Pmm.Agree.{Shows, Agree}

-- A region's loop turns the pages that pass the region's test.
module _ (mark : ℕ → Pmm → Pmm) (made : ℕ → PageState → PageState) (m : Marks mark made)
    (pages : ℕ × ℕ) (test : ℕ → Bool) (f : PageState → PageState) (s : Pmm) (t : Pages)
    (sh : Shows s t) where
  turned :
      ((page : ℕ)
        → page < page_count
        → page ≢ 0
        → (in_span pages page ≡ test page) × ((u : PageState) → made page u ≡ f u))
      → made 0 reserved ≡ reserved
      → f reserved ≡ reserved
      → (page : ℕ) → page < page_count
      → (if in_span pages page then made page (state_of page s) else state_of page s)
        ≡ (if test page then f (t.states page) else t.states page)
  turned same zero_made zero_f page lt = elim (Bool-cases (page == 0)) [
    | inl zero_page ↦
        let e : 0 ≡ page = ground arith in
        ap (λ p. if in_span pages p then made p (state_of p s) else state_of p s) (sym e)
        ∙ stays (in_span pages 0) (made 0) zero_made
        ∙ sym (stays' (test 0) zero_f)
        ∙ ap (λ p. if test p then f (t.states p) else t.states p) e
    | inr other ↦
        let (e, made_f) = same page lt (ground arith) in
        rw (e, sh.same_states page lt, made_f (t.states page))
  ]
    where
      stays :
          (b : Bool) (g : PageState → PageState)
          → g reserved ≡ reserved
          → (if b then g (state_of 0 s) else state_of 0 s) ≡ reserved
      stays true g h = ap g sh.right_counts.zero_reserved ∙ h
      stays false g h = sh.right_counts.zero_reserved

      shown_zero : t.states 0 ≡ reserved
      shown_zero = sym (sh.same_states 0 (omega arith)) ∙ sh.right_counts.zero_reserved

      stays' :
          (b : Bool) → f reserved ≡ reserved → (if b then f (t.states 0) else t.states 0) ≡ reserved
      stays' true h = ap f shown_zero ∙ h
      stays' false h = shown_zero

  span-Shows :
      pages.1 ≤ page_count
      → ((page : ℕ)
          → page < page_count
          → page ≢ 0
          → (in_span pages page ≡ test page) × ((u : PageState) → made page u ≡ f u))
      → made 0 reserved ≡ reserved
      → f reserved ≡ reserved
      → Shows (mark_span mark pages s) (turn test f t)
  span-Shows le same zero_made zero_f = record {
    same_states = λ page lt.
        mark_span-state mark made m pages.0 pages.1 s page ∙ turned same zero_made zero_f page lt;
    same_fixed = mark_span_frozen mark made m pages.0 pages.1 s ∙ sh.same_fixed;
    right_counts = mark_span-IsCounted mark made m pages.0 pages.1 s le sh.right_counts;
  }

usable_made : (page : ℕ) → page ≢ 0 → (u : PageState) → made_usable page u ≡ usable u
usable_made page ne unknown = ground arith
usable_made page ne free = refl
usable_made page ne allocated = refl
usable_made page ne reserved = refl

unusable_made : (page : ℕ) (u : PageState) → made_reserved page u ≡ unusable u
unusable_made page unknown = refl
unusable_made page free = refl
unusable_made page allocated = refl
unusable_made page reserved = refl

-- Two tests that come out the same.
both_tests {ℓ κ} :
    {A B : Type ℓ} (P : A → B → Type κ) (b c : Bool) (x y : A) (u v : B)
    → b ≡ c
    → P x u
    → P y v
    → P (if b then x else y) (if c then u else v)
both_tests P true true x y u v e f g = f
both_tests P false false x y u v e f g = g
both_tests P true false x y u v e f g = cc
both_tests P false true x y u v e f g = cc

-- A region call: its clipped span has the pages that pass the test.
region-Agree :
    (mark : ℕ → Pmm → Pmm) (made : ℕ → PageState → PageState) (m : Marks mark made)
    (pages : ℕ × ℕ → ℕ × ℕ) (test : ℕ → Bool) (f : PageState → PageState)
    → made 0 reserved ≡ reserved
    → f reserved ≡ reserved
    → (base length : ℕ) → base < 2 ^ 64
    → length < 2 ^ 64
    → ((clipped : ℕ × ℕ)
        → IsClipped base length clipped
        → ((pages clipped).1 ≤ page_count)
          × ((page : ℕ)
              → page < page_count
              → page ≢ 0
              → (in_span (pages clipped) page ≡ test page) × ((u : PageState) → made page u ≡ f u)))
    → (s : Pmm) (t : Pages) → Shows s t
    → Agree
        (if s.ownership_frozen then (false, s) else elim (clip_to_physical base length) [
          | none ↦ (false, s)
          | some clipped ↦ (true, mark_span mark (pages clipped) s)
        ])
        (Model.region base length test f t)
unfolding Model.region
region-Agree mark made m pages test f z z' base length lb ll same s t sh =
    both_tests Agree s.ownership_frozen t.fixed _ _ _ _ sh.same_fixed (refl, sh)
      (elim (clip_to_physical-cases base length lb ll) [
        | inl (e, over) ↦ rw (e, over) (refl, sh)
        | inr (clipped, e, fits, c) ↦
            let (le, same_pages) = same clipped c in
            rw (e, fits)
              (refl, span-Shows mark made m (pages clipped) test f s t sh le same_pages z z')
      ])

pub add-Agree :
    (base length : ℕ) (s : Pmm) (t : Pages)
    → base < 2 ^ 64
    → length < 2 ^ 64
    → Shows s t
    → Agree
        (add_usable_region base length s)
        (Model.region base length (inside base (base + length)) usable t)
unfolding add_usable_region
add-Agree base length s t lb ll sh =
    region-Agree mark_page_usable made_usable mark_page_usable-Marks (λ c. inward_page_span c.0 c.1)
      (inside base (base + length)) usable refl refl base length lb ll
      (λ (clipped : ℕ × ℕ) c. (
        inward_page_span-le clipped.0 clipped.1 c.end_fits,
        λ page lt ne. (
          inward_page_span-inside clipped.0 clipped.1 page c.base_fits c.end_fits ne
              ∙ c.same_inside page lt,
          usable_made page ne,
        ),
      ))
      s t sh

pub reserve-Agree :
    (base length : ℕ) (s : Pmm) (t : Pages)
    → base < 2 ^ 64
    → length < 2 ^ 64
    → Shows s t
    → Agree
        (reserve_region base length s)
        (Model.region base length (meets base (base + length)) unusable t)
unfolding reserve_region
reserve-Agree base length s t lb ll sh =
    region-Agree mark_page_reserved made_reserved mark_page_reserved-Marks
      (λ c. outward_page_span c.0 c.1) (meets base (base + length)) unusable refl refl base length
      lb ll
      (λ (clipped : ℕ × ℕ) c. (
        outward_page_span-le clipped.0 clipped.1 c.end_fits,
        λ page lt ne. (
          outward_page_span-meets clipped.0 clipped.1 page c.base_fits c.end_fits
              ∙ c.same_meets page lt,
          unusable_made page,
        ),
      ))
      s t sh
