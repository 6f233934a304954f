-- ===== src/Pmm/Ranges.antt =====
-- The counters that kernel/mm/pmm.c keeps of its pages.
use tinyshell_os.Base.{
  ℕ, ◌+◌, ◌<◌, ◌≡◌, ◌≢◌, refl, ap, sym, ◌∙◌, inl, inr, Bool, true, false, ◌||◌, arith, Bool-cases,
  either_way, sub32, ◌==◌,
}
use tinyshell_os.Pmm.{
  Pmm, page_count, page_is_managed, page_is_allocated, page_is_reserved, set_managed, set_allocated,
  mark_page_usable, mark_page_reserved,
}
use tinyshell_os.Base.Counts.{count, count-le, count-ext, count-add}
use tinyshell_os.Pmm.Pages.{
  PageState, unknown, free, reserved, state_of, is_free, is_managed, IsCounted,
}
use tinyshell_os.Pmm.Marks.{both_set, allocated_set}

abbrev pub managed_in : Pmm → ℕ → Bool
managed_in s p = is_managed (state_of p s)

abbrev pub free_in : Pmm → ℕ → Bool
free_in s p = is_free (state_of p s)

-- Two states with one page's state changed.
pub record Changes (page : ℕ) (before after : PageState) (s s' : Pmm) : Type 0 where
  pub was : state_of page s ≡ before
  pub is_now : state_of page s' ≡ after
  pub others : (j : ℕ) → j ≢ page → state_of j s ≡ state_of j s'

-- A page that begins or ceases to pass a test of its state moves the count by one.
pub count_up :
    (test : PageState → Bool) (page : ℕ) {t u : PageState} (s s' : Pmm)
    → Changes page t u s s'
    → page < page_count
    → test t ≡ false
    → test u ≡ true
    → count (λ p. test (state_of p s')) page_count ≡ count (λ p. test (state_of p s)) page_count + 1
count_up test page s s' c lt e f =
    count-add (λ p. test (state_of p s)) (λ p. test (state_of p s')) page page_count lt
      (ap test c.was ∙ e) (ap test c.is_now ∙ f) (λ j ne. ap test (c.others j ne))

pub count_same :
    (test : PageState → Bool) (page : ℕ) {t u : PageState} (s s' : Pmm)
    → Changes page t u s s'
    → test t ≡ test u
    → count (λ p. test (state_of p s')) page_count ≡ count (λ p. test (state_of p s)) page_count
count_same test page {t} {u} s s' c e =
    count-ext (λ p. test (state_of p s')) (λ p. test (state_of p s)) page_count
      λ j lt. elim (Bool-cases (j == page)) [
        | inl same ↦
            let k : page ≡ j = ground arith in
            ap (λ i. test (state_of i s')) (sym k)
            ∙ ap test c.is_now
            ∙ sym e
            ∙ sym (ap test c.was)
            ∙ ap (λ i. test (state_of i s)) k
        | inr other ↦ ap test (sym (c.others j (ground arith)))
      ]

pub flip : (page : ℕ) {t u : PageState} {s s' : Pmm} → Changes page t u s s' → Changes page u t s' s
flip page c = record { was = c.is_now; is_now = c.was; others = λ j ne. sym (c.others j ne) }

pub zero_stays :
    (page : ℕ) {t u : PageState} (s s' : Pmm)
    → Changes page t u s s'
    → t ≢ reserved
    → state_of 0 s ≡ reserved
    → state_of 0 s' ≡ reserved
zero_stays page s s' c ne z = elim (Bool-cases (0 == page)) [
  | inl same ↦
      let e : page ≡ 0 = ground arith in absurd (ne (sym c.was ∙ ap (λ i. state_of i s) e ∙ z))
  | inr other ↦ sym (c.others 0 (ground arith)) ∙ z
]

pub mark_page_usable-IsCounted :
    (page : ℕ) (s : Pmm) → page < page_count → IsCounted s → IsCounted (mark_page_usable page s)
unfolding mark_page_usable
mark_page_usable-IsCounted page s lt c =
    either_way IsCounted (page == 0 || (page_is_reserved page s || page_is_managed page s)) _ _
      (λ skip. c)
      (λ fresh.
        let s' = set_allocated page false (set_managed page true s) in
        let was : state_of page s ≡ unknown = ground arith in
        let change : Changes page unknown free s s' = record {
          was = was;
          is_now = both_set page s page true false ∙ ground arith;
          others = λ j ne. sym (both_set page s j true false ∙ ground arith);
        } in
        record {
          total = omega (
            arith,
            c.total,
            count_up is_managed page s s' change lt refl refl,
            count-le (managed_in s) page_count,
          );
          frees = omega (
            arith,
            c.frees,
            count_up is_free page s s' change lt refl refl,
            count-le (free_in s) page_count,
          );
          zero_reserved = zero_stays page s s' change (λ e. cc) c.zero_reserved;
        })

released :
    (page : ℕ) (s : Pmm)
    → page < page_count
    → IsCounted s
    → page_is_managed page s ≡ true
    → page_is_allocated page s ≡ false
    → IsCounted (record (set_allocated page true (set_managed page false s)) {
      total_pages = sub32 s.total_pages 1;
      free_pages = sub32 s.free_pages 1;
    })
released page s lt c m a =
    let s' = set_allocated page true (set_managed page false s) in
    let change : Changes page free reserved s s' = record {
      was = ground arith;
      is_now = both_set page s page false true ∙ ground arith;
      others = λ j ne. sym (both_set page s j false true ∙ ground arith);
    } in
    let back = flip page change in
    record {
      total = omega (
        arith,
        c.total,
        count_up is_managed page s' s back lt refl refl,
        count-le (managed_in s) page_count,
      );
      frees = omega (
        arith,
        c.frees,
        count_up is_free page s' s back lt refl refl,
        count-le (free_in s) page_count,
      );
      zero_reserved = zero_stays page s s' change (λ e. cc) c.zero_reserved;
    }

pub mark_page_reserved-IsCounted :
    (page : ℕ) (s : Pmm) → page < page_count → IsCounted s → IsCounted (mark_page_reserved page s)
unfolding mark_page_reserved
mark_page_reserved-IsCounted page s lt c =
    either_way IsCounted (page_is_reserved page s) _ _ (λ skip. c)
      (λ other.
        either_way IsCounted (page_is_managed page s) _ _
          (λ m.
            either_way IsCounted (page_is_allocated page s) _ _ (λ live. c)
              (λ a. released page s lt c m a))
          (λ m.
            let s' = set_allocated page true s in
            let change : Changes page unknown reserved s s' = record {
              was = ground arith;
              is_now = allocated_set page s page true ∙ ground arith;
              others = λ j ne. sym (allocated_set page s j true ∙ ground arith);
            } in
            record {
              total = c.total ∙ sym (count_same is_managed page s s' change refl);
              frees = c.frees ∙ sym (count_same is_free page s s' change refl);
              zero_reserved = zero_stays page s s' change (λ e. cc) c.zero_reserved;
            }))

pub mark_page_usable_frozen :
    (page : ℕ) (s : Pmm) → (mark_page_usable page s).ownership_frozen ≡ s.ownership_frozen
unfolding mark_page_usable
mark_page_usable_frozen page s = ground arith

pub mark_page_reserved_frozen :
    (page : ℕ) (s : Pmm) → (mark_page_reserved page s).ownership_frozen ≡ s.ownership_frozen
unfolding mark_page_reserved
mark_page_reserved_frozen page s = ground arith
