-- ===== src/Pmm/Marks.antt =====
-- `mark_page_usable` and `mark_page_reserved` of kernel/mm/pmm.c change the state of one page.
use tinyshell_os.Base.{
  ℕ, ◌≡◌, refl, ap, ap₂, ◌∙◌, inl, inr, Bool, true, false, arith, Bool-cases, ◌==◌, if◌then◌else◌,
}
use tinyshell_os.Pmm.{
  Pmm, page_is_managed, page_is_allocated, set_managed, set_allocated, mark_page_usable,
  mark_page_reserved,
}
use tinyshell_os.Pmm.Pages.{
  PageState, unknown, free, allocated, reserved, encoded, state_of, set_bit_lem,
}

abbrev pub made_usable : ℕ → PageState → PageState
made_usable page unknown = if page == 0 then unknown else free
made_usable page free = free
made_usable page allocated = allocated
made_usable page reserved = reserved

abbrev pub made_reserved : ℕ → PageState → PageState
made_reserved page unknown = reserved
made_reserved page free = reserved
made_reserved page allocated = allocated
made_reserved page reserved = reserved

-- The encodings after one page's bits are written.
module _ (page : ℕ) (s : Pmm) (j : ℕ) where
  pub both_set :
      (m a : Bool)
      → state_of j (set_allocated page a (set_managed page m s))
        ≡ (if j == page then encoded m a else state_of j s)
  both_set m a =
      ap₂ encoded (set_bit_lem page m s.managed_pages j) (set_bit_lem page a s.allocated_pages j)
      ∙ same (j == page)
    where
      same :
          (b : Bool)
          → encoded (if b then m else page_is_managed j s) (if b then a else page_is_allocated j s)
            ≡ (if b then encoded m a else state_of j s)
      same true = refl
      same false = refl

  pub allocated_set :
      (a : Bool)
      → state_of j (set_allocated page a s)
        ≡ (if j == page then encoded (page_is_managed page s) a else state_of j s)
  allocated_set a =
      ap (encoded (page_is_managed j s)) (set_bit_lem page a s.allocated_pages j)
      ∙ elim (Bool-cases (j == page)) [
        | inl same ↦ let e : j ≡ page = ground arith in rw e (ground arith)
        | inr other ↦ rw other
      ]

  pub unchanged :
      (t : PageState) → state_of page s ≡ t → state_of j s ≡ (if j == page then t else state_of j s)
  unchanged t h = elim (Bool-cases (j == page)) [
    | inl same ↦ let e : j ≡ page = ground arith in rw same (ap (λ i. state_of i s) e ∙ h)
    | inr other ↦ rw other
  ]

  pub mark_page_usable-state :
      state_of j (mark_page_usable page s)
      ≡ (if j == page then made_usable page (state_of page s) else state_of j s)
  unfolding mark_page_usable
  mark_page_usable-state = elim (Bool-cases (page_is_managed page s)) [
    | inl m ↦ elim (Bool-cases (page_is_allocated page s)) [
      | inl a ↦ ground (arith, unchanged allocated)
      | inr a ↦ ground (arith, unchanged free)
    ]
    | inr m ↦ elim (Bool-cases (page_is_allocated page s)) [
      | inl a ↦ ground (arith, unchanged reserved)
      | inr a ↦ ground (arith, both_set true false, unchanged unknown)
    ]
  ]

  pub mark_page_reserved-state :
      state_of j (mark_page_reserved page s)
      ≡ (if j == page then made_reserved page (state_of page s) else state_of j s)
  unfolding mark_page_reserved
  mark_page_reserved-state = elim (Bool-cases (page_is_managed page s)) [
    | inl m ↦ elim (Bool-cases (page_is_allocated page s)) [
      | inl a ↦ ground (arith, unchanged allocated)
      | inr a ↦ ground (arith, both_set false true)
    ]
    | inr m ↦ elim (Bool-cases (page_is_allocated page s)) [
      | inl a ↦ ground (arith, unchanged reserved)
      | inr a ↦ ground (arith, allocated_set true)
    ]
  ]
