-- ===== src/Pmm/Spans.antt =====
-- Which pages the spans of kernel/mm/pmm.c hold.
use tinyshell_os.Base.{
  ℕ, ◌+◌, ◌-◌, ◌*◌, ◌/◌, ◌%◌, ◌^◌, ◌≤◌, ◌<◌, ◌≡◌, ◌≢◌, refl, ◌∙◌, ◌⊎◌, inl, inr, Bool, true, false,
  ◌&&◌, none, some, arith, Bool-cases, either_way, ltb, leb, ◌==◌, if◌then◌else◌,
}
use tinyshell_os.Pmm.{
  page_size, page_count, physical_limit, word64_max, page_floor, page_ceiling, page_of, span,
  aligned_end, clip_to_physical, inward_page_span, outward_page_span,
}
use tinyshell_os.Pmm.Loops.{in_span}

-- The page lies inside the bytes from `base` up to `end`, or meets them.
abbrev pub inside : ℕ → ℕ → ℕ → Bool
inside base end page = leb base (page * page_size) && leb (page * page_size + page_size) end

abbrev pub meets : ℕ → ℕ → ℕ → Bool
meets base end page =
    ltb base end && (ltb (page * page_size) end && ltb base (page * page_size + page_size))

-- For a bound of the physical space
ceiling_page :
    (base : ℕ) → base ≤ physical_limit → page_of (page_ceiling base) ≡ (base + 4095) / 4096
ceiling_page base le = omega arith

floor_page : (x : ℕ) → x ≤ physical_limit → page_of (page_floor x) ≡ x / 4096
floor_page x le = omega arith

span_lem : (a b j : ℕ) → in_span (span a b) j ≡ (leb a j && ltb j b)
span_lem a b j = ground arith

-- Inside, in page numbers
inside-pages :
    (base end page : ℕ)
    → page ≢ 0
    → (leb (if (base + 4095) / 4096 == 0 then 1 else (base + 4095) / 4096) page
        && ltb page (end / 4096))
      ≡ inside base end page
inside-pages base end page ne = ground arith

none_inside :
    (base end page : ℕ)
    → base ≤ physical_limit
    → leb (page_floor end) (page_ceiling base) ≡ true
    → inside base end page ≡ false
none_inside base end page le h = ground arith

-- The span of a usable region holds the pages that lie inside it, page 0 apart.
pub inward_page_span-inside :
    (base end page : ℕ)
    → base ≤ physical_limit
    → end ≤ physical_limit
    → page ≢ 0
    → in_span (inward_page_span base end) page ≡ inside base end page
unfolding inward_page_span
inward_page_span-inside base end page lb le ne =
    either_way (λ (s : ℕ × ℕ). in_span s page ≡ inside base end page)
      (leb (page_floor end) (page_ceiling base)) _ _
      (λ empty. let e = none_inside base end page lb empty in rw e (ground arith))
      (λ some_pages.
        rw (ceiling_page base lb, floor_page end le)
          (span_lem (if (base + 4095) / 4096 == 0 then 1 else (base + 4095) / 4096) (end / 4096)
              page
            ∙ inside-pages base end page ne))

-- Meeting, in page numbers
meets-pages :
    (base end page : ℕ)
    → base < end
    → (leb (base / 4096) page && ltb page ((end + 4095) / 4096)) ≡ meets base end page
meets-pages base end page lt = ground arith

aligned_end_lem : (end : ℕ) → end ≤ physical_limit → aligned_end end ≡ (end + 4095) / 4096 * 4096
aligned_end_lem end le = elim (Bool-cases (end % 4096 == 0)) [
  | inl whole ↦ rw whole (ground arith)
  | inr part ↦ rw part (ground arith)
]

last_page :
    (end : ℕ)
    → end ≤ physical_limit
    → (if leb physical_limit (aligned_end end) then page_count else page_of (aligned_end end))
      ≡ (end + 4095) / 4096
last_page end le = rw (aligned_end_lem end le) (ground arith)

-- The span of a reserved region holds the pages that meet it.
pub outward_page_span-meets :
    (base end page : ℕ)
    → base ≤ physical_limit
    → end ≤ physical_limit
    → in_span (outward_page_span base end) page ≡ meets base end page
unfolding outward_page_span
outward_page_span-meets base end page lb le =
    either_way (λ (s : ℕ × ℕ). in_span s page ≡ meets base end page) (leb end base) _ _
      (λ empty. ground arith)
      (λ some_pages.
        rw (floor_page base lb, last_page end le)
          (span_lem (base / 4096) ((end + 4095) / 4096) page
            ∙ meets-pages base end page (ground arith)))

pub inward_page_span-le :
    (base end : ℕ) → end ≤ physical_limit → (inward_page_span base end).1 ≤ page_count
unfolding inward_page_span
inward_page_span-le base end le =
    either_way (λ (s : ℕ × ℕ). s.1 ≤ page_count) (leb (page_floor end) (page_ceiling base)) _ _
      (λ empty. omega arith) (λ some_pages. rw (floor_page end le) (ground arith))

pub outward_page_span-le :
    (base end : ℕ) → end ≤ physical_limit → (outward_page_span base end).1 ≤ page_count
unfolding outward_page_span
outward_page_span-le base end le =
    either_way (λ (s : ℕ × ℕ). s.1 ≤ page_count) (leb end base) _ _ (λ empty. omega arith)
      (λ some_pages. rw (last_page end le) (ground arith))

-- What is clipped lies in the physical space, and holds the same pages of it.
pub record IsClipped (base length : ℕ) (clipped : ℕ × ℕ) : Type 0 where
  pub base_fits : clipped.0 ≤ physical_limit
  pub end_fits : clipped.1 ≤ physical_limit
  pub same_inside :
      (page : ℕ)
      → page < page_count
      → inside clipped.0 clipped.1 page ≡ inside base (base + length) page
  pub same_meets :
      (page : ℕ)
      → page < page_count
      → meets clipped.0 clipped.1 page ≡ meets base (base + length) page

pub clip_to_physical-cases :
    (base length : ℕ)
    → base < 2 ^ 64
    → length < 2 ^ 64
    → ((clip_to_physical base length ≡ none) × (leb (2 ^ 64) (base + length) ≡ true))
      ⊎ ((clipped : ℕ × ℕ) × (clip_to_physical base length ≡ some clipped)
          × (leb (2 ^ 64) (base + length) ≡ false)
          × IsClipped base length clipped)
unfolding clip_to_physical
clip_to_physical-cases base length lb ll = elim (Bool-cases (length == 0)) [
  | inl zero_length ↦ inr (
    (0, 0),
    rw zero_length,
    ground arith,
    record {
      base_fits = omega arith;
      end_fits = omega arith;
      same_inside = λ page lt. ground arith;
      same_meets = λ page lt. ground arith;
    },
  )
  | inr nonzero ↦ elim (Bool-cases (ltb (word64_max - length) base)) [
    | inl over ↦ inl (rw (nonzero, over), ground arith)
    | inr fits ↦ elim (Bool-cases (leb physical_limit base)) [
      | inl above ↦ inr (
        (0, 0),
        rw (nonzero, fits, above),
        ground arith,
        record {
          base_fits = omega arith;
          end_fits = omega arith;
          same_inside = λ page lt. ground arith;
          same_meets = λ page lt. ground arith;
        },
      )
      | inr below ↦ elim (Bool-cases (ltb physical_limit (base + length))) [
        | inl beyond ↦ inr (
          (base, physical_limit),
          rw (nonzero, fits, below, beyond),
          ground arith,
          record {
            base_fits = ground arith;
            end_fits = omega arith;
            same_inside = λ page lt. ground arith;
            same_meets = λ page lt. ground arith;
          },
        )
        | inr within ↦ inr (
          (base, base + length),
          rw (nonzero, fits, below, within),
          ground arith,
          record {
            base_fits = ground arith;
            end_fits = ground arith;
            same_inside = λ page lt. refl;
            same_meets = λ page lt. refl;
          },
        )
      ]
    ]
  ]
]
