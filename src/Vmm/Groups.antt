-- ===== src/Vmm/Groups.antt =====
-- Which groups of 1024 pages have a mapped page.
use tinyshell_os.Base.{
  ℕ, ◌+◌, ◌*◌, ◌/◌, ◌%◌, ◌<◌, ◌≡◌, ◌≢◌, inl, inr, refl, sym, ◌∙◌, true, false, Option, none, arith,
  Option-cases, write, find_first, find_first-none, find_first-congr, find_first-eq-none, ◌==◌,
}
use tinyshell_os.Vmm.Registers.{Mapping}
use tinyshell_os.Vmm.Model.{Space, used, is_some}

pub used_by : (m : Space) (page : ℕ) → is_some (m page) ≡ true → used m (page / 1024) ≡ true
unfolding used
used_by m page h =
    elim (Option-cases (find_first (λ index. is_some (m (page / 1024 * 1024 + index))) 1024 0)) [
      | inl e ↦
          let q : page / 1024 * 1024 + page % 1024 ≡ page = omega arith in
          let n : is_some (m (page / 1024 * 1024 + page % 1024)) ≡ false =
            find_first-none (λ index. is_some (m (page / 1024 * 1024 + index))) 1024 0 (page % 1024)
              e (omega arith) (omega arith) in
          absurd (let r : true ≡ false = sym h ∙ rw q at n in cc)
      | inr (index, e) ↦ rw (used, e) refl
    ]

-- Another group's page does not matter.
pub used-write :
    (m : Space) (page group : ℕ) (o : Option Mapping)
    → group ≢ page / 1024
    → used (write m page o) group ≡ used m group
unfolding used
used-write m page group o ne =
    let e : find_first (λ index. is_some (write m page o (group * 1024 + index))) 1024 0
        ≡ find_first (λ index. is_some (m (group * 1024 + index))) 1024 0 =
      find_first-congr _ _ 1024 0
        λ j lo hi. let other : (group * 1024 + j == page) ≡ false = ground arith in rw other refl in
    rw (used, e) refl

pub unused :
    (m : Space) (group : ℕ)
    → ((index : ℕ) → index < 1024 → is_some (m (group * 1024 + index)) ≡ false)
    → used m group ≡ false
unfolding used
unused m group h =
    let e : find_first (λ index. is_some (m (group * 1024 + index))) 1024 0 ≡ none =
      find_first-eq-none _ 1024 0 λ j lo hi. h j hi in
    rw (used, e) refl
