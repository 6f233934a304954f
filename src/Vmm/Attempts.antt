-- ===== src/Vmm/Attempts.antt =====
-- `vmm_map_page` of kernel/mm/vmm.c agrees with the partial map of pages.
use tinyshell_os.Base.{
  ℕ, ◌/◌, ◌%◌, ◌≤◌, ◌<◌, ◌≡◌, inl, inr, refl, sym, ◌∙◌, subst, Bool, true, false, not, ◌&&◌, none,
  some, arith, Bool-cases, Option-cases, write, find_first-some, ltb, ◌==◌, if◌then◌else◌, word_mod,
}
use tinyshell_os.Base.Counts.{count}
use tinyshell_os.Vmm.{
  Places, Vmm, no_table, page_present, map_entry, table_for, allocate_dynamic_table, map_page,
  dynamic_address_is_valid,
}
use tinyshell_os.Vmm.Registers.{has, with_bit}
use tinyshell_os.Vmm.Model
use tinyshell_os.Vmm.Model.{Space, used, is_some, is_dynamic, has_room}
use tinyshell_os.Vmm.Spaces.{IsPlaced, IsSpace, has_table}
use tinyshell_os.Vmm.Changes.{taken}
use tinyshell_os.Vmm.Tables.{taken-IsTabled}
use tinyshell_os.Vmm.Groups.{used_by}
use tinyshell_os.Vmm.Maps.{new_mapping, present_lem}
use tinyshell_os.Vmm.Mapped.{Agree, mapped-Agree, counted_groups, free_table, all_taken, some_free}

table_for_there :
    (places : Places) (d : ℕ) (s : Vmm)
    → has_table s d ≡ true
    → table_for places d s ≡ (s.directory_table_indices d, s)
unfolding table_for
table_for_there places d s g = rw g refl

table_for_full :
    (places : Places) (d : ℕ) (s : Vmm)
    → has_table s d ≡ false
    → free_table s ≡ none
    → table_for places d s ≡ (no_table, s)
unfolding table_for allocate_dynamic_table
table_for_full places d s g e = rw (g, allocate_dynamic_table, e) refl

table_for_free :
    (places : Places) (d t : ℕ) (s : Vmm)
    → has_table s d ≡ false
    → free_table s ≡ some t
    → t < 64
    → table_for places d s ≡ (t, taken places d t s)
unfolding table_for allocate_dynamic_table with_bit
table_for_free places d t s g e lt =
    let other : (t == no_table) ≡ false = ground arith in
    rw (g, allocate_dynamic_table, e, other) refl

-- `vmm_map_page` behind its guard, on the table that it gets
abbrev in_table : ℕ → ℕ → ℕ → ℕ × Vmm → Bool × Vmm
in_table v p flags (t, s) = if t == no_table then (false, s) else map_entry v p flags t s

abbrev answered : ℕ → ℕ → ℕ → Space → Bool × Space
answered v p flags m =
    if not (is_some (m (v / 4096))) && has_room m (v / 4194304)
    then (true, write m (v / 4096) (some (new_mapping p flags)))
    else (false, m)

-- A page that is mapped stays as it is.
map_entry-present :
    (s : Vmm) (v p flags t : ℕ)
    → has page_present (s.page_tables t (v / 4096 % 1024)) ≡ true
    → map_entry v p flags t s ≡ (false, s)
unfolding map_entry
map_entry-present s v p flags t on = rw on refl

-- A page of a group that has a table
attempt_there :
    (places : Places) (s : Vmm) (m : Space) (v p flags : ℕ)
    → IsPlaced places
    → IsSpace places s m
    → v < word_mod
    → p % 4096 ≡ 0
    → flags < 4
    → has_table s (v / 4194304) ≡ true
    → Agree places
        (in_table v p flags (s.directory_table_indices (v / 4194304), s))
        (answered v p flags m)
attempt_there places s m v p flags r h lt al lf g =
    let d = v / 4194304 in
    let there : (s.directory_table_indices d == no_table) ≡ false = ground arith in
    let room : used m d ≡ true = h.groups d (omega arith) ∙ g in
    let present = present_lem places s m v h.tabled lt g in
    elim (Bool-cases (is_some (m (v / 4096)))) [
      | inl mapped ↦
          let e = map_entry-present s v p flags (s.directory_table_indices d) (present ∙ mapped) in
          rw (there, mapped, e) (refl, h)
      | inr free ↦
          rw (there, free, room)
            (mapped-Agree places s m v p flags r h.tabled lt g al lf free
              (λ c lc ne. h.groups c lc))
    ]

-- A page of a group that has none, in the free table `t`
attempt_new :
    (places : Places) (s : Vmm) (m : Space) (v p flags t : ℕ)
    → IsPlaced places
    → IsSpace places s m
    → v < word_mod
    → 0x40000000 ≤ v
    → p % 4096 ≡ 0
    → flags < 4
    → has_table s (v / 4194304) ≡ false
    → free_table s ≡ some t
    → Agree places (in_table v p flags (t, taken places (v / 4194304) t s)) (answered v p flags m)
attempt_new places s m v p flags t r h lt lo al lf g e =
    let d = v / 4194304 in
    let (lo', hi, not_taken) = find_first-some (λ index. not (s.table_in_use index)) 32 32 t e in
    let free : s.table_in_use t ≡ false = ground arith in
    let room : ltb (count (used m) 1024) 64 ≡ true =
      ground (arith, counted_groups places s m h, some_free s t hi free) in
    let unused : used m d ≡ false = h.groups d (omega arith) ∙ g in
    let unmapped : is_some (m (v / 4096)) ≡ false = elim (Bool-cases (is_some (m (v / 4096)))) [
      | inl on ↦
          let q : v / 4096 / 1024 ≡ d = omega arith in
          let k : used m d ≡ true = subst (λ c. used m c ≡ true) q (used_by m (v / 4096) on) in
          absurd (let z : true ≡ false = sym k ∙ unused in cc)
      | inr off ↦ off
    ] in
    let other : (t == no_table) ≡ false = ground arith in
    let tabled =
      taken-IsTabled places s m d t r h.tabled (omega arith) (omega arith) lo' hi g free in
    let here : write s.directory_table_indices d t d ≡ t = ground arith in
    let there : has_table (taken places d t s) d ≡ true = ground arith in
    rw (other, unmapped, unused, room)
      (subst
        (λ i.
          Agree places (map_entry v p flags i (taken places d t s))
            (true, write m (v / 4096) (some (new_mapping p flags))))
        here
        (mapped-Agree places (taken places d t s) m v p flags r tabled lt there al lf unmapped
          λ c lc ne. h.groups c lc ∙ ground arith))

attempt-Agree :
    (places : Places) (s : Vmm) (m : Space) (v p flags : ℕ)
    → IsPlaced places
    → IsSpace places s m
    → v < word_mod
    → 0x40000000 ≤ v
    → p % 4096 ≡ 0
    → flags < 4
    → Agree places (in_table v p flags (table_for places (v / 4194304) s)) (answered v p flags m)
attempt-Agree places s m v p flags r h lt lo al lf =
    let d = v / 4194304 in
    elim (Bool-cases (has_table s d)) [
      | inl g ↦
          subst (λ x. Agree places (in_table v p flags x) (answered v p flags m))
            (sym (table_for_there places d s g)) (attempt_there places s m v p flags r h lt al lf g)
      | inr g ↦ elim (Option-cases (free_table s)) [
        | inl e ↦
            let unused : used m d ≡ false = h.groups d (omega arith) ∙ g in
            let room : ltb (count (used m) 1024) 64 ≡ false =
              ground (arith, counted_groups places s m h, all_taken places s m h.tabled e) in
            let refused : answered v p flags m ≡ (false, m) =
              elim (Bool-cases (is_some (m (v / 4096)))) [
                | inl on ↦ rw (unused, room, on) refl
                | inr off ↦ rw (unused, room, off) refl
              ] in
            subst (λ x. Agree places (in_table v p flags x) (answered v p flags m))
              (sym (table_for_full places d s g e)) (rw refused (refl, h))
        | inr (t, e) ↦
            let (lo', hi, free) = find_first-some (λ index. not (s.table_in_use index)) 32 32 t e in
            subst (λ x. Agree places (in_table v p flags x) (answered v p flags m))
              (sym (table_for_free places d t s g e hi))
              (attempt_new places s m v p flags t r h lt lo al lf g e)
      ]
    ]

-- `vmm_map_page` maps a page exactly as the map does.
pub map_page-Agree :
    (places : Places) (s : Vmm) (m : Space) (v p flags : ℕ)
    → IsPlaced places
    → IsSpace places s m
    → v < word_mod
    → Agree places (map_page places v p flags s) (Model.map v p flags m)
unfolding map_page Model.map dynamic_address_is_valid
map_page-Agree places s m v p flags r h lt = elim (Bool-cases (is_dynamic v)) [
  | inr bad ↦ simp (h.tabled.on, bad) (refl, h)
  | inl dyn ↦ elim (Bool-cases (p % 4096 == 0)) [
    | inr bad ↦ simp (h.tabled.on, dyn, bad) (refl, h)
    | inl al ↦ elim (Bool-cases (ltb flags 4)) [
      | inr bad ↦
          let bad' : (flags / 4 == 0) ≡ false = ground arith in
          simp (h.tabled.on, dyn, al, bad, bad') (refl, h)
      | inl lf ↦
          let lf' : (flags / 4 == 0) ≡ true = ground arith in
          simp (h.tabled.on, dyn, al, lf, lf')
            (attempt-Agree places s m v p flags r h lt (ground arith) (ground arith) (ground arith))
    ]
  ]
]
